-- ===== src/Gateway/Mocks.antt =====
-- A run of `collect_thread_mock` onto a queue with room for its samples.
use i_mx6ull_water_qualit.Base.{
  ℕ, zero, suc, ◌+◌, ◌≤◌, ◌<◌, ◌≡◌, refl, sym, ap, ◌∙◌, arith, false, List, [], ◌∷◌, ◌++◌, none,
  some, done, map, length, append-nil, append_assoc, length-append, u32,
}
use i_mx6ull_water_qualit.Base.Int.{pos}
use i_mx6ull_water_qualit.Float.{Float}
use i_mx6ull_water_qualit.Sample.{Sample, sample_generate_mock}
use i_mx6ull_water_qualit.SampleQueue.{SampleQueue}
use i_mx6ull_water_qualit.SampleQueue.Fifo.{Fifo}
use i_mx6ull_water_qualit.SampleQueue.Front.{with_last, push_room}
use i_mx6ull_water_qualit.SampleQueue.Refine.{Represents}
use i_mx6ull_water_qualit.Gateway.Collect.{
  Turn, Collecting, hand_over, mock_round, collect_thread_mock,
}

-- the sequence numbers after `n`, in 32 bits
abbrev pub numbers_after : ℕ → ℕ → List ℕ
numbers_after n zero = []
numbers_after n (suc k) = u32 (n + 1) ∷ numbers_after (u32 (n + 1)) k

module _ {F : Type 0} (float : Float F) where
  abbrev pub mock_at : ℕ → Turn F → Sample F
  mock_at n t = elim (sample_generate_mock float n t.clock (some t.sample)).1 [
    | none ↦ t.sample
    | some x ↦ x
  ]

  -- the samples of a run that starts with `g_mock_sequence` at `n`
  abbrev pub mocks : ℕ → List (Turn F) → List (Sample F)
  mocks n [] = []
  mocks n (t ∷ turns) = mock_at n t ∷ mocks (u32 (n + 1)) turns

  pub length-mocks : (n : ℕ) (turns : List (Turn F)) → length (mocks n turns) ≡ length turns
  length-mocks n [] = refl
  length-mocks n (t ∷ turns) = omega (arith, length-mocks (u32 (n + 1)) turns)

  pub sequence-mocks :
      (n : ℕ) (turns : List (Turn F))
      → map (λ x. x.sequence) (mocks n turns) ≡ numbers_after n (length turns)
  unfolding sample_generate_mock
  sequence-mocks n [] = refl
  sequence-mocks n (t ∷ turns) = ap (λ l. u32 (n + 1) ∷ l) (sequence-mocks (u32 (n + 1)) turns)

module _ {F : Type 0} (float : Float F) (blank : Sample F) where
  one_mock :
      (t : Turn F) (s : Collecting F) (f : Fifo (Sample F))
      → Represents blank s.raw_queue f
      → f.closed ≡ false
      → length f.items < s.raw_queue.capacity
      → (after : SampleQueue (Sample F)) × (mock_round float t s
          ≡ done (some (record s { raw_queue = after; mock_sequence = u32 (s.mock_sequence + 1) })))
        × Represents blank after (with_last (mock_at float s.mock_sequence t) f)
        × (after.capacity ≡ s.raw_queue.capacity)
  unfolding mock_round hand_over sample_generate_mock
  one_mock t s f r open_ room =
      let (after, e, r2, c) =
        push_room blank (pos 100) t.wakes s.raw_queue f (mock_at float s.mock_sequence t) r open_
          room in
      (after, rw e refl, r2, c)

  -- The queue has the mock samples behind its own.
  pub record Mocked (turns : List (Turn F)) (s : Collecting F) (f : Fifo (Sample F)) : Type 0 where
    pub after : Collecting F
    pub filled : Fifo (Sample F)
    pub returns : collect_thread_mock float turns s ≡ done (some after)
    pub items : filled.items ≡ f.items ++ mocks float s.mock_sequence turns
    pub represents : Represents blank after.raw_queue filled

  pub collects_mocks :
      (turns : List (Turn F)) (s : Collecting F) (f : Fifo (Sample F))
      → Represents blank s.raw_queue f
      → f.closed ≡ false
      → length f.items + length turns ≤ s.raw_queue.capacity
      → Mocked turns s f
  unfolding collect_thread_mock
  collects_mocks [] s f r open_ room = record {
    after = s;
    filled = f;
    returns = refl;
    items = sym (append-nil f.items);
    represents = r;
  }
  collects_mocks (t ∷ turns) s f r open_ room =
      let x = mock_at float s.mock_sequence t in
      let (after, e, r2, c) = one_mock t s f r open_ (omega arith) in
      let m =
        collects_mocks turns
          (record s { raw_queue = after; mock_sequence = u32 (s.mock_sequence + 1) })
          (with_last x f) r2 open_ (omega (arith, length-append {0} f.items (x ∷ []))) in
      record {
        after = m.after;
        filled = m.filled;
        returns = rw e m.returns;
        items =
            m.items ∙ append_assoc f.items (x ∷ []) (mocks float (u32 (s.mock_sequence + 1)) turns);
        represents = m.represents;
      }

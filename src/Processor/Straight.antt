-- ===== src/Processor/Straight.antt =====
-- A run of `processor_loop` that finds a sample in each round and room for it.
use i_mx6ull_water_qualit.Base.{
  ℕ, ◌+◌, ◌≤◌, ◌<◌, ◌≡◌, refl, sym, ap₂, ◌==◌, Bool-cases, inl, inr, ◌∙◌, arith, false, List, [],
  ◌∷◌, ◌++◌, some, done, map, length, append-nil, append_assoc, length-append,
}
use i_mx6ull_water_qualit.Base.Int.{ℤ, pos}
use i_mx6ull_water_qualit.Float.{Float}
use i_mx6ull_water_qualit.Sample.{Sample}
use i_mx6ull_water_qualit.SampleQueue.{SampleQueue}
use i_mx6ull_water_qualit.SampleQueue.Fifo.{Fifo}
use i_mx6ull_water_qualit.SampleQueue.Front.{without_first, with_last, pop_front, push_room}
use i_mx6ull_water_qualit.SampleQueue.Refine.{Represents}
use i_mx6ull_water_qualit.Processor.{Threshold, mark_alarm}
use i_mx6ull_water_qualit.Processor.Thread.{
  Processing, Round, alarm_of, observe, processor_round, processor_loop,
}
use i_mx6ull_water_qualit.Processor.Passing.{between, marked, popped_some, pushed}

module _ {F : Type 0} (float : Float F) (thresholds : Threshold F) (alarm_fd : ℤ)
    (blank : Sample F) where
  abbrev joined : SampleQueue (Sample F) → SampleQueue (Sample F) → Processing F → Processing F
  joined raw store s = between float thresholds alarm_fd blank raw store s

  abbrev pub marks : List (Sample F) → List (Sample F)
  marks xs = map (marked float thresholds alarm_fd blank) xs

  pub length-marks : (xs : List (Sample F)) → length (marks xs) ≡ length xs
  length-marks [] = refl
  length-marks (x ∷ xs) = omega (arith, length-marks xs)

  mark_alarm-sequence : (alarm : ℕ) (x : Sample F) → (mark_alarm alarm x).sequence ≡ x.sequence
  unfolding mark_alarm
  mark_alarm-sequence alarm x = elim (Bool-cases (alarm == 0)) [
    | inl e ↦ rw e refl
    | inr e ↦ rw e refl
  ]

  pub sequence-marks :
      (xs : List (Sample F)) → map (λ x. x.sequence) (marks xs) ≡ map (λ x. x.sequence) xs
  sequence-marks [] = refl
  sequence-marks (x ∷ xs) =
      ap₂ (λ n l. n ∷ l) (mark_alarm-sequence (alarm_of float thresholds alarm_fd x) x)
        (sequence-marks xs)

  one_passed :
      (round : Round F) (raw store : SampleQueue (Sample F)) (f g : Fifo (Sample F)) (x : Sample F)
      (rest : List (Sample F)) (s : Processing F)
      → Represents blank raw f
      → Represents blank store g
      → f.items ≡ x ∷ rest
      → g.closed ≡ false
      → length g.items < store.capacity
      → (raw_after store_after : SampleQueue (Sample F)) × (processor_round float thresholds
            alarm_fd round
            (joined raw store s)
          ≡ done (
              some (
                joined raw_after store_after
                  (observe float thresholds alarm_fd (alarm_of float thresholds alarm_fd x) s))))
        × Represents blank raw_after (without_first rest f)
        × Represents blank store_after (with_last (marked float thresholds alarm_fd blank x) g)
        × (store_after.capacity ≡ store.capacity)
  one_passed round raw store f g x rest s r t items open_ room =
      let (raw_after, e, r2) = pop_front blank (pos 500) round.pop_wakes raw f x rest r items in
      let (store_after, e2, t2, c) =
        push_room blank (pos 100) round.push_wakes store g
          (marked float thresholds alarm_fd blank x) t open_ room in
      (
        raw_after,
        store_after,
        popped_some float thresholds alarm_fd blank round raw raw_after store s x e
            ∙ pushed float thresholds alarm_fd blank round.push_wakes raw_after store store_after s
                x _ e2,
        r2,
        t2,
        c,
      )

  -- The raw queue is empty, and the store queue has the marked samples behind its own.
  pub record PassedAll (rounds : List (Round F)) (xs : List (Sample F))
      (raw store : SampleQueue (Sample F)) (g : Fifo (Sample F)) (s : Processing F) : Type 0 where
    pub raw_after : SampleQueue (Sample F)
    pub store_after : SampleQueue (Sample F)
    pub context : Processing F
    pub emptied : Fifo (Sample F)
    pub filled : Fifo (Sample F)
    pub returns :
        processor_loop float thresholds alarm_fd rounds (joined raw store s)
        ≡ done (some (joined raw_after store_after context))
    pub raw_empty : emptied.items ≡ []
    pub store_filled : filled.items ≡ g.items ++ marks xs
    pub raw_represents : Represents blank raw_after emptied
    pub store_represents : Represents blank store_after filled

  pub passes_all :
      (rounds : List (Round F)) (xs : List (Sample F)) (raw store : SampleQueue (Sample F))
      (f g : Fifo (Sample F)) (s : Processing F)
      → Represents blank raw f
      → Represents blank store g
      → f.items ≡ xs
      → g.closed ≡ false
      → length rounds ≡ length xs
      → length g.items + length xs ≤ store.capacity
      → PassedAll rounds xs raw store g s
  unfolding processor_loop
  passes_all [] [] raw store f g s r t items open_ same room = record {
    raw_after = raw;
    store_after = store;
    context = s;
    emptied = f;
    filled = g;
    returns = refl;
    raw_empty = items;
    store_filled = sym (append-nil g.items);
    raw_represents = r;
    store_represents = t;
  }
  passes_all [] (x ∷ xs) raw store f g s r t items open_ same room = absurd (omega arith)
  passes_all (round ∷ rounds) [] raw store f g s r t items open_ same room = absurd (omega arith)
  passes_all (round ∷ rounds) (x ∷ xs) raw store f g s r t items open_ same room =
      let y = marked float thresholds alarm_fd blank x in
      let (raw_after, store_after, e, r2, t2, c) =
        one_passed round raw store f g x xs s r t items open_ (omega arith) in
      let p =
        passes_all rounds xs raw_after store_after (without_first xs f) (with_last y g)
          (observe float thresholds alarm_fd (alarm_of float thresholds alarm_fd x) s) r2 t2 refl
          open_ (omega arith) (omega (arith, length-append {0} g.items (y ∷ []))) in
      record {
        raw_after = p.raw_after;
        store_after = p.store_after;
        context = p.context;
        emptied = p.emptied;
        filled = p.filled;
        returns = rw e p.returns;
        raw_empty = p.raw_empty;
        store_filled = p.store_filled ∙ append_assoc g.items (y ∷ []) (marks xs);
        raw_represents = p.raw_represents;
        store_represents = p.store_represents;
      }

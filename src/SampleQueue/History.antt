-- ===== src/SampleQueue/History.antt =====
-- What a new queue holds and counts after any history of operations.
use mathlib.Core.Path.{subst}
use i_mx6ull_water_qualit.Base.{
  ℕ, suc, ◌+◌, ◌-◌, ◌≤◌, ◌<◌, ◌≡◌, refl, sym, ap, ap₂, ◌∙◌, arith, leb, leb→le, if◌then◌else◌,
  Bool-cases, inl, inr, true, false, List, [], ◌∷◌, ◌++◌, some, done, map, length, length-append,
  length-replicate, replicate, drop, append_assoc, append-nil, u32,
}
use i_mx6ull_water_qualit.Base.Int.{pos}
use i_mx6ull_water_qualit.SampleQueue.{SampleQueue, Op, pushes, create}
use i_mx6ull_water_qualit.SampleQueue.Commit.{run}
use i_mx6ull_water_qualit.SampleQueue.Fifo
use i_mx6ull_water_qualit.SampleQueue.Fifo.{Fifo}
use i_mx6ull_water_qualit.SampleQueue.Valid.{contents}
use i_mx6ull_water_qualit.SampleQueue.Refine.{Represents}
use i_mx6ull_water_qualit.SampleQueue.Refine.Pop.{size}
use i_mx6ull_water_qualit.SampleQueue.Refine.Runs.{run-Stepped}

module _ {A : Type 0} (blank : A) where
  pub create-Represents :
      (n : ℕ)
      → 0 < n
      → (q : SampleQueue A) × (create (pos n) true true blank ≡ some q)
        × (q.capacity ≡ n)
        × Represents blank q Fifo.empty
  unfolding create
  create-Represents n h = (
    record {
      samples = replicate n blank;
      capacity = n;
      head = 0;
      tail = 0;
      count = 0;
      shutdown = false;
      overflow_count = 0;
      push_count = 0;
      pop_count = 0;
    },
    ground arith,
    refl,
    record {
      valid = record {
        storage = length-replicate n blank;
        tail_in = h;
        count_in = omega arith;
        head_at = omega arith;
      };
      held = refl;
      closed = refl;
      pushed = refl;
      popped = refl;
      dropped = refl;
    },
  )

  -- A new queue of capacity `n` bears any history of operations without a fault. It then does
  -- what the bounded queue does, holds `n` samples at most, and its counters balance in 32 bits:
  -- what was pushed was popped, dropped for a newer sample, or is still there.
  pub run-create :
      (n : ℕ) (ops : List (Op A))
      → 0 < n
      → (q r : SampleQueue A) × (create (pos n) true true blank ≡ some q)
        × (run ops q ≡ done r)
        × Represents blank r (Fifo.run n ops Fifo.empty)
        × (r.count ≤ n)
        × (u32 (r.pop_count + r.overflow_count + r.count) ≡ r.push_count)
  run-create n ops h =
      let (q, made, capacity, s) = create-Represents n h in
      let a = run-Stepped blank ops q Fifo.empty s in
      let held =
        subst (λ c. Represents blank a.after (Fifo.run c ops Fifo.empty)) capacity a.represents in
      let fine =
        Fifo.run-IsBalanced n ops Fifo.empty h (record { balance = refl; bound = omega arith }) in
      (
        q,
        a.after,
        made,
        a.returns,
        held,
        omega (arith, fine.bound, size blank held),
        omega (arith, fine.balance, size blank held, held.pushed, held.popped, held.dropped),
      )

  lt→not_leb : (a b : ℕ) → b < a → leb a b ≡ false
  lt→not_leb a b h = ground arith

  -- what a queue that is never emptied keeps of the samples pushed onto `ys`
  pushed_onto : ℕ → List A → List A → List A
  pushed_onto cap ys [] = ys
  pushed_onto cap ys (x ∷ xs) =
      pushed_onto cap ((if leb cap (length ys) then drop 1 ys else ys) ++ x ∷ []) xs

  run-pushes :
      (cap : ℕ) (xs : List A) (f : Fifo A)
      → f.closed ≡ false
      → (Fifo.run cap (map pushes xs) f).items ≡ pushed_onto cap f.items xs
  unfolding Fifo.run Fifo.step pushed_onto
  run-pushes cap [] f o = refl
  run-pushes cap (x ∷ xs) f o =
      run-pushes cap xs (Fifo.step cap (pushes x) f) (ground arith)
      ∙ ap (λ ys. pushed_onto cap ys xs) (ground arith)

  pushed_onto-newest :
      (cap : ℕ) (ys xs : List A)
      → 0 < cap
      → length ys ≤ cap
      → pushed_onto cap ys xs ≡ drop (length ys + length xs - cap) (ys ++ xs)
  unfolding pushed_onto
  pushed_onto-newest cap ys [] h b =
      sym (append-nil ys) ∙ ap (λ n. drop n (ys ++ [])) {x = 0} (omega arith)
  pushed_onto-newest cap [] (x ∷ xs) h b = rw (lt→not_leb cap 0 h) (
      pushed_onto-newest cap (x ∷ []) xs h (omega arith)
      ∙ ap (λ n. drop n (x ∷ xs)) {x = 1 + length xs - cap} (omega arith))
  pushed_onto-newest cap (y ∷ ys) (x ∷ xs) h b = elim (Bool-cases (leb cap (length (y ∷ ys)))) [
    | inl full ↦ rw full (
        pushed_onto-newest cap (ys ++ x ∷ []) xs h (omega (arith, length-append {0} ys (x ∷ [])))
        ∙ ap₂ drop {y = length xs}
            (omega (arith, length-append {0} ys (x ∷ []), leb→le cap (suc (length ys)) full))
            (append_assoc ys (x ∷ []) xs)
        ∙ ap (λ n. drop n (y ∷ (ys ++ x ∷ xs))) {x = suc (length xs)}
            (omega (arith, leb→le cap (suc (length ys)) full)))
    | inr room ↦ rw room (
        pushed_onto-newest cap (y ∷ (ys ++ x ∷ [])) xs h
          (ground (arith, length-append {0} ys (x ∷ [])))
        ∙ ap₂ drop {y = suc (length ys) + suc (length xs) - cap}
            (omega (arith, length-append {0} ys (x ∷ [])))
            (ap (λ l. y ∷ l) (append_assoc ys (x ∷ []) xs)))
  ]

  -- If samples are pushed and nobody takes one, a new queue of capacity `n` ends with the last `n` of
  -- them, in order.
  pub run-create-pushes :
      (n : ℕ) (xs : List A)
      → 0 < n
      → (q r : SampleQueue A) × (create (pos n) true true blank ≡ some q)
        × (run (map pushes xs) q ≡ done r)
        × (contents blank r ≡ drop (length xs - n) xs)
  run-create-pushes n xs h =
      let (q, r, made, ran, s, _, _) = run-create n (map pushes xs) h in
      (
        q,
        r,
        made,
        ran,
        s.held
            ∙ run-pushes n xs Fifo.empty refl
            ∙ pushed_onto-newest n [] xs h (omega arith)
            ∙ ap (λ k. drop k xs) {x = 0 + length xs - n} (omega arith),
      )

-- ===== src/SampleQueue/Front.antt =====
-- A pop of a queue that is not empty, and a push onto one that is not full, do not wait.
use mathlib.Core.Path.{subst}
use i_mx6ull_water_qualit.Base.{
  ℕ, false, leb, ◌++◌, ◌+◌, ◌<◌, ◌≡◌, inl, refl, ap, ◌∙◌, arith, true, List, [], ◌∷◌, some, done,
  length,
}
use i_mx6ull_water_qualit.Base.Int.{ℤ}
use i_mx6ull_water_qualit.SampleQueue.{SampleQueue, Wake, success}
use i_mx6ull_water_qualit.SampleQueue.Wait.{
  goes_on, wait_not_full, push, wait_not_empty, finish_pop, pop,
}
use i_mx6ull_water_qualit.SampleQueue.Fifo
use i_mx6ull_water_qualit.SampleQueue.Fifo.{Fifo}
use i_mx6ull_water_qualit.SampleQueue.Refine.{Represents, commit_push-Pushed}
use i_mx6ull_water_qualit.SampleQueue.Refine.Pop.{commit_pop-Popped, size}

module _ {A : Type 0} where
  -- the abstract queue without its first sample
  abbrev pub without_first : List A → Fifo A → Fifo A
  without_first rest f = record f { items = rest; popped = f.popped + 1 }

  at_once :
      (timeout : ℤ) (wakes : List (Wake A)) (q : SampleQueue A)
      → 0 < q.count
      → pop (some q) true timeout wakes ≡ finish_pop (goes_on q)
  unfolding pop wait_not_empty
  at_once timeout [] q h = ground arith
  at_once timeout (wake ∷ wakes) q h = ground arith

  -- the abstract queue with one more sample
  abbrev pub with_last : A → Fifo A → Fifo A
  with_last x f = record f { items = f.items ++ x ∷ []; pushed = f.pushed + 1 }

  not_full :
      (timeout : ℤ) (wakes : List (Wake A)) (q : SampleQueue A)
      → q.count < q.capacity
      → wait_not_full timeout wakes q ≡ done (some q)
  unfolding wait_not_full
  not_full timeout [] q h = ground arith
  not_full timeout (wake ∷ wakes) q h = ground arith

  Fifo-push-room :
      (cap : ℕ) (x : A) (f : Fifo A)
      → f.closed ≡ false
      → length f.items < cap
      → Fifo.push cap x f ≡ (success, with_last x f)
  unfolding Fifo.push
  Fifo-push-room cap x f open_ h = rw (open_, room) refl
    where
      room : leb cap (length f.items) ≡ false
      room = ground arith

module _ {A : Type 0} (blank : A) where
  pub push_room :
      (timeout : ℤ) (wakes : List (Wake A)) (q : SampleQueue A) (f : Fifo A) (x : A)
      → Represents blank q f
      → f.closed ≡ false
      → length f.items < q.capacity
      → (after : SampleQueue A) × (push (some q) (some x) timeout wakes
          ≡ done (some (success, some after)))
        × Represents blank after (with_last x f)
        × (after.capacity ≡ q.capacity)
  unfolding push
  push_room timeout wakes q f x s open_ h =
      let p = commit_push-Pushed blank q x f s in
      let room = Fifo-push-room q.capacity x f open_ h in
      (
        p.after,
        rw (not_full timeout wakes q (omega (arith, size blank s)), p.returns, room) refl,
        subst (λ r. Represents blank p.after r.1) room p.represents,
        p.same_capacity,
      )

  pub pop_front :
      (timeout : ℤ) (wakes : List (Wake A)) (q : SampleQueue A) (f : Fifo A) (x : A) (rest : List A)
      → Represents blank q f
      → f.items ≡ x ∷ rest
      → (after : SampleQueue A) × (pop (some q) true timeout wakes
          ≡ done (some (success, some x, some after)))
        × Represents blank after (without_first rest f)
  unfolding finish_pop
  pop_front timeout wakes q f x rest s i =
      let p = commit_pop-Popped blank q f s (inl (omega (arith, size blank s, ap length i))) in
      (
        p.after,
        at_once timeout wakes q (omega (arith, size blank s, ap length i))
            ∙ rw (p.returns, Fifo.pop-cons f x rest i) refl,
        subst (λ r. Represents blank p.after r.2) (Fifo.pop-cons f x rest i) p.represents,
      )

-- ===== src/SampleQueue/Blocking.antt =====
-- A push that waits, and the queue as the other threads have left it.
use mathlib.Core.Path.{subst}
use i_mx6ull_water_qualit.Base.{
  ℕ, zero, suc, ◌≡◌, refl, sym, ap, ◌∙◌, ◌⊎◌, inl, inr, leb, ◌&&◌, not, true, false, List, [], ◌∷◌,
  ◌++◌, Option, none, some, Run, done, append-nil, All, Bool-cases,
}
use i_mx6ull_water_qualit.Base.Int.{ℤ, pos, ltb_ℤ}
use i_mx6ull_water_qualit.SampleQueue.{SampleQueue, Op, Wake}
use i_mx6ull_water_qualit.SampleQueue.Wait.{wait_not_full, push}
use i_mx6ull_water_qualit.SampleQueue.Fifo
use i_mx6ull_water_qualit.SampleQueue.Fifo.{Fifo}
use i_mx6ull_water_qualit.SampleQueue.Refine.{Represents, commit_push-Pushed}
use i_mx6ull_water_qualit.SampleQueue.Refine.Runs.{Stepped, run-Stepped}

module _ {A : Type 0} where
  -- all that the other threads do during the first `k` waits
  abbrev pub meanwhile : ℕ → List (Wake A) → List (Op A)
  meanwhile zero wakes = []
  meanwhile (suc k) [] = []
  meanwhile (suc k) (wake ∷ wakes) = wake.others ++ meanwhile k wakes

  -- the caller may wait, and never times out
  pub record Waits (timeout : ℤ) (wakes : List (Wake A)) : Type 0 where
    pub may_wait : ltb_ℤ (pos 0) timeout ≡ true
    pub never : All (λ w. w.timed_out ≡ false) wakes

module _ {A : Type 0} (blank : A) where
  pub Fifo-run-append :
      (cap : ℕ) (xs ys : List (Op A)) (f : Fifo A)
      → Fifo.run cap (xs ++ ys) f ≡ Fifo.run cap ys (Fifo.run cap xs f)
  unfolding Fifo.run
  Fifo-run-append cap [] ys f = refl
  Fifo-run-append cap (x ∷ xs) ys f = Fifo-run-append cap xs ys (Fifo.step cap x f)

  -- how the wait loop of a push can end
  data Ended (timeout : ℤ) (wakes : List (Wake A)) (q : SampleQueue A) (f : Fifo A)
      : Run (Option (SampleQueue A)) → Type 0 where
    goes_on :
        (k : ℕ) (r : SampleQueue A) {result : Run (Option (SampleQueue A))}
        → result ≡ done (some r)
        → Represents blank r (Fifo.run q.capacity (meanwhile k wakes) f)
        → r.capacity ≡ q.capacity
        → Ended timeout wakes q f result
    still_waits :
        {result : Run (Option (SampleQueue A))}
        → result ≡ done none
        → Waits timeout wakes
        → Ended timeout wakes q f result

  at_once :
      (timeout : ℤ) (wakes : List (Wake A)) (q : SampleQueue A) (f : Fifo A)
      → Represents blank q f
      → wait_not_full timeout wakes q ≡ done (some q)
      → Ended timeout wakes q f (wait_not_full timeout wakes q)
  at_once timeout wakes q f s e = goes_on 0 q e (unfold Fifo.run in s) refl

  -- one wait that did not time out, before the rest of the loop
  later :
      (timeout : ℤ) (wake : Wake A) (wakes : List (Wake A)) (q : SampleQueue A) (f : Fifo A)
      {result : Run (SampleQueue A)}
      → (a : Stepped blank q result (Fifo.run q.capacity wake.others f))
      → ltb_ℤ (pos 0) timeout ≡ true
      → wake.timed_out ≡ false
      → {rest : Run (Option (SampleQueue A))}
      → Ended timeout wakes a.after (Fifo.run q.capacity wake.others f) rest
      → Ended timeout (wake ∷ wakes) q f rest
  later timeout wake wakes q f a long never (goes_on k r e s c) =
      goes_on (suc k) r e
        (subst (Represents blank r)
          (ap (λ n. Fifo.run n (meanwhile k wakes) (Fifo.run q.capacity wake.others f))
              a.same_capacity
            ∙ sym (Fifo-run-append q.capacity wake.others (meanwhile k wakes) f))
          s)
        (c ∙ a.same_capacity)
  later timeout wake wakes q f a long never (still_waits e w) =
      still_waits e (record { may_wait = long; never = (never, w.never) })

  wait_not_full-Ended :
      (timeout : ℤ) (wakes : List (Wake A)) (q : SampleQueue A) (f : Fifo A)
      → Represents blank q f
      → Ended timeout wakes q f (wait_not_full timeout wakes q)
  wait_not_full-Ended timeout [] q f s =
      elim (Bool-cases (leb q.capacity q.count && not q.shutdown)) [
        | inr free ↦ at_once timeout [] q f s (unfold wait_not_full in rw free refl)
        | inl full ↦ elim (Bool-cases (ltb_ℤ (pos 0) timeout)) [
          | inr short ↦ at_once timeout [] q f s (unfold wait_not_full in rw (full, short) refl)
          | inl long ↦
              still_waits {result = wait_not_full timeout [] q}
                (unfold wait_not_full in rw (full, long) refl)
                (record { may_wait = long; never = tt })
        ]
      ]
  wait_not_full-Ended timeout (wake ∷ wakes) q f s =
      elim (Bool-cases (leb q.capacity q.count && not q.shutdown)) [
        | inr free ↦ at_once timeout (wake ∷ wakes) q f s (unfold wait_not_full in rw free refl)
        | inl full ↦ elim (Bool-cases (ltb_ℤ (pos 0) timeout)) [
          | inr short ↦
              at_once timeout (wake ∷ wakes) q f s (unfold wait_not_full in rw (full, short) refl)
          | inl long ↦
              let a = run-Stepped blank wake.others q f s in
              let next =
                wait_not_full-Ended timeout wakes a.after (Fifo.run q.capacity wake.others f)
                  a.represents in
              elim (Bool-cases wake.timed_out) [
                | inl expired ↦
                    goes_on 1 a.after {result = wait_not_full timeout (wake ∷ wakes) q}
                      (unfold wait_not_full in rw (full, long, a.returns, expired) refl)
                      (subst (λ ops. Represents blank a.after (Fifo.run q.capacity ops f))
                        (sym (append-nil wake.others)) a.represents)
                      a.same_capacity
                | inr early ↦
                    subst (Ended timeout (wake ∷ wakes) q f)
                      {x = wait_not_full timeout wakes a.after}
                      {y = wait_not_full timeout (wake ∷ wakes) q}
                      (sym (unfold wait_not_full in rw (full, long, a.returns, early) refl))
                      (later timeout wake wakes q f a long early next)
              ]
        ]
      ]

  push-Ended :
      (timeout : ℤ) (wakes : List (Wake A)) (q : SampleQueue A) (f : Fifo A) (x : A)
      (result : Run (Option (SampleQueue A)))
      → wait_not_full timeout wakes q ≡ result
      → Ended timeout wakes q f result
      → ((k : ℕ) × (after : SampleQueue A) × (push (some q) (some x) timeout wakes
            ≡ done (
                some (
                  (Fifo.push q.capacity x (Fifo.run q.capacity (meanwhile k wakes) f)).0,
                  some after,
                )))
          × Represents blank after
              (Fifo.push q.capacity x (Fifo.run q.capacity (meanwhile k wakes) f)).1)
        ⊎ ((push (some q) (some x) timeout wakes ≡ done none) × Waits timeout wakes)
  unfolding push
  push-Ended timeout wakes q f x result w (goes_on k r e s c) =
      let g = Fifo.run q.capacity (meanwhile k wakes) f in
      let p = commit_push-Pushed blank r x g s in
      inl (
        k,
        p.after,
        rw (w, e, p.returns) (ap (λ n. done (some ((Fifo.push n x g).0, some p.after))) c),
        subst (λ n. Represents blank p.after (Fifo.push n x g).1) c p.represents,
      )
  push-Ended timeout wakes q f x result w (still_waits e waits) = inr (rw (w, e) refl, waits)

  -- A push, however long it waits, is one push to the bounded queue as the operations of the first
  -- `k` waits have left it: same result, same samples, same counts. It waits for ever only if
  -- its timeout is positive and none of its waits times out.
  pub push_linearizes :
      (timeout : ℤ) (wakes : List (Wake A)) (q : SampleQueue A) (f : Fifo A) (x : A)
      → Represents blank q f
      → ((k : ℕ) × (after : SampleQueue A) × (push (some q) (some x) timeout wakes
            ≡ done (
                some (
                  (Fifo.push q.capacity x (Fifo.run q.capacity (meanwhile k wakes) f)).0,
                  some after,
                )))
          × Represents blank after
              (Fifo.push q.capacity x (Fifo.run q.capacity (meanwhile k wakes) f)).1)
        ⊎ ((push (some q) (some x) timeout wakes ≡ done none) × Waits timeout wakes)
  push_linearizes timeout wakes q f x s =
      push-Ended timeout wakes q f x (wait_not_full timeout wakes q) refl
        (wait_not_full-Ended timeout wakes q f s)

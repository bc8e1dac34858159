-- ===== src/SampleQueue/Waiting.antt =====
-- The wait loop of a pop, and the queue as the other threads have left it.
use mathlib.Core.Path.{subst}
use mathlib.Core.Bool.{true≢false}
use i_mx6ull_water_qualit.Base.{
  ℕ, zero, suc, ◌<◌, ◌≡◌, ◌⊎◌, inl, inr, refl, sym, ap, ◌∙◌, arith, ◌==◌, ◌&&◌, not, Bool, true,
  false, List, [], ◌∷◌, Run, done, append-nil, Bool-cases, length,
}
use i_mx6ull_water_qualit.Base.Int.{ℤ, pos, ltb_ℤ}
use i_mx6ull_water_qualit.SampleQueue.{SampleQueue, Wake}
use i_mx6ull_water_qualit.SampleQueue.Wait.{Waited, waits, gives_up, goes_on, wait_not_empty}
use i_mx6ull_water_qualit.SampleQueue.Fifo
use i_mx6ull_water_qualit.SampleQueue.Fifo.{Fifo}
use i_mx6ull_water_qualit.SampleQueue.Refine.{Represents}
use i_mx6ull_water_qualit.SampleQueue.Refine.Pop.{size}
use i_mx6ull_water_qualit.SampleQueue.Refine.Runs.{Stepped, run-Stepped}
use i_mx6ull_water_qualit.SampleQueue.Blocking.{meanwhile, Waits, Fifo-run-append}

module _ {A : Type 0} where
  -- whether the `k`-th wait is there and times out
  abbrev pub times_out : ℕ → List (Wake A) → Bool
  times_out zero wakes = false
  times_out (suc k) [] = false
  times_out (suc zero) (wake ∷ wakes) = wake.timed_out
  times_out (suc (suc k)) (wake ∷ wakes) = times_out (suc k) wakes

  -- why a pop gives up after `k` waits, with the queue as `f`
  abbrev pub GivesUp : ℤ → ℕ → List (Wake A) → Fifo A → Type 0
  GivesUp timeout k wakes f =
      ((ltb_ℤ (pos 0) timeout ≡ false) × (k ≡ 0) × (f.items ≡ [])) ⊎ (times_out k wakes ≡ true)

  of_length_zero : (xs : List A) → length xs ≡ 0 → xs ≡ []
  of_length_zero [] e = refl
  of_length_zero (x ∷ xs) e = absurd (omega arith)

  times_out_later :
      (k : ℕ) (wake : Wake A) (wakes : List (Wake A))
      → times_out k wakes ≡ true
      → times_out (suc k) (wake ∷ wakes) ≡ true
  times_out_later zero wake wakes e = absurd (ground arith)
  times_out_later (suc k) wake wakes e = e

module _ {A : Type 0} (blank : A) where
  -- the abstract queue after one more wait in front
  joined :
      (k : ℕ) (wake : Wake A) (wakes : List (Wake A)) (f : Fifo A) (m n : ℕ)
      → m ≡ n
      → Fifo.run m (meanwhile k wakes) (Fifo.run n wake.others f)
        ≡ Fifo.run n (meanwhile (suc k) (wake ∷ wakes)) f
  joined k wake wakes f m n c =
      ap (λ o. Fifo.run o (meanwhile k wakes) (Fifo.run n wake.others f)) c
      ∙ sym (Fifo-run-append blank n wake.others (meanwhile k wakes) f)

  GivesUp-later :
      (timeout : ℤ) (k : ℕ) (wake : Wake A) (wakes : List (Wake A)) (f g : Fifo A)
      → ltb_ℤ (pos 0) timeout ≡ true
      → GivesUp timeout k wakes f
      → GivesUp timeout (suc k) (wake ∷ wakes) g
  GivesUp-later timeout k wake wakes f g long (inl short) = absurd (true≢false (sym long ∙ short.0))
  GivesUp-later timeout k wake wakes f g long (inr e) = inr (times_out_later k wake wakes e)

  -- how the wait loop of a pop can end
  pub data Ended (timeout : ℤ) (wakes : List (Wake A)) (q : SampleQueue A) (f : Fifo A)
      : Run (Waited A) → Type 0 where
    ready :
        (k : ℕ) (r : SampleQueue A) {result : Run (Waited A)}
        → result ≡ done (goes_on r)
        → Represents blank r (Fifo.run q.capacity (meanwhile k wakes) f)
        → r.capacity ≡ q.capacity
        → (0 < r.count) ⊎ (r.shutdown ≡ true)
        → Ended timeout wakes q f result
    quits :
        (k : ℕ) (r : SampleQueue A) {result : Run (Waited A)}
        → result ≡ done (gives_up r)
        → Represents blank r (Fifo.run q.capacity (meanwhile k wakes) f)
        → r.capacity ≡ q.capacity
        → GivesUp timeout k wakes (Fifo.run q.capacity (meanwhile k wakes) f)
        → Ended timeout wakes q f result
    still_waits :
        {result : Run (Waited A)}
        → result ≡ done waits
        → Waits timeout wakes
        → Ended timeout wakes q f result

  at_once :
      (timeout : ℤ) (wakes : List (Wake A)) (q : SampleQueue A) (f : Fifo A)
      → Represents blank q f
      → (q.count == 0 && not q.shutdown) ≡ false
      → wait_not_empty timeout wakes q ≡ done (goes_on q)
      → Ended timeout wakes q f (wait_not_empty timeout wakes q)
  at_once timeout wakes q f s free e =
      ready 0 q e (unfold Fifo.run in s) refl
        (elim (Bool-cases q.shutdown) [ inl e ↦ inr e | inr e ↦ inl (ground arith) ])

  too_short :
      (timeout : ℤ) (wakes : List (Wake A)) (q : SampleQueue A) (f : Fifo A)
      → Represents blank q f
      → (q.count == 0 && not q.shutdown) ≡ true
      → ltb_ℤ (pos 0) timeout ≡ false
      → wait_not_empty timeout wakes q ≡ done (gives_up q)
      → Ended timeout wakes q f (wait_not_empty timeout wakes q)
  too_short timeout wakes q f s empty short e =
      quits 0 q e (unfold Fifo.run in s) refl (
        unfold Fifo.run in inl (short, refl, of_length_zero f.items (ground (arith, size blank s))))

  -- one wait that did not time out, before the rest of the loop
  later :
      (timeout : ℤ) (wake : Wake A) (wakes : List (Wake A)) (q : SampleQueue A) (f : Fifo A)
      {result : Run (SampleQueue A)}
      → (a : Stepped blank q result (Fifo.run q.capacity wake.others f))
      → ltb_ℤ (pos 0) timeout ≡ true
      → wake.timed_out ≡ false
      → {rest : Run (Waited A)}
      → Ended timeout wakes a.after (Fifo.run q.capacity wake.others f) rest
      → Ended timeout (wake ∷ wakes) q f rest
  later timeout wake wakes q f a long never (ready k r e s c full) =
      ready (suc k) r e
        (subst (Represents blank r)
          (joined k wake wakes f a.after.capacity q.capacity a.same_capacity) s)
        (c ∙ a.same_capacity) full
  later timeout wake wakes q f a long never (quits k r e s c why) =
      quits (suc k) r e
        (subst (Represents blank r)
          (joined k wake wakes f a.after.capacity q.capacity a.same_capacity) s)
        (c ∙ a.same_capacity)
        (GivesUp-later timeout k wake wakes
          (Fifo.run a.after.capacity (meanwhile k wakes) (Fifo.run q.capacity wake.others f))
          (Fifo.run q.capacity (meanwhile (suc k) (wake ∷ wakes)) f) long why)
  later timeout wake wakes q f a long never (still_waits e w) =
      still_waits e (record { may_wait = long; never = (never, w.never) })

  pub wait_not_empty-Ended :
      (timeout : ℤ) (wakes : List (Wake A)) (q : SampleQueue A) (f : Fifo A)
      → Represents blank q f
      → Ended timeout wakes q f (wait_not_empty timeout wakes q)
  wait_not_empty-Ended timeout [] q f s = elim (Bool-cases (q.count == 0 && not q.shutdown)) [
    | inr free ↦ at_once timeout [] q f s free (unfold wait_not_empty in rw free refl)
    | inl empty ↦ elim (Bool-cases (ltb_ℤ (pos 0) timeout)) [
      | inr short ↦
          too_short timeout [] q f s empty short (unfold wait_not_empty in rw (empty, short) refl)
      | inl long ↦
          still_waits {result = wait_not_empty timeout [] q}
            (unfold wait_not_empty in rw (empty, long) refl)
            (record { may_wait = long; never = tt })
    ]
  ]
  wait_not_empty-Ended timeout (wake ∷ wakes) q f s =
      elim (Bool-cases (q.count == 0 && not q.shutdown)) [
        | inr free ↦
            at_once timeout (wake ∷ wakes) q f s free (unfold wait_not_empty in rw free refl)
        | inl empty ↦ elim (Bool-cases (ltb_ℤ (pos 0) timeout)) [
          | inr short ↦
              too_short timeout (wake ∷ wakes) q f s empty short
                (unfold wait_not_empty in rw (empty, short) refl)
          | inl long ↦
              let a = run-Stepped blank wake.others q f s in
              let next =
                wait_not_empty-Ended timeout wakes a.after (Fifo.run q.capacity wake.others f)
                  a.represents in
              elim (Bool-cases wake.timed_out) [
                | inl expired ↦
                    quits 1 a.after {result = wait_not_empty timeout (wake ∷ wakes) q}
                      (unfold wait_not_empty in rw (empty, long, a.returns, expired) refl)
                      (subst (λ ops. Represents blank a.after (Fifo.run q.capacity ops f))
                        (sym (append-nil wake.others)) a.represents)
                      a.same_capacity (inr expired)
                | inr early ↦
                    subst (Ended timeout (wake ∷ wakes) q f)
                      {x = wait_not_empty timeout wakes a.after}
                      {y = wait_not_empty timeout (wake ∷ wakes) q}
                      (sym (unfold wait_not_empty in rw (empty, long, a.returns, early) refl))
                      (later timeout wake wakes q f a long early next)
              ]
        ]
      ]

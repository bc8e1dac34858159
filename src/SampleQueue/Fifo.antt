-- ===== src/SampleQueue/Fifo.antt =====
-- What the sample queue promises: a queue of at most `cap` samples, oldest first, that drops the
-- oldest for a new one when it is full, takes none once it is closed, and counts without wrap.
use i_mx6ull_water_qualit.Base.{
  ℕ, suc, ◌+◌, ◌≤◌, ◌≡◌, refl, ap, arith, leb, if◌then◌else◌, Bool, true, false, List, [], ◌∷◌,
  ◌++◌, Option, none, some, length, length-append, length-drop, drop,
}
use i_mx6ull_water_qualit.Base.Int.{ℤ}
use i_mx6ull_water_qualit.SampleQueue.{Op, pushes, pops, shuts_down, success, failure}

pub record Fifo (A : Type 0) : Type 0 where
  pub items : List A
  pub closed : Bool
  pub pushed : ℕ
  pub popped : ℕ
  pub dropped : ℕ

module _ {A : Type 0} where
  abbrev pub empty : Fifo A
  empty = record { items = []; closed = false; pushed = 0; popped = 0; dropped = 0 }

  unfoldable pub push : ℕ → A → Fifo A → ℤ × Fifo A
  push cap x f =
      if f.closed
      then (failure, f)
      else (if leb cap (length f.items)
          then (
            success,
            record f {
              items = drop 1 f.items ++ x ∷ [];
              pushed = f.pushed + 1;
              dropped = f.dropped + 1;
            },
          )
          else (success, record f { items = f.items ++ x ∷ []; pushed = f.pushed + 1 }))

  abbrev take_first : List A → Fifo A → ℤ × Option A × Fifo A
  take_first [] f = (failure, none, f)
  take_first (x ∷ rest) f = (success, some x, record f { items = rest; popped = f.popped + 1 })

  unfoldable pub pop : Fifo A → ℤ × Option A × Fifo A
  pop f = take_first f.items f

  unfoldable pub step : ℕ → Op A → Fifo A → Fifo A
  unfolding push pop
  step cap (pushes x) f = (push cap x f).1
  step cap pops f = (pop f).2
  step cap shuts_down f = record f { closed = true }

  unfoldable pub run : ℕ → List (Op A) → Fifo A → Fifo A
  run cap [] f = f
  run cap (op ∷ ops) f = run cap ops (step cap op f)

  pub pop-nil : (f : Fifo A) → f.items ≡ [] → pop f ≡ (failure, none, f)
  unfolding pop
  pop-nil f e = ap (λ l. take_first l f) e

  pub pop-cons :
      (f : Fifo A) (x : A) (rest : List A)
      → f.items ≡ x ∷ rest
      → pop f ≡ (success, some x, record f { items = rest; popped = f.popped + 1 })
  unfolding pop
  pop-cons f x rest e = ap (λ l. take_first l f) e

  pub push_closed : (cap : ℕ) (x : A) (f : Fifo A) → f.closed ≡ true → push cap x f ≡ (failure, f)
  unfolding push
  push_closed cap x f e = simp e

  -- Nothing is lost but what was dropped, and the bound holds.
  pub record IsBalanced (cap : ℕ) (f : Fifo A) : Type 0 where
    pub balance : f.pushed ≡ f.popped + f.dropped + length f.items
    pub bound : length f.items ≤ cap

  take_first-IsBalanced :
      (cap : ℕ) (l : List A) (f : Fifo A)
      → l ≡ f.items
      → IsBalanced cap f
      → IsBalanced cap (take_first l f).2
  take_first-IsBalanced cap [] f e b = b
  take_first-IsBalanced cap (x ∷ rest) f e b = record {
    balance = omega (arith, b.balance, ap length e);
    bound = omega (arith, b.bound, ap length e);
  }

  pub step-IsBalanced :
      (cap : ℕ) (op : Op A) (f : Fifo A)
      → suc 0 ≤ cap
      → IsBalanced cap f
      → IsBalanced cap (step cap op f)
  unfolding step
  step-IsBalanced cap (pushes x) f h b = ground (
    arith,
    length-append {0} f.items (x ∷ []),
    length-append {0} (drop 1 f.items) (x ∷ []),
    length-drop {0} 1 f.items,
  )
  step-IsBalanced cap pops f h b = take_first-IsBalanced cap f.items f refl b
  step-IsBalanced cap shuts_down f h b = record { balance = b.balance; bound = b.bound }

  pub run-IsBalanced :
      (cap : ℕ) (ops : List (Op A)) (f : Fifo A)
      → suc 0 ≤ cap
      → IsBalanced cap f
      → IsBalanced cap (run cap ops f)
  unfolding run
  run-IsBalanced cap [] f h b = b
  run-IsBalanced cap (op ∷ ops) f h b =
      run-IsBalanced cap ops (step cap op f) h (step-IsBalanced cap op f h b)

-- ===== src/SampleQueue/Segment.antt =====
-- The samples of a circular array: `n` of them from index `t` on, going round at `cap`.
use native.Mathlib.Nat.{mod-eq_of_lt, mod-eq-sub-mod, mod-add-mod}
use native.Mathlib.Decide.{dec_lt}
use i_mx6ull_water_qualit.Base.{
  ℕ, zero, suc, ◌+◌, ◌-◌, ◌%◌, ◌≤◌, ◌<◌, ◌≡◌, ◌≢◌, refl, sym, ap, ap₂, ◌∙◌, arith, List, [], ◌∷◌,
  ◌++◌, get_or, set, length, length-append, get_or-set_self, get_or-set_ne,
}

-- an index at most one round further
round_index : (cap t a : ℕ) → t < cap → a < cap → cap ≤ t + a → (t + a) % cap ≡ t + a - cap
round_index cap t a ht ha h =
    mod-eq-sub-mod {n = t + a} {m = cap} h ∙ mod-eq_of_lt {n = t + a - cap} {m = cap} (omega arith)

pub index_step : (cap t a : ℕ) → ((t + 1) % cap + a) % cap ≡ (t + suc a) % cap
index_step cap t a = rw mod-add-mod (ap (λ k. k % cap) {x = t + 1 + a} (omega arith))

index_ne : (cap t a b : ℕ) → t < cap → a < b → b < cap → (t + b) % cap ≢ (t + a) % cap
index_ne cap t a b ht hab hb = elim (dec_lt (t + b) cap) [
  | yes p ↦ omega (
    arith,
    mod-eq_of_lt {n = t + b} {m = cap} p,
    mod-eq_of_lt {n = t + a} {m = cap} (omega arith),
  )
  | no p ↦ elim (dec_lt (t + a) cap) [
    | yes r ↦
        omega (arith, round_index cap t b ht hb (omega arith), mod-eq_of_lt {n = t + a} {m = cap} r)
    | no r ↦ omega (
      arith,
      round_index cap t b ht hb (omega arith),
      round_index cap t a ht (omega arith) (omega arith),
    )
  ]
]

module _ {A : Type 0} (blank : A) where
  abbrev pub segment : List A → ℕ → ℕ → ℕ → List A
  segment samples cap t zero = []
  segment samples cap t (suc n) =
      segment samples cap t n ++ get_or samples ((t + n) % cap) blank ∷ []

  pub length-segment : (samples : List A) (cap t n : ℕ) → length (segment samples cap t n) ≡ n
  length-segment samples cap t zero = refl
  length-segment samples cap t (suc n) = omega (
    arith,
    length-append {0} (segment samples cap t n) (get_or samples ((t + n) % cap) blank ∷ []),
    length-segment samples cap t n,
  )

  -- The oldest sample stands first.
  pub segment-cons :
      (samples : List A) (cap t n : ℕ)
      → t < cap
      → segment samples cap t (suc n)
        ≡ get_or samples t blank ∷ segment samples cap ((t + 1) % cap) n
  segment-cons samples cap t zero h =
      ap (λ k. get_or samples k blank ∷ [])
        (ap (λ k. k % cap) {x = t + 0} (omega arith) ∙ mod-eq_of_lt h)
  segment-cons samples cap t (suc n) h =
      ap (λ l. l ++ get_or samples ((t + suc n) % cap) blank ∷ []) (segment-cons samples cap t n h)
      ∙ ap
          (λ k.
            get_or samples t blank
            ∷ (segment samples cap ((t + 1) % cap) n ++ get_or samples k blank ∷ []))
          (sym (index_step cap t n))

  -- A write behind the segment leaves it alone,
  segment-set_behind :
      (samples : List A) (cap t n m : ℕ) (v : A)
      → t < cap
      → n ≤ m
      → m < cap
      → segment (set samples ((t + m) % cap) v) cap t n ≡ segment samples cap t n
  segment-set_behind samples cap t zero m v ht hn hm = refl
  segment-set_behind samples cap t (suc n) m v ht hn hm =
      ap₂ (λ l a. l ++ a ∷ []) (segment-set_behind samples cap t n m v ht (omega arith) hm)
        (get_or-set_ne samples ((t + m) % cap) ((t + n) % cap) v blank
          (index_ne cap t n m ht hn hm))

  -- and directly behind it makes it longer by one sample.
  pub segment-set :
      (samples : List A) (cap t n i : ℕ) (v : A)
      → t < cap
      → n < cap
      → cap ≤ length samples
      → i ≡ (t + n) % cap
      → segment (set samples i v) cap t (suc n) ≡ segment samples cap t n ++ v ∷ []
  segment-set samples cap t n i v ht hn fits e =
      ap (λ k. segment (set samples k v) cap t (suc n)) e
      ∙ ap₂ (λ l a. l ++ a ∷ []) (segment-set_behind samples cap t n n v ht (omega arith) hn)
          (get_or-set_self samples ((t + n) % cap) v blank (omega arith))

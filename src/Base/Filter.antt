-- ===== src/Base/Filter.antt =====
-- The elements of a list that pass a Boolean test, as the tables of the program are queried.
use Prim.Native.Nat.{ℕ, zero, suc, ◌+◌, ◌≤◌}
use mathlib.Core.Path.{◌≡◌, refl}
use mathlib.Core.Bool.{Bool, not}
use mathlib.Core.Logic.{inl, inr}
use mathlib.Core.List.{List, [], ◌∷◌}
use native.Mathlib.Omega.{arith}
use i_mx6ull_water_qualit.Base.Tests.{if◌then◌else◌, Bool-cases}
use i_mx6ull_water_qualit.Base.Lists.{length}

module _ {ℓ} {A : Type ℓ} where
  abbrev pub filter : (A → Bool) → List A → List A
  filter p [] = []
  filter p (x ∷ xs) = if p x then x ∷ filter p xs else filter p xs

  -- the list without its first `n` elements that pass the test
  abbrev pub remove : (A → Bool) → ℕ → List A → List A
  remove p zero xs = xs
  remove p (suc n) [] = []
  remove p (suc n) (x ∷ xs) = if p x then remove p n xs else x ∷ remove p (suc n) xs

  pub length-filter : (p : A → Bool) (xs : List A) → length (filter p xs) ≤ length xs
  length-filter p [] = omega arith
  length-filter p (x ∷ xs) = ground (arith, length-filter p xs)

  pub filter_parts :
      (p : A → Bool) (xs : List A)
      → length (filter p xs) + length (filter (λ x. not (p x)) xs) ≡ length xs
  filter_parts p [] = omega arith
  filter_parts p (x ∷ xs) = ground (arith, filter_parts p xs)

  pub length-remove :
      (p : A → Bool) (n : ℕ) (xs : List A)
      → n ≤ length (filter p xs)
      → length (remove p n xs) + n ≡ length xs
  length-remove p zero xs h = omega arith
  length-remove p (suc n) [] h = absurd (omega arith)
  length-remove p (suc n) (x ∷ xs) h = elim (Bool-cases (p x)) [
    | inl e ↦ ground (arith, length-remove p n xs)
    | inr e ↦ ground (arith, length-remove p (suc n) xs)
  ]

  filter_none :
      (p : A → Bool) (xs : List A) → length (filter p xs) ≤ 0 → xs ≡ filter (λ x. not (p x)) xs
  filter_none p [] h = refl
  filter_none p (x ∷ xs) h = ground (arith, filter_none p xs)

  -- when there are not so many, all of them go
  pub remove_all :
      (p : A → Bool) (n : ℕ) (xs : List A)
      → length (filter p xs) ≤ n
      → remove p n xs ≡ filter (λ x. not (p x)) xs
  remove_all p zero xs h = filter_none p xs h
  remove_all p (suc n) [] h = refl
  remove_all p (suc n) (x ∷ xs) h = elim (Bool-cases (p x)) [
    | inl e ↦ ground (arith, remove_all p n xs)
    | inr e ↦ ground (arith, remove_all p (suc n) xs)
  ]

  pub filter-remove :
      (p : A → Bool) (n : ℕ) (xs : List A)
      → filter (λ x. not (p x)) (remove p n xs) ≡ filter (λ x. not (p x)) xs
  filter-remove p zero xs = refl
  filter-remove p (suc n) [] = refl
  filter-remove p (suc n) (x ∷ xs) = elim (Bool-cases (p x)) [
    | inl e ↦ ground (arith, filter-remove p n xs)
    | inr e ↦ ground (arith, filter-remove p (suc n) xs)
  ]

-- ===== src/Base/Faults.antt =====
-- A run of C code that may leave the memory it was given: `fault` is an access out of bounds, which
-- C leaves undefined. An error that the code reports is a value of `done`.
use Prim.Native.Nat.{ℕ, zero, suc, ◌<◌}
use mathlib.Core.Path.{◌≡◌, refl, ap}
use mathlib.Core.List.{List, [], ◌∷◌}
use mathlib.Core.Option.{Option, none, some}
use native.Mathlib.Omega.{arith}
use i_mx6ull_water_qualit.Base.Lists.{length, get_elem?, set, get_or, get_elem?-eq-get_or}

pub data Run {ℓ} (A : Type ℓ) : Type ℓ where
  done : A → Run A
  fault : Run A

infixl 5 ◌>>=◌
abbrev pub ◌>>=◌ {ℓ κ} : {A : Type ℓ} {B : Type κ} → Run A → (A → Run B) → Run B
done a >>= f = f a
fault >>= f = fault

abbrev of_option {ℓ} : {A : Type ℓ} → Option A → Run A
of_option none = fault
of_option (some a) = done a

-- `buf[i]` as a value, and `buf[i] = v`
abbrev pub load {ℓ} : {A : Type ℓ} → List A → ℕ → Run A
load buf i = of_option (get_elem? buf i)

abbrev put_back {ℓ} : {A : Type ℓ} → A → Run (List A) → Run (List A)
put_back x fault = fault
put_back x (done xs) = done (x ∷ xs)

abbrev pub store {ℓ} : {A : Type ℓ} → List A → ℕ → A → Run (List A)
store [] i v = fault
store (x ∷ xs) zero v = done (v ∷ xs)
store (x ∷ xs) (suc i) v = put_back x (store xs i v)

pub load-eq-done {ℓ} :
    {A : Type ℓ} (buf : List A) (i : ℕ) (d : A)
    → i < length buf
    → load buf i ≡ done (get_or buf i d)
load-eq-done buf i d h = ground (arith, get_elem?-eq-get_or buf i d)

pub store-eq-done {ℓ} :
    {A : Type ℓ} (buf : List A) (i : ℕ) (v : A)
    → i < length buf
    → store buf i v ≡ done (set buf i v)
store-eq-done [] i v h = absurd (omega arith)
store-eq-done (x ∷ xs) zero v h = refl
store-eq-done (x ∷ xs) (suc i) v h = ap (put_back x) (store-eq-done xs i v (omega arith))

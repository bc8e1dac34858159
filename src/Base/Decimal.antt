-- ===== src/Base/Decimal.antt =====
-- Numbers in base 10, as `printf` prints them with "%u", "%d" and "%lld".
use i_mx6ull_water_qualit.Base.{
  ℕ, zero, suc, ◌+◌, ◌-◌, ◌*◌, ◌/◌, ◌%◌, ◌^◌, ◌≤◌, ◌<◌, ◌≡◌, refl, ◌∙◌, arith, ltb, if◌then◌else◌,
  Bool-cases, inl, inr, List, [], ◌∷◌, ◌++◌, length, length-append,
}
use i_mx6ull_water_qualit.Base.Int.{ℤ, pos, negsuc}

-- the last `fuel` digits
unfoldable pub digits_text : ℕ → ℕ → List ℕ
digits_text zero n = []
digits_text (suc fuel) n =
    let rest = digits_text fuel (n / 10) in
    if ltb n 10 then (48 + n) ∷ [] else rest ++ (48 + n % 10) ∷ []

-- 20 digits are enough for 64 bits.
unfoldable pub unsigned_text : ℕ → List ℕ
unsigned_text n = digits_text 20 n

unfoldable pub signed_text : ℤ → List ℕ
unfolding unsigned_text
signed_text (pos n) = unsigned_text n
signed_text (negsuc n) = 45 ∷ unsigned_text (n + 1)

-- the number that digits stand for, after a number in front
abbrev read_digits : ℕ → List ℕ → ℕ
read_digits front [] = front
read_digits front (b ∷ bytes) = read_digits (front * 10 + (b - 48)) bytes

read_digits-append :
    (front : ℕ) (xs : List ℕ) (b : ℕ)
    → read_digits front (xs ++ b ∷ []) ≡ read_digits front xs * 10 + (b - 48)
read_digits-append front [] b = refl
read_digits-append front (x ∷ xs) b = read_digits-append (front * 10 + (x - 48)) xs b

-- With enough digits to go, the text stands for the number.
read_digits-digits_text : (fuel n : ℕ) → n < 10 ^ fuel → read_digits 0 (digits_text fuel n) ≡ n
unfolding digits_text
read_digits-digits_text zero n h = omega arith
read_digits-digits_text (suc fuel) n h = elim (Bool-cases (ltb n 10)) [
  | inl small ↦ rw small (omega arith)
  | inr large ↦ rw large (
      read_digits-append 0 (digits_text fuel (n / 10)) (48 + n % 10)
      ∙ omega (arith, read_digits-digits_text fuel (n / 10) (omega arith)))
]

length-digits_text : (fuel n : ℕ) → length (digits_text fuel n) ≤ fuel
unfolding digits_text
length-digits_text zero n = omega arith
length-digits_text (suc fuel) n = elim (Bool-cases (ltb n 10)) [
  | inl small ↦ rw small (omega arith)
  | inr large ↦ rw large (
      omega (
        arith,
        length-append (digits_text fuel (n / 10)) ((48 + n % 10) ∷ []),
        length-digits_text fuel (n / 10),
      ))
]

pub length-unsigned_text : (n : ℕ) → length (unsigned_text n) ≤ 20
unfolding unsigned_text
length-unsigned_text n = length-digits_text 20 n

pub length-signed_text : (n : ℤ) → length (signed_text n) ≤ 21
unfolding signed_text
length-signed_text (pos n) = omega (arith, length-unsigned_text n)
length-signed_text (negsuc n) = omega (arith, length-unsigned_text (n + 1))

-- A number of 64 bits is printed whole.
pub read_digits-unsigned_text : (n : ℕ) → n < 2 ^ 64 → read_digits 0 (unsigned_text n) ≡ n
unfolding unsigned_text
read_digits-unsigned_text n h = read_digits-digits_text 20 n (omega arith)

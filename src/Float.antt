-- ===== src/Float.antt =====
-- The C type `float` and what the program does with it: a parameter of the model, since the
-- arithmetic is the compiler's and the processor's. `hundredths n` is the literal n / 100.
use i_mx6ull_water_qualit.Base.{Bool}
use i_mx6ull_water_qualit.Base.Int.{ℤ}

pub record Float (F : Type 0) : Type 0 where
  pub less : F → F → Bool
  pub hundredths : ℤ → F
  pub of_int : ℤ → F
  pub times : F → F → F
  pub plus : F → F → F

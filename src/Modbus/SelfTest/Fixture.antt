-- ===== src/Modbus/SelfTest/Fixture.antt =====
-- A float of whole hundredths, and arrays of zeros for the sensor tests.
use i_mx6ull_water_qualit.Base.{◌<◌, ◌^◌, refl, arith, replicate, All-replicate}
use i_mx6ull_water_qualit.Base.Int.{ℤ, ltb_ℤ}
use i_mx6ull_water_qualit.Float.{Float}
use i_mx6ull_water_qualit.Modbus.SelfTest.Ready.{IsReady}

abbrev pub hundredths_only : Float ℤ
hundredths_only = record {
  less = ltb_ℤ;
  hundredths = λ n. n;
  of_int = λ n. n;
  times = λ a b. a;
  plus = λ a b. a;
}

pub zeros-IsReady : IsReady (replicate 256 0) (replicate 16 0)
zeros-IsReady = record {
  buf_size = refl;
  bytes = All-replicate (λ b. b < 2 ^ 8) 256 0 (omega arith);
  values_size = refl;
}

-- ===== src/Processor/Alarms.antt =====
-- What the alarm word says, bit by bit.
use Prim.Native.Nat.{max}
use native.Mathlib.Nat.{zero-div}
use i_mx6ull_water_qualit.Base.{
  ℕ, ◌+◌, ◌*◌, ◌/◌, ◌%◌, ◌^◌, ◌≡◌, refl, arith, Bool, true, false, not, ◌&&◌, some, bit_or,
  if◌then◌else◌, ◌==◌, Bool-cases, inl, inr, ap,
}
use i_mx6ull_water_qualit.Base.Bits.{or_shift_digit}
use i_mx6ull_water_qualit.Float.{Float}
use i_mx6ull_water_qualit.Sample.{Sample}
use i_mx6ull_water_qualit.Processor.{Threshold, compute_alarm, mark_alarm}

abbrev pub flag : Bool → ℕ
flag true = 1
flag false = 0

alarm_word :
    (low high temp turb cond : Bool)
    → (let alarm : ℕ = 0 in
        let alarm = if low then bit_or alarm 1 else (if high then bit_or alarm 2 else alarm) in
        let alarm = if temp then bit_or alarm 16 else alarm in
        let alarm = if turb then bit_or alarm 4 else alarm in
        if cond then bit_or alarm 8 else alarm)
      ≡ flag low + flag (not low && high) * 2 + flag turb * 4 + flag cond * 8 + flag temp * 16
alarm_word low high temp turb cond = ground arith

module _ {F : Type 0} (float : Float F) (sample : Sample F) (th : Threshold F) where
  open float use {less}

  -- Bit 0 of the alarm word says that the pH is below its minimum, bit 1 that it is above its
  -- maximum and not below its minimum, bits 2, 3 and 4 that turbidity, conductivity and temperature
  -- are above their maxima; no other bit is set.
  pub compute_alarm_bits :
      compute_alarm float (some sample) (some th)
      ≡ flag (less sample.ph th.ph_min)
        + flag (not (less sample.ph th.ph_min) && less th.ph_max sample.ph) * 2
        + flag (less th.turb_max sample.turbidity) * 4
        + flag (less th.cond_max sample.conductivity) * 8
        + flag (less th.temp_max sample.temperature) * 16
  unfolding compute_alarm
  compute_alarm_bits =
      alarm_word (less sample.ph th.ph_min) (less th.ph_max sample.ph)
        (less th.temp_max sample.temperature) (less th.turb_max sample.turbidity)
        (less th.cond_max sample.conductivity)

cleared : (alarm : ℕ) → not (alarm == 0) ≡ false → alarm ≡ 0
cleared alarm off = ground arith

module _ {F : Type 0} (alarm : ℕ) (sample : Sample F) where
  -- The alarm bits are added to those of the sensor, and nothing else of the sample changes.
  mark_alarm_bits :
      (k : ℕ)
      → ((mark_alarm alarm sample).alarm_status / 2 ^ k % 2
          ≡ max (sample.alarm_status / 2 ^ k % 2) (alarm / 2 ^ k % 2))
        × (record (mark_alarm alarm sample) { alarm_status = sample.alarm_status } ≡ sample)
  unfolding mark_alarm
  mark_alarm_bits k = elim (Bool-cases (not (alarm == 0))) [
    | inl on ↦ rw on (or_shift_digit k sample.alarm_status alarm, refl)
    | inr off ↦
        rw off
          (omega (arith, ap (λ (a : ℕ). a / 2 ^ k) (cleared alarm off), zero-div (2 ^ k)), refl)
  ]

-- ===== src/LedDriver.antt =====
-- driver/water_alarm/newchrled.c: the LED driver, on the registers that it maps. What the kernel's
-- registration functions do, and their failures, are not in the model.
pub mod Pin
pub mod Kernel
pub mod Loading
pub mod Unloading
pub mod App
pub mod Agree
mod Tests
use i_mx6ull_water_qualit.Base.{
  ℕ, ◌-◌, ◌==◌, if◌then◌else◌, List, [], ◌∷◌, Run, done, ◌>>=◌, load, store, length, shl, bit_and,
  bit_or, zero, ◌+◌,
}
use i_mx6ull_water_qualit.Base.Int.{ℤ, pos, negsuc, ltb_ℤ}

abbrev pub led_off : ℕ
led_off = 0

abbrev pub led_on : ℕ
led_on = 1

-- The registers behind IMX6U_CCM_CCGR1, SW_MUX_GPIO1_IO03, SW_PAD_GPIO1_IO03, GPIO1_DR and
-- GPIO1_GDIR, each of 32 bits.
pub record Registers : Type 0 where
  pub ccm_ccgr1 : ℕ
  pub sw_mux : ℕ
  pub sw_pad : ℕ
  pub gpio1_dr : ℕ
  pub gpio1_gdir : ℕ

-- `~x` of 32 bits
abbrev pub complement : ℕ → ℕ
complement x = 0xFFFFFFFF - x

unfoldable pub led_switch : ℕ → Registers → Registers
led_switch sta r =
    if sta == led_on
    then record r { gpio1_dr = bit_and r.gpio1_dr (complement (shl 1 3)) }
    else (if sta == led_off then record r { gpio1_dr = bit_or r.gpio1_dr (shl 1 3) } else r)

-- The bytes that `copy_from_user` delivers, stored one after the other.
unfoldable pub copy_in : List ℕ → ℕ → List ℕ → Run (List ℕ)
copy_in [] i databuf = done databuf
copy_in (b ∷ bytes) i databuf = store databuf i b >>= (λ next. copy_in bytes (i + 1) next)

-- `bytes` are those that `copy_from_user` delivers of the `cnt` that it is asked for, and what it
-- returns is the number of the others. `stack` is the byte that `databuf` happens to hold.
unfoldable pub led_write : ℕ → List ℕ → ℕ → Registers → Run (ℤ × Registers)
led_write stack bytes cnt r = do
  databuf ← copy_in bytes 0 (stack ∷ [])
  let retvalue = pos (cnt - length bytes)
  if ltb_ℤ retvalue (pos 0) then done (negsuc 13, r) else (do
    ledstat ← load databuf 0
    if ledstat == led_on
        then done (pos 0, led_switch led_on r)
        else (if ledstat == led_off then done (pos 0, led_switch led_off r) else done (pos 0, r)))

-- The register accesses of `led_init`, before it registers the device.
unfoldable pub led_init : Registers → Registers
led_init r =
    let val = bit_and r.ccm_ccgr1 (complement (shl 3 26)) in
    let val = bit_or val (shl 3 26) in
    let direction = bit_and r.gpio1_gdir (complement (shl 1 3)) in
    let direction = bit_or direction (shl 1 3) in
    record {
      ccm_ccgr1 = val;
      sw_mux = 5;
      sw_pad = 0x10B0;
      gpio1_dr = bit_or r.gpio1_dr (shl 1 3);
      gpio1_gdir = direction;
    }

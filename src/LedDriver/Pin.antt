-- ===== src/LedDriver/Pin.antt =====
-- The pin of the LED after what the processor thread has written to the driver.
use i_mx6ull_water_qualit.Base.{
  ℕ, ◌+◌, ◌*◌, ◌/◌, ◌%◌, ◌^◌, ◌<◌, ◌≡◌, refl, Bool-cases, inl, inr, bit_and, ap, ◌∙◌, arith, ◌==◌,
  if◌then◌else◌, Bool, true, false, List, [], ◌∷◌, Option, none, some, Run, done, ◌>>=◌,
}
use i_mx6ull_water_qualit.Base.Bits.{set_bit_three, clear_bit_three}
use i_mx6ull_water_qualit.Base.Int.{ℤ, pos}
use i_mx6ull_water_qualit.Alarm.{alarm_client_set}
use i_mx6ull_water_qualit.Processor.{debounce, led_write_of}
use i_mx6ull_water_qualit.Processor.Debounce.{
  led_after, device_after, should_light, shows, debounce_rule,
}
use i_mx6ull_water_qualit.LedDriver.{Registers, led_switch, copy_in, led_write, led_init}

-- The data register with bit 3 low, which lights the LED, or high.
abbrev pub level : Bool → ℕ → ℕ
level lit dr = dr / 16 * 16 + (if lit then 0 else 8) + dr % 8

-- what the driver makes of the byte that a round writes, if it writes one
unfoldable pub written : ℕ → Option ℕ → Registers → Run Registers
written stack none r = done r
written stack (some byte) r = led_write stack (byte ∷ []) 1 r >>= (λ result. done result.1)

-- The registers after the driver has started and the thread has had the alarm words of a history,
-- which stands newest first.
pub pin_after : ℕ → ℤ → List ℕ → Registers → Run Registers
pin_after stack fd [] r = done (led_init r)
pin_after stack fd (alarm ∷ h) r =
    pin_after stack fd h r >>= written stack (led_write_of fd (debounce alarm (led_after h)).1)

led_switch-level :
    (lit was : Bool) (dr : ℕ) (r : Registers)
    → dr < 2 ^ 32
    → led_switch (if lit then 1 else 0) (record r { gpio1_dr = level was dr })
      ≡ record r { gpio1_dr = level lit dr }
unfolding led_switch
led_switch-level true was dr r h =
    ap (λ d. record r { gpio1_dr = d }) {y = level true dr}
      (ground (arith, clear_bit_three (level was dr)))
led_switch-level false was dr r h =
    ap (λ d. record r { gpio1_dr = d }) {y = level false dr}
      (ground (arith, set_bit_three (level was dr)))

led_init-level :
    (r : Registers) → led_init r ≡ record (led_init r) { gpio1_dr = level false r.gpio1_dr }
unfolding led_init
led_init-level r = ap (λ d. record (led_init r) { gpio1_dr = d }) (set_bit_three r.gpio1_dr)

led_write-off :
    (stack : ℕ) (r : Registers) → led_write stack (0 ∷ []) 1 r ≡ done (pos 0, led_switch 0 r)
unfolding led_write copy_in
led_write-off stack r = refl

led_write-on :
    (stack : ℕ) (r : Registers) → led_write stack (1 ∷ []) 1 r ≡ done (pos 0, led_switch 1 r)
unfolding led_write copy_in
led_write-on stack r = refl

pub alarm_client_set-open :
    (fd on : ℕ) → alarm_client_set (pos fd) on ≡ some (if on == 0 then 0 else 1)
unfolding alarm_client_set
alarm_client_set-open fd on = ground arith

written_lem :
    (stack fd dr : ℕ) (was : Bool) (command : Option ℕ) (r : Registers)
    → dr < 2 ^ 32
    → written stack (led_write_of (pos fd) command) (record r { gpio1_dr = level was dr })
      ≡ done (record r { gpio1_dr = level (shows was (led_write_of (pos fd) command)) dr })
unfolding written led_write_of
written_lem stack fd dr was none r h = refl
written_lem stack fd dr was (some on) r h = elim (Bool-cases (on == 0)) [
  | inl e ↦
      rw (alarm_client_set-open fd on, e)
        (ap (λ w. w >>= (λ result. done result.1))
            (led_write-off stack (record r { gpio1_dr = level was dr }))
          ∙ ap done (led_switch-level false was dr r h))
  | inr e ↦
      rw (alarm_client_set-open fd on, e)
        (ap (λ w. w >>= (λ result. done result.1))
            (led_write-on stack (record r { gpio1_dr = level was dr }))
          ∙ ap done (led_switch-level true was dr r h))
]

pin_after-level :
    (stack fd : ℕ) (h : List ℕ) (r : Registers)
    → r.gpio1_dr < 2 ^ 32
    → pin_after stack (pos fd) h r
      ≡ done (record (led_init r) { gpio1_dr = level (device_after (pos fd) h) r.gpio1_dr })
unfolding pin_after device_after
pin_after-level stack fd [] r small = ap done (led_init-level r)
pin_after-level stack fd (alarm ∷ h) r small =
    ap (λ p. p >>= written stack (led_write_of (pos fd) (debounce alarm (led_after h)).1))
      (pin_after-level stack fd h r small)
    ∙ written_lem stack fd r.gpio1_dr (device_after (pos fd) h) (debounce alarm (led_after h)).1
        (led_init r) small

led_init-output :
    (r : Registers)
    → r.gpio1_gdir < 2 ^ 32
    → (led_init r).gpio1_gdir ≡ r.gpio1_gdir / 16 * 16 + 8 + r.gpio1_gdir % 8
unfolding led_init
led_init-output r h =
    omega (arith, set_bit_three (bit_and r.gpio1_gdir 0xFFFFFFF7), clear_bit_three r.gpio1_gdir h)

-- After the driver has started and the processor thread has had any history of alarm words, the
-- pin is an output, and the data register is as it was at the start but for bit 3, which is low,
-- so that the LED is lit, exactly when the debouncing rule says so.
pub pin_rule :
    (stack fd : ℕ) (h : List ℕ) (r : Registers)
    → r.gpio1_dr < 2 ^ 32
    → r.gpio1_gdir < 2 ^ 32
    → (after : Registers) × (pin_after stack (pos fd) h r ≡ done after)
      × (after.gpio1_dr ≡ level (should_light h) r.gpio1_dr)
      × (after.gpio1_gdir ≡ r.gpio1_gdir / 16 * 16 + 8 + r.gpio1_gdir % 8)
pin_rule stack fd h r small small_dir = (
  record (led_init r) { gpio1_dr = level (device_after (pos fd) h) r.gpio1_dr },
  pin_after-level stack fd h r small,
  ap (λ lit. level lit r.gpio1_dr) (debounce_rule fd 0 h).1,
  led_init-output r small_dir,
)

-- ===== src/LedDriver/Tests.antt =====
-- The LED driver on a board whose data register has other bits set.
use i_mx6ull_water_qualit.Base.{
  ◌^◌, ◌≤◌, ◌⊎◌, true, none, some, ◌+◌, ◌*◌, ◌/◌, ◌%◌, ◌≡◌, refl, arith, [], ◌∷◌, done, fault,
}
use i_mx6ull_water_qualit.Base.Int.{pos, negsuc}
use i_mx6ull_water_qualit.Processor.Debounce.{should_light}
use i_mx6ull_water_qualit.LedDriver.{Registers, led_switch, led_on, copy_in, led_write}
use i_mx6ull_water_qualit.LedDriver.Pin.{level, written, pin_after, pin_rule}
use i_mx6ull_water_qualit.LedDriver.Loading.{Answers, NewchrledDev, load_module}
use i_mx6ull_water_qualit.LedDriver.Unloading.{Outcome, load_module-Outcome}
use i_mx6ull_water_qualit.LedDriver.App.{Device, led_app}
use i_mx6ull_water_qualit.LedDriver.Agree.{alarm_client, led_app-alarm_client}
use i_mx6ull_water_qualit.Config.Text.{atoi, trim_front}

abbrev board : Registers
board = record { ccm_ccgr1 = 0; sw_mux = 0; sw_pad = 0; gpio1_dr = 0xFFFF0013; gpio1_gdir = 1 }

-- A `write` of two bytes overruns the one byte of `databuf`.
write_two_bytes : led_write 0 (1 ∷ 0 ∷ []) 2 board ≡ fault
unfolding led_write copy_in
write_two_bytes = refl

write_on : led_write 0 (1 ∷ []) 1 (record board { gpio1_dr = 0xFFFF001B }) ≡ done (pos 0, board)
unfolding led_write copy_in led_switch
write_on = refl

pin_rule_example :
    (after : Registers) × (pin_after 0 (pos 4) (1 ∷ 16 ∷ 3 ∷ 0 ∷ []) board ≡ done after)
    × (after.gpio1_dr ≡ level (should_light (1 ∷ 16 ∷ 3 ∷ 0 ∷ [])) 0xFFFF0013)
    × (after.gpio1_gdir ≡ 1 / 16 * 16 + 8 + 1 % 8)
pin_rule_example = pin_rule 0 4 (1 ∷ 16 ∷ 3 ∷ 0 ∷ []) board (omega arith) (omega arith)

-- The kernel allocates 249:0; `device_create` fails or not.
abbrev kernel : Answers
kernel = record {
  allocated = 249 * 2 ^ 20;
  region_ok = true;
  cdev_ok = true;
  class_error = none;
  device_error = none;
}

abbrev unnumbered : NewchrledDev
unnumbered = record { devid = 0; major = 0; minor = 0 }

load_module-Outcome_example : Outcome none none (load_module kernel unnumbered board)
load_module-Outcome_example = load_module-Outcome kernel unnumbered board refl refl

fails_halfway :
    (load_module (record kernel { device_error = some 12 }) unnumbered board).result ≡ negsuc 11
unfolding load_module
fails_halfway = refl

abbrev test_device : Device
test_device = record { opened = λ path. pos 3; written = pos 1; closed = pos 0 }

-- "257" is the byte 1.
led_app-alarm_client_example :
    let app = led_app test_device ([] ∷ (47 ∷ []) ∷ (50 ∷ 53 ∷ 55 ∷ []) ∷ []) in
    let client = alarm_client test_device (47 ∷ []) 257 in
    (app.closes ≡ client.1)
    × (((257 ≤ 1) × (app.databuf ≡ client.0))
        ⊎ ((2 ≤ 257 % 2 ^ 8) × (written 0 app.databuf board ≡ done board))
        ⊎ ((2 ^ 8 ≤ 257)
            × (257 % 2 ^ 8 ≤ 1)
            × (app.databuf ≡ some (257 % 2 ^ 8))
            × (written 0 app.databuf board ≡ done (led_switch (257 % 2 ^ 8) board))
            × (client.0 ≡ some 1)
            × (written 0 client.0 board ≡ done (led_switch led_on board))))
unfolding atoi trim_front
led_app-alarm_client_example =
    led_app-alarm_client test_device 3 0 [] (47 ∷ []) (50 ∷ 53 ∷ 55 ∷ []) 257 board refl refl

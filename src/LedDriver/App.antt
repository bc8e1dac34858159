-- ===== src/LedDriver/App.antt =====
-- `main` of driver/water_alarm/ledApp.c, the hand test of the driver: one byte to one device.
use i_mx6ull_water_qualit.Base.{ℕ, ◌-◌, ◌%◌, ◌^◌, List, [], ◌∷◌, if◌then◌else◌, Option, none, some}
use i_mx6ull_water_qualit.Base.Int.{ℤ, pos, negsuc, ltb_ℤ}
use i_mx6ull_water_qualit.Config.Text.{atoi}

-- What the kernel answers: the results of `open`, `write` and `close`.
pub record Device : Type 0 where
  pub opened : List ℕ → ℤ
  pub written : ℤ
  pub closed : ℤ

-- The exit code, the bytes that are handed to `write`, and the descriptors that are closed.
pub record Ran : Type 0 where
  pub result : ℤ
  pub databuf : Option ℕ
  pub closes : List ℤ

-- an `int` as an `unsigned char`
abbrev pub to_uchar : ℤ → ℕ
to_uchar (pos n) = n % 2 ^ 8
to_uchar (negsuc n) = 2 ^ 8 - 1 - n % 2 ^ 8

abbrev pub failed_early : Ran
failed_early = record { result = negsuc 0; databuf = none; closes = [] }

-- `argv` is the list of all arguments, the program's name first.
unfoldable pub led_app : Device → List (List ℕ) → Ran
led_app device (name ∷ filename ∷ operation ∷ []) =
    let fd = device.opened filename in
    if ltb_ℤ fd (pos 0)
    then failed_early
    else (let byte = to_uchar (atoi operation) in
        if ltb_ℤ device.written (pos 0)
        then record { result = negsuc 0; databuf = some byte; closes = fd ∷ [] }
        else (if ltb_ℤ device.closed (pos 0)
            then record { result = negsuc 0; databuf = some byte; closes = fd ∷ [] }
            else record { result = pos 0; databuf = some byte; closes = fd ∷ [] }))
led_app device _ = failed_early

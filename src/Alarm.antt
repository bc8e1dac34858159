-- ===== src/Alarm.antt =====
-- app/src/alarm_client.c: the client of the LED driver. What `open` and `write` return is the
-- kernel's; the byte handed to `write` is what the model keeps.
use i_mx6ull_water_qualit.Base.{ℕ, ◌==◌, if◌then◌else◌, Option, none, some}
use i_mx6ull_water_qualit.Base.Int.{ℤ, pos, negsuc, ltb_ℤ}

-- `opened` is the result of `open` on the device; the option is the device's path.
unfoldable pub alarm_client_open {ℓ} : {P : Type ℓ} → Option P → (P → ℤ) → ℤ
alarm_client_open none opened = negsuc 0
alarm_client_open (some device) opened =
    if ltb_ℤ (opened device) (pos 0) then negsuc 0 else opened device

-- The byte that is written, if any. A failed write is logged and has no other effect here.
unfoldable pub alarm_client_set : ℤ → ℕ → Option ℕ
alarm_client_set fd on = if ltb_ℤ fd (pos 0) then none else some (if on == 0 then 0 else 1)

-- The descriptor that is closed, if any.
unfoldable pub alarm_client_close : ℤ → Option ℤ
alarm_client_close fd = if ltb_ℤ fd (pos 0) then none else some fd

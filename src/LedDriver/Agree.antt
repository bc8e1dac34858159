-- ===== src/LedDriver/Agree.antt =====
-- ledApp.c and the alarm client of the gateway, on the same device.
use i_mx6ull_water_qualit.Base.{
  ℕ, ◌%◌, ◌^◌, ◌≤◌, ◌≡◌, ◌⊎◌, ◌∙◌, sym, ap, leb, refl, arith, ◌==◌, if◌then◌else◌, Bool-cases, inl,
  inr, false, List, [], ◌∷◌, Option, none, some, done, ◌>>=◌,
}
use i_mx6ull_water_qualit.Base.Int.{ℤ, pos, ltb_ℤ}
use i_mx6ull_water_qualit.Config.Text.{atoi}
use i_mx6ull_water_qualit.Alarm.{alarm_client_open, alarm_client_set, alarm_client_close}
use i_mx6ull_water_qualit.LedDriver.{Registers, led_write, copy_in, led_switch, led_on}
use i_mx6ull_water_qualit.LedDriver.Pin.{written, alarm_client_set-open}
use i_mx6ull_water_qualit.LedDriver.App.{Device, led_app}

-- what the gateway's client hands to `write`, and the descriptors that it closes
abbrev pub alarm_client : Device → List ℕ → ℕ → Option ℕ × List ℤ
alarm_client device filename on =
    let fd = alarm_client_open (some filename) device.opened in
    (alarm_client_set fd on, elim (alarm_client_close fd) [ none ↦ [] | some closed ↦ closed ∷ [] ])

led_write_other :
    (stack byte : ℕ) (r : Registers) → 2 ≤ byte → led_write stack (byte ∷ []) 1 r ≡ done (pos 0, r)
unfolding led_write copy_in
led_write_other stack byte r h = ground arith

led_write_switch :
    (stack byte : ℕ) (r : Registers)
    → byte ≤ 1
    → led_write stack (byte ∷ []) 1 r ≡ done (pos 0, led_switch byte r)
unfolding led_write copy_in
led_write_switch stack byte r h = ground arith

is_open : (fd : ℕ) → ltb_ℤ (pos fd) (pos 0) ≡ false
is_open fd = ground arith

ran :
    (device : Device) (fd : ℕ) (name filename operation : List ℕ) (n : ℕ)
    → device.opened filename ≡ pos fd
    → atoi operation ≡ pos n
    → let app = led_app device (name ∷ filename ∷ operation ∷ []) in
      (app.databuf ≡ some (n % 2 ^ 8)) × (app.closes ≡ pos fd ∷ [])
unfolding led_app
ran device fd name filename operation n o e =
    rw (o, e, is_open fd)
      (elim (Bool-cases (ltb_ℤ device.written (pos 0))) [
        | inl w ↦ rw w (refl, refl)
        | inr w ↦ elim (Bool-cases (ltb_ℤ device.closed (pos 0))) [
          | inl c ↦ rw (w, c) (refl, refl)
          | inr c ↦ rw (w, c) (refl, refl)
        ]
      ])

opens_as :
    (device : Device) (fd : ℕ) (filename : List ℕ)
    → device.opened filename ≡ pos fd
    → alarm_client_open (some filename) device.opened ≡ pos fd
unfolding alarm_client_open
opens_as device fd filename o = ground (arith, o)

closes_as : (fd : ℕ) → alarm_client_close (pos fd) ≡ some (pos fd)
unfolding alarm_client_close
closes_as fd = ground arith

client_lem :
    (device : Device) (fd : ℕ) (filename : List ℕ) (n : ℕ)
    → device.opened filename ≡ pos fd
    → alarm_client device filename n ≡ (some (if n == 0 then 0 else 1), pos fd ∷ [])
client_lem device fd filename n o =
    rw (opens_as device fd filename o, alarm_client_set-open fd n, closes_as fd) refl

-- On a device that can be opened, the test application, called with the text of a number, closes
-- what the alarm client closes. For 0 and 1 it hands the same byte to the driver; with a
-- number whose low byte is 2 or more the driver leaves the registers; with a larger one whose low
-- byte is 0 or 1 the driver switches the LED as that byte says, where the client has it switched on.
pub led_app-alarm_client :
    (device : Device) (fd stack : ℕ) (name filename operation : List ℕ) (n : ℕ) (r : Registers)
    → device.opened filename ≡ pos fd
    → atoi operation ≡ pos n
    → let app = led_app device (name ∷ filename ∷ operation ∷ []) in
      let client = alarm_client device filename n in
      (app.closes ≡ client.1)
      × (((n ≤ 1) × (app.databuf ≡ client.0))
          ⊎ ((2 ≤ n % 2 ^ 8) × (written stack app.databuf r ≡ done r))
          ⊎ ((2 ^ 8 ≤ n)
              × (n % 2 ^ 8 ≤ 1)
              × (app.databuf ≡ some (n % 2 ^ 8))
              × (written stack app.databuf r ≡ done (led_switch (n % 2 ^ 8) r))
              × (client.0 ≡ some 1)
              × (written stack client.0 r ≡ done (led_switch led_on r))))
unfolding written
led_app-alarm_client device fd stack name filename operation n r o e =
    let (byte, closes) = ran device fd name filename operation n o e in
    let client = client_lem device fd filename n o in
    (
      closes ∙ sym (ap (λ c. c.1) client),
      elim (Bool-cases (leb n 1)) [
        | inl small ↦
            inl (ground arith, byte ∙ ap some (low n (ground arith)) ∙ sym (ap (λ c. c.0) client))
        | inr large ↦ elim (Bool-cases (leb 2 (n % 2 ^ 8))) [
          | inl other ↦ inr (
              inl (
                ground arith,
                rw byte (
                    ap (λ w. w >>= (λ result. done result.1))
                      (led_write_other stack (n % 2 ^ 8) r (ground arith))),
              ))
          | inr wraps ↦
              let on = ap (λ c. c.0) client ∙ ap some (one n (ground arith)) in
              inr (
                inr (
                  ground arith,
                  ground arith,
                  byte,
                  rw byte (
                      ap (λ w. w >>= (λ result. done result.1))
                        (led_write_switch stack (n % 2 ^ 8) r (ground arith))),
                  on,
                  rw on (
                      ap (λ w. w >>= (λ result. done result.1))
                        (led_write_switch stack 1 r (omega arith))),
                ))
        ]
      ],
    )
  where
    low : (n : ℕ) → n ≤ 1 → n % 2 ^ 8 ≡ (if n == 0 then 0 else 1)
    low n h = ground arith

    one : (n : ℕ) → 2 ≤ n → ◌≡◌ {A = ℕ} (if n == 0 then 0 else 1) 1
    one n h = ground arith

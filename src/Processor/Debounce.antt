-- ===== src/Processor/Debounce.antt =====
-- The debounced LED of `processor_thread` over a history of alarm words.
use i_mx6ull_water_qualit.Base.{
  ℕ, suc, ◌≡◌, refl, arith, ◌==◌, leb, if◌then◌else◌, not, Bool, true, false, List, [], ◌∷◌, Option,
  none, some, ◌∙◌,
}
use i_mx6ull_water_qualit.Base.Int.{ℤ, pos, negsuc}
use i_mx6ull_water_qualit.Alarm.{alarm_client_set}
use i_mx6ull_water_qualit.Processor.{Led, led_start, debounce, led_write_of}

-- How many of the newest alarm words are alarms, or are clear. A history stands newest first.
abbrev pub alarm_streak : List ℕ → ℕ
alarm_streak [] = 0
alarm_streak (a ∷ h) = if a == 0 then 0 else suc (alarm_streak h)

abbrev pub clear_streak : List ℕ → ℕ
clear_streak [] = 0
clear_streak (a ∷ h) = if a == 0 then suc (clear_streak h) else 0

-- What the LED should show: three alarms in a row light it, two clear samples in a row put it
-- out, anything else leaves it.
abbrev pub should_light : List ℕ → Bool
should_light [] = false
should_light (a ∷ h) =
    if leb 3 (alarm_streak (a ∷ h))
    then true
    else (if leb 2 (clear_streak (a ∷ h)) then false else should_light h)

-- the locals of the thread, and the LED device, after a history
abbrev pub shows : Bool → Option ℕ → Bool
shows lit none = lit
shows lit (some command) = not (command == 0)

unfoldable pub led_after : List ℕ → Led
led_after [] = led_start
led_after (a ∷ h) = (debounce a (led_after h)).0

unfoldable pub device_after : ℤ → List ℕ → Bool
device_after fd [] = false
device_after fd (a ∷ h) = shows (device_after fd h) (led_write_of fd (debounce a (led_after h)).1)

record Tracks (h : List ℕ) (s : Led) : Type 0 where
  alarms : s.alarm_cnt ≡ alarm_streak h
  clears : s.clear_cnt ≡ clear_streak h
  lit : s.led_on ≡ should_light h

debounce-Tracks : (a : ℕ) (h : List ℕ) (s : Led) → Tracks h s → Tracks (a ∷ h) (debounce a s).0
unfolding debounce
debounce-Tracks a h s t = ground arith

led_after-Tracks : (h : List ℕ) → Tracks h (led_after h)
unfolding led_after
led_after-Tracks [] = record { alarms = refl; clears = refl; lit = refl }
led_after-Tracks (a ∷ h) = debounce-Tracks a h (led_after h) (led_after-Tracks h)

-- A round writes to the device exactly when `led_on` changes, and writes the new value.
device_follows :
    (fd a : ℕ) (s : Led) (lit : Bool)
    → lit ≡ s.led_on
    → shows lit (led_write_of (pos fd) (debounce a s).1) ≡ (debounce a s).0.led_on
unfolding debounce led_write_of alarm_client_set
device_follows fd a s lit e = ground arith

device_after-led_after : (fd : ℕ) (h : List ℕ) → device_after (pos fd) h ≡ (led_after h).led_on
unfolding device_after led_after
device_after-led_after fd [] = refl
device_after-led_after fd (a ∷ h) =
    device_follows fd a (led_after h) (device_after (pos fd) h) (device_after-led_after fd h)

device_after_closed : (n : ℕ) (h : List ℕ) → device_after (negsuc n) h ≡ false
unfolding device_after led_write_of alarm_client_set debounce
device_after_closed n [] = refl
device_after_closed n (a ∷ h) = ground (arith, device_after_closed n h)

-- After any history of alarm words, `led_on` is what the debouncing rule says, and an LED device
-- that was off at the start shows the same if its descriptor is open; if it is not, nothing is
-- written and the device stays off.
pub debounce_rule :
    (fd n : ℕ) (h : List ℕ)
    → ((led_after h).led_on ≡ should_light h)
      × (device_after (pos fd) h ≡ should_light h)
      × (device_after (negsuc n) h ≡ false)
debounce_rule fd n h = (t.lit, device_after-led_after fd h ∙ t.lit, device_after_closed n h)
  where
    t : Tracks h (led_after h)
    t = led_after-Tracks h

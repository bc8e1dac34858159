-- ===== src/Processor/Sees.antt =====
-- The LED of `processor_thread` after one more sample, and waits that end.
use mathlib.Core.Bool.{true≢false}
use i_mx6ull_water_qualit.Base.{
  ℕ, suc, ◌≡◌, refl, sym, ap, ◌∙◌, arith, ◌==◌, not, Bool, true, false, List, [], ◌∷◌, Option, none,
  some, map, length, All, zero,
}
use i_mx6ull_water_qualit.Base.Int.{ℤ}
use i_mx6ull_water_qualit.Float.{Float}
use i_mx6ull_water_qualit.Sample.{Sample}
use i_mx6ull_water_qualit.SampleQueue.{Wake}
use i_mx6ull_water_qualit.SampleQueue.Blocking.{Waits}
use i_mx6ull_water_qualit.SampleQueue.Waiting.{times_out}
use i_mx6ull_water_qualit.Processor.{Threshold, debounce, led_write_of}
use i_mx6ull_water_qualit.Processor.Debounce.{led_after, device_after, shows}
use i_mx6ull_water_qualit.Processor.Thread.{Processing, Round, alarm_of, shown, observe}

-- what an LED that was off shows after these bytes
abbrev pub lit : List ℕ → Bool
lit [] = false
lit (byte ∷ device) = not (byte == 0)

-- One of the waits times out.
abbrev pub Expires : {A : Type 0} → List (Wake A) → Type 0
Expires wakes = (k : ℕ) × (times_out k wakes ≡ true)

-- Neither the pop nor the push of a round waits without end.
abbrev pub IsTimely : {F : Type 0} → Round F → Type 0
IsTimely round = Expires round.pop_wakes × Expires round.push_wakes

pub never-times_out :
    {A : Type 0} (k : ℕ) (wakes : List (Wake A))
    → All (λ w. w.timed_out ≡ false) wakes
    → times_out k wakes ≡ false
never-times_out zero wakes never = refl
never-times_out (suc k) [] never = refl
never-times_out (suc zero) (wake ∷ wakes) never = never.0
never-times_out (suc (suc k)) (wake ∷ wakes) never = never-times_out (suc k) wakes never.1

pub not_waiting :
    {A : Type 0} (timeout : ℤ) (wakes : List (Wake A)) → Expires wakes → Waits timeout wakes → ⊥
not_waiting timeout wakes (k, e) w = true≢false (sym e ∙ never-times_out k wakes w.never)

module _ {F : Type 0} (float : Float F) (thresholds : Threshold F) (alarm_fd : ℤ)
    (blank : Sample F) where
  -- the alarm words of the samples, the newest first
  abbrev pub words : List (Sample F) → List ℕ
  words xs = map (alarm_of float thresholds alarm_fd) xs

  -- The locals and the device are as after the samples `xs`.
  pub record Follows (xs : List (Sample F)) (s : Processing F) : Type 0 where
    pub locals : s.led ≡ led_after (words xs)
    pub light : lit s.device ≡ device_after alarm_fd (words xs)
    pub counter : s.sample_counter ≡ length xs

  pub lit-shown :
      (command : Option ℕ) (device : List ℕ)
      → lit (shown float thresholds alarm_fd command device) ≡ shows (lit device) command
  lit-shown none device = refl
  lit-shown (some byte) device = refl

  pub observe-Follows :
      (x : Sample F) (xs : List (Sample F)) (s : Processing F)
      → Follows xs s
      → Follows
          (x ∷ xs)
          (observe float thresholds alarm_fd (alarm_of float thresholds alarm_fd x) s)
  unfolding led_after device_after
  observe-Follows x xs s t =
      let alarm = alarm_of float thresholds alarm_fd x in
      record {
        locals = ap (λ l. (debounce alarm l).0) t.locals;
        light =
            lit-shown (led_write_of alarm_fd (debounce alarm s.led).1) s.device
            ∙ ap (λ l. shows (lit s.device) (led_write_of alarm_fd (debounce alarm l).1)) t.locals
            ∙ ap (λ b. shows b (led_write_of alarm_fd (debounce alarm (led_after (words xs))).1))
                t.light;
        counter = omega (arith, t.counter);
      }

-- ===== src/Modbus/Master/Script.antt =====
-- A line on which every `write` takes one byte, and on which a frame comes in one read.
use i_mx6ull_water_qualit.Base.{ℕ, ◌<◌, ◌≤◌, ◌≡◌, inr, refl, arith, List, replicate, min}
use i_mx6ull_water_qualit.Serial.{WriteAnswer, wrote, ready, got}
use i_mx6ull_water_qualit.Serial.Transfer.{Works}
use i_mx6ull_water_qualit.Modbus.Master.{Line}
use i_mx6ull_water_qualit.Modbus.Master.Exchange.{Answers}

abbrev byte_by_byte : ℕ → WriteAnswer
byte_by_byte n = wrote (min 1 n)

abbrev pub sensor_line : List ℕ → Line
sensor_line frame = record {
  writes = replicate 8 byte_by_byte;
  select = λ _ _. ready;
  read = λ _. got frame;
}

pub sensor_line-Answers : (frame : List ℕ) → Answers frame (sensor_line frame)
sensor_line-Answers frame = record { works = works; selected = λ _ _. refl; frame_read = refl }
  where
    takes : (n : ℕ) → 0 < n → (k : ℕ) × (0 < k) × (k ≤ n) × (byte_by_byte n ≡ wrote k)
    takes n h = (min 1 n, omega arith, omega arith, refl)

    works : Works 8 (replicate 8 byte_by_byte)
    works = inr (
      takes,
      inr (
        takes,
        inr (takes, inr (takes, inr (takes, inr (takes, inr (takes, inr (takes, refl)))))),
      ),
    )

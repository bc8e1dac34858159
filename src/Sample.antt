-- ===== src/Sample.antt =====
-- app/src/sample.c and app/include/sample.h: the water quality sample. The clock of
-- `gettimeofday` is an argument, and so is the counter `g_mock_sequence`.
use i_mx6ull_water_qualit.Base.{
  ℕ, ◌+◌, ◌-◌, ◌==◌, length, take, ◌*◌, ◌/◌, ◌%◌, if◌then◌else◌, List, Option, none, some, Run,
  done, ◌>>=◌, load, u32, signed16,
}
use i_mx6ull_water_qualit.Base.Int.{ℤ, pos, negsuc, ltb_ℤ}
use i_mx6ull_water_qualit.Float.{Float}

pub record Sample (F : Type 0) : Type 0 where
  pub timestamp_ms : ℤ
  pub ph : F
  pub temperature : F
  pub turbidity : F
  pub conductivity : F
  pub sensor_status : ℕ
  pub alarm_status : ℕ
  pub sequence : ℕ

-- `struct timeval`
pub record Timeval : Type 0 where
  pub tv_sec : ℕ
  pub tv_usec : ℕ

pub now_ms : Timeval → ℤ
now_ms tv = pos (tv.tv_sec * 1000 + tv.tv_usec / 1000)

module _ {F : Type 0} (float : Float F) where
  open float use {hundredths, of_int, times, plus}

  -- `memset` makes every field zero; the bytes of `0.0f` are all zero.
  unfoldable pub sample_init : Option (Sample F) → Timeval → Option (Sample F)
  unfolding now_ms
  sample_init none tv = none
  sample_init (some sample) tv = some (record {
    timestamp_ms = now_ms tv;
    ph = hundredths (pos 0);
    temperature = hundredths (pos 0);
    turbidity = hundredths (pos 0);
    conductivity = hundredths (pos 0);
    sensor_status = 0;
    alarm_status = 0;
    sequence = 0;
  })

  -- base + (float)(seq % period) * 0.01f
  mock_value : ℤ → ℕ → ℕ → F
  mock_value base seq period =
      plus (hundredths base) (times (of_int (pos (seq % period))) (hundredths (pos 1)))

  -- the new value of `g_mock_sequence`, and the sample
  unfoldable pub sample_generate_mock : ℕ → Timeval → Option (Sample F) → ℕ × Option (Sample F)
  unfolding now_ms mock_value
  sample_generate_mock mock_sequence tv none = (mock_sequence, none)
  sample_generate_mock mock_sequence tv (some sample) =
      let seq = u32 (mock_sequence + 1) in
      (
        seq,
        some (record {
          timestamp_ms = now_ms tv;
          ph = mock_value (pos 700) seq 20;
          temperature = mock_value (pos 2500) seq 50;
          turbidity = mock_value (pos 300) seq 30;
          conductivity = plus (hundredths (pos 80000)) (of_int (pos (seq % 40)));
          sensor_status = 0;
          alarm_status = 0;
          sequence = seq;
        }),
      )

  -- the reads of the seven registers, once the arguments have passed
  unfoldable pub read_registers : List ℕ → Timeval → Run (Sample F)
  unfolding now_ms
  read_registers regs tv = do
    r0 ← load regs 0
    r1 ← load regs 1
    r2 ← load regs 2
    r3 ← load regs 3
    r4 ← load regs 4
    r5 ← load regs 5
    r6 ← load regs 6
    done (record {
      timestamp_ms = now_ms tv;
      ph = times (of_int (pos r0)) (hundredths (pos 1));
      temperature = times (of_int (signed16 r1)) (hundredths (pos 1));
      turbidity = times (of_int (pos r2)) (hundredths (pos 1));
      conductivity = of_int (pos r3);
      sensor_status = r4;
      alarm_status = r5;
      sequence = r6;
    })

  unfoldable pub sample_from_modbus_regs :
      Option (Sample F) → Option (List ℕ) → ℤ → Timeval → Run (Option (Sample F))
  sample_from_modbus_regs none regs reg_count tv = done none
  sample_from_modbus_regs (some sample) none reg_count tv = done (some sample)
  sample_from_modbus_regs (some sample) (some regs) reg_count tv =
      if ltb_ℤ reg_count (pos 7)
      then done (some sample)
      else read_registers regs tv >>= (λ read. done (some read))

-- `print` is the whole text that `snprintf` makes of a sample, `none` if it fails; the buffer is its
-- text up to the final NUL, which a failure leaves alone here.
unfoldable sample_to_string :
    {F : Type 0}
    → (Sample F → Option (List ℕ))
    → Option (Sample F)
    → Option (List ℕ)
    → ℕ
    → ℤ × Option (List ℕ)
sample_to_string print none buf buf_size = (negsuc 0, buf)
sample_to_string print (some sample) none buf_size = (negsuc 0, none)
sample_to_string print (some sample) (some buf) buf_size =
    if buf_size == 0 then (negsuc 0, some buf) else elim (print sample) [
      | none ↦ (negsuc 0, some buf)
      | some text ↦ (pos (length text), some (take (buf_size - 1) text))
    ]

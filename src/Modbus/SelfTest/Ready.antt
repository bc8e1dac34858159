-- ===== src/Modbus/SelfTest/Ready.antt =====
-- The arrays of the sensor tests, and the tests of good answers.
use Prim.Native.Nat.{min}
use i_mx6ull_water_qualit.Base.{
  ℕ, suc, ◌+◌, ◌≤◌, ◌<◌, ◌≡◌, ap, ◌∙◌, arith, inl, inr, true, List, [], ◌∷◌, Run, done, length,
  get_or, load-eq-done, IsBytes, IsWords,
}
use i_mx6ull_water_qualit.Modbus.Response.Exact.{parse_response_exact}
use i_mx6ull_water_qualit.Modbus.Answer.{build_test_response}
use i_mx6ull_water_qualit.Modbus.Answer.RoundTrip.{build-Answers}
use i_mx6ull_water_qualit.Modbus.Answer.RoundTrip
use i_mx6ull_water_qualit.Modbus.SelfTest.{Tested, Check, run_checks, check_count, test_registers}

-- `unsigned char buf[256]` and `unsigned short values[16]`
pub record IsReady (buf values : List ℕ) : Type 0 where
  pub buf_size : length buf ≡ 256
  pub bytes : IsBytes buf
  pub values_size : length values ≡ 16

-- A test that passes `n` checks and fails none, and leaves arrays of the same sizes.
pub record Passes (n : ℕ) (result : Run Tested) : Type 0 where
  pub buf : List ℕ
  pub values : List ℕ
  pub returns : result ≡ done (record { pass = n; fail = 0; buf = buf; values = values })
  pub ready : IsReady buf values

-- Every check is of a register below 7 and holds of it.
abbrev pub Hold : List ℕ → List Check → Type 0
Hold regs [] = Unit
Hold regs (check ∷ checks) =
    ((check.index < 7) × (check.holds (get_or regs check.index 0) ≡ true)) × Hold regs checks

checks_pass :
    (regs buf values : List ℕ) (checks : List Check) (n : ℕ)
    → 7 ≤ length values
    → ((j : ℕ) → j < 7 → get_or values j 0 ≡ get_or regs j 0)
    → Hold regs checks
    → run_checks checks (record { pass = n; fail = 0; buf = buf; values = values })
      ≡ done (record { pass = n + length checks; fail = 0; buf = buf; values = values })
unfolding run_checks
checks_pass regs buf values [] n room same hold =
    ap (λ m. done (record { pass = m; fail = 0; buf = buf; values = values })) {y = n + 0}
      (omega arith)
checks_pass regs buf values (check ∷ checks) n room same ((small, h), hold) =
    rw (load-eq-done values check.index 0 (omega arith), same check.index small, h)
      (checks_pass regs buf values checks (n + 1) room same hold
        ∙ ap (λ m. done (record { pass = m; fail = 0; buf = buf; values = values }))
            {y = n + suc (length checks)} (omega arith))

-- Tests 1 to 5: all checks pass, if they hold of the registers.
pub test_registers-Passes :
    (regs : List ℕ) (checks : List Check) (buf values : List ℕ)
    → IsReady buf values
    → IsWords regs
    → length regs ≡ 7
    → Hold regs checks
    → Passes (1 + length checks) (test_registers regs checks buf values)
unfolding test_registers check_count
test_registers-Passes regs checks buf values ready words seven hold =
    elim (parse_response_exact a.frame values 19 16 a.bytes a.fits
      (omega (arith, ready.values_size)) (omega arith)) [
        | inr (wrong, _) ↦ absurd (wrong a.accepts)
        | inl (_, p) ↦ record {
          buf = a.frame;
          values = p.out;
          returns =
              rw (a.returns, p.returns, ap (λ n. min n 16) a.counted)
                (checks_pass regs a.frame p.out checks 1
                  (omega (arith, p.same_length, ready.values_size))
                  (λ j h. p.copied j (omega (arith, a.counted)) ∙ a.registers j h) hold);
          ready = record {
            buf_size = a.same_length ∙ ready.buf_size;
            bytes = a.bytes;
            values_size = p.same_length ∙ ready.values_size;
          };
        }
      ]
  where
    a : RoundTrip.Answers buf regs 7 (build_test_response buf regs 7)
    a =
        build-Answers buf regs 7 words ready.bytes (omega (arith, seven)) (omega arith)
          (omega (arith, ready.buf_size))

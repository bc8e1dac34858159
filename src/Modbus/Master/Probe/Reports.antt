-- ===== src/Modbus/Master/Probe/Reports.antt =====
-- What `modbus_test_serial_read` reports of a slave that answers.
use i_mx6ull_water_qualit.Base.{
  ℕ, suc, zero, ◌+◌, ◌≤◌, ◌<◌, ◌≡◌, ◌⊎◌, inl, inr, refl, ap, ◌∙◌, arith, true, false, Bool-cases,
  List, [], ◌∷◌, ◌++◌, some, done, ◌>>=◌, length, get_or, take, drop, load-eq-done, IsBytes,
}
use i_mx6ull_water_qualit.Base.Int.{pos, ltb_ℤ}
use i_mx6ull_water_qualit.Float.{Float}
use i_mx6ull_water_qualit.Modbus.{Output, refused}
use i_mx6ull_water_qualit.Modbus.Response.Exact.{Accepts, Parsed, register_count}
use i_mx6ull_water_qualit.Modbus.SelfTest.{scaled}
use i_mx6ull_water_qualit.Modbus.SelfTest.Ready.{IsReady}
use i_mx6ull_water_qualit.Modbus.SelfTest.Passed.{modbus_run_sensor_tests-passes}
use i_mx6ull_water_qualit.Modbus.Master.{Line}
use i_mx6ull_water_qualit.Modbus.Master.Exchange.{Answers, modbus_read_registers_exact}
use i_mx6ull_water_qualit.Modbus.Master.Probe.{
  registers, simulated, read_values, report, modbus_test_serial_read,
}

drop_at :
    (i : ℕ) (values : List ℕ)
    → i < length values
    → drop i values ≡ get_or values i 0 ∷ drop (i + 1) values
drop_at i [] h = absurd (omega arith)
drop_at zero (v ∷ values) h = refl
drop_at (suc i) (v ∷ values) h =
    drop_at i values (omega arith)
    ∙ ap (λ k. get_or values i 0 ∷ drop k (v ∷ values)) {x = suc (i + 1)} (omega arith)

read_values-take :
    (n i : ℕ) (values : List ℕ)
    → i + n ≤ length values
    → read_values n i values ≡ done (take n (drop i values))
unfolding read_values
read_values-take zero i values h = refl
read_values-take (suc n) i values h =
    rw
      (
        load-eq-done values i 0 (omega arith),
        read_values-take n (i + 1) values (omega arith),
        drop_at i values (omega arith),
      )
      refl

module _ {F : Type 0} (float : Float F) (buf scratch : List ℕ) (ready : IsReady buf scratch)
    (low : float.less (scaled float 450) (float.hundredths (pos 700)) ≡ true)
    (high : float.less (float.hundredths (pos 1000)) (scaled float 5000) ≡ true) where
  report_simulated :
      (values : List ℕ) (out : Output)
      → ltb_ℤ (pos 0) out.0 ≡ false
      → report float buf scratch values out ≡ done (some (simulated (35, 0)))
  unfolding report
  report_simulated values out none_read =
      rw (none_read, modbus_run_sensor_tests-passes float buf scratch ready low high) refl

  report_registers :
      (values out : List ℕ) (n : ℕ)
      → n ≤ length out
      → ltb_ℤ (pos 0) (pos n) ≡ true
      → report float buf scratch values (pos n, some out) ≡ done (some (registers (take n out)))
  unfolding report
  report_registers values out n fits some_read =
      rw (some_read, read_values-take n 0 out (omega arith)) refl

  -- On an open port, with a slave that gives a frame of 1 to 256 bytes in one read and a float that
  -- orders 450 and 5000 hundredths against 7 and 10: if the frame is a normal answer of at least one register,
  -- its registers, at most 16, are reported, and else the totals of the sensor tests, 35 passed and
  -- none failed.
  pub modbus_test_serial_read-Reports :
      (fd : ℕ) (request response values frame : List ℕ) (line : Line)
      → length request ≡ 8
      → length response ≡ 256
      → IsBytes response
      → IsBytes frame
      → 0 < length frame
      → length frame ≤ 256
      → length values ≡ 16
      → Answers frame line
      → let received = frame ++ drop (length frame) response in
        let count = register_count received 16 in
        let result =
          modbus_test_serial_read float (pos fd) request response values buf scratch line in
        ((out : Output) × (p : Parsed received values count (done out)) × Accepts received
            (length frame)
          × (0 < count)
          × (result ≡ done (some (registers (take count p.out)))))
        ⊎ ((¬ Accepts received (length frame) ⊎ (count ≡ 0))
            × (result ≡ done (some (simulated (35, 0)))))
  unfolding modbus_test_serial_read
  modbus_test_serial_read-Reports fd request response values frame line size_q size_r bytes_r
        bytes_f some_frame fits size a =
      let (out, e, ways) =
        modbus_read_registers_exact fd 1 0 7 request response values frame 16 (pos 1000) line
          (omega arith) (omega arith) (omega arith) (omega arith) size_q size_r bytes_r bytes_f
          some_frame fits (omega arith) (omega (arith, size)) a in
      elim ways [
        | inr (wrong, w) ↦
            inr (inl wrong, rw (e, w) (report_simulated values (refused (some values)) refl))
        | inl (acc, p) ↦ elim (Bool-cases (ltb_ℤ (pos 0) (pos (count)))) [
          | inl some_read ↦ inl (
            out,
            p,
            acc,
            ground (arith, some_read),
            rw e (
                parsed out p
                ∙ report_registers values p.out count (omega (arith, p.same_length, size))
                    some_read),
          )
          | inr none_read ↦ inr (
            inr (ground (arith, none_read)),
            rw e (parsed out p ∙ report_simulated values (pos count, some p.out) none_read),
          )
        ]
      ]
    where
      count : ℕ
      count = register_count (frame ++ drop (length frame) response) 16

      parsed :
          (out : Output)
          (p : Parsed (frame ++ drop (length frame) response) values count (done out))
          → report float buf scratch values out
            ≡ report float buf scratch values (pos count, some p.out)
      parsed out p = ap (λ r. r >>= (λ o. report float buf scratch values o)) p.returns

-- ===== src/Gateway/Collected.antt =====
-- One round of `collect_thread`: the sample that it pushes.
use mathlib.Core.Path.{subst}
use i_mx6ull_water_qualit.Base.{
  ℕ, ◌^◌, ◌/◌, leb, ◌≤◌, ◌<◌, ◌≡◌, ◌⊎◌, inl, inr, refl, sym, ap, ◌∙◌, arith, false, List, Option,
  none, some, Run, done, fault, length, get_or, Bool-cases, drop, ◌++◌, IsBytes,
}
use i_mx6ull_water_qualit.Base.Int.{ℤ, pos, negsuc, ltb_ℤ, eqb_ℤ}
use i_mx6ull_water_qualit.Float.{Float}
use i_mx6ull_water_qualit.Modbus.{Output}
use i_mx6ull_water_qualit.Modbus.Response.Exact.{Accepts, register_count}
use i_mx6ull_water_qualit.Modbus.Response.Copy.{register_at}
use i_mx6ull_water_qualit.Modbus.Master.{modbus_read_registers}
use i_mx6ull_water_qualit.Modbus.Master.Exchange.{Answers, modbus_read_registers_exact}
use i_mx6ull_water_qualit.Sample.{Sample, sample_generate_mock}
use i_mx6ull_water_qualit.SampleQueue.{SampleQueue}
use i_mx6ull_water_qualit.SampleQueue.Fifo
use i_mx6ull_water_qualit.SampleQueue.Fifo.{Fifo}
use i_mx6ull_water_qualit.SampleQueue.Refine.{Represents}
use i_mx6ull_water_qualit.SampleQueue.Blocking.{Waits, meanwhile, push_linearizes}
use i_mx6ull_water_qualit.Gateway.Collect.{
  Turn, Collecting, to_uchar, hand_over, read_port, make_sample, collect_round,
}
use i_mx6ull_water_qualit.Gateway.Readings.{
  from_frame, from_regs, from_copied, mock_of, mock_state, read_state,
}

module _ {F : Type 0} (float : Float F) (blank : Sample F) where
  -- The sample `x` was pushed, as the other threads have left the queue after some waits; or the
  -- push waits for ever.
  abbrev pub HandedOver :
      Turn F → Collecting F → Fifo (Sample F) → Sample F → Run (Option (Collecting F)) → Type 0
  HandedOver t s f x result =
      ((k : ℕ) × (after : SampleQueue (Sample F)) × (result
          ≡ done (some (record s { raw_queue = after })))
        × Represents blank after
            (Fifo.push s.raw_queue.capacity x
              (Fifo.run s.raw_queue.capacity (meanwhile k t.wakes) f)).1)
      ⊎ ((result ≡ done none) × Waits (pos 100) t.wakes)

  -- The next mock sample was pushed.
  abbrev pub MockedOver :
      Turn F → Collecting F → Fifo (Sample F) → Run (Option (Collecting F)) → Type 0
  MockedOver t s f result =
      (x : Sample F) × (mock_of float t s ≡ some x) × HandedOver t (mock_state float t s) f x result

  hand_over-HandedOver :
      (t : Turn F) (s : Collecting F) (f : Fifo (Sample F)) (x : Sample F)
      → Represents blank s.raw_queue f
      → HandedOver t s f x (hand_over float t.wakes (some x) s)
  unfolding hand_over
  hand_over-HandedOver t s f x r =
      elim (push_linearizes blank (pos 100) t.wakes s.raw_queue f x r) [
        | inl (k, after, e, r2) ↦ inl (k, after, rw e refl, r2)
        | inr (e, waiting) ↦ inr (rw e refl, waiting)
      ]

  mocked :
      (serial_fd slave_addr : ℤ) (t : Turn F) (s : Collecting F) (f : Fifo (Sample F))
      (out : Output)
      → Represents blank s.raw_queue f
      → read_port float serial_fd slave_addr t ≡ done (some out)
      → eqb_ℤ out.0 (pos 7) ≡ false
      → MockedOver t s f (collect_round float serial_fd slave_addr t s)
  unfolding collect_round make_sample sample_generate_mock
  mocked serial_fd slave_addr t s f out r e short = (
    _,
    refl,
    subst (HandedOver t (mock_state float t s) f _)
        {x = hand_over float t.wakes (mock_of float t s) (mock_state float t s)}
        {y = collect_round float serial_fd slave_addr t s} (sym (rw (e, short) refl))
        (hand_over-HandedOver t (mock_state float t s) f _ r),
  )

  was_read :
      (serial_fd slave_addr : ℤ) (t : Turn F) (s : Collecting F) (f : Fifo (Sample F))
      (buf out : List ℕ)
      → Represents blank s.raw_queue f
      → read_port float serial_fd slave_addr t ≡ done (some (pos 7, some out))
      → 7 ≤ length out
      → ((j : ℕ) → j < 7 → get_or out j 0 ≡ register_at buf j)
      → HandedOver t
          (read_state float s)
          f
          (from_frame float buf t.clock)
          (collect_round float serial_fd slave_addr t s)
  unfolding collect_round make_sample
  was_read serial_fd slave_addr t s f buf out r e room copied =
      subst (HandedOver t (read_state float s) f (from_frame float buf t.clock))
        {x = hand_over float t.wakes (some (from_frame float buf t.clock)) (read_state float s)}
        {y = collect_round float serial_fd slave_addr t s}
        (sym (
          rw
            (e, from_regs float t.sample out t.clock room, from_copied float buf out t.clock copied)
            refl))
        (hand_over-HandedOver t (read_state float s) f (from_frame float buf t.clock) r)

  to_uchar_small : (n : ℤ) → to_uchar n < 2 ^ 8
  to_uchar_small (pos n) = omega arith
  to_uchar_small (negsuc n) = omega arith

  port_open :
      (fd : ℕ) (slave_addr : ℤ) (t : Turn F) (out : Output) (sent : List ℕ)
      → modbus_read_registers
          (pos fd)
          (to_uchar slave_addr)
          0x0000
          7
          t.request
          t.response
          (some t.values)
          (pos 7)
          (pos 500)
          t.line
        ≡ done (some (out, sent))
      → read_port float (pos fd) slave_addr t ≡ done (some out)
  unfolding read_port
  port_open fd slave_addr t out sent e = rw (is_open, e) refl
    where
      is_open : ltb_ℤ (pos fd) (pos 0) ≡ false
      is_open = ground arith

  port_closed :
      (n : ℕ) (slave_addr : ℤ) (t : Turn F)
      → read_port float (negsuc n) slave_addr t ≡ done (some (negsuc 0, some t.values))
  unfolding read_port
  port_closed n slave_addr t = ground arith

  out_of : (out other : Output) → done out ≡ done other → out ≡ other
  out_of out other e = ap (λ r. elim r [ done o ↦ o | fault ↦ out ]) e

  not_seven : (n : ℕ) → n < 7 → eqb_ℤ (pos n) (pos 7) ≡ false
  not_seven n h = ground arith

-- A round without a port pushes the next mock sample. A round on an open port whose sensor answers
-- with a frame of 1 to 256 bytes, in one read, pushes the sample of its first seven registers if the
-- frame at the front of the receive buffer is a normal answer with at least seven, and the next mock
-- sample if it is not. The sample goes to the queue as the other threads have left it after some
-- waits of the push, or one push waits for ever.
pub collect_round_exact :
    {F : Type 0} (float : Float F) (blank : Sample F) (fd n : ℕ) (slave_addr : ℤ) (t : Turn F)
    (s : Collecting F) (f : Fifo (Sample F)) (frame : List ℕ)
    → Represents blank s.raw_queue f
    → length t.request ≡ 8
    → length t.response ≡ 256
    → length t.values ≡ 7
    → IsBytes t.response
    → IsBytes frame
    → 0 < length frame
    → length frame ≤ 256
    → Answers frame t.line
    → let received = frame ++ drop (length frame) t.response in
      let normal = Accepts received (length frame) × (7 ≤ get_or received 2 0 / 2) in
      MockedOver float blank t s f (collect_round float (negsuc n) slave_addr t s)
      × ((normal
            × HandedOver float blank t
                (read_state float s)
                f
                (from_frame float received t.clock)
                (collect_round float (pos fd) slave_addr t s))
          ⊎ (¬ normal × MockedOver float blank t s f (collect_round float (pos fd) slave_addr t s)))
collect_round_exact float blank fd n slave_addr t s f frame r hq hr hv bytes_r bytes_f h1 h256 a = (
  mocked float blank (negsuc n) slave_addr t s f (negsuc 0, some t.values) r
      (port_closed float blank n slave_addr t) refl,
  (let (out, e, case) =
        modbus_read_registers_exact fd (to_uchar slave_addr) 0x0000 7 t.request t.response t.values
          frame 7 (pos 500) t.line (to_uchar_small float blank slave_addr) (omega arith)
          (omega arith) (omega arith) hq hr bytes_r bytes_f h1 h256 (omega arith) (omega arith) a in
      let port = port_open float blank fd slave_addr t out _ e in
      elim case [
        | inl (accepted, p) ↦ elim (Bool-cases (leb 7 (get_or received 2 0 / 2))) [
          | inl seven ↦ inl (
            (accepted, ground arith),
            was_read float blank (pos fd) slave_addr t s f received p.out r
                (port
                  ∙ ap (λ o. done (some o))
                      (out_of float blank out _ p.returns
                        ∙ ap (λ c. (pos c, some p.out)) {y = 7} (ground arith)))
                (omega (arith, p.same_length)) (λ j h. p.copied j (ground arith)),
          )
          | inr fewer ↦ inr (
            (λ normal. ground (arith, normal.1)),
            mocked float blank (pos fd) slave_addr t s f out r port (
                ap (λ o. eqb_ℤ o.0 (pos 7)) (out_of float blank out _ p.returns)
                ∙ not_seven float blank (register_count received 7) (ground arith)),
          )
        ]
        | inr (wrong, e2) ↦ inr (
          (λ normal. wrong normal.0),
          mocked float blank (pos fd) slave_addr t s f out r port (ap (λ o. eqb_ℤ o.0 (pos 7)) e2),
        )
      ]),
)
  where
    received : List ℕ
    received = frame ++ drop (length frame) t.response

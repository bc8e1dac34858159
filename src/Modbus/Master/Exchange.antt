-- ===== src/Modbus/Master/Exchange.antt =====
-- A whole exchange of `modbus_read_registers`.
use i_mx6ull_water_qualit.Base.{
  ℕ, ◌>>=◌, ◌^◌, ◌≤◌, ◌<◌, ◌≡◌, refl, ap, ◌∙◌, arith, ◌⊎◌, inl, inr, List, ◌++◌, Option, some, done,
  length, drop, All-append, All-drop, length-append, IsBytes,
}
use i_mx6ull_water_qualit.Base.Int.{ℤ, pos, ◌+ℤ◌}
use i_mx6ull_water_qualit.Modbus.{Output, refused, max_registers}
use i_mx6ull_water_qualit.Modbus.Request.Layout.{request_frame, build_read_request_exact}
use i_mx6ull_water_qualit.Modbus.Request.{build_read_request}
use i_mx6ull_water_qualit.Modbus.Response.{parse_response}
use i_mx6ull_water_qualit.Modbus.Response.Exact.{
  Accepts, Parsed, register_count, parse_response_exact,
}
use i_mx6ull_water_qualit.Modbus.Master.{Line, receive, modbus_read_registers}
use i_mx6ull_water_qualit.Sample.{Timeval}
use i_mx6ull_water_qualit.Serial.{ready, got, serial_read, select_timeout}
use i_mx6ull_water_qualit.Serial.Transfer.{Works, serial_write_all}

-- The sensor answers with `frame`, in one read.
pub record Answers (frame : List ℕ) (line : Line) : Type 0 where
  pub works : Works 8 line.writes
  pub selected : (fd : ℤ) (t : Option Timeval) → line.select fd t ≡ ready
  pub frame_read : line.read 256 ≡ got frame

receive_frame :
    (fd : ℕ) (response values frame sent : List ℕ) (max_values : ℕ) (timeout_ms : ℤ) (line : Line)
    → Answers frame line
    → 0 < length frame
    → receive (pos fd) response (some values) (pos max_values) timeout_ms line sent ≡ (
        parse_response
          (some (frame ++ drop (length frame) response))
          (pos (length frame))
          (some values)
          (pos max_values)
        >>= (λ out. done (some (out, sent))))
unfolding receive serial_read
receive_frame fd response values frame sent max_values timeout_ms line a h =
    ground (arith, a.selected (pos fd +ℤ pos 1) (select_timeout timeout_ms), a.frame_read)

request_sent :
    (fd slave start quantity : ℕ) (request response values : List ℕ) (max_values : ℕ)
    (timeout_ms : ℤ) (line : Line)
    → slave < 2 ^ 8
    → start < 2 ^ 16
    → 1 ≤ quantity
    → quantity ≤ max_registers
    → length request ≡ 8
    → Works 8 line.writes
    → modbus_read_registers
        (pos fd)
        slave
        start
        quantity
        request
        response
        (some values)
        (pos max_values)
        timeout_ms
        line
      ≡ receive
          (pos fd)
          response
          (some values)
          (pos max_values)
          timeout_ms
          line
          (request_frame slave start quantity)
unfolding modbus_read_registers
request_sent fd slave start quantity request response values max_values timeout_ms line hs ha h1
      h125 size works =
    rw
      (
        built,
        serial_write_all fd 8 (request_frame slave start quantity ++ drop 8 request) line.writes
            (omega arith) works,
      )
      refl
  where
    built :
        build_read_request slave start quantity (some request) (pos 8)
        ≡ done (pos 8, some (request_frame slave start quantity ++ drop 8 request))
    built = elim (build_read_request_exact slave start quantity 8 request hs ha (omega arith)) [
      | inl (_, _, _, e, _) ↦ e
      | inr (wrong, _) ↦ absurd (ground (arith, wrong))
    ]

-- An exchange over an open port on which every call of `write` is interrupted or takes a byte,
-- eight of them taking one, and on which the sensor then gives a frame of 1 to 256 bytes in one
-- read: the request, and only it, goes out, and either the frame at the front of the receive
-- buffer is a normal answer and its registers are stored and counted, cut at the array, or it is
-- none, the result is -1 and nothing is stored.
pub modbus_read_registers_exact :
    (fd slave start quantity : ℕ) (request response values frame : List ℕ) (max_values : ℕ)
    (timeout_ms : ℤ) (line : Line)
    → slave < 2 ^ 8
    → start < 2 ^ 16
    → 1 ≤ quantity
    → quantity ≤ max_registers
    → length request ≡ 8
    → length response ≡ 256
    → IsBytes response
    → IsBytes frame
    → 0 < length frame
    → length frame ≤ 256
    → 0 < max_values
    → max_values ≤ length values
    → Answers frame line
    → let received = frame ++ drop (length frame) response in
      (out : Output) × (modbus_read_registers
          (pos fd)
          slave
          start
          quantity
          request
          response
          (some values)
          (pos max_values)
          timeout_ms
          line
        ≡ done (some (out, request_frame slave start quantity)))
      × ((Accepts received (length frame)
            × Parsed received values (register_count received max_values) (done out))
          ⊎ (¬ Accepts received (length frame) × (out ≡ refused (some values))))
modbus_read_registers_exact fd slave start quantity request response values frame max_values
      timeout_ms line hs ha h1 h125 size_q size_r bytes_r bytes_f some_frame fits some_room room a =
    elim (parse_response_exact received values (length frame) max_values bytes_in fits_in room
      some_room) [
        | inl (acc, p) ↦ (
          (pos (register_count received max_values), some p.out),
          whole
              ∙ ap (λ r. r >>= (λ out. done (some (out, request_frame slave start quantity))))
                  p.returns,
          inl (
            acc,
            record {
              out = p.out;
              returns = refl;
              same_length = p.same_length;
              copied = p.copied;
              kept = p.kept;
            },
          ),
        )
        | inr (wrong, e) ↦ (
          refused (some values),
          whole ∙ ap (λ r. r >>= (λ out. done (some (out, request_frame slave start quantity)))) e,
          inr (wrong, refl),
        )
      ]
  where
    received : List ℕ
    received = frame ++ drop (length frame) response

    bytes_in : IsBytes received
    bytes_in =
        All-append (λ b. b < 2 ^ 8) frame (drop (length frame) response) bytes_f
          (All-drop (λ b. b < 2 ^ 8) (length frame) response bytes_r)

    fits_in : length frame ≤ length received
    fits_in = omega (arith, length-append frame (drop (length frame) response))

    whole :
        modbus_read_registers
          (pos fd)
          slave
          start
          quantity
          request
          response
          (some values)
          (pos max_values)
          timeout_ms
          line
        ≡ (parse_response (some received) (pos (length frame)) (some values) (pos max_values)
            >>= (λ out. done (some (out, request_frame slave start quantity))))
    whole =
        request_sent fd slave start quantity request response values max_values timeout_ms line hs
          ha h1 h125 size_q a.works
        ∙ receive_frame fd response values frame (request_frame slave start quantity) max_values
            timeout_ms line a some_frame

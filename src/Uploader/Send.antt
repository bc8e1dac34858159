-- ===== src/Uploader/Send.antt =====
-- What `uploader_send_line` of app/src/uploader.c puts on the socket.
use mathlib.Core.Path.{subst}
use i_mx6ull_water_qualit.Base.{
  ℕ, zero, suc, ◌+◌, ◌-◌, ◌≤◌, ◌<◌, ◌≡◌, ◌⊎◌, inl, inr, refl, sym, ap, ◌∙◌, arith, ltb, ltb→lt,
  Bool-cases, true, false, List, ◌++◌, append-nil, append_assoc, length, take, drop, length-take,
  take-add, take-take,
}
use i_mx6ull_water_qualit.Base.Int.{ℤ, pos, negsuc, pos_part, ltb_ℤ}
use i_mx6ull_water_qualit.Uploader.{Network, send_loop, uploader_send_line}

-- What POSIX says of `send`: of the bytes that it is given the first go out, as many as it
-- returns, and none if it fails. `wire` is all that has gone out on a socket.
pub record Sends {W F : Type 0} (network : Network W F) (wire : W → List ℕ) : Type 0 where
  pub at_most : (w : W) (bytes : List ℕ) → pos_part (network.send w bytes).0 ≤ length bytes
  pub goes_out :
      (w : W) (bytes : List ℕ)
      → wire (network.send w bytes).1 ≡ wire w ++ take (pos_part (network.send w bytes).0) bytes

module _ {W F : Type 0} (network : Network W F) (wire : W → List ℕ)
    (sends : Sends network wire) where
  -- All of the line, or a part of it and -1.
  abbrev pub LineSent : W → List ℕ → ℕ → ℤ × W → Type 0
  LineSent w bytes len result =
      ((result.0 ≡ pos 0) × (wire result.1 ≡ wire w ++ take len bytes))
      ⊎ ((result.0 ≡ negsuc 0) × ((k : ℕ) × (k < len) × (wire result.1 ≡ wire w ++ take k bytes)))

  module _ (rounds : ℕ) (w : W) (bytes : List ℕ) (len sent : ℕ) where
    answer : ℤ × W
    answer = network.send w (take (len - sent) (drop sent bytes))

    loop_ends : ltb sent len ≡ false → send_loop network (suc rounds) w bytes len sent ≡ (pos 0, w)
    unfolding send_loop
    loop_ends t = rw t refl

    loop_fails :
        ltb sent len ≡ true
        → ltb_ℤ (pos 0) answer.0 ≡ false
        → send_loop network (suc rounds) w bytes len sent ≡ (negsuc 0, answer.1)
    unfolding send_loop answer
    loop_fails t n = rw (t, n) refl

    loop_goes_on :
        ltb sent len ≡ true
        → ltb_ℤ (pos 0) answer.0 ≡ true
        → send_loop network (suc rounds) w bytes len sent
          ≡ send_loop network rounds answer.1 bytes len (sent + pos_part answer.0)
    unfolding send_loop answer
    loop_goes_on t n = rw (t, n) refl

    -- what one call adds to the line, whose first `sent` bytes are out
    one_more :
        (start : W)
        → wire w ≡ wire start ++ take sent bytes
        → wire answer.1 ≡ wire start ++ take (sent + pos_part answer.0) bytes
    unfolding answer
    one_more start e =
        sends.goes_out w (take (len - sent) (drop sent bytes))
        ∙ ap (λ t. wire w ++ t) (take-take n (len - sent) (drop sent bytes) short)
        ∙ ap (λ t. t ++ take n (drop sent bytes)) e
        ∙ append_assoc (wire start) (take sent bytes) (take n (drop sent bytes))
        ∙ ap (λ t. wire start ++ t) (take-add sent n bytes)
      where
        n : ℕ
        n = pos_part (network.send w (take (len - sent) (drop sent bytes))).0

        short : pos_part (network.send w (take (len - sent) (drop sent bytes))).0 ≤ len - sent
        short = omega (
          arith,
          sends.at_most w (take (len - sent) (drop sent bytes)),
          length-take (len - sent) (drop sent bytes),
        )

    answer_short : pos_part answer.0 ≤ len - sent
    unfolding answer
    answer_short = omega (
      arith,
      sends.at_most w (take (len - sent) (drop sent bytes)),
      length-take (len - sent) (drop sent bytes),
    )

  send_loop-LineSent :
      (rounds : ℕ) (start w : W) (bytes : List ℕ) (len sent : ℕ)
      → wire w ≡ wire start ++ take sent bytes
      → sent ≤ len
      → len ≤ sent + rounds
      → LineSent start bytes len (send_loop network rounds w bytes len sent)
  send_loop-LineSent zero start w bytes len sent e low high =
      unfold send_loop in
      inl (refl, e ∙ ap (λ k. wire start ++ take k bytes) {y = len} (omega arith))
  send_loop-LineSent (suc rounds) start w bytes len sent e low high =
      elim (Bool-cases (ltb sent len)) [
        | inr t ↦
            subst (LineSent start bytes len) (sym (loop_ends rounds w bytes len sent t))
              (inl (refl, e ∙ ap (λ k. wire start ++ take k bytes) {y = len} (ground arith)))
        | inl t ↦
            let lt = ltb→lt sent len t in
            let r = answer rounds w bytes len sent in
            let out = one_more rounds w bytes len sent start e in
            let short = answer_short rounds w bytes len sent in
            elim (Bool-cases (ltb_ℤ (pos 0) r.0)) [
              | inr n ↦
                  subst (LineSent start bytes len) (sym (loop_fails rounds w bytes len sent t n))
                    (inr (refl, (sent, lt, nothing_sent start r out n)))
              | inl n ↦
                  subst (LineSent start bytes len) (sym (loop_goes_on rounds w bytes len sent t n))
                    (send_loop-LineSent rounds start r.1 bytes len (sent + pos_part r.0) out
                      (omega arith) (ground arith))
            ]
      ]
    where
      nothing_sent :
          (start : W) (r : ℤ × W)
          → wire r.1 ≡ wire start ++ take (sent + pos_part r.0) bytes
          → ltb_ℤ (pos 0) r.0 ≡ false
          → wire r.1 ≡ wire start ++ take sent bytes
      nothing_sent start r out n =
          out ∙ ap (λ k. wire start ++ take k bytes) {y = sent} (ground arith)

  -- On a socket that does what POSIX says, a line that a buffer holds goes out whole and the result
  -- is 0, or a proper beginning of it goes out and the result is -1. There are no other results:
  -- the loop ends in as many rounds as the line has bytes.
  pub send_line_exact :
      (w : W) (bytes : List ℕ) (len : ℕ)
      → LineSent w bytes len (uploader_send_line network w bytes len)
  unfolding uploader_send_line
  send_line_exact w bytes len =
      send_loop-LineSent len w w bytes len 0 (sym (append-nil (wire w))) (omega arith) (omega arith)

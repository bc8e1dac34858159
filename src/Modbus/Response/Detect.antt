-- ===== src/Modbus/Response/Detect.antt =====
-- What corruption of an answer `modbus_parse_response` is certain to notice.
use i_mx6ull_water_qualit.Base.{
  ℕ, suc, ◌-◌, ◌^◌, ◌≤◌, ◌<◌, ◌≡◌, ap, sym, ◌∙◌, arith, List, [], ◌∷◌, ◌++◌, some, done, length,
  get_or, take, split_last_two, IsBytes, All-append, All-get_or, All-take,
}
use i_mx6ull_water_qualit.Base.Int.{pos}
use i_mx6ull_water_qualit.Modbus.{refused}
use i_mx6ull_water_qualit.Modbus.Crc.{crc_start}
use i_mx6ull_water_qualit.Modbus.Crc.Fold.{crc_bytes}
use i_mx6ull_water_qualit.Modbus.Crc.Residue.{crc_bytes_residue, crc_bytes_burst}
use i_mx6ull_water_qualit.Modbus.Response.{parse_response}
use i_mx6ull_water_qualit.Modbus.Response.Exact.{Accepts, not_accepted}

-- The checksum over a whole answer, its own checksum included, is 0.
pub crc_bytes-Accepts :
    (frame : List ℕ) → IsBytes frame → Accepts frame (length frame) → crc_bytes crc_start frame ≡ 0
crc_bytes-Accepts frame bytes a =
    ap (crc_bytes crc_start) split
    ∙ (crc_bytes_residue crc_start (take n frame) (get_or frame n 0) (get_or frame (suc n) 0)
          (omega arith) (All-take (λ b. b < 2 ^ 8) n frame bytes) (small n (omega arith))
          (small (suc n) (omega arith))).1
        (ground (arith, a.checked))
  where
    n : ℕ
    n = length frame - 2

    long : length frame ≡ suc (suc n)
    long = omega (arith, a.sized)

    split : frame ≡ take n frame ++ get_or frame n 0 ∷ get_or frame (suc n) 0 ∷ []
    split = split_last_two frame n 0 long

    small : (i : ℕ) → i < length frame → get_or frame i 0 < 2 ^ 8
    small i h = All-get_or (λ b. b < 2 ^ 8) frame i 0 bytes h

-- If an answer is accepted, then the frame with two neighbouring bytes changed, or one of them, is
-- refused with -1 and the register array left alone.
pub parse_response_corrupted :
    (before after values : List ℕ) (x y x' y' max_values : ℕ)
    → IsBytes before
    → IsBytes after
    → IsBytes (x ∷ y ∷ x' ∷ y' ∷ [])
    → max_values ≤ length values
    → 0 < max_values
    → ¬ ((x ≡ x') × (y ≡ y'))
    → Accepts (before ++ x ∷ y ∷ after) (length (before ++ x ∷ y ∷ after))
    → let received = before ++ x' ∷ y' ∷ after in
      parse_response (some received) (pos (length received)) (some values) (pos max_values)
      ≡ done (refused (some values))
parse_response_corrupted before after values x y x' y' max_values hb ha hs room some_room differ a =
    not_accepted received values (length received) max_values (whole x' y' hs.1.1.0 hs.1.1.1.0)
      (omega arith) room some_room
      λ a'. differ (
        crc_bytes_burst crc_start before after x y x' y' (omega arith) hb ha hs (
          crc_bytes-Accepts sent (whole x y hs.0 hs.1.0) a
          ∙ sym (crc_bytes-Accepts received (whole x' y' hs.1.1.0 hs.1.1.1.0) a')))
  where
    sent : List ℕ
    sent = before ++ x ∷ y ∷ after

    received : List ℕ
    received = before ++ x' ∷ y' ∷ after

    whole : (u v : ℕ) → u < 2 ^ 8 → v < 2 ^ 8 → IsBytes (before ++ u ∷ v ∷ after)
    whole u v p q = All-append (λ b. b < 2 ^ 8) before (u ∷ v ∷ after) hb (p, (q, ha))

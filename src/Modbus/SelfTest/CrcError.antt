-- ===== src/Modbus/SelfTest/CrcError.antt =====
-- The sensor test of a checksum that is overwritten with zeros.
use i_mx6ull_water_qualit.Base.{
  ℕ, suc, zero, ◌+◌, ◌*◌, ◌/◌, ◌%◌, ◌≤◌, ◌<◌, ◌^◌, ◌≡◌, refl, ap, ◌∙◌, arith, List, [], ◌∷◌, Run,
  done, length, get_or, set, take, length-set, get_or-set_self, get_or-set_ne, store-eq-done,
  take-set_after, All-get_or,
}
use i_mx6ull_water_qualit.Modbus.Crc.{crc_start, crc_rounds, crc_round}
use i_mx6ull_water_qualit.Modbus.Crc.Fold.{crc_bytes}
use i_mx6ull_water_qualit.Modbus.Response.Exact.{Accepts}
use i_mx6ull_water_qualit.Modbus.Answer.{build_test_response}
use i_mx6ull_water_qualit.Modbus.Answer.RoundTrip.{build-Answers}
use i_mx6ull_water_qualit.Modbus.Answer.RoundTrip
use i_mx6ull_water_qualit.Modbus.SelfTest.{normal_registers, test_crc_error}
use i_mx6ull_water_qualit.Modbus.SelfTest.Ready.{IsReady, Passes}
use i_mx6ull_water_qualit.Modbus.SelfTest.Frames.{not_parsed, stored, refused_pass}

abbrev table : ℕ → (ℕ → ℕ) → List ℕ
table zero g = []
table (suc n) g = g 0 ∷ table n (λ j. g (suc j))

take-table : (n : ℕ) (xs : List ℕ) → n ≤ length xs → take n xs ≡ table n (λ j. get_or xs j 0)
take-table zero xs h = refl
take-table (suc n) [] h = absurd (omega arith)
take-table (suc n) (x ∷ xs) h = ap (λ l. x ∷ l) (take-table n xs (omega arith))

-- the frame of the normal registers without its checksum
abbrev normal_frame : List ℕ
normal_frame = 1 ∷ 3 ∷ 14 ∷ 2 ∷ 200 ∷ 9 ∷ 230 ∷ 1 ∷ 64 ∷ 3 ∷ 52 ∷ 0 ∷ 0 ∷ 0 ∷ 0 ∷ 5 ∷ 0 ∷ []

normal_crc : crc_bytes crc_start normal_frame ≡ 18929
unfolding crc_rounds crc_round
normal_crc = refl

module _ (buf frame : List ℕ) (result : Run (List ℕ × ℕ))
    (a : RoundTrip.Answers buf normal_registers 7 result) where
  at :
      (j v : ℕ)
      → j < 19
      → (get_or a.frame j 0 < 2 ^ 8 → get_or a.frame j 0 ≡ v)
      → get_or a.frame j 0 ≡ v
  at j v h e = e (All-get_or (λ b. b < 2 ^ 8) a.frame j 0 a.bytes (omega (arith, a.fits)))

  pair :
      (j : ℕ)
      → j < 7
      → (get_or a.frame (3 + j * 2) 0 ≡ get_or normal_registers j 0 / 2 ^ 8)
        × (get_or a.frame (4 + j * 2) 0 ≡ get_or normal_registers j 0 % 2 ^ 8)
  pair j h =
      let low = All-get_or (λ b. b < 2 ^ 8) a.frame (4 + j * 2) 0 a.bytes (omega (arith, a.fits)) in
      (omega (arith, a.registers j h, low), omega (arith, a.registers j h, low))

  take-frame : take 17 a.frame ≡ normal_frame
  take-frame = take-table 17 a.frame (omega (arith, a.fits)) ∙ (λ i.
      a.slave i
      ∷ a.accepts.function i
      ∷ count i
      ∷ (pair 0 (omega arith)).0 i
      ∷ (pair 0 (omega arith)).1 i
      ∷ (pair 1 (omega arith)).0 i
      ∷ (pair 1 (omega arith)).1 i
      ∷ (pair 2 (omega arith)).0 i
      ∷ (pair 2 (omega arith)).1 i
      ∷ (pair 3 (omega arith)).0 i
      ∷ (pair 3 (omega arith)).1 i
      ∷ (pair 4 (omega arith)).0 i
      ∷ (pair 4 (omega arith)).1 i
      ∷ (pair 5 (omega arith)).0 i
      ∷ (pair 5 (omega arith)).1 i
      ∷ (pair 6 (omega arith)).0 i
      ∷ (pair 6 (omega arith)).1 i
      ∷ [])
    where
      count : get_or a.frame 2 0 ≡ 14
      count = omega (arith, a.accepts.sized)

  -- the frame with zeros for its checksum
  broken : List ℕ
  broken = set (set a.frame 17 0) 18 0

  broken_refused : ¬ Accepts broken 19
  unfolding broken
  broken_refused accepted =
      omega (
        arith,
        accepted.checked,
        high,
        low,
        ap (crc_bytes crc_start) (kept ∙ take-frame),
        normal_crc,
      )
    where
      kept : take 17 (set (set a.frame 17 0) 18 0) ≡ take 17 a.frame
      kept =
          take-set_after (set a.frame 17 0) 17 18 0 (omega arith)
          ∙ take-set_after a.frame 17 17 0 (omega arith)

      high : get_or (set (set a.frame 17 0) 18 0) 18 0 ≡ 0
      high =
          get_or-set_self (set a.frame 17 0) 18 0 0 (omega (arith, length-set a.frame 17 0, a.fits))

      low : get_or (set (set a.frame 17 0) 18 0) 17 0 ≡ 0
      low =
          get_or-set_ne (set a.frame 17 0) 18 17 0 0 (omega arith)
          ∙ get_or-set_self a.frame 17 0 0 (omega (arith, a.fits))

pub test_crc_error-Passes :
    (buf values : List ℕ) → IsReady buf values → Passes 1 (test_crc_error buf values)
unfolding test_crc_error broken
test_crc_error-Passes buf values ready = record {
  buf = set (set a.frame 17 0) 18 0;
  values = values;
  returns =
      rw
        (
          a.returns,
          store-eq-done a.frame 17 0 (omega (arith, a.fits)),
          store-eq-done (set a.frame 17 0) 18 0 (omega (arith, length-set a.frame 17 0, a.fits)),
          not_parsed (set (set a.frame 17 0) 18 0) values 19 r2 (omega arith)
              (broken_refused buf a.frame (build_test_response buf normal_registers 7) a),
        )
        (ap done (refused_pass (set (set a.frame 17 0) 18 0) values));
  ready = r2;
}
  where
    a : RoundTrip.Answers buf normal_registers 7 (build_test_response buf normal_registers 7)
    a =
        build-Answers buf normal_registers 7 (omega arith) ready.bytes (omega arith) (omega arith)
          (omega (arith, ready.buf_size))

    built : IsReady a.frame values
    built = record {
      buf_size = a.same_length ∙ ready.buf_size;
      bytes = a.bytes;
      values_size = ready.values_size;
    }

    r2 : IsReady (set (set a.frame 17 0) 18 0) values
    r2 =
        stored (set a.frame 17 0) values 18 0 (stored a.frame values 17 0 built (omega arith))
          (omega arith)

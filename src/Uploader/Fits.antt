-- ===== src/Uploader/Fits.antt =====
-- The line of a sample fits the buffer of 512 bytes.
use i_mx6ull_water_qualit.Base.{
  ℕ, zero, suc, ap, ltb, leb, false, ◌+◌, ◌≤◌, ◌<◌, ◌≡◌, refl, arith, true, List, [], ◌∷◌, some,
  length, length-append, take,
}
use i_mx6ull_water_qualit.Base.Int.{pos, ltb_ℤ}
use i_mx6ull_water_qualit.Base.Decimal.{length-unsigned_text, length-signed_text}
use i_mx6ull_water_qualit.Sample.{Sample}
use i_mx6ull_water_qualit.Config.{size_device_id}
use i_mx6ull_water_qualit.Database.{Row, Sqlite}
use i_mx6ull_water_qualit.Uploader.{
  Network, Upload, json_size, uploader_build_json, send_row, upload_row,
}
use i_mx6ull_water_qualit.Uploader.Line.{line_of}
use i_mx6ull_water_qualit.Uploader.Json.{join, json_pieces, json_line}

abbrev total : List (List ℕ) → ℕ
total [] = 0
total (piece ∷ pieces) = length piece + total pieces

length-join : (pieces : List (List ℕ)) → length (join pieces) ≡ total pieces
length-join [] = refl
length-join (piece ∷ pieces) = omega (arith, length-append piece (join pieces), length-join pieces)

take_all : {A : Type 0} (n : ℕ) (xs : List A) → length xs ≤ n → take n xs ≡ xs
take_all zero [] h = refl
take_all (suc n) [] h = refl
take_all zero (x ∷ xs) h = absurd (omega arith)
take_all (suc n) (x ∷ xs) h = ap (λ t. x ∷ t) (take_all n xs (omega arith))

-- What C says of "%.2f" and a `float`, whose 39 digits before the point are the most; and `snprintf`,
-- which has no other conversion that could fail.
pub record Prints {W F : Type 0} (network : Network W F) : Type 0 where
  pub fixed_length : (x : F) → length (network.print_fixed x) ≤ 43
  pub succeeds : (text : List ℕ) → network.prints text ≡ true

module _ {W F : Type 0} (network : Network W F) (prints : Prints network) (device_id : List ℕ)
    (named : length device_id < size_device_id) where
  abbrev pub line_text : Sample F → List ℕ
  line_text sample = json_line network.print_fixed network.truncate device_id sample

  length-json_line : (sample : Sample F) → length (line_text sample) < json_size
  unfolding json_line
  length-json_line sample = omega (
    arith,
    length-join (json_pieces network.print_fixed network.truncate device_id sample),
    named,
    length-signed_text sample.timestamp_ms,
    prints.fixed_length sample.ph,
    prints.fixed_length sample.temperature,
    prints.fixed_length sample.turbidity,
    length-signed_text (network.truncate sample.conductivity),
    length-unsigned_text sample.sensor_status,
    length-unsigned_text sample.alarm_status,
    length-unsigned_text sample.sequence,
  )

  length-line_text-ltb : (sample : Sample F) → ltb (length (line_text sample)) json_size ≡ true
  length-line_text-ltb sample = ground (arith, length-json_line sample)

  build_json_whole :
      (sample : Sample F)
      → uploader_build_json network device_id sample json_size
        ≡ (pos (length (line_text sample)), line_text sample)
  unfolding uploader_build_json
  build_json_whole sample = rw (prints.succeeds (line_text sample)) (
      ap (λ t. (pos (length (line_text sample)), t))
        (take_all 511 (line_text sample) (omega (arith, length-json_line sample))))

  module _ {D P : Type 0} (sqlite : Sqlite D F P) where
    pub line_fits :
        (row : Row F) → line_of sqlite network device_id row ≡ some (line_text row.sample)
    line_fits row =
        rw (prints.succeeds (line_text row.sample), length-line_text-ltb row.sample) refl

    -- If "%.2f" prints at most 43 bytes, the width of the longest `float`, and `snprintf` does not
    -- fail, then with a device id of fewer than 64 bytes the line of every sample stands whole in the
    -- buffer of 512 bytes, and its row is not skipped: the whole line goes to `uploader_send_line`.
    pub upload_row_fits :
        (row : Row F) (u : Upload D W)
        → (uploader_build_json network device_id row.sample json_size
            ≡ (pos (length (line_text row.sample)), line_text row.sample))
          × (length (line_text row.sample) < json_size)
          × (upload_row sqlite network device_id row u
              ≡ send_row sqlite network device_id
                  (pos (length (line_text row.sample)), line_text row.sample)
                  row
                  u)
    unfolding upload_row
    upload_row_fits row u = (
      build_json_whole row.sample,
      length-json_line row.sample,
      rw (build_json_whole row.sample, not_negative, not_cut) refl,
    )
      where
        not_negative : ltb_ℤ (pos (length (line_text row.sample))) (pos 0) ≡ false
        not_negative = ground arith

        not_cut : leb json_size (length (line_text row.sample)) ≡ false
        not_cut = ground (arith, length-json_line row.sample)

-- ===== src/Uploader/Line.antt =====
-- What a row of a query becomes in app/src/uploader.c: a line on the socket, a mark in the table.
use mathlib.Core.Path.{subst}
use i_mx6ull_water_qualit.Base.{
  ℕ, ◌+◌, ◌≤◌, ◌<◌, ◌≡◌, inl, inr, refl, sym, ap, ◌∙◌, arith, ltb, leb, Option-cases, if◌then◌else◌,
  ◌||◌, false, List, ◌++◌, Option, none, some, map, length, take, take-length, take-take, u32,
}
use i_mx6ull_water_qualit.Base.Int.{ℤ, pos, pos_part, ltb_ℤ}
use i_mx6ull_water_qualit.Database.{Row, Sqlite, set_uploaded, add_retry}
use i_mx6ull_water_qualit.Database.Laws.{mark, retry, Documented, Works}
use i_mx6ull_water_qualit.Store.{sqlite_store_mark_uploaded, sqlite_store_inc_retry}
use i_mx6ull_water_qualit.Store.Insert.{write-Effect}
use i_mx6ull_water_qualit.Uploader.{
  Network, Upload, Ending, through, lost, json_size, json_text, uploader_build_json,
  uploader_send_line, upload_row, inc_retry, mark_uploaded, printed, send_row,
}
use i_mx6ull_water_qualit.Uploader.Send.{Sends, send_line_exact}

module _ {D W F P : Type 0} (sqlite : Sqlite D F P) (network : Network W F)
    (device_id : List ℕ) where
  -- the line of a row that fits the buffer of 512 bytes with its final NUL
  abbrev fitting : Option (List ℕ) → Option (List ℕ)
  fitting none = none
  fitting (some text) = if ltb (length text) json_size then some text else none

  abbrev pub line_of : Row F → Option (List ℕ)
  line_of row = fitting (json_text network device_id row.sample)

  guarded : ℤ × List ℕ → Row F → Upload D W → Ending × Upload D W
  guarded built row u =
      if ltb_ℤ built.0 (pos 0) || leb json_size (pos_part built.0)
      then (through, u)
      else send_row sqlite network device_id built row u

  guarded_skips :
      (o : Option (List ℕ)) (row : Row F) (u : Upload D W)
      → fitting o ≡ none
      → guarded (printed network o json_size) row u ≡ (through, u)
  unfolding guarded
  guarded_skips none row u e = refl
  guarded_skips (some text) row u e = ground arith

  fitting-some :
      (o : Option (List ℕ)) (text : List ℕ)
      → fitting o ≡ some text
      → (o ≡ some text) × (length text ≤ 511)
  fitting-some none text e = absurd (ground (arith, e))
  fitting-some (some found) text e = ground (arith, e)

  guarded_short :
      (row : Row F) (u : Upload D W) (text : List ℕ)
      → length text ≤ 511
      → guarded (printed network (some text) json_size) row u
        ≡ send_row sqlite network device_id (pos (length text), take 511 text) row u
  unfolding guarded
  guarded_short row u text h = rw (low, test) refl
    where
      test : leb json_size (length text) ≡ false
      test = ground arith

      low : ltb_ℤ (pos (length text)) (pos 0) ≡ false
      low = ground arith

  guarded_sends :
      (o : Option (List ℕ)) (row : Row F) (u : Upload D W) (text : List ℕ)
      → fitting o ≡ some text
      → guarded (printed network o json_size) row u
        ≡ send_row sqlite network device_id (pos (length text), take 511 text) row u
  guarded_sends o row u text e =
      let (found, short) = fitting-some o text e in
      ap (λ o. guarded (printed network o json_size) row u) found ∙ guarded_short row u text short

  module _ (rows : D → List (Row F)) (documented : Documented sqlite rows) (works : Works sqlite)
      (wire : W → List ℕ) (sends : Sends network wire) where
    -- the line went out whole, and the row is marked
    pub record IsSent (row : Row F) (u : Upload D W) (text : List ℕ) (after : Upload D W)
        : Type 0 where
      pub on_wire : wire after.socket ≡ wire u.socket ++ text
      pub marked : rows after.db ≡ map (mark row.id) (rows u.db)
      pub counted : after.uploaded_count ≡ u32 (u.uploaded_count + 1)
      pub not_failed : after.failed_count ≡ u.failed_count

    -- a part of the line went out, and the row has one more try behind it
    pub record IsLost (row : Row F) (u : Upload D W) (text : List ℕ) (after : Upload D W)
        : Type 0 where
      pub cut : ℕ
      pub shorter : cut < length text
      pub on_wire : wire after.socket ≡ wire u.socket ++ take cut text
      pub retried : rows after.db ≡ map (retry row.id) (rows u.db)
      pub not_uploaded : after.uploaded_count ≡ u.uploaded_count
      pub counted : after.failed_count ≡ u32 (u.failed_count + 1)

    pub data RowCase (row : Row F) (u : Upload D W) (result : Ending × Upload D W) : Type 0 where
      skips : line_of row ≡ none → result ≡ (through, u) → RowCase row u result
      sends_line :
          (text : List ℕ) (after : Upload D W)
          → line_of row ≡ some text
          → result ≡ (through, after)
          → IsSent row u text after
          → RowCase row u result
      loses :
          (text : List ℕ) (after : Upload D W)
          → line_of row ≡ some text
          → result ≡ (lost, after)
          → IsLost row u text after
          → RowCase row u result

    whole :
        (text : List ℕ) (k : ℕ)
        → length text ≤ 511
        → k ≤ length text
        → take k (take 511 text) ≡ take k text
    whole text k short h = take-take k 511 text (omega arith)

    sent_row : Row F → Upload D W → W → Upload D W
    sent_row row u socket = record u {
      db = mark_uploaded sqlite network device_id u.db row.id;
      socket = socket;
      uploaded_count = u32 (u.uploaded_count + 1);
    }

    lost_row : Row F → Upload D W → W → Upload D W
    lost_row row u socket = record u {
      db = inc_retry sqlite network device_id u.db row.id;
      socket = socket;
      failed_count = u32 (u.failed_count + 1);
    }

    send_row_case :
        (row : Row F) (u : Upload D W) (text : List ℕ)
        → line_of row ≡ some text
        → length text ≤ 511
        → RowCase row u (send_row sqlite network device_id (pos (length text), take 511 text) row u)
    unfolding sent_row lost_row inc_retry mark_uploaded sqlite_store_inc_retry
        sqlite_store_mark_uploaded
    send_row_case row u text e short =
        let r = uploader_send_line network u.socket (take 511 text) (length text) in
        elim (send_line_exact network wire sends u.socket (take 511 text) (length text)) [
          | inl (ok, out) ↦
              sends_line text (sent_row row u r.1) e (unfold send_row in rw ok refl) record {
                on_wire =
                    out
                    ∙ ap (λ t. wire u.socket ++ t)
                        (whole text (length text) short (omega arith) ∙ take-length text);
                marked = write-Effect sqlite rows documented works (set_uploaded row.id) u.db;
                counted = refl;
                not_failed = refl;
              }
          | inr (bad, (k, cut, out)) ↦
              loses text (lost_row row u r.1) e (unfold send_row in rw bad refl) record {
                cut = k;
                shorter = cut;
                on_wire = out ∙ ap (λ t. wire u.socket ++ t) (whole text k short (omega arith));
                retried = write-Effect sqlite rows documented works (add_retry row.id) u.db;
                not_uploaded = refl;
                counted = refl;
              }
        ]

    pub upload_row_case :
        (row : Row F) (u : Upload D W) → RowCase row u (upload_row sqlite network device_id row u)
    unfolding upload_row uploader_build_json guarded
    upload_row_case row u = elim (Option-cases (line_of row)) [
      | inl e ↦ skips e (guarded_skips (json_text network device_id row.sample) row u e)
      | inr (text, e) ↦
          subst (RowCase row u)
            (sym (guarded_sends (json_text network device_id row.sample) row u text e))
            (send_row_case row u text e
              (fitting-some (json_text network device_id row.sample) text e).1)
    ]

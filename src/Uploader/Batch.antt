-- ===== src/Uploader/Batch.antt =====
-- What the rows of a query become in app/src/uploader.c: lines on the socket, marks in the table.
use mathlib.Core.Path.{subst}
use i_mx6ull_water_qualit.Base.{
  ℕ, ◌<◌, ◌≡◌, refl, sym, ap, ◌∙◌, List, [], ◌∷◌, ◌++◌, Option, none, some, map, append-nil,
  append_assoc, length, take,
}
use i_mx6ull_water_qualit.Database.{Row, Sqlite}
use i_mx6ull_water_qualit.Database.Laws.{mark, retry, Documented, Works}
use i_mx6ull_water_qualit.Uploader.{Network, Upload, Ending, through, lost, upload_row, upload_rows}
use i_mx6ull_water_qualit.Uploader.Send.{Sends}
use i_mx6ull_water_qualit.Uploader.Line.{line_of, skips, sends_line, loses, upload_row_case}

-- a row with a line that fits is marked, another is left
abbrev pub mark_if : {F : Type 0} → Option (List ℕ) → ℕ → List (Row F) → List (Row F)
mark_if none id table = table
mark_if (some text) id table = map (mark id) table

abbrev pub text_or_nil : Option (List ℕ) → List ℕ
text_or_nil none = []
text_or_nil (some text) = text

module _ {D W F P : Type 0} (sqlite : Sqlite D F P) (network : Network W F)
    (device_id : List ℕ) where
  abbrev pub line : Row F → Option (List ℕ)
  line row = line_of sqlite network device_id row

  -- the lines of the rows that fit, one after the other
  abbrev pub lines : List (Row F) → List ℕ
  lines [] = []
  lines (row ∷ batch) = text_or_nil (line row) ++ lines batch

  -- the table once those rows are marked
  abbrev pub marked : List (Row F) → List (Row F) → List (Row F)
  marked [] table = table
  marked (row ∷ batch) table = marked batch (mark_if (line row) row.id table)

  module _ (rows : D → List (Row F)) (documented : Documented sqlite rows) (works : Works sqlite)
      (wire : W → List ℕ) (sends : Sends network wire) where
    -- A batch goes through: the lines of its rows go out in their order and those rows are marked.
    -- Or the connection is lost at a row: the lines before it are out and marked, a proper
    -- beginning of its own line is out, it has one more try behind it, and no row after it is touched.
    pub data BatchCase (batch : List (Row F)) (u : Upload D W) (result : Ending × Upload D W)
        : Type 0 where
      goes_through :
          (after : Upload D W)
          → result ≡ (through, after)
          → wire after.socket ≡ wire u.socket ++ lines batch
          → rows after.db ≡ marked batch (rows u.db)
          → BatchCase batch u result
      breaks :
          (before rest : List (Row F)) (row : Row F) (text : List ℕ) (cut : ℕ) (after : Upload D W)
          → result ≡ (lost, after)
          → batch ≡ before ++ row ∷ rest
          → line row ≡ some text
          → cut < length text
          → wire after.socket ≡ wire u.socket ++ (lines before ++ take cut text)
          → rows after.db ≡ map (retry row.id) (marked before (rows u.db))
          → BatchCase batch u result

    -- a row that is done, before the rest of the batch
    later :
        (row : Row F) (batch : List (Row F)) (u next : Upload D W) (result : Ending × Upload D W)
        → wire next.socket ≡ wire u.socket ++ text_or_nil (line row)
        → rows next.db ≡ mark_if (line row) row.id (rows u.db)
        → BatchCase batch next result
        → BatchCase (row ∷ batch) u result
    later row batch u next result out table (goes_through after e w t) =
        goes_through after e
          (w
            ∙ ap (λ x. x ++ lines batch) out
            ∙ append_assoc (wire u.socket) (text_or_nil (line row)) (lines batch))
          (t ∙ ap (marked batch) table)
    later row batch u next result out table (breaks before rest bad text cut after e b l c w t) =
        breaks (row ∷ before) rest bad text cut after e (ap (λ x. row ∷ x) b) l c
          (w
            ∙ ap (λ x. x ++ (lines before ++ take cut text)) out
            ∙ append_assoc (wire u.socket) (text_or_nil (line row)) (lines before ++ take cut text)
            ∙ ap (λ x. wire u.socket ++ x)
                (sym (append_assoc (text_or_nil (line row)) (lines before) (take cut text))))
          (t ∙ ap (λ x. map (retry bad.id) (marked before x)) table)

    -- what the loop does with a row that is done
    abbrev continue : List (Row F) → Ending × Upload D W → Ending × Upload D W
    continue batch done = elim done.0 [
      | through ↦ upload_rows sqlite network device_id batch done.1
      | lost ↦ (lost, done.1)
    ]

    pub goes_on :
        (row : Row F) (batch : List (Row F)) (u next : Upload D W)
        → upload_row sqlite network device_id row u ≡ (through, next)
        → upload_rows sqlite network device_id (row ∷ batch) u
          ≡ upload_rows sqlite network device_id batch next
    unfolding upload_rows
    goes_on row batch u next e = ap (continue batch) e

    -- What a batch does, on a database that works and a socket that does what POSIX says.
    pub upload_rows_exact :
        (batch : List (Row F)) (u : Upload D W)
        → BatchCase batch u (upload_rows sqlite network device_id batch u)
    upload_rows_exact [] u =
        unfold upload_rows in goes_through u refl (sym (append-nil (wire u.socket))) refl
    upload_rows_exact (row ∷ batch) u =
        elim (upload_row_case sqlite network device_id rows documented works wire sends row u) [
          | skips l e ↦ subst (BatchCase (row ∷ batch) u) (sym (goes_on row batch u u e)) (
              later row batch u u (upload_rows sqlite network device_id batch u)
                (sym (append-nil (wire u.socket))
                  ∙ ap (λ o. wire u.socket ++ text_or_nil o) (sym l))
                (ap (λ o. mark_if o row.id (rows u.db)) (sym l)) (upload_rows_exact batch u))
          | sends_line text after l e s ↦
              subst (BatchCase (row ∷ batch) u) (sym (goes_on row batch u after e)) (
                later row batch u after (upload_rows sqlite network device_id batch after)
                  (s.on_wire ∙ ap (λ o. wire u.socket ++ text_or_nil o) (sym l))
                  (s.marked ∙ ap (λ o. mark_if o row.id (rows u.db)) (sym l))
                  (upload_rows_exact batch after))
          | loses text after l e s ↦
              breaks [] batch row text s.cut after (unfold upload_rows in ap (continue batch) e)
                refl l s.shorter s.on_wire s.retried
        ]

-- ===== src/Uploader.antt =====
-- app/src/uploader.c and app/include/uploader.h: the samples that go to the server, each as a line of
-- JSON. The socket, what "%.2f" prints and the cast of a `float` are arguments; the cursor of
-- a query gives the rows as they were when it was opened. Messages are left out.
-- `Json` is the text of a line, `Thread` the connection, the loops and the drain of
-- `uploader_thread`; `Fits` is about the length of a line, `Send` and `Line` about one line, `Batch`
-- about the rows of a query, `Budget` and `Drain` about the end.
pub mod Json
pub mod Fits
pub mod Thread
pub mod Send
pub mod Line
pub mod Batch
pub mod Budget
pub mod Drain
mod Tests
use i_mx6ull_water_qualit.Base.{
  ℕ, zero, suc, ◌+◌, ◌-◌, ◌||◌, ltb, leb, if◌then◌else◌, not, Bool, true, false, List, [], ◌∷◌,
  Option, none, some, length, take, drop, u32,
}
use i_mx6ull_water_qualit.Base.Int.{ℤ, pos, negsuc, pos_part, ltb_ℤ, eqb_ℤ}
use i_mx6ull_water_qualit.Sample.{Sample}
use i_mx6ull_water_qualit.Database.{Row, Sqlite}
use i_mx6ull_water_qualit.Uploader.Json.{json_line}
use i_mx6ull_water_qualit.Store.{sqlite_store_mark_uploaded, sqlite_store_inc_retry}

-- What `send` returns on a socket of type `W`, asked to send some bytes, and the socket after it.
-- `print_fixed` is what "%.2f" prints, `truncate` the cast to `int`, and `prints` whether `snprintf`
-- succeeds with a text.
pub record Network (W F : Type 0) : Type 0 where
  pub send : W → List ℕ → ℤ × W
  pub print_fixed : F → List ℕ
  pub truncate : F → ℤ
  pub prints : List ℕ → Bool

-- sizeof(json)
abbrev pub json_size : ℕ
json_size = 512

-- What outlives a row: the database, the socket and the two counters.
pub record Upload (D W : Type 0) : Type 0 where
  pub db : D
  pub socket : W
  pub uploaded_count : ℕ
  pub failed_count : ℕ

-- A batch ends at its rows' end, or with a connection that is lost.
pub data Ending : Type 0 where
  through : Ending
  lost : Ending

module _ {W F : Type 0} (network : Network W F) where
  open network use {send, print_fixed, truncate, prints}

  -- what `snprintf` makes of the sample, `none` if it fails
  abbrev pub json_text : List ℕ → Sample F → Option (List ℕ)
  json_text device_id sample =
      let line = json_line print_fixed truncate device_id sample in
      if prints line then some line else none

  -- the length that `snprintf` returns, and the text that stands in `buf`
  abbrev pub printed : Option (List ℕ) → ℕ → ℤ × List ℕ
  printed none buf_size = (negsuc 0, [])
  printed (some text) buf_size = (pos (length text), take (buf_size - 1) text)

  unfoldable pub uploader_build_json : List ℕ → Sample F → ℕ → ℤ × List ℕ
  uploader_build_json device_id sample buf_size = printed (json_text device_id sample) buf_size

  -- The loop of `uploader_send_line` after `sent` bytes of `data`. A call that does not fail sends
  -- at least one byte, so `len - sent` rounds are enough.
  unfoldable pub send_loop : ℕ → W → List ℕ → ℕ → ℕ → ℤ × W
  send_loop zero socket bytes len sent = (pos 0, socket)
  send_loop (suc rounds) socket bytes len sent =
      if ltb sent len
      then (let (n, next) = send socket (take (len - sent) (drop sent bytes)) in
          let rest = send_loop rounds next bytes len (sent + pos_part n) in
          if not (ltb_ℤ (pos 0) n) then (negsuc 0, next) else rest)
      else (pos 0, socket)

  unfoldable pub uploader_send_line : W → List ℕ → ℕ → ℤ × W
  uploader_send_line socket bytes len = send_loop len socket bytes len 0

module _ {D W F P : Type 0} (sqlite : Sqlite D F P) (network : Network W F)
    (device_id : List ℕ) where
  -- `sqlite_store_inc_retry` and `sqlite_store_mark_uploaded`, whose results are not looked at
  pub inc_retry : D → ℕ → D
  inc_retry db id = elim (sqlite_store_inc_retry sqlite (some db) id).1 [
    | none ↦ db
    | some after ↦ after
  ]

  pub mark_uploaded : D → ℕ → D
  mark_uploaded db id = elim (sqlite_store_mark_uploaded sqlite (some db) id).1 [
    | none ↦ db
    | some after ↦ after
  ]

  -- a row whose line is built
  unfoldable pub send_row : ℤ × List ℕ → Row F → Upload D W → Ending × Upload D W
  unfolding inc_retry mark_uploaded
  send_row built row u =
      let (len, json) = built in
      let (result, socket) = uploader_send_line network u.socket json (pos_part len) in
      if not (eqb_ℤ result (pos 0))
      then (
        lost,
        record u {
          db = inc_retry u.db row.id;
          socket = socket;
          failed_count = u32 (u.failed_count + 1);
        },
      )
      else (
        through,
        record u {
          db = mark_uploaded u.db row.id;
          socket = socket;
          uploaded_count = u32 (u.uploaded_count + 1);
        },
      )

  -- The body of the loop over the rows, the same in the main loop and in the drain.
  unfoldable pub upload_row : Row F → Upload D W → Ending × Upload D W
  unfolding uploader_build_json
  upload_row row u =
      let built = uploader_build_json network device_id row.sample json_size in
      if ltb_ℤ built.0 (pos 0) || leb json_size (pos_part built.0)
      then (through, u)
      else send_row built row u

  -- the rows that a cursor gives
  unfoldable pub upload_rows : List (Row F) → Upload D W → Ending × Upload D W
  upload_rows [] u = (through, u)
  upload_rows (row ∷ rows) u =
      let (ending, next) = upload_row row u in
      elim ending [ through ↦ upload_rows rows next | lost ↦ (lost, next) ]

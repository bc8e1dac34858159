-- ===== src/Uploader/Thread.antt =====
-- `uploader_connect` and `uploader_thread` of app/src/uploader.c.
use i_mx6ull_water_qualit.Base.{
  ℕ, zero, suc, if◌then◌else◌, not, Bool, List, [], ◌∷◌, Option, none, some, take,
}
use i_mx6ull_water_qualit.Base.Int.{ℤ}
use i_mx6ull_water_qualit.Database.{Row, Sqlite}
use i_mx6ull_water_qualit.Uploader.{Network, Upload, Ending, through, lost, upload_rows}

-- What the calls of one attempt answer: the socket, if `socket` gives one, whether `inet_pton`
-- reads the address, and whether `connect` succeeds.
pub record Dial (W : Type 0) : Type 0 where
  pub opened : Option W
  pub parsed : Bool
  pub connected : Bool

-- The socket, if there is one now, and the one that is closed, if any.
unfoldable pub uploader_connect : {W : Type 0} → Dial W → Option W × Option W
uploader_connect dial = elim dial.opened [
  | none ↦ (none, none)
  | some socket ↦
      (if not dial.parsed
        then (none, some socket)
        else (if not dial.connected then (none, some socket) else (some socket, none)))
]

-- What the thread keeps: the connection, the database, the counters, and the sockets it has closed.
pub record Session (D W : Type 0) : Type 0 where
  pub connection : Option W
  pub db : D
  pub uploaded_count : ℕ
  pub failed_count : ℕ
  pub closed : List W

-- What happens in a round of the main loop: the attempt to connect, if there is one; what the
-- other threads have done to the database before the query; and how many rows are read before
-- the loop over them sees the shutdown.
pub record Round (D W : Type 0) : Type 0 where
  pub dial : Dial W
  pub others : D → D
  pub reads : ℕ

abbrev also_closed : {W : Type 0} → Option W → List W → List W
also_closed none closed = closed
also_closed (some socket) closed = socket ∷ closed

module _ {D W F P : Type 0} (sqlite : Sqlite D F P) (network : Network W F) (device_id : List ℕ)
    (retry_max batch_max : ℤ) where
  abbrev upload_of : Session D W → W → Upload D W
  upload_of s socket = record {
    db = s.db;
    socket = socket;
    uploaded_count = s.uploaded_count;
    failed_count = s.failed_count;
  }

  -- the session after a batch; a lost connection is closed
  abbrev after_batch : List W → Ending × Upload D W → Session D W
  after_batch closed (through, u) = record {
    connection = some u.socket;
    db = u.db;
    uploaded_count = u.uploaded_count;
    failed_count = u.failed_count;
    closed = closed;
  }
  after_batch closed (lost, u) = record {
    connection = none;
    db = u.db;
    uploaded_count = u.uploaded_count;
    failed_count = u.failed_count;
    closed = u.socket ∷ closed;
  }

  -- The query, and the rows that `uploader_read_row` reads from it.
  abbrev pub uploader_query_unuploaded : ℤ → ℤ → D → Option (List (Row F) × Bool)
  uploader_query_unuploaded batch retry db = sqlite.select retry batch db

  -- from the query on
  unfoldable pub query_round : Round D W → W → Session D W → Session D W
  query_round round socket s =
      let s = record s { db = round.others s.db } in
      elim (uploader_query_unuploaded batch_max retry_max s.db) [
        | none ↦ s
        | some (rows, finished) ↦
            after_batch s.closed
              (upload_rows sqlite network device_id (take round.reads rows) (upload_of s socket))
      ]

  unfoldable pub uploader_round : Round D W → Session D W → Session D W
  uploader_round round s = elim s.connection [
    | some socket ↦ query_round round socket s
    | none ↦
        (let (connection, closed) = uploader_connect round.dial in
          let s = record s { connection = connection; closed = also_closed closed s.closed } in
          elim connection [ none ↦ s | some socket ↦ query_round round socket s ])
  ]

  -- The drain, on fuel: `none` is a drain that goes on. The result of the cursor's last step is
  -- not looked at, and a lost connection is used again.
  unfoldable pub drain : ℕ → Upload D W → Option (Upload D W)
  drain zero u = none
  drain (suc fuel) u = elim (uploader_query_unuploaded batch_max retry_max u.db) [
    | none ↦ some u
    | some found ↦ elim found.0 [
      | [] ↦ some u
      | row ∷ rows ↦ drain fuel (upload_rows sqlite network device_id (row ∷ rows) u).1
    ]
  ]

  unfoldable pub uploader_rounds : List (Round D W) → Session D W → Session D W
  uploader_rounds [] s = s
  uploader_rounds (round ∷ rounds) s = uploader_rounds rounds (uploader_round round s)

  -- the thread from the end of its main loop on
  unfoldable pub uploader_finish : ℕ → Session D W → Option (Session D W)
  uploader_finish fuel s = elim s.connection [
    | none ↦ some s
    | some socket ↦ elim (drain fuel (upload_of s socket)) [
      | none ↦ none
      | some u ↦ some (after_batch s.closed (lost, u))
    ]
  ]

  -- `rounds` are those until the main loop sees the shutdown; `db` is not null.
  unfoldable pub uploader_thread : List (Round D W) → ℕ → D → Option (Session D W)
  uploader_thread rounds fuel db = uploader_finish fuel (
      uploader_rounds rounds
        record { connection = none; db = db; uploaded_count = 0; failed_count = 0; closed = [] })

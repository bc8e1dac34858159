-- ===== src/Database/Laws.antt =====
-- What SQLite documents of the statements of the program: their effect on the rows of `samples`,
-- which stand in the order of their ids. A statement that fails changes nothing.
use i_mx6ull_water_qualit.Base.{
  ℕ, ◌+◌, ◌<◌, ◌≡◌, ◌==◌, if◌then◌else◌, ◌&&◌, not, Bool, true, false, List, [], ◌∷◌, ◌++◌, Option,
  none, some, map, length, take, drop, All, filter, remove,
}
use i_mx6ull_water_qualit.Base.Int.{ℤ, pos, negsuc, ltb_ℤ}
use i_mx6ull_water_qualit.Sample.{Sample}
use i_mx6ull_water_qualit.Database.Binding.{row_of}
use i_mx6ull_water_qualit.Database.{
  Row, Statement, Sqlite, count_all, insert_into, set_uploaded, add_retry, delete_uploaded,
  delete_oldest,
}

module _ {F : Type 0} where
  abbrev pub is_uploaded : Row F → Bool
  is_uploaded r = r.uploaded

  -- uploaded = 0 AND upload_retry < retry_max
  abbrev pub is_pending : ℤ → Row F → Bool
  is_pending retry_max r = not r.uploaded && ltb_ℤ (pos r.upload_retry) retry_max

  -- LIMIT n, where a negative number is no limit
  abbrev pub limit : ℤ → List (Row F) → List (Row F)
  limit (pos n) rows = take n rows
  limit (negsuc n) rows = rows

  abbrev pub mark : ℕ → Row F → Row F
  mark id r = if r.id == id then record r { uploaded = true } else r

  abbrev pub retry : ℕ → Row F → Row F
  retry id r = if r.id == id then record r { upload_retry = r.upload_retry + 1 } else r

  -- a sample that is new in the table
  abbrev pub new_row : ℕ → List ℕ → Sample F → Row F
  new_row id device_id sample = record {
    id = id;
    device_id = device_id;
    sample = sample;
    uploaded = false;
    upload_retry = 0;
  }

  abbrev pub Appended : Option (Row F) → List (Row F) → List (Row F) → Type 0
  Appended none rows after = Unit
  Appended (some row) rows after = after ≡ rows ++ row ∷ []

  -- The effect of a statement that succeeds. An AUTOINCREMENT id is above all ids of the table.
  abbrev pub Effect : Statement F → List (Row F) → List (Row F) → Type 0
  Effect (insert_into columns bindings) rows after =
      (id : ℕ) × All (λ r. r.id < id) rows × Appended (row_of id columns bindings) rows after
  Effect (set_uploaded id) rows after = after ≡ map (mark id) rows
  Effect (add_retry id) rows after = after ≡ map (retry id) rows
  Effect (delete_uploaded n) rows after = after ≡ remove is_uploaded n rows
  Effect (delete_oldest n) rows after = after ≡ drop n rows
  Effect _ rows after = after ≡ rows

  module _ {D P : Type 0} where
    pub record Documented (sqlite : Sqlite D F P) (rows : D → List (Row F)) : Type 0 where
      pub exec_ok :
          (s : Statement F) (d : D)
          → (sqlite.exec s d).0 ≡ true
          → Effect s (rows d) (rows (sqlite.exec s d).1)
      pub exec_failed :
          (s : Statement F) (d : D)
          → (sqlite.exec s d).0 ≡ false
          → rows (sqlite.exec s d).1 ≡ rows d
      pub step_ok :
          (s : Statement F) (d : D)
          → (sqlite.step_done s d).0 ≡ true
          → Effect s (rows d) (rows (sqlite.step_done s d).1)
      pub step_failed :
          (s : Statement F) (d : D)
          → (sqlite.step_done s d).0 ≡ false
          → rows (sqlite.step_done s d).1 ≡ rows d
      pub counts_all :
          (d : D) (n : ℤ) → sqlite.count count_all d ≡ some n → n ≡ pos (length (rows d))
      pub selects :
          (retry_max batch_max : ℤ) (d : D) (selected : List (Row F))
          → sqlite.select retry_max batch_max d ≡ some (selected, true)
          → selected ≡ limit batch_max (filter (is_pending retry_max) (rows d))

    -- A database on which no call fails, as one on a sound disk with memory to spare.
    pub record Works (sqlite : Sqlite D F P) : Type 0 where
      pub exec_works : (s : Statement F) (d : D) → (sqlite.exec s d).0 ≡ true
      pub prepare_works : (s : Statement F) (d : D) → sqlite.prepare s d ≡ true
      pub step_works : (s : Statement F) (d : D) → (sqlite.step_done s d).0 ≡ true
      pub count_works : (s : Statement F) (d : D) → (n : ℤ) × (sqlite.count s d ≡ some n)
      pub select_works :
          (retry_max batch_max : ℤ) (d : D)
          → (selected : List (Row F)) × (sqlite.select retry_max batch_max d
              ≡ some (selected, true))

-- ===== src/Database/Memory.antt =====
-- A table in memory on which no call fails: it shows that the laws can hold.
use mathlib.Core.Option
use i_mx6ull_water_qualit.Base.{
  ℕ, suc, ◌≤◌, ◌<◌, refl, sym, ap, arith, leb, if◌then◌else◌, not, Bool, true, List, [], ◌∷◌, ◌++◌,
  Option, none, some, map, length, drop, All, filter, remove,
}
use i_mx6ull_water_qualit.Base.Int.{pos}
use i_mx6ull_water_qualit.Database.{
  Row, Statement, Sqlite, insert_into, count_unuploaded, count_all, set_uploaded, add_retry,
  delete_uploaded, delete_oldest, journal_mode_wal, synchronous_normal, create_samples,
  create_idx_uploaded, create_idx_timestamp,
}
use i_mx6ull_water_qualit.Database.Binding.{row_of}
use i_mx6ull_water_qualit.Database.Laws.{
  is_uploaded, is_pending, limit, mark, retry, Appended, Effect, Documented, Works,
}

module _ {F : Type 0} where
  -- an id above those of the table
  abbrev pub fresh : List (Row F) → ℕ
  fresh [] = 1
  fresh (r ∷ rows) = let rest = fresh rows in if leb (suc r.id) rest then rest else suc r.id

  All-fresh : (n : ℕ) (rows : List (Row F)) → fresh rows ≤ n → All (λ r. r.id < n) rows
  All-fresh n [] h = tt
  All-fresh n (r ∷ rows) h = (ground arith, All-fresh n rows (ground arith))

  abbrev append : Option (Row F) → List (Row F) → List (Row F)
  append none rows = rows
  append (some row) rows = rows ++ row ∷ []

  append-Appended :
      (row : Option (Row F)) (rows : List (Row F)) → Appended row rows (append row rows)
  append-Appended none rows = tt
  append-Appended (some row) rows = refl

  abbrev pub perform : Statement F → List (Row F) → List (Row F)
  perform (insert_into columns bindings) rows = append (row_of (fresh rows) columns bindings) rows
  perform (set_uploaded id) rows = map (mark id) rows
  perform (add_retry id) rows = map (retry id) rows
  perform (delete_uploaded n) rows = remove is_uploaded n rows
  perform (delete_oldest n) rows = drop n rows
  perform journal_mode_wal rows = rows
  perform synchronous_normal rows = rows
  perform create_samples rows = rows
  perform create_idx_uploaded rows = rows
  perform create_idx_timestamp rows = rows
  perform count_unuploaded rows = rows
  perform count_all rows = rows

  abbrev counted : Statement F → List (Row F) → ℕ
  counted count_unuploaded rows = length (filter (λ r. not (is_uploaded r)) rows)
  counted _ rows = length rows

  perform-Effect : (s : Statement F) (rows : List (Row F)) → Effect s rows (perform s rows)
  perform-Effect (insert_into columns bindings) rows = (
    fresh rows,
    All-fresh (fresh rows) rows (omega arith),
    append-Appended (row_of (fresh rows) columns bindings) rows,
  )
  perform-Effect (set_uploaded id) rows = refl
  perform-Effect (add_retry id) rows = refl
  perform-Effect (delete_uploaded n) rows = refl
  perform-Effect (delete_oldest n) rows = refl
  perform-Effect journal_mode_wal rows = refl
  perform-Effect synchronous_normal rows = refl
  perform-Effect create_samples rows = refl
  perform-Effect create_idx_uploaded rows = refl
  perform-Effect create_idx_timestamp rows = refl
  perform-Effect count_unuploaded rows = refl
  perform-Effect count_all rows = refl

  abbrev pub memory : Sqlite (List (Row F)) F ℕ
  memory = record {
    sqlite3_open = λ path. (true, []);
    exec = λ s rows. (true, perform s rows);
    prepare = λ s rows. true;
    step_done = λ s rows. (true, perform s rows);
    count = λ s rows. some (pos (counted s rows));
    select = λ retry_max batch_max rows.
        some (limit batch_max (filter (is_pending retry_max) rows), true);
  }

  pub memory-Documented : Documented memory (λ rows. rows)
  memory-Documented = record {
    exec_ok = λ s rows e. perform-Effect s rows;
    exec_failed = λ s rows e. absurd (ground (arith, e));
    step_ok = λ s rows e. perform-Effect s rows;
    step_failed = λ s rows e. absurd (ground (arith, e));
    counts_all = λ rows n e. sym (ap (λ o. Option.get_or o n) e);
    selects = λ retry_max batch_max rows selected e. sym (
        ap
          (λ (o : Option (List (Row F) × Bool)).
            (Option.get_or {A = List (Row F) × Bool} o (selected, true)).0)
          e);
  }

  pub memory-Works : Works memory
  memory-Works = record {
    exec_works = λ s rows. refl;
    prepare_works = λ s rows. refl;
    step_works = λ s rows. refl;
    count_works = λ s rows. (pos (counted s rows), refl);
    select_works =
        λ retry_max batch_max rows. (limit batch_max (filter (is_pending retry_max) rows), refl);
  }

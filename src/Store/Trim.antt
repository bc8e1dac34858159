-- ===== src/Store/Trim.antt =====
-- What `sqlite_store_trim_cache` of app/src/sqlite_store.c leaves in the table.
use i_mx6ull_water_qualit.Base.{
  ℕ, ◌+◌, ◌-◌, ◌≤◌, ◌<◌, ◌≡◌, ◌⊎◌, inl, inr, refl, ap, ◌∙◌, arith, ltb, lt→ltb, ltb→lt,
  if◌then◌else◌, not, Bool, Bool-cases, List, some, min, length, drop, length-drop, filter, remove,
  filter_parts, length-remove, remove_all, filter-remove,
}
use i_mx6ull_water_qualit.Base.Int.{pos, pos_part, ◌-ℤ◌}
use i_mx6ull_water_qualit.Database.{
  Row, Statement, Sqlite, count_all, delete_uploaded, delete_oldest,
}
use i_mx6ull_water_qualit.Database.Laws.{is_uploaded, Documented, Works}
use i_mx6ull_water_qualit.Store.{sqlite_store_get_total_count, trim_rest, sqlite_store_trim_cache}

-- a sample that the server does not have
abbrev pub is_unsent : {F : Type 0} → Row F → Bool
is_unsent r = not (is_uploaded r)

diff : (a b : ℕ) → pos_part (pos a -ℤ pos b) ≡ a - b
unfolding ◌-ℤ◌
diff a b = ground arith

module _ {D F P : Type 0} (sqlite : Sqlite D F P) (rows : D → List (Row F))
    (documented : Documented sqlite rows) (works : Works sqlite) where
  total_count : (d : D) → sqlite_store_get_total_count sqlite (some d) ≡ pos (length (rows d))
  unfolding sqlite_store_get_total_count
  total_count d =
      let (n, e) = works.count_works count_all d in
      rw (works.prepare_works count_all d, e) (documented.counts_all d n e)

  trim_rest_lem :
      (max_count : ℕ) (d : D)
      → trim_rest sqlite (pos max_count) d ≡ (
          if ltb max_count (length (rows d))
          then (sqlite.exec (delete_oldest (length (rows d) - max_count)) d).1
          else d)
  unfolding trim_rest
  trim_rest_lem max_count d = rw (total_count d, diff (length (rows d)) max_count) (ground arith)

  trim_few :
      (max_count : ℕ) (d : D)
      → 0 < max_count
      → length (rows d) ≤ max_count
      → sqlite_store_trim_cache sqlite (some d) (pos max_count) ≡ (pos 0, some d)
  unfolding sqlite_store_trim_cache
  trim_few max_count d h few = rw (total_count d) (ground arith)

  trim_many :
      (max_count : ℕ) (d : D)
      → 0 < max_count
      → max_count < length (rows d)
      → sqlite_store_trim_cache sqlite (some d) (pos max_count) ≡ (
        pos 0,
        some (
            trim_rest sqlite
              (pos max_count)
              (sqlite.exec (delete_uploaded (length (rows d) - max_count)) d).1),
      )
  unfolding sqlite_store_trim_cache
  trim_many max_count d h many =
      rw (total_count d, diff (length (rows d)) max_count)
        (ground (arith, works.exec_works (delete_uploaded (length (rows d) - max_count)) d))

  -- What is kept: exactly as many rows as fit. If the unsent samples fit, none of them is lost; if
  -- not, the newest of them are kept and nothing else.
  abbrev pub Kept : ℕ → List (Row F) → List (Row F) → Type 0
  Kept max_count before after =
      (length after ≡ min (length before) max_count)
      × (((length (filter is_unsent before) ≤ max_count)
            × (filter is_unsent after ≡ filter is_unsent before))
          ⊎ ((max_count < length (filter is_unsent before))
              × (after
                  ≡ drop (length (filter is_unsent before) - max_count) (filter is_unsent before))))

  rest_deleted :
      (max_count : ℕ) (d : D)
      → max_count < length (rows d)
      → rows (trim_rest sqlite (pos max_count) d) ≡ drop (length (rows d) - max_count) (rows d)
  rest_deleted max_count d h =
      rw (trim_rest_lem max_count d, lt→ltb max_count (length (rows d)) h)
        (documented.exec_ok deletion d (works.exec_works deletion d))
    where
      deletion : Statement F
      deletion = delete_oldest (length (rows d) - max_count)

  rest_left :
      (max_count : ℕ) (d : D)
      → length (rows d) ≤ max_count
      → rows (trim_rest sqlite (pos max_count) d) ≡ rows d
  rest_left max_count d h = ap rows (trim_rest_lem max_count d ∙ ground arith)

  trim_rest-Kept :
      (max_count : ℕ) (before : List (Row F)) (d : D)
      → max_count < length before
      → rows d ≡ remove is_uploaded (length before - max_count) before
      → Kept max_count before (rows (trim_rest sqlite (pos max_count) d))
  trim_rest-Kept max_count before d many e =
      elim (Bool-cases (ltb max_count (length (filter is_unsent before)))) [
        | inl t ↦
            let more = ltb→lt max_count (length (filter is_unsent before)) t in
            let all_unsent : rows d ≡ filter is_unsent before =
              e
              ∙ remove_all is_uploaded (length before - max_count) before (omega (arith, parts)) in
            let left =
              rest_deleted max_count d (omega (arith, ap length all_unsent))
              ∙ ap (λ r. drop (length r - max_count) r) all_unsent in
            (
              omega (
                arith,
                ap length left,
                length-drop (length (filter is_unsent before) - max_count)
                    (filter is_unsent before),
              ),
              inr (more, left),
            )
        | inr t ↦
            let fits : length (filter is_unsent before) ≤ max_count = ground arith in
            let size : length (rows d) ≡ max_count = omega (
              arith,
              ap length e,
              length-remove is_uploaded (length before - max_count) before (omega (arith, parts)),
            ) in
            let left = rest_left max_count d (omega arith) in
            (
              omega (arith, ap length left),
              inl (
                fits,
                ap (filter is_unsent) (left ∙ e)
                    ∙ filter-remove is_uploaded (length before - max_count) before,
              ),
            )
      ]
    where
      parts : length (filter is_uploaded before) + length (filter is_unsent before) ≡ length before
      parts = filter_parts is_uploaded before

  -- With a positive limit and a database that works, trimming succeeds and leaves what is kept.
  pub trim_cache_keeps :
      (max_count : ℕ) (d : D)
      → 0 < max_count
      → (after : D) × (sqlite_store_trim_cache sqlite (some d) (pos max_count)
          ≡ (pos 0, some after))
        × Kept max_count (rows d) (rows after)
  trim_cache_keeps max_count d h = elim (Bool-cases (ltb max_count (length (rows d)))) [
    | inl t ↦
        let many = ltb→lt max_count (length (rows d)) t in
        let deletion = delete_uploaded (length (rows d) - max_count) in
        (
          trim_rest sqlite (pos max_count) (sqlite.exec deletion d).1,
          trim_many max_count d h many,
          trim_rest-Kept max_count (rows d) (sqlite.exec deletion d).1 many
              (documented.exec_ok deletion d (works.exec_works deletion d)),
        )
    | inr t ↦
        let few : length (rows d) ≤ max_count = ground arith in
        (
          d,
          trim_few max_count d h few,
          (omega arith, inl (omega (arith, filter_parts is_uploaded (rows d)), refl)),
        )
  ]

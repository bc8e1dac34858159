-- ===== src/Store/Insert.antt =====
-- What the writing functions of app/src/sqlite_store.c do to the table, on a database that may fail.
use i_mx6ull_water_qualit.Base.{
  ℕ, ◌<◌, ◌≡◌, ◌⊎◌, inl, inr, refl, Bool-cases, List, [], ◌∷◌, ◌++◌, some, All,
}
use i_mx6ull_water_qualit.Base.Int.{ℤ, pos, negsuc}
use i_mx6ull_water_qualit.Sample.{Sample}
use i_mx6ull_water_qualit.Database.{Row, Statement, Sqlite, insert_into}
use i_mx6ull_water_qualit.Database.Laws.{new_row, Effect, Documented, Works}
use i_mx6ull_water_qualit.Store.{write, insert_columns, bind_sample, sqlite_store_insert}

module _ {D F P : Type 0} (sqlite : Sqlite D F P) (rows : D → List (Row F))
    (documented : Documented sqlite rows) where
  -- Success with the effect of the statement, or failure with none.
  abbrev pub Written : Statement F → D → ℤ × D → Type 0
  Written s d result =
      ((result.0 ≡ pos 0) × Effect s (rows d) (rows result.1))
      ⊎ ((result.0 ≡ negsuc 0) × (rows result.1 ≡ rows d))

  pub write-Written : (s : Statement F) (d : D) → Written s d (write sqlite s d)
  unfolding write
  write-Written s d = elim (Bool-cases (sqlite.prepare s d)) [
    | inr p ↦ rw p (inr (refl, refl))
    | inl p ↦ elim (Bool-cases (sqlite.step_done s d).0) [
      | inl e ↦ rw (p, e) (inl (refl, documented.step_ok s d e))
      | inr e ↦ rw (p, e) (inr (refl, documented.step_failed s d e))
    ]
  ]

  -- An insertion returns 0 and the table has one more row at its end, with the device and in
  -- each column the field of the sample of that name, not uploaded, never tried, and with an id above
  -- all others; or it returns -1 and the table is as it was.
  pub insert_exact :
      (d : D) (device_id : List ℕ) (sample : Sample F)
      → (result : ℤ) × (after : D) × (sqlite_store_insert sqlite
            (some d)
            (some device_id)
            (some sample)
          ≡ (result, some after))
        × (((result ≡ pos 0)
              × ((id : ℕ) × All (λ r. r.id < id) (rows d)
                  × (rows after ≡ rows d ++ new_row id device_id sample ∷ [])))
            ⊎ ((result ≡ negsuc 0) × (rows after ≡ rows d)))
  unfolding sqlite_store_insert bind_sample
  insert_exact d device_id sample =
      let s = insert_into insert_columns (bind_sample device_id sample) in
      ((write sqlite s d).0, (write sqlite s d).1, refl, write-Written s d)

  pub write-Effect :
      Works sqlite → (s : Statement F) (d : D) → Effect s (rows d) (rows (write sqlite s d).1)
  unfolding write
  write-Effect works s d =
      rw (works.prepare_works s d, works.step_works s d)
        (documented.step_ok s d (works.step_works s d))

-- ===== src/Uploader/Drain.antt =====
-- When the drain at the end of `uploader_thread` ends.
use i_mx6ull_water_qualit.Base.{ℕ, ◌<◌, ◌≡◌, Bool, List, [], ◌∷◌, Option, none, some, filter}
use i_mx6ull_water_qualit.Base.Int.{ℤ, pos}
use i_mx6ull_water_qualit.Database.{Row, Sqlite}
use i_mx6ull_water_qualit.Database.Laws.{is_pending, Documented, Works}
use i_mx6ull_water_qualit.Uploader.{Network, Upload, upload_rows}
use i_mx6ull_water_qualit.Uploader.Send.{Sends}
use i_mx6ull_water_qualit.Uploader.Batch.{line}
use i_mx6ull_water_qualit.Uploader.Thread.{drain}

abbrev head_or : {A : Type 0} → A → List A → A
head_or d [] = d
head_or d (x ∷ _) = x

module _ {D W F P : Type 0} (sqlite : Sqlite D F P) (network : Network W F) (device_id : List ℕ)
    (rows : D → List (Row F)) (documented : Documented sqlite rows) (works : Works sqlite)
    (wire : W → List ℕ) (sends : Sends network wire) (retry_max : ℤ) where
  module _ (batch_max : ℕ) (some_rows : 0 < batch_max) where
    abbrev pending : Upload D W → List (Row F)
    pending u = filter (is_pending retry_max) (rows u.db)

    -- what the drain does with the rows of a query
    abbrev go_on : ℕ → Upload D W → Option (List (Row F) × Bool) → Option (Upload D W)
    go_on fuel u found = elim found [
      | none ↦ some u
      | some answer ↦ elim answer.0 [
        | [] ↦ some u
        | row ∷ batch ↦
            drain sqlite network device_id retry_max (pos batch_max) fuel
              (upload_rows sqlite network device_id (row ∷ batch) u).1
      ]
    ]

    Drained : ℕ → Upload D W → Type 0
    Drained fuel u =
        (after : Upload D W) × (drain sqlite network device_id retry_max (pos batch_max) fuel u
          ≡ some after)
        × (pending after ≡ [])

    abbrev AllFit : Type 0
    AllFit = (row : Row F) → (text : List ℕ) × (line sqlite network device_id row ≡ some text)

-- ===== src/Uploader/Budget.antt =====
-- How many sends the records of the table can still ask for.
use i_mx6ull_water_qualit.Base.{
  ℕ, suc, ◌+◌, ◌-◌, ◌≤◌, ◌≡◌, sym, ap, ◌∙◌, length, arith, if◌then◌else◌, Bool, true, Bool-cases,
  inl, inr, List, [], ◌∷◌, map, filter,
}
use i_mx6ull_water_qualit.Base.Int.{ℤ, pos_part}
use i_mx6ull_water_qualit.Database.{Row}
use i_mx6ull_water_qualit.Database.Laws.{is_pending, mark, retry}

module _ {F : Type 0} (retry_max : ℤ) where
  -- the tries that a record has left
  abbrev pub tries : Row F → ℕ
  tries r = if r.uploaded then 0 else pos_part retry_max - r.upload_retry

  abbrev pub budget : List (Row F) → ℕ
  budget [] = 0
  budget (r ∷ table) = tries r + budget table

  tries-mark : (id : ℕ) (r : Row F) → tries (mark id r) ≤ tries r
  tries-mark id r = ground arith

  tries-retry : (id : ℕ) (r : Row F) → tries (retry id r) ≤ tries r
  tries-retry id r = ground arith

  tries-mark_pending :
      (r : Row F) → is_pending retry_max r ≡ true → suc (tries (mark r.id r)) ≤ tries r
  tries-mark_pending r h = ground arith

  tries-retry_pending :
      (r : Row F) → is_pending retry_max r ≡ true → suc (tries (retry r.id r)) ≤ tries r
  tries-retry_pending r h = ground arith

  abbrev first : Row F → List (Row F) → Row F
  first r [] = r
  first r (x ∷ _) = x

  module _ (f : ℕ → Row F → Row F) (weak : (id : ℕ) (r : Row F) → tries (f id r) ≤ tries r)
      (strict : (r : Row F)
        → is_pending retry_max r ≡ true
        → suc (tries (f r.id r)) ≤ tries r) where
    budget-map : (id : ℕ) (table : List (Row F)) → budget (map (f id) table) ≤ budget table
    budget-map id [] = omega arith
    budget-map id (r ∷ table) = omega (arith, weak id r, budget-map id table)

    -- what is done to the first pending record uses one of its tries up
    first_spends :
        (table rest : List (Row F)) (row : Row F)
        → filter (is_pending retry_max) table ≡ row ∷ rest
        → suc (budget (map (f row.id) table)) ≤ budget table
    first_spends [] rest row e = absurd (omega (arith, ap length e))
    first_spends (r ∷ table) rest row e = elim (Bool-cases (is_pending retry_max r)) [
      | inl p ↦
          let same : r ≡ row = ap (first r) (sym (ap test p) ∙ e) in
          omega (arith, strict r p, ap (λ x. tries (f x.id r)) same, budget-map row.id table)
      | inr p ↦ omega (arith, weak row.id r, first_spends table rest row (sym (ap test p) ∙ e))
    ]
      where
        test : Bool → List (Row F)
        test b =
            if b
            then r ∷ filter (is_pending retry_max) table
            else filter (is_pending retry_max) table

  pub mark_first :
      (table rest : List (Row F)) (row : Row F)
      → filter (is_pending retry_max) table ≡ row ∷ rest
      → suc (budget (map (mark row.id) table)) ≤ budget table
  mark_first = first_spends mark tries-mark tries-mark_pending

  pub retry_first :
      (table rest : List (Row F)) (row : Row F)
      → filter (is_pending retry_max) table ≡ row ∷ rest
      → suc (budget (map (retry row.id) table)) ≤ budget table
  retry_first = first_spends retry tries-retry tries-retry_pending

  pub budget-mark : (id : ℕ) (table : List (Row F)) → budget (map (mark id) table) ≤ budget table
  budget-mark = budget-map mark tries-mark tries-mark_pending

  pub budget-retry : (id : ℕ) (table : List (Row F)) → budget (map (retry id) table) ≤ budget table
  budget-retry = budget-map retry tries-retry tries-retry_pending

-- ===== src/Gorm.antt =====
-- The statements of gorm.io/gorm that the repositories send, as a parameter of the model: what the
-- `n`-th statement does to a table, with the documented behaviour as its laws. A statement either
-- reports an error and leaves the table alone, or takes effect as a whole.
-- Rows whose `deleted_at` is set are out of reach of every statement but an insertion, whose unique
-- indexes they still occupy where the index has no condition. A table lists its rows in the order of
-- their primary keys.
pub mod Pairs
pub mod Counts
pub mod Outcomes
use image_bed.Errors.{Result, err, message, ok, record_not_found}
use image_bed.Prelude.{
  Bool, List, String, [], any, false, if◌then◌else◌, select, suc, true, ℕ, ◌&&◌, ◌++◌, ◌<◌, ◌==◌,
  ◌∷◌, ◌≡◌, ◌⊎◌,
}

-- What gorm reads off a model type: the soft-delete column and the unique index.
pub record Schema (Row : Type 0) : Type 0 where
  pub live : Row → Bool
  pub mark_deleted : Row → Row
  pub clash : Row → Row → Bool
  pub set_id : ℕ → Row → Row
  pub id_of : Row → ℕ

module _ {Row : Type 0} where
  abbrev pub scoped : Schema Row → (Row → Bool) → Row → Bool
  scoped s p r = s.live r && p r

  abbrev pub update_where : (Row → Bool) → (Row → Row) → List Row → List Row
  update_where p f [] = []
  update_where p f (r ∷ t) = (if p r then f r else r) ∷ update_where p f t

  abbrev pub count_where : (Row → Bool) → List Row → ℕ
  count_where p [] = 0
  count_where p (r ∷ t) = let n = count_where p t in if p r then suc n else n

  abbrev pub first_of_rows : List Row → Result Row
  first_of_rows [] = err record_not_found
  first_of_rows (r ∷ t) = ok r

-- A failure of a statement, whose text is the driver's.
abbrev pub Fails : {A : Type 0} → Result A → Type 0
Fails {A} r = (why : String) × (r ≡ err (message why))

pub record Gorm {Row : Type 0} (s : Schema Row) : Type 0 where
  -- `Where(p).Find(&rows)` and `Where(p).First(&row)`
  pub find : ℕ → (Row → Bool) → List Row → Result (List Row)
  pub first : ℕ → (Row → Bool) → List Row → Result Row
  -- `Model(&Row{}).Where(p).Updates(f)`, with the number of rows affected
  pub updates : ℕ → (Row → Bool) → (Row → Row) → List Row → Result ℕ × List Row
  -- `Where(p).Delete(&Row{})` of a model with a `deleted_at` column
  pub delete : ℕ → (Row → Bool) → List Row → Result ℕ × List Row
  -- `Clauses(OnConflict{DoNothing: true}).Create(&row)`
  pub create_or_ignore : ℕ → Row → List Row → Result (Unit {0}) × List Row
  -- `Create(&row)`, with the row as gorm fills it in
  pub create : ℕ → Row → List Row → Result Row × List Row
  -- `Model(&Row{}).Where(p).Count(&n)`
  pub count : ℕ → (Row → Bool) → List Row → Result ℕ
  -- `Unscoped().Where(p).First(&row)`
  pub first_unscoped : ℕ → (Row → Bool) → List Row → Result Row
  pub find_law :
      (n : ℕ) (p : Row → Bool) (t : List Row)
      → Fails (find n p t) ⊎ (find n p t ≡ ok (select (scoped s p) t))
  pub first_law :
      (n : ℕ) (p : Row → Bool) (t : List Row)
      → Fails (first n p t) ⊎ (first n p t ≡ first_of_rows (select (scoped s p) t))
  pub updates_law :
      (n : ℕ) (p : Row → Bool) (f : Row → Row) (t : List Row)
      → ((why : String) × (updates n p f t ≡ (err (message why), t)))
        ⊎ (updates n p f t ≡ (ok (count_where (scoped s p) t), update_where (scoped s p) f t))
  pub delete_law :
      (n : ℕ) (p : Row → Bool) (t : List Row)
      → ((why : String) × (delete n p t ≡ (err (message why), t)))
        ⊎ (delete n p t
            ≡ (ok (count_where (scoped s p) t), update_where (scoped s p) s.mark_deleted t))
  -- With `DoNothing` a row that breaks a unique index is skipped without an error; a new row gets a
  -- primary key that no row has.
  pub create_law :
      (n : ℕ) (r : Row) (t : List Row)
      → ((why : String) × (create_or_ignore n r t ≡ (err (message why), t)))
        ⊎ ((any (s.clash r) t ≡ true) × (create_or_ignore n r t ≡ (ok tt, t)))
        ⊎ ((i : ℕ) × (any (s.clash r) t ≡ false)
            × (0 < i)
            × (any (λ x. s.id_of x == i) t ≡ false)
            × (create_or_ignore n r t ≡ (ok tt, t ++ s.set_id i r ∷ [])))
  pub insert_law :
      (n : ℕ) (r : Row) (t : List Row)
      → ((why : String) × (create n r t ≡ (err (message why), t)))
        ⊎ ((i : ℕ) × (0 < i)
            × (any (λ x. s.id_of x == i) t ≡ false)
            × (any (s.clash r) t ≡ false)
            × (create n r t ≡ (ok (s.set_id i r), t ++ s.set_id i r ∷ [])))
  pub count_law :
      (n : ℕ) (p : Row → Bool) (t : List Row)
      → Fails (count n p t) ⊎ (count n p t ≡ ok (count_where (scoped s p) t))
  pub unscoped_law :
      (n : ℕ) (p : Row → Bool) (t : List Row)
      → Fails (first_unscoped n p t) ⊎ (first_unscoped n p t ≡ first_of_rows (select p t))

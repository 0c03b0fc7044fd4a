-- ===== src/Variants/Exclusive.antt =====
-- UpdateStatusCAS as a lock, for the tasks that contend for a variant.
use image_bed.Errors.{Result, err, ok}
use image_bed.Gorm.{count_where, scoped, update_where}
use image_bed.Gorm.Pairs.{update_where_none}
use image_bed.Models.{ImageVariant, VariantStatus, is_status}
use image_bed.Prelude.{
  Bool, Bool-cases, List, String, [], arith, false, if◌then◌else◌, inl, inr, refl, suc, true, ℕ,
  ◌∙◌, ◌∷◌, ◌≡◌, ◌≢◌, ◌≤◌,
}
use image_bed.Variants.{Db, Env, cas_columns, has_status, update_status_cas, variant_schema}
use image_bed.Variants.Effects.{update_status_cas_runs}

module _ {Row : Type 0} where
  count_where-update_where :
      (p : Row → Bool) (f : Row → Row) (t : List Row)
      → ((r : Row) → p r ≡ true → p (f r) ≡ false)
      → count_where p (update_where p f t) ≡ 0
  count_where-update_where p f [] h = refl
  count_where-update_where p f (r ∷ t) h =
      let rest = count_where-update_where p f t h in
      elim (Bool-cases (p r)) [ inl e ↦ rw (e, h r e) rest | inr e ↦ rw (e, e) rest ]

abbrev pub is_won : Result Bool → Bool
is_won (ok z) = z
is_won (err e) = false

is_won-false : (r : Result Bool) → r ≢ ok true → is_won r ≡ false
is_won-false (ok true) h = absurd (h refl)
is_won-false (ok false) h = refl
is_won-false (err e) h = refl

module _ (env : Env) (id : ℕ) (expected new_status : VariantStatus) where
  -- Nobody wins a variant of which no row has the status expected.
  lost :
      (msg : String) (db : Db)
      → count_where (scoped variant_schema (has_status id expected)) db.variants ≡ 0
      → (update_status_cas env id expected new_status msg db).0 ≢ ok true
  unfolding update_status_cas
  lost msg db none_left =
      elim (env.variants.updates_law db.sent (has_status id expected)
        (cas_columns new_status msg (env.now db.sent)) db.variants) [
          | inl (why, h) ↦ rw h (λ e. cc)
          | inr h ↦ rw (h, none_left) (λ e. cc)
        ]

  kept :
      (msg : String) (db : Db)
      → count_where (scoped variant_schema (has_status id expected)) db.variants ≡ 0
      → (update_status_cas env id expected new_status msg db).1.variants ≡ db.variants
  kept msg db none_left = elim (update_status_cas_runs env id expected new_status msg db) [
    | inl (_, same) ↦ same
    | inr (_, changed) ↦ changed ∙ update_where_none _ _ db.variants none_left
  ]

  -- How many of the contenders win, each swapping with its own message in its turn.
  abbrev pub wins : List String → Db → ℕ
  wins [] db = 0
  wins (m ∷ ms) db =
      let rest = wins ms (update_status_cas env id expected new_status m db).1 in
      if is_won (update_status_cas env id expected new_status m db).0 then suc rest else rest

  -- No row is left to swap, so nobody wins.
  none_win :
      (ms : List String) (db : Db)
      → count_where (scoped variant_schema (has_status id expected)) db.variants ≡ 0
      → wins ms db ≡ 0
  none_win [] db none_left = refl
  none_win (m ∷ ms) db none_left =
      rw (is_won-false _ (lost m db none_left)) (none_win ms _ (rw (kept m db none_left) none_left))

  -- Of any number of contenders that swap a variant from the status `expected` to another one, with
  -- each statement failing or not, at most one wins.
  pub update_status_cas-IsExclusive :
      (ms : List String) (db : Db) → is_status new_status expected ≡ false → wins ms db ≤ 1
  update_status_cas-IsExclusive [] db other = omega arith
  update_status_cas-IsExclusive (m ∷ ms) db other =
      elim (update_status_cas_runs env id expected new_status m db) [
        | inl (not_won, same) ↦
            rw (is_won-false _ not_won) (update_status_cas-IsExclusive ms _ other)
        | inr (won, changed) ↦
            rw
              (
                won,
                none_win ms (update_status_cas env id expected new_status m db).1 (
                    rw changed
                      (swapped db (cas_columns new_status m (env.now db.sent)) (λ r. refl))),
              )
              (omega arith)
      ]
    where
      swapped :
          (db : Db) (f : ImageVariant → ImageVariant)
          → ((r : ImageVariant) → (f r).status ≡ new_status)
          → count_where
              (scoped variant_schema (has_status id expected))
              (update_where (scoped variant_schema (has_status id expected)) f db.variants)
            ≡ 0
      swapped db f h =
          count_where-update_where (scoped variant_schema (has_status id expected)) f db.variants
            (λ r k. ground (arith, h r))

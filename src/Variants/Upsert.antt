-- ===== src/Variants/Upsert.antt =====
-- UpsertPending: one live row for an image and a format, found or made.
use text.Mathlib.Text.{◌==◌ as str_eq}
use image_bed.Errors.{Result, err, message, ok, record_not_found}
use image_bed.Gorm.{first_of_rows, scoped}
use image_bed.Models.{ImageVariant}
use image_bed.Prelude.{
  Bool, String, any, inl, inr, refl, select, suc, true, ℕ, ◌&&◌, ◌==◌, ◌≡◌, ◌≢◌, ◌⊎◌,
}
use image_bed.Variants.{
  Db, Env, get_variant, insert_pending, new_pending, on_variants, upsert_pending, variant_schema,
}

-- The test of the statements, and of the unique index.
abbrev pub has_key : ℕ → String → ImageVariant → Bool
has_key image_id format v = v.image_id == image_id && str_eq v.format format

-- The row that a query for the key finds, if its statement does not fail.
abbrev pub live_row : ℕ → String → Db → Result ImageVariant
live_row image_id format db =
    first_of_rows (select (scoped variant_schema (has_key image_id format)) db.variants)

module _ (env : Env) (image_id : ℕ) (format : String) where
  get_variant_runs :
      (db : Db)
      → let run = get_variant env image_id format db in
        (run.1.variants ≡ db.variants)
        × (((why : String) × (run.0 ≡ err (message why))) ⊎ (run.0 ≡ live_row image_id format db))
  unfolding get_variant
  get_variant_runs db = (refl, env.variants.first_law db.sent (has_key image_id format) db.variants)

  get_variant-found :
      (v : ImageVariant) (db : Db)
      → (get_variant env image_id format db).0 ≡ ok v
      → live_row image_id format (get_variant env image_id format db).1 ≡ ok v
  unfolding get_variant
  get_variant-found v db h =
      elim (env.variants.first_law db.sent (has_key image_id format) db.variants) [
        | inl (why, e) ↦ absurd cc
        | inr e ↦ cc
      ]

  insert_pending-found :
      (v : ImageVariant) (db : Db)
      → (insert_pending env image_id format db).0 ≡ ok v
      → live_row image_id format (insert_pending env image_id format db).1 ≡ ok v
  unfolding insert_pending
  insert_pending-found v db = go created.0 created.1
    where
      created : Result (Unit {0}) × Db
      created =
          on_variants
            (λ k.
              env.variants.create_or_ignore k
                (record (new_pending image_id format) { updated_at = env.now k }))
            db

      next : Result (Unit {0}) → Db → Result ImageVariant × Db
      next r db' = elim r [ ok _ ↦ get_variant env image_id format db' | err e ↦ (err e, db') ]

      go :
          (r : Result (Unit {0})) (db' : Db)
          → (next r db').0 ≡ ok v
          → live_row image_id format (next r db').1 ≡ ok v
      go (ok _) db' h = get_variant-found v db' h
      go (err e) db' h = absurd cc

  -- A row that UpsertPending returns is the row of the key in the table that it leaves.
  pub upsert_pending-found :
      (v : ImageVariant) (db : Db)
      → (upsert_pending env image_id format db).0 ≡ ok v
      → live_row image_id format (upsert_pending env image_id format db).1 ≡ ok v
  unfolding upsert_pending
  upsert_pending-found v db = go (get_variant env image_id format db) (get_variant-found v db)
    where
      next : Result ImageVariant × Db → Result ImageVariant × Db
      next (r, db') = elim r [
        | ok u ↦ (ok u, db')
        | err e ↦ elim e [
          | record_not_found ↦ insert_pending env image_id format db'
          | message s ↦ (err (message s), db')
        ]
      ]

      go :
          (found : Result ImageVariant × Db)
          → (found.0 ≡ ok v → live_row image_id format found.1 ≡ ok v)
          → (next found).0 ≡ ok v
          → live_row image_id format (next found).1 ≡ ok v
      go (ok u, db') right h = right h
      go (err record_not_found, db') right h = insert_pending-found v db' h
      go (err (message s), db') right h = absurd cc

  get_variant-absent :
      (db : Db)
      → live_row image_id format db ≡ err record_not_found
      → (v : ImageVariant) → (get_variant env image_id format db).0 ≢ ok v
  unfolding get_variant
  get_variant-absent db gone v h =
      elim (env.variants.first_law db.sent (has_key image_id format) db.variants) [
        | inl (why, e) ↦ cc
        | inr e ↦ cc
      ]

  -- An insertion that a deleted row blocks is skipped, and the row is not found afterwards.
  insert_pending-blocked :
      (db : Db)
      → any (variant_schema.clash (new_pending image_id format)) db.variants ≡ true
      → live_row image_id format db ≡ err record_not_found
      → (v : ImageVariant) → (insert_pending env image_id format db).0 ≢ ok v
  unfolding insert_pending
  insert_pending-blocked db taken gone v = go created.0 created.1 unchanged
    where
      created : Result (Unit {0}) × Db
      created =
          on_variants
            (λ k.
              env.variants.create_or_ignore k
                (record (new_pending image_id format) { updated_at = env.now k }))
            db

      unchanged : created.1.variants ≡ db.variants
      unchanged =
          elim (env.variants.create_law db.sent
            (record (new_pending image_id format) { updated_at = env.now db.sent }) db.variants) [
              | inl (why, e) ↦ rw e refl
              | inr (inl (clash, e)) ↦ rw e refl
              | inr (inr (i, no_clash, _, _, e)) ↦ absurd cc
            ]

      next : Result (Unit {0}) → Db → Result ImageVariant × Db
      next r db' = elim r [ ok _ ↦ get_variant env image_id format db' | err e ↦ (err e, db') ]

      go : (r : Result (Unit {0})) (db' : Db) → db'.variants ≡ db.variants → (next r db').0 ≢ ok v
      go (ok _) db' same = get_variant-absent db' (rw same gone) v
      go (err e) db' same = λ h. cc

  -- DeleteVariant leaves its row in the unique index over (image_id, format). While such a row is
  -- there and no live row of the key, UpsertPending returns no variant, whatever the statements do.
  pub upsert_pending-blocked :
      (db : Db)
      → any (variant_schema.clash (new_pending image_id format)) db.variants ≡ true
      → live_row image_id format db ≡ err record_not_found
      → (v : ImageVariant) → (upsert_pending env image_id format db).0 ≢ ok v
  unfolding upsert_pending get_variant
  upsert_pending-blocked db taken gone v =
      elim (env.variants.first_law db.sent (has_key image_id format) db.variants) [
        | inl (why, e) ↦ rw (insert_pending, e) (λ h. cc)
        | inr e ↦
            rw (e, gone) (insert_pending-blocked (record db { sent = suc db.sent }) taken gone v)
      ]

-- ===== src/Variants/Effects.antt =====
-- What the operations on `image_variants` do to the table, from the laws of the statements.
use image_bed.Errors.{Error, Result, err, message, ok}
use image_bed.Gorm.{Fails, count_where, scoped, update_where}
use image_bed.Gorm.Pairs.{update_where_none}
use image_bed.Models.{ImageVariant, VariantStatus, is_status, processing}
use image_bed.Prelude.{
  Bool, Bool-cases, List, String, [], ap, arith, false, inl, inr, ltb, mem, refl, suc, true, ℕ,
  ◌&&◌, ◌==◌, ◌∷◌, ◌≡◌, ◌≢◌, ◌⊎◌,
}
use image_bed.Variants.{
  Db, Env, Query, cas_columns, completed_columns, delete_variant, failed_columns, has_status,
  is_busy, need_row, on_variants, touch_processing, update_completed, update_failed,
  update_status_cas, variant_schema,
}

-- An operation that takes the variant `id` out of processing when it succeeds, and changes no row
-- when it fails.
pub record Releases (id : ℕ) (op : Query (Unit {0})) : Type 0 where
  pub hits : ImageVariant → Bool
  pub columns : Db → ImageVariant → ImageVariant
  pub runs :
      (db : Db)
      → ((e : Error) × ((op db).0 ≡ err e) × ((op db).1.variants ≡ db.variants))
        ⊎ (((op db).0 ≡ ok tt) × ((op db).1.variants ≡ update_where hits (columns db) db.variants))
  pub hit_id : (v : ImageVariant) → hits v ≡ true → v.id ≡ id
  pub keeps_id : (db : Db) (v : ImageVariant) → (columns db v).id ≡ v.id
  pub idle_after : (db : Db) (v : ImageVariant) → hits v ≡ true → is_busy (columns db v) ≡ false
  pub idle_else : (v : ImageVariant) → hits v ≡ false → v.id ≡ id → is_busy v ≡ false

-- The statement under an operation that reports a missing row.
need_row_runs :
    (env : Env) (e : Error) (p : ImageVariant → Bool) (f : ImageVariant → ImageVariant) (db : Db)
    → let run = need_row e (on_variants (λ k. env.variants.updates k p f) db) in
      ((why : Error) × (run.0 ≡ err why) × (run.1.variants ≡ db.variants))
      ⊎ ((run.0 ≡ ok tt) × (run.1.variants ≡ update_where (scoped variant_schema p) f db.variants))
need_row_runs env e p f db = elim (env.variants.updates_law db.sent p f db.variants) [
  | inl (why, h) ↦ rw h (inl (message why, refl, refl))
  | inr h ↦ rw h (elim (Bool-cases (count_where (scoped variant_schema p) db.variants == 0)) [
    | inl z ↦ inl (e, rw z, update_where_none _ f db.variants (ground arith))
    | inr nz ↦ inr (rw nz, refl)
  ])
]

module _ (env : Env) (id : ℕ) where
  pub update_failed-Releases : (msg : String) → Releases id (update_failed env id msg)
  unfolding update_failed
  update_failed-Releases msg = record {
    hits = scoped variant_schema (has_status id processing);
    columns = λ db. failed_columns msg (env.now db.sent);
    runs = λ db. need_row_runs env _ _ _ db;
    hit_id = λ v h. ground arith;
    keeps_id = λ db v. refl;
    idle_after = λ db v h. ground arith;
    idle_else = λ v h e. ground arith;
  }

  pub update_completed-Releases :
      (name path : String) (size : ℕ) (hash : String) (w h : ℕ)
      → Releases id (update_completed env id name path size hash w h)
  unfolding update_completed
  update_completed-Releases name path size hash w h = record {
    hits = scoped variant_schema (has_status id processing);
    columns = λ db. completed_columns name path size hash w h (env.now db.sent);
    runs = λ db. need_row_runs env _ _ _ db;
    hit_id = λ v h. ground arith;
    keeps_id = λ db v. refl;
    idle_after = λ db v h. ground arith;
    idle_else = λ v h e. ground arith;
  }

  pub delete_variant-Releases : Releases id (delete_variant env id)
  unfolding delete_variant
  delete_variant-Releases = record {
    hits = scoped variant_schema (λ v. v.id == id);
    columns = λ db v. record v { deleted = true };
    runs = λ db. elim (env.variants.delete_law db.sent (λ v. v.id == id) db.variants) [
      | inl (why, h) ↦ rw h (inl (message why, refl, refl))
      | inr h ↦ rw h (inr (refl, refl))
    ];
    hit_id = λ v h. ground arith;
    keeps_id = λ db v. refl;
    idle_after = λ db v h. ground arith;
    idle_else = λ v h e. ground arith;
  }

-- A compare-and-swap wins on at least one matching row, or changes no row.
pub update_status_cas_runs :
    (env : Env) (id : ℕ) (expected new_status : VariantStatus) (msg : String) (db : Db)
    → let run = update_status_cas env id expected new_status msg db in
      ((run.0 ≢ ok true) × (run.1.variants ≡ db.variants))
      ⊎ ((run.0 ≡ ok true)
          × (run.1.variants
              ≡ update_where
                  (scoped variant_schema (has_status id expected))
                  (cas_columns new_status msg (env.now db.sent))
                  db.variants))
unfolding update_status_cas
update_status_cas_runs env id expected new_status msg db =
    elim (env.variants.updates_law db.sent (has_status id expected)
      (cas_columns new_status msg (env.now db.sent)) db.variants) [
        | inl (why, h) ↦ rw h (inl ((λ e. cc), refl))
        | inr h ↦
            rw h
              (elim (Bool-cases (
                ltb 0 (count_where (scoped variant_schema (has_status id expected)) db.variants))) [
                  | inl won ↦ inr (rw won, refl)
                  | inr lost ↦ inl (
                    (λ e. cc (rw lost at e)),
                    update_where_none (scoped variant_schema (has_status id expected)) _ db.variants
                        (ground arith),
                  )
                ])
      ]

pub touch_processing_runs :
    (env : Env) (ids : List ℕ) (db : Db)
    → let run = touch_processing env ids db in
      (run.1.variants ≡ db.variants)
      ⊎ (run.1.variants
          ≡ update_where
              (scoped variant_schema (λ v. mem v.id ids && is_status v.status processing))
              (λ v. record v { updated_at = env.now db.sent })
              db.variants)
unfolding touch_processing
touch_processing_runs env [] db = inl refl
touch_processing_runs env (i ∷ ids) db =
    elim (env.variants.updates_law db.sent
      (λ v. mem v.id (i ∷ ids) && is_status v.status processing)
      (λ v. record v { updated_at = env.now db.sent }) db.variants) [
        | inl (why, h) ↦ rw h (inl refl)
        | inr h ↦ rw h (inr refl)
      ]

module _ (env : Env) (id : ℕ) (expected new_status : VariantStatus) (msg : String) (db : Db) where
  abbrev pub cas_statement : Result ℕ × List ImageVariant
  cas_statement =
      env.variants.updates db.sent (has_status id expected)
        (cas_columns new_status msg (env.now db.sent)) db.variants

  -- Where the statement does not fail, every matching row is set.
  pub update_status_cas_sure :
      ¬ Fails cas_statement.0
      → (update_status_cas env id expected new_status msg db).1.variants
        ≡ update_where
            (scoped variant_schema (has_status id expected))
            (cas_columns new_status msg (env.now db.sent))
            db.variants
  unfolding update_status_cas
  update_status_cas_sure sure =
      elim (env.variants.updates_law db.sent (has_status id expected)
        (cas_columns new_status msg (env.now db.sent)) db.variants) [
          | inl (why, h) ↦ absurd (sure (why, ap (λ (r : Result ℕ × List ImageVariant). r.0) h))
          | inr h ↦ rw h
        ]

  pub sent-update_status_cas :
      (update_status_cas env id expected new_status msg db).1.sent ≡ suc db.sent
  unfolding update_status_cas
  sent-update_status_cas = refl

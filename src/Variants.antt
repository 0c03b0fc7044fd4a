-- ===== src/Variants.antt =====
-- database/repo/images/variant_repository.go: the `image_variants` table, and the part of
-- images_repository.go that keeps `images.variant_status`. Each operation sends its statements
-- through the parameter `env`, in the order of the source; `sent` counts them.
pub mod Recovery
pub mod Effects
pub mod Exclusive
pub mod Upsert
use text.Mathlib.Text.{◌==◌ as str_eq}
use image_bed.Errors.{Error, Result, err, map_result, message, ok, record_not_found}
use image_bed.Gorm.{Gorm, Schema}
use image_bed.Models.{
  Image, ImageVariant, VariantStatus, completed, failed, is_status, pending, processing,
}
use image_bed.Prelude.{
  Bool, List, String, [], false, if◌then◌else◌, ltb, mem, none, not, suc, true, ℕ, ◌&&◌, ◌==◌, ◌∷◌,
}
use image_bed.Text.{decimal, ◌⧺◌}

-- gorm reads these off `ImageVariant`: the unique index is over (image_id, format), without
-- `deleted_at`.
abbrev pub variant_schema : Schema ImageVariant
variant_schema = record {
  live = λ v. not v.deleted;
  mark_deleted = λ v. record v { deleted = true };
  clash = λ v w. v.image_id == w.image_id && str_eq v.format w.format;
  set_id = λ i v. record v { id = i };
  id_of = λ v. v.id;
}

-- Rows with no `deleted_at` do not clash in the index of it and the hash. The default of `is_public`
-- is applied where a row is created.
abbrev pub image_schema : Schema Image
image_schema = record {
  live = λ i. not i.deleted;
  mark_deleted = λ i. record i { deleted = true };
  clash = λ i j. false;
  set_id = λ k i. record i { id = k };
  id_of = λ i. i.id;
}

-- The database behind both repositories, and the clock: `now n` is what `time.Now()` gives once
-- `n` statements were sent.
pub record Env : Type 0 where
  pub variants : Gorm variant_schema
  pub images : Gorm image_schema
  pub now : ℕ → ℕ

pub record Db : Type 0 where
  pub sent : ℕ
  pub variants : List ImageVariant
  pub images : List Image

abbrev pub Query : Type 0 → Type 0
Query A = Db → Result A × Db

-- One statement on a table.
abbrev pub on_variants :
    {A : Type 0} → (ℕ → List ImageVariant → Result A × List ImageVariant) → Query A
on_variants stmt db =
    let (r, rows) = stmt db.sent db.variants in
    (r, record db { sent = suc db.sent; variants = rows })

abbrev pub on_images : {A : Type 0} → (ℕ → List Image → Result A × List Image) → Query A
on_images stmt db =
    let (r, rows) = stmt db.sent db.images in (r, record db { sent = suc db.sent; images = rows })

abbrev pub then_ok : {A B : Type 0} → (A → B) → Result A × Db → Result B × Db
then_ok f (r, db) = (map_result f r, db)

-- `if result.RowsAffected == 0 { return err }`
abbrev pub need_row : Error → Result ℕ × Db → Result (Unit {0}) × Db
need_row e (ok n, db) = (if n == 0 then err e else ok tt, db)
need_row e (err why, db) = (err why, db)

abbrev pub has_status : ℕ → VariantStatus → ImageVariant → Bool
has_status id status v = v.id == id && is_status v.status status

-- A row that a statement can still find in processing.
abbrev pub is_busy : ImageVariant → Bool
is_busy v = not v.deleted && is_status v.status processing

-- The columns that each statement sets.
abbrev pub cas_columns : VariantStatus → String → ℕ → ImageVariant → ImageVariant
cas_columns new_status err_msg now v = record v {
  status = new_status;
  updated_at = now;
  next_retry_at = if is_status new_status processing then none else v.next_retry_at;
  error_message = if str_eq err_msg "" then v.error_message else err_msg;
}

abbrev pub completed_columns :
    String → String → ℕ → String → ℕ → ℕ → ℕ → ImageVariant → ImageVariant
completed_columns identifier storage_path file_size file_hash width height now v = record v {
  status = completed;
  identifier = identifier;
  storage_path = storage_path;
  file_size = file_size;
  file_hash = file_hash;
  width = width;
  height = height;
  error_message = "";
  retry_count = 0;
  next_retry_at = none;
  updated_at = now;
}

abbrev pub failed_columns : String → ℕ → ImageVariant → ImageVariant
failed_columns err_msg now v = record v {
  status = failed;
  error_message = err_msg;
  next_retry_at = none;
  updated_at = now;
}

-- The row that UpsertPending inserts.
abbrev pub new_pending : ℕ → String → ImageVariant
new_pending image_id format = record {
  id = 0;
  image_id = image_id;
  format = format;
  identifier = "";
  storage_path = "";
  file_size = 0;
  file_hash = "";
  width = 0;
  height = 0;
  status = pending;
  error_message = "";
  retry_count = 0;
  next_retry_at = none;
  updated_at = 0;
  deleted = false;
}

module _ (env : Env) where
  -- UpdateStatusCAS
  unfoldable pub update_status_cas : ℕ → VariantStatus → VariantStatus → String → Query Bool
  update_status_cas id expected new_status err_msg db =
      then_ok (λ n. ltb 0 n)
        (on_variants
          (λ k.
            env.variants.updates k (has_status id expected)
              (cas_columns new_status err_msg (env.now k)))
          db)

  -- UpdateCompleted
  unfoldable pub update_completed : ℕ → String → String → ℕ → String → ℕ → ℕ → Query (Unit {0})
  update_completed id identifier storage_path file_size file_hash width height db =
      need_row (message "CAS failed: variant not in processing state") (
        on_variants
          (λ k. env.variants.updates k (has_status id processing) (
            completed_columns identifier storage_path file_size file_hash width height (env.now k)))
          db)

  -- UpdateFailed
  unfoldable pub update_failed : ℕ → String → Query (Unit {0})
  update_failed id err_msg db =
      need_row (message ("variant " ⧺ decimal id ⧺ " not in processing state")) (
        on_variants
          (λ k.
            env.variants.updates k (has_status id processing) (failed_columns err_msg (env.now k)))
          db)

  -- ForceUpdateFailed
  unfoldable pub force_update_failed : ℕ → String → Query (Unit {0})
  force_update_failed id err_msg db =
      then_ok (λ _. tt)
        (on_variants
          (λ k. env.variants.updates k (λ v. v.id == id) (failed_columns err_msg (env.now k))) db)

  -- TouchProcessing
  unfoldable pub touch_processing : List ℕ → Query (Unit {0})
  touch_processing [] db = (ok tt, db)
  touch_processing (i ∷ ids) db =
      then_ok (λ _. tt)
        (on_variants
          (λ k.
            env.variants.updates k (λ v. mem v.id (i ∷ ids) && is_status v.status processing)
              (λ v. record v { updated_at = env.now k }))
          db)

  -- DeleteVariant, DeleteByImageID
  unfoldable pub delete_variant : ℕ → Query (Unit {0})
  delete_variant id db =
      then_ok (λ _. tt) (on_variants (λ k. env.variants.delete k (λ v. v.id == id)) db)

  unfoldable pub delete_by_image_id : ℕ → Query (Unit {0})
  delete_by_image_id image_id db =
      then_ok (λ _. tt) (on_variants (λ k. env.variants.delete k (λ v. v.image_id == image_id)) db)

  -- ResetVariantsToPending
  unfoldable pub reset_variants_to_pending : List ℕ → Query ℕ
  reset_variants_to_pending [] db = (ok 0, db)
  reset_variants_to_pending (i ∷ ids) db =
      on_variants
        (λ k.
          env.variants.updates k (λ v. mem v.id (i ∷ ids) && is_status v.status processing)
            (λ v. record v {
              status = pending;
              error_message = "";
              next_retry_at = none;
              updated_at = env.now k;
            }))
        db

  -- GetVariantsByImageID, GetVariant
  unfoldable pub get_variants_by_image_id : ℕ → Query (List ImageVariant)
  get_variants_by_image_id image_id =
      on_variants (λ k t. (env.variants.find k (λ v. v.image_id == image_id) t, t))

  unfoldable pub get_variant : ℕ → String → Query ImageVariant
  get_variant image_id format =
      on_variants
        λ k t. (env.variants.first k (λ v. v.image_id == image_id && str_eq v.format format) t, t)

  unfoldable pub insert_pending : ℕ → String → Query ImageVariant
  unfolding get_variant
  insert_pending image_id format db =
      let (r, db') =
        on_variants
          (λ k.
            env.variants.create_or_ignore k
              (record (new_pending image_id format) { updated_at = env.now k }))
          db in
      elim r [ ok _ ↦ get_variant image_id format db' | err e ↦ (err e, db') ]

  -- UpsertPending
  unfoldable pub upsert_pending : ℕ → String → Query ImageVariant
  unfolding insert_pending
  upsert_pending image_id format db =
      let (r, db') = get_variant image_id format db in
      elim r [
        | ok v ↦ (ok v, db')
        | err e ↦ elim e [
          | record_not_found ↦ insert_pending image_id format db'
          | message s ↦ (err (message s), db')
        ]
      ]

-- ===== src/Images.antt =====
-- database/repo/images/images_repository.go: the statements on `images` that image processing sends.
-- gorm sets `updated_at` in every update of a model that has the column.
pub mod Records
use image_bed.Errors.{ok}
use image_bed.Models.{
  Image, ImageVariant, ImageVariantStatus, VariantStatus, failed, has_failed, is_image_status,
  is_status, none_yet, processing, processing_now,
}
use image_bed.Prelude.{Bool, List, [], any, ltb, mem, not, ℕ, ◌&&◌, ◌==◌, ◌∷◌}
use image_bed.Variants.{Env, Query, on_images, then_ok}

-- Whether a variant of image `i` has the status, among all rows: the subqueries name the table, not
-- the model, so gorm adds no condition on `deleted_at`.
abbrev pub has_variant : VariantStatus → List ImageVariant → Image → Bool
has_variant status variants i = any (λ v. v.image_id == i.id && is_status v.status status) variants

abbrev pub is_stale_image : ℕ → Image → Bool
is_stale_image cutoff i = is_image_status i.variant_status processing_now && ltb i.updated_at cutoff

abbrev pub set_image_status : ImageVariantStatus → ℕ → Image → Image
set_image_status s now i = record i { variant_status = s; updated_at = now }

module _ (env : Env) where
  -- UpdateVariantStatus
  unfoldable pub update_variant_status : ℕ → ImageVariantStatus → Query (Unit {0})
  update_variant_status image_id status db =
      then_ok (λ _. tt)
        (on_images
          (λ k. env.images.updates k (λ i. i.id == image_id) (set_image_status status (env.now k)))
          db)

  -- ResetProcessingVariantStatus
  unfoldable pub reset_processing_variant_status : List ℕ → ImageVariantStatus → Query ℕ
  reset_processing_variant_status [] status db = (ok 0, db)
  reset_processing_variant_status (i ∷ ids) status db =
      on_images
        (λ k.
          env.images.updates k
            (λ x. mem x.id (i ∷ ids) && is_image_status x.variant_status processing_now)
            (set_image_status status (env.now k)))
        db

  -- TouchVariantProcessingStatus
  unfoldable pub touch_variant_processing_status : ℕ → Query (Unit {0})
  touch_variant_processing_status image_id db =
      then_ok (λ _. tt)
        (on_images
          (λ k.
            env.images.updates k
              (λ i. i.id == image_id && is_image_status i.variant_status processing_now)
              (λ i. record i { updated_at = env.now k }))
          db)

  -- MarkStaleProcessingAsFailed
  unfoldable pub mark_stale_processing_as_failed : ℕ → List ℕ → Query ℕ
  mark_stale_processing_as_failed cutoff exclude_ids db =
      on_images
        (λ k.
          env.images.updates k
            (λ i.
              is_stale_image cutoff i
              && not (has_variant processing db.variants i)
              && has_variant failed db.variants i
              && not (mem i.id exclude_ids))
            (set_image_status has_failed (env.now k)))
        db

  -- ResetStaleProcessingToNone
  unfoldable pub reset_stale_processing_to_none : ℕ → List ℕ → Query ℕ
  reset_stale_processing_to_none cutoff exclude_ids db =
      on_images
        (λ k.
          env.images.updates k
            (λ i.
              is_stale_image cutoff i
              && not (has_variant processing db.variants i)
              && not (mem i.id exclude_ids))
            (set_image_status none_yet (env.now k)))
        db

  -- GetImageByID
  unfoldable pub get_image_by_id : ℕ → Query Image
  get_image_by_id id = on_images (λ k t. (env.images.first k (λ i. i.id == id) t, t))

-- ===== src/Deletion.antt =====
-- internal/image/delete_service.go and the transaction of images_repository.go that it runs.
pub mod Backed
pub mod Visible
pub mod Refines
pub mod Returns
pub mod Safe
pub mod Stranded
use text.Mathlib.Text.{◌==◌ as str_eq}
use image_bed.Errors.{Error, Result, err, message, ok, record_not_found, wrap}
use image_bed.Images.Records.{
  count_images_by_storage_path, delete_images_by_identifiers_and_user, get_image_by_identifier,
  get_images_by_identifiers_and_user,
}
use image_bed.Models.{Image, ImageVariant, failed}
use image_bed.Pipeline.Execute.{execute}
use image_bed.Prelude.{
  Bool, List, Option, String, [], false, if◌then◌else◌, map, mem, none, not, select, some, true, ℕ,
  ◌==◌, ◌∷◌,
}
use image_bed.Services.{
  Act, Outside, attempt, change_site, evict, failing_with, get_storage_provider_by_id, of_image,
  of_image_data, of_image_variants, pure, query, remove, throw, transaction, try_call, ◌>>=◌, ◌>>◌,
}
use image_bed.Variants.{delete_by_image_id, get_variants_by_image_id}

pub record DeleteBatchResult : Type 0 where
  pub deleted_count : ℕ
  pub image_ids : List ℕ

-- DeleteResult
pub record DeleteResult : Type 0 where
  pub success : Bool
  pub count_deleted : ℕ
  pub error : Option Error

abbrev pub refusal : String → DeleteResult
refusal why = record { success = false; count_deleted = 0; error = some (message why) }

abbrev pub deleted_rows : ℕ → DeleteResult
deleted_rows n = record { success = true; count_deleted = n; error = none }

abbrev pub ids_of_images : List Image → List ℕ
ids_of_images images = map (λ i. i.id) images

abbrev pub without_images : List ℕ → List (ℕ × ℕ) → List (ℕ × ℕ)
without_images ids links = select (λ l. not (mem l.1 ids)) links

module _ (o : Outside) where
  -- The statements of the transaction once the images were found.
  unfoldable pub delete_found : List String → ℕ → List Image → Act (DeleteBatchResult × List Image)
  delete_found identifiers user_id [] = pure (record { deleted_count = 0; image_ids = [] }, [])
  delete_found identifiers user_id (i ∷ is) = do
    let ids = ids_of_images (i ∷ is)
    failing_with (wrap "failed to remove images from albums")
        (try_call (λ n. o.unlink_images n ids))
    change_site (λ s. record s { album_images = without_images ids s.album_images })
    n ←
        failing_with (wrap "failed to delete images")
          (query (delete_images_by_identifiers_and_user o.env identifiers user_id))
    pure (record { deleted_count = n; image_ids = ids }, i ∷ is)

  unfoldable pub delete_statements : List String → ℕ → Act (DeleteBatchResult × List Image)
  unfolding delete_found
  delete_statements identifiers user_id = do
    images ←
        failing_with (wrap "failed to get images")
          (query (get_images_by_identifiers_and_user o.env identifiers user_id))
    delete_found identifiers user_id images

  -- DeleteBatchTransaction
  unfoldable pub delete_batch_transaction : List String → ℕ → Act (DeleteBatchResult × List Image)
  unfolding delete_statements
  delete_batch_transaction [] user_id = pure (record { deleted_count = 0; image_ids = [] }, [])
  delete_batch_transaction (x ∷ xs) user_id =
      transaction o.commit (delete_statements (x ∷ xs) user_id)

  -- One round of the loop of deleteVariantsForImage; a failure is logged.
  unfoldable pub delete_variant_file : ℕ → ImageVariant → Act (Unit {0})
  delete_variant_file provider variant = if str_eq variant.storage_path "" then pure tt else (do
    attempt (remove o provider variant.storage_path)
    evict o (of_image_data variant.identifier))

  unfoldable pub delete_variant_files : ℕ → List ImageVariant → Act (Unit {0})
  unfolding delete_variant_file
  delete_variant_files provider [] = pure tt
  delete_variant_files provider (v ∷ vs) = do
    delete_variant_file provider v
    delete_variant_files provider vs

  unfoldable pub delete_variants_at : Image → List ImageVariant → Result ℕ → Act (Unit {0})
  unfolding delete_variant_files
  delete_variants_at img variants (err e) = pure tt
  delete_variants_at img variants (ok provider) = do
    delete_variant_files provider variants
    attempt (query (delete_by_image_id o.env img.id))
    evict o (of_image_variants img.id)

  unfoldable pub delete_variants_found : Image → Result (List ImageVariant) → Act (Unit {0})
  unfolding delete_variants_at
  delete_variants_found img (err e) = pure tt
  delete_variants_found img (ok variants) =
      delete_variants_at img variants (get_storage_provider_by_id o img.storage_config_id)

  -- deleteVariantsForImage
  unfoldable pub delete_variants_for_image : Image → Act (Unit {0})
  unfolding delete_variants_found
  delete_variants_for_image img = do
    variants ← attempt (query (get_variants_by_image_id o.env img.id))
    delete_variants_found img variants

  unfoldable pub delete_variants_of_all : List Image → Act (Unit {0})
  unfolding delete_variants_for_image
  delete_variants_of_all [] = pure tt
  delete_variants_of_all (i ∷ is) = do delete_variants_for_image i; delete_variants_of_all is

  unfoldable pub remove_at : String → Result ℕ → Act (Unit {0})
  remove_at path (err e) = pure tt
  remove_at path (ok provider) = do attempt (remove o provider path); pure tt

  -- A file that some image still names stays; an error of the count keeps it too.
  unfoldable pub remove_if_unused : Image → Result ℕ → Act (Unit {0})
  unfolding remove_at
  remove_if_unused img (err e) = pure tt
  remove_if_unused img (ok ref_count) =
      if ref_count == 0
      then remove_at img.storage_path (get_storage_provider_by_id o img.storage_config_id)
      else pure tt

  -- The original file of a deleted image, in DeleteSingle and in the loop of DeleteBatch
  unfoldable pub delete_original : Image → Act (Unit {0})
  unfolding remove_if_unused
  delete_original img = if str_eq img.storage_path "" then pure tt else (do
    ref_count ← attempt (query (count_images_by_storage_path o.env img.storage_path))
    remove_if_unused img ref_count)

  unfoldable pub delete_originals : List Image → Act (Unit {0})
  unfolding delete_original
  delete_originals [] = pure tt
  delete_originals (i ∷ is) = do delete_original i; delete_originals is

  -- clearImageCache
  unfoldable pub clear_image_cache : String → Act (Unit {0})
  clear_image_cache identifier = do
    evict o (of_image identifier)
    evict o (of_image_data identifier)

  unfoldable pub clear_caches : List String → Act (Unit {0})
  unfolding clear_image_cache
  clear_caches [] = pure tt
  clear_caches (x ∷ xs) = do clear_image_cache x; clear_caches xs

  unfoldable pub finish_single : String → DeleteBatchResult × List Image → Act DeleteResult
  unfolding delete_variants_for_image delete_original clear_image_cache
  finish_single identifier (result, []) = pure (refusal "image not found")
  finish_single identifier (result, img ∷ _) =
      if result.deleted_count == 0 then pure (refusal "image not found") else (do
        delete_variants_for_image img
        delete_original img
        clear_image_cache identifier
        pure (deleted_rows 1))

  unfoldable pub delete_owned : String → ℕ → Result Image → Act DeleteResult
  unfolding delete_batch_transaction finish_single
  delete_owned identifier user_id (err record_not_found) = pure (refusal "image not found")
  delete_owned identifier user_id (err (message s)) =
      throw (wrap "failed to get image info" (message s))
  delete_owned identifier user_id (ok img) =
      if not (img.user_id == user_id) then pure (refusal "permission denied") else (do
        found ←
            failing_with (wrap "failed to delete image")
              (delete_batch_transaction (identifier ∷ []) user_id)
        finish_single identifier found)

  -- DeleteSingle
  unfoldable pub delete_single : String → ℕ → Act DeleteResult
  unfolding delete_owned
  delete_single identifier user_id = do
    img ← attempt (query (get_image_by_identifier o.env identifier))
    delete_owned identifier user_id img

  -- DeleteBatch after its transaction
  unfoldable pub rest_of_batch : List String → DeleteBatchResult × List Image → Act DeleteResult
  unfolding delete_variants_of_all delete_originals clear_caches
  rest_of_batch identifiers found = do
    delete_variants_of_all found.1
    delete_originals found.1
    clear_caches identifiers
    pure (deleted_rows found.0.deleted_count)

  -- DeleteBatch
  unfoldable pub delete_batch : List String → ℕ → Act DeleteResult
  unfolding delete_batch_transaction rest_of_batch
  delete_batch [] user_id = pure (deleted_rows 0)
  delete_batch (x ∷ xs) user_id = do
    found ←
        failing_with (wrap "failed to execute batch delete")
          (delete_batch_transaction (x ∷ xs) user_id)
    rest_of_batch (x ∷ xs) found

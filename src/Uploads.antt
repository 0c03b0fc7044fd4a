-- ===== src/Uploads.antt =====
-- internal/image/write_service.go, with what it uses of utils/generator/path_generator.go,
-- utils/mime.go and utils/validator/validator.go. The durations that are recorded are left out.
pub mod Upload
pub mod Lookup
pub mod Steps
pub mod Facts
pub mod Store
pub mod Reuse
pub mod Revive
pub mod Process
pub mod Ends
pub mod Dedup
pub mod Idle
pub mod Temporary
use text.Mathlib.Text.{◌==◌ as str_eq}
use Prim.Native.String.{slice}
use image_bed.Errors.{Result, err, message, ok, wrap}
use image_bed.Images.Records.{
  count_images_by_storage_path, mem_string, save_image, update_image_by_identifier,
}
use image_bed.Models.{Image, failed, none_yet}
use image_bed.Prelude.{
  Bool, List, Option, String, [], false, if◌then◌else◌, ltb, none, not, some, true, ℕ, ◌&&◌, ◌/◌,
  ◌==◌, ◌∷◌,
}
use image_bed.Services.{
  Act, Outside, UploadSource, act_then, add_image_to_album, attempt, call, conversion, exists,
  failing_with, get_storage_provider_by_id, local_conversion, pure, query, remove, save,
  submit_background_task, throw, try_call, warm_cache, ◌>>=◌, ◌>>◌,
}
use image_bed.Text.{decimal, ◌⧺◌}

-- allowedImageMimeTypes and mimeToExtMap
abbrev pub allowed_image_mime_types : List String
allowed_image_mime_types =
    "image/jpeg" ∷ "image/png" ∷ "image/gif" ∷ "image/webp" ∷ "image/bmp" ∷ []

-- GetSafeExtension of a MIME type without parameters, and getSafeFileExtension
unfoldable pub get_safe_file_extension : String → String
get_safe_file_extension mime_type =
    if str_eq mime_type "image/jpeg"
    then ".jpg"
    else if str_eq mime_type "image/png"
    then ".png"
    else if str_eq mime_type "image/gif"
    then ".gif"
    else if str_eq mime_type "image/webp"
    then ".webp"
    else if str_eq mime_type "image/bmp"
    then ".bmp"
    else ".bin"

pub record StorageIdentifiers : Type 0 where
  pub identifier : String
  pub storage_path : String

-- GenerateOriginalIdentifiers of a hash of at least twelve characters
unfoldable pub generate_original_identifiers : String → String → String → StorageIdentifiers
generate_original_identifiers file_hash ext date = record {
  identifier = slice file_hash 0 12;
  storage_path = "original/" ⧺ (date ⧺ ("/" ⧺ (slice file_hash 0 12 ⧺ ext)));
}

-- What processAndSaveImage returns, and whether the temporary file went to the converter.
pub record Saved : Type 0 where
  pub image : Image
  pub is_dup : Bool
  pub temp_file_consumed : Bool

abbrev pub duplicate : Image → Saved
duplicate img = record { image = img; is_dup = true; temp_file_consumed = false }

module _ (o : Outside) where
  -- IsImageBytes
  unfoldable pub is_image_bytes : String → Option String
  is_image_bytes header =
      let mime_type = o.detect_content_type header in
      if mem_string mime_type allowed_image_mime_types then some mime_type else none

  unfoldable pub need_image : Option String → Act String
  need_image none = throw (message "the uploaded file type is not supported")
  need_image (some mime_type) = pure mime_type

  unfoldable pub hash_of_source : UploadSource → String → Act String
  hash_of_source source header =
      if not (str_eq source.precomputed_hash "")
      then pure source.precomputed_hash
      else failing_with (wrap "failed to hash file stream")
          (try_call (λ n. o.copy_to_hash n source header))

  -- warmCache
  unfoldable pub submit_warm_cache : Image → Act Bool
  submit_warm_cache image = submit_background_task o (warm_cache image)

  unfoldable pub submit_convert : Image → Act (Unit {0})
  submit_convert image =
      if o.has_converter then (do submit_background_task o (conversion image); pure tt) else pure tt

  -- createDedupedImageRecord
  unfoldable pub create_deduped_image_record : Image → ℕ → String → Bool → Act Image
  create_deduped_image_record existing user_id original_name is_public = do
    date ← call o.date
    let ids =
        generate_original_identifiers (existing.file_hash ⧺ ("_" ⧺ decimal user_id))
          (o.path_ext original_name) date
    query (
        save_image o.env (record {
          id = 0;
          identifier = ids.identifier;
          storage_path = existing.storage_path;
          original_name = original_name;
          file_size = existing.file_size;
          mime_type = existing.mime_type;
          storage_config_id = existing.storage_config_id;
          file_hash = existing.file_hash;
          width = existing.width;
          height = existing.height;
          is_public = is_public;
          variant_status = none_yet;
          user_id = user_id;
          updated_at = 0;
          deleted = false;
        }))

  unfoldable pub save_deduped : Image → ℕ → UploadSource → Bool → Act Saved
  save_deduped existing user_id source is_public = do
    image ←
        failing_with (wrap "failed to create deduped image record")
          (create_deduped_image_record existing user_id source.file_name is_public)
    submit_warm_cache image
    pure (duplicate image)

  unfoldable pub same_file : Image → ℕ → UploadSource → Bool → Act Saved
  same_file img user_id source is_public =
      if img.user_id == user_id
      then (do submit_warm_cache img; submit_convert img; pure (duplicate img))
      else save_deduped img user_id source is_public

  -- canReuseSoftDeletedImage
  unfoldable pub file_exists : Image → Act Bool
  file_exists img s =
      act_then (get_storage_provider_by_id o img.storage_config_id)
        (λ provider. exists o provider img.storage_path) s

  unfoldable pub can_reuse_soft_deleted_image : Image → Act Bool
  can_reuse_soft_deleted_image img = if str_eq img.storage_path "" then pure false else (do
    ref_count ← query (count_images_by_storage_path o.env img.storage_path)
    if ltb 0 ref_count then pure true else file_exists img)

  unfoldable pub restore : Image → UploadSource → Bool → Act Saved
  restore img source is_public = do
    restored ←
        failing_with (λ _. message "failed to restore existing image data")
          (query (
            update_image_by_identifier o.env img.identifier (λ i. record i {
              deleted = false;
              original_name = source.file_name;
              is_public = is_public;
            })))
    submit_warm_cache restored
    submit_convert restored
    pure (duplicate restored)

  -- getUploadSourceSize
  unfoldable pub get_upload_source_size : UploadSource → Act ℕ
  get_upload_source_size source = if ltb 0 source.file_size then pure source.file_size else (do
    current ← try_call (λ n. o.seek_current n source)
    size ← try_call (λ n. o.seek_end n source)
    try_call (λ n. o.seek_to n source current)
    pure size)

  unfoldable pub roll_back_file : ℕ → String → Result Image → Act Image
  roll_back_file provider path (ok image) = pure image
  roll_back_file provider path (err e) = do
    attempt (remove o provider path)
    throw (message "failed to save image metadata")

  unfoldable pub add_to_default_album : ℕ → ℕ → Image → Act (Unit {0})
  add_to_default_album album_id user_id image =
      if ltb 0 album_id && o.has_albums
      then (do attempt (add_image_to_album o album_id user_id image); pure tt)
      else pure tt

  -- Whether the temporary file went to the converter.
  unfoldable pub start_conversion : UploadSource → Image → Act Bool
  start_conversion source image =
      if not o.has_converter
      then pure false
      else if not (str_eq source.temp_file_path "")
      then submit_background_task o (local_conversion image source.temp_file_path)
      else (do submit_background_task o (conversion image); pure false)

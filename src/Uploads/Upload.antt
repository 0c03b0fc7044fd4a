-- ===== src/Uploads/Upload.antt =====
-- internal/image/write_service.go: processAndSaveImage and UploadSingleSource.
use text.Mathlib.Text.{◌==◌ as str_eq}
use image_bed.Errors.{Result, err, message, ok, record_not_found, wrap}
use image_bed.Images.Records.{get_image_by_hash, get_soft_deleted_image_by_hash, save_image}
use image_bed.Models.{Image, none_yet}
use image_bed.Prelude.{Bool, String, false, if◌then◌else◌, not, select, true, ℕ, ◌==◌}
use image_bed.Services.{
  Act, Outside, Site, UploadSource, act_then, attempt, call, failing_with,
  get_storage_provider_by_id, pure, query, save, throw, try_call, ◌>>=◌, ◌>>◌,
}
use image_bed.Uploads.{
  Saved, StorageIdentifiers, add_to_default_album, can_reuse_soft_deleted_image,
  generate_original_identifiers, get_safe_file_extension, get_upload_source_size, hash_of_source,
  is_image_bytes, need_image, restore, roll_back_file, same_file, save_deduped, start_conversion,
  submit_warm_cache,
}

-- The row of a new image, with its size and dimensions.
abbrev pub new_image :
    StorageIdentifiers
    → UploadSource
    → String
    → String
    → (user_id storage_id : ℕ) → Bool
    → ℕ
    → ℕ × ℕ
    → Image
new_image ids source mime_type file_hash user_id storage_id is_public file_size size = record {
  id = 0;
  identifier = ids.identifier;
  storage_path = ids.storage_path;
  original_name = source.file_name;
  file_size = file_size;
  mime_type = mime_type;
  storage_config_id = storage_id;
  file_hash = file_hash;
  width = size.0;
  height = size.1;
  is_public = is_public;
  variant_status = none_yet;
  user_id = user_id;
  updated_at = 0;
  deleted = false;
}

module _ (o : Outside) where
  unfoldable pub finish_upload : UploadSource → (user_id album_id : ℕ) → Image → Act Saved
  finish_upload source user_id album_id image = do
    add_to_default_album o album_id user_id image
    submit_warm_cache o image
    consumed ← start_conversion o source image
    pure (record { image = image; is_dup = false; temp_file_consumed = consumed })

  -- The upload of a file that the table does not have.
  unfoldable pub store_new :
      UploadSource → String → String → (user_id provider storage_id : ℕ) → Bool → ℕ → Act Saved
  store_new source mime_type file_hash user_id provider storage_id is_public album_id = do
    failing_with (wrap "failed to seek upload source") (try_call (λ n. o.seek_start n source))
    size ← call (λ n. o.get_image_dimensions n source)
    failing_with (wrap "failed to seek upload source after dimension extraction")
        (try_call (λ n. o.seek_start n source))
    date ← call o.date
    let ids = generate_original_identifiers file_hash (get_safe_file_extension mime_type) date
    failing_with (λ _. message "failed to save uploaded file") (save o provider ids.storage_path)
    actual_size ←
        failing_with (wrap "failed to determine file size") (get_upload_source_size o source)
    saved ← attempt (
        query (
          save_image o.env (
            new_image ids source mime_type file_hash user_id storage_id is_public actual_size
              size)))
    image ← roll_back_file o provider ids.storage_path saved
    finish_upload source user_id album_id image

-- The arguments of an upload that its steps share.
pub record Upload : Type 0 where
  pub source : UploadSource
  pub user_id : ℕ
  pub provider : ℕ
  pub storage_id : ℕ
  pub is_public : Bool
  pub album_id : ℕ

module _ (o : Outside) (u : Upload) where
  unfoldable pub store_upload : String → String → Act Saved
  store_upload mime_type file_hash =
      store_new o u.source mime_type file_hash u.user_id u.provider u.storage_id u.is_public
        u.album_id

  -- An error of the check for a file is logged and counts as no file.
  unfoldable pub reuse_if : Result Bool → Image → String → String → Act Saved
  unfolding store_upload
  reuse_if (err e) img mime_type file_hash = store_upload mime_type file_hash
  reuse_if (ok false) img mime_type file_hash = store_upload mime_type file_hash
  reuse_if (ok true) img mime_type file_hash =
      if img.user_id == u.user_id
      then restore o img u.source u.is_public
      else save_deduped o img u.user_id u.source u.is_public

  unfoldable pub after_deleted_lookup : Result Image → String → String → Act Saved
  unfolding store_upload reuse_if
  after_deleted_lookup (ok img) mime_type file_hash = do
    reusable ← attempt (can_reuse_soft_deleted_image o img)
    reuse_if reusable img mime_type file_hash
  after_deleted_lookup (err record_not_found) mime_type file_hash = store_upload mime_type file_hash
  after_deleted_lookup (err (message s)) mime_type file_hash =
      throw (message "database error during hash check")

  unfoldable pub after_lookup : Result Image → String → String → Act Saved
  unfolding after_deleted_lookup
  after_lookup (ok img) mime_type file_hash = same_file o img u.user_id u.source u.is_public
  after_lookup (err record_not_found) mime_type file_hash = do
    deleted ← attempt (query (get_soft_deleted_image_by_hash o.env file_hash))
    after_deleted_lookup deleted mime_type file_hash
  after_lookup (err (message s)) mime_type file_hash =
      throw (message "database error during hash check")

  -- processAndSaveImage inside its deferred cleanup
  unfoldable pub process_upload : Act Saved
  unfolding after_lookup
  process_upload = do
    failing_with (wrap "failed to open file") (try_call (λ n. o.open_source n u.source))
    header ←
        failing_with (wrap "failed to read file header") (try_call (λ n. o.read_header n u.source))
    mime_type ← need_image o (is_image_bytes o header)
    file_hash ← hash_of_source o u.source header
    found ← attempt (query (get_image_by_hash o.env file_hash))
    after_lookup found mime_type file_hash

  -- cleanupOwnedTempFile
  abbrev pub cleanup_owned_temp_file : String → Site → Site
  cleanup_owned_temp_file path s = record s {
    temp_files =
        if str_eq path "" then s.temp_files else select (λ p. not (str_eq p path)) s.temp_files;
  }

  unfoldable pub clean_up : Result Saved → Site → Site
  clean_up (err e) s = cleanup_owned_temp_file u.source.temp_file_path s
  clean_up (ok saved) s =
      if saved.temp_file_consumed then s else cleanup_owned_temp_file u.source.temp_file_path s

  -- processAndSaveImage
  unfoldable pub process_and_save_image : Act Saved
  unfolding clean_up process_upload
  process_and_save_image s = let (r, s') = process_upload s in (r, clean_up r s')

pub record UploadResult : Type 0 where
  pub image : Image
  pub is_duplicate : Bool
  pub identifier : String
  pub file_name : String
  pub file_size : ℕ

abbrev pub result_of_saved : Saved → UploadResult
result_of_saved saved = record {
  image = saved.image;
  is_duplicate = saved.is_dup;
  identifier = saved.image.identifier;
  file_name = saved.image.original_name;
  file_size = saved.image.file_size;
}

abbrev pub upload_of : UploadSource → (user_id provider storage_id : ℕ) → Bool → ℕ → Upload
upload_of source user_id provider storage_id is_public album_id = record {
  source = source;
  user_id = user_id;
  provider = provider;
  storage_id = storage_id;
  is_public = is_public;
  album_id = album_id;
}

-- UploadSingleSource, without the links that it builds from the identifier
unfoldable pub upload_single_source :
    Outside → UploadSource → (user_id storage_id : ℕ) → Bool → ℕ → Act UploadResult
unfolding process_and_save_image
upload_single_source o source user_id storage_id is_public album_id s =
    act_then (get_storage_provider_by_id o storage_id)
      (λ provider. do
        saved ←
            process_and_save_image o
              (upload_of source user_id provider storage_id is_public album_id)
        pure (result_of_saved saved))
      s

-- ===== src/Pipeline/Generate.antt =====
-- What a task makes: getProcessingFilePath, createVariantTempPath, stageVariantFileFromPath and the
-- three generators of pipeline_task.go. The handle of a decoded image is the information that came
-- with it; memory of libvips is not modelled.
use text.Mathlib.Text.{◌==◌ as str_eq}
use image_bed.Errors.{Error, message}
use image_bed.Int.{le64, lt64}
use image_bed.Pipeline.Decide.{adaptive_webp_quality, detect_image_complexity, should_keep_avif}
use image_bed.Pipeline.World.{
  Exec, ImageInfo, Outcome, PipelineResult, Task, Tools, World, call, deferring, done, fail, modify,
  panic, pure, remove_file, throw, wrapping, ◌>>=◌, ◌>>◌,
}
use image_bed.Prelude.{
  Bool, List, Option, String, [], false, if◌then◌else◌, ltb, none, not, some, true, ℕ, ◌&&◌, ◌||◌,
  ◌∷◌,
}
use image_bed.Settings.{ImageProcessingSettings, ThumbnailSize, is_format_enabled}

abbrev pub add_temp : String → World → World
add_temp path w = record w { temp_files = path ∷ w.temp_files }

-- a failed Close removes the file
unfoldable pub removing_on_failure : {A : Type 0} → String → Outcome A × World → Outcome A × World
removing_on_failure path (done a, w) = (done a, w)
removing_on_failure path (fail e, w) = (fail e, remove_file path w)
removing_on_failure path (panic s, w) = (panic s, w)

abbrev result_of : String → ImageInfo → ℕ → String → PipelineResult
result_of path info size hash = record {
  storage_path = path;
  width = info.width;
  height = info.height;
  file_size = size;
  file_hash = hash;
}

module _ (tools : Tools) where
  -- readImageDimensions
  unfoldable pub read_image_dimensions : String → Exec (Option (ℕ × ℕ))
  read_image_dimensions path = call λ n. done (tools.decode_config n path)

  -- createVariantTempPath; the cleanup is `remove_file` of the path
  unfoldable pub create_variant_temp_path : Exec String
  unfolding removing_on_failure
  create_variant_temp_path = do
    wrapping "create temp dir" (call tools.mkdir_temp)
    path ← wrapping "create temp file" (call tools.create_temp)
    modify (add_temp path)
    (λ w.
        removing_on_failure path
          (wrapping "close temp file" (call (λ n. tools.close_file n path)) w))
    pure path

  read_staged : String → Exec (ℕ × String)
  read_staged path = do
    size ← wrapping "stat temp file" (call (λ n. tools.stat_size n path))
    hash ← wrapping "hash temp file" (call (λ n. tools.hash_file n path))
    wrapping "reset temp file" (call (λ n. tools.seek_start n path))
    pure (size, hash)

  -- stageVariantFileFromPath: size and hash of the file; an error after the opening removes it
  unfoldable pub stage_variant_file_from_path : String → Exec (ℕ × String)
  unfolding removing_on_failure read_staged
  stage_variant_file_from_path path = do
    wrapping "open temp file" (call (λ n. tools.open_file n path))
    (λ w. removing_on_failure path (read_staged path w))

  -- `t.Storage.SaveWithContext(ctx, path, tmpFile)`
  unfoldable pub save_object : String → Exec (Unit {0})
  save_object path = do
    call (λ n. tools.save n path)
    modify (λ w. record w { objects = path ∷ w.objects })

  -- The end of each generator: stage the file that was encoded, and save it unless `keep` refuses
  -- its size.
  unfoldable pub store :
      String → String → String → String → (ℕ → Bool) → ImageInfo → Exec (Option PipelineResult)
  unfolding stage_variant_file_from_path save_object
  store stage_text save_text tmp path keep info = do
    (size, hash) ← wrapping stage_text (stage_variant_file_from_path tmp)
    deferring (remove_file tmp) (
        if keep size
        then (do wrapping save_text (save_object path); pure (some (result_of path info size hash)))
        else pure none)

abbrev exceeds : ℕ → ℕ → ℕ → Bool
exceeds limit w h = ltb 0 limit && (ltb limit w || ltb limit h)

abbrev exceeds_header : ℕ → Option (ℕ × ℕ) → Bool
exceeds_header limit none = false
exceeds_header limit (some (w, h)) = exceeds limit w h

abbrev pub settings_missing : Error
settings_missing = message "image processing settings not provided"

-- `if settings == nil { return nil, … }`
abbrev pub with_settings :
    Option ImageProcessingSettings
    → (ImageProcessingSettings → Exec (Option PipelineResult))
    → Exec (Option PipelineResult)
with_settings none make = throw settings_missing
with_settings (some s) make = make s

-- What `min`-comparisons of generateAVIF choose as the size to beat, on int64 bit patterns.
abbrev avif_baseline : ℕ → Option PipelineResult → ℕ
avif_baseline file_size none = file_size
avif_baseline file_size (some webp) =
    if lt64 0 webp.file_size && (le64 file_size 0 || lt64 webp.file_size file_size)
    then webp.file_size
    else file_size

module _ (tools : Tools) (t : Task) where
  -- The decoded image: the one given, or loaded now.
  unfoldable pub loaded : String → Option ImageInfo → Exec ImageInfo
  loaded file_path (some info) = pure info
  loaded file_path none = wrapping "load image from file" (call (λ n. tools.load_image n file_path))

  -- The header is read only under a limit.
  unfoldable pub header_exceeds : ℕ → String → Exec Bool
  unfolding read_image_dimensions
  header_exceeds limit file_path =
      if ltb 0 limit
      then (do header ← read_image_dimensions tools file_path; pure (exceeds_header limit header))
      else pure false

  unfoldable pub make_thumbnail :
      String → ImageProcessingSettings → ℕ → Exec (Option PipelineResult)
  unfolding create_variant_temp_path store
  make_thumbnail file_path s width = do
    let path = tools.thumbnail_path t.storage_path width
    tmp ← wrapping "create thumbnail temp path" (create_variant_temp_path tools)
    deferring (remove_file tmp) (do
      info ← wrapping "thumbnail from file" (
          call
            (λ n. tools.thumbnail_to_webp n file_path tmp width s.thumbnail_quality s.webp_effort))
      store tools "stage thumbnail" "save thumbnail" tmp path (λ _. true) info)

  unfoldable pub of_sizes :
      String → ImageProcessingSettings → List ThumbnailSize → Exec (Option PipelineResult)
  unfolding make_thumbnail
  of_sizes file_path s [] = throw (message "no thumbnail sizes configured")
  of_sizes file_path s (size ∷ _) = make_thumbnail file_path s size.width

  unfoldable pub thumbnail_with : String → ImageProcessingSettings → Exec (Option PipelineResult)
  unfolding of_sizes
  thumbnail_with file_path s =
      if not s.thumbnail_enabled
      then pure none
      else if str_eq t.mime_type "image/gif"
      then pure none
      else of_sizes file_path s s.thumbnail_sizes

  -- generateThumbnail
  unfoldable pub generate_thumbnail : String → Exec (Option PipelineResult)
  unfolding thumbnail_with
  generate_thumbnail file_path = with_settings t.settings (thumbnail_with file_path)

  unfoldable pub make_webp : ImageProcessingSettings → ImageInfo → Exec (Option PipelineResult)
  unfolding create_variant_temp_path store
  make_webp s info = do
    let quality = adaptive_webp_quality (detect_image_complexity info t.file_size) s.webp_quality
    let path = tools.converted_path t.storage_path "webp"
    tmp ← wrapping "create webp temp path" (create_variant_temp_path tools)
    deferring (remove_file tmp) (do
      wrapping "export webp" (call (λ n. tools.save_webp n tmp quality s.webp_effort))
      store tools "stage webp" "save webp" tmp path (λ _. true) info)

  unfoldable pub load_and_make :
      (ImageProcessingSettings → ImageInfo → Exec (Option PipelineResult))
      → String
      → ImageProcessingSettings
      → Option ImageInfo
      → Exec (Option PipelineResult)
  unfolding loaded header_exceeds
  load_and_make make file_path s origin = do
    skip ← header_exceeds s.max_dimension file_path
    if skip then pure none else do
      info ← loaded file_path origin
      if exceeds s.max_dimension info.width info.height then pure none else make s info

  -- generateWebPWithSettings
  unfoldable pub webp_with :
      String → Option ImageInfo → ImageProcessingSettings → Exec (Option PipelineResult)
  unfolding load_and_make make_webp
  webp_with file_path origin s =
      if not (is_format_enabled "webp" s)
      then pure none
      else load_and_make make_webp file_path s origin

  -- generateWebP
  unfoldable pub generate_webp : String → Option ImageInfo → Exec (Option PipelineResult)
  unfolding webp_with
  generate_webp file_path origin = with_settings t.settings (webp_with file_path origin)

  unfoldable pub make_avif :
      Option PipelineResult → ImageProcessingSettings → ImageInfo → Exec (Option PipelineResult)
  unfolding create_variant_temp_path store
  make_avif webp s info = do
    let path = tools.converted_path t.storage_path "avif"
    tmp ← wrapping "create avif temp path" (create_variant_temp_path tools)
    deferring (remove_file tmp) (do
      wrapping "export avif" (
          call (λ n.
            tools.save_avif n tmp s.avif_quality s.avif_speed
              (if s.avif_experimental then 10 else 8)))
      store tools "stage avif" "save avif" tmp path
          (λ size. should_keep_avif size (avif_baseline t.file_size webp)) info)

  unfoldable pub avif_with :
      String
      → Option PipelineResult
      → Option ImageInfo
      → ImageProcessingSettings
      → Exec (Option PipelineResult)
  unfolding load_and_make make_avif
  avif_with file_path webp origin s =
      if not (is_format_enabled "avif" s)
      then pure none
      else if not tools.supports_avif
      then pure none
      else load_and_make (make_avif webp) file_path s origin

  -- generateAVIF
  unfoldable pub generate_avif :
      String → Option PipelineResult → Option ImageInfo → Exec (Option PipelineResult)
  unfolding avif_with
  generate_avif file_path webp origin = with_settings t.settings (avif_with file_path webp origin)

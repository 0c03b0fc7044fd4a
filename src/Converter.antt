-- ===== src/Converter.antt =====
-- internal/image/converter.go: what a conversion prepares in the database, and how its task is
-- handed to the worker pool.
pub mod Trigger
pub mod Handover
pub mod Refusal
use text.Mathlib.Text.{◌==◌ as str_eq}
use image_bed.Errors.{Result, err, ok}
use image_bed.Images.{update_variant_status}
use image_bed.Models.{
  Image, ImageVariant, has_failed, is_image_status, is_status, pending, processing_now,
}
use image_bed.Pipeline.Run.{skipped}
use image_bed.Pipeline.World.{Task}
use image_bed.Prelude.{
  Bool, List, Option, String, [], false, if◌then◌else◌, length, ltb, none, not, some, true, ℕ, ◌&&◌,
  ◌*◌, ◌||◌, ◌∷◌,
}
use image_bed.Settings.{ImageProcessingSettings, ThumbnailSize, is_format_enabled}
use image_bed.Text.{decimal, ◌⧺◌}
use image_bed.Variants.{Db, Env, force_update_failed}

abbrev pub format_webp : String
format_webp = "webp"

abbrev pub format_avif : String
format_avif = "avif"

-- FormatThumbnailSize
abbrev pub format_thumbnail_size : ℕ → String
format_thumbnail_size width = "thumbnail_" ⧺ decimal width

-- What a conversion finds outside: the settings, libvips, the pool (`none` before InitGlobalPool,
-- else whether Submit accepts) and the storage registry.
pub record Around : Type 0 where
  pub env : Env
  pub settings : Result ImageProcessingSettings
  pub supports_avif : Bool
  pub pool : Option Bool
  -- whether storage.GetByID finds a provider, whether the converter has one, and GetDefault
  pub get_by_id : ℕ → Bool
  pub own_storage : Bool
  pub default_storage : Bool
  pub has_cache : Bool

-- The database, the caller's image, and what was handed on: tasks with their local file, the files
-- removed, and the cache keys whose removal was requested.
pub record Conversion : Type 0 where
  pub db : Db
  pub image : Image
  pub tasks : List (Task × String)
  pub removed : List String
  pub evicted_images : List String
  pub evicted_variants : List ℕ

-- shouldStartVariantPipeline
abbrev pub should_start_variant_pipeline : Bool → Bool → Bool → Bool
should_start_variant_pipeline thumbnail_enabled webp_enabled avif_enabled =
    thumbnail_enabled || webp_enabled || avif_enabled

-- variantReadyForSubmit, of a variant that is not nil
unfoldable pub variant_ready_for_submit : ImageVariant → ℕ → Bool → Bool
variant_ready_for_submit v now ignore_retry_window =
    if not (is_status v.status pending)
    then false
    else if ignore_retry_window
    then true
    else not (is_later v.next_retry_at)
  where
    is_later : Option ℕ → Bool
    is_later none = false
    is_later (some t) = ltb now t

-- getVariantID
abbrev pub get_variant_id : Option ImageVariant → ℕ
get_variant_id none = 0
get_variant_id (some v) = v.id

abbrev pub first_size : List ThumbnailSize → ℕ
first_size [] = 0
first_size (s ∷ _) = s.width

abbrev pub thumbnail_enabled : ImageProcessingSettings → Bool
thumbnail_enabled s = s.thumbnail_enabled && ltb 0 (length s.thumbnail_sizes)

module _ (a : Around) where
  abbrev pub webp_enabled : ImageProcessingSettings → Bool
  webp_enabled s = is_format_enabled format_webp s

  abbrev pub avif_enabled : ImageProcessingSettings → Bool
  avif_enabled s = is_format_enabled format_avif s && a.supports_avif

  abbrev pub skips_image : ImageProcessingSettings → Image → Bool
  skips_image s image =
      str_eq image.mime_type "image/gif"
      || (ltb 0 s.skip_smaller_than && ltb image.file_size (s.skip_smaller_than * 1024))

  -- shouldTriggerVariantConversion
  unfoldable pub should_trigger_variant_conversion :
      Option Image → Option ImageProcessingSettings → Bool
  should_trigger_variant_conversion none s = false
  should_trigger_variant_conversion (some image) none = false
  should_trigger_variant_conversion (some image) (some s) =
      should_start_variant_pipeline (thumbnail_enabled s) (webp_enabled s) (avif_enabled s)
      && not (skips_image s image)

  -- The loop of failPendingVariantsOnSubmitFailure; the errors are only logged.
  unfoldable pub fail_pending : String → List (Option ImageVariant) → Db → Bool × Db
  fail_pending reason [] db = (false, db)
  fail_pending reason (none ∷ vs) db = fail_pending reason vs db
  fail_pending reason (some v ∷ vs) db =
      let skipped = fail_pending reason vs db in
      let (_, after) = fail_pending reason vs (force_update_failed a.env v.id reason db).1 in
      if is_status v.status pending then (true, after) else skipped

  abbrev evict : Conversion → Conversion
  evict c =
      if a.has_cache
      then record c {
        evicted_images = c.image.identifier ∷ c.evicted_images;
        evicted_variants = c.image.id ∷ c.evicted_variants;
      }
      else c

  unfoldable pub after_failed_status : Result (Unit {0}) → Conversion → Conversion
  after_failed_status (ok _) c =
      evict (record c { image = record c.image { variant_status = has_failed } })
  after_failed_status (err e) c = c

  -- failPendingVariantsOnSubmitFailure
  unfoldable pub fail_pending_variants_on_submit_failure :
      String → List (Option ImageVariant) → Conversion → Conversion
  unfolding fail_pending after_failed_status
  fail_pending_variants_on_submit_failure reason variants c =
      let (had_pending, db) = fail_pending reason variants c.db in
      let (r, db') = update_variant_status a.env c.image.id has_failed db in
      if had_pending then after_failed_status r (record c { db = db' }) else record c { db = db }

  unfoldable pub after_processing_status : Result (Unit {0}) → Conversion → Conversion
  after_processing_status (ok _) c = record c {
    image = record c.image { variant_status = processing_now };
  }
  after_processing_status (err e) c = c

  -- markImageProcessing
  unfoldable pub mark_image_processing : Conversion → Conversion
  unfolding after_processing_status
  mark_image_processing c =
      let (r, db) = update_variant_status a.env c.image.id processing_now c.db in
      if is_image_status c.image.variant_status processing_now
      then c
      else after_processing_status r (record c { db = db })

  -- getStorageForImage: whether it gives a provider
  unfoldable pub get_storage_for_image : Image → Bool
  get_storage_for_image image =
      if ltb 0 image.storage_config_id
      then a.get_by_id image.storage_config_id
      else if a.own_storage
      then true
      else a.default_storage

-- ===== src/Converter/Trigger.antt =====
-- triggerConversion of converter.go, on all its ways out.
use text.Mathlib.Text.{◌==◌ as str_eq}
use image_bed.Converter.{
  Around, Conversion, avif_enabled, fail_pending_variants_on_submit_failure, first_size,
  format_avif, format_thumbnail_size, format_webp, get_storage_for_image, get_variant_id,
  mark_image_processing, should_start_variant_pipeline, skips_image, thumbnail_enabled,
  variant_ready_for_submit, webp_enabled,
}
use image_bed.Errors.{Result, err, error_text, ok}
use image_bed.Models.{Image, ImageVariant}
use image_bed.Pipeline.World.{Task}
use image_bed.Prelude.{
  Bool, Option, String, [], false, if◌then◌else◌, none, not, some, true, ℕ, ◌&&◌, ◌++◌, ◌∷◌,
}
use image_bed.Settings.{ImageProcessingSettings}
use image_bed.Text.{◌⧺◌}
use image_bed.Variants.{upsert_pending}

module _ (a : Around) (ignore_retry_window : Bool) (local_file_path : String) where
  unfoldable pub kept_if_ready : ℕ → Result ImageVariant → Result (Option ImageVariant)
  unfolding variant_ready_for_submit
  kept_if_ready now (ok v) =
      ok (if variant_ready_for_submit v now ignore_retry_window then some v else none)
  kept_if_ready now (err e) = err e

  -- One variant's row, if its format is enabled: found or made, and dropped unless it is ready.
  unfoldable pub prepare :
      Bool → String → ℕ → Conversion → Result (Option ImageVariant) × Conversion
  unfolding kept_if_ready
  prepare enabled format now c =
      let (r, db) = upsert_pending a.env c.image.id format c.db in
      if enabled then (kept_if_ready now r, record c { db = db }) else (ok none, c)

  abbrev pub task_for :
      ImageProcessingSettings → (thumb webp avif : Option ImageVariant) → Image → Task
  task_for settings thumb webp avif image = record {
    thumb_variant_id = get_variant_id thumb;
    webp_variant_id = get_variant_id webp;
    avif_variant_id = get_variant_id avif;
    image_id = image.id;
    storage_path = image.storage_path;
    image_identifier = image.identifier;
    file_size = image.file_size;
    mime_type = image.mime_type;
    settings = some settings;
  }

  -- `return`, with the outcome of the submission
  unfoldable pub submit :
      ImageProcessingSettings
      → (thumb webp avif : Option ImageVariant) → Option Bool
      → Conversion
      → Bool × Conversion
  unfolding get_storage_for_image mark_image_processing fail_pending_variants_on_submit_failure
  submit settings thumb webp avif none c = (
    false,
    fail_pending_variants_on_submit_failure a "worker pool not initialized"
        (thumb ∷ webp ∷ avif ∷ []) c,
  )
  submit settings thumb webp avif (some accepted) c =
      if not (get_storage_for_image a c.image)
      then (
        false,
        fail_pending_variants_on_submit_failure a "storage provider unavailable"
            (thumb ∷ webp ∷ avif ∷ []) c,
      )
      else if accepted
      then (
        true,
        mark_image_processing a (record c {
          tasks = c.tasks ++ (task_for settings thumb webp avif c.image, local_file_path) ∷ [];
        }),
      )
      else (
        false,
        fail_pending_variants_on_submit_failure a "worker task submission rejected"
            (thumb ∷ webp ∷ avif ∷ []) c,
      )

  unfoldable pub hand_over :
      ImageProcessingSettings
      → (thumb webp avif : Option ImageVariant) → Conversion
      → Bool × Conversion
  unfolding submit
  hand_over settings none none none c = (false, c)
  hand_over settings thumb webp avif c = submit settings thumb webp avif a.pool c

  unfoldable pub after_avif :
      ImageProcessingSettings
      → (thumb webp : Option ImageVariant) → Result (Option ImageVariant) × Conversion
      → Bool × Conversion
  unfolding hand_over fail_pending_variants_on_submit_failure
  after_avif settings thumb webp (ok avif, c) = hand_over settings thumb webp avif c
  after_avif settings thumb webp (err e, c) = (
    false,
    fail_pending_variants_on_submit_failure a
        ("submit aborted during avif preparation: " ⧺ error_text e) (thumb ∷ webp ∷ []) c,
  )

  unfoldable pub after_webp :
      ImageProcessingSettings
      → ℕ
      → Option ImageVariant
      → Result (Option ImageVariant) × Conversion
      → Bool × Conversion
  unfolding after_avif prepare fail_pending_variants_on_submit_failure
  after_webp settings now thumb (ok webp, c) =
      after_avif settings thumb webp (prepare (avif_enabled a settings) format_avif now c)
  after_webp settings now thumb (err e, c) = (
    false,
    fail_pending_variants_on_submit_failure a
        ("submit aborted during webp preparation: " ⧺ error_text e) (thumb ∷ []) c,
  )

  unfoldable pub after_thumb :
      ImageProcessingSettings → ℕ → Result (Option ImageVariant) × Conversion → Bool × Conversion
  unfolding after_webp prepare
  after_thumb settings now (ok thumb, c) =
      after_webp settings now thumb (prepare (webp_enabled a settings) format_webp now c)
  after_thumb settings now (err e, c) = (false, c)

  unfoldable pub convert : Result ImageProcessingSettings → Conversion → Bool × Conversion
  unfolding after_thumb prepare
  convert (err e) c = (false, c)
  convert (ok settings) c =
      let now = a.env.now c.db.sent in
      if not (
        should_start_variant_pipeline (thumbnail_enabled settings) (webp_enabled a settings)
          (avif_enabled a settings))
      then (false, c)
      else if skips_image a settings c.image
      then (false, c)
      else after_thumb settings now (
          prepare (thumbnail_enabled settings)
            (format_thumbnail_size (first_size settings.thumbnail_sizes)) now c)

  -- The deferred removal of a file that no task has taken over.
  abbrev pub drop_unsubmitted : Bool × Conversion → Conversion
  drop_unsubmitted (submitted, c) =
      if not submitted && not (str_eq local_file_path "")
      then record c { removed = local_file_path ∷ c.removed }
      else c

  -- triggerConversion
  unfoldable pub trigger_conversion : Conversion → Conversion
  unfolding convert
  trigger_conversion c = drop_unsubmitted (convert a.settings c)

-- TriggerConversion, TriggerConversionWithLocalFile, TriggerConversionFromSweeper
unfoldable pub trigger_plainly : Around → Conversion → Conversion
unfolding trigger_conversion
trigger_plainly a = trigger_conversion a false ""

unfoldable pub trigger_with_local_file : Around → String → Conversion → Conversion
unfolding trigger_conversion
trigger_with_local_file a path = trigger_conversion a false path

unfoldable pub trigger_from_sweeper : Around → Conversion → Conversion
unfolding trigger_conversion
trigger_from_sweeper a = trigger_conversion a true ""

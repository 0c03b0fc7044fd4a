-- ===== src/Selection.antt =====
-- internal/image/variant_service.go and utils/format/negotiator.go: which file of an image a client
-- gets. The preferences are those that the Accept header was read into; of a quality value only its
-- sign matters.
pub mod Served
use text.Mathlib.Text.{◌==◌ as str_eq}
use image_bed.Converter.{Around, format_avif, format_webp, should_trigger_variant_conversion}
use image_bed.Errors.{Result, err, ok}
use image_bed.Models.{
  Image, ImageVariant, ImageVariantStatus, all_completed, completed, has_failed, is_status,
  none_yet, processing_now, thumbnail_completed,
}
use image_bed.Prelude.{
  Bool, List, Option, String, [], any, false, if◌then◌else◌, none, some, true, ◌&&◌, ◌||◌, ◌∷◌,
}
use image_bed.Settings.{ImageProcessingSettings}
use image_bed.Variants.{Query, get_variants_by_image_id, then_ok}

abbrev pub format_original : String
format_original = "original"

-- The format is "" for a wildcard.
pub record ClientPreference : Type 0 where
  pub format_type : String
  pub is_positive : Bool

-- The MIMEType of FormatRegistry
abbrev pub mime_type_of : String → String
mime_type_of format =
    if str_eq format format_avif
    then "image/avif"
    else if str_eq format format_webp
    then "image/webp"
    else ""

-- `n.enabledFormats[format]`
abbrev pub is_enabled : List String → String → Bool
is_enabled enabled format = any (λ f. str_eq f format) enabled

abbrev first_named : String → List ClientPreference → Option Bool
first_named format [] = none
first_named format (p ∷ ps) =
    if str_eq p.format_type format then some p.is_positive else first_named format ps

-- clientSupports
unfoldable pub client_supports : List ClientPreference → String → Bool
client_supports prefs format = elim (first_named format prefs) [
  | some positive ↦ positive
  | none ↦ any (λ p. str_eq p.format_type "" && p.is_positive) prefs
]

-- The condition of the loop of Negotiate
abbrev pub can_serve : List String → List ClientPreference → (String → Bool) → String → Bool
can_serve enabled prefs available format =
    is_enabled enabled format && available format && client_supports prefs format

-- Negotiate
unfoldable pub negotiate : List String → List ClientPreference → (String → Bool) → String
negotiate enabled prefs available =
    if can_serve enabled prefs available format_avif
    then format_avif
    else if can_serve enabled prefs available format_webp
    then format_webp
    else format_original

-- VariantResult, without the image that it repeats.
pub record VariantResult : Type 0 where
  pub format : String
  pub is_original : Bool
  pub should_trigger_conversion : Bool
  pub variant : Option ImageVariant
  pub mime_type : String
  pub identifier : String
  pub storage_path : String

-- handleOriginalWithConversion
unfoldable pub handle_original_with_conversion : Image → Bool → VariantResult
handle_original_with_conversion image should_trigger = record {
  format = format_original;
  is_original = true;
  should_trigger_conversion = should_trigger;
  variant = none;
  mime_type = image.mime_type;
  identifier = image.identifier;
  storage_path = image.storage_path;
}

abbrev pub is_completed : String → ImageVariant → Bool
is_completed format v = is_status v.status completed && str_eq v.format format

-- `available[format]`, and `variantMap[format]`, where the last one stays
abbrev pub is_available : List ImageVariant → String → Bool
is_available variants format = any (is_completed format) variants

abbrev pub variant_of : List ImageVariant → String → Option ImageVariant
variant_of [] format = none
variant_of (v ∷ vs) format = elim (variant_of vs format) [
  | some w ↦ some w
  | none ↦ if is_completed format v then some v else none
]

abbrev identifier_of : Option ImageVariant → String
identifier_of none = ""
identifier_of (some v) = v.identifier

abbrev storage_path_of : Option ImageVariant → String
storage_path_of none = ""
storage_path_of (some v) = v.storage_path

-- selectFromVariants
unfoldable pub select_from_variants :
    Image → List ClientPreference → ImageProcessingSettings → List ImageVariant → VariantResult
unfolding negotiate
select_from_variants image prefs settings variants =
    let selected = negotiate settings.conversion_enabled_formats prefs (is_available variants) in
    let variant = variant_of variants selected in
    if str_eq selected format_original
    then record {
      format = selected;
      is_original = true;
      should_trigger_conversion = false;
      variant = none;
      mime_type = image.mime_type;
      identifier = image.identifier;
      storage_path = image.storage_path;
    }
    else record {
      format = selected;
      is_original = false;
      should_trigger_conversion = false;
      variant = variant;
      mime_type = mime_type_of selected;
      identifier = identifier_of variant;
      storage_path = storage_path_of variant;
    }

module _ (a : Around) where
  -- handleCompletedVariants; `cached` is what the cache holds for the image, if anything. That it also
  -- caches what it has fetched is left out.
  unfoldable pub handle_completed_variants :
      Option (List ImageVariant)
      → Image
      → List ClientPreference
      → ImageProcessingSettings
      → Query VariantResult
  unfolding select_from_variants
  handle_completed_variants (some variants) image prefs settings db =
      (ok (select_from_variants image prefs settings variants), db)
  handle_completed_variants none image prefs settings db =
      then_ok (select_from_variants image prefs settings)
        (get_variants_by_image_id a.env image.id db)

  -- The switch of SelectBestVariant
  unfoldable pub select_by_status :
      ImageVariantStatus
      → Option (List ImageVariant)
      → Image
      → List ClientPreference
      → ImageProcessingSettings
      → Query VariantResult
  unfolding handle_completed_variants handle_original_with_conversion
      should_trigger_variant_conversion
  select_by_status none_yet cached image prefs settings db = (
    ok (
        handle_original_with_conversion image
          (should_trigger_variant_conversion a (some image) (some settings))),
    db,
  )
  select_by_status processing_now cached image prefs settings db =
      (ok (handle_original_with_conversion image false), db)
  select_by_status has_failed cached image prefs settings db = (
    ok (
        handle_original_with_conversion image
          (should_trigger_variant_conversion a (some image) (some settings))),
    db,
  )
  select_by_status thumbnail_completed cached image prefs settings db =
      handle_completed_variants cached image prefs settings db
  select_by_status all_completed cached image prefs settings db =
      handle_completed_variants cached image prefs settings db

  unfoldable pub select_with :
      Result ImageProcessingSettings
      → Option (List ImageVariant)
      → Image
      → List ClientPreference
      → Query VariantResult
  unfolding select_by_status
  select_with (err e) cached image prefs db = (err e, db)
  select_with (ok settings) cached image prefs db =
      select_by_status image.variant_status cached image prefs settings db

  -- SelectBestVariant: a GIF or a WebP is served as it is
  unfoldable pub select_best_variant :
      Option (List ImageVariant) → Image → List ClientPreference → Query VariantResult
  unfolding select_with handle_original_with_conversion
  select_best_variant cached image prefs db =
      if str_eq image.mime_type "image/gif" || str_eq image.mime_type "image/webp"
      then (ok (handle_original_with_conversion image false), db)
      else select_with a.settings cached image prefs db

-- ===== src/Selection/Served.antt =====
-- What a client is served.
use text.Mathlib.Text.{◌==◌ as str_eq}
use mathlib.Core.List.{Memᴰ}
use image_bed.Converter.{Around, format_avif, format_webp}
use image_bed.Errors.{ok}
use image_bed.Models.{
  Image, ImageVariant, ImageVariantStatus, all_completed, has_failed, is_variant_available,
  none_yet, processing_now, thumbnail_completed,
}
use image_bed.Prelude.{
  Bool-cases, List, Option, String, [], arith, false, inl, inr, none, refl, some, true, ◌||◌, ◌∷◌,
  ◌≡◌, ◌⊎◌,
}
use image_bed.Selection.{
  ClientPreference, VariantResult, can_serve, handle_original_with_conversion, is_available,
  is_completed, negotiate, select_best_variant, select_by_status, select_from_variants, select_with,
  variant_of,
}
use image_bed.Settings.{ImageProcessingSettings}
use image_bed.Variants.{Db}

variant_of-none :
    (vs : List ImageVariant) (format : String)
    → is_available vs format ≡ false
    → variant_of vs format ≡ none
variant_of-none [] format h = refl
variant_of-none (v ∷ vs) format h =
    let rest : is_available vs format ≡ false = ground (arith, h) in
    let own : is_completed format v ≡ false = ground (arith, h) in
    rw (variant_of-none vs format rest, own) refl

-- An available format has its variant: `variantMap` is never nil where it is read.
variant_of-found :
    (variants : List ImageVariant) (format : String)
    → is_available variants format ≡ true
    → (v : ImageVariant) × (variant_of variants format ≡ some v)
      × Memᴰ v variants
      × (is_completed format v ≡ true)
variant_of-found [] format h = absurd cc
variant_of-found (w ∷ vs) format h = elim (Bool-cases (is_available vs format)) [
  | inl later ↦
      let (v, e, m, k) = variant_of-found vs format later in (v, rw e refl, Memᴰ.tail m, k)
  | inr gone ↦
      let own : is_completed format w ≡ true = ground (arith, gone, h) in
      (w, rw (variant_of-none vs format gone, own) refl, Memᴰ.head refl, own)
]

-- The original is served where no variant can be.
pub record ServesOriginal (image : Image) (prefs : List ClientPreference)
    (s : ImageProcessingSettings) (variants : List ImageVariant) (r : VariantResult) : Type 0 where
  pub original : r.is_original ≡ true
  pub own_path : r.storage_path ≡ image.storage_path
  pub no_avif :
      can_serve s.conversion_enabled_formats prefs (is_available variants) format_avif ≡ false
  pub no_webp :
      can_serve s.conversion_enabled_formats prefs (is_available variants) format_webp ≡ false

-- A variant that is served is one of the image's, completed, enabled and accepted by the client, and
-- it is the AVIF wherever that can be served.
pub record ServesVariant (prefs : List ClientPreference) (s : ImageProcessingSettings)
    (variants : List ImageVariant) (r : VariantResult) : Type 0 where
  pub served : ImageVariant
  pub is_it : r.variant ≡ some served
  pub is_ours : Memᴰ served variants
  pub is_done : is_completed r.format served ≡ true
  pub its_path : r.storage_path ≡ served.storage_path
  pub accepted :
      can_serve s.conversion_enabled_formats prefs (is_available variants) r.format ≡ true
  pub prefers_avif :
      can_serve s.conversion_enabled_formats prefs (is_available variants) format_avif ≡ true
      → r.format ≡ format_avif

-- The client gets either a completed variant of the image in a format that is enabled and that it
-- accepts, AVIF before WebP, with that variant's path, or, where neither can be served, the original.
pub select_from_variants-serves :
    (image : Image) (prefs : List ClientPreference) (s : ImageProcessingSettings)
    (variants : List ImageVariant)
    → let r = select_from_variants image prefs s variants in
      ServesOriginal image prefs s variants r ⊎ ServesVariant prefs s variants r
unfolding select_from_variants negotiate
select_from_variants-serves image prefs s variants =
    elim (Bool-cases
      (can_serve s.conversion_enabled_formats prefs (is_available variants) format_avif)) [
        | inl e ↦
            let here : is_available variants format_avif ≡ true = ground (arith, e) in
            let (v, f, m, k) = variant_of-found variants format_avif here in
            rw (e, f)
              (inr (record {
                served = v;
                is_it = refl;
                is_ours = m;
                is_done = k;
                its_path = refl;
                accepted = e;
                prefers_avif = λ h. refl;
              }))
        | inr e ↦
            elim (Bool-cases
              (can_serve s.conversion_enabled_formats prefs (is_available variants) format_webp)) [
                | inl g ↦
                    let here : is_available variants format_webp ≡ true = ground (arith, g) in
                    let (v, f, m, k) = variant_of-found variants format_webp here in
                    rw (e, g, f)
                      (inr (record {
                        served = v;
                        is_it = refl;
                        is_ours = m;
                        is_done = k;
                        its_path = refl;
                        accepted = g;
                        prefers_avif = λ h. absurd cc;
                      }))
                | inr g ↦
                    rw (e, g)
                      (inl (record { original = refl; own_path = refl; no_avif = e; no_webp = g }))
              ]
      ]

-- Until the image's variants are there, as its status says, SelectBestVariant serves the original and
-- asks nothing of the table, whatever the client accepts. The condition is that the settings load.
pub select_best_variant-original :
    (a : Around) (s : ImageProcessingSettings) (cached : Option (List ImageVariant)) (image : Image)
    (prefs : List ClientPreference) (db : Db)
    → a.settings ≡ ok s
    → is_variant_available image.variant_status ≡ false
    → (r : VariantResult) × (select_best_variant a cached image prefs db ≡ (ok r, db))
      × (r.is_original ≡ true)
      × (r.storage_path ≡ image.storage_path)
unfolding select_best_variant select_with select_by_status handle_original_with_conversion
    is_variant_available
select_best_variant-original a s cached image prefs db settled early =
    elim (Bool-cases (str_eq image.mime_type "image/gif" || str_eq image.mime_type "image/webp")) [
      | inl e ↦ (handle_original_with_conversion image false, rw e refl, refl, refl)
      | inr e ↦
          let (r, f, k, l) = by_status image.variant_status early in (r, rw (e, settled) f, k, l)
    ]
  where
    by_status :
        (status : ImageVariantStatus)
        → is_variant_available status ≡ false
        → (r : VariantResult) × (select_by_status a status cached image prefs s db ≡ (ok r, db))
          × (r.is_original ≡ true)
          × (r.storage_path ≡ image.storage_path)
    by_status none_yet h = (_, refl, refl, refl)
    by_status processing_now h = (_, refl, refl, refl)
    by_status has_failed h = (_, refl, refl, refl)
    by_status thumbnail_completed h = absurd cc
    by_status all_completed h = absurd cc

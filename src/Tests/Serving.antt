-- ===== src/Tests/Serving.antt =====
-- What is served for an image at concrete variants.
use image_bed.Errors.{ok}
use image_bed.Models.{ImageVariant, completed, is_variant_available}
use image_bed.Prelude.{List, [], false, none, refl, true, ◌∷◌, ◌≡◌, ◌⊎◌}
use image_bed.Selection.{ClientPreference, VariantResult, select_best_variant, select_from_variants}
use image_bed.Selection.Served.{
  ServesOriginal, ServesVariant, select_best_variant-original, select_from_variants-serves,
}
use image_bed.Tests.Database.{picture, stale_db, variant}
use image_bed.Tests.Pipelines.{settings}
use image_bed.Tests.Workers.{around}

abbrev prefs : List ClientPreference
prefs =
    record { format_type = "webp"; is_positive = true }
    ∷ record { format_type = ""; is_positive = false }
    ∷ []

abbrev made_variants : List ImageVariant
made_variants = variant 2 "webp" completed false ∷ variant 3 "avif" completed false ∷ []

select_from_variants-serves_example :
    let r = select_from_variants picture prefs settings made_variants in
    ServesOriginal picture prefs settings made_variants r
    ⊎ ServesVariant prefs settings made_variants r
select_from_variants-serves_example =
    select_from_variants-serves picture prefs settings made_variants

select_best_variant-original_example :
    (r : VariantResult) × (select_best_variant around none picture prefs stale_db
      ≡ (ok r, stale_db))
    × (r.is_original ≡ true)
    × (r.storage_path ≡ picture.storage_path)
unfolding is_variant_available
select_best_variant-original_example =
    select_best_variant-original around settings none picture prefs stale_db refl refl

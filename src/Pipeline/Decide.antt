-- ===== src/Pipeline/Decide.antt =====
-- The decisions of pipeline_task.go: complexity and quality of a WebP, whether an AVIF is kept, and
-- the status of the image at the end.
pub mod Bounds
use image_bed.Int.{le64, lt64, min_pos, mul64, pos, sub_ℕ, ℤ}
use image_bed.Models.{ImageVariantStatus, all_completed, none_yet, thumbnail_completed}
use image_bed.Pipeline.World.{ImageInfo}
use image_bed.Prelude.{
  Bool, false, if◌then◌else◌, ltb, not, true, ℕ, ◌&&◌, ◌*◌, ◌+◌, ◌-◌, ◌==◌, ◌||◌,
}

pub data ImageComplexity : Type 0 where
  low medium high : ImageComplexity

-- detectImageComplexity. The quotient of two floats is compared by cross-multiplication: the tests
-- agree while sizes and pixel counts are below 2 ^ 50.
unfoldable pub detect_image_complexity : ImageInfo → ℕ → ImageComplexity
detect_image_complexity info file_size =
    let pixel_count = info.width * info.height in
    if pixel_count == 0 || file_size == 0
    then medium
    else if ltb (3 * pixel_count) file_size
    then low
    else if ltb (2 * pixel_count) file_size
    then medium
    else if ltb (10 * file_size) (8 * pixel_count)
    then high
    else if ltb (10 * file_size) (12 * pixel_count)
    then medium
    else medium

-- adaptiveWebPQuality
unfoldable pub adaptive_webp_quality : ImageComplexity → ℕ → ℤ
adaptive_webp_quality low base_quality = min_pos (sub_ℕ base_quality 10) 75
adaptive_webp_quality medium base_quality = pos base_quality
adaptive_webp_quality high base_quality = min_pos (pos (base_quality + 5)) 90

abbrev pub avif_min_savings_percent : ℕ
avif_min_savings_percent = 5

-- shouldKeepAVIF, on int64 bit patterns
unfoldable pub should_keep_avif : ℕ → ℕ → Bool
should_keep_avif candidate_size baseline_size =
    if le64 candidate_size 0
    then false
    else if le64 baseline_size 0
    then true
    else lt64 (mul64 candidate_size 100) (mul64 baseline_size (100 - avif_min_savings_percent))

-- resolveImageVariantStatus
unfoldable pub resolve_image_variant_status :
    (has_thumb has_webp has_avif thumb_completed webp_completed avif_completed thumb_skipped
      webp_skipped avif_skipped : Bool)
    → ImageVariantStatus
resolve_image_variant_status ht hw ha tc wc ac ts ws as' =
    let full_completed = wc || ac in
    let all_skipped = (not ht || ts) && (not hw || ws) && (not ha || as') in
    if tc && full_completed
    then all_completed
    else if tc
    then thumbnail_completed
    else if full_completed
    then all_completed
    else if all_skipped
    then none_yet
    else none_yet

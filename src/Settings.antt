-- ===== src/Settings.antt =====
-- config/db/image_processing_config.go: the settings that image processing reads.
use text.Mathlib.Text.{◌==◌ as str_eq}
use image_bed.Prelude.{Bool, List, String, any, ℕ}

pub record ThumbnailSize : Type 0 where
  pub width : ℕ
  pub height : ℕ

pub record ImageProcessingSettings : Type 0 where
  pub thumbnail_enabled : Bool
  pub thumbnail_sizes : List ThumbnailSize
  pub thumbnail_quality : ℕ
  pub conversion_enabled_formats : List String
  pub webp_quality : ℕ
  pub webp_effort : ℕ
  pub avif_quality : ℕ
  pub avif_speed : ℕ
  pub avif_experimental : Bool
  pub skip_smaller_than : ℕ
  pub max_dimension : ℕ
  pub max_file_size_mb : ℕ

-- IsFormatEnabled
unfoldable pub is_format_enabled : String → ImageProcessingSettings → Bool
is_format_enabled format s = any (λ f. str_eq f format) s.conversion_enabled_formats

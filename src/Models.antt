-- ===== src/Models.antt =====
-- database/models/image_variant.go and image.go: the rows that image processing reads and writes.
-- Columns that no modelled operation reads or writes are left out. A status column holds one of the
-- four strings of image_variant.go, here a data type; of `deleted_at` only its being NULL is read.
-- Times are numbers of one unit; sizes and widths are not negative.
use image_bed.Prelude.{Bool, Option, String, ℕ, ◌==◌, ◌||◌}

pub data VariantStatus : Type 0 where
  pending processing completed failed : VariantStatus

abbrev pub rank : VariantStatus → ℕ
rank pending = 0
rank processing = 1
rank completed = 2
rank failed = 3

abbrev pub is_status : VariantStatus → VariantStatus → Bool
is_status a b = rank a == rank b

pub record ImageVariant : Type 0 where
  pub id : ℕ
  pub image_id : ℕ
  pub format : String
  pub identifier : String
  pub storage_path : String
  pub file_size : ℕ
  pub file_hash : String
  pub width : ℕ
  pub height : ℕ
  pub status : VariantStatus
  pub error_message : String
  pub retry_count : ℕ
  pub next_retry_at : Option ℕ
  pub updated_at : ℕ
  pub deleted : Bool

pub data ImageVariantStatus : Type 0 where
  none_yet processing_now thumbnail_completed all_completed has_failed : ImageVariantStatus

abbrev pub image_rank : ImageVariantStatus → ℕ
image_rank none_yet = 0
image_rank processing_now = 1
image_rank thumbnail_completed = 2
image_rank all_completed = 3
image_rank has_failed = 4

abbrev pub is_image_status : ImageVariantStatus → ImageVariantStatus → Bool
is_image_status a b = image_rank a == image_rank b

-- IsVariantAvailable, HasPendingVariants
unfoldable pub is_variant_available : ImageVariantStatus → Bool
is_variant_available s = is_image_status s thumbnail_completed || is_image_status s all_completed

unfoldable pub has_pending_variants : ImageVariantStatus → Bool
has_pending_variants s = is_image_status s none_yet || is_image_status s thumbnail_completed

pub record Image : Type 0 where
  pub id : ℕ
  pub identifier : String
  pub storage_path : String
  pub original_name : String
  pub file_size : ℕ
  pub mime_type : String
  pub storage_config_id : ℕ
  pub file_hash : String
  pub width : ℕ
  pub height : ℕ
  pub is_public : Bool
  pub variant_status : ImageVariantStatus
  pub user_id : ℕ
  pub updated_at : ℕ
  pub deleted : Bool

-- ===== src/Images/Records.antt =====
-- database/repo/images/images_repository.go: the statements on `images` that uploads, deletion and
-- queries send.
use text.Mathlib.Text.{◌==◌ as str_eq}
use image_bed.Errors.{Result, err, ok, record_not_found}
use image_bed.Models.{Image}
use image_bed.Prelude.{
  Bool, List, String, [], any, if◌then◌else◌, ltb, mem, true, ℕ, ◌&&◌, ◌==◌, ◌∷◌,
}
use image_bed.Variants.{Db, Env, Query, on_images, then_ok}

abbrev pub mem_string : String → List String → Bool
mem_string a xs = any (λ x. str_eq x a) xs

abbrev pub has_identifier : String → Image → Bool
has_identifier identifier i = str_eq i.identifier identifier

-- `identifier IN ? AND user_id = ?`
abbrev pub is_owned : List String → ℕ → Image → Bool
is_owned identifiers user_id i = mem_string i.identifier identifiers && i.user_id == user_id

-- The tag `default:true` of IsPublic: gorm leaves a false out of the INSERT and sets the default in
-- the row and in the struct.
abbrev pub image_defaults : Image → Image
image_defaults i = record i { is_public = true }

module _ (env : Env) where
  -- SaveImage; `image` points at the row, which gorm fills in, the columns' defaults included
  unfoldable pub save_image : Image → Query Image
  save_image image db =
      on_images
        (λ k. env.images.create k (record (image_defaults image) { updated_at = env.now k })) db

  -- CountImagesByStoragePath
  unfoldable pub count_images_by_storage_path : String → Query ℕ
  count_images_by_storage_path storage_path =
      on_images (λ k t. (env.images.count k (λ i. str_eq i.storage_path storage_path) t, t))

  -- GetImageByHash
  unfoldable pub get_image_by_hash : String → Query Image
  get_image_by_hash hash =
      on_images (λ k t. (env.images.first k (λ i. str_eq i.file_hash hash) t, t))

  -- GetSoftDeletedImageByHash
  unfoldable pub get_soft_deleted_image_by_hash : String → Query Image
  get_soft_deleted_image_by_hash hash =
      on_images
        (λ k t. (env.images.first_unscoped k (λ i. str_eq i.file_hash hash && i.deleted) t, t))

  -- GetImageByIdentifier
  unfoldable pub get_image_by_identifier : String → Query Image
  get_image_by_identifier identifier =
      on_images (λ k t. (env.images.first k (has_identifier identifier) t, t))

  unfoldable pub after_updates : String → Result ℕ × Db → Result Image × Db
  unfolding get_image_by_identifier
  after_updates identifier (err e, db) = (err e, db)
  after_updates identifier (ok n, db) =
      if n == 0 then (err record_not_found, db) else get_image_by_identifier identifier db

  -- UpdateImageByIdentifier, for the columns that `columns` sets
  unfoldable pub update_image_by_identifier : String → (Image → Image) → Query Image
  unfolding after_updates
  update_image_by_identifier identifier columns db = after_updates identifier (
      on_images
        (λ k.
          env.images.updates k (has_identifier identifier)
            (λ i. record (columns i) { updated_at = env.now k }))
        db)

  -- GetImagesByIdentifiersAndUser and DeleteImagesByIdentifiersAndUser
  unfoldable pub get_images_by_identifiers_and_user : List String → ℕ → Query (List Image)
  get_images_by_identifiers_and_user [] user_id db = (ok [], db)
  get_images_by_identifiers_and_user (x ∷ xs) user_id db =
      on_images (λ k t. (env.images.find k (is_owned (x ∷ xs) user_id) t, t)) db

  unfoldable pub delete_images_by_identifiers_and_user : List String → ℕ → Query ℕ
  delete_images_by_identifiers_and_user [] user_id db = (ok 0, db)
  delete_images_by_identifiers_and_user (x ∷ xs) user_id db =
      on_images (λ k. env.images.delete k (is_owned (x ∷ xs) user_id)) db

  unfoldable pub rows_needed : Result ℕ × Db → Result (Unit {0}) × Db
  rows_needed (err e, db) = (err record_not_found, db)
  rows_needed (ok n, db) = (if n == 0 then err record_not_found else ok tt, db)

  -- DeleteImageByIdentifierAndUser: a failing statement affects no row and is reported as a missing
  -- one
  unfoldable pub delete_image_by_identifier_and_user : String → ℕ → Query (Unit {0})
  unfolding rows_needed
  delete_image_by_identifier_and_user identifier user_id db =
      if str_eq identifier ""
      then (err record_not_found, db)
      else rows_needed (
          on_images
            (λ k. env.images.delete k (λ i. has_identifier identifier i && i.user_id == user_id))
            db)

  -- ImageExists, CountImagesByUser and CountImagesByStorageConfig
  unfoldable pub image_exists : String → Query Bool
  image_exists identifier db =
      then_ok (λ n. ltb 0 n)
        (on_images (λ k t. (env.images.count k (has_identifier identifier) t, t)) db)

  unfoldable pub count_images_by_user : ℕ → Query ℕ
  count_images_by_user user_id =
      on_images (λ k t. (env.images.count k (λ i. i.user_id == user_id) t, t))

  unfoldable pub count_images_by_storage_config : ℕ → Query ℕ
  count_images_by_storage_config id =
      on_images (λ k t. (env.images.count k (λ i. i.storage_config_id == id) t, t))

  -- GetImageByIDAndUser and GetImagesByIDsAndUser
  unfoldable pub get_image_by_id_and_user : ℕ → ℕ → Query Image
  get_image_by_id_and_user id user_id =
      on_images (λ k t. (env.images.first k (λ i. i.id == id && i.user_id == user_id) t, t))

  unfoldable pub get_images_by_ids_and_user : List ℕ → ℕ → Query (List Image)
  get_images_by_ids_and_user [] user_id db = (ok [], db)
  get_images_by_ids_and_user (x ∷ xs) user_id db =
      on_images (λ k t. (env.images.find k (λ i. mem i.id (x ∷ xs) && i.user_id == user_id) t, t))
        db

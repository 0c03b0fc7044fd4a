-- ===== src/Services.antt =====
-- internal/image/common.go and database/repo/albums: what the upload and delete services share, with
-- the state they change and what they call outside the repository.
pub mod Triples
pub mod Total
pub mod Backed
use text.Mathlib.Text.{◌==◌ as str_eq}
use image_bed.Errors.{Error, Result, err, message, ok, wrap}
use image_bed.Models.{Image, failed}
use image_bed.Prelude.{
  Bool, List, String, any, if◌then◌else◌, none, not, select, some, suc, ℕ, ◌&&◌, ◌==◌, ◌∷◌,
}
use image_bed.Storage.{RegistryState, get_by_id, get_default}
use image_bed.Text.{decimal, ◌⧺◌}
use image_bed.Variants.{Db, Env, Query}

-- UploadSource; a size of 0 is an unknown one.
pub record UploadSource : Type 0 where
  pub file_name : String
  pub file_size : ℕ
  pub temp_file_path : String
  pub precomputed_hash : String

-- A background task.
pub data Job : Type 0 where
  warm_cache conversion : Image → Job
  local_conversion : Image → String → Job

-- A removal asked of the cache.
pub data Eviction : Type 0 where
  of_image of_image_data : String → Eviction
  of_image_variants : ℕ → Eviction

pub record Site : Type 0 where
  pub db : Db
  -- the rows (album_id, image_id) of `album_images`
  pub album_images : List (ℕ × ℕ)
  -- what the providers hold: provider and path
  pub files : List (ℕ × String)
  -- the uploaded files in the temporary directory
  pub temp_files : List String
  pub jobs : List Job
  pub evictions : List Eviction
  -- calls made outside the repository
  pub calls : ℕ

-- What the services call: the upload, the storage providers, known by a number, the pool, the cache,
-- and Go's libraries. The `n`-th call may return anything; time is read with a call.
pub record Outside : Type 0 where
  pub env : Env
  pub registry : RegistryState ℕ
  pub has_cache : Bool
  pub has_converter : Bool
  pub has_albums : Bool
  pub open_source : ℕ → UploadSource → Result (Unit {0})
  -- the first 512 bytes, or fewer
  pub read_header : ℕ → UploadSource → Result String
  pub detect_content_type : String → String
  -- the SHA256 of the header and the rest of the file, in hexadecimal
  pub copy_to_hash : ℕ → UploadSource → String → Result String
  pub seek_start : ℕ → UploadSource → Result (Unit {0})
  pub seek_current : ℕ → UploadSource → Result ℕ
  pub seek_end : ℕ → UploadSource → Result ℕ
  pub seek_to : ℕ → UploadSource → ℕ → Result (Unit {0})
  pub get_image_dimensions : ℕ → UploadSource → ℕ × ℕ
  -- the date as in "2006/01/02"
  pub date : ℕ → String
  -- filepath.Ext
  pub path_ext : String → String
  pub save_file : ℕ → ℕ → String → Result (Unit {0})
  pub delete_file : ℕ → ℕ → String → Result (Unit {0})
  pub stat_file : ℕ → ℕ → String → Result (Unit {0})
  pub accepts : ℕ → Job → Bool
  -- an album of the user, locked by the transaction
  pub find_album : ℕ → ℕ → ℕ → Result (Unit {0})
  pub link_image : ℕ → ℕ → ℕ → Result (Unit {0})
  pub unlink_images : ℕ → List ℕ → Result (Unit {0})
  pub commit : ℕ → Result (Unit {0})

abbrev pub Act : Type 0 → Type 0
Act A = Site → Result A × Site

module _ {A B : Type 0} where
  abbrev pub act_then : Result A → (A → Act B) → Act B
  act_then (ok a) f s = f a s
  act_then (err e) f s = (err e, s)

  infixl 5 ◌>>=◌ ◌>>◌
  -- `if err != nil { return err }`
  unfoldable pub ◌>>=◌ : Act A → (A → Act B) → Act B
  ◌>>=◌ m f s = let (r, s') = m s in act_then r f s'

  abbrev pub ◌>>◌ : Act A → Act B → Act B
  m >> k = m >>= λ _. k

module _ {A : Type 0} where
  unfoldable pub pure : A → Act A
  pure a s = (ok a, s)

  unfoldable pub throw : Error → Act A
  throw e s = (err e, s)

  -- the caller looks at the error
  unfoldable pub attempt : Act A → Act (Result A)
  attempt m s = let (r, s') = m s in (ok r, s')

  -- the error is replaced
  unfoldable pub failing_with : (Error → Error) → Act A → Act A
  failing_with f m s = let (r, s') = m s in (elim r [ ok a ↦ ok a | err e ↦ err (f e) ], s')

  unfoldable pub call : (ℕ → A) → Act A
  call f s = (ok (f s.calls), record s { calls = suc s.calls })

  unfoldable pub try_call : (ℕ → Result A) → Act A
  try_call f s = (f s.calls, record s { calls = suc s.calls })

  unfoldable pub query : Query A → Act A
  query q s = let (r, db) = q s.db in (r, record s { db = db })

module _ {A : Type 0} where
  abbrev pub committed : (ℕ → Result (Unit {0})) → Act A → Act A
  committed commit m = m >>= λ a. try_call commit >>= λ _. pure a

  abbrev pub rolled_back : Site → Result A → Site → Result A × Site
  rolled_back s (ok a) s' = (ok a, s')
  rolled_back s (err e) s' = (
    err e,
    record s' {
      db = record s'.db { variants = s.db.variants; images = s.db.images };
      album_images = s.album_images;
    },
  )

  -- gorm's Transaction: on an error, that of the commit included, the tables are as before
  unfoldable pub transaction : (ℕ → Result (Unit {0})) → Act A → Act A
  transaction commit m s = let (r, s') = committed commit m s in rolled_back s r s'

unfoldable pub change_site : (Site → Site) → Act (Unit {0})
change_site f s = (ok tt, f s)

abbrev pub has_file : ℕ → String → List (ℕ × String) → Bool
has_file provider path files = any (λ f. f.0 == provider && str_eq f.1 path) files

abbrev pub without_file : ℕ → String → List (ℕ × String) → List (ℕ × String)
without_file provider path files = select (λ f. not (f.0 == provider && str_eq f.1 path)) files

module _ (o : Outside) where
  -- getStorageProviderByID
  unfoldable pub get_storage_provider_by_id : ℕ → Result ℕ
  get_storage_provider_by_id storage_id =
      if storage_id == 0
      then (elim (get_default o.registry) [
        | none ↦ err (message "no default storage configured")
        | some p ↦ ok p
      ])
      else (elim (get_by_id storage_id o.registry) [
        | ok p ↦ ok p
        | err e ↦ err (wrap ("failed to get storage provider by ID " ⧺ decimal storage_id) e)
      ])

  -- provider.SaveWithContext, DeleteWithContext and Exists
  unfoldable pub save : ℕ → String → Act (Unit {0})
  save provider path = do
    try_call (λ n. o.save_file n provider path)
    change_site (λ s. record s { files = (provider, path) ∷ s.files })

  unfoldable pub remove : ℕ → String → Act (Unit {0})
  remove provider path = do
    try_call (λ n. o.delete_file n provider path)
    change_site (λ s. record s { files = without_file provider path s.files })

  unfoldable pub exists : ℕ → String → Act Bool
  exists provider path = do
    try_call (λ n. o.stat_file n provider path)
    λ s. (ok (has_file provider path s.files), s)

  unfoldable pub note_job : Job → Bool → Act Bool
  note_job job accepted s = (ok accepted, if accepted then record s { jobs = job ∷ s.jobs } else s)

  -- submitBackgroundTask: a full queue drops the task
  unfoldable pub submit_background_task : Job → Act Bool
  unfolding note_job
  submit_background_task job = do accepted ← call (λ n. o.accepts n job); note_job job accepted

  -- cacheHelper.Delete…, whose failure is logged; without a cache there is nothing to do
  unfoldable pub evict : Eviction → Act (Unit {0})
  evict e = change_site (λ s. if o.has_cache then record s { evictions = e ∷ s.evictions } else s)

  -- AddImageToAlbum
  unfoldable pub add_image_to_album : ℕ → ℕ → Image → Act (Unit {0})
  add_image_to_album album_id user_id image = do
    try_call (λ n. o.find_album n album_id user_id)
    try_call (λ n. o.link_image n album_id image.id)
    try_call o.commit
    change_site (λ s. record s { album_images = (album_id, image.id) ∷ s.album_images })

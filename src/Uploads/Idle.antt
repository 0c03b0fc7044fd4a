-- ===== src/Uploads/Idle.antt =====
-- The steps of internal/image/write_service.go that neither touch the temporary files nor submit a
-- task with one.
use text.Mathlib.Text.{◌==◌ as str_eq}
use image_bed.Errors.{Error, Result, err, ok}
use image_bed.Models.{Image}
use image_bed.Prelude.{
  Bool, List, Option, String, false, if◌then◌else◌, ltb, none, not, refl, select, some, true, ℕ,
  ◌&&◌, ◌∙◌, ◌∷◌, ◌≡◌,
}
use image_bed.Services.{
  Act, Job, Outside, Site, UploadSource, act_then, add_image_to_album, attempt, call, change_site,
  conversion, exists, failing_with, local_conversion, note_job, pure, query, remove, save,
  submit_background_task, throw, try_call, warm_cache, ◌>>=◌,
}
use image_bed.Uploads.{
  add_to_default_album, can_reuse_soft_deleted_image, create_deduped_image_record, file_exists,
  get_upload_source_size, hash_of_source, need_image, roll_back_file, submit_convert,
  submit_warm_cache,
}
use image_bed.Variants.{Query}

-- A task that converts the file at a path, and the tasks submitted with it.
abbrev pub carries : String → Job → Bool
carries path (warm_cache img) = false
carries path (conversion img) = false
carries path (local_conversion img file) = str_eq file path

abbrev pub handed : String → Site → List Job
handed path s = select (carries path) s.jobs

-- The temporary files and the tasks with the file at the path are as before.
abbrev pub Alike : String → Site → Site → Type 0
Alike path before s = (s.temp_files ≡ before.temp_files) × (handed path s ≡ handed path before)

pub record IsIdle {A : Type 0} (path : String) (m : Act A) : Type 0 where
  pub idle : (s : Site) → Alike path s (m s).1

module _ {A : Type 0} (path : String) where
  pub pure-IsIdle : (a : A) → IsIdle path (pure a)
  unfolding pure
  pure-IsIdle a = record { idle = λ s. (refl, refl) }

  pub throw-IsIdle : (e : Error) → IsIdle path (throw {A = A} e)
  unfolding throw
  throw-IsIdle e = record { idle = λ s. (refl, refl) }

  pub call-IsIdle : (f : ℕ → A) → IsIdle path (call f)
  unfolding call
  call-IsIdle f = record { idle = λ s. (refl, refl) }

  pub try_call-IsIdle : (f : ℕ → Result A) → IsIdle path (try_call f)
  unfolding try_call
  try_call-IsIdle f = record { idle = λ s. (refl, refl) }

  pub query-IsIdle : (q : Query A) → IsIdle path (query q)
  unfolding query
  query-IsIdle q = record { idle = λ s. (refl, refl) }

  pub attempt-IsIdle : {m : Act A} → IsIdle path m → IsIdle path (attempt m)
  unfolding attempt
  attempt-IsIdle k = record { idle = k.idle }

  pub failing_with-IsIdle :
      {m : Act A} (f : Error → Error) → IsIdle path m → IsIdle path (failing_with f m)
  unfolding failing_with
  failing_with-IsIdle f k = record { idle = k.idle }

  pub if-IsIdle :
      {m n : Act A} (b : Bool) → IsIdle path m → IsIdle path n → IsIdle path (if b then m else n)
  if-IsIdle true k h = k
  if-IsIdle false k h = h

module _ {A B : Type 0} (path : String) where
  then-Alike :
      (before s : Site) (r : Result A) (f : A → Act B)
      → Alike path before s
      → ((a : A) → IsIdle path (f a))
      → Alike path before (act_then r f s).1
  then-Alike before s (ok a) f (files, jobs) h = (((h a).idle s).0 ∙ files, ((h a).idle s).1 ∙ jobs)
  then-Alike before s (err e) f same h = same

  pub bind-IsIdle :
      {m : Act A} {f : A → Act B}
      → IsIdle path m
      → ((a : A) → IsIdle path (f a))
      → IsIdle path (m >>= f)
  unfolding ◌>>=◌
  bind-IsIdle {m = m} {f = f} k h = record {
    idle = λ s. then-Alike s (m s).1 (m s).0 f (k.idle s) h;
  }

module _ (o : Outside) (path : String) where
  -- A task that does not carry the file.
  pub submit-IsIdle :
      (job : Job) → carries path job ≡ false → IsIdle path (submit_background_task o job)
  unfolding submit_background_task note_job
  submit-IsIdle job other =
      bind-IsIdle path (call-IsIdle path _) λ accepted. record { idle = λ s. noted accepted s }
    where
      noted :
          (b : Bool) (s : Site) → Alike path s (if b then record s { jobs = job ∷ s.jobs } else s)
      noted true s = (refl, rw other refl)
      noted false s = (refl, refl)

  pub submit_warm_cache-IsIdle : (img : Image) → IsIdle path (submit_warm_cache o img)
  unfolding submit_warm_cache
  submit_warm_cache-IsIdle img = submit-IsIdle (warm_cache img) refl

  pub submit_convert-IsIdle : (img : Image) → IsIdle path (submit_convert o img)
  unfolding submit_convert
  submit_convert-IsIdle img =
      if-IsIdle path o.has_converter
        (bind-IsIdle path (submit-IsIdle (conversion img) refl) λ _. pure-IsIdle path tt)
        (pure-IsIdle path tt)

  pub save-IsIdle : (provider : ℕ) (file : String) → IsIdle path (save o provider file)
  unfolding save change_site
  save-IsIdle provider file =
      bind-IsIdle path (try_call-IsIdle path _) λ _. record { idle = λ s. (refl, refl) }

  remove-IsIdle : (provider : ℕ) (file : String) → IsIdle path (remove o provider file)
  unfolding remove change_site
  remove-IsIdle provider file =
      bind-IsIdle path (try_call-IsIdle path _) λ _. record { idle = λ s. (refl, refl) }

  pub can_reuse-IsIdle : (img : Image) → IsIdle path (can_reuse_soft_deleted_image o img)
  unfolding can_reuse_soft_deleted_image file_exists exists
  can_reuse-IsIdle img = if-IsIdle path (str_eq img.storage_path "") (pure-IsIdle path false) (
      bind-IsIdle path (query-IsIdle path _)
        λ n. if-IsIdle path (ltb 0 n) (pure-IsIdle path true) (record { idle = look _ }))
    where
      look :
          (r : Result ℕ) (s : Site)
          → Alike path s (act_then r (λ provider. exists o provider img.storage_path) s).1
      look (err e) s = (refl, refl)
      look (ok provider) s =
          unfold exists in
          (bind-IsIdle path (try_call-IsIdle path _) λ _. record { idle = λ s. (refl, refl) }).idle
            s

  pub get_upload_source_size-IsIdle :
      (source : UploadSource) → IsIdle path (get_upload_source_size o source)
  unfolding get_upload_source_size
  get_upload_source_size-IsIdle source =
      if-IsIdle path (ltb 0 source.file_size) (pure-IsIdle path _) (
        bind-IsIdle path (try_call-IsIdle path _) λ _.
          bind-IsIdle path (try_call-IsIdle path _)
            λ size. bind-IsIdle path (try_call-IsIdle path _) λ _. pure-IsIdle path size)

  pub roll_back_file-IsIdle :
      (provider : ℕ) (file : String) (r : Result Image)
      → IsIdle path (roll_back_file o provider file r)
  unfolding roll_back_file
  roll_back_file-IsIdle provider file (ok img) = pure-IsIdle path img
  roll_back_file-IsIdle provider file (err e) =
      bind-IsIdle path (attempt-IsIdle path (remove-IsIdle provider file)) λ _. throw-IsIdle path _

  pub add_to_default_album-IsIdle :
      (album_id user_id : ℕ) (img : Image)
      → IsIdle path (add_to_default_album o album_id user_id img)
  unfolding add_to_default_album add_image_to_album change_site
  add_to_default_album-IsIdle album_id user_id img =
      if-IsIdle path (ltb 0 album_id && o.has_albums)
        (bind-IsIdle path
          (attempt-IsIdle path (
            bind-IsIdle path (try_call-IsIdle path _) λ _.
              bind-IsIdle path (try_call-IsIdle path _) λ _.
                bind-IsIdle path (try_call-IsIdle path _) λ _. record { idle = λ s. (refl, refl) }))
          λ _. pure-IsIdle path tt)
        (pure-IsIdle path tt)

  pub hash_of_source-IsIdle :
      (source : UploadSource) (header : String) → IsIdle path (hash_of_source o source header)
  unfolding hash_of_source
  hash_of_source-IsIdle source header =
      if-IsIdle path (not (str_eq source.precomputed_hash "")) (pure-IsIdle path _)
        (failing_with-IsIdle path _ (try_call-IsIdle path _))

  pub need_image-IsIdle : (mime : Option String) → IsIdle path (need_image o mime)
  unfolding need_image
  need_image-IsIdle none = throw-IsIdle path _
  need_image-IsIdle (some mime) = pure-IsIdle path mime

  pub create_deduped-IsIdle :
      (img : Image) (user_id : ℕ) (name : String) (is_public : Bool)
      → IsIdle path (create_deduped_image_record o img user_id name is_public)
  unfolding create_deduped_image_record
  create_deduped-IsIdle img user_id name is_public =
      bind-IsIdle path (call-IsIdle path _) λ _. query-IsIdle path _

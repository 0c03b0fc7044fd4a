-- ===== src/Pipeline/Run.antt =====
-- getProcessingFilePath and runPipeline of pipeline_task.go.
use text.Mathlib.Text.{◌==◌ as str_eq}
use image_bed.Errors.{Error, Result, err, error_text, message, ok, wrap}
use image_bed.Models.{ImageVariantStatus}
use image_bed.Pipeline.Decide.{resolve_image_variant_status}
use image_bed.Pipeline.Generate.{
  add_temp, generate_avif, generate_thumbnail, generate_webp, removing_on_failure,
}
use image_bed.Pipeline.Track.{
  delete_cache_on_terminal_state, delete_tracked_variant, mark_variant_failed, save_variant_results,
  set_image_variant_status,
}
use image_bed.Pipeline.World.{
  Exec, ImageInfo, Outcome, PipelineResult, Task, Tools, World, attempt, call, deferring, done,
  modify, pure, reads, remove_file, throw, wrapping, ◌>>=◌, ◌>>◌,
}
use image_bed.Prelude.{
  Bool, Option, String, false, if◌then◌else◌, ltb, none, some, true, ℕ, ◌&&◌, ◌*◌, ◌+◌, ◌==◌, ◌||◌,
}
use image_bed.Settings.{ImageProcessingSettings}
use image_bed.Text.{decimal, ◌⧺◌}

abbrev pub megabyte : ℕ
megabyte = 1024 * 1024

-- The cleanup that getProcessingFilePath returns: nothing for a file of the storage, or the removal
-- of a temporary file.
pub data Cleanup : Type 0 where
  keeping : Cleanup
  removing : String → Cleanup

abbrev pub run_cleanup : Cleanup → World → World
run_cleanup keeping w = w
run_cleanup (removing path) w = remove_file path w

-- The limit of a download: 50 MB, or what the settings say.
abbrev pub max_download : Option ImageProcessingSettings → ℕ
max_download none = 50 * megabyte
max_download (some s) =
    if ltb 0 s.max_file_size_mb then s.max_file_size_mb * megabyte else 50 * megabyte

-- What became of one variant: not asked for, failed, skipped, or made.
pub data Made : Type 0 where
  absent broken skipped : Made
  made : PipelineResult → Made

abbrev pub is_broken : Made → Bool
is_broken broken = true
is_broken _ = false

abbrev pub is_skipped : Made → Bool
is_skipped skipped = true
is_skipped _ = false

abbrev pub result_in : Made → Option PipelineResult
result_in (made r) = some r
result_in _ = none

abbrev pub is_made : Made → Bool
is_made (made _) = true
is_made _ = false

abbrev pub has_error : Option Error → Bool
has_error none = false
has_error (some _) = true

module _ (tools : Tools) (t : Task) where
  unfoldable pub finish_download : String → ℕ → ℕ → Exec (Unit {0})
  finish_download tmp max_size copied =
      if ltb max_size copied
      then throw (message ("file exceeds max size " ⧺ decimal max_size ⧺ " bytes"))
      else wrapping "close temp file" (call (λ n. tools.close_file n tmp))

  unfoldable pub read_download : String → ℕ → Exec (Unit {0})
  unfolding finish_download
  read_download tmp max_size = do
    wrapping "get stream" (call (λ n. tools.get_stream n t.storage_path))
    copied ← wrapping "write temp file" (call (λ n. tools.copy_stream n (max_size + 1)))
    finish_download tmp max_size copied

  unfoldable pub download : Exec (String × Cleanup)
  unfolding read_download removing_on_failure
  download = do
    wrapping "create temp dir" (call tools.mkdir_temp)
    tmp ← wrapping "create temp file" (call tools.create_temp)
    modify (add_temp tmp)
    (λ w. removing_on_failure tmp (read_download tmp (max_download t.settings) w))
    pure (tmp, removing tmp)

  unfoldable pub from_provider : Option (ℕ → String → Outcome String) → Exec (String × Cleanup)
  unfolding download
  from_provider none = download
  from_provider (some path_of) = do
    path ← wrapping "get file path" (call (λ n. path_of n t.storage_path))
    pure (path, keeping)

  unfoldable pub from_storage : Exec (String × Cleanup)
  unfolding from_provider
  from_storage = from_provider tools.get_file_path

  unfoldable pub staged_or_stored : String → Bool → Exec (String × Cleanup)
  unfolding from_storage
  staged_or_stored path exists = do
    modify (λ w. record w { local_file_path = "" })
    if exists then pure (path, removing path) else from_storage

  -- getProcessingFilePath: the path and the cleanup that the caller defers
  unfoldable pub get_processing_file_path : Exec (String × Cleanup)
  unfolding staged_or_stored
  get_processing_file_path = do
    path ← reads (λ w. w.local_file_path)
    if str_eq path ""
        then from_storage
        else do exists ← call (λ n. done (tools.stat n path)); staged_or_stored path exists

  -- The three identical reactions to an error before any variant was tried.
  unfoldable pub fail_asked : String → Exec (Unit {0})
  unfolding mark_variant_failed
  fail_asked err_msg = do
    mark_variant_failed tools t t.thumb_variant_id err_msg
    mark_variant_failed tools t t.webp_variant_id err_msg
    mark_variant_failed tools t t.avif_variant_id err_msg

  unfoldable pub settle_made : ℕ → Result (Option PipelineResult) → Exec Made
  unfolding mark_variant_failed delete_tracked_variant
  settle_made id (err e) = do mark_variant_failed tools t id (error_text e); pure broken
  settle_made id (ok none) = do delete_tracked_variant tools t id; pure skipped
  settle_made id (ok (some r)) = pure (made r)

  -- `if id > 0 { result, err := …; switch … }`
  unfoldable pub try_variant : ℕ → Exec (Option PipelineResult) → Exec Made
  unfolding settle_made
  try_variant id generate =
      if ltb 0 id then (do r ← attempt generate; settle_made id r) else pure absent

  unfoldable pub load_failed : Error → Exec (Option ImageInfo)
  unfolding mark_variant_failed
  load_failed e = do
    mark_variant_failed tools t t.webp_variant_id ("load image: " ⧺ error_text e)
    mark_variant_failed tools t t.avif_variant_id ("load image: " ⧺ error_text e)
    pure none

  unfoldable pub after_load : Result ImageInfo → Exec (Option ImageInfo)
  unfolding load_failed
  after_load (ok info) = pure (some info)
  after_load (err e) = load_failed e

  abbrev pub needs_load : Bool
  needs_load = ltb 0 t.webp_variant_id || ltb 0 t.avif_variant_id

  -- The decoding that WebP and AVIF share; `none` where it failed or was not needed.
  unfoldable pub pre_load : String → Exec (Option ImageInfo)
  unfolding after_load
  pre_load file_path =
      if needs_load
      then (do r ← attempt (call (λ n. tools.load_image n file_path)); after_load r)
      else pure none

  abbrev pub load_broke : Option ImageInfo → Bool
  load_broke none = needs_load
  load_broke (some _) = false

  -- The variants, the decoded image, and whether saving gave an error.
  pub record Attempts : Type 0 where
    pub thumb : Made
    pub origin : Option ImageInfo
    pub webp : Made
    pub avif : Made

  abbrev pub has_success : Attempts → Bool
  has_success a = is_made a.thumb || is_made a.webp || is_made a.avif

  -- an AVIF counts only where no WebP was asked for
  abbrev pub has_broken : Attempts → Bool
  has_broken a =
      is_broken a.thumb
      || load_broke a.origin
      || is_broken a.webp
      || (is_broken a.avif && t.webp_variant_id == 0)

  unfoldable pub try_all : String → Exec Attempts
  unfolding try_variant pre_load generate_thumbnail generate_webp generate_avif
  try_all file_path = do
    thumb ← try_variant t.thumb_variant_id (generate_thumbnail tools t file_path)
    origin ← pre_load file_path
    webp ← try_variant t.webp_variant_id (generate_webp tools t file_path origin)
    avif ← try_variant t.avif_variant_id (generate_avif tools t file_path (result_in webp) origin)
    pure (record { thumb = thumb; origin = origin; webp = webp; avif = avif })

  unfoldable pub save_all : Attempts → Exec (Option Error)
  unfolding save_variant_results
  save_all a =
      if has_success a
      then save_variant_results tools t (result_in a.thumb) (result_in a.webp) (result_in a.avif)
      else pure none

  abbrev pub final_status : Attempts → ImageVariantStatus
  final_status a =
      resolve_image_variant_status (ltb 0 t.thumb_variant_id) (ltb 0 t.webp_variant_id)
        (ltb 0 t.avif_variant_id) (is_made a.thumb) (is_made a.webp) (is_made a.avif)
        (is_skipped a.thumb) (is_skipped a.webp) (is_skipped a.avif)

  unfoldable pub conclude : Attempts → Option Error → Exec (Unit {0})
  unfolding set_image_variant_status delete_cache_on_terminal_state resolve_image_variant_status
  conclude a e = if has_broken a || has_error e then throw (message "some variants failed") else (do
    set_image_variant_status tools t (final_status a)
    delete_cache_on_terminal_state tools t)

  unfoldable pub without_file : Error → Exec (Unit {0})
  unfolding fail_asked
  without_file e = do fail_asked ("get file: " ⧺ error_text e); throw (wrap "get processing file" e)

  unfoldable pub with_file : Result (String × Cleanup) → Exec (Unit {0})
  unfolding try_all save_all conclude without_file
  with_file (err e) = without_file e
  with_file (ok (path, cleanup)) =
      deferring (run_cleanup cleanup) (do a ← try_all path; e ← save_all a; conclude a e)

  -- runPipeline
  unfoldable pub run_pipeline : Exec (Unit {0})
  unfolding get_processing_file_path with_file
  run_pipeline = do file ← attempt get_processing_file_path; with_file file

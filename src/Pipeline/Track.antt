-- ===== src/Pipeline/Track.antt =====
-- The tracked variants of a task: markVariantFailed, deleteTrackedVariant, releaseTrackedVariant,
-- saveVariantResults, finalize and the heartbeat of pipeline_task.go. Log lines are left out.
use text.Mathlib.Text.{◌==◌ as str_eq}
use image_bed.Errors.{Error, Result, err, error_text, ok}
use image_bed.Images.{touch_variant_processing_status, update_variant_status}
use image_bed.InFlight.{update_lease}
use image_bed.Models.{ImageVariantStatus, VariantStatus, failed, has_failed, pending, processing}
use image_bed.Pipeline.World.{
  Exec, Outcome, PipelineResult, Task, Tools, World, attempt, done, fail, modify, panic, pure,
  query, ◌>>=◌, ◌>>◌,
}
use image_bed.Prelude.{
  List, Option, String, [], if◌then◌else◌, ltb, none, not, some, ℕ, ◌&&◌, ◌==◌, ◌∷◌,
}
use image_bed.Text.{◌⧺◌}
use image_bed.Variants.{
  Db, Query, delete_variant, touch_processing, update_completed, update_failed, update_status_cas,
}

abbrev pub ids_of : Task → List ℕ
ids_of t = t.thumb_variant_id ∷ t.webp_variant_id ∷ t.avif_variant_id ∷ []

abbrev pub remove_id : ℕ → List ℕ → List ℕ
remove_id id [] = []
remove_id id (x ∷ xs) = let rest = remove_id id xs in if x == id then rest else x ∷ rest

module _ (tools : Tools) (t : Task) where
  -- syncInFlightTracking
  unfoldable pub sync_in_flight_tracking : World → World
  sync_in_flight_tracking w = record w {
    registry = update_lease w.lease t.image_id w.acquired w.registry;
  }

  unfoldable pub release_tracked_variant : ℕ → World → World
  unfolding sync_in_flight_tracking
  release_tracked_variant id w = elim w.acquired [
    | [] ↦ w
    | _ ∷ _ ↦
        if id == 0
        then w
        else sync_in_flight_tracking (record w { acquired = remove_id id w.acquired })
  ]

  -- What follows an operation: an error returns, success releases the variant.
  unfoldable pub settled_by : ℕ → Result (Unit {0}) → World → World
  unfolding release_tracked_variant
  settled_by id (ok _) w = release_tracked_variant id w
  settled_by id (err _) w = w

  -- An operation after which the variant is no longer the task's, unless it failed.
  unfoldable pub settle_variant : ℕ → Query (Unit {0}) → Exec (Unit {0})
  unfolding settled_by
  settle_variant id op w =
      let (r, db) = op w.db in (done tt, settled_by id r (record w { db = db }))

  unfoldable pub mark_variant_failed : ℕ → String → Exec (Unit {0})
  unfolding settle_variant
  mark_variant_failed id err_msg =
      if id == 0 then pure tt else settle_variant id (update_failed tools.env id err_msg)

  unfoldable pub delete_tracked_variant : ℕ → Exec (Unit {0})
  unfolding settle_variant
  delete_tracked_variant id =
      if id == 0 then pure tt else settle_variant id (delete_variant tools.env id)

  unfoldable pub after_update : ℕ → Result (Unit {0}) → Exec (Option Error)
  unfolding mark_variant_failed
  after_update id (ok _) = do modify (release_tracked_variant id); pure none
  after_update id (err e) = do
    mark_variant_failed id ("failed to persist result: " ⧺ error_text e)
    pure (some e)

  unfoldable pub persist_by : ℕ → Query (Unit {0}) → Exec (Option Error)
  unfolding after_update
  persist_by id op w = let (r, db) = op w.db in after_update id r (record w { db = db })

  -- One block of saveVariantResults; the result is the error of UpdateCompleted.
  unfoldable pub persist : ℕ → Option PipelineResult → Exec (Option Error)
  unfolding persist_by
  persist id none = pure none
  persist id (some r) =
      if id == 0
      then pure none
      else persist_by id (
          update_completed tools.env id (tools.base_name r.storage_path) r.storage_path r.file_size
            r.file_hash r.width r.height)

  abbrev first_error : Option Error → Option Error → Option Error
  first_error none e = e
  first_error (some e) _ = some e

  -- saveVariantResults: an AVIF error counts only without a WebP variant
  unfoldable pub save_variant_results :
      (thumb webp avif : Option PipelineResult) → Exec (Option Error)
  unfolding persist
  save_variant_results thumb webp avif = do
    e₁ ← persist t.thumb_variant_id thumb
    e₂ ← persist t.webp_variant_id webp
    e₃ ← persist t.avif_variant_id avif
    pure (first_error e₁ (first_error e₂ (if t.webp_variant_id == 0 then e₃ else none)))

  -- deleteCacheOnTerminalState; an error of the cache is logged
  unfoldable pub delete_cache_on_terminal_state : Exec (Unit {0})
  delete_cache_on_terminal_state = modify λ w.
      if tools.has_cache && not (str_eq t.image_identifier "")
      then record w {
        evicted_images = t.image_identifier ∷ w.evicted_images;
        evicted_variants =
            if ltb 0 t.image_id then t.image_id ∷ w.evicted_variants else w.evicted_variants;
      }
      else w

  -- `_ = t.ImageRepo.UpdateVariantStatus(…)`
  unfoldable pub set_image_variant_status : ImageVariantStatus → Exec (Unit {0})
  set_image_variant_status s =
      attempt (query (update_variant_status tools.env t.image_id s)) >>= λ _. pure tt

  unfoldable pub touch_image : Exec (Unit {0})
  touch_image =
      if ltb 0 t.image_id
      then (do attempt (query (touch_variant_processing_status tools.env t.image_id)); pure tt)
      else pure tt

  -- touchProcessingState: the first beat of startProcessingHeartbeat. The later ones, on a ticker,
  -- write the same columns.
  unfoldable pub touch_processing_state : List ℕ → Exec (Unit {0})
  unfolding touch_image
  touch_processing_state ids = do attempt (query (touch_processing tools.env ids)); touch_image

  -- The loops of finalize: UpdateStatusCAS from processing, for each tracked id.
  unfoldable pub roll_back : VariantStatus → String → List ℕ → Db → Db
  roll_back status err_msg [] db = db
  roll_back status err_msg (id ∷ ids) db =
      let (_, db') = update_status_cas tools.env id processing status err_msg db in
      roll_back status err_msg ids db'

  -- finalize, with the outcome of the body: a panic is recovered
  unfoldable pub finalize : Outcome (Unit {0}) × World → World
  unfolding roll_back set_image_variant_status
  finalize (done _, w) = record w { db = roll_back pending "" w.acquired w.db }
  finalize (fail _, w) = record w { db = roll_back pending "" w.acquired w.db }
  finalize (panic s, w) =
      let w' = record w { db = roll_back failed ("panic: " ⧺ s) w.acquired w.db } in
      (set_image_variant_status has_failed w').1

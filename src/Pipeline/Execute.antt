-- ===== src/Pipeline/Execute.antt =====
-- Execute of pipeline_task.go: acquire the variants, take a slot, run, and clean up on each way out.
use text.Mathlib.Text.{◌==◌ as str_eq}
use image_bed.Errors.{Result, err, error_text, ok}
use image_bed.InFlight.{begin_in_flight_task, release_lease}
use image_bed.Models.{has_failed, pending, processing}
use image_bed.Pipeline.Run.{fail_asked, run_pipeline}
use image_bed.Pipeline.Track.{
  delete_cache_on_terminal_state, finalize, set_image_variant_status, touch_processing_state,
}
use image_bed.Pipeline.World.{
  Exec, Task, Tools, World, attempt, call, deferring, modify, pure, query, reads, remove_file,
  ◌>>=◌, ◌>>◌,
}
use image_bed.Prelude.{Bool, [], false, if◌then◌else◌, ltb, none, true, ℕ, ◌++◌, ◌+◌, ◌-◌, ◌∷◌}
use image_bed.Text.{◌⧺◌}
use image_bed.Variants.{update_status_cas}

module _ (tools : Tools) (t : Task) where
  unfoldable pub after_cas : ℕ → Result Bool → Exec Bool
  after_cas id (ok true) = do modify (λ w. record w { acquired = w.acquired ++ id ∷ [] }); pure true
  after_cas id (ok false) = pure false
  after_cas id (err e) = pure false

  -- pending → processing for one variant; `false` ends Execute
  unfoldable pub acquire_variant : ℕ → Exec Bool
  unfolding after_cas
  acquire_variant id =
      if ltb 0 id
      then (do
        r ← attempt (query (update_status_cas tools.env id pending processing ""))
        after_cas id r)
      else pure true

  -- semaphore.Acquire and the deferred Release
  unfoldable pub acquire_slot : Exec (Unit {0})
  acquire_slot = do call tools.acquire_slot; modify (λ w. record w { slots = w.slots + 1 })

  abbrev pub release_slot : World → World
  release_slot w = record w { slots = w.slots - 1 }

  abbrev pub release_in_flight : World → World
  release_in_flight w = record w { registry = release_lease w.lease w.registry }

  unfoldable pub report_failure : Exec (Unit {0})
  unfolding set_image_variant_status delete_cache_on_terminal_state
  report_failure = do
    set_image_variant_status tools t has_failed
    delete_cache_on_terminal_state tools t

  unfoldable pub after_run : Result (Unit {0}) → Exec (Unit {0})
  unfolding report_failure
  after_run (ok _) = pure tt
  after_run (err _) = report_failure

  unfoldable pub run_in_slot : Exec (Unit {0})
  unfolding after_run touch_processing_state run_pipeline
  run_in_slot = do
    ids ← reads (λ w. w.acquired)
    touch_processing_state tools t ids
    r ← attempt (run_pipeline tools t)
    after_run r

  unfoldable pub after_slot : Result (Unit {0}) → Exec (Unit {0})
  unfolding run_in_slot fail_asked report_failure
  after_slot (ok _) = deferring release_slot run_in_slot
  after_slot (err e) = do fail_asked tools t ("semaphore: " ⧺ error_text e); report_failure

  unfoldable pub begin_lease : World → World
  unfolding begin_in_flight_task
  begin_lease w =
      let (lease, registry) = begin_in_flight_task t.image_id w.acquired w.registry in
      record w { lease = lease; registry = registry }

  -- From the acquired variants on.
  unfoldable pub process : Exec (Unit {0})
  unfolding begin_lease after_slot acquire_slot
  process = do
    modify begin_lease
    deferring release_in_flight (do r ← attempt acquire_slot; after_slot r)

  unfoldable pub acquire_all : Exec (Unit {0})
  unfolding acquire_variant process
  acquire_all = do
    thumb ← acquire_variant t.thumb_variant_id
    if thumb
        then (do
          webp ← acquire_variant t.webp_variant_id
          if webp
              then (do avif ← acquire_variant t.avif_variant_id; if avif then process else pure tt)
              else pure tt)
        else pure tt

  -- the deferred removal of a file that nobody consumed
  abbrev pub drop_local_file : World → World
  drop_local_file w = if str_eq w.local_file_path "" then w else remove_file w.local_file_path w

  -- Everything before `finalize`, which is deferred first and so runs last.
  unfoldable pub body : Exec (Unit {0})
  unfolding acquire_all
  body = deferring drop_local_file acquire_all

  unfoldable pub execute : World → World
  unfolding body finalize
  execute w = finalize tools t (body (record w { acquired = []; lease = none }))

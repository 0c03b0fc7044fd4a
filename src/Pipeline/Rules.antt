-- ===== src/Pipeline/Rules.antt =====
-- A whole run of the pipeline keeps every property that the operations of Pipeline.Track keep.
use image_bed.Errors.{Error, Result, err, ok}
use image_bed.Models.{ImageVariantStatus}
use image_bed.Pipeline.Keeps.{
  Keeps, Keeps-attempt, Keeps-bind, Keeps-deferring, Keeps-if, Keeps-pure, Keeps-throw,
}
use image_bed.Pipeline.Passive.{
  Passive, Passive-call, generate_avif-Keeps, generate_thumbnail-Keeps, generate_webp-Keeps,
  get_processing_file_path-Keeps, run_cleanup-Keeps,
}
use image_bed.Pipeline.Run.{
  Attempts, Cleanup, absent, after_load, broken, conclude, fail_asked, has_broken, has_error,
  has_success, load_failed, made, needs_load, pre_load, result_in, run_cleanup, run_pipeline,
  save_all, settle_made, skipped, try_all, try_variant, with_file, without_file,
}
use image_bed.Pipeline.Track.{
  delete_cache_on_terminal_state, delete_tracked_variant, ids_of, mark_variant_failed,
  save_variant_results, set_image_variant_status,
}
use image_bed.Pipeline.World.{Exec, ImageInfo, PipelineResult, Task, Tools, World}
use image_bed.Prelude.{Option, String, arith, ltb, mem, none, some, true, ℕ, ◌||◌, ◌≡◌}

pub record RunRules (tools : Tools) (t : Task) (P : World → Type 0) : Type 0 where
  pub passive : Passive P
  pub marks :
      (id : ℕ) (msg : String)
      → mem id (ids_of t) ≡ true
      → Keeps P (mark_variant_failed tools t id msg)
  pub deletes : (id : ℕ) → mem id (ids_of t) ≡ true → Keeps P (delete_tracked_variant tools t id)
  pub saves : (a b c : Option PipelineResult) → Keeps P (save_variant_results tools t a b c)
  pub sets : (s : ImageVariantStatus) → Keeps P (set_image_variant_status tools t s)
  pub evicts : Keeps P (delete_cache_on_terminal_state tools t)

module _ (tools : Tools) (t : Task) {P : World → Type 0} (rules : RunRules tools t P) where
  is_thumb : mem t.thumb_variant_id (ids_of t) ≡ true
  is_thumb = ground arith

  is_webp : mem t.webp_variant_id (ids_of t) ≡ true
  is_webp = ground arith

  is_avif : mem t.avif_variant_id (ids_of t) ≡ true
  is_avif = ground arith

  pub fail_asked-Keeps : (msg : String) → Keeps P (fail_asked tools t msg)
  unfolding fail_asked
  fail_asked-Keeps msg = Keeps-bind (rules.marks t.thumb_variant_id msg is_thumb) λ _.
      Keeps-bind (rules.marks t.webp_variant_id msg is_webp)
        λ _. rules.marks t.avif_variant_id msg is_avif

  settle_made-Keeps :
      (id : ℕ) (r : Result (Option PipelineResult))
      → mem id (ids_of t) ≡ true
      → Keeps P (settle_made tools t id r)
  unfolding settle_made
  settle_made-Keeps id (err e) mine = Keeps-bind (rules.marks id _ mine) (λ _. Keeps-pure broken)
  settle_made-Keeps id (ok none) mine = Keeps-bind (rules.deletes id mine) (λ _. Keeps-pure skipped)
  settle_made-Keeps id (ok (some r)) mine = Keeps-pure (made r)

  try_variant-Keeps :
      (id : ℕ) (generate : Exec (Option PipelineResult))
      → mem id (ids_of t) ≡ true
      → Keeps P generate
      → Keeps P (try_variant tools t id generate)
  unfolding try_variant
  try_variant-Keeps id generate mine k =
      Keeps-if (ltb 0 id) (Keeps-bind (Keeps-attempt k) (λ r. settle_made-Keeps id r mine))
        (Keeps-pure absent)

  after_load-Keeps : (r : Result ImageInfo) → Keeps P (after_load tools t r)
  unfolding after_load load_failed
  after_load-Keeps (ok info) = Keeps-pure (some info)
  after_load-Keeps (err e) =
      Keeps-bind (rules.marks t.webp_variant_id _ is_webp)
        λ _. Keeps-bind (rules.marks t.avif_variant_id _ is_avif) λ _. Keeps-pure none

  pre_load-Keeps : (path : String) → Keeps P (pre_load tools t path)
  unfolding pre_load
  pre_load-Keeps path =
      Keeps-if (needs_load tools t)
        (Keeps-bind (Keeps-attempt (Passive-call rules.passive _)) after_load-Keeps)
        (Keeps-pure none)

  try_all-Keeps : (path : String) → Keeps P (try_all tools t path)
  unfolding try_all
  try_all-Keeps path =
      Keeps-bind
        (try_variant-Keeps t.thumb_variant_id _ is_thumb
          (generate_thumbnail-Keeps rules.passive tools t path))
        λ thumb. Keeps-bind (pre_load-Keeps path) λ origin.
          Keeps-bind
            (try_variant-Keeps t.webp_variant_id _ is_webp
              (generate_webp-Keeps rules.passive tools t path origin))
            λ webp.
              Keeps-bind
                (try_variant-Keeps t.avif_variant_id _ is_avif
                  (generate_avif-Keeps rules.passive tools t path (result_in webp) origin))
                λ avif. Keeps-pure _

  save_all-Keeps : (a : Attempts tools t) → Keeps P (save_all tools t a)
  unfolding save_all
  save_all-Keeps a = Keeps-if (has_success tools t a) (rules.saves _ _ _) (Keeps-pure none)

  conclude-Keeps : (a : Attempts tools t) (e : Option Error) → Keeps P (conclude tools t a e)
  unfolding conclude
  conclude-Keeps a e =
      Keeps-if (has_broken tools t a || has_error e) (Keeps-throw _)
        (Keeps-bind (rules.sets _) (λ _. rules.evicts))

  with_file-Keeps : (r : Result (String × Cleanup)) → Keeps P (with_file tools t r)
  unfolding with_file without_file
  with_file-Keeps (err e) = Keeps-bind (fail_asked-Keeps _) (λ _. Keeps-throw _)
  with_file-Keeps (ok (path, cleanup)) =
      Keeps-deferring (run_cleanup cleanup) (run_cleanup-Keeps rules.passive tools t cleanup)
        (Keeps-bind (try_all-Keeps path) (λ a. Keeps-bind (save_all-Keeps a) (conclude-Keeps a)))

  pub run_pipeline-Keeps : Keeps P (run_pipeline tools t)
  unfolding run_pipeline
  run_pipeline-Keeps =
      Keeps-bind (Keeps-attempt (get_processing_file_path-Keeps rules.passive tools t))
        with_file-Keeps

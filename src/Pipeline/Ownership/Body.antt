-- ===== src/Pipeline/Ownership/Body.antt =====
-- Acquisition and everything before `finalize` keep the account of the variants.
use text.Mathlib.Text.{◌==◌ as str_eq}
use image_bed.Errors.{Result, err, ok}
use image_bed.Gorm.{scoped, update_where}
use image_bed.Gorm.Pairs.{AllPairs-update_where}
use image_bed.Models.{ImageVariant, has_failed, pending, processing}
use image_bed.Pipeline.Execute.{
  acquire_all, acquire_slot, acquire_variant, after_cas, after_run, after_slot, begin_lease, body,
  drop_local_file, process, report_failure, run_in_slot,
}
use image_bed.Pipeline.Keeps.{
  Keeps, Keeps-attempt, Keeps-bind, Keeps-deferring, Keeps-if, Keeps-modify, Keeps-pure,
}
use image_bed.Pipeline.Ownership.{RowTracked, Tracking}
use image_bed.Pipeline.Ownership.Operations.{
  delete_cache-Keeps, set_image_variant_status-Keeps, touch_processing_state-Keeps, tracks_passive,
  tracks_rules,
}
use image_bed.Pipeline.Ownership.Steps.{Tracks}
use image_bed.Pipeline.Passive.{Passive-call}
use image_bed.Pipeline.Rules.{fail_asked-Keeps, run_pipeline-Keeps}
use image_bed.Pipeline.Track.{ids_of}
use image_bed.Pipeline.World.{Task, Tools, World, attempt-query, modify, pure, reads, ◌>>=◌}
use image_bed.Prelude.{
  ==_refl, Bool, Bool-cases, List, [], arith, false, inl, inr, ltb, mem, mem-append, refl, true, ℕ,
  ◌++◌, ◌∷◌, ◌≡◌, ◌≢◌,
}
use image_bed.Variants.{cas_columns, has_status, update_status_cas, variant_schema}
use image_bed.Variants.Effects.{update_status_cas_runs}

module _ (tools : Tools) (t : Task) (before : List ImageVariant) where
  abbrev T : World → Type 0
  T = Tracks tools t before

  acquired_row :
      (acq : List ℕ) (id now : ℕ) (a b : ImageVariant)
      → mem id (ids_of t) ≡ true
      → RowTracked t acq a b
      → b.id ≡ id
      → RowTracked t (acq ++ id ∷ []) a (cas_columns processing "" now b)
  acquired_row acq id now a b mine r same = record {
    same_id = r.same_id;
    others = λ o. cc (o, r.same_id, same, mine);
    busy = λ h. inr (rw (mem-append, same) (ground (arith, ==_refl id)));
  }

  waiting_row :
      (acq : List ℕ) (id : ℕ) (a b : ImageVariant)
      → RowTracked t acq a b
      → RowTracked t (acq ++ id ∷ []) a b
  waiting_row acq id a b r = record {
    same_id = r.same_id;
    others = r.others;
    busy = λ h. ground (arith, r.busy h, mem-append b.id acq (id ∷ []));
  }

  Tracking-acquire :
      (id now : ℕ) (vs : List ImageVariant) (acq : List ℕ)
      → mem id (ids_of t) ≡ true
      → Tracking t before vs acq
      → Tracking t before
          (update_where
            (scoped variant_schema (has_status id pending))
            (cas_columns processing "" now)
            vs)
          (acq ++ id ∷ [])
  Tracking-acquire id now vs acq mine k = record {
    rows =
        AllPairs-update_where (RowTracked t acq) (RowTracked t (acq ++ id ∷ [])) _ _
          (λ a b r h. acquired_row acq id now a b mine r (ground arith))
          (λ a b r h. waiting_row acq id a b r) before vs k.rows;
    ours = λ i h. ground (arith, k.ours i, mem-append i acq (id ∷ []));
  }

  not_acquired-Keeps : (id : ℕ) (r : Result Bool) → r ≢ ok true → Keeps T (after_cas tools t id r)
  unfolding after_cas
  not_acquired-Keeps id (ok true) lost = absurd (lost refl)
  not_acquired-Keeps id (ok false) lost = Keeps-pure false
  not_acquired-Keeps id (err e) lost = Keeps-pure false

  after_cas-tracks :
      (id : ℕ) (w : World)
      → mem id (ids_of t) ≡ true
      → T w
      → let run = update_status_cas tools.env id pending processing "" w.db in
        T (after_cas tools t id run.0 (record w { db = run.1 })).1
  unfolding after_cas ◌>>=◌ modify pure
  after_cas-tracks id w mine k =
      elim (update_status_cas_runs tools.env id pending processing "" w.db) [
        | inl (lost, same) ↦
            (not_acquired-Keeps id _ lost).at
              (record w { db = (update_status_cas tools.env id pending processing "" w.db).1 })
              (rw same k)
        | inr (won, changed) ↦
            rw won (rw changed (Tracking-acquire id _ w.db.variants w.acquired mine k))
      ]

  acquire_variant-Keeps : (id : ℕ) → mem id (ids_of t) ≡ true → Keeps T (acquire_variant tools t id)
  unfolding acquire_variant
  acquire_variant-Keeps id mine =
      Keeps-if (ltb 0 id) (record { at = λ w k. rw attempt-query (after_cas-tracks id w mine k) })
        (Keeps-pure true)

  acquire_slot-Keeps : Keeps T (acquire_slot tools t)
  unfolding acquire_slot
  acquire_slot-Keeps =
      Keeps-bind (Passive-call (tracks_passive tools t before) _) (λ _. Keeps-modify _ (λ w k. k))

  report_failure-Keeps : Keeps T (report_failure tools t)
  unfolding report_failure
  report_failure-Keeps =
      Keeps-bind (set_image_variant_status-Keeps tools t before has_failed)
        (λ _. delete_cache-Keeps tools t before)

  after_run-Keeps : (r : Result (Unit {0})) → Keeps T (after_run tools t r)
  unfolding after_run
  after_run-Keeps (ok _) = Keeps-pure tt
  after_run-Keeps (err _) = report_failure-Keeps

  run_in_slot-Keeps : Keeps T (run_in_slot tools t)
  unfolding run_in_slot ◌>>=◌ reads
  run_in_slot-Keeps = record {
    at = λ w k.
        (Keeps-bind (touch_processing_state-Keeps tools t before w.acquired k.ours) (λ _.
            Keeps-bind (Keeps-attempt (run_pipeline-Keeps tools t (tracks_rules tools t before)))
              after_run-Keeps)).at
          w k;
  }

  after_slot-Keeps : (r : Result (Unit {0})) → Keeps T (after_slot tools t r)
  unfolding after_slot
  after_slot-Keeps (ok _) = Keeps-deferring _ (λ w k. k) run_in_slot-Keeps
  after_slot-Keeps (err e) =
      Keeps-bind (fail_asked-Keeps tools t (tracks_rules tools t before) _)
        (λ _. report_failure-Keeps)

  process-Keeps : Keeps T (process tools t)
  unfolding process begin_lease
  process-Keeps = Keeps-bind (Keeps-modify _ (λ w k. k)) λ _.
      Keeps-deferring _ (λ w k. k) (Keeps-bind (Keeps-attempt acquire_slot-Keeps) after_slot-Keeps)

  acquire_all-Keeps : Keeps T (acquire_all tools t)
  unfolding acquire_all
  acquire_all-Keeps = Keeps-bind (acquire_variant-Keeps t.thumb_variant_id (ground arith)) λ thumb.
      Keeps-if thumb
        (Keeps-bind (acquire_variant-Keeps t.webp_variant_id (ground arith)) λ webp.
          Keeps-if webp
            (Keeps-bind (acquire_variant-Keeps t.avif_variant_id (ground arith))
              λ avif. Keeps-if avif process-Keeps (Keeps-pure tt))
            (Keeps-pure tt))
        (Keeps-pure tt)

  pub body-Keeps : Keeps T (body tools t)
  unfolding body
  body-Keeps = Keeps-deferring _ drop acquire_all-Keeps
    where
      drop : (w : World) → T w → T (drop_local_file tools t w)
      drop w k = elim (Bool-cases (str_eq w.local_file_path "")) [ inl e ↦ rw e k | inr e ↦ rw e k ]

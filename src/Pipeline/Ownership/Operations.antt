-- ===== src/Pipeline/Ownership/Operations.antt =====
-- The operations of Pipeline.Track keep the account of the task's variants.
use text.Mathlib.Text.{◌==◌ as str_eq}
use image_bed.Gorm.{scoped, update_where}
use image_bed.Gorm.Pairs.{AllPairs-update_where}
use image_bed.Images.{touch_variant_processing_status, update_variant_status}
use image_bed.Models.{ImageVariant, ImageVariantStatus, is_status, processing}
use image_bed.Pipeline.Keeps.{
  Keeps, Keeps-attempt, Keeps-bind, Keeps-if, Keeps-modify, Keeps-pure, Keeps-query,
}
use image_bed.Pipeline.Ownership.{RowTracked, Tracking}
use image_bed.Pipeline.Ownership.Steps.{
  Tracking-release, Tracks, acquired-release_tracked_variant, db-release_tracked_variant,
  settle_variant-Keeps,
}
use image_bed.Pipeline.Passive.{Passive}
use image_bed.Pipeline.Rules.{RunRules}
use image_bed.Pipeline.Track.{
  after_update, delete_cache_on_terminal_state, delete_tracked_variant, ids_of, mark_variant_failed,
  persist, persist_by, save_variant_results, set_image_variant_status, touch_image,
  touch_processing_state,
}
use image_bed.Pipeline.World.{PipelineResult, Task, Tools, World, modify, pure, query, ◌>>=◌}
use image_bed.Prelude.{
  Bool-cases, List, Option, String, arith, inl, inr, ltb, mem, none, not, refl, some, true, ℕ, ◌&&◌,
  ◌==◌, ◌≡◌, ◌≢◌,
}
use image_bed.Variants.{Db, Query, touch_processing, variant_schema}
use image_bed.Variants.Effects.{
  Releases, delete_variant-Releases, touch_processing_runs, update_completed-Releases,
  update_failed-Releases,
}

module _ (tools : Tools) (t : Task) (before : List ImageVariant) where
  abbrev T : World → Type 0
  T = Tracks tools t before

  pub tracks_passive : Passive T
  tracks_passive = record { steady = λ w n temps objects images variants path grow k. k }

  pub mark_variant_failed-Keeps :
      (id : ℕ) (msg : String)
      → mem id (ids_of t) ≡ true
      → Keeps T (mark_variant_failed tools t id msg)
  unfolding mark_variant_failed
  mark_variant_failed-Keeps id msg mine = elim (Bool-cases (id == 0)) [
    | inl z ↦ rw z (Keeps-pure tt)
    | inr nz ↦ rw nz (
        settle_variant-Keeps tools t before id _ (update_failed-Releases tools.env id msg) mine
          (λ e. ground arith))
  ]

  pub delete_tracked_variant-Keeps :
      (id : ℕ) → mem id (ids_of t) ≡ true → Keeps T (delete_tracked_variant tools t id)
  unfolding delete_tracked_variant
  delete_tracked_variant-Keeps id mine = elim (Bool-cases (id == 0)) [
    | inl z ↦ rw z (Keeps-pure tt)
    | inr nz ↦ rw nz (
        settle_variant-Keeps tools t before id _ (delete_variant-Releases tools.env id) mine
          (λ e. ground arith))
  ]

  -- A failed UpdateCompleted is followed by UpdateFailed, a successful one by the release.
  persist_by-Keeps :
      (id : ℕ) (op : Query (Unit {0}))
      → Releases id op
      → mem id (ids_of t) ≡ true
      → id ≢ 0
      → Keeps T (persist_by tools t id op)
  unfolding persist_by after_update ◌>>=◌ modify pure
  persist_by-Keeps id op rel mine nz = record {
    at = λ w k. elim (rel.runs w.db) [
      | inl (e, failed', same) ↦ rw failed' (
          (Keeps-bind (mark_variant_failed-Keeps id _ mine) (λ _. Keeps-pure (some e))).at
            (record w { db = (op w.db).1 }) (rw same k))
      | inr (good, changed) ↦ rw good (
          rw
            (
              db-release_tracked_variant tools t before id _,
              acquired-release_tracked_variant tools t before id _ nz,
              changed,
            )
            (Tracking-release tools t before id op rel w.db w.db.variants w.acquired mine k))
    ];
  }

  persist-Keeps :
      (id : ℕ) (o : Option PipelineResult)
      → mem id (ids_of t) ≡ true
      → Keeps T (persist tools t id o)
  unfolding persist
  persist-Keeps id none mine = Keeps-pure none
  persist-Keeps id (some r) mine = elim (Bool-cases (id == 0)) [
    | inl z ↦ rw z (Keeps-pure none)
    | inr nz ↦ rw nz (
        persist_by-Keeps id _
          (update_completed-Releases tools.env id (tools.base_name r.storage_path) r.storage_path
            r.file_size r.file_hash r.width r.height)
          mine (λ e. ground arith))
  ]

  pub save_variant_results-Keeps :
      (a b c : Option PipelineResult) → Keeps T (save_variant_results tools t a b c)
  unfolding save_variant_results
  save_variant_results-Keeps a b c =
      Keeps-bind (persist-Keeps t.thumb_variant_id a (ground arith)) λ e₁.
        Keeps-bind (persist-Keeps t.webp_variant_id b (ground arith))
          λ e₂. Keeps-bind (persist-Keeps t.avif_variant_id c (ground arith)) λ e₃. Keeps-pure _

  pub images_only-Keeps :
      {A : Type 0} (q : Query A) → ((db : Db) → (q db).1.variants ≡ db.variants) → Keeps T (query q)
  images_only-Keeps q same = Keeps-query q (λ w k. rw same k)

  touch_row :
      (acq ids : List ℕ) (now : ℕ) (a b : ImageVariant)
      → ((i : ℕ) → mem i ids ≡ true → mem i (ids_of t) ≡ true)
      → RowTracked t acq a b
      → mem b.id ids ≡ true
      → RowTracked t acq a (record b { updated_at = now })
  touch_row acq ids now a b ours r hit = record {
    same_id = r.same_id;
    others = λ o. cc (o, r.same_id, ours b.id hit);
    busy = r.busy;
  }

  -- Rows in processing get a new time, which the account does not read.
  Tracking-touch :
      (acq ids : List ℕ) (now : ℕ) (vs : List ImageVariant)
      → ((i : ℕ) → mem i ids ≡ true → mem i (ids_of t) ≡ true)
      → Tracking t before vs acq
      → Tracking t before
          (update_where
            (scoped variant_schema (λ v. mem v.id ids && is_status v.status processing))
            (λ v. record v { updated_at = now })
            vs)
          acq
  Tracking-touch acq ids now vs ours k = record {
    rows =
        AllPairs-update_where (RowTracked t acq) (RowTracked t acq) _ _
          (λ a b r h. touch_row acq ids now a b ours r (ground arith)) (λ a b r h. r) before vs
          k.rows;
    ours = k.ours;
  }

  touch_image-Keeps : Keeps T (touch_image tools t)
  unfolding touch_image touch_variant_processing_status
  touch_image-Keeps =
      Keeps-if (ltb 0 t.image_id)
        (Keeps-bind (Keeps-attempt (images_only-Keeps _ (λ db. refl))) (λ _. Keeps-pure tt))
        (Keeps-pure tt)

  pub touch_processing_state-Keeps :
      (ids : List ℕ)
      → ((i : ℕ) → mem i ids ≡ true → mem i (ids_of t) ≡ true)
      → Keeps T (touch_processing_state tools t ids)
  unfolding touch_processing_state
  touch_processing_state-Keeps ids ours =
      Keeps-bind
        (Keeps-attempt (
          Keeps-query (touch_processing tools.env ids) (λ w k.
            elim (touch_processing_runs tools.env ids w.db) [
              | inl same ↦ rw same k
              | inr changed ↦ rw changed (Tracking-touch w.acquired ids _ w.db.variants ours k)
            ])))
        (λ _. touch_image-Keeps)

  pub set_image_variant_status-Keeps :
      (s : ImageVariantStatus) → Keeps T (set_image_variant_status tools t s)
  unfolding set_image_variant_status update_variant_status
  set_image_variant_status-Keeps s =
      Keeps-bind (Keeps-attempt (images_only-Keeps _ (λ db. refl))) (λ _. Keeps-pure tt)

  pub delete_cache-Keeps : Keeps T (delete_cache_on_terminal_state tools t)
  unfolding delete_cache_on_terminal_state
  delete_cache-Keeps = Keeps-modify _ λ w k.
      elim (Bool-cases (tools.has_cache && not (str_eq t.image_identifier ""))) [
        | inl e ↦ rw e k
        | inr e ↦ rw e k
      ]

  pub tracks_rules : RunRules tools t T
  tracks_rules = record {
    passive = tracks_passive;
    marks = mark_variant_failed-Keeps;
    deletes = delete_tracked_variant-Keeps;
    saves = save_variant_results-Keeps;
    sets = set_image_variant_status-Keeps;
    evicts = delete_cache-Keeps;
  }

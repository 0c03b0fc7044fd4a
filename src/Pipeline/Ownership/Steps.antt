-- ===== src/Pipeline/Ownership/Steps.antt =====
-- The steps of a task keep the account of its variants.
use image_bed.Gorm.{update_where}
use image_bed.Gorm.Pairs.{AllPairs-update_where}
use image_bed.Models.{ImageVariant}
use image_bed.Pipeline.Keeps.{Keeps}
use image_bed.Pipeline.Ownership.{RowTracked, Tracking}
use image_bed.Pipeline.Ownership.Rows.{RowTracked-kept, RowTracked-released, mem-remove_id}
use image_bed.Pipeline.Track.{
  ids_of, release_tracked_variant, remove_id, settle_variant, settled_by,
}
use image_bed.Pipeline.World.{Task, Tools, World}
use image_bed.Prelude.{List, arith, inl, inr, mem, true, ℕ, ◌≡◌, ◌≢◌}
use image_bed.Variants.{Db, Query}
use image_bed.Variants.Effects.{Releases}

module _ (tools : Tools) (t : Task) (before : List ImageVariant) where
  abbrev pub Tracks : World → Type 0
  Tracks w = Tracking t before w.db.variants w.acquired

  -- After an operation that succeeded the variant is not tracked, and not in processing.
  pub Tracking-release :
      (id : ℕ) (op : Query (Unit {0})) (rel : Releases id op) (db : Db) (now : List ImageVariant)
      (acq : List ℕ)
      → mem id (ids_of t) ≡ true
      → Tracking t before now acq
      → Tracking t before (update_where rel.hits (rel.columns db) now) (remove_id id acq)
  Tracking-release id op rel db now acq mine k = record {
    rows =
        AllPairs-update_where (RowTracked t acq) (RowTracked t (remove_id id acq)) rel.hits
          (rel.columns db)
          (λ a b r h.
            RowTracked-released t acq id mine a b r (rel.columns db b) (rel.hit_id b h)
              (rel.keeps_id db b) (rel.idle_after db b h))
          (λ a b r h. RowTracked-kept t acq id mine a b r (rel.idle_else b h)) before now k.rows;
    ours = λ i h. k.ours i (ground (arith, mem-remove_id i id acq));
  }

  -- The tracked list after a release, whatever branch it takes.
  pub acquired-release_tracked_variant :
      (id : ℕ) (w : World)
      → id ≢ 0
      → (release_tracked_variant tools t id w).acquired ≡ remove_id id w.acquired
  unfolding release_tracked_variant
  acquired-release_tracked_variant id w nz = ground arith

  pub db-release_tracked_variant :
      (id : ℕ) (w : World) → (release_tracked_variant tools t id w).db ≡ w.db
  unfolding release_tracked_variant
  db-release_tracked_variant id w = ground arith

  pub settle_variant-Keeps :
      (id : ℕ) (op : Query (Unit {0}))
      → Releases id op
      → mem id (ids_of t) ≡ true
      → id ≢ 0
      → Keeps Tracks (settle_variant tools t id op)
  unfolding settle_variant settled_by
  settle_variant-Keeps id op rel mine nz = record {
    at = λ w k. elim (rel.runs w.db) [
      | inl (e, failed', same) ↦ rw failed' (rw same k)
      | inr (good, changed) ↦ rw good (
          rw (db-release_tracked_variant, acquired-release_tracked_variant id _ nz, changed)
            (Tracking-release id op rel w.db w.db.variants w.acquired mine k))
    ];
  }

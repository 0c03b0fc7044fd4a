-- ===== src/Pipeline/Ownership.antt =====
-- Which variants a task has in processing: the list that it keeps, against the table.
pub mod Rows
pub mod Steps
pub mod Operations
pub mod Body
pub mod Settled
use image_bed.Gorm.Pairs.{AllPairs, AllPairs-refl}
use image_bed.Models.{ImageVariant}
use image_bed.Pipeline.Track.{ids_of}
use image_bed.Pipeline.World.{Task}
use image_bed.Prelude.{List, [], false, inl, mem, refl, true, ℕ, ◌≡◌, ◌⊎◌}
use image_bed.Variants.{is_busy}

-- A row before and now: same key, untouched unless it is one of the task's variants, and in
-- processing only if it was so before or the task tracks it.
pub record RowTracked (t : Task) (acquired : List ℕ) (a b : ImageVariant) : Type 0 where
  pub same_id : b.id ≡ a.id
  pub others : mem a.id (ids_of t) ≡ false → a ≡ b
  pub busy : is_busy b ≡ true → (is_busy a ≡ true) ⊎ (mem b.id acquired ≡ true)

pub record Tracking (t : Task) (before now : List ImageVariant) (acquired : List ℕ) : Type 0 where
  pub rows : AllPairs (RowTracked t acquired) before now
  pub ours : (i : ℕ) → mem i acquired ≡ true → mem i (ids_of t) ≡ true

pub Tracking-start : (t : Task) (vs : List ImageVariant) → Tracking t vs vs []
Tracking-start t vs = record {
  rows =
      AllPairs-refl (RowTracked t [])
        (λ a. record { same_id = refl; others = λ _. refl; busy = λ h. inl h }) vs;
  ours = λ i h. cc;
}

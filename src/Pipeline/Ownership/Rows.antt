-- ===== src/Pipeline/Ownership/Rows.antt =====
-- What each statement does to one row, in the terms of RowTracked.
use image_bed.Models.{ImageVariant}
use image_bed.Pipeline.Ownership.{RowTracked}
use image_bed.Pipeline.Track.{ids_of, remove_id}
use image_bed.Pipeline.World.{Task}
use image_bed.Prelude.{
  List, [], arith, false, if◌then◌else◌, mem, sym, true, ℕ, ◌==◌, ◌∙◌, ◌∷◌, ◌≡◌,
}
use image_bed.Variants.{is_busy}

pub mem-remove_id :
    (i id : ℕ) (xs : List ℕ) → mem i (remove_id id xs) ≡ (if i == id then false else mem i xs)
mem-remove_id i id [] = ground arith
mem-remove_id i id (x ∷ xs) = ground (arith, mem-remove_id i id xs)

module _ (t : Task) (acq : List ℕ) (id : ℕ) (ours : mem id (ids_of t) ≡ true) (a b : ImageVariant)
    (r : RowTracked t acq a b) where
  -- A matching row whose key is kept and which is no longer in processing.
  pub RowTracked-released :
      (c : ImageVariant)
      → b.id ≡ id
      → c.id ≡ b.id
      → is_busy c ≡ false
      → RowTracked t (remove_id id acq) a c
  RowTracked-released c same keeps idle = record {
    same_id = keeps ∙ r.same_id;
    others = λ o. absurd (differ (rw (same_row, ours) at o));
    busy = λ h. absurd (differ' h);
  }
    where
      same_row : a.id ≡ id
      same_row = sym r.same_id ∙ same

      differ : true ≡ false → ⊥
      differ e = cc

      differ' : is_busy c ≡ true → ⊥
      differ' h = cc

  -- A row with another key, or not in processing, stays accounted for.
  pub RowTracked-kept : (b.id ≡ id → is_busy b ≡ false) → RowTracked t (remove_id id acq) a b
  RowTracked-kept idle = record {
    same_id = r.same_id;
    others = r.others;
    busy = λ h. ground (arith, r.busy h, mem-remove_id b.id id acq, idle);
  }

-- ===== src/Sweeper/Repair.antt =====
-- The images that a sweep repairs.
use image_bed.Errors.{Result}
use image_bed.Gorm.{Fails, scoped, update_where}
use image_bed.Gorm.Pairs.{AllPairs, AllPairs-refl, AllPairs-update_where}
use image_bed.Images.{
  has_variant, is_stale_image, mark_stale_processing_as_failed, reset_stale_processing_to_none,
  set_image_status,
}
use image_bed.Models.{
  Image, ImageVariant, ImageVariantStatus, failed, has_failed, none_yet, processing,
}
use image_bed.Prelude.{
  Bool, Bool-cases, List, ap, arith, false, if◌then◌else◌, inl, inr, mem, not, refl, suc, sym, true,
  ℕ, ◌&&◌, ◌∙◌, ◌≡◌,
}
use image_bed.Sweeper.{Sweep, repair_images}
use image_bed.Variants.{Env, image_schema}

-- An image that is stale, none of whose variants is in processing, and which is not retried now.
abbrev pub is_abandoned : ℕ → List ℕ → List ImageVariant → Image → Bool
is_abandoned cutoff retried variants i =
    not i.deleted
    && is_stale_image cutoff i
    && not (has_variant processing variants i)
    && not (mem i.id retried)

-- The status that an abandoned image gets.
abbrev pub repaired_status : List ImageVariant → Image → ImageVariantStatus
repaired_status variants i = if has_variant failed variants i then has_failed else none_yet

pub record Repairs (cutoff : ℕ) (retried : List ℕ) (variants : List ImageVariant) (a b : Image)
    : Type 0 where
  pub same_id : b.id ≡ a.id
  pub repaired :
      is_abandoned cutoff retried variants a ≡ true → b.variant_status ≡ repaired_status variants a
  pub untouched : is_abandoned cutoff retried variants a ≡ false → b ≡ a

module _ (cutoff : ℕ) (retried : List ℕ) (variants : List ImageVariant) where
  -- The two statements' conditions.
  abbrev marks : Image → Bool
  marks i =
      is_stale_image cutoff i
      && not (has_variant processing variants i)
      && has_variant failed variants i
      && not (mem i.id retried)

  abbrev resets : Image → Bool
  resets i =
      is_stale_image cutoff i && not (has_variant processing variants i) && not (mem i.id retried)

  abbrev is_marked : Image → Bool
  is_marked = scoped image_schema marks

  abbrev is_reset : Image → Bool
  is_reset = scoped image_schema resets

  -- Between the two statements.
  record Marked (a b : Image) : Type 0 where
    same_id : b.id ≡ a.id
    marked : is_marked a ≡ true → b.variant_status ≡ has_failed
    unmarked : is_marked a ≡ false → b ≡ a

  marks_row :
      (now : ℕ) (a b : Image)
      → a ≡ b
      → is_marked b ≡ true
      → Marked a (set_image_status has_failed now b)
  marks_row now a b e h = record {
    same_id = ap (λ (i : Image). i.id) (sym e);
    marked = λ _. refl;
    unmarked = λ k. absurd (differ (rw e at k));
  }
    where
      differ : is_marked b ≡ false → ⊥
      differ k = cc

  skips_row : (a b : Image) → a ≡ b → is_marked b ≡ false → Marked a b
  skips_row a b e h = record {
    same_id = ap (λ (i : Image). i.id) (sym e);
    marked = λ k. absurd (differ (rw e at k));
    unmarked = λ _. sym e;
  }
    where
      differ : is_marked b ≡ true → ⊥
      differ k = cc

  resets_row :
      (now : ℕ) (a b : Image)
      → Marked a b
      → is_reset b ≡ true
      → Repairs cutoff retried variants a (set_image_status none_yet now b)
  resets_row now a b m h = elim (Bool-cases (is_marked a)) [
    | inl e ↦ absurd (not_both (m.marked e))
    | inr e ↦
        let same : is_reset a ≡ true = rw (m.unmarked e) at h in
        record {
          same_id = m.same_id;
          repaired = λ k. ground (arith, same, e);
          untouched = λ k. absurd (ground (arith, same, k));
        }
  ]
    where
      not_both : b.variant_status ≡ has_failed → ⊥
      not_both f = absurd (ground (arith, f, h))

  keeps_row : (a b : Image) → Marked a b → is_reset b ≡ false → Repairs cutoff retried variants a b
  keeps_row a b m h = elim (Bool-cases (is_marked a)) [
    | inl e ↦ record {
      same_id = m.same_id;
      repaired = λ k. m.marked e ∙ ground (arith, e);
      untouched = λ k. absurd (ground (arith, e, k));
    }
    | inr e ↦
        let same : is_reset a ≡ false = rw (m.unmarked e) at h in
        record {
          same_id = m.same_id;
          repaired = λ k. absurd (ground (arith, same, k));
          untouched = λ k. m.unmarked e;
        }
  ]

module _ (env : Env) (now cutoff : ℕ) (retried : List ℕ) (s : Sweep) where
  -- If neither statement fails, the sweep repairs row by row exactly the abandoned images: one with a
  -- failed variant is marked failed, any other is set back to none.
  pub repair_images-Repairs :
      ((n : ℕ) (p : Image → Bool) (f : Image → Image) (t : List Image)
        → ¬ Fails (env.images.updates n p f t).0)
      → AllPairs
          (Repairs cutoff retried s.db.variants)
          s.db.images
          (repair_images env now cutoff retried s).db.images
  unfolding repair_images mark_stale_processing_as_failed reset_stale_processing_to_none
  repair_images-Repairs sure =
      let v = s.db.variants in
      let n = s.db.sent in
      let t = s.db.images in
      elim (env.images.updates_law n (marks cutoff retried v)
        (set_image_status has_failed (env.now n)) t) [
          | inl (why, h) ↦ absurd (sure n _ _ t (why, ap (λ (r : Result ℕ × List Image). r.0) h))
          | inr h ↦
              rw h
                (elim (env.images.updates_law (suc n) (resets cutoff retried v)
                  (set_image_status none_yet (env.now (suc n))) (marked_images n t v)) [
                    | inl (why, k) ↦
                        absurd (sure (suc n) _ _ _ (why, ap (λ (r : Result ℕ × List Image). r.0) k))
                    | inr k ↦ rw k (
                        AllPairs-update_where (Marked cutoff retried v) (Repairs cutoff retried v)
                          (is_reset cutoff retried v) (set_image_status none_yet (env.now (suc n)))
                          (resets_row cutoff retried v (env.now (suc n)))
                          (keeps_row cutoff retried v) t (marked_images n t v)
                          (AllPairs-update_where (λ a b. a ≡ b) (Marked cutoff retried v)
                            (is_marked cutoff retried v) (set_image_status has_failed (env.now n))
                            (marks_row cutoff retried v (env.now n)) (skips_row cutoff retried v) t
                            t (AllPairs-refl (λ a b. a ≡ b) (λ a. refl) t)))
                  ])
        ]
    where
      marked_images : ℕ → List Image → List ImageVariant → List Image
      marked_images n t v =
          update_where (is_marked cutoff retried v) (set_image_status has_failed (env.now n)) t

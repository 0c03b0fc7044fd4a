-- ===== src/Gorm/Counts.antt =====
-- How many rows of a table pass a test after an update.
use image_bed.Gorm.{count_where, update_where}
use image_bed.Prelude.{
  Bool, Bool-cases, List, [], arith, false, inl, inr, refl, suc, true, ℕ, ◌∷◌, ◌≡◌,
}

module _ {Row : Type 0} (q p : Row → Bool) (f : Row → Row)
    (hit : (r : Row) → p r ≡ true → q (f r) ≡ false) where
  -- None did, and the update brings none to pass.
  pub count_where-still_none :
      (t : List Row) → count_where q t ≡ 0 → count_where q (update_where p f t) ≡ 0
  count_where-still_none [] h = refl
  count_where-still_none (r ∷ t) h = elim (Bool-cases (q r)) [
    | inl e ↦ absurd (suc_ne_zero (rw e at h))
    | inr e ↦
        let rest = count_where-still_none t (rw e at h) in
        elim (Bool-cases (p r)) [ inl k ↦ rw (k, hit r k) rest | inr k ↦ rw (k, e) rest ]
  ]
    where
      suc_ne_zero : {n : ℕ} → suc n ≡ 0 → ⊥
      suc_ne_zero e = absurd (omega arith)

  -- Those that the update passes over do not pass.
  pub count_where-none_left :
      (t : List Row)
      → ((r : Row) → p r ≡ false → q r ≡ false)
      → count_where q (update_where p f t) ≡ 0
  count_where-none_left [] miss = refl
  count_where-none_left (r ∷ t) miss =
      let rest = count_where-none_left t miss in
      elim (Bool-cases (p r)) [ inl k ↦ rw (k, hit r k) rest | inr k ↦ rw (k, miss r k) rest ]

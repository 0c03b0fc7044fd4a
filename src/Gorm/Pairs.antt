-- ===== src/Gorm/Pairs.antt =====
-- A table before and after, row by row.
use image_bed.Gorm.{count_where, update_where}
use image_bed.Prelude.{
  Bool, Bool-cases, Every, List, [], ap, arith, false, inl, inr, refl, select, suc, true, ℕ, ◌∷◌,
  ◌≡◌,
}

module _ {Row : Type 0} where
  abbrev pub AllPairs : (Row → Row → Type 0) → List Row → List Row → Type 0
  AllPairs R [] [] = Unit
  AllPairs R (a ∷ s) (b ∷ t) = R a b × AllPairs R s t
  AllPairs R _ _ = ⊥

  pub AllPairs-refl :
      (R : Row → Row → Type 0) → ((a : Row) → R a a) → (t : List Row) → AllPairs R t t
  AllPairs-refl R h [] = tt
  AllPairs-refl R h (a ∷ t) = (h a, AllPairs-refl R h t)

  pub AllPairs-map :
      (R S : Row → Row → Type 0)
      → ((a b : Row) → R a b → S a b)
      → (s t : List Row) → AllPairs R s t
      → AllPairs S s t
  AllPairs-map R S h [] [] k = tt
  AllPairs-map R S h [] (_ ∷ _) k = absurd k
  AllPairs-map R S h (_ ∷ _) [] k = absurd k
  AllPairs-map R S h (a ∷ s) (b ∷ t) (r, k) = (h a b r, AllPairs-map R S h s t k)

  -- An update relates the tables anew if it does so for each row.
  pub AllPairs-update_where :
      (R S : Row → Row → Type 0) (p : Row → Bool) (f : Row → Row)
      → ((a b : Row) → R a b → p b ≡ true → S a (f b))
      → ((a b : Row) → R a b → p b ≡ false → S a b)
      → (s t : List Row) → AllPairs R s t
      → AllPairs S s (update_where p f t)
  AllPairs-update_where R S p f hit miss [] [] k = tt
  AllPairs-update_where R S p f hit miss [] (_ ∷ _) k = absurd k
  AllPairs-update_where R S p f hit miss (_ ∷ _) [] k = absurd k
  AllPairs-update_where R S p f hit miss (a ∷ s) (b ∷ t) (r, k) =
      let rest = AllPairs-update_where R S p f hit miss s t k in
      elim (Bool-cases (p b)) [
        | inl e ↦ rw e (hit a b r e, rest)
        | inr e ↦ rw e (miss a b r e, rest)
      ]

  -- An update without a matching row changes nothing.
  pub update_where_none :
      (p : Row → Bool) (f : Row → Row) (t : List Row) → count_where p t ≡ 0 → update_where p f t ≡ t
  update_where_none p f [] h = refl
  update_where_none p f (r ∷ t) h = elim (Bool-cases (p r)) [
    | inl e ↦ absurd (suc_ne_zero (rw e at h))
    | inr e ↦ rw e (ap (λ u. r ∷ u) (update_where_none p f t (rw e at h)))
  ]
    where
      suc_ne_zero : {n : ℕ} → suc n ≡ 0 → ⊥
      suc_ne_zero e = absurd (omega arith)

  pub Every-update_where :
      (P : Row → Type 0) (p : Row → Bool) (f : Row → Row)
      → ((a : Row) → P a → P (f a))
      → (t : List Row) → Every P t
      → Every P (update_where p f t)
  Every-update_where P p f h [] k = tt
  Every-update_where P p f h (a ∷ t) (b, k) = elim (Bool-cases (p a)) [
    | inl e ↦ rw e (h a b, Every-update_where P p f h t k)
    | inr e ↦ rw e (b, Every-update_where P p f h t k)
  ]

  pub Every-select :
      (P : Row → Type 0) (p : Row → Bool) (t : List Row) → Every P t → Every P (select p t)
  Every-select P p [] k = tt
  Every-select P p (a ∷ t) (b, k) = elim (Bool-cases (p a)) [
    | inl e ↦ rw e (b, Every-select P p t k)
    | inr e ↦ rw e (Every-select P p t k)
  ]

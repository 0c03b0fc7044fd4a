-- ===== src/Gorm/Outcomes.antt =====
-- What a statement that succeeded has done to its table, and what a query then sees of it.
use image_bed.Errors.{err-ne-ok, message, ok, ok-injective}
use image_bed.Gorm.{Gorm, Schema, count_where, scoped, update_where}
use image_bed.Prelude.{
  Bool, Bool-cases, Every, List, [], any, ap, arith, false, if◌then◌else◌, inl, inr, refl, select,
  suc, sym, true, ℕ, ◌++◌, ◌∙◌, ◌∷◌, ◌≡◌,
}

module _ {Row : Type 0} where
  pub select-none : (p : Row → Bool) (t : List Row) → Every (λ r. p r ≡ false) t → select p t ≡ []
  select-none p [] h = refl
  select-none p (r ∷ t) (e, h) = rw e (select-none p t h)

  pub select-last :
      (p : Row → Bool) (t : List Row) (r : Row)
      → Every (λ r. p r ≡ false) t
      → p r ≡ true
      → select p (t ++ r ∷ []) ≡ r ∷ []
  select-last p [] r h e = rw e refl
  select-last p (x ∷ t) r (miss, h) e = rw miss (select-last p t r h e)

  -- A deletion puts what it covers out of reach.
  pub Every-delete :
      (s : Schema Row) (p q : Row → Bool)
      → ((r : Row) → q r ≡ true → p r ≡ true)
      → ((r : Row) → s.live (s.mark_deleted r) ≡ false)
      → (t : List Row)
      → Every (λ r. scoped s q r ≡ false) (update_where (scoped s p) s.mark_deleted t)
  Every-delete s p q covers dead [] = tt
  Every-delete s p q covers dead (r ∷ t) = (here, Every-delete s p q covers dead t)
    where
      miss : scoped s p r ≡ false → scoped s q r ≡ false
      miss e = elim (Bool-cases (q r)) [
        | inl hit ↦ let hits = covers r hit in ground (arith, hit, hits, e)
        | inr out ↦ ground (arith, out)
      ]

      here : scoped s q (if scoped s p r then s.mark_deleted r else r) ≡ false
      here = elim (Bool-cases (scoped s p r)) [
        | inl e ↦ rw (e, dead r) refl
        | inr e ↦ rw e (miss e)
      ]

module _ {Row : Type 0} (s : Schema Row) (g : Gorm s) where
  pub delete-ok :
      (k : ℕ) (p : Row → Bool) (t : List Row) (n : ℕ)
      → (g.delete k p t).0 ≡ ok n
      → (n ≡ count_where (scoped s p) t)
        × ((g.delete k p t).1 ≡ update_where (scoped s p) s.mark_deleted t)
  delete-ok k p t n e = elim (g.delete_law k p t) [
    | inl (why, f) ↦ absurd (err-ne-ok (sym (ap (λ x. x.0) f) ∙ e))
    | inr f ↦ (sym (ok-injective (sym (ap (λ x. x.0) f) ∙ e)), ap (λ x. x.1) f)
  ]

  pub create-ok :
      (k : ℕ) (r : Row) (t : List Row) (row : Row)
      → (g.create k r t).0 ≡ ok row
      → (i : ℕ) × ((any (s.clash r) t ≡ false) × ((g.create k r t).1 ≡ t ++ s.set_id i r ∷ []))
  create-ok k r t row e = elim (g.insert_law k r t) [
    | inl (why, f) ↦ absurd (err-ne-ok (sym (ap (λ x. x.0) f) ∙ e))
    | inr (i, _, _, free, f) ↦ (i, (free, ap (λ x. x.1) f))
  ]

  pub updates-ok :
      (k : ℕ) (p : Row → Bool) (f : Row → Row) (t : List Row) (n : ℕ)
      → (g.updates k p f t).0 ≡ ok n
      → (g.updates k p f t).1 ≡ update_where (scoped s p) f t
  updates-ok k p f t n e = elim (g.updates_law k p f t) [
    | inl (why, h) ↦ absurd (err-ne-ok (sym (ap (λ x. x.0) h) ∙ e))
    | inr h ↦ ap (λ x. x.1) h
  ]

  pub count-ok :
      (k : ℕ) (p : Row → Bool) (t : List Row) (n : ℕ)
      → g.count k p t ≡ ok n
      → n ≡ count_where (scoped s p) t
  count-ok k p t n e = elim (g.count_law k p t) [
    | inl (why, f) ↦ absurd (err-ne-ok {e = message why} (sym f ∙ e))
    | inr f ↦ ok-injective (sym e ∙ f)
  ]

pub count-zero :
    {Row : Type 0} (p : Row → Bool) (t : List Row)
    → count_where p t ≡ 0
    → Every (λ r. p r ≡ false) t
count-zero p [] e = tt
count-zero p (r ∷ t) e = elim (Bool-cases (p r)) [
  | inl hit ↦ let never : suc (count_where p t) ≡ 0 = sym (rw hit refl) ∙ e in absurd (omega arith)
  | inr miss ↦ (miss, count-zero p t (sym (rw miss refl) ∙ e))
]

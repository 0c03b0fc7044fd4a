-- ===== src/Uploads/Lookup.antt =====
-- What a lookup in the images says of the row it gives, or of all rows when it gives none.
use mathlib.Core.Path.{subst}
use mathlib.Core.List.{Memᴰ}
use mathlib.Core.List.Memᴰ.{head, not-nil, tail}
use image_bed.Errors.{err, ok, ok-injective, record_not_found}
use image_bed.Gorm.{first_of_rows}
use image_bed.Prelude.{
  Bool, Bool-cases, Every, List, [], false, inl, inr, refl, select, sym, true, ◌∙◌, ◌∷◌, ◌≡◌,
}

pub Every-at : {A : Type 0} (P : A → Type 0) (x : A) (xs : List A) → Every P xs → Memᴰ x xs → P x
Every-at P x [] h m = absurd (not-nil m)
Every-at P x (y ∷ ys) (k, h) (head e) = subst P (sym e) k
Every-at P x (y ∷ ys) (k, h) (tail m) = Every-at P x ys h m

pub first-member :
    {Row : Type 0} (p : Row → Bool) (i : Row) (t : List Row)
    → first_of_rows (select p t) ≡ ok i
    → Memᴰ i t × (p i ≡ true)
first-member p i [] e = absurd cc
first-member p i (j ∷ t) e = elim (Bool-cases (p j)) [
  | inl hit ↦
      let there : ok j ≡ ok i = sym (rw hit refl) ∙ e in
      let same : j ≡ i = ok-injective there in (head (sym same), subst (λ x. p x ≡ true) same hit)
  | inr miss ↦
      let rest : first_of_rows (select p t) ≡ ok i = sym (rw miss refl) ∙ e in
      let (m, h) = first-member p i t rest in (tail m, h)
]

pub first-none :
    {Row : Type 0} (p : Row → Bool) (t : List Row)
    → first_of_rows (select p t) ≡ err record_not_found
    → Every (λ i. p i ≡ false) t
first-none p [] e = tt
first-none p (j ∷ t) e = elim (Bool-cases (p j)) [
  | inl hit ↦ let there : ok j ≡ err record_not_found = sym (rw hit refl) ∙ e in absurd cc
  | inr miss ↦
      let rest : first_of_rows (select p t) ≡ err record_not_found = sym (rw miss refl) ∙ e in
      (miss, first-none p t rest)
]

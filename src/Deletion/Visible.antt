-- ===== src/Deletion/Visible.antt =====
-- The images that users see, and the steps of deletion that leave the rows alone.
use text.Mathlib.Text.{◌==◌ as str_eq}
use image_bed.Deletion.{
  delete_original, delete_variant_file, delete_variant_files, delete_variants_at,
  delete_variants_for_image, delete_variants_found, remove_at, remove_if_unused,
}
use image_bed.Deletion.Backed.{Keeps-evict}
use image_bed.Errors.{Result, err, ok}
use image_bed.Gorm.{count_where, scoped, update_where}
use image_bed.Images.Records.{count_images_by_storage_path}
use image_bed.Models.{Image, ImageVariant}
use image_bed.Prelude.{
  Bool, Bool-cases, List, String, [], arith, inl, inr, length, not, refl, select, ℕ, ◌==◌, ◌∷◌, ◌≡◌,
}
use image_bed.Services.{Outside, get_storage_provider_by_id, query, remove}
use image_bed.Services.Triples.{
  Facts, Keeps, Keeps-attempt, Keeps-bind, Keeps-change_site, Keeps-if, Keeps-on_images,
  Keeps-on_variants, Keeps-pure, Keeps-try_call,
}
use image_bed.Variants.{delete_by_image_id, get_variants_by_image_id, image_schema}

abbrev pub visible : List Image → List Image
visible images = select (λ i. not i.deleted) images

abbrev pub Still : List Image → Facts
Still images v t f = t ≡ images

-- A deletion of rows is a filter on the visible ones.
pub visible-mark_deleted :
    (p : Image → Bool) (t : List Image)
    → visible (update_where (scoped image_schema p) image_schema.mark_deleted t)
      ≡ select (λ i. not (p i)) (visible t)
visible-mark_deleted p [] = refl
visible-mark_deleted p (i ∷ t) = elim (Bool-cases i.deleted) [
  | inl gone ↦ let rest = visible-mark_deleted p t in ground (arith, gone, rest)
  | inr e ↦ elim (Bool-cases (p i)) [
    | inl hit ↦ let rest = visible-mark_deleted p t in ground (arith, e, hit, rest)
    | inr miss ↦ let rest = visible-mark_deleted p t in ground (arith, e, miss, rest)
  ]
]

pub count-visible :
    (p : Image → Bool) (t : List Image)
    → count_where (scoped image_schema p) t ≡ length (select p (visible t))
count-visible p [] = refl
count-visible p (i ∷ t) = elim (Bool-cases i.deleted) [
  | inl gone ↦ let rest = count-visible p t in ground (arith, gone, rest)
  | inr e ↦ elim (Bool-cases (p i)) [
    | inl hit ↦ let rest = count-visible p t in ground (arith, e, hit, rest)
    | inr miss ↦ let rest = count-visible p t in ground (arith, e, miss, rest)
  ]
]

Still-remove :
    (o : Outside) (t : List Image) (provider : ℕ) (path : String)
    → Keeps (Still t) (remove o provider path)
unfolding remove
Still-remove o t provider path =
    Keeps-bind (Keeps-try_call _ _) λ _. Keeps-change_site _ _ (λ s h. h)

-- No row was found.
pub visible_none :
    (p : Image → Bool) (t : List Image)
    → select (scoped image_schema p) t ≡ []
    → (visible t ≡ select (λ i. not (p i)) (visible t)) × (0 ≡ length (select p (visible t)))
visible_none p [] h = (refl, refl)
visible_none p (i ∷ t) h = elim (Bool-cases i.deleted) [
  | inl gone ↦
      let none_left : select (scoped image_schema p) t ≡ [] = ground (arith, gone, h) in
      let (same, n) = visible_none p t none_left in
      (ground (arith, gone, same), ground (arith, gone, n))
  | inr e ↦ elim (Bool-cases (p i)) [
    | inl hit ↦ ground (arith, e, hit, h)
    | inr miss ↦
        let none_left : select (scoped image_schema p) t ≡ [] = ground (arith, e, miss, h) in
        let (same, n) = visible_none p t none_left in
        (ground (arith, e, miss, same), ground (arith, e, miss, n))
  ]
]

module _ (o : Outside) (t : List Image) where
  Still-delete_variant_files :
      (provider : ℕ) (vs : List ImageVariant) → Keeps (Still t) (delete_variant_files o provider vs)
  unfolding delete_variant_files delete_variant_file
  Still-delete_variant_files provider [] = Keeps-pure _ _
  Still-delete_variant_files provider (v ∷ vs) =
      Keeps-bind
        (Keeps-if (str_eq v.storage_path "") (Keeps-pure _ _) (
          Keeps-bind (Keeps-attempt (Still-remove o t provider v.storage_path))
            λ _. Keeps-evict o _ _))
        λ _. Still-delete_variant_files provider vs

  Still-delete_by_image_id : (id : ℕ) → Keeps (Still t) (query (delete_by_image_id o.env id))
  unfolding query delete_by_image_id
  Still-delete_by_image_id id = record { keeps = λ s h. h }

  Still-delete_variants_at :
      (img : Image) (vs : List ImageVariant) (r : Result ℕ)
      → Keeps (Still t) (delete_variants_at o img vs r)
  unfolding delete_variants_at
  Still-delete_variants_at img vs (err e) = Keeps-pure _ _
  Still-delete_variants_at img vs (ok provider) =
      Keeps-bind (Still-delete_variant_files provider vs)
        λ _. Keeps-bind (Keeps-attempt (Still-delete_by_image_id img.id)) λ _. Keeps-evict o _ _

  Still-delete_variants_found :
      (img : Image) (r : Result (List ImageVariant))
      → Keeps (Still t) (delete_variants_found o img r)
  unfolding delete_variants_found
  Still-delete_variants_found img (err e) = Keeps-pure _ _
  Still-delete_variants_found img (ok vs) = Still-delete_variants_at img vs _

  pub Still-delete_variants_for_image :
      (img : Image) → Keeps (Still t) (delete_variants_for_image o img)
  unfolding delete_variants_for_image get_variants_by_image_id
  Still-delete_variants_for_image img =
      Keeps-bind (Keeps-attempt (Keeps-on_variants _ _)) λ r. Still-delete_variants_found img r

  Still-remove_if_unused : (img : Image) (r : Result ℕ) → Keeps (Still t) (remove_if_unused o img r)
  unfolding remove_if_unused
  Still-remove_if_unused img (err e) = Keeps-pure _ _
  Still-remove_if_unused img (ok n) =
      Keeps-if (n == 0) (at (get_storage_provider_by_id o img.storage_config_id)) (Keeps-pure _ _)
    where
      at : (r : Result ℕ) → Keeps (Still t) (remove_at o img.storage_path r)
      at (err e) = unfold remove_at in Keeps-pure _ _
      at (ok provider) =
          unfold remove_at in
          Keeps-bind (Keeps-attempt (Still-remove o t provider img.storage_path))
            λ _. Keeps-pure _ _

  pub Still-delete_original : (img : Image) → Keeps (Still t) (delete_original o img)
  unfolding delete_original count_images_by_storage_path
  Still-delete_original img = Keeps-if (str_eq img.storage_path "") (Keeps-pure _ _) (
      Keeps-bind
        (Keeps-attempt (
          Keeps-on_images _
            (λ k t. o.env.images.count k (λ i. str_eq i.storage_path img.storage_path) t)))
        λ r. Still-remove_if_unused img r)

-- ===== src/Uploads/Facts.antt =====
-- What an upload relies on: rows that share a path or an identifier share their content.
use mathlib.Core.List.{Memᴰ}
use mathlib.Core.List.Memᴰ.{head, tail}
use text.Mathlib.Text.{◌==◌ as str_eq}
use text.Mathlib.TextPositions.{starts_with-append}
use image_bed.Errors.{ok}
use image_bed.Models.{Image}
use image_bed.Prelude.{
  Bool-cases, Every, List, String, [], eq_iff, false, inl, inr, refl, true, ℕ, ◌∷◌, ◌≡◌, ◌⊎◌,
}
use image_bed.Services.{Outside}
use image_bed.Services.Backed.{IsUnused, is_original}
use image_bed.Uploads.{generate_original_identifiers}
use image_bed.Uploads.Lookup.{Every-at}
use image_bed.Uploads.Upload.{Upload}

-- The hashes that an upload can have.
abbrev pub IsHash : Outside → Upload → String → Type 0
IsHash o u h =
    (h ≡ u.source.precomputed_hash)
    ⊎ ((n : ℕ) × (header : String) × (o.copy_to_hash n u.source header ≡ ok h))

-- No live image has the hash.
abbrev pub Unhashed : String → List Image → Type 0
Unhashed h t = Every (λ i. i.deleted ≡ false → str_eq i.file_hash h ≡ false) t

-- Twelve digits of a hash tell the content: so do the path and the identifier made from them.
pub record TellsContent (o : Outside) (u : Upload) (t : List Image) : Type 0 where
  pub rows_agree :
      (i j : Image)
      → Memᴰ i t
      → Memᴰ j t
      → (i.storage_path ≡ j.storage_path) ⊎ (i.identifier ≡ j.identifier)
      → i.file_hash ≡ j.file_hash
  pub new_agrees :
      (h ext date : String) (i : Image)
      → IsHash o u h
      → Memᴰ i t
      → i.storage_path ≡ (generate_original_identifiers h ext date).storage_path
      → i.file_hash ≡ h

pub generated-IsOriginal :
    (h ext date : String)
    → is_original (generate_original_identifiers h ext date).storage_path ≡ true
unfolding generate_original_identifiers
generated-IsOriginal h ext date = starts_with-append "original/" _

-- Every, from each member.
pub from_members :
    {A : Type 0} (P : A → Type 0) (t : List A) → ((x : A) → Memᴰ x t → P x) → Every P t
from_members P [] f = tt
from_members P (x ∷ xs) f = (f x (head refl), from_members P xs (λ y m. f y (tail m)))

-- The path of a new image is no live image's.
pub new-IsUnused :
    (o : Outside) (u : Upload) (t : List Image) (h ext date : String)
    → TellsContent o u t
    → IsHash o u h
    → Unhashed h t
    → IsUnused (generate_original_identifiers h ext date).storage_path t
new-IsUnused o u t h ext date tells is_hash unhashed =
    from_members (λ i. i.deleted ≡ false → str_eq i.storage_path path ≡ false) t
      λ i m live. differs i m live
  where
    path : String
    path = (generate_original_identifiers h ext date).storage_path

    differs : (i : Image) → Memᴰ i t → i.deleted ≡ false → str_eq i.storage_path path ≡ false
    differs i m live = elim (Bool-cases (str_eq i.storage_path path)) [
      | inl e ↦
          let same : i.file_hash ≡ h =
            tells.new_agrees h ext date i is_hash m ((eq_iff i.storage_path path).0 e) in
          let yes : str_eq i.file_hash h ≡ true = (eq_iff i.file_hash h).1 same in
          let no : str_eq i.file_hash h ≡ false =
            Every-at (λ j. j.deleted ≡ false → str_eq j.file_hash h ≡ false) i t unhashed m live in
          absurd cc
      | inr e ↦ e
    ]

-- ===== src/Services/Backed.antt =====
-- The files behind the images: each live image has its file at its provider.
use mathlib.Core.Path.{subst}
use text.Mathlib.Text.{◌==◌ as str_eq, starts_with}
use image_bed.Errors.{ok}
use image_bed.Gorm.{count_where, scoped, update_where}
use image_bed.Gorm.Pairs.{Every-update_where}
use image_bed.Models.{Image, ImageVariant}
use image_bed.Prelude.{
  Bool, Bool-cases, Every, Every-map, List, String, [], arith, eq_iff, false, inl, inr, sym, true,
  ℕ, ◌∙◌, ◌∷◌, ◌≡◌,
}
use image_bed.Services.{Outside, get_storage_provider_by_id, has_file, remove, without_file}
use image_bed.Services.Triples.{Facts, Keeps, Keeps-bind, Keeps-change_site, Keeps-try_call}
use image_bed.Variants.{image_schema}

module _ (o : Outside) where
  -- The provider of the image's configuration, where there is one, has a file at the image's path.
  abbrev pub IsBacked : List (ℕ × String) → Image → Type 0
  IsBacked files i =
      i.deleted ≡ false
      → (provider : ℕ) → get_storage_provider_by_id o i.storage_config_id ≡ ok provider
      → has_file provider i.storage_path files ≡ true

  abbrev pub AllBacked : List Image → List (ℕ × String) → Type 0
  AllBacked images files = Every (IsBacked files) images

-- No live image has the path.
abbrev pub IsUnused : String → List Image → Type 0
IsUnused path images = Every (λ i. i.deleted ≡ false → str_eq i.storage_path path ≡ false) images

-- A text equal to `path` is not the one that differs from it.
apart :
    (a other path : String)
    → str_eq a path ≡ true
    → str_eq other path ≡ false
    → str_eq a other ≡ false
apart a other path same differ = elim (Bool-cases (str_eq a other)) [
  | inl e ↦
      let both : other ≡ path = sym ((eq_iff a other).0 e) ∙ (eq_iff a path).0 same in
      let yes : str_eq other path ≡ true = (eq_iff other path).1 both in absurd cc
  | inr e ↦ e
]

pub has_file-without :
    (p q : ℕ) (path other : String) (files : List (ℕ × String))
    → str_eq other path ≡ false
    → has_file q other files ≡ true
    → has_file q other (without_file p path files) ≡ true
has_file-without p q path other [] differ h = h
has_file-without p q path other (f ∷ files) differ h = elim (Bool-cases (str_eq f.1 path)) [
  | inl same ↦
      let no : str_eq f.1 other ≡ false = apart f.1 other path same differ in
      let later : has_file q other files ≡ true = ground (arith, h, no) in
      ground (arith, same, has_file-without p q path other files differ later)
  | inr e ↦ elim (Bool-cases (has_file q other files)) [
    | inl later ↦ ground (arith, e, has_file-without p q path other files differ later)
    | inr never ↦ ground (arith, e, h, never)
  ]
]

pub AllBacked-more :
    (o : Outside) (f : ℕ × String) (files : List (ℕ × String)) (images : List Image)
    → AllBacked o images files
    → AllBacked o images (f ∷ files)
AllBacked-more o f files images =
    Every-map (IsBacked o files) (IsBacked o (f ∷ files))
      (λ i h live p e. let was = h live p e in ground (arith, was)) images

-- A file that no live image names can go.
pub AllBacked-without :
    (o : Outside) (provider : ℕ) (path : String) (files : List (ℕ × String)) (images : List Image)
    → IsUnused path images
    → AllBacked o images files
    → AllBacked o images (without_file provider path files)
AllBacked-without o provider path files [] u h = tt
AllBacked-without o provider path files (i ∷ is) (u, us) (h, hs) = (
  λ live p e. has_file-without provider p path i.storage_path files (u live) (h live p e),
  AllBacked-without o provider path files is us hs,
)

-- Deleting rows keeps what is said of the live ones.
pub AllBacked-deleted :
    (o : Outside) (p : Image → Bool) (files : List (ℕ × String)) (images : List Image)
    → AllBacked o images files
    → AllBacked o (update_where p image_schema.mark_deleted images) files
AllBacked-deleted o p files images =
    Every-update_where (IsBacked o files) p image_schema.mark_deleted (λ i h live. absurd cc) images

-- A count of zero.
pub count-IsUnused :
    (path : String) (images : List Image)
    → count_where (scoped image_schema (λ i. str_eq i.storage_path path)) images ≡ 0
    → IsUnused path images
count-IsUnused path [] e = tt
count-IsUnused path (i ∷ is) e =
    let rest : count_where (scoped image_schema (λ j. str_eq j.storage_path path)) is ≡ 0 =
      ground (arith, e) in
    (λ live. ground (arith, e), count-IsUnused path is rest)

-- The paths of originals and those of variants are in different directories.
abbrev pub is_original : String → Bool
is_original path = starts_with path "original/"

abbrev pub IsOriginal : Image → Type 0
IsOriginal i = is_original i.storage_path ≡ true

abbrev pub IsDerived : ImageVariant → Type 0
IsDerived v = is_original v.storage_path ≡ false

-- The live images are backed, and originals and variants lie where they belong.
abbrev pub Sound : Outside → Facts
Sound o variants images files =
    AllBacked o images files × (Every IsOriginal images × Every IsDerived variants)

paths_differ :
    (path other : String)
    → is_original path ≡ true
    → is_original other ≡ false
    → str_eq path other ≡ false
paths_differ path other h k = elim (Bool-cases (str_eq path other)) [
  | inl e ↦ let same : path ≡ other = (eq_iff path other).0 e in absurd cc
  | inr e ↦ e
]

pub derived-IsUnused :
    (images : List Image) (v : ImageVariant)
    → Every IsOriginal images
    → IsDerived v
    → IsUnused v.storage_path images
derived-IsUnused images v h k =
    Every-map IsOriginal (λ i. i.deleted ≡ false → str_eq i.storage_path v.storage_path ≡ false)
      (λ i original live. paths_differ i.storage_path v.storage_path original k) images h

pub Sound-deleted :
    (o : Outside) (p : Image → Bool) (variants : List ImageVariant) (images : List Image)
    (files : List (ℕ × String))
    → Sound o variants images files
    → Sound o variants (update_where p image_schema.mark_deleted images) files
Sound-deleted o p variants images files (backed, (originals, derived)) = (
  AllBacked-deleted o p files images backed,
  (Every-update_where IsOriginal p image_schema.mark_deleted (λ i h. h) images originals, derived),
)

module _ (o : Outside) where
  -- The facts while the images stay the same.
  abbrev pub During : List Image → Facts
  During images v t f = (t ≡ images) × Sound o v t f

  -- A file at a path of no live image goes.
  pub Keeps-remove :
      (images : List Image) (provider : ℕ) (path : String)
      → IsUnused path images
      → Keeps (During images) (remove o provider path)
  unfolding remove
  Keeps-remove images provider path unused = Keeps-bind (Keeps-try_call _ _) λ _.
      Keeps-change_site _ _ λ s (same, (backed, clear)). (
        same,
        (
          AllBacked-without o provider path s.files s.db.images
              (subst (IsUnused path) (sym same) unused) backed,
          clear,
        ),
      )

-- ===== src/Deletion/Stranded.antt =====
-- The files of variants that two images share: an image record made for a duplicate upload has the
-- storage path of the first one, and the paths of variants are made from it.
use mathlib.Core.Path.{subst}
use mathlib.Core.List.{Memᴰ}
use mathlib.Core.List.Memᴰ.{head, not-nil, tail}
use text.Mathlib.Text.{◌==◌ as str_eq}
use image_bed.Deletion.{
  delete_variant_file, delete_variant_files, delete_variants_at, delete_variants_for_image,
  delete_variants_found,
}
use image_bed.Deletion.Backed.{Keeps-evict}
use image_bed.Deletion.Returns.{delete_variant_file-IsTotal, delete_variant_files-IsTotal}
use image_bed.Errors.{ok}
use image_bed.Gorm.{scoped, update_where}
use image_bed.Models.{Image, ImageVariant}
use image_bed.Prelude.{
  Bool, List, String, [], arith, false, inl, inr, refl, select, suc, sym, ℕ, ◌==◌, ◌∙◌, ◌∷◌, ◌≡◌,
  ◌≢◌,
}
use image_bed.Services.{
  Outside, Site, attempt, change_site, get_storage_provider_by_id, has_file, of_image_data, query,
  remove, try_call, without_file, ◌>>=◌,
}
use image_bed.Services.Total.{bind-leaves}
use image_bed.Services.Triples.{
  Facts, Keeps, Keeps-attempt, Keeps-bind, Keeps-change_site, Keeps-if, Keeps-pure, Keeps-try_call,
  On,
}
use image_bed.Variants.{delete_by_image_id, get_variants_by_image_id, variant_schema}

absent-without :
    (p q : ℕ) (path other : String) (files : List (ℕ × String))
    → has_file q other files ≡ false
    → has_file q other (without_file p path files) ≡ false
absent-without p q path other [] h = refl
absent-without p q path other (f ∷ files) h =
    let later : has_file q other files ≡ false = ground (arith, h) in
    ground (arith, h, absent-without p q path other files later)

absent_self :
    (p : ℕ) (path : String) (files : List (ℕ × String))
    → has_file p path (without_file p path files) ≡ false
absent_self p path [] = refl
absent_self p path (f ∷ files) = ground (arith, absent_self p path files)

other-update_where :
    (id : ℕ) (w : ImageVariant) (rows : List ImageVariant)
    → Memᴰ w rows
    → w.image_id ≢ id
    → Memᴰ w (
        update_where
          (scoped variant_schema (λ v. v.image_id == id))
          variant_schema.mark_deleted
          rows)
other-update_where id w [] m differ = absurd (not-nil m)
other-update_where id w (r ∷ rows) (head e) differ =
    let apart : r.image_id ≢ id = subst (λ x. x.image_id ≢ id) e differ in
    let miss : scoped variant_schema (λ v. v.image_id == id) r ≡ false = ground (arith, apart) in
    head (e ∙ rw miss refl)
other-update_where id w (r ∷ rows) (tail m) differ = tail (other-update_where id w rows m differ)

module _ (o : Outside) (provider : ℕ) where
  -- A step that removes files adds none, and leaves the variants alone.
  module _ (J : Facts)
      (drops : (v : List ImageVariant) (t : List Image) (files : List (ℕ × String)) (path : String)
        → J v t files
        → J v t (without_file provider path files)) where
    Keeps-dropping : (path : String) → Keeps J (remove o provider path)
    unfolding remove
    Keeps-dropping path =
        Keeps-bind (Keeps-try_call _ _)
          λ _. Keeps-change_site _ _ λ s h. drops s.db.variants s.db.images s.files path h

    Keeps-dropping_all : (vs : List ImageVariant) → Keeps J (delete_variant_files o provider vs)
    unfolding delete_variant_files delete_variant_file
    Keeps-dropping_all [] = Keeps-pure _ _
    Keeps-dropping_all (v ∷ vs) =
        Keeps-bind
          (Keeps-if (str_eq v.storage_path "") (Keeps-pure _ _)
            (Keeps-bind (Keeps-attempt (Keeps-dropping v.storage_path)) λ _. Keeps-evict o _ _))
          λ _. Keeps-dropping_all vs

  abbrev Absent : String → Facts
  Absent path v t f = has_file provider path f ≡ false

  module _ (works : (n : ℕ) (path : String) → o.delete_file n provider path ≡ ok tt) where
    drops_one :
        (v : ImageVariant) (s : Site)
        → str_eq v.storage_path "" ≡ false
        → On (Absent v.storage_path) (delete_variant_file o provider v s).1
    unfolding delete_variant_file remove ◌>>=◌ attempt try_call change_site
    drops_one v s e =
        rw (e, works s.calls v.storage_path)
          ((Keeps-evict o (Absent v.storage_path) (of_image_data v.identifier)).keeps _
            (absent_self provider v.storage_path s.files))

    drops_it :
        (v : ImageVariant) (vs : List ImageVariant) (s : Site)
        → Memᴰ v vs
        → str_eq v.storage_path "" ≡ false
        → On (Absent v.storage_path) (delete_variant_files o provider vs s).1
    unfolding delete_variant_files
    drops_it v [] s m e = absurd (not-nil m)
    drops_it v (x ∷ vs) s (head same) e =
        bind-leaves _ _ (On (Absent v.storage_path)) s (delete_variant_file-IsTotal o provider x)
          λ _.
            (Keeps-dropping_all (Absent v.storage_path)
                (λ w t f path h. absent-without provider provider path v.storage_path f h) vs).keeps
              _
              (subst (λ y. On (Absent v.storage_path) (delete_variant_file o provider y s).1) same
                (drops_one v s e))
    drops_it v (x ∷ vs) s (tail m) e =
        bind-leaves _ _ (On (Absent v.storage_path)) s (delete_variant_file-IsTotal o provider x)
          λ _. drops_it v vs _ m e

  Keeps-delete_rows :
      (J : Facts) (id : ℕ)
      → ((v : List ImageVariant) (t : List Image) (f : List (ℕ × String))
          → J v t f
          → J
              (update_where
                (scoped variant_schema (λ v. v.image_id == id))
                variant_schema.mark_deleted
                v)
              t
              f)
      → Keeps J (query (delete_by_image_id o.env id))
  unfolding query delete_by_image_id
  Keeps-delete_rows J id mark = record {
    keeps = λ s h.
        elim (o.env.variants.delete_law s.db.sent (λ v. v.image_id == id) s.db.variants) [
          | inl (why, e) ↦ rw e h
          | inr e ↦ rw e (mark s.db.variants s.db.images s.files h)
        ];
  }

module _ (o : Outside) (provider : ℕ) (img : Image) where
  keeps_others :
      (w : ImageVariant) (vs : List ImageVariant)
      → w.image_id ≢ img.id
      → Keeps (λ v t f. Memᴰ w v) (delete_variants_at o img vs (ok provider))
  unfolding delete_variants_at
  keeps_others w vs differ =
      Keeps-bind (Keeps-dropping_all o provider (λ v t f. Memᴰ w v) (λ v t f path m. m) vs) λ _.
        Keeps-bind
          (Keeps-attempt (
            Keeps-delete_rows o provider (λ v t f. Memᴰ w v) img.id
              (λ v t f m. other-update_where img.id w v m differ)))
          λ _. Keeps-evict o _ _

  drops_path :
      (v : ImageVariant) (vs : List ImageVariant) (s : Site)
      → ((n : ℕ) (path : String) → o.delete_file n provider path ≡ ok tt)
      → Memᴰ v vs
      → str_eq v.storage_path "" ≡ false
      → On (Absent o provider v.storage_path) (delete_variants_at o img vs (ok provider) s).1
  unfolding delete_variants_at
  drops_path v vs s works m e =
      bind-leaves _ _ (On (Absent o provider v.storage_path)) s
        (delete_variant_files-IsTotal o provider vs)
        λ _.
          (Keeps-bind
              (Keeps-attempt (
                Keeps-delete_rows o provider (Absent o provider v.storage_path) img.id
                  (λ v t f h. h)))
              (λ _. Keeps-evict o _ _)).keeps
            _ (drops_it o provider works v vs s m e)

abbrev pub belongs_to : Image → ImageVariant → Bool
belongs_to img v = v.image_id == img.id

-- The live variants of an image.
abbrev pub variants_of : Image → List ImageVariant → List ImageVariant
variants_of img rows = select (scoped variant_schema (belongs_to img)) rows

-- Where two images share the path of a variant, and the provider deletes what it is asked to,
-- deleting the variants of one image takes away the file of the other's: the row of the other
-- image's variant stays as it is, and no file lies at its path any more.
pub delete_variants-strands :
    (o : Outside) (provider : ℕ) (img : Image) (v w : ImageVariant) (s : Site)
    → get_storage_provider_by_id o img.storage_config_id ≡ ok provider
    → ((n : ℕ) (path : String) → o.delete_file n provider path ≡ ok tt)
    → o.env.variants.find s.db.sent (belongs_to img) s.db.variants
      ≡ ok (variants_of img s.db.variants)
    → Memᴰ v (variants_of img s.db.variants)
    → str_eq v.storage_path "" ≡ false
    → Memᴰ w s.db.variants
    → w.image_id ≢ img.id
    → w.storage_path ≡ v.storage_path
    → let s' = (delete_variants_for_image o img s).1 in
      Memᴰ w s'.db.variants × (has_file provider w.storage_path s'.files ≡ false)
unfolding delete_variants_for_image delete_variants_found ◌>>=◌ get_variants_by_image_id attempt
    query
delete_variants-strands o provider img v w s at_provider works lookup mine path_set other differ
      shared =
    rw (lookup, at_provider)
      (
        (keeps_others o provider img w mine_all differ).keeps asked other,
        subst
            (λ path.
              has_file provider path (delete_variants_at o img mine_all (ok provider) asked).1.files
              ≡ false)
            (sym shared) (drops_path o provider img v mine_all asked works mine path_set),
      )
  where
    asked : Site
    asked = record s { db = record s.db { sent = suc s.db.sent } }

    mine_all : List ImageVariant
    mine_all = variants_of img s.db.variants

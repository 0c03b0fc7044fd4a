-- ===== src/Deletion/Backed.antt =====
-- Deletion and the files of the other images.
use text.Mathlib.Text.{◌==◌ as str_eq}
use image_bed.Deletion.{
  delete_batch_transaction, delete_found, delete_original, delete_statements, delete_variant_file,
  delete_variant_files, delete_variants_at, delete_variants_for_image, delete_variants_found,
  remove_at, remove_if_unused,
}
use image_bed.Errors.{Result, err, ok}
use image_bed.Gorm.{scoped, update_where}
use image_bed.Gorm.Pairs.{Every-select, Every-update_where}
use image_bed.Images.Records.{
  count_images_by_storage_path, delete_images_by_identifiers_and_user,
  get_images_by_identifiers_and_user, is_owned,
}
use image_bed.Models.{Image, ImageVariant}
use image_bed.Prelude.{
  Bool, Every, Every-map, List, String, [], arith, false, if◌then◌else◌, inl, inr, refl, true, ℕ,
  ◌==◌, ◌∷◌, ◌≡◌,
}
use image_bed.Services.{Eviction, Outside, Site, attempt, evict, pure, query, ◌>>=◌}
use image_bed.Services.Backed.{
  During, IsDerived, IsUnused, Keeps-remove, Sound, Sound-deleted, count-IsUnused, derived-IsUnused,
}
use image_bed.Services.Triples.{
  Facts, Keeps, Keeps-attempt, Keeps-bind, Keeps-change_site, Keeps-failing, Keeps-if,
  Keeps-if_true, Keeps-on_images, Keeps-pure, Keeps-transaction, Keeps-try_call, On,
}
use image_bed.Variants.{
  delete_by_image_id, get_variants_by_image_id, image_schema, on_images, variant_schema,
}

module _ (o : Outside) where
  Keeps-mark :
      (J : Facts) (p : Image → Bool)
      → ((v : List ImageVariant) (t : List Image) (files : List (ℕ × String))
          → J v t files
          → J v (update_where (scoped image_schema p) image_schema.mark_deleted t) files)
      → Keeps J (query (on_images (λ k. o.env.images.delete k p)))
  unfolding query
  Keeps-mark J p mark = record {
    keeps = λ s h. elim (o.env.images.delete_law s.db.sent p s.db.images) [
      | inl (why, e) ↦ rw e h
      | inr e ↦ rw e (mark s.db.variants s.db.images s.files h)
    ];
  }

  Keeps-statements :
      (J : Facts)
      → ((p : Image → Bool) (v : List ImageVariant) (t : List Image) (files : List (ℕ × String))
          → J v t files
          → J v (update_where p image_schema.mark_deleted t) files)
      → (x : String) (xs : List String) (user_id : ℕ)
      → Keeps J (delete_statements o (x ∷ xs) user_id)
  unfolding delete_statements delete_found get_images_by_identifiers_and_user
      delete_images_by_identifiers_and_user
  Keeps-statements J mark x xs user_id =
      Keeps-bind
        (Keeps-failing _
          (Keeps-on_images J (λ k t. o.env.images.find k (is_owned (x ∷ xs) user_id) t)))
        found
    where
      found : (images : List Image) → Keeps J (delete_found o (x ∷ xs) user_id images)
      found [] = Keeps-pure J _
      found (i ∷ is) = Keeps-bind (Keeps-failing _ (Keeps-try_call J _)) λ _.
          Keeps-bind (Keeps-change_site J _ (λ s h. h)) λ _.
            Keeps-bind
              (Keeps-failing _ (
                Keeps-mark J (is_owned (x ∷ xs) user_id)
                  (λ v t files. mark (scoped image_schema (is_owned (x ∷ xs) user_id)) v t files)))
              λ n. Keeps-pure J _

  pub Keeps-delete_batch_transaction :
      (identifiers : List String) (user_id : ℕ)
      → Keeps (Sound o) (delete_batch_transaction o identifiers user_id)
  unfolding delete_batch_transaction
  Keeps-delete_batch_transaction [] user_id = Keeps-pure (Sound o) _
  Keeps-delete_batch_transaction (x ∷ xs) user_id =
      Keeps-transaction o.commit (Keeps-statements (Sound o) (Sound-deleted o) x xs user_id)
        (λ files. Keeps-statements (λ v i f. f ≡ files) (λ p v t f e. e) x xs user_id)

  pub Keeps-evict : (J : Facts) (e : Eviction) → Keeps J (evict o e)
  unfolding evict
  Keeps-evict J e = Keeps-change_site J _ λ s h. keeps_facts o.has_cache s h
    where
      keeps_facts :
          (b : Bool) (s : Site)
          → On J s
          → On J (if b then record s { evictions = e ∷ s.evictions } else s)
      keeps_facts true s h = h
      keeps_facts false s h = h

  Keeps-delete_variant_files :
      (images : List Image) (provider : ℕ) (vs : List ImageVariant)
      → Every (λ v. IsUnused v.storage_path images) vs
      → Keeps (During o images) (delete_variant_files o provider vs)
  unfolding delete_variant_files delete_variant_file
  Keeps-delete_variant_files images provider [] h = Keeps-pure _ _
  Keeps-delete_variant_files images provider (v ∷ vs) (unused, h) =
      Keeps-bind
        (Keeps-if (str_eq v.storage_path "") (Keeps-pure _ _) (
          Keeps-bind (Keeps-attempt (Keeps-remove o images provider v.storage_path unused))
            λ _. Keeps-evict _ _))
        λ _. Keeps-delete_variant_files images provider vs h

  Keeps-delete_by_image_id :
      (images : List Image) (id : ℕ) → Keeps (During o images) (query (delete_by_image_id o.env id))
  unfolding query delete_by_image_id
  Keeps-delete_by_image_id images id = record {
    keeps = λ s (same, (backed, clear)).
        elim (o.env.variants.delete_law s.db.sent (λ v. v.image_id == id) s.db.variants) [
          | inl (why, e) ↦ rw e (same, (backed, clear))
          | inr e ↦ rw e (
            same,
            (
              backed,
              (
                clear.0,
                Every-update_where IsDerived _ variant_schema.mark_deleted (λ v h. h) s.db.variants
                    clear.1,
              ),
            ),
          )
        ];
  }

  Keeps-delete_variants_at :
      (images : List Image) (img : Image) (vs : List ImageVariant) (r : Result ℕ)
      → Every (λ v. IsUnused v.storage_path images) vs
      → Keeps (During o images) (delete_variants_at o img vs r)
  unfolding delete_variants_at
  Keeps-delete_variants_at images img vs (err e) h = Keeps-pure _ _
  Keeps-delete_variants_at images img vs (ok provider) h =
      Keeps-bind (Keeps-delete_variant_files images provider vs h) λ _.
        Keeps-bind (Keeps-attempt (Keeps-delete_by_image_id images img.id)) λ _. Keeps-evict _ _

  pub Keeps-delete_variants_for_image :
      (img : Image) → Keeps (Sound o) (delete_variants_for_image o img)
  unfolding delete_variants_for_image delete_variants_found get_variants_by_image_id ◌>>=◌ attempt
      query pure
  Keeps-delete_variants_for_image img = record {
    keeps = λ s (backed, clear).
        elim (o.env.variants.find_law s.db.sent (λ v. v.image_id == img.id) s.db.variants) [
          | inl (why, e) ↦ rw e (backed, clear)
          | inr e ↦ rw e (
              ((Keeps-delete_variants_at s.db.images img _ _ (
                  Every-map IsDerived (λ v. IsUnused v.storage_path s.db.images)
                    (λ v. derived-IsUnused s.db.images v clear.0) _
                    (Every-select IsDerived _ s.db.variants clear.1))).keeps
                _ (refl, (backed, clear))).1)
        ];
  }

  Keeps-remove_at :
      (images : List Image) (path : String) (r : Result ℕ)
      → IsUnused path images
      → Keeps (During o images) (remove_at o path r)
  unfolding remove_at
  Keeps-remove_at images path (err e) h = Keeps-pure _ _
  Keeps-remove_at images path (ok provider) h =
      Keeps-bind (Keeps-attempt (Keeps-remove o images provider path h)) λ _. Keeps-pure _ _

  Keeps-remove_if_unused :
      (images : List Image) (img : Image) (n : ℕ)
      → (n ≡ 0 → IsUnused img.storage_path images)
      → Keeps (During o images) (remove_if_unused o img (ok n))
  unfolding remove_if_unused
  Keeps-remove_if_unused images img n h =
      Keeps-if_true (n == 0)
        (λ e. Keeps-remove_at images img.storage_path _ (h (ground (arith, e)))) (Keeps-pure _ _)

  Keeps-counted :
      (img : Image)
      → Keeps (Sound o) (
          attempt (query (count_images_by_storage_path o.env img.storage_path))
          >>= remove_if_unused o img)
  unfolding count_images_by_storage_path remove_if_unused ◌>>=◌ attempt query pure
  Keeps-counted img = record {
    keeps = λ s (backed, clear).
        elim (o.env.images.count_law s.db.sent (λ i. str_eq i.storage_path img.storage_path)
          s.db.images) [
            | inl (why, e) ↦ rw e (backed, clear)
            | inr e ↦ rw e (
                ((Keeps-remove_if_unused s.db.images img _
                    (count-IsUnused img.storage_path s.db.images)).keeps
                  _ (refl, (backed, clear))).1)
          ];
  }

  pub Keeps-delete_original : (img : Image) → Keeps (Sound o) (delete_original o img)
  unfolding delete_original
  Keeps-delete_original img =
      Keeps-if (str_eq img.storage_path "") (Keeps-pure _ _) (Keeps-counted img)

-- ===== src/Uploads/Process.antt =====
-- A whole upload: what processAndSaveImage leaves behind.
use mathlib.Core.Path.{subst}
use mathlib.Core.List.{Memᴰ}
use text.Mathlib.Text.{◌==◌ as str_eq}
use image_bed.Errors.{Result, err, message, ok, record_not_found}
use image_bed.Gorm.{Fails, first_of_rows, scoped}
use image_bed.Images.Records.{get_image_by_hash, get_soft_deleted_image_by_hash, has_identifier}
use image_bed.Models.{Image}
use image_bed.Prelude.{
  Bool, Bool-cases, Every, Every-map, List, String, arith, eq_iff, false, inl, inr, refl, select,
  sym, true, ◌&&◌, ◌==◌, ◌∙◌, ◌≡◌, ◌⊎◌,
}
use image_bed.Services.{Act, Outside, Site, attempt, get_storage_provider_by_id, query, throw}
use image_bed.Services.Backed.{During, IsOriginal, is_original}
use image_bed.Services.Triples.{
  After, On, Triple, attempt_rule, before_rule, bind_rule, if_rule, result_rule,
}
use image_bed.Uploads.{Saved}
use image_bed.Uploads.Facts.{IsHash, TellsContent, Unhashed, from_members, new-IsUnused}
use image_bed.Uploads.Lookup.{Every-at, first-member, first-none}
use image_bed.Uploads.Reuse.{Filed, IsFiled, same_file_rule, save_deduped_rule}
use image_bed.Uploads.Revive.{can_reuse_rule, restore_rule}
use image_bed.Uploads.Store.{Uploaded, store_rule}
use image_bed.Uploads.Upload.{Upload, after_deleted_lookup, after_lookup, reuse_if, store_upload}
use image_bed.Variants.{image_schema}

-- What the lookup of a hash found, among the rows `t`.
abbrev pub Found : String → List Image → Result Image → Type 0
Found h t (ok img) = Memᴰ img t × ((img.deleted ≡ false) × (img.file_hash ≡ h))
Found h t (err record_not_found) = Unhashed h t
Found h t (err (message why)) = Unit

abbrev FoundDeleted : String → List Image → Result Image → Type 0
FoundDeleted h t (ok img) = Memᴰ img t × (img.file_hash ≡ h)
FoundDeleted h t (err e) = Unit

live_step :
    (h : String) (t : List Image) (r : Result Image)
    → Fails r ⊎ (r ≡ first_of_rows (select (scoped image_schema (λ i. str_eq i.file_hash h)) t))
    → Found h t r
live_step h t r (inl (why, e)) = rw e tt
live_step h t (ok img) (inr e) =
    let (m, hit) = first-member (scoped image_schema (λ i. str_eq i.file_hash h)) img t (sym e) in
    (m, (ground (arith, hit), (eq_iff img.file_hash h).0 (ground (arith, hit))))
live_step h t (err record_not_found) (inr e) =
    Every-map (λ i. scoped image_schema (λ i. str_eq i.file_hash h) i ≡ false)
      (λ i. i.deleted ≡ false → str_eq i.file_hash h ≡ false)
      (λ i miss live. ground (arith, miss, live)) t
      (first-none (scoped image_schema (λ i. str_eq i.file_hash h)) t (sym e))
live_step h t (err (message why)) (inr e) = tt

removed_step :
    (h : String) (t : List Image) (r : Result Image)
    → Fails r ⊎ (r ≡ first_of_rows (select (λ i. str_eq i.file_hash h && i.deleted) t))
    → FoundDeleted h t r
removed_step h t r (inl (why, e)) = rw e tt
removed_step h t (ok img) (inr e) =
    let (m, hit) = first-member (λ i. str_eq i.file_hash h && i.deleted) img t (sym e) in
    (m, (eq_iff img.file_hash h).0 (ground (arith, hit)))
removed_step h t (err why) (inr e) = tt

module _ (o : Outside) (u : Upload) (t : List Image)
    (at_provider : get_storage_provider_by_id o u.storage_id ≡ ok u.provider)
    (tells : TellsContent o u t) where
  abbrev Ends : String → Act Saved → Type 0
  Ends h m = Triple (On (During o t)) m (Uploaded o u t h) (On (During o t))

  pub lookup_rule :
      (h : String)
      → Triple
          (On (During o t))
          (attempt (query (get_image_by_hash o.env h)))
          (λ r s. On (During o t) s × Found h t r)
          (On (During o t))
  unfolding attempt query get_image_by_hash
  lookup_rule h = record {
    runs = λ s (same, sound). (
      (same, sound),
      subst (λ t. Found h t (query (get_image_by_hash o.env h) s).0) same
          (live_step h s.db.images _
            (o.env.images.first_law s.db.sent (λ i. str_eq i.file_hash h) s.db.images)),
    );
  }

  deleted_rule :
      (h : String)
      → Triple
          (On (During o t))
          (attempt (query (get_soft_deleted_image_by_hash o.env h)))
          (λ r s. On (During o t) s × FoundDeleted h t r)
          (On (During o t))
  unfolding attempt query get_soft_deleted_image_by_hash
  deleted_rule h = record {
    runs = λ s (same, sound). (
      (same, sound),
      subst (λ t. FoundDeleted h t (query (get_soft_deleted_image_by_hash o.env h) s).0) same
          (removed_step h s.db.images _ (
            o.env.images.unscoped_law s.db.sent (λ i. str_eq i.file_hash h && i.deleted)
              s.db.images)),
    );
  }

  store_step : (h mime : String) → IsHash o u h → Unhashed h t → Ends h (store_upload o u mime h)
  store_step h mime is_hash unhashed =
      store_rule o u t h at_provider
        (λ ext date. new-IsUnused o u t h ext date tells is_hash unhashed) mime

  -- No live row has what the deleted one with the same content has.
  none_shares :
      (h : String) (img : Image) (p : Image → Bool)
      → Memᴰ img t
      → img.file_hash ≡ h
      → Unhashed h t
      → ((i : Image)
          → p i ≡ true
          → (i.storage_path ≡ img.storage_path) ⊎ (i.identifier ≡ img.identifier))
      → Every (λ i. i.deleted ≡ false → p i ≡ false) t
  none_shares h img p m content unhashed shares =
      from_members (λ i. i.deleted ≡ false → p i ≡ false) t λ i mi live. misses i mi live
    where
      misses : (i : Image) → Memᴰ i t → i.deleted ≡ false → p i ≡ false
      misses i mi live = elim (Bool-cases (p i)) [
        | inl hit ↦
            let same : i.file_hash ≡ h = tells.rows_agree i img mi m (shares i hit) ∙ content in
            let yes : str_eq i.file_hash h ≡ true = (eq_iff i.file_hash h).1 same in
            let no : str_eq i.file_hash h ≡ false =
              Every-at (λ j. j.deleted ≡ false → str_eq j.file_hash h ≡ false) i t unhashed mi
                live in
            absurd cc
        | inr miss ↦ miss
      ]

  reuse_step :
      (h mime : String) (img : Image) (r : Result Bool)
      → IsHash o u h
      → Unhashed h t
      → Memᴰ img t
      → img.file_hash ≡ h
      → Triple
          (λ s.
            After
              (λ b s. On (During o t) s × (b ≡ true → IsFiled o img s.files))
              (On (During o t))
              r
              s)
          (reuse_if o u r img mime h)
          (Uploaded o u t h)
          (On (During o t))
  unfolding reuse_if
  reuse_step h mime img (err e) is_hash unhashed m content = store_step h mime is_hash unhashed
  reuse_step h mime img (ok false) is_hash unhashed m content =
      before_rule (λ s (d, _). d) (store_step h mime is_hash unhashed)
  reuse_step h mime img (ok true) is_hash unhashed m content =
      if_rule (img.user_id == u.user_id)
        (λ _.
          before_rule (λ s (d, _). d)
            (result_rule (λ a s x. absurd x)
              (restore_rule o u (During o t) t img (λ _ _ _ (same, _). same) none_named)))
        (λ _. before_rule filed (record {
          runs = λ s (k, original). (save_deduped_rule o u h t img original content).runs s k;
        }))
    where
      none_named : Every (λ i. i.deleted ≡ false → has_identifier img.identifier i ≡ false) t
      none_named =
          none_shares h img (has_identifier img.identifier) m content unhashed
            (λ i hit. inr ((eq_iff i.identifier img.identifier).0 hit))

      filed :
          (s : Site)
          → On (During o t) s × (true ≡ true → IsFiled o img s.files)
          → On (Filed o t img) s × (is_original img.storage_path ≡ true)
      filed s ((same, sound), there) = (
        ((same, sound), there refl),
        Every-at IsOriginal img s.db.images sound.1.0 (subst (Memᴰ img) (sym same) m),
      )

  deleted_step :
      (h mime : String) (r : Result Image)
      → IsHash o u h
      → Unhashed h t
      → Triple
          (λ s. On (During o t) s × FoundDeleted h t r)
          (after_deleted_lookup o u r mime h)
          (Uploaded o u t h)
          (On (During o t))
  unfolding after_deleted_lookup throw
  deleted_step h mime (ok img) is_hash unhashed = record {
    runs = λ s (d, (m, content)). (chain m content).runs s d;
  }
    where
      chain :
          Memᴰ img t
          → img.file_hash ≡ h
          → Triple
              (On (During o t))
              (after_deleted_lookup o u (ok img) mime h)
              (Uploaded o u t h)
              (On (During o t))
      chain m content =
          bind_rule
            (attempt_rule (
              can_reuse_rule o u t img (
                none_shares h img (λ i. str_eq i.storage_path img.storage_path) m content unhashed
                  (λ i hit. inl ((eq_iff i.storage_path img.storage_path).0 hit)))))
            λ r. reuse_step h mime img r is_hash unhashed m content
  deleted_step h mime (err record_not_found) is_hash unhashed =
      before_rule (λ s (d, _). d) (store_step h mime is_hash unhashed)
  deleted_step h mime (err (message why)) is_hash unhashed = record { runs = λ s (d, _). d }

  pub lookup_step :
      (h mime : String) (r : Result Image)
      → IsHash o u h
      → Triple
          (λ s. On (During o t) s × Found h t r)
          (after_lookup o u r mime h)
          (Uploaded o u t h)
          (On (During o t))
  unfolding after_lookup throw
  lookup_step h mime (ok img) is_hash = record {
    runs = λ s (d, (m, (live, content))). (same_file_rule o u h t img m live content).runs s d;
  }
  lookup_step h mime (err record_not_found) is_hash = record {
    runs = λ s (d, unhashed).
        (bind_rule (deleted_rule h) λ r. deleted_step h mime r is_hash unhashed).runs s d;
  }
  lookup_step h mime (err (message why)) is_hash = record { runs = λ s (d, _). d }

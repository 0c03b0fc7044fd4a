-- ===== src/Uploads/Store.antt =====
-- The upload of a file that the table does not have: the file is saved, then the row.
use mathlib.Core.Path.{subst}
use text.Mathlib.TextPositions.{eq_refl}
use image_bed.Errors.{Result, err, ok, ok-injective}
use image_bed.Images.Records.{save_image}
use image_bed.Models.{Image, ImageVariant}
use image_bed.Prelude.{List, String, arith, false, sym, true, ℕ, ◌∙◌, ◌≡◌}
use image_bed.Services.{
  Outside, Site, attempt, change_site, get_storage_provider_by_id, has_file, pure, query, save,
  throw, ◌>>=◌,
}
use image_bed.Services.Backed.{AllBacked-more, During, IsBacked, IsUnused, Keeps-remove, Sound}
use image_bed.Services.Total.{total_rule}
use image_bed.Services.Triples.{
  After, Facts, Keeps-call, Keeps-try_call, On, Triple, attempt_rule, bind_rule, failing_rule,
  keeping, weaken_rule,
}
use image_bed.Uploads.{
  Saved, StorageIdentifiers, generate_original_identifiers, get_safe_file_extension, roll_back_file,
}
use image_bed.Uploads.Facts.{generated-IsOriginal}
use image_bed.Uploads.Steps.{
  Holding, IsLike, Keeps-add_to_default_album, Keeps-get_upload_source_size, Keeps-start_conversion,
  Keeps-submit_warm_cache, add_to_default_album-IsTotal, save_image_rule, start_conversion-IsTotal,
  submit_warm_cache-IsTotal,
}
use image_bed.Uploads.Upload.{Upload, finish_upload, new_image, store_new, store_upload}

-- After an upload into `rows`: the image is a live row of the user, with the content of the hash,
-- and the rows are `rows`, or these with the image at the end.
abbrev pub Uploaded : Outside → Upload → List Image → String → Saved → Site → Type 0
Uploaded o u rows h saved s =
    On (Holding o rows saved.image) s
    × ((saved.image.user_id ≡ u.user_id)
        × ((saved.image.deleted ≡ false) × (saved.image.file_hash ≡ h)))

module _ (o : Outside) (u : Upload) (t : List Image) where
  abbrev Stored : String → Facts
  Stored path v t' f = During o t v t' f × (has_file u.provider path f ≡ true)

  stored-sound :
      (path : String) (v : List ImageVariant) (t' : List Image) (f : List (ℕ × String))
      → Stored path v t' f
      → (t' ≡ t) × Sound o v t' f
  stored-sound path v t' f h = h.0

  save_rule :
      (path : String)
      → Triple (On (During o t)) (save o u.provider path) (λ _. On (Stored path)) (On (During o t))
  unfolding save change_site
  save_rule path = bind_rule (keeping (Keeps-try_call (During o t) _)) λ _. record {
    runs = λ s (same, (backed, rest)). (
      (same, (AllBacked-more o (u.provider, path) s.files s.db.images backed, rest)),
      ground (arith, eq_refl path),
    );
  }

  row-IsBacked :
      (row : Image)
      → get_storage_provider_by_id o row.storage_config_id ≡ ok u.provider
      → (v : List ImageVariant) (t' : List Image) (f : List (ℕ × String))
      → Stored row.storage_path v t' f
      → IsBacked o f row
  row-IsBacked row at_provider v t' f h live p e =
      subst (λ q. has_file q row.storage_path f ≡ true) (ok-injective (sym at_provider ∙ e)) h.1

  rolled :
      (path : String) (row : Image) (r : Result Image)
      → IsUnused path t
      → Triple
          (λ s. After (λ img s. On (Holding o t img) s × IsLike row img) (On (Stored path)) r s)
          (roll_back_file o u.provider path r)
          (λ img s. On (Holding o t img) s × IsLike row img)
          (On (During o t))
  unfolding roll_back_file pure throw attempt ◌>>=◌
  rolled path row (ok img) unused = record { runs = λ s h. h }
  rolled path row (err e) unused = record {
    runs = λ s h. (Keeps-remove o t u.provider path unused).keeps s h.0;
  }

  finish_rule :
      (h : String) (img : Image)
      → Triple
          (λ s.
            On (Holding o t img) s
            × ((img.user_id ≡ u.user_id) × ((img.deleted ≡ false) × (img.file_hash ≡ h))))
          (finish_upload o u.source u.user_id u.album_id img)
          (Uploaded o u t h)
          (On (During o t))
  unfolding finish_upload pure
  finish_rule h img = record { runs = λ s (held, facts). (chain facts).runs s held }
    where
      chain :
          (img.user_id ≡ u.user_id) × ((img.deleted ≡ false) × (img.file_hash ≡ h))
          → Triple
              (On (Holding o t img))
              (finish_upload o u.source u.user_id u.album_id img)
              (Uploaded o u t h)
              (On (During o t))
      chain facts =
          bind_rule
            (total_rule (add_to_default_album-IsTotal o _ _ _)
              (Keeps-add_to_default_album o _ _ _ _))
            λ _.
              bind_rule (total_rule (submit_warm_cache-IsTotal o _) (Keeps-submit_warm_cache o _ _))
                λ _.
                  bind_rule
                    (total_rule (start_conversion-IsTotal o _ _) (Keeps-start_conversion o _ _ _))
                    λ consumed. record { runs = λ s held. (held, facts) }

  module _ (h : String) (at_provider : get_storage_provider_by_id o u.storage_id ≡ ok u.provider)
      (unused : (ext date : String)
        → IsUnused (generate_original_identifiers h ext date).storage_path t) where
    save_row_rule :
        (mime ext date : String) (size : ℕ) (dims : ℕ × ℕ)
        → let ids = generate_original_identifiers h ext date in
          Triple
            (On (Stored ids.storage_path))
            (attempt (
                query (
                  save_image o.env
                    (new_image ids u.source mime h u.user_id u.storage_id u.is_public size dims)))
              >>= λ saved.
                  roll_back_file o u.provider ids.storage_path saved
                  >>= finish_upload o u.source u.user_id u.album_id)
            (Uploaded o u t h)
            (On (During o t))
    save_row_rule mime ext date size dims =
        bind_rule
          (attempt_rule (
            save_image_rule o (Stored ids.storage_path) t row (stored-sound ids.storage_path)
              (row-IsBacked row at_provider) (generated-IsOriginal h ext date)))
          λ r. bind_rule (rolled ids.storage_path row r (unused ext date)) (finish_rule h)
      where
        ids : StorageIdentifiers
        ids = generate_original_identifiers h ext date

        row : Image
        row = new_image ids u.source mime h u.user_id u.storage_id u.is_public size dims

    pub store_rule :
        (mime : String)
        → Triple (On (During o t)) (store_upload o u mime h) (Uploaded o u t h) (On (During o t))
    unfolding store_upload store_new
    store_rule mime = bind_rule (failing_rule _ (keeping (Keeps-try_call (During o t) _))) λ _.
        bind_rule (keeping (Keeps-call (During o t) _)) λ dims.
          bind_rule (failing_rule _ (keeping (Keeps-try_call (During o t) _))) λ _.
            bind_rule (keeping (Keeps-call (During o t) _)) λ date.
              let path =
                (generate_original_identifiers h (get_safe_file_extension mime)
                  date).storage_path in
              bind_rule (failing_rule _ (save_rule path)) λ _.
                bind_rule
                  (failing_rule _ (
                    weaken_rule (λ s k. k.0)
                      (keeping (Keeps-get_upload_source_size o (Stored path) u.source))))
                  λ size. save_row_rule mime (get_safe_file_extension mime) date size dims

-- ===== src/Uploads/Reuse.antt =====
-- The upload of a file that is already there: a second record of it, or the first one again.
use mathlib.Core.Path.{subst}
use mathlib.Core.List.{Memᴰ}
use image_bed.Errors.{ok}
use image_bed.Models.{Image, ImageVariant}
use image_bed.Prelude.{List, String, arith, false, inl, sym, true, ℕ, ◌==◌, ◌∙◌, ◌≡◌}
use image_bed.Services.{Outside, Site, get_storage_provider_by_id, has_file, pure, ◌>>=◌}
use image_bed.Services.Backed.{During, IsBacked, IsOriginal, Sound, is_original}
use image_bed.Services.Total.{total_rule}
use image_bed.Services.Triples.{
  Facts, Keeps-call, On, Triple, before_rule, bind_rule, failing_rule, if_rule, keeping,
  weaken_rule,
}
use image_bed.Uploads.{
  create_deduped_image_record, duplicate, same_file, save_deduped, submit_warm_cache,
}
use image_bed.Uploads.Lookup.{Every-at}
use image_bed.Uploads.Steps.{
  Holding, Keeps-submit_convert, Keeps-submit_warm_cache, save_image_rule, submit_convert-IsTotal,
  submit_warm_cache-IsTotal,
}
use image_bed.Uploads.Store.{Uploaded}
use image_bed.Uploads.Upload.{Upload}

-- The image's file is at its provider.
abbrev pub IsFiled : Outside → Image → List (ℕ × String) → Type 0
IsFiled o img f =
    (p : ℕ)
    → get_storage_provider_by_id o img.storage_config_id ≡ ok p
    → has_file p img.storage_path f ≡ true

abbrev pub Filed : Outside → List Image → Image → Facts
Filed o rows img v t f = During o rows v t f × IsFiled o img f

module _ (o : Outside) (u : Upload) (h : String) (rows : List Image) where
  filed-sound :
      (img : Image) (v : List ImageVariant) (t : List Image) (f : List (ℕ × String))
      → Filed o rows img v t f
      → (t ≡ rows) × Sound o v t f
  filed-sound img v t f k = k.0

  pub save_deduped_rule :
      (img : Image)
      → is_original img.storage_path ≡ true
      → img.file_hash ≡ h
      → Triple
          (On (Filed o rows img))
          (save_deduped o img u.user_id u.source u.is_public)
          (Uploaded o u rows h)
          (On (During o rows))
  unfolding save_deduped create_deduped_image_record pure
  save_deduped_rule img original content =
      bind_rule
        (failing_rule _ (
          bind_rule (weaken_rule (λ s k. k.0) (keeping (Keeps-call (Filed o rows img) _))) λ date.
            weaken_rule (λ s k. k.0)
              (save_image_rule o (Filed o rows img) rows _ (filed-sound img)
                (λ v t f k live p e. k.1 p e) original)))
        λ new. record {
          runs = λ s (held, (owner, (live, like))).
              (warm new (owner, (live, like ∙ content))).runs s held;
        }
    where
      warm :
          (new : Image)
          → (new.user_id ≡ u.user_id) × ((new.deleted ≡ false) × (new.file_hash ≡ h))
          → Triple
              (On (Holding o rows new))
              (submit_warm_cache o new >>= λ _. pure (duplicate new))
              (Uploaded o u rows h)
              (On (During o rows))
      warm new facts =
          bind_rule (total_rule (submit_warm_cache-IsTotal o new) (Keeps-submit_warm_cache o _ new))
            λ _. record { runs = λ s held. (held, facts) }

  abbrev Held : Image → Facts
  Held img v t f = During o rows v t f × Memᴰ img t

  -- The live image with the hash is the upload's.
  pub same_file_rule :
      (img : Image)
      → Memᴰ img rows
      → img.deleted ≡ false
      → img.file_hash ≡ h
      → Triple
          (On (During o rows))
          (same_file o img u.user_id u.source u.is_public)
          (Uploaded o u rows h)
          (On (During o rows))
  unfolding same_file pure
  same_file_rule img m live content =
      before_rule (λ s (same, sound). ((same, sound), subst (Memᴰ img) (sym same) m))
        (if_rule (img.user_id == u.user_id)
          (λ e.
            bind_rule
              (total_rule (submit_warm_cache-IsTotal o img)
                (Keeps-submit_warm_cache o (Held img) img))
              λ _.
                bind_rule
                  (total_rule (submit_convert-IsTotal o img)
                    (Keeps-submit_convert o (Held img) img))
                  λ _. record {
                    runs = λ s (d, m). ((d.1, (m, inl d.0)), (ground (arith, e), (live, content)));
                  })
          (λ _. before_rule filed (record {
            runs = λ s (filed, original). (save_deduped_rule img original content).runs s filed;
          })))
    where
      filed :
          (s : Site)
          → On (Held img) s
          → On (Filed o rows img) s × (is_original img.storage_path ≡ true)
      filed s ((same, sound), m) = (
        ((same, sound), λ p e. Every-at (IsBacked o s.files) img s.db.images sound.0 m live p e),
        Every-at IsOriginal img s.db.images sound.1.0 m,
      )

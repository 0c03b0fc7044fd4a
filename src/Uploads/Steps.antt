-- ===== src/Uploads/Steps.antt =====
-- The steps of an upload, over the rows and the files.
use mathlib.Core.List.{Memᴰ}
use mathlib.Core.List.Memᴰ.{append_right, head}
use text.Mathlib.Text.{◌==◌ as str_eq}
use image_bed.Images.Records.{image_defaults, save_image}
use image_bed.Models.{Image, ImageVariant}
use image_bed.Prelude.{
  Bool, Every-append, List, String, [], ap, false, inl, inr, ltb, not, refl, true, ℕ, ◌&&◌, ◌++◌,
  ◌∷◌, ◌≡◌, ◌⊎◌,
}
use image_bed.Services.{
  Job, Outside, Site, UploadSource, add_image_to_album, call, note_job, query,
  submit_background_task, ◌>>=◌,
}
use image_bed.Services.Backed.{IsBacked, IsOriginal, Sound}
use image_bed.Services.Total.{IsTotal, attempt-IsTotal, bind-IsTotal, if-IsTotal, pure-IsTotal}
use image_bed.Services.Triples.{
  Facts, Keeps, Keeps-attempt, Keeps-bind, Keeps-call, Keeps-change_site, Keeps-if, Keeps-pure,
  Keeps-try_call, On, Triple,
}
use image_bed.Uploads.{
  add_to_default_album, get_upload_source_size, start_conversion, submit_convert, submit_warm_cache,
}

-- The rows are `rows`, or they are these and the image, which is public then.
abbrev pub IsRecorded : List Image → Image → List Image → Type 0
IsRecorded rows img t = (t ≡ rows) ⊎ ((t ≡ rows ++ img ∷ []) × (img.is_public ≡ true))

-- The facts with the image among the rows.
abbrev pub Holding : Outside → List Image → Image → Facts
Holding o rows img v t f = Sound o v t f × (Memᴰ img t × IsRecorded rows img t)

-- An image of the row's owner and content.
abbrev pub IsLike : Image → Image → Type 0
IsLike row img =
    (img.user_id ≡ row.user_id) × ((img.deleted ≡ row.deleted) × (img.file_hash ≡ row.file_hash))

module _ (o : Outside) where
  append-Sound :
      (row : Image) (v : List ImageVariant) (t : List Image) (f : List (ℕ × String))
      → IsBacked o f row
      → IsOriginal row
      → Sound o v t f
      → Sound o v (t ++ row ∷ []) f
  append-Sound row v t f backed original (all, (originals, derived)) = (
    Every-append (IsBacked o f) t (row ∷ []) all (backed, tt),
    (Every-append IsOriginal t (row ∷ []) originals (original, tt), derived),
  )

  -- SaveImage of a row whose file is there.
  pub save_image_rule :
      (J : Facts) (rows : List Image) (row : Image)
      → ((v : List ImageVariant) (t : List Image) (f : List (ℕ × String))
          → J v t f
          → (t ≡ rows) × Sound o v t f)
      → ((v : List ImageVariant) (t : List Image) (f : List (ℕ × String))
          → J v t f
          → IsBacked o f row)
      → IsOriginal row
      → Triple
          (On J)
          (query (save_image o.env row))
          (λ img s. On (Holding o rows img) s × IsLike row img)
          (On J)
  unfolding query save_image
  save_image_rule J rows row sound backed original = record {
    runs = λ s h.
        elim (o.env.images.insert_law s.db.sent
          (record (image_defaults row) { updated_at = o.env.now s.db.sent }) s.db.images) [
            | inl (why, e) ↦ rw e h
            | inr (i, above, new, free, e) ↦ rw e (
              (
                append-Sound _ s.db.variants s.db.images s.files
                    (backed s.db.variants s.db.images s.files h) original
                    (sound s.db.variants s.db.images s.files h).1,
                (
                  append_right s.db.images (head refl),
                  inr (
                    ap
                        (λ t.
                          t
                          ++ record (image_defaults row) {
                            updated_at = o.env.now s.db.sent;
                            id = i;
                          }
                            ∷ [])
                        (sound s.db.variants s.db.images s.files h).0,
                    refl,
                  ),
                ),
              ),
              (refl, (refl, refl)),
            )
          ];
  }

  module _ (J : Facts) where
    pub Keeps-submit : (job : Job) → Keeps J (submit_background_task o job)
    unfolding submit_background_task
    Keeps-submit job =
        Keeps-bind (Keeps-call J _) λ accepted. record { keeps = λ s h. noted accepted s h }
      where
        noted : (b : Bool) (s : Site) → On J s → On J (note_job o job b s).1
        noted true s h = unfold note_job in h
        noted false s h = unfold note_job in h

    pub Keeps-submit_warm_cache : (img : Image) → Keeps J (submit_warm_cache o img)
    unfolding submit_warm_cache
    Keeps-submit_warm_cache img = Keeps-submit _

    pub Keeps-submit_convert : (img : Image) → Keeps J (submit_convert o img)
    unfolding submit_convert
    Keeps-submit_convert img =
        Keeps-if o.has_converter (Keeps-bind (Keeps-submit _) λ _. Keeps-pure J _) (Keeps-pure J _)

    pub Keeps-add_to_default_album :
        (album_id user_id : ℕ) (img : Image) → Keeps J (add_to_default_album o album_id user_id img)
    unfolding add_to_default_album add_image_to_album
    Keeps-add_to_default_album album_id user_id img =
        Keeps-if (ltb 0 album_id && o.has_albums)
          (Keeps-bind
            (Keeps-attempt (
              Keeps-bind (Keeps-try_call J _) λ _.
                Keeps-bind (Keeps-try_call J _)
                  λ _. Keeps-bind (Keeps-try_call J _) λ _. Keeps-change_site J _ λ s h. h))
            λ _. Keeps-pure J _)
          (Keeps-pure J _)

    pub Keeps-start_conversion :
        (source : UploadSource) (img : Image) → Keeps J (start_conversion o source img)
    unfolding start_conversion
    Keeps-start_conversion source img = Keeps-if (not o.has_converter) (Keeps-pure J _) (
        Keeps-if (not (str_eq source.temp_file_path "")) (Keeps-submit _)
          (Keeps-bind (Keeps-submit _) λ _. Keeps-pure J _))

    pub Keeps-get_upload_source_size :
        (source : UploadSource) → Keeps J (get_upload_source_size o source)
    unfolding get_upload_source_size
    Keeps-get_upload_source_size source = Keeps-if (ltb 0 source.file_size) (Keeps-pure J _) (
        Keeps-bind (Keeps-try_call J _) λ _.
          Keeps-bind (Keeps-try_call J _) λ _. Keeps-bind (Keeps-try_call J _) λ _. Keeps-pure J _)

  submit-IsTotal : (job : Job) → IsTotal (submit_background_task o job)
  unfolding submit_background_task note_job call ◌>>=◌
  submit-IsTotal job = record { answers = λ s. (o.accepts s.calls job, refl) }

  pub submit_warm_cache-IsTotal : (img : Image) → IsTotal (submit_warm_cache o img)
  unfolding submit_warm_cache
  submit_warm_cache-IsTotal img = submit-IsTotal _

  pub submit_convert-IsTotal : (img : Image) → IsTotal (submit_convert o img)
  unfolding submit_convert
  submit_convert-IsTotal img =
      if-IsTotal o.has_converter (bind-IsTotal (submit-IsTotal _) λ _. pure-IsTotal _)
        (pure-IsTotal _)

  pub add_to_default_album-IsTotal :
      (album_id user_id : ℕ) (img : Image) → IsTotal (add_to_default_album o album_id user_id img)
  unfolding add_to_default_album
  add_to_default_album-IsTotal album_id user_id img =
      if-IsTotal (ltb 0 album_id && o.has_albums)
        (bind-IsTotal (attempt-IsTotal _) λ _. pure-IsTotal _) (pure-IsTotal _)

  pub start_conversion-IsTotal :
      (source : UploadSource) (img : Image) → IsTotal (start_conversion o source img)
  unfolding start_conversion
  start_conversion-IsTotal source img = if-IsTotal (not o.has_converter) (pure-IsTotal _) (
      if-IsTotal (not (str_eq source.temp_file_path "")) (submit-IsTotal _)
        (bind-IsTotal (submit-IsTotal _) λ _. pure-IsTotal _))

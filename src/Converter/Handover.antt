-- ===== src/Converter/Handover.antt =====
-- Who owns the staged file and what the submitted task carries.
use text.Mathlib.Text.{◌==◌ as str_eq}
use image_bed.Converter.{
  Around, Conversion, after_failed_status, after_processing_status, avif_enabled, fail_pending,
  fail_pending_variants_on_submit_failure, first_size, format_avif, format_thumbnail_size,
  format_webp, get_storage_for_image, mark_image_processing, should_start_variant_pipeline,
  skips_image, thumbnail_enabled, webp_enabled,
}
use image_bed.Converter.Trigger.{
  after_avif, after_thumb, after_webp, convert, drop_unsubmitted, hand_over, prepare, submit,
  task_for, trigger_conversion,
}
use image_bed.Errors.{Result, err, error_text, ok}
use image_bed.Images.{update_variant_status}
use image_bed.Models.{ImageVariant, has_failed, is_image_status, processing_now}
use image_bed.Pipeline.World.{Task}
use image_bed.Prelude.{
  Bool, Bool-cases, List, Option, String, [], ap, false, if◌then◌else◌, inl, inr, none, refl, some,
  true, ℕ, ◌++◌, ◌∙◌, ◌∷◌, ◌≡◌, ◌⊎◌,
}
use image_bed.Settings.{ImageProcessingSettings}
use image_bed.Text.{◌⧺◌}
use image_bed.Variants.{Db}

-- The tasks and the removed files, which only two of the steps change.
pub record Aside (c c' : Conversion) : Type 0 where
  pub same_tasks : c'.tasks ≡ c.tasks
  pub same_removed : c'.removed ≡ c.removed

Aside-refl : (c : Conversion) → Aside c c
Aside-refl c = record { same_tasks = refl; same_removed = refl }

Aside-trans : {c d e : Conversion} → Aside c d → Aside d e → Aside c e
Aside-trans k l = record {
  same_tasks = l.same_tasks ∙ k.same_tasks;
  same_removed = l.same_removed ∙ k.same_removed;
}

module _ (a : Around) where
  after_failed_status-Aside :
      (r : Result (Unit {0})) (c : Conversion) (db : Db)
      → Aside c (after_failed_status a r (record c { db = db }))
  unfolding after_failed_status
  after_failed_status-Aside (err e) c db = record { same_tasks = refl; same_removed = refl }
  after_failed_status-Aside (ok _) c db = elim (Bool-cases a.has_cache) [
    | inl e ↦ rw e (record { same_tasks = refl; same_removed = refl })
    | inr e ↦ rw e (record { same_tasks = refl; same_removed = refl })
  ]

  fails-Aside :
      (reason : String) (vs : List (Option ImageVariant)) (c : Conversion)
      → Aside c (fail_pending_variants_on_submit_failure a reason vs c)
  unfolding fail_pending_variants_on_submit_failure
  fails-Aside reason vs c = elim (Bool-cases (fail_pending a reason vs c.db).0) [
    | inr e ↦ rw e (record { same_tasks = refl; same_removed = refl })
    | inl e ↦
        let db = (fail_pending a reason vs c.db).1 in
        let (r, db') = update_variant_status a.env c.image.id has_failed db in
        rw e (after_failed_status-Aside r c db')
  ]

  after_processing_status-Aside :
      (r : Result (Unit {0})) (c : Conversion) (db : Db)
      → Aside c (after_processing_status a r (record c { db = db }))
  unfolding after_processing_status
  after_processing_status-Aside (ok _) c db = record { same_tasks = refl; same_removed = refl }
  after_processing_status-Aside (err e) c db = record { same_tasks = refl; same_removed = refl }

  marks-Aside : (c : Conversion) → Aside c (mark_image_processing a c)
  unfolding mark_image_processing
  marks-Aside c = elim (Bool-cases (is_image_status c.image.variant_status processing_now)) [
    | inl e ↦ rw e (Aside-refl c)
    | inr e ↦
        let (r, db) = update_variant_status a.env c.image.id processing_now c.db in
        rw e (after_processing_status-Aside r c db)
  ]

  module _ (ignore : Bool) (path : String) where
    prepare-Aside :
        (enabled : Bool) (format : String) (now : ℕ) (c : Conversion)
        → Aside c (prepare a ignore path enabled format now c).1
    unfolding prepare
    prepare-Aside true format now c = record { same_tasks = refl; same_removed = refl }
    prepare-Aside false format now c = Aside-refl c

    -- A way out of the conversion: with one more task, which has the file, or with none.
    record Leaves (c : Conversion) (r : Bool × Conversion) : Type 0 where
      same_removed : r.1.removed ≡ c.removed
      outcome :
          ((r.0 ≡ true) × (t : Task) × (r.1.tasks ≡ c.tasks ++ (t, path) ∷ []))
          ⊎ ((r.0 ≡ false) × (r.1.tasks ≡ c.tasks))

    Leaves-without : {c d : Conversion} → Aside c d → Leaves c (false, d)
    Leaves-without k = record { same_removed = k.same_removed; outcome = inr (refl, k.same_tasks) }

    fails-Leaves :
        (reason : String) (vs : List (Option ImageVariant)) (c : Conversion)
        → Leaves c (false, fail_pending_variants_on_submit_failure a reason vs c)
    fails-Leaves reason vs c = Leaves-without (fails-Aside reason vs c)

    submit-Leaves :
        (s : ImageProcessingSettings) (thumb webp avif : Option ImageVariant) (pool : Option Bool)
        (c : Conversion)
        → Leaves c (submit a ignore path s thumb webp avif pool c)
    unfolding submit
    submit-Leaves s thumb webp avif none c =
        fails-Leaves "worker pool not initialized" (thumb ∷ webp ∷ avif ∷ []) c
    submit-Leaves s thumb webp avif (some accepted) c =
        elim (Bool-cases (get_storage_for_image a c.image)) [
          | inr e ↦ rw e (fails-Leaves "storage provider unavailable" (thumb ∷ webp ∷ avif ∷ []) c)
          | inl e ↦ rw e (go accepted)
        ]
      where
        go :
            (accepted : Bool)
            → Leaves c (
                if◌then◌else◌ {A = Bool × Conversion} accepted
                  (
                    true,
                    mark_image_processing a (record c {
                      tasks =
                          c.tasks ++ (task_for a ignore path s thumb webp avif c.image, path) ∷ [];
                    }),
                  )
                  (
                    false,
                    fail_pending_variants_on_submit_failure a "worker task submission rejected"
                        (thumb ∷ webp ∷ avif ∷ [])
                        c,
                  ))
        go false = fails-Leaves "worker task submission rejected" (thumb ∷ webp ∷ avif ∷ []) c
        go true =
            let k = marks-Aside (record c {
              tasks = c.tasks ++ (task_for a ignore path s thumb webp avif c.image, path) ∷ [];
            }) in
            record {
              same_removed = k.same_removed;
              outcome = inl (refl, task_for a ignore path s thumb webp avif c.image, k.same_tasks);
            }

    continue_with : {c d : Conversion} {r : Bool × Conversion} → Aside c d → Leaves d r → Leaves c r
    continue_with k l = record {
      same_removed = l.same_removed ∙ k.same_removed;
      outcome = rw⁻¹ k.same_tasks l.outcome;
    }

    hand_over-Leaves :
        (s : ImageProcessingSettings) (thumb webp avif : Option ImageVariant) (c : Conversion)
        → Leaves c (hand_over a ignore path s thumb webp avif c)
    unfolding hand_over
    hand_over-Leaves s none none none c = Leaves-without (Aside-refl c)
    hand_over-Leaves s (some v) webp avif c = submit-Leaves s (some v) webp avif a.pool c
    hand_over-Leaves s none (some v) avif c = submit-Leaves s none (some v) avif a.pool c
    hand_over-Leaves s none none (some v) c = submit-Leaves s none none (some v) a.pool c

    after_avif-Leaves :
        (s : ImageProcessingSettings) (thumb webp : Option ImageVariant)
        (r : Result (Option ImageVariant)) (c : Conversion)
        → Leaves c (after_avif a ignore path s thumb webp (r, c))
    unfolding after_avif
    after_avif-Leaves s thumb webp (ok avif) c = hand_over-Leaves s thumb webp avif c
    after_avif-Leaves s thumb webp (err e) c =
        fails-Leaves ("submit aborted during avif preparation: " ⧺ error_text e) (thumb ∷ webp ∷ [])
          c

    after_webp-Leaves :
        (s : ImageProcessingSettings) (now : ℕ) (thumb : Option ImageVariant)
        (r : Result (Option ImageVariant)) (c : Conversion)
        → Leaves c (after_webp a ignore path s now thumb (r, c))
    unfolding after_webp
    after_webp-Leaves s now thumb (ok webp) c =
        let (r, d) = prepare a ignore path (avif_enabled a s) format_avif now c in
        continue_with (prepare-Aside (avif_enabled a s) format_avif now c)
          (after_avif-Leaves s thumb webp r d)
    after_webp-Leaves s now thumb (err e) c =
        fails-Leaves ("submit aborted during webp preparation: " ⧺ error_text e) (thumb ∷ []) c

    after_thumb-Leaves :
        (s : ImageProcessingSettings) (now : ℕ) (r : Result (Option ImageVariant)) (c : Conversion)
        → Leaves c (after_thumb a ignore path s now (r, c))
    unfolding after_thumb
    after_thumb-Leaves s now (ok thumb) c =
        let (r, d) = prepare a ignore path (webp_enabled a s) format_webp now c in
        continue_with (prepare-Aside (webp_enabled a s) format_webp now c)
          (after_webp-Leaves s now thumb r d)
    after_thumb-Leaves s now (err e) c = Leaves-without (Aside-refl c)

    convert-Leaves :
        (r : Result ImageProcessingSettings) (c : Conversion) → Leaves c (convert a ignore path r c)
    unfolding convert
    convert-Leaves (err e) c = Leaves-without (Aside-refl c)
    convert-Leaves (ok s) c =
        elim (Bool-cases (
          should_start_variant_pipeline (thumbnail_enabled s) (webp_enabled a s)
            (avif_enabled a s))) [
              | inr e ↦ rw e (Leaves-without (Aside-refl c))
              | inl e ↦ elim (Bool-cases (skips_image a s c.image)) [
                | inl f ↦ rw (e, f) (Leaves-without (Aside-refl c))
                | inr f ↦
                    rw (e, f)
                      (continue_with
                        (prepare-Aside (thumbnail_enabled s)
                          (format_thumbnail_size (first_size s.thumbnail_sizes))
                          (a.env.now c.db.sent) c)
                        (after_thumb-Leaves s (a.env.now c.db.sent) _ _))
              ]
            ]

    -- On every way out of triggerConversion, a staged local file has one owner: either one task was
    -- submitted, which carries it, and it was not removed, or no task was, and it was removed.
    pub trigger_conversion-owns :
        (c : Conversion)
        → str_eq path "" ≡ false
        → let after = trigger_conversion a ignore path c in
          ((t : Task) × (after.tasks ≡ c.tasks ++ (t, path) ∷ []) × (after.removed ≡ c.removed))
          ⊎ ((after.tasks ≡ c.tasks) × (after.removed ≡ path ∷ c.removed))
    unfolding trigger_conversion
    trigger_conversion-owns c named =
        go (convert a ignore path a.settings c) (convert-Leaves a.settings c)
      where
        go :
            (r : Bool × Conversion)
            → Leaves c r
            → let after = drop_unsubmitted a ignore path r in
              ((t : Task) × (after.tasks ≡ c.tasks ++ (t, path) ∷ []) × (after.removed ≡ c.removed))
              ⊎ ((after.tasks ≡ c.tasks) × (after.removed ≡ path ∷ c.removed))
        go (b, d) k = elim k.outcome [
          | inl (e, t, h) ↦ rw e (inl (t, h, k.same_removed))
          | inr (e, h) ↦ rw (e, named) (inr (h, ap (λ l. path ∷ l) k.same_removed))
        ]

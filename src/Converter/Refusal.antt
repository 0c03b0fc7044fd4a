-- ===== src/Converter/Refusal.antt =====
-- What a conversion leaves behind when it does not start, or when its task is refused.
use image_bed.Converter.{
  Around, Conversion, after_failed_status, avif_enabled, fail_pending,
  fail_pending_variants_on_submit_failure, should_start_variant_pipeline,
  should_trigger_variant_conversion, skips_image, thumbnail_enabled, webp_enabled,
}
use image_bed.Converter.Trigger.{convert, trigger_conversion}
use image_bed.Errors.{Result, err, ok}
use image_bed.Gorm.{Fails, count_where, scoped, update_where}
use image_bed.Gorm.Counts.{count_where-none_left, count_where-still_none}
use image_bed.Images.{update_variant_status}
use image_bed.Models.{ImageVariant, has_failed, is_status, pending}
use image_bed.Pipeline.Generate.{loaded}
use image_bed.Prelude.{
  Bool, Bool-cases, List, Option, String, [], ap, arith, false, inl, inr, none, refl, some, true, ℕ,
  ◌&&◌, ◌==◌, ◌||◌, ◌∙◌, ◌∷◌, ◌≡◌,
}
use image_bed.Settings.{ImageProcessingSettings}
use image_bed.Variants.{Db, failed_columns, force_update_failed, has_status, variant_schema}

-- An image for which shouldTriggerVariantConversion says no is left alone by triggerConversion, with
-- the same settings and without a local file: nothing is written, submitted or removed.
pub trigger_conversion-declines :
    (a : Around) (ignore : Bool) (s : ImageProcessingSettings) (c : Conversion)
    → a.settings ≡ ok s
    → should_trigger_variant_conversion a (some c.image) (some s) ≡ false
    → trigger_conversion a ignore "" c ≡ c
unfolding trigger_conversion convert should_trigger_variant_conversion
trigger_conversion-declines a ignore s c loaded no_need =
    rw loaded
      (elim (Bool-cases (
        should_start_variant_pipeline (thumbnail_enabled s) (webp_enabled a s)
          (avif_enabled a s))) [
            | inr e ↦ rw e refl
            | inl e ↦ elim (Bool-cases (skips_image a s c.image)) [
              | inl f ↦ rw (e, f) refl
              | inr f ↦ absurd (ground (arith, e, f, no_need))
            ]
          ])

after_failed_status-db :
    (a : Around) (r : Result (Unit {0})) (c : Conversion) → (after_failed_status a r c).db ≡ c.db
unfolding after_failed_status
after_failed_status-db a (err e) c = refl
after_failed_status-db a (ok _) c = elim (Bool-cases a.has_cache) [
  | inl e ↦ rw e refl
  | inr e ↦ rw e refl
]

module _ (a : Around) (reason : String)
    (sure : (n : ℕ) (p : ImageVariant → Bool) (f : ImageVariant → ImageVariant)
        (t : List ImageVariant)
      → ¬ Fails (a.env.variants.updates n p f t).0)
    (id : ℕ) where
  -- How many rows of the variant are still pending.
  abbrev pub still_pending : Db → ℕ
  still_pending db = count_where (scoped variant_schema (has_status id pending)) db.variants

  force_update_failed-rows :
      (i : ℕ) (db : Db)
      → (force_update_failed a.env i reason db).1.variants
        ≡ update_where
            (scoped variant_schema (λ v. v.id == i))
            (failed_columns reason (a.env.now db.sent))
            db.variants
  unfolding force_update_failed
  force_update_failed-rows i db =
      elim (a.env.variants.updates_law db.sent (λ v. v.id == i)
        (failed_columns reason (a.env.now db.sent)) db.variants) [
          | inl (why, h) ↦
              absurd (
                sure db.sent _ _ db.variants
                  (why, ap (λ (r : Result ℕ × List ImageVariant). r.0) h))
          | inr h ↦ rw h refl
        ]

  still_pending-force_other :
      (i : ℕ) (db : Db)
      → still_pending db ≡ 0
      → still_pending (force_update_failed a.env i reason db).1 ≡ 0
  still_pending-force_other i db h = rw (force_update_failed-rows i db) (
      count_where-still_none (scoped variant_schema (has_status id pending))
        (scoped variant_schema (λ v. v.id == i)) (failed_columns reason (a.env.now db.sent))
        (λ r k. ground arith) db.variants h)

  still_pending-force : (db : Db) → still_pending (force_update_failed a.env id reason db).1 ≡ 0
  still_pending-force db = rw (force_update_failed-rows id db) (
      count_where-none_left (scoped variant_schema (has_status id pending))
        (scoped variant_schema (λ v. v.id == id)) (failed_columns reason (a.env.now db.sent))
        (λ r k. ground arith) db.variants (λ r k. ground arith))

  fail_pending-keeps :
      (vs : List (Option ImageVariant)) (db : Db)
      → still_pending db ≡ 0
      → still_pending (fail_pending a reason vs db).1 ≡ 0
  unfolding fail_pending
  fail_pending-keeps [] db h = h
  fail_pending-keeps (none ∷ vs) db h = fail_pending-keeps vs db h
  fail_pending-keeps (some v ∷ vs) db h = elim (Bool-cases (is_status v.status pending)) [
    | inl e ↦ rw e (
        fail_pending-keeps vs (force_update_failed a.env v.id reason db).1
          (still_pending-force_other v.id db h))
    | inr e ↦ rw e (fail_pending-keeps vs db h)
  ]

  -- Whether the variant is among those to fail: not nil, and pending when it was prepared.
  abbrev pub asked : List (Option ImageVariant) → Bool
  asked [] = false
  asked (none ∷ vs) = asked vs
  asked (some v ∷ vs) = (v.id == id && is_status v.status pending) || asked vs

  fail_pending-fails :
      (vs : List (Option ImageVariant)) (db : Db)
      → asked vs ≡ true
      → (still_pending (fail_pending a reason vs db).1 ≡ 0)
        × ((fail_pending a reason vs db).0 ≡ true)
  unfolding fail_pending
  fail_pending-fails [] db h = absurd cc
  fail_pending-fails (none ∷ vs) db h = fail_pending-fails vs db h
  fail_pending-fails (some v ∷ vs) db h = elim (Bool-cases (is_status v.status pending)) [
    | inr e ↦ rw e (fail_pending-fails vs db (ground (arith, e, h)))
    | inl e ↦ rw e (elim (Bool-cases (v.id == id)) [
      | inl same ↦
          let own : v.id ≡ id = ground arith in
          (
            (fail_pending-keeps vs (force_update_failed a.env v.id reason db).1
                (rw own (still_pending-force db))),
            refl,
          )
      | inr other ↦ (
        (fail_pending-fails vs (force_update_failed a.env v.id reason db).1
            (ground (arith, other, h))).0,
        refl,
      )
    ])
  ]

  -- If no update of the table fails, then after failPendingVariantsOnSubmitFailure no row of any
  -- variant that was handed to it as pending is pending any more.
  pub submit_failure-leaves_none :
      (vs : List (Option ImageVariant)) (c : Conversion)
      → asked vs ≡ true
      → still_pending (fail_pending_variants_on_submit_failure a reason vs c).db ≡ 0
  unfolding fail_pending_variants_on_submit_failure update_variant_status
  submit_failure-leaves_none vs c h =
      let (none_left, had) = fail_pending-fails vs c.db h in
      let (r, db) =
        update_variant_status a.env c.image.id has_failed (fail_pending a reason vs c.db).1 in
      rw had (ap still_pending (after_failed_status-db a r (record c { db = db })) ∙ none_left)

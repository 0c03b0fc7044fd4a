-- ===== src/Uploads/Revive.antt =====
-- Uploads of a file whose record was deleted: whether its file can be used again, and the attempt
-- to bring the record back.
use mathlib.Core.Path.{subst}
use text.Mathlib.Text.{◌==◌ as str_eq}
use image_bed.Errors.{Result, err, ok, ok-injective}
use image_bed.Gorm.{count_where, scoped}
use image_bed.Gorm.Pairs.{update_where_none}
use image_bed.Images.Records.{
  after_updates, count_images_by_storage_path, has_identifier, update_image_by_identifier,
}
use image_bed.Models.{Image, ImageVariant}
use image_bed.Prelude.{
  Bool, Bool-cases, Every, List, String, [], arith, false, inl, inr, ltb, refl, sym, true, ℕ, ◌∙◌,
  ◌∷◌, ◌≡◌,
}
use image_bed.Services.{
  Act, Outside, act_then, exists, get_storage_provider_by_id, has_file, pure, query,
}
use image_bed.Services.Backed.{During, IsUnused}
use image_bed.Services.Triples.{
  Facts, Keeps-try_call, On, Triple, before_rule, bind_rule, failing_rule, if_rule, keeping,
}
use image_bed.Uploads.{can_reuse_soft_deleted_image, file_exists, restore}
use image_bed.Uploads.Reuse.{IsFiled}
use image_bed.Uploads.Upload.{Upload}
use image_bed.Variants.{image_schema}

-- A test that no live row passes counts none.
pub count-none :
    (p : Image → Bool) (t : List Image)
    → Every (λ i. i.deleted ≡ false → p i ≡ false) t
    → count_where (scoped image_schema p) t ≡ 0
count-none p [] h = refl
count-none p (i ∷ t) (k, h) = elim (Bool-cases i.deleted) [
  | inl gone ↦ let rest = count-none p t h in ground (arith, gone, rest)
  | inr live ↦ let miss = k live in let rest = count-none p t h in ground (arith, live, miss, rest)
]

module _ (o : Outside) (u : Upload) where
  exists_rule :
      (J : Facts) (img : Image) (r : Result ℕ)
      → r ≡ get_storage_provider_by_id o img.storage_config_id
      → Triple
          (On J)
          (λ s. act_then r (λ provider. exists o provider img.storage_path) s)
          (λ b s. On J s × (b ≡ true → IsFiled o img s.files))
          (On J)
  unfolding exists
  exists_rule J img (err why) e = record { runs = λ s h. h }
  exists_rule J img (ok provider) e = record { runs = λ s h. chain.runs s h }
    where
      chain :
          Triple
            (On J)
            (exists o provider img.storage_path)
            (λ b s. On J s × (b ≡ true → IsFiled o img s.files))
            (On J)
      chain = bind_rule (keeping (Keeps-try_call J _)) λ _. record {
        runs = λ s h. (
          h,
          λ there p e'.
              subst (λ q. has_file q img.storage_path s.files ≡ true) (ok-injective (e ∙ e')) there,
        );
      }

  -- The check for the file of a deleted image whose path no live image has.
  pub can_reuse_rule :
      (t : List Image) (img : Image)
      → IsUnused img.storage_path t
      → Triple
          (On (During o t))
          (can_reuse_soft_deleted_image o img)
          (λ b s. On (During o t) s × (b ≡ true → IsFiled o img s.files))
          (On (During o t))
  unfolding can_reuse_soft_deleted_image pure
  can_reuse_rule t img unused =
      if_rule (str_eq img.storage_path "") (λ _. record { runs = λ s h. (h, λ e. absurd cc) })
        λ _. bind_rule counts λ n.
          if_rule (ltb 0 n) (λ e. record { runs = λ s (_, z). absurd (not_both n e z) })
            λ _. before_rule (λ s (h, _). h) look
    where
      counts :
          Triple
            (On (During o t))
            (query (count_images_by_storage_path o.env img.storage_path))
            (λ n s. On (During o t) s × (n ≡ 0))
            (On (During o t))
      counts =
          unfold query count_images_by_storage_path in
          record {
            runs = λ s (same, sound).
                elim (o.env.images.count_law s.db.sent (λ i. str_eq i.storage_path img.storage_path)
                  s.db.images) [
                    | inl (why, e) ↦ rw e (same, sound)
                    | inr e ↦ rw e (
                      (same, sound),
                      count-none (λ i. str_eq i.storage_path img.storage_path) s.db.images
                          (subst (IsUnused img.storage_path) (sym same) unused),
                    )
                  ];
          }

      not_both : (n : ℕ) → ltb 0 n ≡ true → n ≡ 0 → ⊥
      not_both n e z = ground (arith, e, z)

      look :
          Triple
            (On (During o t))
            (file_exists o img)
            (λ b s. On (During o t) s × (b ≡ true → IsFiled o img s.files))
            (On (During o t))
      look = unfold file_exists in exists_rule (During o t) img _ refl

  -- Bringing a record back fails: the statement does not reach deleted rows.
  pub restore_rule :
      (J : Facts) (t : List Image) (img : Image)
      → ((v : List ImageVariant) (t' : List Image) (f : List (ℕ × String)) → J v t' f → t' ≡ t)
      → Every (λ i. i.deleted ≡ false → has_identifier img.identifier i ≡ false) t
      → Triple (On J) (restore o img u.source u.is_public) (λ _ s. ⊥) (On J)
  unfolding restore update_image_by_identifier after_updates query
  restore_rule J t img same none_live =
      bind_rule
        (failing_rule _ (record {
          runs = λ s known.
              elim (o.env.images.updates_law s.db.sent (has_identifier img.identifier)
                (λ i. record i {
                  deleted = false;
                  original_name = u.source.file_name;
                  is_public = u.is_public;
                  updated_at = o.env.now s.db.sent;
                })
                s.db.images) [
                  | inl (why, e) ↦ rw e known
                  | inr e ↦
                      let zero_rows : count_where
                            (scoped image_schema (has_identifier img.identifier)) s.db.images
                          ≡ 0 =
                        count-none (has_identifier img.identifier) s.db.images (
                          subst
                            (Every
                              (λ i. i.deleted ≡ false → has_identifier img.identifier i ≡ false))
                            (sym (same _ _ _ known)) none_live) in
                      rw (e, zero_rows, update_where_none _ _ s.db.images zero_rows) known
                ];
        }))
        λ r. absurd_rule
    where
      absurd_rule : {A : Type 0} {m : Act A} → Triple (λ s. ⊥) m (λ _ s. ⊥) (On J)
      absurd_rule = record { runs = λ s h. absurd h }

-- ===== src/Tests/Database.antt =====
-- A database in memory, which meets the laws of `Gorm`, and theorems on the table at concrete rows.
use mathlib.Core.List.{Memᴰ}
use mathlib.Core.List.Memᴰ
use image_bed.Errors.{Result, err, message, ok}
use image_bed.Gorm.{Fails, Gorm, Schema, count_where, first_of_rows, scoped, update_where}
use image_bed.Gorm.Pairs.{AllPairs}
use image_bed.Models.{Image, ImageVariant, VariantStatus, pending, processing, processing_now}
use image_bed.Prelude.{
  Bool, Bool-cases, List, String, [], any, ap, arith, false, if◌then◌else◌, inl, inr, none, not,
  refl, select, suc, sym, true, ℕ, ◌&&◌, ◌*◌, ◌++◌, ◌+◌, ◌-◌, ◌<◌, ◌==◌, ◌∙◌, ◌∷◌, ◌≡◌, ◌≢◌, ◌≤◌,
  ◌⊎◌,
}
use image_bed.Variants.{Db, Env, get_variant, image_schema, upsert_pending, variant_schema}
use image_bed.Variants.Exclusive.{update_status_cas-IsExclusive, wins}
use image_bed.Variants.Recovery.{minute, recover_stale_processing}
use image_bed.Variants.Recovery.Rows.{Keyed, Settles, recover_stale_processing-rows}
use image_bed.Variants.Upsert.{live_row, upsert_pending-blocked, upsert_pending-found}

module _ {Row : Type 0} (s : Schema Row) where
  abbrev pub top : List Row → ℕ
  top [] = 0
  top (r ∷ t) = s.id_of r + top t

  top_lem : (k : ℕ) (t : List Row) → top t < k → any (λ x. s.id_of x == k) t ≡ false
  top_lem k [] h = refl
  top_lem k (r ∷ t) h = ground (arith, top_lem k t)

  abbrev pub created : Row → List Row → Result (Unit {0}) × List Row
  created r t =
      if any (s.clash r) t then (ok tt, t) else (ok tt, t ++ s.set_id (suc (top t)) r ∷ [])

  pub created_lem :
      (r : Row) (t : List Row)
      → ((any (s.clash r) t ≡ true) × (created r t ≡ (ok tt, t)))
        ⊎ ((i : ℕ) × (any (s.clash r) t ≡ false)
            × (0 < i)
            × (any (λ x. s.id_of x == i) t ≡ false)
            × (created r t ≡ (ok tt, t ++ s.set_id i r ∷ [])))
  created_lem r t = elim (Bool-cases (any (s.clash r) t)) [
    | inl e ↦ inl (e, rw e refl)
    | inr e ↦ inr (suc (top t), e, omega arith, top_lem (suc (top t)) t (omega arith), rw e refl)
  ]

  abbrev pub inserted : Row → List Row → Result Row × List Row
  inserted r t =
      if any (s.clash r) t
      then (err (message "UNIQUE constraint failed"), t)
      else (ok (s.set_id (suc (top t)) r), t ++ s.set_id (suc (top t)) r ∷ [])

  pub inserted_lem :
      (r : Row) (t : List Row)
      → ((why : String) × (inserted r t ≡ (err (message why), t)))
        ⊎ ((i : ℕ) × (0 < i)
            × (any (λ x. s.id_of x == i) t ≡ false)
            × (any (s.clash r) t ≡ false)
            × (inserted r t ≡ (ok (s.set_id i r), t ++ s.set_id i r ∷ [])))
  inserted_lem r t = elim (Bool-cases (any (s.clash r) t)) [
    | inl e ↦ inl ("UNIQUE constraint failed", rw e refl)
    | inr e ↦ inr (suc (top t), omega arith, top_lem (suc (top t)) t (omega arith), e, rw e refl)
  ]

  abbrev pub in_memory : Gorm s
  in_memory = record {
    find = λ n p t. ok (select (scoped s p) t);
    first = λ n p t. first_of_rows (select (scoped s p) t);
    updates = λ n p f t. (ok (count_where (scoped s p) t), update_where (scoped s p) f t);
    delete = λ n p t. (ok (count_where (scoped s p) t), update_where (scoped s p) s.mark_deleted t);
    create_or_ignore = λ n r t. created r t;
    create = λ n r t. inserted r t;
    count = λ n p t. ok (count_where (scoped s p) t);
    first_unscoped = λ n p t. first_of_rows (select p t);
    find_law = λ n p t. inr refl;
    first_law = λ n p t. inr refl;
    updates_law = λ n p f t. inr refl;
    delete_law = λ n p t. inr refl;
    create_law = λ n r t. inr (created_lem r t);
    insert_law = λ n r t. inserted_lem r t;
    count_law = λ n p t. inr refl;
    unscoped_law = λ n p t. inr refl;
  }

-- Updates in memory do not fail.
pub in_memory-updates :
    {Row : Type 0} (s : Schema Row) (n : ℕ) (p : Row → Bool) (f : Row → Row) (t : List Row)
    → ¬ Fails ((in_memory s).updates n p f t).0
in_memory-updates s n p f t (why, e) = absurd cc

-- A clock that ticks a minute with each statement.
abbrev pub env : Env
env = record {
  variants = in_memory variant_schema;
  images = in_memory image_schema;
  now = λ n. 100 * minute + n * minute;
}

abbrev pub variant : ℕ → String → VariantStatus → Bool → ImageVariant
variant id format status deleted = record {
  id = id;
  image_id = 7;
  format = format;
  identifier = "";
  storage_path = "";
  file_size = 0;
  file_hash = "";
  width = 0;
  height = 0;
  status = status;
  error_message = "";
  retry_count = id;
  next_retry_at = none;
  updated_at = 0;
  deleted = deleted;
}

abbrev pub picture : Image
picture = record {
  id = 7;
  identifier = "abc";
  storage_path = "original/abc.png";
  original_name = "cat.png";
  file_size = 500000;
  mime_type = "image/png";
  storage_config_id = 0;
  file_hash = "h";
  width = 1000;
  height = 800;
  is_public = true;
  variant_status = processing_now;
  user_id = 1;
  updated_at = 0;
  deleted = false;
}

abbrev distinct : List ImageVariant → Bool
distinct [] = true
distinct (r ∷ t) = not (any (λ x. x.id == r.id) t) && distinct t

elsewhere :
    (i : ℕ) (c : ImageVariant) (t : List ImageVariant)
    → Memᴰ c t
    → any (λ x. x.id == i) t ≡ false
    → c.id ≢ i
elsewhere i c [] m h = absurd (Memᴰ.not-nil m)
elsewhere i c (r ∷ t) m h = elim (Memᴰ.cases_cons m) [
  | inl e ↦ rw e (λ same. absurd (ground (arith, h, same)))
  | inr later ↦ elsewhere i c t later (ground (arith, h))
]

distinct-Keyed : (t : List ImageVariant) → distinct t ≡ true → Keyed t
distinct-Keyed [] h a c m k e = absurd (Memᴰ.not-nil m)
distinct-Keyed (r ∷ t) h a c m k e =
    let alone : any (λ x. x.id == r.id) t ≡ false = ground (arith, h) in
    let rest : distinct t ≡ true = ground (arith, h) in
    elim (Memᴰ.cases_cons m) [
      | inl ea ↦ elim (Memᴰ.cases_cons k) [
        | inl ec ↦ ea ∙ sym ec
        | inr kc ↦ absurd (elsewhere r.id c t kc alone (sym e ∙ ap (λ (v : ImageVariant). v.id) ea))
      ]
      | inr ma ↦ elim (Memᴰ.cases_cons k) [
        | inl ec ↦ absurd (elsewhere r.id a t ma alone (e ∙ ap (λ (v : ImageVariant). v.id) ec))
        | inr kc ↦ distinct-Keyed t rest a c ma kc e
      ]
    ]

-- Two variants were left in processing, one of them with its retries used up; the AVIF was deleted.
abbrev pub stale_db : Db
stale_db = record {
  sent = 0;
  variants =
      variant 1 "thumbnail_600" processing false
      ∷ variant 2 "webp" processing false
      ∷ variant 3 "avif" processing true
      ∷ [];
  images = picture ∷ [];
}

stale_db-Keyed : Keyed stale_db.variants
stale_db-Keyed = distinct-Keyed stale_db.variants refl

update_status_cas-IsExclusive_example :
    wins env 1 processing pending ("" ∷ "again" ∷ "late" ∷ []) stale_db ≤ 1
update_status_cas-IsExclusive_example =
    update_status_cas-IsExclusive env 1 processing pending ("" ∷ "again" ∷ "late" ∷ []) stale_db
      refl

recover_stale_processing-rows_example :
    AllPairs
      (λ a b. (b ≡ a) ⊎ Settles 3 (env.now 1) (env.now 0 - 15 * minute) a b)
      stale_db.variants
      (recover_stale_processing env (15 * minute) 3 stale_db).1.variants
recover_stale_processing-rows_example =
    recover_stale_processing-rows env (15 * minute) 3 stale_db stale_db-Keyed

upsert_pending-found_example :
    live_row 7 "webp" (upsert_pending env 7 "webp" stale_db).1
    ≡ ok (variant 2 "webp" processing false)
unfolding upsert_pending get_variant
upsert_pending-found_example =
    upsert_pending-found env 7 "webp" (variant 2 "webp" processing false) stale_db refl

upsert_pending-blocked_example :
    (upsert_pending env 7 "avif" stale_db).0 ≢ ok (variant 3 "avif" pending false)
upsert_pending-blocked_example =
    upsert_pending-blocked env 7 "avif" stale_db refl refl (variant 3 "avif" pending false)

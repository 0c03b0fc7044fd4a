-- ===== src/Variants/Recovery/Rows.antt =====
-- RecoverStaleProcessing, row by row.
use mathlib.Core.List.{Memᴰ}
use mathlib.Core.List.Memᴰ
use image_bed.Errors.{Error, Result, err, ok}
use image_bed.Gorm.{scoped, update_where}
use image_bed.Gorm.Pairs.{AllPairs, AllPairs-map, AllPairs-update_where}
use image_bed.Models.{ImageVariant, failed, pending, processing}
use image_bed.Prelude.{
  Bool, Bool-cases, List, Option, [], arith, false, if◌then◌else◌, inl, inr, none, refl, select,
  some, suc, true, ℕ, ◌+◌, ◌-◌, ◌∷◌, ◌≡◌, ◌⊎◌,
}
use image_bed.Variants.{Db, Env, has_status, variant_schema}
use image_bed.Variants.Recovery.{
  Recovered, is_exhausted, is_stale, nothing_recovered, recover_found, recover_stale_processing,
  settle, settle_all, stale_retry_delay,
}

-- A row before and after its recovery: retried later, or given up.
pub record Settles (max_retries now cutoff : ℕ) (a b : ImageVariant) : Type 0 where
  pub was_live : a.deleted ≡ false
  pub was_stale : is_stale cutoff a ≡ true
  pub same_id : b.id ≡ a.id
  pub counted : b.retry_count ≡ a.retry_count + 1
  pub given_up : is_exhausted max_retries a ≡ true → (b.status ≡ failed) × (b.next_retry_at ≡ none)
  pub retried :
      is_exhausted max_retries a ≡ false
      → (b.status ≡ pending)
        × (b.next_retry_at ≡ some (now + stale_retry_delay (a.retry_count + 1)))

-- The primary key tells rows apart.
abbrev pub Keyed : List ImageVariant → Type 0
Keyed t = (a c : ImageVariant) → Memᴰ a t → Memᴰ c t → a.id ≡ c.id → a ≡ c

module _ (env : Env) (max_retries now cutoff : ℕ) (before : List ImageVariant)
    (keyed : Keyed before) where
  abbrev R : ImageVariant → ImageVariant → Type 0
  R a b = Memᴰ a before × ((b ≡ a) ⊎ Settles max_retries now cutoff a b)

  abbrev IsFound : ImageVariant → Type 0
  IsFound v = Memᴰ v before × (v.deleted ≡ false) × (is_stale cutoff v ≡ true)

  -- A recovered row is out of the reach of the next statement.
  settled_row_idle :
      (i : ℕ) (a b : ImageVariant)
      → Settles max_retries now cutoff a b
      → has_status i processing b ≡ false
  settled_row_idle i a b h = elim (Bool-cases (is_exhausted max_retries a)) [
    | inl e ↦ rw (h.given_up e).0 (ground arith)
    | inr e ↦ rw (h.retried e).0 (ground arith)
  ]

  -- The update for a row that was found.
  update-rows :
      (v : ImageVariant) (f : ImageVariant → ImageVariant)
      → Memᴰ v before
      → Settles max_retries now cutoff v (f v)
      → (rows : List ImageVariant) → AllPairs R before rows
      → AllPairs R before (update_where (scoped variant_schema (has_status v.id processing)) f rows)
  update-rows v f found right rows =
      AllPairs-update_where R R (scoped variant_schema (has_status v.id processing)) f hit
        (λ a b r h. r) before rows
    where
      hit :
          (a b : ImageVariant)
          → R a b
          → scoped variant_schema (has_status v.id processing) b ≡ true
          → R a (f b)
      hit a b (m, inl same) h =
          let own : b.id ≡ v.id = ground arith in
          let is_v : a ≡ v = keyed a v m found (rw same at own) in (m, inr (rw (same, is_v) right))
      hit a b (m, inr s) h = absurd (differ (settled_row_idle v.id a b s))
        where
          differ : has_status v.id processing b ≡ false → ⊥
          differ e = absurd (ground arith)

  updated :
      (v : ImageVariant) (f : ImageVariant → ImageVariant) (db : Db)
      → Memᴰ v before
      → Settles max_retries now cutoff v (f v)
      → AllPairs R before db.variants
      → AllPairs R before
          (env.variants.updates db.sent (has_status v.id processing) f db.variants).1
  updated v f db found right k =
      elim (env.variants.updates_law db.sent (has_status v.id processing) f db.variants) [
        | inl (why, h) ↦ rw h k
        | inr h ↦ rw h (update-rows v f found right db.variants k)
      ]

  settle-rows :
      (v : ImageVariant) (acc : Recovered) (db : Db)
      → IsFound v
      → AllPairs R before db.variants
      → AllPairs R before (settle env max_retries now v acc db).1.variants
  unfolding settle
  settle-rows v acc db found k = elim (Bool-cases (is_exhausted max_retries v)) [
    | inl e ↦ rw e (
        updated v _ db found.0
          (record {
            was_live = found.1;
            was_stale = found.2;
            same_id = refl;
            counted = refl;
            given_up = λ h. (refl, refl);
            retried = λ h. absurd cc;
          })
          k)
    | inr e ↦ rw e (
        updated v _ db found.0
          (record {
            was_live = found.1;
            was_stale = found.2;
            same_id = refl;
            counted = refl;
            given_up = λ h. absurd cc;
            retried = λ h. (refl, refl);
          })
          k)
  ]

  settle_all-rows :
      (vs : List ImageVariant) (acc : Recovered) (db : Db)
      → ((v : ImageVariant) → Memᴰ v vs → IsFound v)
      → AllPairs R before db.variants
      → AllPairs R before (settle_all env max_retries now vs acc db).1.variants
  unfolding settle_all
  settle_all-rows [] acc db found k = k
  settle_all-rows (v ∷ vs) acc db found k =
      go (settle env max_retries now v acc db).0 (settle env max_retries now v acc db).1
        (settle-rows v acc db (found v (Memᴰ.head refl)) k)
        (λ acc' db' k'. settle_all-rows vs acc' db' (λ u m. found u (Memᴰ.tail m)) k')
    where
      next : Result Recovered → Db → (Recovered × Option Error) × Db
      next r db' = elim r [
        | ok acc' ↦ settle_all env max_retries now vs acc' db'
        | err e ↦ ((record acc { retried_image_ids = [] }, some e), db')
      ]

      go :
          (r : Result Recovered) (db' : Db)
          → AllPairs R before db'.variants
          → ((acc' : Recovered) (db' : Db)
              → AllPairs R before db'.variants
              → AllPairs R before (settle_all env max_retries now vs acc' db').1.variants)
          → AllPairs R before (next r db').1.variants
      go (ok acc') db' k' later = later acc' db' k'
      go (err e) db' k' later = k'

-- What a query selects is in the table and passes the test.
select-Memᴰ :
    {A : Type 0} (p : A → Bool) (a : A) (t : List A) → Memᴰ a (select p t) → Memᴰ a t × (p a ≡ true)
select-Memᴰ p a [] m = absurd (Memᴰ.not-nil m)
select-Memᴰ {A} p a (x ∷ t) m = go (p x) refl (select-Memᴰ p a t) m
  where
    go :
        (z : Bool)
        → p x ≡ z
        → (Memᴰ a (select p t) → Memᴰ a t × (p a ≡ true))
        → Memᴰ a (if z then x ∷ select p t else select p t)
        → Memᴰ a (x ∷ t) × (p a ≡ true)
    go true e below k = elim (Memᴰ.cases_cons k) [
      | inl same ↦ (Memᴰ.head same, rw same e)
      | inr later ↦ let (m', h) = below later in (Memᴰ.tail m', h)
    ]
    go false e below k = let (m', h) = below k in (Memᴰ.tail m', h)

AllPairs-Memᴰ : (s : List ImageVariant) → AllPairs (λ a b. Memᴰ a s × (b ≡ a)) s s
AllPairs-Memᴰ [] = tt
AllPairs-Memᴰ (a ∷ s) =
    ((Memᴰ.head refl, refl), AllPairs-map _ _ (λ x y h. (Memᴰ.tail h.0, h.1)) s s (AllPairs-Memᴰ s))

-- With any of its statements failing or not, RecoverStaleProcessing changes no row but those that
-- were live, in processing and not updated since the cutoff. Of these, a row whose retries are used
-- up is failed with no next retry; any other is pending again, to be retried after the delay for its
-- new count; in both cases the count grows by one. The condition is that the primary key tells the
-- rows of the table apart.
pub recover_stale_processing-rows :
    (env : Env) (older_than max_retries : ℕ) (db : Db)
    → Keyed db.variants
    → AllPairs
        (λ a b.
          (b ≡ a) ⊎ Settles max_retries (env.now (suc db.sent)) (env.now db.sent - older_than) a b)
        db.variants
        (recover_stale_processing env older_than max_retries db).1.variants
unfolding recover_stale_processing recover_found
recover_stale_processing-rows env older_than max_retries db keyed =
    elim (env.variants.find_law db.sent (is_stale (env.now db.sent - older_than)) db.variants) [
      | inl (why, h) ↦ rw h (AllPairs-map _ _ (λ a b k. inl k.1) _ _ (AllPairs-Memᴰ db.variants))
      | inr h ↦ rw h (
          AllPairs-map _ _ (λ a b k. k.1) _ _
            (settle_all-rows env max_retries (env.now (suc db.sent)) (env.now db.sent - older_than)
              db.variants keyed
              (select (scoped variant_schema (is_stale (env.now db.sent - older_than))) db.variants)
              nothing_recovered (record db { sent = suc db.sent })
              (λ v m.
                let (m', k) = select-Memᴰ _ v db.variants m in (m', ground arith, ground arith))
              (AllPairs-map _ _ (λ a b k. (k.0, inl k.1)) _ _ (AllPairs-Memᴰ db.variants))))
    ]

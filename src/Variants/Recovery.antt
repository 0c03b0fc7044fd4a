-- ===== src/Variants/Recovery.antt =====
-- RecoverStaleProcessing, ResetStaleProcessing and staleRetryDelay of variant_repository.go.
-- Go's map of image ids is a list without repetitions: its order means nothing.
pub mod Rows
use image_bed.Errors.{Error, Result, err, ok}
use image_bed.Models.{ImageVariant, failed, is_status, pending, processing}
use image_bed.Prelude.{
  Bool, List, Option, [], if◌then◌else◌, leb, ltb, mem, none, some, ℕ, ◌&&◌, ◌*◌, ◌+◌, ◌-◌, ◌/◌,
  ◌==◌, ◌∷◌,
}
use image_bed.Text.{decimal, ◌⧺◌}
use image_bed.Variants.{Db, Env, Query, has_status, on_variants, then_ok}

-- The counts that RecoverStaleProcessing returns beside its error.
pub record Recovered : Type 0 where
  pub reset_count : ℕ
  pub failed_count : ℕ
  pub retried_image_ids : List ℕ

abbrev pub nothing_recovered : Recovered
nothing_recovered = record { reset_count = 0; failed_count = 0; retried_image_ids = [] }

-- Durations in nanoseconds, as Go's `time.Duration`.
abbrev pub minute : ℕ
minute = 60000000000

unfoldable pub stale_retry_delay : ℕ → ℕ
stale_retry_delay retry_count =
    if retry_count == 1 then 5 * minute else if retry_count == 2 then 15 * minute else 60 * minute

abbrev pub is_exhausted : ℕ → ImageVariant → Bool
is_exhausted max_retries v = ltb 0 max_retries && leb max_retries (v.retry_count + 1)

abbrev pub is_stale : ℕ → ImageVariant → Bool
is_stale cutoff v = is_status v.status processing && ltb v.updated_at cutoff

abbrev add_image : ℕ → List ℕ → List ℕ
add_image i ids = if mem i ids then ids else i ∷ ids

module _ (env : Env) (max_retries now : ℕ) where
  -- The loop body, for one stale variant.
  unfoldable pub settle : ImageVariant → Recovered → Query Recovered
  unfolding stale_retry_delay
  settle v acc db =
      let next_retry_count = v.retry_count + 1 in
      if is_exhausted max_retries v
      then then_ok (λ n. record acc { failed_count = acc.failed_count + n })
          (on_variants
            (λ k. env.variants.updates k (has_status v.id processing) λ w. record w {
              status = failed;
              error_message =
                  "stale processing exceeded retry limit ("
                  ⧺ decimal next_retry_count
                  ⧺ "/"
                  ⧺ decimal max_retries
                  ⧺ ")";
              retry_count = next_retry_count;
              next_retry_at = none;
              updated_at = now;
            })
            db)
      else then_ok
          (λ n. record acc {
            reset_count = acc.reset_count + n;
            retried_image_ids = add_image v.image_id acc.retried_image_ids;
          })
          (on_variants
            (λ k. env.variants.updates k (has_status v.id processing) λ w. record w {
              status = pending;
              error_message = "";
              retry_count = next_retry_count;
              next_retry_at = some (now + stale_retry_delay next_retry_count);
              updated_at = now;
            })
            db)

  unfoldable pub settle_all : List ImageVariant → Recovered → Db → (Recovered × Option Error) × Db
  settle_all [] acc db = ((acc, none), db)
  settle_all (v ∷ vs) acc db =
      let (r, db') = settle v acc db in
      elim r [
        | ok acc' ↦ settle_all vs acc' db'
        | err e ↦ ((record acc { retried_image_ids = [] }, some e), db')
      ]

module _ (env : Env) where
  -- `now` is read again after the query; nothing else is sent between the two.
  unfoldable pub recover_found :
      ℕ → Result (List ImageVariant) → Db → (Recovered × Option Error) × Db
  unfolding settle_all settle
  recover_found max_retries (err e) db = ((nothing_recovered, some e), db)
  recover_found max_retries (ok stale) db =
      settle_all env max_retries (env.now db.sent) stale nothing_recovered db

  -- The table is unchanged by the query, whatever it returns.
  unfoldable pub recover_stale_processing :
      (older_than max_retries : ℕ) → Db → (Recovered × Option Error) × Db
  unfolding recover_found
  recover_stale_processing older_than max_retries db =
      let cutoff = env.now db.sent - older_than in
      let (found, db') = on_variants (λ k t. (env.variants.find k (is_stale cutoff) t, t)) db in
      recover_found max_retries found db'

  unfoldable pub reset_stale_processing : ℕ → Db → (ℕ × Option Error) × Db
  reset_stale_processing older_than db =
      let ((found, e), db') = recover_stale_processing older_than 3 db in
      ((found.reset_count, e), db')

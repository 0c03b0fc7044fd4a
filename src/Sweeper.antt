-- ===== src/Sweeper.antt =====
-- internal/worker/sweeper.go: the periodic recovery of variants and images that were left in
-- processing, and its statistics.
pub mod Repair
pub mod Statistics
use image_bed.Errors.{Error, Result, err, error_text, ok}
use image_bed.Images.{
  get_image_by_id, mark_stale_processing_as_failed, reset_stale_processing_to_none,
}
use image_bed.Models.{Image}
use image_bed.Prelude.{List, Option, String, [], none, some, ℕ, ◌*◌, ◌+◌, ◌-◌, ◌/◌, ◌∷◌}
use image_bed.Variants.{Db, Env}
use image_bed.Variants.Recovery.{Recovered, minute, recover_stale_processing}

-- sweeperStats; `last_error` is nil at first.
pub record SweeperStats : Type 0 where
  pub runs : ℕ
  pub errors : ℕ
  pub reset_variants : ℕ
  pub failed_variants : ℕ
  pub failed_images : ℕ
  pub reset_images : ℕ
  pub retriggered : ℕ
  pub last_run_unix : ℕ
  pub last_success_unix : ℕ
  pub last_error_unix : ℕ
  pub last_error : Option String

-- What GetSweeperStats returns beside the counters.
unfoldable pub last_error_message : SweeperStats → String
last_error_message s = elim s.last_error [ none ↦ "" | some m ↦ m ]

pub record Sweep : Type 0 where
  pub stats : SweeperStats
  pub db : Db

-- Durations in nanoseconds.
abbrev pub stale_threshold : ℕ
stale_threshold = 15 * minute

abbrev pub stale_max_retries : ℕ
stale_max_retries = 3

-- Time.Unix of a reading in nanoseconds
abbrev pub unix : ℕ → ℕ
unix now = now / 1000000000

-- recordSweeperError
abbrev pub record_sweeper_error : ℕ → Error → SweeperStats → SweeperStats
record_sweeper_error now e s = record s {
  errors = s.errors + 1;
  last_error_unix = unix now;
  last_error = some (error_text e);
}

-- `triggerFn`, which works on the database.
abbrev pub TriggerFunc : Type 0
TriggerFunc = Image → Db → Db

module _ (env : Env) where
  -- The loop over the retried images, with the number of those triggered; an image that cannot be
  -- fetched is passed over.
  unfoldable pub retrigger : TriggerFunc → List ℕ → ℕ → Db → ℕ × Db
  retrigger trigger [] n db = (n, db)
  retrigger trigger (id ∷ ids) n db =
      let (r, db') = get_image_by_id env id db in
      elim r [
        | ok img ↦ retrigger trigger ids (n + 1) (trigger img db')
        | err e ↦ retrigger trigger ids n db'
      ]

  unfoldable pub retrigger_all : Option TriggerFunc → List ℕ → Sweep → Sweep
  unfolding retrigger
  retrigger_all none ids s = s
  retrigger_all (some trigger) [] s = s
  retrigger_all (some trigger) (id ∷ ids) s =
      let (n, db) = retrigger trigger (id ∷ ids) 0 s.db in
      record s { stats = record s.stats { retriggered = s.stats.retriggered + n }; db = db }

  abbrev pub count_rows :
      ℕ → (ℕ → SweeperStats → SweeperStats) → Result ℕ × Db → SweeperStats → Sweep
  count_rows now add (ok n, db) stats = record { stats = add n stats; db = db }
  count_rows now add (err e, db) stats = record {
    stats = record_sweeper_error now e stats;
    db = db;
  }

  -- The two updates of the images' status.
  unfoldable pub repair_images : ℕ → ℕ → List ℕ → Sweep → Sweep
  repair_images now cutoff retried s =
      let marked =
        count_rows now (λ n t. record t { failed_images = t.failed_images + n })
          (mark_stale_processing_as_failed env cutoff retried s.db) s.stats in
      count_rows now (λ n t. record t { reset_images = t.reset_images + n })
        (reset_stale_processing_to_none env cutoff retried marked.db) marked.stats

  unfoldable pub after_recovery :
      Option TriggerFunc → ℕ → (Recovered × Option Error) × Db → SweeperStats → Sweep
  unfolding retrigger_all repair_images
  after_recovery trigger now ((found, some e), db) stats = record {
    stats = record_sweeper_error now e stats;
    db = db;
  }
  after_recovery trigger now ((found, none), db) stats =
      let counted = record stats {
        reset_variants = stats.reset_variants + found.reset_count;
        failed_variants = stats.failed_variants + found.failed_count;
      } in
      let triggered =
        retrigger_all trigger found.retried_image_ids (record { stats = counted; db = db }) in
      let repaired = repair_images now (now - stale_threshold) found.retried_image_ids triggered in
      record repaired { stats = record repaired.stats { last_success_unix = unix now } }

  -- sweepOnce
  unfoldable pub sweep_once : Option TriggerFunc → Sweep → Sweep
  unfolding after_recovery
  sweep_once trigger s =
      let now = env.now s.db.sent in
      after_recovery trigger now
        (recover_stale_processing env stale_threshold stale_max_retries s.db)
        (record s.stats { runs = s.stats.runs + 1; last_run_unix = unix now })

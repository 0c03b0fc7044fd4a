-- ===== src/Sweeper/Statistics.antt =====
-- The statistics of one sweep.
use image_bed.Errors.{Error, Result, err, error_text, ok}
use image_bed.Images.{
  get_image_by_id, mark_stale_processing_as_failed, reset_stale_processing_to_none,
}
use image_bed.Models.{Image}
use image_bed.Prelude.{
  List, Option, String, [], ap, arith, length, none, refl, some, ℕ, ◌+◌, ◌-◌, ◌∙◌, ◌∷◌, ◌≡◌, ◌≤◌,
}
use image_bed.Sweeper.{
  Sweep, SweeperStats, TriggerFunc, after_recovery, count_rows, repair_images, retrigger,
  retrigger_all, stale_max_retries, stale_threshold, sweep_once, unix,
}
use image_bed.Variants.{Db, Env}
use image_bed.Variants.Recovery.{Recovered, recover_stale_processing}

-- What the result of an update makes of the counters.
abbrev pub plus_rows : Result ℕ → ℕ → ℕ
plus_rows (ok n) count = count + n
plus_rows (err e) count = count

abbrev pub plus_error : Result ℕ → ℕ → ℕ
plus_error (ok n) errors = errors
plus_error (err e) errors = errors + 1

abbrev pub latest_error : Result ℕ → Option String → Option String
latest_error (ok n) last = last
latest_error (err e) last = some (error_text e)

abbrev pub latest_time : ℕ → Result ℕ → ℕ → ℕ
latest_time now (ok n) last = last
latest_time now (err e) last = unix now

module _ (env : Env) (now : ℕ) where
  -- The images handed to the trigger, and the database after that.
  abbrev pub triggered_by : Option TriggerFunc → List ℕ → Db → ℕ × Db
  triggered_by none ids db = (0, db)
  triggered_by (some trigger) ids db = retrigger env trigger ids 0 db

  abbrev cutoff : ℕ
  cutoff = now - stale_threshold

  -- The statistics after a sweep with this result of the recovery, from those before it. After an
  -- error of the recovery nothing else is counted.
  abbrev pub Reports :
      Option TriggerFunc → (Recovered × Option Error) × Db → (before later : SweeperStats) → Type 0
  Reports trigger ((found, some e), db) s s' = s' ≡ record s {
    runs = s.runs + 1;
    last_run_unix = unix now;
    errors = s.errors + 1;
    last_error_unix = unix now;
    last_error = some (error_text e);
  }
  Reports trigger ((found, none), db) s s' =
      let triggered = triggered_by trigger found.retried_image_ids db in
      let marked = mark_stale_processing_as_failed env cutoff found.retried_image_ids triggered.1 in
      let reset = reset_stale_processing_to_none env cutoff found.retried_image_ids marked.1 in
      (triggered.0 ≤ length found.retried_image_ids)
      × (s' ≡ record s {
        runs = s.runs + 1;
        last_run_unix = unix now;
        reset_variants = s.reset_variants + found.reset_count;
        failed_variants = s.failed_variants + found.failed_count;
        retriggered = s.retriggered + triggered.0;
        failed_images = plus_rows marked.0 s.failed_images;
        reset_images = plus_rows reset.0 s.reset_images;
        errors = plus_error reset.0 (plus_error marked.0 s.errors);
        last_error_unix = latest_time now reset.0 (latest_time now marked.0 s.last_error_unix);
        last_error = latest_error reset.0 (latest_error marked.0 s.last_error);
        last_success_unix = unix now;
      })

  marked_rows :
      (r : Result ℕ × Db) (s : SweeperStats)
      → count_rows env now (λ n t. record t { failed_images = t.failed_images + n }) r s ≡ record {
        stats = record s {
          failed_images = plus_rows r.0 s.failed_images;
          errors = plus_error r.0 s.errors;
          last_error_unix = latest_time now r.0 s.last_error_unix;
          last_error = latest_error r.0 s.last_error;
        };
        db = r.1;
      }
  marked_rows (ok n, db) s = refl
  marked_rows (err e, db) s = refl

  reset_rows :
      (r : Result ℕ × Db) (s : SweeperStats)
      → count_rows env now (λ n t. record t { reset_images = t.reset_images + n }) r s ≡ record {
        stats = record s {
          reset_images = plus_rows r.0 s.reset_images;
          errors = plus_error r.0 s.errors;
          last_error_unix = latest_time now r.0 s.last_error_unix;
          last_error = latest_error r.0 s.last_error;
        };
        db = r.1;
      }
  reset_rows (ok n, db) s = refl
  reset_rows (err e, db) s = refl

  abbrev resumed : TriggerFunc → List ℕ → ℕ → Result Image → Db → ℕ × Db
  resumed trigger ids n r db = elim r [
    | ok img ↦ retrigger env trigger ids (n + 1) (trigger img db)
    | err e ↦ retrigger env trigger ids n db
  ]

  retrigger-bounds :
      (trigger : TriggerFunc) (ids : List ℕ) (n : ℕ) (db : Db)
      → (retrigger env trigger ids n db).0 ≤ n + length ids
  unfolding retrigger
  retrigger-bounds trigger [] n db = omega arith
  retrigger-bounds trigger (id ∷ ids) n db =
      counted_on (get_image_by_id env id db).0 (get_image_by_id env id db).1
        (λ m d. retrigger-bounds trigger ids m d)
    where
      counted_on :
          (r : Result Image) (db' : Db)
          → ((m : ℕ) (d : Db) → (retrigger env trigger ids m d).0 ≤ m + length ids)
          → (resumed trigger ids n r db').0 ≤ n + length (id ∷ ids)
      counted_on (ok img) db' below =
          let less = below (n + 1) (trigger img db') in omega (arith, less)
      counted_on (err e) db' below = let less = below n db' in omega (arith, less)

  triggered-bounds :
      (trigger : Option TriggerFunc) (ids : List ℕ) (db : Db)
      → (triggered_by trigger ids db).0 ≤ length ids
  triggered-bounds none ids db = omega arith
  triggered-bounds (some trigger) ids db =
      let less = retrigger-bounds trigger ids 0 db in omega (arith, less)

  none_more :
      (s : Sweep)
      → s ≡ record { stats = record s.stats { retriggered = s.stats.retriggered + 0 }; db = s.db }
  none_more s =
      let same : s.stats.retriggered ≡ s.stats.retriggered + 0 = omega arith in
      ap (λ n. record { stats = record s.stats { retriggered = n }; db = s.db }) same

  retriggered_rows :
      (trigger : Option TriggerFunc) (ids : List ℕ) (s : Sweep)
      → retrigger_all env trigger ids s ≡ record {
        stats = record s.stats {
          retriggered = s.stats.retriggered + (triggered_by trigger ids s.db).0;
        };
        db = (triggered_by trigger ids s.db).1;
      }
  unfolding retrigger_all retrigger
  retriggered_rows none ids s = none_more s
  retriggered_rows (some trigger) [] s = none_more s
  retriggered_rows (some trigger) (id ∷ ids) s = refl

  repaired_rows :
      (retried : List ℕ) (s : Sweep)
      → let marked = mark_stale_processing_as_failed env cutoff retried s.db in
        let reset = reset_stale_processing_to_none env cutoff retried marked.1 in
        repair_images env now cutoff retried s ≡ record {
          stats = record s.stats {
            failed_images = plus_rows marked.0 s.stats.failed_images;
            reset_images = plus_rows reset.0 s.stats.reset_images;
            errors = plus_error reset.0 (plus_error marked.0 s.stats.errors);
            last_error_unix =
                latest_time now reset.0 (latest_time now marked.0 s.stats.last_error_unix);
            last_error = latest_error reset.0 (latest_error marked.0 s.stats.last_error);
          };
          db = reset.1;
        }
  unfolding repair_images
  repaired_rows retried s =
      ap
        (λ (m : Sweep).
          count_rows env now (λ n t. record t { reset_images = t.reset_images + n })
            (reset_stale_processing_to_none env cutoff retried m.db) m.stats)
        (marked_rows (mark_stale_processing_as_failed env cutoff retried s.db) s.stats)
      ∙ reset_rows _ _

  after_recovery-Reports :
      (trigger : Option TriggerFunc) (r : (Recovered × Option Error) × Db) (s : SweeperStats)
      → Reports trigger r s
          (after_recovery env trigger now r
            (record s { runs = s.runs + 1; last_run_unix = unix now })).stats
  unfolding after_recovery
  after_recovery-Reports trigger ((found, some e), db) s = refl
  after_recovery-Reports trigger ((found, none), db) s = (
    triggered-bounds trigger found.retried_image_ids db,
    ap (λ (x : Sweep). record x.stats { last_success_unix = unix now })
        (ap (repair_images env now cutoff found.retried_image_ids)
            (retriggered_rows trigger found.retried_image_ids before)
          ∙ repaired_rows found.retried_image_ids _),
  )
    where
      before : Sweep
      before = record {
        stats = record s {
          runs = s.runs + 1;
          last_run_unix = unix now;
          reset_variants = s.reset_variants + found.reset_count;
          failed_variants = s.failed_variants + found.failed_count;
        };
        db = db;
      }

-- A sweep counts one run, at the time of its start. If the recovery fails, it counts one error and
-- notes it with its time, and nothing else changes. Otherwise the variants that the recovery reset and
-- failed are added, the images handed to the trigger, of the ones retried at most, and the rows that
-- the two updates of the images report; each update that fails adds an error instead, the later one is
-- the last error, and the sweep is a success at its time all the same.
pub sweep_once-Reports :
    (env : Env) (trigger : Option TriggerFunc) (s : Sweep)
    → Reports env
        (env.now s.db.sent)
        trigger
        (recover_stale_processing env stale_threshold stale_max_retries s.db)
        s.stats
        (sweep_once env trigger s).stats
unfolding sweep_once
sweep_once-Reports env trigger s =
    after_recovery-Reports env (env.now s.db.sent) trigger
      (recover_stale_processing env stale_threshold stale_max_retries s.db) s.stats

-- ===== src/Tests/Workers.antt =====
-- Runs of the pool, of a conversion and of a sweep.
use image_bed.Converter.{
  Around, Conversion, fail_pending_variants_on_submit_failure, should_trigger_variant_conversion,
}
use image_bed.Converter.Handover.{trigger_conversion-owns}
use image_bed.Converter.Refusal.{
  still_pending, submit_failure-leaves_none, trigger_conversion-declines,
}
use image_bed.Converter.Trigger.{trigger_conversion}
use image_bed.Errors.{Result, ok}
use image_bed.Gorm.Pairs.{AllPairs}
use image_bed.Models.{ImageVariant, failed, pending}
use image_bed.Pipeline.World.{Task}
use image_bed.Prelude.{List, Option, [], arith, false, none, refl, some, true, ◌*◌, ◌∷◌, ◌≡◌, ◌⊎◌}
use image_bed.Settings.{is_format_enabled}
use image_bed.Sweeper.{Sweep, repair_images, stale_max_retries, stale_threshold, sweep_once}
use image_bed.Sweeper.Repair.{Repairs, repair_images-Repairs}
use image_bed.Sweeper.Statistics.{Reports, sweep_once-Reports}
use image_bed.Tests.Database.{env, in_memory-updates, picture, stale_db, variant}
use image_bed.Tests.Pipelines.{settings}
use image_bed.Variants.{image_schema, variant_schema}
use image_bed.Variants.Recovery.{minute, recover_stale_processing}
use image_bed.Worker.{Watch, backpressure_interval, wait_for_memory}
use image_bed.Worker.Backpressure.{wait_for_memory-ends}
use image_bed.Worker.Pool.{
  Pool, Runs, admits, enters, new_pool, one_less, sends, stays, then_step, try_send,
}
use image_bed.Worker.Pool.Accounts.{Balances, reachable-Balances}
use image_bed.Worker.Pool.Shutdown.{Drains, shutdown-Drains}

-- Memory never frees up, and each reading of the clock is two seconds later.
abbrev watch : Watch
watch = record { memory_ok = λ n. false; clock = λ n. n * backpressure_interval }

wait_for_memory-ends_example :
    (r : Result (Unit {0})) × (wait_for_memory watch 20 ≡ some r)
    × (watch.memory_ok 0 ≡ true → r ≡ ok tt)
wait_for_memory-ends_example =
    wait_for_memory-ends watch (omega arith, λ n. omega arith) 20 (omega arith)

-- A pool of two workers and one place in the queue, which accepts a task.
abbrev started : Pool
started = new_pool 8 2 1

abbrev let_in : Pool
let_in = record started { waiting = 1 }

abbrev accepted : Pool
accepted = (try_send 5 (one_less let_in)).1

is_let_in : admits started ≡ true
unfolding admits new_pool
is_let_in = refl

one_sent : Runs started accepted
unfolding new_pool
one_sent =
    then_step (then_step (stays started) (enters started is_let_in)) (sends 5 let_in (omega arith))

reachable-Balances_example : Balances accepted
reachable-Balances_example = reachable-Balances 8 2 1 accepted one_sent

-- The flag is set while one more submitter waits.
abbrev stopped : Pool
stopped = record accepted { is_closed = true; waiting = 1 }

shutdown-Drains_example : Drains stopped (try_send 6 (one_less stopped)).1
shutdown-Drains_example =
    shutdown-Drains (then_step (stays stopped) (sends 6 stopped (omega arith))) refl

abbrev pub around : Around
around = record {
  env = env;
  settings = ok settings;
  supports_avif = true;
  pool = some false;
  get_by_id = λ n. true;
  own_storage = true;
  default_storage = true;
  has_cache = true;
}

abbrev conversion : Conversion
conversion = record {
  db = record stale_db { variants = variant 1 "thumbnail_600" pending false ∷ [] };
  image = picture;
  tasks = [];
  removed = [];
  evicted_images = [];
  evicted_variants = [];
}

trigger_conversion-owns_example :
    let after = trigger_conversion around false "/tmp/up" conversion in
    ((t : Task) × (after.tasks ≡ (t, "/tmp/up") ∷ []) × (after.removed ≡ []))
    ⊎ ((after.tasks ≡ []) × (after.removed ≡ "/tmp/up" ∷ []))
trigger_conversion-owns_example = trigger_conversion-owns around false "/tmp/up" conversion refl

abbrev to_fail : List (Option ImageVariant)
to_fail = some (variant 1 "thumbnail_600" pending false) ∷ none ∷ []

submit_failure-leaves_none_example :
    still_pending around "refused"
      (in_memory-updates variant_schema)
      1
      (fail_pending_variants_on_submit_failure around "refused" to_fail conversion).db
    ≡ 0
submit_failure-leaves_none_example =
    submit_failure-leaves_none around "refused" (in_memory-updates variant_schema) 1 to_fail
      conversion refl

abbrev animation : Conversion
animation = record conversion { image = record picture { mime_type = "image/gif" } }

trigger_conversion-declines_example : trigger_conversion around false "" animation ≡ animation
unfolding should_trigger_variant_conversion is_format_enabled
trigger_conversion-declines_example =
    trigger_conversion-declines around false settings animation refl refl

abbrev sweep : Sweep
sweep = record {
  stats = record {
    runs = 0;
    errors = 0;
    reset_variants = 0;
    failed_variants = 0;
    failed_images = 0;
    reset_images = 0;
    retriggered = 0;
    last_run_unix = 0;
    last_success_unix = 0;
    last_error_unix = 0;
    last_error = none;
  };
  db = record stale_db { variants = variant 1 "webp" failed false ∷ [] };
}

repair_images-Repairs_example :
    AllPairs
      (Repairs (85 * minute) [] sweep.db.variants)
      sweep.db.images
      (repair_images env (100 * minute) (85 * minute) [] sweep).db.images
repair_images-Repairs_example =
    repair_images-Repairs env (100 * minute) (85 * minute) [] sweep (in_memory-updates image_schema)

sweep_once-Reports_example :
    Reports env
      (env.now 0)
      (some (λ image db. db))
      (recover_stale_processing env stale_threshold stale_max_retries sweep.db)
      sweep.stats
      (sweep_once env (some (λ image db. db)) sweep).stats
sweep_once-Reports_example = sweep_once-Reports env (some (λ image db. db)) sweep

-- ===== src/Worker/Pool.antt =====
-- The pool's queue, counters and shutdown, as the steps that its goroutines take: submitters, workers
-- and those who stop it, in any order.
pub mod Accounts
pub mod Shutdown
use image_bed.Prelude.{
  Bool, List, [], false, if◌then◌else◌, leb, length, ltb, not, true, ℕ, ◌++◌, ◌+◌, ◌-◌, ◌<◌, ◌==◌,
  ◌∷◌, ◌≡◌,
}

-- A task is a number. `waiting` are the submitters that Submit let in and that have not reached the
-- select, `sent` those between the send and the count, `picked` the tasks that a worker has taken and
-- not yet counted.
pub record Pool : Type 0 where
  pub queue : List ℕ
  pub queue_cap : ℕ
  pub worker_count : ℕ
  pub is_closed : Bool
  pub channel_closed : Bool
  pub waiting : ℕ
  pub sent : ℕ
  pub picked : List ℕ
  pub running : List ℕ
  pub ended : List ℕ
  pub submitted_count : ℕ
  pub executed_count : ℕ
  pub failed_count : ℕ

-- NewPool, with the defaults for what is not positive; `cpus` is runtime.NumCPU().
unfoldable pub new_pool : (cpus workers queue_size : ℕ) → Pool
new_pool cpus workers queue_size = record {
  queue = [];
  queue_cap = if queue_size == 0 then 100 else queue_size;
  worker_count = if workers == 0 then (if leb cpus 4 then cpus else 4) else workers;
  is_closed = false;
  channel_closed = false;
  waiting = 0;
  sent = 0;
  picked = [];
  running = [];
  ended = [];
  submitted_count = 0;
  executed_count = 0;
  failed_count = 0;
}

-- The select of Submit, after the wait for memory: a send on a closed channel panics, which Submit
-- turns into a refusal, as it refuses when the queue is full.
unfoldable pub try_send : ℕ → Pool → Bool × Pool
try_send task p =
    if p.channel_closed
    then (false, p)
    else if ltb (length p.queue) p.queue_cap
    then (true, record p { queue = p.queue ++ task ∷ []; sent = p.sent + 1 })
    else (false, p)

-- Submit's guard
unfoldable pub admits : Pool → Bool
admits p = not p.is_closed

-- A submitter leaves the wait for memory.
abbrev pub one_less : Pool → Pool
one_less p = record p { waiting = p.waiting - 1 }

-- GetStats
pub record PoolStats : Type 0 where
  pub submitted : ℕ
  pub executed : ℕ
  pub failed : ℕ
  pub queue_size : ℕ
  pub stats_cap : ℕ
  pub workers : ℕ

unfoldable pub get_stats : Pool → PoolStats
get_stats p = record {
  submitted = p.submitted_count;
  executed = p.executed_count;
  failed = p.failed_count;
  queue_size = length p.queue;
  stats_cap = p.queue_cap;
  workers = p.worker_count;
}

-- One step of one goroutine.
pub data Step : Pool → Pool → Type 0 where
  -- Submit lets a submitter in, which waits for memory
  enters : (p : Pool) → admits p ≡ true → Step p (record p { waiting = p.waiting + 1 })
  -- the memory does not become free in time
  gives_up : (p : Pool) → 0 < p.waiting → Step p (one_less p)
  -- a submitter that was let in reaches the select
  sends : (task : ℕ) (p : Pool) → 0 < p.waiting → Step p (try_send task (one_less p)).1
  -- and then counts what it sent
  counts :
      (p : Pool)
      → 0 < p.sent
      → Step p (record p { sent = p.sent - 1; submitted_count = p.submitted_count + 1 })
  -- a worker with nothing at hand receives from the channel
  picks :
      (task : ℕ) (rest : List ℕ) (p : Pool)
      → p.queue ≡ task ∷ rest
      → length p.picked + length p.running < p.worker_count
      → Step p (record p { queue = rest; picked = task ∷ p.picked })
  -- executeTaskWithRecovery counts first
  starts :
      (task : ℕ) (a b : List ℕ) (p : Pool)
      → p.picked ≡ a ++ task ∷ b
      → Step p (record p {
        picked = a ++ b;
        running = task ∷ p.running;
        executed_count = p.executed_count + 1;
      })
  -- the task returns, or panics and is recovered
  returns :
      (task : ℕ) (a b : List ℕ) (p : Pool)
      → p.running ≡ a ++ task ∷ b
      → Step p (record p { running = a ++ b; ended = task ∷ p.ended })
  panics :
      (task : ℕ) (a b : List ℕ) (p : Pool)
      → p.running ≡ a ++ task ∷ b
      → Step p
          (record p { running = a ++ b; ended = task ∷ p.ended; failed_count = p.failed_count + 1 })
  -- ShutdownContext: the flag, and then the channel, by whoever set the flag
  marks_closed : (p : Pool) → p.is_closed ≡ false → Step p (record p { is_closed = true })
  closes :
      (p : Pool)
      → p.is_closed ≡ true
      → p.channel_closed ≡ false
      → Step p (record p { channel_closed = true })

-- Any number of steps.
pub data Runs : Pool → Pool → Type 0 where
  stays : (p : Pool) → Runs p p
  then_step : {p q r : Pool} → Runs p q → Step q r → Runs p r

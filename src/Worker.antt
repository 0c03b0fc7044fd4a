-- ===== src/Worker.antt =====
-- internal/worker/worker.go: the pool that runs the submitted tasks, and the wait for memory before
-- a submission.
pub mod Backpressure
pub mod Pool
use image_bed.Errors.{Error, Result, err, message, ok}
use image_bed.Prelude.{Bool, Option, if◌then◌else◌, ltb, none, some, suc, zero, ℕ, ◌*◌, ◌+◌, ◌≤◌}

-- Durations in nanoseconds.
abbrev pub second : ℕ
second = 1000000000

abbrev pub backpressure_timeout : ℕ
backpressure_timeout = 30 * second

abbrev pub backpressure_interval : ℕ
backpressure_interval = 2 * second

-- What waitForMemory sees: the `n`-th answer of the memory check, and the `n`-th reading of the
-- clock.
pub record Watch : Type 0 where
  pub memory_ok : ℕ → Bool
  pub clock : ℕ → ℕ

abbrev pub still_over_limit : Error
still_over_limit = message "memory still over limit after 30s backpressure wait"

module _ (watch : Watch) where
  -- The loop of waitForMemory from its `n`-th round on; `none` when the fuel is used up. The 0-th
  -- reading of the clock set the deadline, the 0-th memory check was on the fast path.
  unfoldable pub wait_rounds : (fuel n : ℕ) → Option (Result (Unit {0}))
  wait_rounds zero n = none
  wait_rounds (suc fuel) n =
      let later = wait_rounds fuel (suc n) in
      if watch.memory_ok n
      then some (ok tt)
      else if ltb (watch.clock 0 + backpressure_timeout) (watch.clock n)
      then some (err still_over_limit)
      else later

  -- waitForMemory
  unfoldable pub wait_for_memory : (fuel : ℕ) → Option (Result (Unit {0}))
  unfolding wait_rounds
  wait_for_memory fuel = if watch.memory_ok 0 then some (ok tt) else wait_rounds fuel 1

  -- A sleep takes at least its interval.
  abbrev pub Sleeps : Type 0
  Sleeps =
      (watch.clock 0 ≤ watch.clock 1)
      × ((n : ℕ) → watch.clock (suc n) + backpressure_interval ≤ watch.clock (suc (suc n)))

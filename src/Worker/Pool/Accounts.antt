-- ===== src/Worker/Pool/Accounts.antt =====
-- The counters of the pool, over the steps of its goroutines.
use mathlib.Core.Path.{subst}
use image_bed.Prelude.{
  Bool, List, [], arith, false, if◌then◌else◌, inl, inr, length, ltb, refl, suc, sym, true, ℕ, ◌++◌,
  ◌+◌, ◌-◌, ◌<◌, ◌∷◌, ◌≡◌, ◌≤◌, ◌⊎◌,
}
use image_bed.Worker.Pool.{
  Pool, Runs, Step, closes, counts, enters, gives_up, marks_closed, new_pool, one_less, panics,
  picks, returns, sends, starts, stays, then_step, try_send,
}

-- The queue is within its capacity, no more tasks are at hand than there are workers, and each task
-- that was sent is queued, at hand, running or ended, as the counters say.
pub record Balances (p : Pool) : Type 0 where
  pub within : length p.queue ≤ p.queue_cap
  pub manned : length p.picked + length p.running ≤ p.worker_count
  pub accounted : p.submitted_count + p.sent ≡ p.executed_count + length p.picked + length p.queue
  pub executed : p.executed_count ≡ length p.running + length p.ended
  pub failures : p.failed_count ≤ length p.ended
  pub flag_first : p.channel_closed ≡ true → p.is_closed ≡ true

length-append : {A : Type 0} (xs ys : List A) → length (xs ++ ys) ≡ length xs + length ys
length-append [] ys = omega arith
length-append (x ∷ xs) ys = ground (arith, length-append xs ys)

length-remove :
    (task : ℕ) (xs a b : List ℕ) → xs ≡ a ++ task ∷ b → length xs ≡ suc (length (a ++ b))
length-remove task xs a b h = rw (h, length-append a (task ∷ b), length-append a b) (omega arith)

abbrev sent_to : ℕ → Pool → Pool
sent_to task p = record p { queue = p.queue ++ task ∷ []; sent = p.sent + 1 }

-- A send changes nothing, or there was room in an open channel.
pub try_send-cases :
    (task : ℕ) (p : Pool)
    → ((try_send task p).1 ≡ p)
      ⊎ ((p.channel_closed ≡ false)
          × (length p.queue < p.queue_cap)
          × ((try_send task p).1 ≡ sent_to task p))
unfolding try_send
try_send-cases task p = go p.channel_closed (ltb (length p.queue) p.queue_cap) refl refl
  where
    after : Bool → Bool → Bool × Pool
    after c z = if c then (false, p) else if z then (true, sent_to task p) else (false, p)

    go :
        (c z : Bool)
        → p.channel_closed ≡ c
        → ltb (length p.queue) p.queue_cap ≡ z
        → ((after c z).1 ≡ p)
          ⊎ ((p.channel_closed ≡ false)
              × (length p.queue < p.queue_cap)
              × ((after c z).1 ≡ sent_to task p))
    go true z e f = inl refl
    go false true e f = inr (e, ground arith, refl)
    go false false e f = inl refl

sent_to-Balances :
    (task : ℕ) (p : Pool) → length p.queue < p.queue_cap → Balances p → Balances (sent_to task p)
sent_to-Balances task p room k = record {
  within = rw (length-append p.queue (task ∷ [])) (omega (arith, room));
  manned = k.manned;
  accounted = rw (length-append p.queue (task ∷ [])) (omega (arith, k.accounted));
  executed = k.executed;
  failures = k.failures;
  flag_first = k.flag_first;
}

-- The books do not say who waits.
same_books : (p : Pool) (n : ℕ) → Balances p → Balances (record p { waiting = n })
same_books p n k = record {
  within = k.within;
  manned = k.manned;
  accounted = k.accounted;
  executed = k.executed;
  failures = k.failures;
  flag_first = k.flag_first;
}

Step-Balances : {p q : Pool} → Step p q → Balances p → Balances q
Step-Balances (enters p admitted) k = same_books p (p.waiting + 1) k
Step-Balances (gives_up p some_waiting) k = same_books p (p.waiting - 1) k
Step-Balances (sends task p some_waiting) k =
    let k' = same_books p (p.waiting - 1) k in
    elim (try_send-cases task (one_less p)) [
      | inl same ↦ subst Balances (sym same) k'
      | inr (_, room, sent) ↦ subst Balances (sym sent) (sent_to-Balances task (one_less p) room k')
    ]
Step-Balances (counts p some_sent) k = record {
  within = k.within;
  manned = k.manned;
  accounted = omega (arith, k.accounted, some_sent);
  executed = k.executed;
  failures = k.failures;
  flag_first = k.flag_first;
}
Step-Balances (picks task rest p e free) k = record {
  within = let one = rw e at k.within in omega (arith, one);
  manned = omega (arith, free);
  accounted = let all = rw e at k.accounted in omega (arith, all);
  executed = k.executed;
  failures = k.failures;
  flag_first = k.flag_first;
}
Step-Balances (starts task a b p e) k =
    let less : length p.picked ≡ suc (length (a ++ b)) = length-remove task p.picked a b e in
    record {
      within = k.within;
      manned = omega (arith, less, k.manned);
      accounted = omega (arith, less, k.accounted);
      executed = omega (arith, k.executed);
      failures = k.failures;
      flag_first = k.flag_first;
    }
Step-Balances (returns task a b p e) k =
    let less : length p.running ≡ suc (length (a ++ b)) = length-remove task p.running a b e in
    record {
      within = k.within;
      manned = omega (arith, less, k.manned);
      accounted = k.accounted;
      executed = omega (arith, less, k.executed);
      failures = omega (arith, k.failures);
      flag_first = k.flag_first;
    }
Step-Balances (panics task a b p e) k =
    let less : length p.running ≡ suc (length (a ++ b)) = length-remove task p.running a b e in
    record {
      within = k.within;
      manned = omega (arith, less, k.manned);
      accounted = k.accounted;
      executed = omega (arith, less, k.executed);
      failures = omega (arith, k.failures);
      flag_first = k.flag_first;
    }
Step-Balances (marks_closed p unflagged) k = record {
  within = k.within;
  manned = k.manned;
  accounted = k.accounted;
  executed = k.executed;
  failures = k.failures;
  flag_first = λ h. refl;
}
Step-Balances (closes p flagged unclosed) k = record {
  within = k.within;
  manned = k.manned;
  accounted = k.accounted;
  executed = k.executed;
  failures = k.failures;
  flag_first = λ h. flagged;
}

new_pool-Balances : (cpus workers queue_size : ℕ) → Balances (new_pool cpus workers queue_size)
unfolding new_pool
new_pool-Balances cpus workers queue_size = record {
  within = omega arith;
  manned = omega arith;
  accounted = refl;
  executed = refl;
  failures = omega arith;
  flag_first = λ h. absurd cc;
}

Runs-Balances : {p q : Pool} → Runs p q → Balances p → Balances q
Runs-Balances (stays p) k = k
Runs-Balances (then_step runs step) k = Step-Balances step (Runs-Balances runs k)

-- In every state that a new pool reaches, under any interleaving of submitters, workers and those
-- who stop it, the queue is within its capacity, no more tasks are at hand than there are workers,
-- every task sent is queued, at hand, running or ended as the counters say, no more tasks failed than
-- ended, and the channel is closed only by who set the flag.
pub reachable-Balances :
    (cpus workers queue_size : ℕ) (p : Pool)
    → Runs (new_pool cpus workers queue_size) p
    → Balances p
reachable-Balances cpus workers queue_size p runs =
    Runs-Balances runs (new_pool-Balances cpus workers queue_size)

-- ===== src/Worker/Pool/Shutdown.antt =====
-- The tasks that the pool takes during and after ShutdownContext.
use mathlib.Core.Path.{subst}
use image_bed.Prelude.{arith, inl, inr, length, not, refl, sym, true, ℕ, ◌+◌, ◌∙◌, ◌≡◌, ◌≤◌}
use image_bed.Worker.Pool.{
  Pool, Runs, Step, admits, closes, counts, enters, gives_up, marks_closed, one_less, panics, picks,
  returns, sends, starts, stays, then_step,
}
use image_bed.Worker.Pool.Accounts.{try_send-cases}

-- The tasks that submitters have sent so far.
abbrev pub taken : Pool → ℕ
taken p = p.submitted_count + p.sent

-- From a pool whose flag is set on, to a later one.
pub record Drains (p q : Pool) : Type 0 where
  pub stays_flagged : q.is_closed ≡ true
  -- a task that is still taken belongs to a submitter that was let in before
  pub few : taken q + q.waiting ≤ taken p + p.waiting
  -- and none is taken once the channel is closed
  pub stays_closed : p.channel_closed ≡ true → q.channel_closed ≡ true
  pub none_taken : p.channel_closed ≡ true → taken q ≡ taken p
  pub shrinks : p.channel_closed ≡ true → length q.queue ≤ length p.queue

Drains-refl : (p : Pool) → p.is_closed ≡ true → Drains p p
Drains-refl p flagged = record {
  stays_flagged = flagged;
  few = omega arith;
  stays_closed = λ h. h;
  none_taken = λ h. refl;
  shrinks = λ h. omega arith;
}

Drains-trans : {p q r : Pool} → Drains p q → Drains q r → Drains p r
Drains-trans {p} {q} {r} a b = record {
  stays_flagged = b.stays_flagged;
  few = omega (arith, a.few, b.few);
  stays_closed = λ h. b.stays_closed (a.stays_closed h);
  none_taken = λ h. b.none_taken (a.stays_closed h) ∙ a.none_taken h;
  shrinks = λ h.
      let first = a.shrinks h in
      let second = b.shrinks (a.stays_closed h) in omega (arith, first, second);
}

-- A step that neither sends nor lets anyone in.
quiet :
    (p q : Pool)
    → q.is_closed ≡ true
    → (p.channel_closed ≡ true → q.channel_closed ≡ true)
    → taken q ≡ taken p
    → q.waiting ≤ p.waiting
    → length q.queue ≤ length p.queue
    → Drains p q
quiet p q flagged closed same less short = record {
  stays_flagged = flagged;
  few = omega (arith, same, less);
  stays_closed = closed;
  none_taken = λ h. same;
  shrinks = λ h. short;
}

Step-Drains : {p q : Pool} → Step p q → p.is_closed ≡ true → Drains p q
unfolding admits
Step-Drains (enters p admitted) h =
    let open_pool : not true ≡ true = subst (λ b. not b ≡ true) h admitted in absurd cc
Step-Drains (gives_up p some_waiting) h =
    quiet p (one_less p) h (λ c. c) refl (omega arith) (omega arith)
Step-Drains (sends task p some_waiting) h = elim (try_send-cases task (one_less p)) [
  | inl same ↦
      subst (Drains p) (sym same) (quiet p (one_less p) h (λ c. c) refl (omega arith) (omega arith))
  | inr (unclosed, _, sent) ↦ subst (Drains p) (sym sent) (record {
    stays_flagged = h;
    few = omega (arith, some_waiting);
    stays_closed = λ c. c;
    none_taken = λ c. absurd cc;
    shrinks = λ c. absurd cc;
  })
]
Step-Drains (counts p some_sent) h =
    quiet p _ h (λ c. c) (omega (arith, some_sent)) (omega arith) (omega arith)
Step-Drains (picks task rest p e free) h =
    quiet p _ h (λ c. c) refl (omega arith) (rw e (omega arith))
Step-Drains (starts task a b p e) h = quiet p _ h (λ c. c) refl (omega arith) (omega arith)
Step-Drains (returns task a b p e) h = quiet p _ h (λ c. c) refl (omega arith) (omega arith)
Step-Drains (panics task a b p e) h = quiet p _ h (λ c. c) refl (omega arith) (omega arith)
Step-Drains (marks_closed p unflagged) h = quiet p _ refl (λ c. c) refl (omega arith) (omega arith)
Step-Drains (closes p flagged unclosed) h =
    quiet p _ flagged (λ c. refl) refl (omega arith) (omega arith)

-- From the moment ShutdownContext has set the flag, however the goroutines go on, the pool takes at
-- most as many tasks more as there were submitters already let in, and the flag stays. From the
-- moment it has closed the channel, it takes none, and the queue does not grow.
pub shutdown-Drains : {p q : Pool} → Runs p q → p.is_closed ≡ true → Drains p q
shutdown-Drains (stays p) h = Drains-refl p h
shutdown-Drains (then_step runs step) h =
    let first = shutdown-Drains runs h in Drains-trans first (Step-Drains step first.stays_flagged)

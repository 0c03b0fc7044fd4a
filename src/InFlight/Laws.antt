-- ===== src/InFlight/Laws.antt =====
-- Lookup in the registry after each operation.
use image_bed.InFlight.{
  Registry, Snapshot, begin_in_flight_task, release_lease, task_of, update_lease, without,
}
use image_bed.Prelude.{
  List, Option, [], ap, arith, if◌then◌else◌, none, refl, some, suc, zero, ℕ, ◌+◌, ◌<◌, ◌==◌, ◌∷◌,
  ◌≡◌, ◌≢◌,
}

pub task_of-without :
    (k j : ℕ) (tasks : List (ℕ × Snapshot))
    → task_of k (without j tasks) ≡ (if j == k then none else task_of k tasks)
task_of-without k j [] = ground arith
task_of-without k j ((i, s) ∷ tasks) = ground (arith, task_of-without k j tasks)

-- The keys given out so far are at most `next_id`.
abbrev pub IsBelow : Registry → Type 0
IsBelow r = (k : ℕ) → r.next_id < k → task_of k r.tasks ≡ none

some-ne : {i k : ℕ} → some i ≢ some k → i ≢ k
some-ne other e = other (ap some e)

-- An update or a release of one lease does not show in the entries of the others.
pub task_of-update_lease :
    (k : ℕ) (l : Option ℕ) (image_id : ℕ) (ids : List ℕ) (r : Registry)
    → l ≢ some k
    → task_of k (update_lease l image_id ids r).tasks ≡ task_of k r.tasks
unfolding update_lease
task_of-update_lease k none image_id ids r other = refl
task_of-update_lease k (some i) image_id ids r other =
    ground (arith, some-ne other, task_of-without k i r.tasks)

pub task_of-release_lease :
    (k : ℕ) (l : Option ℕ) (r : Registry)
    → task_of k (release_lease l r).tasks
      ≡ elim l [ none ↦ task_of k r.tasks | some i ↦ if i == k then none else task_of k r.tasks ]
unfolding release_lease
task_of-release_lease k none r = refl
task_of-release_lease k (some i) r = task_of-without k i r.tasks

-- A new lease has a key above all others, and leaves their entries alone.
pub task_of-begin :
    (k image_id : ℕ) (ids : List ℕ) (r : Registry)
    → (begin_in_flight_task image_id ids r).0 ≢ some k
    → task_of k (begin_in_flight_task image_id ids r).1.tasks ≡ task_of k r.tasks
unfolding begin_in_flight_task
task_of-begin k zero [] r other = refl
task_of-begin k (suc n) [] r other =
    ground (arith, some-ne other, task_of-without k (r.next_id + 1) r.tasks)
task_of-begin k zero (i ∷ ids) r other =
    ground (arith, some-ne other, task_of-without k (r.next_id + 1) r.tasks)
task_of-begin k (suc n) (i ∷ ids) r other =
    ground (arith, some-ne other, task_of-without k (r.next_id + 1) r.tasks)

pub begin-IsNew :
    (image_id : ℕ) (ids : List ℕ) (r : Registry)
    → IsBelow r
    → (k : ℕ) → (begin_in_flight_task image_id ids r).0 ≡ some k
    → task_of k r.tasks ≡ none
unfolding begin_in_flight_task
begin-IsNew zero [] r below k e = cc
begin-IsNew (suc n) [] r below k e = below k (ground arith)
begin-IsNew zero (i ∷ ids) r below k e = below k (ground arith)
begin-IsNew (suc n) (i ∷ ids) r below k e = below k (ground arith)

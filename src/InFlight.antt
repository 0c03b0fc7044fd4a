-- ===== src/InFlight.antt =====
-- internal/worker/worker.go: the registry of tasks in flight and its leases. The global mutex makes
-- each operation one step; a map is an association list, of which the order means nothing.
pub mod Laws
use image_bed.Prelude.{List, Option, [], if◌then◌else◌, map, none, some, zero, ℕ, ◌+◌, ◌==◌, ◌∷◌}

pub record Snapshot : Type 0 where
  pub image_id : ℕ
  pub variant_ids : List ℕ

pub record Registry : Type 0 where
  pub next_id : ℕ
  pub tasks : List (ℕ × Snapshot)

abbrev pub without : ℕ → List (ℕ × Snapshot) → List (ℕ × Snapshot)
without k [] = []
without k ((i, s) ∷ t) = let rest = without k t in if i == k then rest else (i, s) ∷ rest

abbrev pub task_of : ℕ → List (ℕ × Snapshot) → Option Snapshot
task_of k [] = none
task_of k ((i, s) ∷ t) = if i == k then some s else task_of k t

-- inFlightTaskRegistry.Begin; a lease is the task's key
unfoldable pub begin_task : ℕ → List ℕ → Registry → ℕ × Registry
begin_task image_id variant_ids r =
    let id = r.next_id + 1 in
    let s : Snapshot = record { image_id = image_id; variant_ids = variant_ids } in
    (id, record { next_id = id; tasks = (id, s) ∷ without id r.tasks })

-- beginInFlightTask: no lease without an image and variants
unfoldable pub begin_in_flight_task : ℕ → List ℕ → Registry → Option ℕ × Registry
unfolding begin_task
begin_in_flight_task zero [] r = (none, r)
begin_in_flight_task image_id variant_ids r =
    let (id, r') = begin_task image_id variant_ids r in (some id, r')

-- Update: a lease that was released changes nothing
unfoldable pub update_lease : Option ℕ → ℕ → List ℕ → Registry → Registry
update_lease none image_id variant_ids r = r
update_lease (some id) image_id variant_ids r =
    let s : Snapshot = record { image_id = image_id; variant_ids = variant_ids } in
    elim (task_of id r.tasks) [
      | none ↦ r
      | some _ ↦ record r { tasks = (id, s) ∷ without id r.tasks }
    ]

-- Release
unfoldable pub release_lease : Option ℕ → Registry → Registry
release_lease none r = r
release_lease (some id) r = record r { tasks = without id r.tasks }

-- Snapshots
unfoldable pub snapshots : Registry → List Snapshot
snapshots r = map (λ t. t.1) r.tasks

-- ===== src/Pipeline/Resources/Returned.antt =====
-- The entry and the slot of a task at its end.
use text.Mathlib.Text.{◌==◌ as str_eq}
use image_bed.Errors.{Result, err, ok}
use image_bed.Images.{touch_variant_processing_status}
use image_bed.InFlight.{Registry, Snapshot, release_lease, task_of}
use image_bed.InFlight.Laws.{IsBelow, begin-IsNew, task_of-begin, task_of-release_lease}
use image_bed.Models.{ImageVariantStatus, has_failed, pending, processing}
use image_bed.Pipeline.Execute.{
  acquire_all, acquire_slot, acquire_variant, after_cas, after_run, after_slot, begin_lease, body,
  drop_local_file, execute, process, release_slot, report_failure, run_in_slot,
}
use image_bed.Pipeline.Keeps.{Keeps, Keeps-attempt, Keeps-bind, Keeps-if, Keeps-pure, Keeps-reads}
use image_bed.Pipeline.Ownership.Settled.{fresh}
use image_bed.Pipeline.Resources.{Held, held_rules, query-Held}
use image_bed.Pipeline.Rules.{fail_asked-Keeps, run_pipeline-Keeps}
use image_bed.Pipeline.Track.{
  finalize, set_image_variant_status, touch_image, touch_processing_state,
}
use image_bed.Pipeline.World.{
  Exec, Outcome, Task, Tools, World, attempt, attempt-query, call, continue, deferring, done, fail,
  from_result, modify, panic, pure, query, remove_file, to_result, ◌>>=◌,
}
use image_bed.Prelude.{
  Bool, Bool-cases, List, Option, [], ap, arith, false, if◌then◌else◌, inl, inr, ltb, none, refl,
  some, sym, true, ℕ, ◌++◌, ◌+◌, ◌==◌, ◌∙◌, ◌∷◌, ◌≡◌,
}
use image_bed.Variants.{touch_processing, update_status_cas}

module _ (tools : Tools) (t : Task) (lease : Option ℕ) (slots : ℕ)
    (tasks : List (ℕ × Snapshot)) where
  report_failure-Held : Keeps (Held lease slots tasks) (report_failure tools t)
  unfolding report_failure
  report_failure-Held =
      let r = held_rules tools t lease slots tasks in Keeps-bind (r.sets has_failed) (λ _. r.evicts)

  after_run-Held : (r : Result (Unit {0})) → Keeps (Held lease slots tasks) (after_run tools t r)
  unfolding after_run
  after_run-Held (ok _) = Keeps-pure tt
  after_run-Held (err _) = report_failure-Held

  touch-Held : (ids : List ℕ) → Keeps (Held lease slots tasks) (touch_processing_state tools t ids)
  unfolding touch_processing_state touch_image
  touch-Held ids =
      Keeps-bind
        (Keeps-attempt (query-Held tools t lease slots tasks (touch_processing tools.env ids)))
        λ _.
          Keeps-if (ltb 0 t.image_id)
            (Keeps-bind
              (Keeps-attempt (
                query-Held tools t lease slots tasks
                  (touch_variant_processing_status tools.env t.image_id)))
              (λ _. Keeps-pure tt))
            (Keeps-pure tt)

  run_in_slot-Held : Keeps (Held lease slots tasks) (run_in_slot tools t)
  unfolding run_in_slot
  run_in_slot-Held = Keeps-bind (Keeps-reads _) λ ids. Keeps-bind (touch-Held ids) λ _.
      Keeps-bind (Keeps-attempt (run_pipeline-Keeps tools t (held_rules tools t lease slots tasks)))
        after_run-Held

module _ (tools : Tools) (t : Task) (lease : Option ℕ) (slots : ℕ)
    (tasks : List (ℕ × Snapshot)) where
  -- With the slot taken, the run gives it back; without it, nothing was taken.
  slot_phase :
      (r : Outcome (Unit {0})) (w : World)
      → Held lease slots tasks w
      → Held lease slots tasks
          (continue
            (to_result (continue r (λ _. modify (λ v. record v { slots = v.slots + 1 })) w).0)
            (after_slot tools t)
            (continue r (λ _. modify (λ v. record v { slots = v.slots + 1 })) w).1).1
  unfolding after_slot modify deferring
  slot_phase (done a) w h = returned (run_in_slot tools t taken).1 (
      (run_in_slot-Held tools t lease (slots + 1) tasks).at taken (record {
        same_lease = h.same_lease;
        same_slots = ap (λ (n : ℕ). n + 1) h.same_slots;
        others = h.others;
      }))
    where
      taken : World
      taken = record w { slots = w.slots + 1 }

      returned :
          (v : World)
          → Held lease (slots + 1) tasks v
          → Held lease slots tasks (release_slot tools t v)
      returned v k = record {
        same_lease = k.same_lease;
        same_slots = omega (arith, k.same_slots);
        others = k.others;
      }
  slot_phase (fail e) w h =
      (Keeps-bind (fail_asked-Keeps tools t (held_rules tools t lease slots tasks) _)
          (λ _. report_failure-Held tools t lease slots tasks)).at
        w h
  slot_phase (panic s) w h = h

-- Nothing changed: the lease, the slots, and every entry of the registry.
pub record GivenBack (w w' : World) : Type 0 where
  pub same_slots : w'.slots ≡ w.slots
  pub same_tasks : (k : ℕ) → task_of k w'.registry.tasks ≡ task_of k w.registry.tasks

-- The release takes away the entry that the lease had brought.
released_lookup :
    (lease : Option ℕ) (slots : ℕ) (tasks : List (ℕ × Snapshot)) (v : World)
    → Held lease slots tasks v
    → ((k : ℕ) → lease ≡ some k → task_of k tasks ≡ none)
    → (k : ℕ) → task_of k (release_lease v.lease v.registry).tasks ≡ task_of k tasks
released_lookup none slots tasks v h new k =
    rw (h.same_lease, task_of-release_lease k none v.registry) (h.others k (λ e. cc))
released_lookup (some i) slots tasks v h new k =
    rw (h.same_lease, task_of-release_lease k (some i) v.registry)
      (elim (Bool-cases (i == k)) [
        | inl same ↦ rw same (sym (new k (ground arith)))
        | inr other ↦ rw other (h.others k (λ e. ground arith))
      ])

-- From a world with the same slots and registry.
from : {w v u : World} → v.slots ≡ w.slots → v.registry ≡ w.registry → GivenBack v u → GivenBack w u
from s g k = record {
  same_slots = k.same_slots ∙ s;
  same_tasks = λ j. k.same_tasks j ∙ ap (λ (r : Registry). task_of j r.tasks) g;
}

module _ (tools : Tools) (t : Task) where
  -- `process` begins a lease, and releases it on each way out.
  process-GivenBack : (w : World) → IsBelow w.registry → GivenBack w (process tools t w).1
  unfolding process begin_lease ◌>>=◌ modify deferring attempt acquire_slot call
  process-GivenBack w below = record {
    same_slots = held.same_slots;
    same_tasks =
        released_lookup begun.lease w.slots w.registry.tasks _ held
          (begin-IsNew t.image_id w.acquired w.registry below);
  }
    where
      begun : World
      begun = begin_lease tools t w

      held :
          Held begun.lease w.slots w.registry.tasks
            ((attempt (acquire_slot tools t) >>= after_slot tools t) begun).1
      held =
          slot_phase tools t begun.lease w.slots w.registry.tasks (tools.acquire_slot begun.calls)
            (record begun { calls = begun.calls + 1 })
            (record {
              same_lease = refl;
              same_slots = refl;
              others = λ k o. task_of-begin k t.image_id w.acquired w.registry o;
            })

  -- Acquiring a variant touches neither, so what comes after it decides.
  after_acquire :
      (id : ℕ) (k : Exec (Unit {0}))
      → ((v : World) → IsBelow v.registry → GivenBack v (k v).1)
      → (w : World) → IsBelow w.registry
      → GivenBack w ((acquire_variant tools t id >>= λ b. if b then k else pure tt) w).1
  unfolding acquire_variant after_cas ◌>>=◌ pure attempt query modify
  after_acquire id k kept w below = elim (Bool-cases (ltb 0 id)) [
    | inr e ↦ rw e (kept w below)
    | inl e ↦ rw e (
        after (update_status_cas tools.env id pending processing "" w.db).0
          (record w { db = (update_status_cas tools.env id pending processing "" w.db).1 }) refl
          refl)
  ]
    where
      next : Result Bool → World → World
      next r v =
          (((λ (u : World). continue (to_result (from_result r)) (after_cas tools t id) u) >>= λ b.
          if b then k else pure tt)
            v).1

      after :
          (r : Result Bool) (v : World)
          → v.slots ≡ w.slots
          → v.registry ≡ w.registry
          → GivenBack w (next r v)
      after (ok true) v s g =
          from s g (kept (record v { acquired = v.acquired ++ id ∷ [] }) (rw g below))
      after (ok false) v s g = record { same_slots = s; same_tasks = λ j. rw g refl }
      after (err e) v s g = record { same_slots = s; same_tasks = λ j. rw g refl }

  acquire_all-GivenBack : (w : World) → IsBelow w.registry → GivenBack w (acquire_all tools t w).1
  unfolding acquire_all
  acquire_all-GivenBack = after_acquire t.thumb_variant_id _ (
      after_acquire t.webp_variant_id _
        (after_acquire t.avif_variant_id (process tools t) process-GivenBack))

  same_slots-set_image_variant_status :
      (s : ImageVariantStatus) (v : World)
      → (set_image_variant_status tools t s v).1.slots ≡ v.slots
  unfolding set_image_variant_status pure
  same_slots-set_image_variant_status s v = rw attempt-query refl

  same_registry-set_image_variant_status :
      (s : ImageVariantStatus) (v : World)
      → (set_image_variant_status tools t s v).1.registry ≡ v.registry
  unfolding set_image_variant_status pure
  same_registry-set_image_variant_status s v = rw attempt-query refl

  -- Neither the deferred removal of the file nor `finalize` takes anything back.
  finalize-same :
      (r : Outcome (Unit {0})) (w v : World)
      → GivenBack w v
      → GivenBack w (finalize tools t (r, drop_local_file tools t v))
  unfolding finalize
  finalize-same r w v k = elim (Bool-cases (str_eq v.local_file_path "")) [
    | inl e ↦ rw e (last r v k)
    | inr e ↦ rw e (
        last r (remove_file v.local_file_path v)
          (record { same_slots = k.same_slots; same_tasks = k.same_tasks }))
  ]
    where
      last :
          (r : Outcome (Unit {0})) (v : World)
          → GivenBack w v
          → GivenBack w (finalize tools t (r, v))
      last (done _) v k = record { same_slots = k.same_slots; same_tasks = k.same_tasks }
      last (fail _) v k = record { same_slots = k.same_slots; same_tasks = k.same_tasks }
      last (panic s) v k = record {
        same_slots = same_slots-set_image_variant_status has_failed _ ∙ k.same_slots;
        same_tasks = λ j.
            ap (λ (g : Registry). task_of j g.tasks)
              (same_registry-set_image_variant_status has_failed _)
            ∙ k.same_tasks j;
      }

  -- On each way out, a panic included, `Execute` has given back what it took: the processing slots
  -- taken are as many as before, and each entry of the in-flight registry is what it was before. The
  -- condition is that the registry has no entry at or above its next number, as at its start.
  pub execute-GivenBack : (w : World) → IsBelow w.registry → GivenBack w (execute tools t w)
  unfolding execute body deferring
  execute-GivenBack w below =
      finalize-same (acquire_all tools t (fresh w)).0 w (acquire_all tools t (fresh w)).1
        (from refl refl (acquire_all-GivenBack (fresh w) below))

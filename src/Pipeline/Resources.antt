-- ===== src/Pipeline/Resources.antt =====
-- What a task takes and gives back: its entry in the in-flight registry and its processing slot.
pub mod Returned
use text.Mathlib.Text.{◌==◌ as str_eq}
use image_bed.Errors.{Result, err, ok}
use image_bed.Images.{update_variant_status}
use image_bed.InFlight.{Snapshot, task_of}
use image_bed.InFlight.Laws.{task_of-update_lease}
use image_bed.Models.{ImageVariantStatus}
use image_bed.Pipeline.Keeps.{
  Keeps, Keeps-attempt, Keeps-bind, Keeps-if, Keeps-modify, Keeps-pure, Keeps-query,
}
use image_bed.Pipeline.Passive.{Passive}
use image_bed.Pipeline.Rules.{RunRules}
use image_bed.Pipeline.Track.{
  after_update, delete_cache_on_terminal_state, delete_tracked_variant, mark_variant_failed,
  persist, persist_by, release_tracked_variant, remove_id, save_variant_results,
  set_image_variant_status, settle_variant, settled_by, sync_in_flight_tracking,
}
use image_bed.Pipeline.World.{PipelineResult, Task, Tools, World, query}
use image_bed.Prelude.{
  Bool, Bool-cases, List, Option, String, [], false, if◌then◌else◌, inl, inr, none, not, some, true,
  ℕ, ◌&&◌, ◌==◌, ◌∙◌, ◌∷◌, ◌≡◌, ◌≢◌,
}
use image_bed.Variants.{Db, Query, delete_variant, update_completed, update_failed}

-- While the task runs: the lease, the slots, and the other tasks' entries.
pub record Held (lease : Option ℕ) (slots : ℕ) (tasks : List (ℕ × Snapshot)) (w : World)
    : Type 0 where
  pub same_lease : w.lease ≡ lease
  pub same_slots : w.slots ≡ slots
  pub others : (k : ℕ) → lease ≢ some k → task_of k w.registry.tasks ≡ task_of k tasks

module _ (tools : Tools) (t : Task) (lease : Option ℕ) (slots : ℕ)
    (tasks : List (ℕ × Snapshot)) where
  abbrev H : World → Type 0
  H = Held lease slots tasks

  held_passive : Passive H
  held_passive = record {
    steady = λ w n temps objects images variants path grow h. record {
      same_lease = h.same_lease;
      same_slots = h.same_slots;
      others = h.others;
    };
  }

  -- The database and the tracked list are no part of it.
  pub Held-db :
      (w : World) (db : Db) (acquired : List ℕ)
      → H w
      → H (record w { db = db; acquired = acquired })
  Held-db w db acquired h = record {
    same_lease = h.same_lease;
    same_slots = h.same_slots;
    others = h.others;
  }

  Held-sync : (w : World) → H w → H (sync_in_flight_tracking tools t w)
  unfolding sync_in_flight_tracking
  Held-sync w h = record {
    same_lease = h.same_lease;
    same_slots = h.same_slots;
    others = λ k o.
        task_of-update_lease k w.lease t.image_id w.acquired w.registry (rw h.same_lease o)
        ∙ h.others k o;
  }

  Held-release : (id : ℕ) (w : World) → H w → H (release_tracked_variant tools t id w)
  unfolding release_tracked_variant
  Held-release id w h = split w.acquired (id == 0)
    where
      held : World
      held = record w { acquired = remove_id id w.acquired }

      split :
          (acq : List ℕ) (z : Bool)
          → H (elim acq [ [] ↦ w | _ ∷ _ ↦ if z then w else sync_in_flight_tracking tools t held ])
      split [] z = h
      split (_ ∷ _) true = h
      split (_ ∷ _) false = Held-sync held (Held-db w w.db (remove_id id w.acquired) h)

  Held-settled_by :
      (id : ℕ) (r : Result (Unit {0})) (w : World) → H w → H (settled_by tools t id r w)
  unfolding settled_by
  Held-settled_by id (ok _) w h = Held-release id w h
  Held-settled_by id (err _) w h = h

  settle-Held : (id : ℕ) (op : Query (Unit {0})) → Keeps H (settle_variant tools t id op)
  unfolding settle_variant
  settle-Held id op = record {
    at = λ w h.
        Held-settled_by id (op w.db).0 (record w { db = (op w.db).1 })
          (Held-db w (op w.db).1 w.acquired h);
  }

  marks-Held : (id : ℕ) (msg : String) → Keeps H (mark_variant_failed tools t id msg)
  unfolding mark_variant_failed
  marks-Held id msg =
      Keeps-if (id == 0) (Keeps-pure tt) (settle-Held id (update_failed tools.env id msg))

  deletes-Held : (id : ℕ) → Keeps H (delete_tracked_variant tools t id)
  unfolding delete_tracked_variant
  deletes-Held id =
      Keeps-if (id == 0) (Keeps-pure tt) (settle-Held id (delete_variant tools.env id))

  after_update-Held : (id : ℕ) (r : Result (Unit {0})) → Keeps H (after_update tools t id r)
  unfolding after_update
  after_update-Held id (ok _) = Keeps-bind (Keeps-modify _ (Held-release id)) (λ _. Keeps-pure none)
  after_update-Held id (err e) = Keeps-bind (marks-Held id _) (λ _. Keeps-pure (some e))

  persist_by-Held : (id : ℕ) (op : Query (Unit {0})) → Keeps H (persist_by tools t id op)
  unfolding persist_by
  persist_by-Held id op = record {
    at = λ w h.
        (after_update-Held id (op w.db).0).at (record w { db = (op w.db).1 })
          (Held-db w (op w.db).1 w.acquired h);
  }

  persist-Held : (id : ℕ) (o : Option PipelineResult) → Keeps H (persist tools t id o)
  unfolding persist
  persist-Held id none = Keeps-pure none
  persist-Held id (some r) = Keeps-if (id == 0) (Keeps-pure none) (
      persist_by-Held id (
        update_completed tools.env id (tools.base_name r.storage_path) r.storage_path r.file_size
          r.file_hash r.width r.height))

  saves-Held : (a b c : Option PipelineResult) → Keeps H (save_variant_results tools t a b c)
  unfolding save_variant_results
  saves-Held a b c = Keeps-bind (persist-Held t.thumb_variant_id a) λ _.
      Keeps-bind (persist-Held t.webp_variant_id b)
        λ _. Keeps-bind (persist-Held t.avif_variant_id c) λ _. Keeps-pure _

  pub query-Held : {A : Type 0} (q : Query A) → Keeps H (query q)
  query-Held q = Keeps-query q (λ w h. Held-db w (q w.db).1 w.acquired h)

  sets-Held : (s : ImageVariantStatus) → Keeps H (set_image_variant_status tools t s)
  unfolding set_image_variant_status
  sets-Held s =
      Keeps-bind (Keeps-attempt (query-Held (update_variant_status tools.env t.image_id s)))
        (λ _. Keeps-pure tt)

  evicts-Held : Keeps H (delete_cache_on_terminal_state tools t)
  unfolding delete_cache_on_terminal_state
  evicts-Held = Keeps-modify _ λ w h.
      elim (Bool-cases (tools.has_cache && not (str_eq t.image_identifier ""))) [
        | inl e ↦ rw e (
            held_passive.steady w w.calls w.temp_files w.objects _ _ w.local_file_path (λ p k. k) h)
        | inr e ↦ rw e h
      ]

  pub held_rules : RunRules tools t H
  held_rules = record {
    passive = held_passive;
    marks = λ id msg _. marks-Held id msg;
    deletes = λ id _. deletes-Held id;
    saves = saves-Held;
    sets = sets-Held;
    evicts = evicts-Held;
  }

-- ===== src/Pipeline/Ownership/Settled.antt =====
-- The deferred roll back, and what `execute` leaves behind in `image_variants`.
use image_bed.Gorm.{Fails, scoped}
use image_bed.Gorm.Pairs.{AllPairs, AllPairs-map, AllPairs-update_where}
use image_bed.Images.{update_variant_status}
use image_bed.Models.{
  ImageVariant, ImageVariantStatus, VariantStatus, failed, is_status, pending, processing,
}
use image_bed.Pipeline.Execute.{body, execute}
use image_bed.Pipeline.Ownership.{RowTracked, Tracking, Tracking-start}
use image_bed.Pipeline.Ownership.Body.{body-Keeps}
use image_bed.Pipeline.Track.{finalize, ids_of, roll_back, set_image_variant_status}
use image_bed.Pipeline.World.{Outcome, Task, Tools, World, attempt-query, done, fail, panic, pure}
use image_bed.Prelude.{
  Bool, List, String, [], arith, false, inl, inr, mem, none, refl, true, ℕ, ◌∷◌, ◌≡◌, ◌≤◌,
}
use image_bed.Text.{◌⧺◌}
use image_bed.Variants.{
  Db, Env, cas_columns, has_status, is_busy, update_status_cas, variant_schema,
}
use image_bed.Variants.Effects.{
  sent-update_status_cas, update_status_cas_runs, update_status_cas_sure,
}

-- No update of the variants reports an error from the `from`-th statement on.
abbrev pub ReliableFrom : Env → ℕ → Type 0
ReliableFrom env from =
    (n : ℕ) (p : ImageVariant → Bool) (f : ImageVariant → ImageVariant) (rows : List ImageVariant)
    → from ≤ n
    → ¬ Fails (env.variants.updates n p f rows).0

-- A row before and after a task.
pub record RowSettled (t : Task) (a b : ImageVariant) : Type 0 where
  pub same_id : b.id ≡ a.id
  pub others : mem a.id (ids_of t) ≡ false → a ≡ b
  pub not_left_busy : is_busy b ≡ true → is_busy a ≡ true

pub record RowFramed (t : Task) (a b : ImageVariant) : Type 0 where
  pub same_id : b.id ≡ a.id
  pub others : mem a.id (ids_of t) ≡ false → a ≡ b

module _ (tools : Tools) (t : Task) (before : List ImageVariant) where
  released_row :
      (id : ℕ) (ids : List ℕ) (status : VariantStatus) (msg : String) (now : ℕ) (a b : ImageVariant)
      → is_status status processing ≡ false
      → mem id (ids_of t) ≡ true
      → RowTracked t (id ∷ ids) a b
      → b.id ≡ id
      → RowTracked t ids a (cas_columns status msg now b)
  released_row id ids status msg now a b other mine r same = record {
    same_id = r.same_id;
    others = λ o. cc (o, r.same_id, same, mine);
    busy = λ h. ground arith;
  }

  passed_row :
      (id : ℕ) (ids : List ℕ) (a b : ImageVariant)
      → RowTracked t (id ∷ ids) a b
      → (b.id ≡ id → is_busy b ≡ false)
      → RowTracked t ids a b
  passed_row id ids a b r idle = record {
    same_id = r.same_id;
    others = r.others;
    busy = λ h. ground (arith, r.busy h, idle);
  }

  roll_back-settles :
      (status : VariantStatus) (msg : String) (ids : List ℕ) (db : Db)
      → is_status status processing ≡ false
      → ReliableFrom tools.env db.sent
      → ((i : ℕ) → mem i ids ≡ true → mem i (ids_of t) ≡ true)
      → AllPairs (RowTracked t ids) before db.variants
      → AllPairs (RowTracked t []) before (roll_back tools t status msg ids db).variants
  unfolding roll_back
  roll_back-settles status msg [] db other sure ours k = k
  roll_back-settles status msg (id ∷ ids) db other sure ours k =
      roll_back-settles status msg ids (update_status_cas tools.env id processing status msg db).1
        other later (λ i h. ours i (ground arith)) swapped
    where
      now : ℕ
      now = tools.env.now db.sent

      later :
          ReliableFrom tools.env (update_status_cas tools.env id processing status msg db).1.sent
      later n p f rows h =
          sure n p f rows
            (omega (arith, sent-update_status_cas tools.env id processing status msg db))

      swapped :
          AllPairs
            (RowTracked t ids)
            before
            (update_status_cas tools.env id processing status msg db).1.variants
      swapped =
          rw
            (update_status_cas_sure tools.env id processing status msg db (
              sure db.sent (has_status id processing) (cas_columns status msg now) db.variants
                (omega arith)))
            (AllPairs-update_where (RowTracked t (id ∷ ids)) (RowTracked t ids) _ _
              (λ a b r h.
                released_row id ids status msg now a b other (ours id (ground arith)) r
                  (ground arith))
              (λ a b r h. passed_row id ids a b r (λ e. ground arith)) before db.variants k)

  -- The frame needs no luck: whatever fails, a row of another variant is untouched.
  framed_row :
      (id : ℕ) (status : VariantStatus) (msg : String) (now : ℕ) (a b : ImageVariant)
      → mem id (ids_of t) ≡ true
      → RowFramed t a b
      → b.id ≡ id
      → RowFramed t a (cas_columns status msg now b)
  framed_row id status msg now a b mine r same = record {
    same_id = r.same_id;
    others = λ o. cc (o, r.same_id, same, mine);
  }

  roll_back-frames :
      (status : VariantStatus) (msg : String) (ids : List ℕ) (db : Db)
      → ((i : ℕ) → mem i ids ≡ true → mem i (ids_of t) ≡ true)
      → AllPairs (RowFramed t) before db.variants
      → AllPairs (RowFramed t) before (roll_back tools t status msg ids db).variants
  unfolding roll_back
  roll_back-frames status msg [] db ours k = k
  roll_back-frames status msg (id ∷ ids) db ours k =
      roll_back-frames status msg ids (update_status_cas tools.env id processing status msg db).1
        (λ i h. ours i (ground arith)) swapped
    where
      swapped :
          AllPairs
            (RowFramed t)
            before
            (update_status_cas tools.env id processing status msg db).1.variants
      swapped = elim (update_status_cas_runs tools.env id processing status msg db) [
        | inl (lost, same) ↦ rw same k
        | inr (won, changed) ↦ rw changed (
            AllPairs-update_where (RowFramed t) (RowFramed t)
              (scoped variant_schema (has_status id processing))
              (cas_columns status msg (tools.env.now db.sent))
              (λ a b r h. framed_row id status msg _ a b (ours id (ground arith)) r (ground arith))
              (λ a b r h. r) before db.variants k)
      ]

  variants-set_image_variant_status :
      (s : ImageVariantStatus) (w : World)
      → (set_image_variant_status tools t s w).1.db.variants ≡ w.db.variants
  unfolding set_image_variant_status update_variant_status pure
  variants-set_image_variant_status s w = rw attempt-query refl

  -- After `finalize`, from what held before it.
  finalize-settles :
      (r : Outcome (Unit {0})) (w : World)
      → ReliableFrom tools.env w.db.sent
      → Tracking t before w.db.variants w.acquired
      → AllPairs (RowTracked t []) before (finalize tools t (r, w)).db.variants
  unfolding finalize
  finalize-settles (done _) w sure k =
      roll_back-settles pending "" w.acquired w.db refl sure k.ours k.rows
  finalize-settles (fail _) w sure k =
      roll_back-settles pending "" w.acquired w.db refl sure k.ours k.rows
  finalize-settles (panic s) w sure k =
      rw variants-set_image_variant_status
        (roll_back-settles failed ("panic: " ⧺ s) w.acquired w.db refl sure k.ours k.rows)

  finalize-frames :
      (r : Outcome (Unit {0})) (w : World)
      → ((i : ℕ) → mem i w.acquired ≡ true → mem i (ids_of t) ≡ true)
      → AllPairs (RowFramed t) before w.db.variants
      → AllPairs (RowFramed t) before (finalize tools t (r, w)).db.variants
  unfolding finalize
  finalize-frames (done _) w ours k = roll_back-frames pending "" w.acquired w.db ours k
  finalize-frames (fail _) w ours k = roll_back-frames pending "" w.acquired w.db ours k
  finalize-frames (panic s) w ours k =
      rw variants-set_image_variant_status
        (roll_back-frames failed ("panic: " ⧺ s) w.acquired w.db ours k)

-- Where `execute` starts from: no variant acquired, no lease.
abbrev pub fresh : World → World
fresh w = record w { acquired = []; lease = none }

module _ (tools : Tools) (t : Task) (w : World) where
  body-Tracking :
      Tracking t w.db.variants
        (body tools t (fresh w)).1.db.variants
        (body tools t (fresh w)).1.acquired
  body-Tracking = (body-Keeps tools t w.db.variants).at (fresh w) (Tracking-start t w.db.variants)

  -- Whether the task ends normally, with an error or by a panic: if no update of the table fails from
  -- the deferred roll back on, then row by row no variant is left in processing that was not in
  -- processing before the task, and every variant that is not one of the task's three is untouched.
  pub execute-settles :
      ReliableFrom tools.env (body tools t (fresh w)).1.db.sent
      → AllPairs (RowSettled t) w.db.variants (execute tools t w).db.variants
  unfolding execute
  execute-settles sure =
      AllPairs-map (RowTracked t []) (RowSettled t)
        (λ a b r. record {
          same_id = r.same_id;
          others = r.others;
          not_left_busy = λ h. ground (arith, r.busy h);
        })
        _ _
        (finalize-settles tools t w.db.variants (body tools t (fresh w)).0
          (body tools t (fresh w)).1 sure body-Tracking)

  -- Whatever fails, and also by a panic: a task neither adds nor removes rows, keeps their keys, and
  -- leaves every variant that is not one of its three as it was.
  pub execute-frames : AllPairs (RowFramed t) w.db.variants (execute tools t w).db.variants
  unfolding execute
  execute-frames =
      finalize-frames tools t w.db.variants (body tools t (fresh w)).0 (body tools t (fresh w)).1
        body-Tracking.ours
        (AllPairs-map (RowTracked t (body tools t (fresh w)).1.acquired) (RowFramed t)
          (λ a b r. record { same_id = r.same_id; others = r.others }) _ _ body-Tracking.rows)

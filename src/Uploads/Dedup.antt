-- ===== src/Uploads/Dedup.antt =====
-- The record made for a second user of a file, and the attempt to bring back a deleted one.
use mathlib.Core.Path.{subst}
use text.Mathlib.TextLemmas.{append_assoc}
use text.Mathlib.TextPositions.{slice-append_left}
use Prim.Native.String.{len, slice}
use image_bed.Deletion.{delete_owned, delete_single, refusal}
use image_bed.Errors.{Error, Result, err, message, ok, ok-injective}
use image_bed.Gorm.{Fails, first_of_rows, scoped}
use image_bed.Images.Records.{get_image_by_identifier, has_identifier, save_image}
use image_bed.Models.{Image}
use image_bed.Prelude.{
  Bool, Bool-cases, Every, List, String, [], ap, arith, false, inl, inr, refl, select, sym, ℕ, ◌++◌,
  ◌==◌, ◌∙◌, ◌∷◌, ◌≡◌, ◌≢◌,
}
use image_bed.Services.{Outside, Site, attempt, call, pure, query, ◌>>=◌}
use image_bed.Services.Triples.{After}
use image_bed.Text.{decimal, ◌⧺◌}
use image_bed.Uploads.{Saved, create_deduped_image_record, generate_original_identifiers, restore}
use image_bed.Uploads.Revive.{restore_rule}
use image_bed.Uploads.Upload.{Upload}
use image_bed.Variants.{image_schema}

-- The identifier takes twelve characters of the hash: a suffix behind them does not show.
pub slice-suffix :
    (head rest suffix : String)
    → len head ≡ 12
    → slice ((head ⧺ rest) ⧺ suffix) 0 12 ≡ slice (head ⧺ rest) 0 12
slice-suffix head rest suffix twelve =
    rw (append_assoc head rest suffix, ← twelve)
      (slice-append_left head (rest ⧺ suffix) ∙ sym (slice-append_left head rest))

first-append :
    (p : Image → Bool) (img : Image) (t more : List Image)
    → first_of_rows (select p t) ≡ ok img
    → first_of_rows (select p (t ++ more)) ≡ ok img
first-append p img [] more e = absurd cc
first-append p img (i ∷ t) more e = elim (Bool-cases (p i)) [
  | inl hit ↦ rw hit (sym (rw hit refl) ∙ e)
  | inr miss ↦ rw miss (first-append p img t more (sym (rw miss refl) ∙ e))
]

-- A row that Create reports is the last one of the table.
inserted :
    (o : Outside) (n : ℕ) (row : Image) (t : List Image) (img : Image)
    → (o.env.images.create n row t).0 ≡ ok img
    → ((o.env.images.create n row t).1 ≡ t ++ img ∷ [])
      × ((img.user_id ≡ row.user_id) × (img.identifier ≡ row.identifier))
inserted o n row t img e = elim (o.env.images.insert_law n row t) [
  | inl (why, h) ↦ let no : err (message why) ≡ ok img = sym (ap (λ r. r.0) h) ∙ e in absurd cc
  | inr (i, above, new, free, h) ↦
      let there : ok (record row { id = i }) ≡ ok img = sym (ap (λ r. r.0) h) ∙ e in
      let same : record row { id = i } ≡ img = ok-injective there in
      (
        ap (λ r. r.1) h ∙ ap (λ x. t ++ x ∷ []) same,
        (sym (ap (λ x. x.user_id) same), sym (ap (λ x. x.identifier) same)),
      )
]

module _ (o : Outside) (existing : Image) (user_id : ℕ) (name : String) (is_public : Bool) where
  pub appends :
      (s : Site) (img : Image)
      → let (r, s') = create_deduped_image_record o existing user_id name is_public s in
        r ≡ ok img
        → (s'.db.images ≡ s.db.images ++ img ∷ [])
          × ((img.user_id ≡ user_id)
              × (img.identifier ≡ slice (existing.file_hash ⧺ ("_" ⧺ decimal user_id)) 0 12))
  unfolding create_deduped_image_record call query save_image generate_original_identifiers ◌>>=◌
  appends s img e = inserted o _ _ _ img e

-- `DeleteSingle` when the lookup finds an image of someone else.
denied :
    (o : Outside) (existing : Image) (identifier : String) (user_id : ℕ) (s : Site)
    → existing.user_id ≢ user_id
    → ¬ Fails (o.env.images.first s.db.sent (has_identifier identifier) s.db.images)
    → first_of_rows (select (scoped image_schema (has_identifier identifier)) s.db.images)
      ≡ ok existing
    → (delete_single o identifier user_id s).0 ≡ ok (refusal "permission denied")
unfolding delete_single delete_owned get_image_by_identifier attempt query pure ◌>>=◌
denied o existing identifier user_id s differ works e =
    elim (o.env.images.first_law s.db.sent (has_identifier identifier) s.db.images) [
      | inl failure ↦ absurd (works failure)
      | inr h ↦
          let other : (existing.user_id == user_id) ≡ false = ground (arith, differ) in
          rw (h, e, other) refl
    ]

-- Of an image that is the first live one of its identifier, which was made from a hash of at least
-- twelve characters, the record made for another user, once it is saved, belongs to that user and has
-- the same identifier. That user cannot delete it: DeleteSingle looks up the identifier, finds the
-- first user's image if the lookup does not fail, and denies the permission.
pub deduped-undeletable :
    (o : Outside) (existing img : Image) (head rest : String) (user_id : ℕ) (name : String)
    (is_public : Bool) (s : Site)
    → existing.file_hash ≡ head ⧺ rest
    → len head ≡ 12
    → existing.identifier ≡ slice existing.file_hash 0 12
    → existing.user_id ≢ user_id
    → first_of_rows (select (scoped image_schema (has_identifier existing.identifier)) s.db.images)
      ≡ ok existing
    → let (r, s') = create_deduped_image_record o existing user_id name is_public s in
      r ≡ ok img
      → ¬ Fails (o.env.images.first s'.db.sent (has_identifier img.identifier) s'.db.images)
      → (img.user_id ≡ user_id)
        × ((img.identifier ≡ existing.identifier)
            × ((delete_single o img.identifier user_id s').0 ≡ ok (refusal "permission denied")))
deduped-undeletable o existing img head rest user_id name is_public s hash twelve named differ first
      saved works =
    (owner, (same, denied o existing img.identifier user_id _ differ works found))
  where
    rows :
        (create_deduped_image_record o existing user_id name is_public s).1.db.images
        ≡ s.db.images ++ img ∷ []
    rows = (appends o existing user_id name is_public s img saved).0

    owner : img.user_id ≡ user_id
    owner = (appends o existing user_id name is_public s img saved).1.0

    same : img.identifier ≡ existing.identifier
    same =
        (appends o existing user_id name is_public s img saved).1.1
        ∙ ap (λ h. slice (h ⧺ ("_" ⧺ decimal user_id)) 0 12) hash
        ∙ slice-suffix head rest ("_" ⧺ decimal user_id) twelve
        ∙ ap (λ h. slice h 0 12) (sym hash)
        ∙ sym named

    found :
        first_of_rows (
          select
            (scoped image_schema (has_identifier img.identifier))
            (create_deduped_image_record o existing user_id name is_public s).1.db.images)
        ≡ ok existing
    found =
        subst
          (λ x.
            first_of_rows (
              select (scoped image_schema (has_identifier x))
                (create_deduped_image_record o existing user_id name is_public s).1.db.images)
            ≡ ok existing)
          (sym same)
          (rw rows (
            first-append (scoped image_schema (has_identifier existing.identifier)) existing
              s.db.images (img ∷ []) first))

-- Bringing back a deleted image: where no live row has its identifier, the update reaches no row,
-- an error is returned, and all rows are as before.
pub restore-declines :
    (o : Outside) (u : Upload) (img : Image) (s : Site)
    → Every (λ i. i.deleted ≡ false → has_identifier img.identifier i ≡ false) s.db.images
    → let (r, s') = restore o img u.source u.is_public s in
      ((e : Error) × (r ≡ err e)) × (s'.db.images ≡ s.db.images)
restore-declines o u img s none_live = refused _ _ (
    (restore_rule o u (λ v t f. t ≡ s.db.images) s.db.images img (λ _ _ _ h. h) none_live).runs s
      refl)
  where
    refused :
        (r : Result Saved) (s' : Site)
        → After (λ _ s'. ⊥) (λ s'. s'.db.images ≡ s.db.images) r s'
        → ((e : Error) × (r ≡ err e)) × (s'.db.images ≡ s.db.images)
    refused (ok a) s' h = absurd h
    refused (err e) s' h = ((e, refl), h)

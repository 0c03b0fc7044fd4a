-- ===== src/Deletion/Safe.antt =====
-- The two theorems on whole deletions, over the rows and over the files.
-- What is reported and what users see after DeleteBatch.
use image_bed.Deletion.{
  DeleteBatchResult, DeleteResult, delete_batch, delete_owned, delete_single, rest_of_batch,
}
use image_bed.Deletion.Backed.{
  Keeps-delete_batch_transaction, Keeps-delete_original, Keeps-delete_variants_for_image,
}
use image_bed.Deletion.Refines.{
  Filtered, Filters, Keeps-finish_single, Keeps-rest_of_batch, transaction-Filters,
}
use image_bed.Deletion.Returns.{rest_of_batch-answers}
use image_bed.Deletion.Visible.{
  Still, Still-delete_original, Still-delete_variants_for_image, visible,
}
use image_bed.Errors.{Result, err, message, ok, record_not_found, wrap}
use image_bed.Images.Records.{get_image_by_identifier, has_identifier, is_owned}
use image_bed.Models.{Image}
use image_bed.Prelude.{
  List, String, [], ap, length, not, refl, select, sym, true, ℕ, ◌==◌, ◌∷◌, ◌≡◌,
}
use image_bed.Services.{Outside, Site, act_then, failing_with, pure, ◌>>=◌}
use image_bed.Services.Backed.{Sound}
use image_bed.Services.Triples.{
  After, Keeps, Keeps-attempt, Keeps-bind, Keeps-failing, Keeps-if, Keeps-on_images, Keeps-pure,
  Keeps-throw, On,
}

abbrev pub BatchResult : List String → ℕ → List Image → Result DeleteResult → Site → Type 0
BatchResult identifiers user_id t (err e) s = visible s.db.images ≡ visible t
BatchResult identifiers user_id t (ok r) s =
    (r.success ≡ true) × Filters identifiers user_id t r.count_deleted s.db.images

Filters-none : (user_id : ℕ) (t : List Image) → Filters [] user_id t 0 t
Filters-none user_id t = (sym (all_stay (visible t)), none_go (visible t))
  where
    all_stay : (t : List Image) → select (λ i. not (is_owned [] user_id i)) t ≡ t
    all_stay [] = refl
    all_stay (i ∷ t) = ap (λ x. i ∷ x) (all_stay t)

    none_go : (t : List Image) → 0 ≡ length (select (is_owned [] user_id) t)
    none_go [] = refl
    none_go (i ∷ t) = none_go t

module _ (o : Outside) where
  still_rest :
      (t : List Image) (xs : List String) (found : DeleteBatchResult × List Image)
      → Keeps (Still t) (rest_of_batch o xs found)
  still_rest t =
      Keeps-rest_of_batch o (Still t) (Still-delete_variants_for_image o t)
        (Still-delete_original o t)

  rest-BatchResult :
      (x : String) (xs : List String) (user_id : ℕ) (t : List Image)
      (found : DeleteBatchResult × List Image) (s : Site)
      → Filtered o x xs user_id t found s
      → let (r, s') = rest_of_batch o (x ∷ xs) found s in BatchResult (x ∷ xs) user_id t r s'
  rest-BatchResult x xs user_id t found s h =
      let same = (still_rest s.db.images (x ∷ xs) found).keeps s refl in
      rw (rest_of_batch-answers o (x ∷ xs) found s) (refl, rw same h)

  transaction_step :
      (x : String) (xs : List String) (user_id : ℕ) (t : List Image)
      (r : Result (DeleteBatchResult × List Image)) (s : Site)
      → After (Filtered o x xs user_id t) (On (Still t)) r s
      → let (q, s') =
          act_then
            (elim r [ ok a ↦ ok a | err e ↦ err (wrap "failed to execute batch delete" e) ])
            (rest_of_batch o (x ∷ xs))
            s in
        BatchResult (x ∷ xs) user_id t q s'
  transaction_step x xs user_id t (ok found) s h = rest-BatchResult x xs user_id t found s h
  transaction_step x xs user_id t (err e) s h = rw h refl

  -- DeleteBatch is a filter on the visible images: it takes away those of the user that have one of
  -- the identifiers, reports their number, and keeps every other one in its place. If it returns an
  -- error, all stay visible.
  pub delete_batch-refines :
      (identifiers : List String) (user_id : ℕ) (s : Site)
      → let (r, s') = delete_batch o identifiers user_id s in
        BatchResult identifiers user_id s.db.images r s'
  unfolding delete_batch pure ◌>>=◌ failing_with
  delete_batch-refines [] user_id s = (refl, Filters-none user_id s.db.images)
  delete_batch-refines (x ∷ xs) user_id s =
      transaction_step x xs user_id s.db.images _ _
        ((transaction-Filters o x xs user_id s.db.images).runs s refl)

  -- Where each live image has its file at its provider, and the paths of originals and of variants
  -- are in different directories, the same holds after DeleteBatch and after DeleteSingle, on each
  -- way out: no image that is left loses its file.
  pub deletion-Sound :
      (identifier : String) (identifiers : List String) (user_id : ℕ) (s : Site)
      → On (Sound o) s
      → On (Sound o) (delete_batch o identifiers user_id s).1
        × On (Sound o) (delete_single o identifier user_id s).1
  deletion-Sound identifier identifiers user_id s h =
      ((batch identifiers).keeps s h, (single).keeps s h)
    where
      batch : (xs : List String) → Keeps (Sound o) (delete_batch o xs user_id)
      batch [] = unfold delete_batch in Keeps-pure _ _
      batch (x ∷ xs) =
          unfold delete_batch in
          Keeps-bind (Keeps-failing _ (Keeps-delete_batch_transaction o (x ∷ xs) user_id)) (
            Keeps-rest_of_batch o (Sound o) (Keeps-delete_variants_for_image o)
              (Keeps-delete_original o) (x ∷ xs))

      owned : (r : Result Image) → Keeps (Sound o) (delete_owned o identifier user_id r)
      owned (err record_not_found) = unfold delete_owned in Keeps-pure _ _
      owned (err (message why)) = unfold delete_owned in Keeps-throw _ _
      owned (ok img) =
          unfold delete_owned in
          Keeps-if (not (img.user_id == user_id)) (Keeps-pure _ _) (
            Keeps-bind
              (Keeps-failing _ (Keeps-delete_batch_transaction o (identifier ∷ []) user_id))
              (Keeps-finish_single o (Sound o) (Keeps-delete_variants_for_image o)
                (Keeps-delete_original o) identifier))

      single : Keeps (Sound o) (delete_single o identifier user_id)
      single =
          unfold delete_single get_image_by_identifier in
          Keeps-bind
            (Keeps-attempt
              (Keeps-on_images _ (λ k t. o.env.images.first k (has_identifier identifier) t)))
            owned

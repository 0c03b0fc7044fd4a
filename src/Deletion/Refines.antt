-- ===== src/Deletion/Refines.antt =====
-- Deletion against a filter on the visible images.
use image_bed.Deletion.{
  DeleteBatchResult, clear_caches, clear_image_cache, delete_batch_transaction, delete_found,
  delete_original, delete_originals, delete_statements, delete_variants_for_image,
  delete_variants_of_all, finish_single, rest_of_batch,
}
use image_bed.Deletion.Backed.{Keeps-evict}
use image_bed.Deletion.Visible.{Still, count-visible, visible, visible-mark_deleted, visible_none}
use image_bed.Errors.{Result, err, ok}
use image_bed.Gorm.{scoped}
use image_bed.Images.Records.{
  delete_images_by_identifiers_and_user, get_images_by_identifiers_and_user, is_owned,
}
use image_bed.Models.{Image}
use image_bed.Prelude.{
  List, String, [], inl, inr, length, not, refl, select, suc, sym, ℕ, ◌==◌, ◌∷◌, ◌≡◌,
}
use image_bed.Services.{
  Outside, Site, act_then, pure, query, rolled_back, transaction, try_call, ◌>>=◌,
}
use image_bed.Services.Triples.{
  After, Facts, Keeps, Keeps-bind, Keeps-change_site, Keeps-if, Keeps-pure, Keeps-try_call, On,
  Triple, bind_rule, failing_rule, keeping,
}
use image_bed.Variants.{image_schema}

-- An operation that runs over images keeps what each of its steps keeps.
module _ (o : Outside) (J : Facts)
    (each_variants : (i : Image) → Keeps J (delete_variants_for_image o i))
    (each_original : (i : Image) → Keeps J (delete_original o i)) where
  Keeps-delete_variants_of_all : (is : List Image) → Keeps J (delete_variants_of_all o is)
  unfolding delete_variants_of_all
  Keeps-delete_variants_of_all [] = Keeps-pure _ _
  Keeps-delete_variants_of_all (i ∷ is) =
      Keeps-bind (each_variants i) λ _. Keeps-delete_variants_of_all is

  Keeps-delete_originals : (is : List Image) → Keeps J (delete_originals o is)
  unfolding delete_originals
  Keeps-delete_originals [] = Keeps-pure _ _
  Keeps-delete_originals (i ∷ is) = Keeps-bind (each_original i) λ _. Keeps-delete_originals is

  Keeps-clear_image_cache : (x : String) → Keeps J (clear_image_cache o x)
  unfolding clear_image_cache
  Keeps-clear_image_cache x = Keeps-bind (Keeps-evict o J _) λ _. Keeps-evict o J _

  Keeps-clear_caches : (xs : List String) → Keeps J (clear_caches o xs)
  unfolding clear_caches
  Keeps-clear_caches [] = Keeps-pure _ _
  Keeps-clear_caches (x ∷ xs) = Keeps-bind (Keeps-clear_image_cache x) λ _. Keeps-clear_caches xs

  pub Keeps-rest_of_batch :
      (xs : List String) (found : DeleteBatchResult × List Image)
      → Keeps J (rest_of_batch o xs found)
  unfolding rest_of_batch
  Keeps-rest_of_batch xs found = Keeps-bind (Keeps-delete_variants_of_all found.1) λ _.
      Keeps-bind (Keeps-delete_originals found.1)
        λ _. Keeps-bind (Keeps-clear_caches xs) λ _. Keeps-pure _ _

  pub Keeps-finish_single :
      (x : String) (found : DeleteBatchResult × List Image) → Keeps J (finish_single o x found)
  unfolding finish_single
  Keeps-finish_single x (result, []) = Keeps-pure _ _
  Keeps-finish_single x (result, i ∷ is) = Keeps-if (result.deleted_count == 0) (Keeps-pure _ _) (
      Keeps-bind (each_variants i) λ _.
        Keeps-bind (each_original i)
          λ _. Keeps-bind (Keeps-clear_image_cache x) λ _. Keeps-pure _ _)

-- Deletion of the images with these identifiers, by this user, as a filter on the visible images.
-- An error leaves them all; `n` rows are reported.
abbrev pub Filters : List String → ℕ → List Image → ℕ → List Image → Type 0
Filters identifiers user_id t n t' =
    (visible t' ≡ select (λ i. not (is_owned identifiers user_id i)) (visible t))
    × (n ≡ length (select (is_owned identifiers user_id) (visible t)))

module _ (o : Outside) (x : String) (xs : List String) (user_id : ℕ) (t : List Image) where
  abbrev pub Filtered : DeleteBatchResult × List Image → Site → Type 0
  Filtered found s = Filters (x ∷ xs) user_id t found.0.deleted_count s.db.images

  delete_rows-Filters :
      Triple
        (On (Still t))
        (query (delete_images_by_identifiers_and_user o.env (x ∷ xs) user_id))
        (λ n s. Filters (x ∷ xs) user_id t n s.db.images)
        (On (Still t))
  unfolding query delete_images_by_identifiers_and_user
  delete_rows-Filters = record {
    runs = λ s e. elim (o.env.images.delete_law s.db.sent (is_owned (x ∷ xs) user_id) s.db.images) [
      | inl (why, h) ↦ rw h e
      | inr h ↦
          rw (h, e)
            (
              visible-mark_deleted (is_owned (x ∷ xs) user_id) t,
              count-visible (is_owned (x ∷ xs) user_id) t,
            )
    ];
  }

  delete_found-Filters :
      (images : List Image)
      → Triple
          (λ s.
            (s.db.images ≡ t)
            × (images ≡ select (scoped image_schema (is_owned (x ∷ xs) user_id)) t))
          (delete_found o (x ∷ xs) user_id images)
          Filtered
          (On (Still t))
  unfolding delete_found pure
  delete_found-Filters [] = record {
    runs = λ s (e, none_found). rw e (visible_none (is_owned (x ∷ xs) user_id) t (sym none_found));
  }
  delete_found-Filters (i ∷ is) = record { runs = λ s (e, _). chain.runs s e }
    where
      chain :
          Triple (On (Still t)) (delete_found o (x ∷ xs) user_id (i ∷ is)) Filtered (On (Still t))
      chain = bind_rule (failing_rule _ (keeping (Keeps-try_call (Still t) _))) λ _.
          bind_rule (keeping (Keeps-change_site (Still t) _ (λ s h. h)))
            λ _. bind_rule (failing_rule _ delete_rows-Filters) λ n. record { runs = λ s h. h }

  statements-Filters :
      Triple (On (Still t)) (delete_statements o (x ∷ xs) user_id) Filtered (On (Still t))
  unfolding delete_statements query get_images_by_identifiers_and_user
  statements-Filters =
      bind_rule
        (failing_rule _ (record {
          runs = λ s e.
              elim (o.env.images.find_law s.db.sent (is_owned (x ∷ xs) user_id) s.db.images) [
                | inl (why, h) ↦ rw h e
                | inr h ↦ rw (h, e) (refl, refl)
              ];
        }))
        delete_found-Filters

  pub transaction-Filters :
      Triple (On (Still t)) (delete_batch_transaction o (x ∷ xs) user_id) Filtered (On (Still t))
  unfolding delete_batch_transaction transaction pure try_call ◌>>=◌
  transaction-Filters = record { runs = λ s e. commits s e _ _ (statements-Filters.runs s e) }
    where
      committing :
          (s : Site) (found : DeleteBatchResult × List Image) (r : Result (Unit {0})) (s' : Site)
          → s.db.images ≡ t
          → Filtered found s'
          → let (q, s'') = act_then r (λ _. pure found) s' in
            After Filtered (On (Still t)) (rolled_back s q s'').0 (rolled_back s q s'').1
      committing s found (ok _) s' e h = h
      committing s found (err why) s' e h = e

      commits :
          (s : Site)
          → s.db.images ≡ t
          → (r : Result (DeleteBatchResult × List Image)) (s' : Site)
          → After Filtered (On (Still t)) r s'
          → let (q, s'') = act_then r (λ a. try_call o.commit >>= λ _. pure a) s' in
            After Filtered (On (Still t)) (rolled_back s q s'').0 (rolled_back s q s'').1
      commits s e (err why) s' h = e
      commits s e (ok found) s' h =
          committing s found (o.commit s'.calls) (record s' { calls = suc s'.calls }) e h

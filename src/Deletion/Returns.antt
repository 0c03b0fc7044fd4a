-- ===== src/Deletion/Returns.antt =====
-- How deletion returns after its transaction.
use text.Mathlib.Text.{◌==◌ as str_eq}
use image_bed.Deletion.{
  DeleteBatchResult, clear_caches, clear_image_cache, delete_original, delete_originals,
  delete_variant_file, delete_variant_files, delete_variants_at, delete_variants_for_image,
  delete_variants_found, delete_variants_of_all, deleted_rows, remove_at, remove_if_unused,
  rest_of_batch,
}
use image_bed.Errors.{Result, err, ok}
use image_bed.Models.{Image, ImageVariant}
use image_bed.Prelude.{List, String, [], refl, ℕ, ◌==◌, ◌∷◌, ◌≡◌}
use image_bed.Services.{Eviction, Outside, Site, evict, pure}
use image_bed.Services.Total.{
  IsTotal, attempt-IsTotal, bind-IsTotal, bind-answers, change_site-IsTotal, if-IsTotal,
  pure-IsTotal,
}

module _ (o : Outside) where
  evict-IsTotal : (e : Eviction) → IsTotal (evict o e)
  unfolding evict
  evict-IsTotal e = change_site-IsTotal _

  pub delete_variant_file-IsTotal :
      (provider : ℕ) (v : ImageVariant) → IsTotal (delete_variant_file o provider v)
  unfolding delete_variant_file
  delete_variant_file-IsTotal provider v =
      if-IsTotal (str_eq v.storage_path "") (pure-IsTotal _)
        (bind-IsTotal (attempt-IsTotal _) λ _. evict-IsTotal _)

  pub delete_variant_files-IsTotal :
      (provider : ℕ) (vs : List ImageVariant) → IsTotal (delete_variant_files o provider vs)
  unfolding delete_variant_files
  delete_variant_files-IsTotal provider [] = pure-IsTotal _
  delete_variant_files-IsTotal provider (v ∷ vs) =
      bind-IsTotal (delete_variant_file-IsTotal provider v)
        λ _. delete_variant_files-IsTotal provider vs

  delete_variants_at-IsTotal :
      (img : Image) (vs : List ImageVariant) (r : Result ℕ)
      → IsTotal (delete_variants_at o img vs r)
  unfolding delete_variants_at
  delete_variants_at-IsTotal img vs (err e) = pure-IsTotal _
  delete_variants_at-IsTotal img vs (ok provider) =
      bind-IsTotal (delete_variant_files-IsTotal provider vs)
        λ _. bind-IsTotal (attempt-IsTotal _) λ _. evict-IsTotal _

  delete_variants_found-IsTotal :
      (img : Image) (r : Result (List ImageVariant)) → IsTotal (delete_variants_found o img r)
  unfolding delete_variants_found
  delete_variants_found-IsTotal img (err e) = pure-IsTotal _
  delete_variants_found-IsTotal img (ok vs) = delete_variants_at-IsTotal img vs _

  delete_variants_of_all-IsTotal : (is : List Image) → IsTotal (delete_variants_of_all o is)
  unfolding delete_variants_of_all delete_variants_for_image
  delete_variants_of_all-IsTotal [] = pure-IsTotal _
  delete_variants_of_all-IsTotal (i ∷ is) =
      bind-IsTotal (bind-IsTotal (attempt-IsTotal _) (delete_variants_found-IsTotal i))
        λ _. delete_variants_of_all-IsTotal is

  remove_at-IsTotal : (path : String) (r : Result ℕ) → IsTotal (remove_at o path r)
  unfolding remove_at
  remove_at-IsTotal path (err e) = pure-IsTotal _
  remove_at-IsTotal path (ok p) = bind-IsTotal (attempt-IsTotal _) λ _. pure-IsTotal _

  remove_if_unused-IsTotal : (i : Image) (r : Result ℕ) → IsTotal (remove_if_unused o i r)
  unfolding remove_if_unused
  remove_if_unused-IsTotal i (err e) = pure-IsTotal _
  remove_if_unused-IsTotal i (ok n) =
      if-IsTotal (n == 0) (remove_at-IsTotal i.storage_path _) (pure-IsTotal _)

  delete_originals-IsTotal : (is : List Image) → IsTotal (delete_originals o is)
  unfolding delete_originals delete_original
  delete_originals-IsTotal [] = pure-IsTotal _
  delete_originals-IsTotal (i ∷ is) =
      bind-IsTotal
        (if-IsTotal (str_eq i.storage_path "") (pure-IsTotal _)
          (bind-IsTotal (attempt-IsTotal _) (remove_if_unused-IsTotal i)))
        λ _. delete_originals-IsTotal is

  clear_caches-IsTotal : (xs : List String) → IsTotal (clear_caches o xs)
  unfolding clear_caches clear_image_cache
  clear_caches-IsTotal [] = pure-IsTotal _
  clear_caches-IsTotal (x ∷ xs) =
      bind-IsTotal (bind-IsTotal (evict-IsTotal _) λ _. evict-IsTotal _)
        λ _. clear_caches-IsTotal xs

  pub rest_of_batch-answers :
      (xs : List String) (found : DeleteBatchResult × List Image) (s : Site)
      → (rest_of_batch o xs found s).0 ≡ ok (deleted_rows found.0.deleted_count)
  unfolding rest_of_batch pure
  rest_of_batch-answers xs found = bind-answers _ _ _ (delete_variants_of_all-IsTotal found.1) λ _.
      bind-answers _ _ _ (delete_originals-IsTotal found.1)
        λ _. bind-answers _ _ _ (clear_caches-IsTotal xs) λ _ s. refl

-- ===== src/Tests/Sites.antt =====
-- Uploads and deletions at concrete inputs.
use mathlib.Core.Path.{subst}
use mathlib.Core.List.{Memᴰ}
use mathlib.Core.List.Memᴰ.{head, tail}
use image_bed.Deletion.{delete_batch, delete_single, delete_variants_for_image, refusal}
use image_bed.Deletion.Safe.{BatchResult, delete_batch-refines, deletion-Sound}
use image_bed.Deletion.Stranded.{delete_variants-strands}
use image_bed.Errors.{Error, err, message, ok, ok-injective}
use image_bed.Gorm.{first_of_rows}
use image_bed.Images.Records.{save_image}
use image_bed.Models.{Image, ImageVariant, completed, none_yet}
use image_bed.Prelude.{List, String, [], arith, false, refl, some, true, ℕ, ◌*◌, ◌∷◌, ◌≡◌, ◌≢◌}
use image_bed.Services.{Outside, Site, call, get_storage_provider_by_id, has_file, query, ◌>>=◌}
use image_bed.Services.Backed.{Sound}
use image_bed.Services.Triples.{On}
use image_bed.Storage.{RegistryState, get_default}
use image_bed.Tests.Database.{env, variant}
use image_bed.Text.{decimal}
use image_bed.Uploads.{create_deduped_image_record, generate_original_identifiers, restore}
use image_bed.Uploads.Dedup.{deduped-undeletable, restore-declines}
use image_bed.Uploads.Upload.{Upload}
use image_bed.Variants.Recovery.{minute}

abbrev only_default : RegistryState ℕ
only_default = record { providers = []; default_provider = some 5; default_id = 5 }

abbrev shared_hash : String
shared_hash = "aaaabbbbccccdddd"

abbrev outside : Outside
outside = record {
  env = env;
  registry = only_default;
  has_cache = true;
  has_converter = true;
  has_albums = true;
  open_source = λ n u. ok tt;
  read_header = λ n u. ok "png";
  detect_content_type = λ s. "image/png";
  copy_to_hash = λ n u s. ok shared_hash;
  seek_start = λ n u. ok tt;
  seek_current = λ n u. ok 0;
  seek_end = λ n u. ok 100;
  seek_to = λ n u k. ok tt;
  get_image_dimensions = λ n u. (10, 10);
  date = λ n. "2024/01/01";
  path_ext = λ s. ".png";
  save_file = λ n p path. ok tt;
  delete_file = λ n p path. ok tt;
  stat_file = λ n p path. ok tt;
  accepts = λ n job. true;
  find_album = λ n a u. ok tt;
  link_image = λ n a i. ok tt;
  unlink_images = λ n is. ok tt;
  commit = λ n. ok tt;
}

abbrev first_path : String
first_path = "original/2024/01/01/aaaabbbbcccc.png"

abbrev first_image : Image
first_image = record {
  id = 1;
  identifier = "aaaabbbbcccc";
  storage_path = first_path;
  original_name = "cat.png";
  file_size = 100;
  mime_type = "image/png";
  storage_config_id = 0;
  file_hash = shared_hash;
  width = 10;
  height = 10;
  is_public = true;
  variant_status = none_yet;
  user_id = 1;
  updated_at = 0;
  deleted = false;
}

abbrev thumbnail : ℕ → ℕ → ImageVariant
thumbnail id image_id = record (variant id "thumbnail_600" completed false) {
  image_id = image_id;
  storage_path = "thumbnails/2024/01/01/aaaabbbbcccc_600.webp";
}

abbrev two_thumbnails : List ImageVariant
two_thumbnails = thumbnail 1 1 ∷ thumbnail 2 2 ∷ []

abbrev site : List Image → Site
site images = record {
  db = record { sent = 0; variants = two_thumbnails; images = images };
  album_images = [];
  files = (5, first_path) ∷ (5, "thumbnails/2024/01/01/aaaabbbbcccc_600.webp") ∷ [];
  temp_files = "/tmp/upload-1" ∷ [];
  jobs = [];
  evictions = [];
  calls = 0;
}

abbrev one_image : Site
one_image = site (first_image ∷ [])

abbrev both_images : Site
both_images = site (first_image ∷ record first_image { id = 2; user_id = 2 } ∷ [])

-- The same file, by the second user.
abbrev second_upload : Upload
second_upload = record {
  source = record {
    file_name = "dog.png";
    file_size = 100;
    temp_file_path = "/tmp/upload-1";
    precomputed_hash = shared_hash;
  };
  user_id = 2;
  provider = 5;
  storage_id = 0;
  is_public = false;
  album_id = 0;
}

site-Sound : On (Sound outside) one_image
unfolding get_storage_provider_by_id get_default
site-Sound = (
  (λ live p e. subst (λ q. has_file q first_path one_image.files ≡ true) (ok-injective e) refl, tt),
  ((refl, tt), (refl, (refl, tt))),
)

at_default : get_storage_provider_by_id outside 0 ≡ ok 5
unfolding get_storage_provider_by_id get_default
at_default = refl

delete_batch-refines_example :
    let (r, s') = delete_batch outside ("aaaabbbbcccc" ∷ []) 2 both_images in
    BatchResult ("aaaabbbbcccc" ∷ []) 2 both_images.db.images r s'
delete_batch-refines_example = delete_batch-refines outside ("aaaabbbbcccc" ∷ []) 2 both_images

deletion-Sound_example :
    On (Sound outside) (delete_batch outside ("aaaabbbbcccc" ∷ []) 1 one_image).1
    × On (Sound outside) (delete_single outside "aaaabbbbcccc" 1 one_image).1
deletion-Sound_example =
    deletion-Sound outside "aaaabbbbcccc" ("aaaabbbbcccc" ∷ []) 1 one_image site-Sound

two_not_one : (thumbnail 2 2).image_id ≢ first_image.id
two_not_one e = absurd (omega arith)

delete_variants-strands_example :
    let s' = (delete_variants_for_image outside first_image both_images).1 in
    Memᴰ (thumbnail 2 2) s'.db.variants × (has_file 5 (thumbnail 2 2).storage_path s'.files ≡ false)
delete_variants-strands_example =
    delete_variants-strands outside 5 first_image (thumbnail 1 1) (thumbnail 2 2) both_images
      at_default (λ n path. refl) refl (head refl) refl (tail (head refl)) two_not_one refl

abbrev second_image : Image
second_image = record first_image {
  id = 2;
  original_name = "dog.png";
  is_public = true;
  user_id = 2;
  updated_at = 100 * minute;
}

first_answers : {why : String} (t : List Image) → first_of_rows t ≡ err (message why) → ⊥
first_answers [] e = absurd cc
first_answers (i ∷ t) e = absurd cc

deduped-undeletable_example :
    let s' = (create_deduped_image_record outside first_image 2 "dog.png" false one_image).1 in
    (second_image.user_id ≡ 2)
    × ((second_image.identifier ≡ first_image.identifier)
        × ((delete_single outside second_image.identifier 2 s').0
            ≡ ok (refusal "permission denied")))
deduped-undeletable_example =
    deduped-undeletable outside first_image second_image "aaaabbbbcccc" "dddd" 2 "dog.png" false
      one_image refl refl refl one_not_two refl saved_second (λ (why, e). first_answers _ e)
  where
    saved_second :
        (create_deduped_image_record outside first_image 2 "dog.png" false one_image).0
        ≡ ok second_image
    saved_second =
        unfold create_deduped_image_record call query save_image ◌>>=◌ generate_original_identifiers
          decimal in
        refl

    one_not_two : first_image.user_id ≢ second_image.user_id
    one_not_two e = absurd (omega arith)

abbrev deleted_image : Image
deleted_image = record first_image { deleted = true }

restore-declines_example :
    let (r, s') =
      restore outside deleted_image second_upload.source false (site (deleted_image ∷ [])) in
    ((e : Error) × (r ≡ err e)) × (s'.db.images ≡ deleted_image ∷ [])
restore-declines_example =
    restore-declines outside second_upload deleted_image (site (deleted_image ∷ []))
      (λ live. absurd cc, tt)

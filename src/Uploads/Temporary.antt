-- ===== src/Uploads/Temporary.antt =====
-- The owner of the uploaded temporary file.
use text.Mathlib.Text.{◌==◌ as str_eq}
use image_bed.Errors.{Result, ok}
use image_bed.Images.Records.{mem_string}
use image_bed.Models.{Image}
use image_bed.Prelude.{Bool, List, String, false, if◌then◌else◌, ◌==◌, ◌∷◌, ◌≡◌, ◌⊎◌}
use image_bed.Services.{Act, Job, Outside, Site, local_conversion, ◌>>◌}
use image_bed.Services.Triples.{Triple}
use image_bed.Uploads.{Saved}
use image_bed.Uploads.Idle.{Alike, handed}
use image_bed.Uploads.Upload.{Upload}

module _ (o : Outside) (u : Upload) (start : Site) where
  abbrev path : String
  path = u.source.temp_file_path

  abbrev Waiting : Site → Type 0
  Waiting s = Alike path start s

  -- The task with the file that was added for the image, or none.
  abbrev added : Image → Bool → List Job → List Job
  added img b jobs = if b then local_conversion img path ∷ jobs else jobs

  abbrev Started : Image → Bool → Site → Type 0
  Started img b s =
      (s.temp_files ≡ start.temp_files) × (handed path s ≡ added img b (handed path start))

  -- Whoever says that the converter has the file has submitted the one task with it.
  abbrev IsHanded : Saved → Site → Type 0
  IsHanded saved s = Started saved.image saved.temp_file_consumed s

  abbrev Hands : Act Saved → Type 0
  Hands m = Triple Waiting m IsHanded Waiting

-- The file was removed and no task with it was added, or it stays and one task was, for the image
-- that was stored.
abbrev pub OneOwner : String → Site → Result Saved → Site → Type 0
OneOwner path s r s' =
    ((mem_string path s'.temp_files ≡ false) × (handed path s' ≡ handed path s))
    ⊎ ((saved : Saved) × ((r ≡ ok saved)
          × ((s'.temp_files ≡ s.temp_files)
              × (handed path s' ≡ local_conversion saved.image path ∷ handed path s))))

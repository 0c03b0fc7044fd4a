-- ===== src/Uploads/Ends.antt =====
-- The theorems on processAndSaveImage as a whole.
use text.Mathlib.Text.{◌==◌ as str_eq}
use image_bed.Errors.{Result}
use image_bed.Models.{Image}
use image_bed.Prelude.{List, String}
use image_bed.Services.{Outside, Site}
use image_bed.Services.Backed.{During}
use image_bed.Services.Triples.{After, Facts, On}
use image_bed.Uploads.{Saved}
use image_bed.Uploads.Facts.{IsHash}
use image_bed.Uploads.Store.{Uploaded}
use image_bed.Uploads.Upload.{Upload}

-- What an upload into the rows `t` ends with.
abbrev pub UploadEnds : Outside → Upload → List Image → Result Saved → Site → Type 0
UploadEnds o u t =
    After (λ saved s. (h : String) × (IsHash o u h × Uploaded o u t h saved s)) (On (During o t))

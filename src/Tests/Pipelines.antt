-- ===== src/Tests/Pipelines.antt =====
-- Runs of a pipeline task, and the decisions at concrete numbers.
use image_bed.Gorm.Pairs.{AllPairs}
use image_bed.Int.{negsuc, pos}
use image_bed.Models.{pending, processing}
use image_bed.Pipeline.Decide.{adaptive_webp_quality, high, low, should_keep_avif}
use image_bed.Pipeline.Decide.Bounds.{
  adaptive_webp_quality-bounds, adaptive_webp_quality-underflows, should_keep_avif-exact,
}
use image_bed.Pipeline.Execute.{body, execute}
use image_bed.Pipeline.Ownership.Settled.{
  ReliableFrom, RowFramed, RowSettled, execute-frames, execute-settles, fresh,
}
use image_bed.Pipeline.Resources.Returned.{GivenBack, execute-GivenBack}
use image_bed.Pipeline.World.{ImageInfo, Task, Tools, World, done, panic}
use image_bed.Prelude.{
  Bool, [], arith, false, if◌then◌else◌, none, refl, some, true, ℕ, ◌*◌, ◌-◌, ◌<◌, ◌↔◌, ◌∷◌, ◌≡◌,
  ◌≤◌, ◌⊎◌,
}
use image_bed.Settings.{ImageProcessingSettings}
use image_bed.Tests.Database.{env, in_memory-updates, picture, variant}
use image_bed.Text.{decimal, ◌⧺◌}
use image_bed.Variants.{variant_schema}

abbrev pub settings : ImageProcessingSettings
settings = record {
  thumbnail_enabled = true;
  thumbnail_sizes = record { width = 600; height = 0 } ∷ [];
  thumbnail_quality = 80;
  conversion_enabled_formats = "webp" ∷ "avif" ∷ [];
  webp_quality = 75;
  webp_effort = 4;
  avif_quality = 60;
  avif_speed = 6;
  avif_experimental = false;
  skip_smaller_than = 0;
  max_dimension = 0;
  max_file_size_mb = 0;
}

abbrev pub task : Task
task = record {
  thumb_variant_id = 1;
  webp_variant_id = 2;
  avif_variant_id = 4;
  image_id = 7;
  storage_path = "original/abc.png";
  image_identifier = "abc";
  file_size = 500000;
  mime_type = "image/png";
  settings = some settings;
}

abbrev small : ImageInfo
small = record { width = 600; height = 480 }

-- Everything outside answers, but the encoder of WebP panics when `crash` is set.
abbrev tools : Bool → Tools
tools crash = record {
  env = env;
  has_cache = true;
  stat = λ n p. true;
  get_file_path = some (λ n p. done ("/data/" ⧺ p));
  mkdir_temp = λ n. done tt;
  create_temp = λ n. done ("/tmp/" ⧺ decimal n);
  close_file = λ n p. done tt;
  get_stream = λ n p. done tt;
  copy_stream = λ n m. done 500000;
  decode_config = λ n p. some (600, 480);
  open_file = λ n p. done tt;
  stat_size = λ n p. done 40000;
  hash_file = λ n p. done "sum";
  seek_start = λ n p. done tt;
  save = λ n p. done tt;
  acquire_slot = λ n. done tt;
  load_image = λ n p. done small;
  thumbnail_to_webp = λ n p q w quality effort. done small;
  save_webp = λ n p quality effort. if crash then panic "vips" else done tt;
  save_avif = λ n p quality effort depth. done tt;
  supports_avif = true;
  thumbnail_path = λ p w. "thumbnails/" ⧺ p;
  converted_path = λ p f. "converted/" ⧺ p;
  base_name = λ p. p;
}

abbrev world : World
world = record {
  db = record {
    sent = 0;
    variants =
        variant 1 "thumbnail_600" pending false
        ∷ variant 2 "webp" pending false
        ∷ variant 4 "avif" pending false
        ∷ variant 5 "jpeg" processing false
        ∷ [];
    images = picture ∷ [];
  };
  registry = record { next_id = 0; tasks = [] };
  slots = 1;
  temp_files = [];
  objects = [];
  evicted_images = [];
  evicted_variants = [];
  acquired = [];
  lease = none;
  local_file_path = "";
  calls = 0;
}

world_sure : (crash : Bool) (from : ℕ) → ReliableFrom (tools crash).env from
world_sure crash from n p f rows le = in_memory-updates variant_schema n p f rows

execute-settles_example :
    AllPairs (RowSettled task) world.db.variants (execute (tools true) task world).db.variants
execute-settles_example =
    execute-settles (tools true) task world
      (world_sure true (body (tools true) task (fresh world)).1.db.sent)

execute-frames_example :
    AllPairs (RowFramed task) world.db.variants (execute (tools false) task world).db.variants
execute-frames_example = execute-frames (tools false) task world

execute-GivenBack_example : GivenBack world (execute (tools true) task world)
execute-GivenBack_example = execute-GivenBack (tools true) task world (λ k h. refl)

abbrev webp_size : ℕ
webp_size = 100

should_keep_avif-exact_example :
    (should_keep_avif 90 webp_size ≡ true)
    ↔ ((0 < 90) × ((webp_size ≡ 0) ⊎ (webp_size * 5 < (webp_size - 90) * 100)))
should_keep_avif-exact_example = should_keep_avif-exact 90 webp_size (omega arith) (omega arith)

adaptive_webp_quality-bounds_example :
    (q : ℕ) × (adaptive_webp_quality high 75 ≡ pos q) × (0 < q) × (q ≤ 100)
adaptive_webp_quality-bounds_example =
    adaptive_webp_quality-bounds high 75 (omega arith) (omega arith)

adaptive_webp_quality-underflows_example :
    ((q : ℕ) × (adaptive_webp_quality low 4 ≡ negsuc q)) ⊎ (adaptive_webp_quality low 4 ≡ pos 0)
adaptive_webp_quality-underflows_example =
    adaptive_webp_quality-underflows 4 (omega arith) (omega arith)

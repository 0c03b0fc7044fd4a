-- ===== src/Pipeline/World.antt =====
-- The state that a pipeline task works on, what it calls outside the repository, and the control
-- flow of Go: an error return ends a function, a panic ends every function up to `recover`, and a
-- deferred call runs on each way out.
use text.Mathlib.Text.{◌==◌ as str_eq}
use image_bed.Errors.{Error, Result, err, ok, wrap}
use image_bed.InFlight.{Registry}
use image_bed.Int.{ℤ}
use image_bed.Prelude.{Bool, List, Option, String, [], if◌then◌else◌, refl, ℕ, ◌+◌, ◌∷◌, ◌≡◌}
use image_bed.Settings.{ImageProcessingSettings}
use image_bed.Variants.{Db, Env, Query}

-- ImagePipelineTask; the fields that `Execute` changes are in `World`.
pub record Task : Type 0 where
  pub thumb_variant_id : ℕ
  pub webp_variant_id : ℕ
  pub avif_variant_id : ℕ
  pub image_id : ℕ
  pub storage_path : String
  pub image_identifier : String
  pub file_size : ℕ
  pub mime_type : String
  pub settings : Option ImageProcessingSettings

pub record ImageInfo : Type 0 where
  pub width : ℕ
  pub height : ℕ

-- pipelineResult
pub record PipelineResult : Type 0 where
  pub storage_path : String
  pub width : ℕ
  pub height : ℕ
  pub file_size : ℕ
  pub file_hash : String

pub record World : Type 0 where
  pub db : Db
  pub registry : Registry
  -- permits taken from the global semaphore
  pub slots : ℕ
  -- the files in the temporary directory that are ours to remove
  pub temp_files : List String
  -- the paths written to the storage
  pub objects : List String
  -- the keys whose removal from the cache was requested
  pub evicted_images : List String
  pub evicted_variants : List ℕ
  -- `acquiredVariants`, `t.inFlightLease` and `t.LocalFilePath`
  pub acquired : List ℕ
  pub lease : Option ℕ
  pub local_file_path : String
  -- calls made outside the repository
  pub calls : ℕ

pub data Outcome (A : Type 0) : Type 0 where
  done : A → Outcome A
  fail : Error → Outcome A
  panic : String → Outcome A

abbrev pub Exec : Type 0 → Type 0
Exec A = World → Outcome A × World

-- What the task calls: the operating system, the storage provider, libvips, the codecs of Go's
-- image package and utils/generator. The `n`-th call may return anything.
pub record Tools : Type 0 where
  pub env : Env
  pub has_cache : Bool
  pub stat : ℕ → String → Bool
  -- a provider with paths (local storage), or none
  pub get_file_path : Option (ℕ → String → Outcome String)
  pub mkdir_temp : ℕ → Outcome (Unit {0})
  pub create_temp : ℕ → Outcome String
  pub close_file : ℕ → String → Outcome (Unit {0})
  pub get_stream : ℕ → String → Outcome (Unit {0})
  pub copy_stream : ℕ → ℕ → Outcome ℕ
  pub decode_config : ℕ → String → Option (ℕ × ℕ)
  pub open_file : ℕ → String → Outcome (Unit {0})
  pub stat_size : ℕ → String → Outcome ℕ
  pub hash_file : ℕ → String → Outcome String
  pub seek_start : ℕ → String → Outcome (Unit {0})
  pub save : ℕ → String → Outcome (Unit {0})
  pub acquire_slot : ℕ → Outcome (Unit {0})
  pub load_image : ℕ → String → Outcome ImageInfo
  -- source, destination, width, quality, effort
  pub thumbnail_to_webp : ℕ → String → String → ℕ → ℕ → ℕ → Outcome ImageInfo
  pub save_webp : ℕ → String → ℤ → ℕ → Outcome (Unit {0})
  -- destination, quality, effort, bit depth
  pub save_avif : ℕ → String → ℕ → ℕ → ℕ → Outcome (Unit {0})
  pub supports_avif : Bool
  pub thumbnail_path : String → ℕ → String
  pub converted_path : String → String → String
  -- filepath.Base
  pub base_name : String → String

module _ {A B : Type 0} where
  abbrev pub continue : Outcome A → (A → Exec B) → Exec B
  continue (done a) f w = f a w
  continue (fail e) f w = (fail e, w)
  continue (panic s) f w = (panic s, w)

  infixl 5 ◌>>=◌ ◌>>◌
  unfoldable pub ◌>>=◌ : Exec A → (A → Exec B) → Exec B
  ◌>>=◌ m f w = let (r, w') = m w in continue r f w'

  abbrev pub ◌>>◌ : Exec A → Exec B → Exec B
  m >> k = m >>= λ _. k

module _ {A : Type 0} where
  unfoldable pub pure : A → Exec A
  pure a w = (done a, w)

  unfoldable pub throw : Error → Exec A
  throw e w = (fail e, w)

  abbrev pub to_result : Outcome A → Outcome (Result A)
  to_result (done a) = done (ok a)
  to_result (fail e) = done (err e)
  to_result (panic s) = panic s

  -- the caller looks at the error; a panic passes
  unfoldable pub attempt : Exec A → Exec (Result A)
  attempt m w = let (r, w') = m w in (to_result r, w')

  -- `defer d()` before `m`: `d` runs on each way out of `m`
  unfoldable pub deferring : (World → World) → Exec A → Exec A
  deferring d m w = let (r, w') = m w in (r, d w')

  abbrev pub wrap_outcome : String → Outcome A → Outcome A
  wrap_outcome what (done a) = done a
  wrap_outcome what (fail e) = fail (wrap what e)
  wrap_outcome what (panic s) = panic s

  -- `if err != nil { return fmt.Errorf("what: %w", err) }`
  unfoldable pub wrapping : String → Exec A → Exec A
  wrapping what m w = let (r, w') = m w in (wrap_outcome what r, w')

  -- a call outside the repository
  unfoldable pub call : (ℕ → Outcome A) → Exec A
  call f w = (f w.calls, record w { calls = w.calls + 1 })

  abbrev pub from_result : Result A → Outcome A
  from_result (ok a) = done a
  from_result (err e) = fail e

  -- an operation of a repository
  unfoldable pub query : Query A → Exec A
  query q w = let (r, db) = q w.db in (from_result r, record w { db = db })

  unfoldable pub reads : (World → A) → Exec A
  reads f w = (done (f w), w)

unfoldable pub modify : (World → World) → Exec (Unit {0})
modify f w = (done tt, f w)

abbrev pub erase : String → List String → List String
erase p [] = []
erase p (x ∷ xs) = let rest = erase p xs in if str_eq x p then rest else x ∷ rest

-- `os.Remove(path)`, whose error is ignored
abbrev pub remove_file : String → World → World
remove_file path w = record w { temp_files = erase path w.temp_files }

-- An operation whose error the caller inspects hands its result on.
pub attempt-query :
    {A B : Type 0} (q : Query A) (f : Result A → Exec B) (w : World)
    → (attempt (query q) >>= f) w ≡ f (q w.db).0 (record w { db = (q w.db).1 })
unfolding ◌>>=◌ attempt query
attempt-query {A} {B} q f w = go (q w.db).0 (record w { db = (q w.db).1 })
  where
    go : (r : Result A) (w' : World) → continue (to_result (from_result r)) f w' ≡ f r w'
    go (ok a) w' = refl
    go (err e) w' = refl

-- ===== src/Pipeline/Passive.antt =====
-- The parts of a task that touch neither the database nor what the task tracks: making and storing
-- files. They keep every property that the growth of the storage cannot break.
use text.Mathlib.Text.{◌==◌ as str_eq}
use image_bed.Pipeline.Generate.{
  add_temp, avif_with, create_variant_temp_path, generate_avif, generate_thumbnail, generate_webp,
  header_exceeds, load_and_make, loaded, make_avif, make_thumbnail, make_webp, of_sizes,
  removing_on_failure, settings_missing, store, thumbnail_with, webp_with, with_settings,
}
use image_bed.Pipeline.Keeps.{
  Keeps, Keeps-attempt, Keeps-bind, Keeps-call, Keeps-deferring, Keeps-if, Keeps-modify, Keeps-pure,
  Keeps-reads, Keeps-throw, Keeps-wrapping,
}
use image_bed.Pipeline.Run.{
  Cleanup, download, finish_download, from_provider, from_storage, get_processing_file_path,
  keeping, read_download, removing, run_cleanup, staged_or_stored,
}
use image_bed.Pipeline.World.{
  Exec, ImageInfo, Outcome, PipelineResult, Task, Tools, World, call, done, erase, fail, modify,
  panic, remove_file,
}
use image_bed.Prelude.{Bool, List, Option, String, [], any, arith, none, some, true, ℕ, ◌∷◌, ◌≡◌}
use image_bed.Settings.{ImageProcessingSettings, ThumbnailSize}

abbrev pub holds_object : String → List String → Bool
holds_object p objects = any (λ x. str_eq x p) objects

-- `P` reads the calls, the files, the cache keys and the storage only as far as new objects cannot
-- make it false.
pub record Passive (P : World → Type 0) : Type 0 where
  pub steady :
      (w : World) (n : ℕ) (temps objects images : List String) (variants : List ℕ) (path : String)
      → ((p : String) → holds_object p w.objects ≡ true → holds_object p objects ≡ true)
      → P w
      → P (record w {
        calls = n;
        temp_files = temps;
        objects = objects;
        evicted_images = images;
        evicted_variants = variants;
        local_file_path = path;
      })

module _ {P : World → Type 0} (passive : Passive P) where
  pub Passive-call : {A : Type 0} (f : ℕ → Outcome A) → Keeps P (call f)
  Passive-call f =
      Keeps-call
        (λ w n.
          passive.steady w n w.temp_files w.objects w.evicted_images w.evicted_variants
            w.local_file_path (λ p h. h))
        f

  pub Passive-remove_file : (path : String) (w : World) → P w → P (remove_file path w)
  Passive-remove_file path w =
      passive.steady w w.calls (erase path w.temp_files) w.objects w.evicted_images
        w.evicted_variants w.local_file_path (λ p h. h)

  pub Passive-add_temp : (path : String) → Keeps P (modify (add_temp path))
  Passive-add_temp path = Keeps-modify (add_temp path) λ w.
      passive.steady w w.calls (path ∷ w.temp_files) w.objects w.evicted_images w.evicted_variants
        w.local_file_path (λ p h. h)

  pub Passive-local_path : Keeps P (modify (λ w. record w { local_file_path = "" }))
  Passive-local_path = Keeps-modify _ λ w.
      passive.steady w w.calls w.temp_files w.objects w.evicted_images w.evicted_variants ""
        (λ p h. h)

  pub Passive-add_object :
      (path : String) → Keeps P (modify (λ w. record w { objects = path ∷ w.objects }))
  Passive-add_object path = Keeps-modify _ λ w.
      passive.steady w w.calls w.temp_files (path ∷ w.objects) w.evicted_images w.evicted_variants
        w.local_file_path (λ p h. ground arith)

  pub Passive-removing_on_failure :
      {A : Type 0} (path : String) {m : Exec A}
      → Keeps P m
      → Keeps P (λ w. removing_on_failure path (m w))
  unfolding removing_on_failure
  Passive-removing_on_failure {A} path {m} k = record {
    at = λ w h. after (m w).0 (m w).1 (k.at w h);
  }
    where
      after : (r : Outcome A) (w' : World) → P w' → P (removing_on_failure path (r, w')).1
      after (done a) w' h = h
      after (fail e) w' h = Passive-remove_file path w' h
      after (panic s) w' h = h

  pub ruleset passive_rules = (
    Keeps-pure, Keeps-throw, Keeps-attempt, Keeps-wrapping, Keeps-reads, Keeps-bind, Passive-call,
    Passive-add_temp, Passive-add_object, Passive-local_path, Passive-remove_file,
    Passive-removing_on_failure, Keeps-if, Keeps-deferring,
  )

  module _ (tools : Tools) where
    create_variant_temp_path-Keeps : Keeps P (create_variant_temp_path tools)
    unfolding create_variant_temp_path
    create_variant_temp_path-Keeps = search passive_rules depth 12

    store-Keeps :
        (stage_text save_text tmp path : String) (keep : ℕ → Bool) (info : ImageInfo)
        → Keeps P (store tools stage_text save_text tmp path keep info)
    unfolding store
    store-Keeps stage_text save_text tmp path keep info = search passive_rules depth 12

    module _ (t : Task) where
      header_exceeds-Keeps :
          (limit : ℕ) (path : String) → Keeps P (header_exceeds tools t limit path)
      unfolding header_exceeds
      header_exceeds-Keeps limit path = search passive_rules depth 12

      loaded-Keeps :
          (path : String) (origin : Option ImageInfo) → Keeps P (loaded tools t path origin)
      unfolding loaded
      loaded-Keeps path none = search passive_rules depth 12
      loaded-Keeps path (some info) = search passive_rules depth 12

      load_and_make-Keeps :
          (make : ImageProcessingSettings → ImageInfo → Exec (Option PipelineResult))
          (path : String) (s : ImageProcessingSettings) (origin : Option ImageInfo)
          → ((info : ImageInfo) → Keeps P (make s info))
          → Keeps P (load_and_make tools t make path s origin)
      unfolding load_and_make
      load_and_make-Keeps make path s origin k =
          search (passive_rules, header_exceeds-Keeps, loaded-Keeps, k) depth 12

      make_thumbnail-Keeps :
          (path : String) (s : ImageProcessingSettings) (width : ℕ)
          → Keeps P (make_thumbnail tools t path s width)
      unfolding make_thumbnail
      make_thumbnail-Keeps path s width =
          search (passive_rules, create_variant_temp_path-Keeps, store-Keeps) depth 12

      make_webp-Keeps :
          (s : ImageProcessingSettings) (info : ImageInfo) → Keeps P (make_webp tools t s info)
      unfolding make_webp
      make_webp-Keeps s info =
          search (passive_rules, create_variant_temp_path-Keeps, store-Keeps) depth 12

      make_avif-Keeps :
          (webp : Option PipelineResult) (s : ImageProcessingSettings) (info : ImageInfo)
          → Keeps P (make_avif tools t webp s info)
      unfolding make_avif
      make_avif-Keeps webp s info =
          search (passive_rules, create_variant_temp_path-Keeps, store-Keeps) depth 12

      of_sizes-Keeps :
          (path : String) (s : ImageProcessingSettings) (sizes : List ThumbnailSize)
          → Keeps P (of_sizes tools t path s sizes)
      unfolding of_sizes
      of_sizes-Keeps path s [] = Keeps-throw _
      of_sizes-Keeps path s (size ∷ _) = make_thumbnail-Keeps path s size.width

      thumbnail_with-Keeps :
          (path : String) (s : ImageProcessingSettings) → Keeps P (thumbnail_with tools t path s)
      unfolding thumbnail_with
      thumbnail_with-Keeps path s = search (passive_rules, of_sizes-Keeps)

      webp_with-Keeps :
          (path : String) (origin : Option ImageInfo) (s : ImageProcessingSettings)
          → Keeps P (webp_with tools t path origin s)
      unfolding webp_with
      webp_with-Keeps path origin s = search (passive_rules, load_and_make-Keeps, make_webp-Keeps)

      avif_with-Keeps :
          (path : String) (webp : Option PipelineResult) (origin : Option ImageInfo)
          (s : ImageProcessingSettings)
          → Keeps P (avif_with tools t path webp origin s)
      unfolding avif_with
      avif_with-Keeps path webp origin s =
          search (passive_rules, load_and_make-Keeps, make_avif-Keeps)

      with_settings-Keeps :
          (o : Option ImageProcessingSettings)
          (make : ImageProcessingSettings → Exec (Option PipelineResult))
          → ((s : ImageProcessingSettings) → Keeps P (make s))
          → Keeps P (with_settings o make)
      with_settings-Keeps none make k = Keeps-throw settings_missing
      with_settings-Keeps (some s) make k = k s

      -- The generators, whatever the settings.
      pub generate_thumbnail-Keeps : (path : String) → Keeps P (generate_thumbnail tools t path)
      unfolding generate_thumbnail
      generate_thumbnail-Keeps path =
          with_settings-Keeps t.settings (thumbnail_with tools t path) (thumbnail_with-Keeps path)

      pub generate_webp-Keeps :
          (path : String) (origin : Option ImageInfo) → Keeps P (generate_webp tools t path origin)
      unfolding generate_webp
      generate_webp-Keeps path origin =
          with_settings-Keeps t.settings (webp_with tools t path origin)
            (webp_with-Keeps path origin)

      pub generate_avif-Keeps :
          (path : String) (webp : Option PipelineResult) (origin : Option ImageInfo)
          → Keeps P (generate_avif tools t path webp origin)
      unfolding generate_avif
      generate_avif-Keeps path webp origin =
          with_settings-Keeps t.settings (avif_with tools t path webp origin)
            (avif_with-Keeps path webp origin)

      download-Keeps : Keeps P (download tools t)
      unfolding download read_download finish_download
      download-Keeps = search passive_rules depth 12

      from_storage-Keeps : Keeps P (from_storage tools t)
      unfolding from_storage
      from_storage-Keeps = of_provider tools.get_file_path
        where
          of_provider :
              (o : Option (ℕ → String → Outcome String)) → Keeps P (from_provider tools t o)
          of_provider none = download-Keeps
          of_provider (some path_of) = search passive_rules depth 12

      pub get_processing_file_path-Keeps : Keeps P (get_processing_file_path tools t)
      unfolding get_processing_file_path staged_or_stored
      get_processing_file_path-Keeps = search (passive_rules, from_storage-Keeps) depth 12

      pub run_cleanup-Keeps : (c : Cleanup) (w : World) → P w → P (run_cleanup c w)
      run_cleanup-Keeps keeping w h = h
      run_cleanup-Keeps (removing path) w h = Passive-remove_file path w h

-- ===== src/Tests/Registry.antt =====
-- The registry of storage providers, with its configs' names for providers.
use image_bed.Errors.{ok}
use image_bed.Prelude.{List, String, [], false, refl, some, true, ◌∷◌, ◌≡◌, ◌≢◌}
use image_bed.Storage.{
  Constructors, RegistryState, StorageConfig, add_or_update_provider, create_provider,
  empty_registry, get_by_id, get_default, get_default_id, init_all, init_provider, init_storage,
  remove_found, remove_provider, set_default_id, set_found, settle_default,
}
use image_bed.Storage.Changes.{
  Change, add_or_update_provider-diverges, adds_or_updates, change_all, change_all-Consistent,
  initialises, removes, sets_default,
}
use image_bed.Storage.Default.{IsConsistent}

abbrev by_name : Constructors String
by_name = record {
  new_local = λ c. ok c.name;
  new_s3 = λ c. ok c.name;
  new_webdav = λ c. ok c.name;
}

abbrev disk : StorageConfig
disk = record { id = 1; name = "disk"; storage_type = "local"; is_default = true }

abbrev bucket : StorageConfig
bucket = record { id = 2; name = "bucket"; storage_type = "s3"; is_default = false }

abbrev changes : List Change
changes =
    initialises (disk ∷ bucket ∷ [])
    ∷ sets_default 2
    ∷ removes 1
    ∷ adds_or_updates (record disk { is_default = false })
    ∷ []

change_all-Consistent_example : IsConsistent (change_all by_name changes empty_registry)
unfolding init_storage init_all settle_default init_provider create_provider set_default_id
    set_found remove_provider remove_found
change_all-Consistent_example =
    change_all-Consistent by_name changes empty_registry refl (record { agrees = λ q h. absurd cc })

abbrev moved : StorageConfig
moved = record { id = 1; name = "moved"; storage_type = "local"; is_default = false }

abbrev registry : RegistryState String
registry = record { providers = (1, "disk") ∷ []; default_provider = some "disk"; default_id = 1 }

abbrev old_name : String
old_name = "disk"

abbrev new_name : String
new_name = "moved"

old_name-ne : old_name ≢ new_name
old_name-ne e = absurd cc

add_or_update_provider-diverges_example :
    let after = (add_or_update_provider by_name moved registry).1 in
    (get_default after ≡ some "disk")
    × (get_by_id (get_default_id after) after ≡ ok "moved")
    × ¬ IsConsistent after
unfolding create_provider
add_or_update_provider-diverges_example =
    add_or_update_provider-diverges by_name moved old_name new_name registry refl refl refl refl
      old_name-ne

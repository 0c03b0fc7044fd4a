-- ===== src/Storage.antt =====
-- storage/storage.go: the registry of storage providers. Its mutex and the copy that each change
-- stores make every operation one step; a map is an association list.
pub mod Default
pub mod Changes
use text.Mathlib.Text.{◌==◌ as str_eq}
use image_bed.Errors.{Error, Result, err, message, ok, wrap}
use image_bed.Models.{failed}
use image_bed.Prelude.{
  Bool, List, Option, String, [], if◌then◌else◌, length, map, none, not, some, suc, ℕ, ◌==◌, ◌∷◌,
}
use image_bed.Text.{decimal, ◌⧺◌}

-- StorageConfig, in what the registry reads.
pub record StorageConfig : Type 0 where
  pub id : ℕ
  pub name : String
  pub storage_type : String
  pub is_default : Bool

-- registryState, over providers of any kind.
pub record RegistryState (P : Type 0) : Type 0 where
  pub providers : List (ℕ × P)
  pub default_provider : Option P
  pub default_id : ℕ

-- The constructors of the providers, which reach out.
pub record Constructors (P : Type 0) : Type 0 where
  pub new_local : StorageConfig → Result P
  pub new_s3 : StorageConfig → Result P
  pub new_webdav : StorageConfig → Result P

abbrev pub not_found : ℕ → Error
not_found id = message ("storage provider with ID " ⧺ decimal id ⧺ " not found")

module _ {P : Type 0} where
  abbrev pub provider_of : ℕ → List (ℕ × P) → Option P
  provider_of id [] = none
  provider_of id ((i, p) ∷ t) = if i == id then some p else provider_of id t

  abbrev pub without_provider : ℕ → List (ℕ × P) → List (ℕ × P)
  without_provider id [] = []
  without_provider id ((i, p) ∷ t) =
      let rest = without_provider id t in if i == id then rest else (i, p) ∷ rest

  -- `next.providers[id] = provider`
  abbrev pub put : ℕ → P → List (ℕ × P) → List (ℕ × P)
  put id p t = (id, p) ∷ without_provider id t

  -- GetDefault, GetDefaultID, GetByID, ListProviderIDs and GetProviderCount
  unfoldable pub get_default : RegistryState P → Option P
  get_default r = r.default_provider

  unfoldable pub get_default_id : RegistryState P → ℕ
  get_default_id r = r.default_id

  unfoldable pub get_by_id : ℕ → RegistryState P → Result P
  get_by_id id r = elim (provider_of id r.providers) [ none ↦ err (not_found id) | some p ↦ ok p ]

  unfoldable pub list_provider_ids : RegistryState P → List ℕ
  list_provider_ids r = map (λ e. e.0) r.providers

  unfoldable pub get_provider_count : RegistryState P → ℕ
  get_provider_count r = length r.providers

  -- createProvider
  unfoldable pub create_provider : Constructors P → StorageConfig → Result P
  create_provider c cfg =
      if str_eq cfg.storage_type "local"
      then c.new_local cfg
      else if str_eq cfg.storage_type "s3"
      then c.new_s3 cfg
      else if str_eq cfg.storage_type "webdav"
      then c.new_webdav cfg
      else err (message ("unsupported storage type: " ⧺ cfg.storage_type))

  unfoldable pub with_provider :
      StorageConfig → Result P → RegistryState P → Option Error × RegistryState P
  with_provider cfg (err e) r = (some (wrap "failed to create provider" e), r)
  with_provider cfg (ok p) r = (
    none,
    if cfg.is_default
        then record {
          providers = put cfg.id p r.providers;
          default_provider = some p;
          default_id = cfg.id;
        }
        else record r { providers = put cfg.id p r.providers },
  )

  -- AddOrUpdateProvider
  unfoldable pub add_or_update_provider :
      Constructors P → StorageConfig → RegistryState P → Option Error × RegistryState P
  unfolding with_provider create_provider
  add_or_update_provider c cfg r = with_provider cfg (create_provider c cfg) r

  unfoldable pub remove_found : ℕ → Option P → RegistryState P → Option Error × RegistryState P
  remove_found id none r = (some (not_found id), r)
  remove_found id (some p) r =
      if id == r.default_id
      then (some (message ("cannot remove default storage provider (ID: " ⧺ decimal id ⧺ ")")), r)
      else (none, record r { providers = without_provider id r.providers })

  -- RemoveProvider
  unfoldable pub remove_provider : ℕ → RegistryState P → Option Error × RegistryState P
  unfolding remove_found
  remove_provider id r = remove_found id (provider_of id r.providers) r

  unfoldable pub set_found : ℕ → Option P → RegistryState P → Option Error × RegistryState P
  set_found id none r = (some (not_found id), r)
  set_found id (some p) r = (none, record r { default_provider = some p; default_id = id })

  -- SetDefaultID
  unfoldable pub set_default_id : ℕ → RegistryState P → Option Error × RegistryState P
  unfolding set_found
  set_default_id id r = set_found id (provider_of id r.providers) r

  -- The loop of InitStorage: a config whose provider cannot be created is passed over.
  unfoldable pub init_provider : StorageConfig → Result P → RegistryState P → RegistryState P
  init_provider cfg (err e) next = next
  init_provider cfg (ok p) next =
      if cfg.is_default
      then record {
        providers = put cfg.id p next.providers;
        default_provider = some p;
        default_id = cfg.id;
      }
      else record next { providers = put cfg.id p next.providers }

  unfoldable pub init_all : Constructors P → List StorageConfig → RegistryState P → RegistryState P
  unfolding init_provider create_provider
  init_all c [] next = next
  init_all c (cfg ∷ cfgs) next = init_all c cfgs (init_provider cfg (create_provider c cfg) next)

  abbrev failed_configs : Constructors P → List StorageConfig → ℕ
  failed_configs c [] = 0
  failed_configs c (cfg ∷ cfgs) =
      let rest = failed_configs c cfgs in
      elim (create_provider c cfg) [ ok p ↦ rest | err e ↦ suc rest ]

  abbrev pub empty_registry : RegistryState P
  empty_registry = record { providers = []; default_provider = none; default_id = 0 }

  unfoldable pub settle_default :
      Constructors P
      → List StorageConfig
      → Option P
      → (next r : RegistryState P) → Option Error × RegistryState P
  settle_default c configs none next r = (
    some (
        message (
          "no default storage available (checked "
          ⧺ decimal (length configs)
          ⧺ " configs, "
          ⧺ decimal (failed_configs c configs)
          ⧺ " failed)")),
    r,
  )
  settle_default c configs (some p) next r = (none, next)

  -- InitStorage: without a default nothing is stored
  unfoldable pub init_storage :
      Constructors P → List StorageConfig → RegistryState P → Option Error × RegistryState P
  unfolding init_all settle_default
  init_storage c configs r =
      let next = init_all c configs empty_registry in
      settle_default c configs next.default_provider next r

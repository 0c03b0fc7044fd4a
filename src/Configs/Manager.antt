-- ===== src/Configs/Manager.antt =====
-- config/db/manager.go: the operations on the configuration, with what they drop from the cache and
-- publish.
use text.Mathlib.Text.{◌==◌ as str_eq}
use image_bed.Auth.{and_then, with_error}
use image_bed.Configs.{
  ConfigDb, ConfigEnv, ConfigMap, ConfigQuery, SystemConfig, announce, asks_config,
  ensure_key_unique, get_config_by_id, get_default_by_category, mask_sensitive_data, merge_maps,
  on_configs,
}
use image_bed.Errors.{Result, err, map_result, message, ok, wrap}
use image_bed.Prelude.{
  Bool, List, Option, String, [], false, if◌then◌else◌, none, some, true, ℕ, ◌&&◌, ◌==◌, ◌∷◌,
}
use image_bed.Text.{◌⧺◌}

-- SystemConfigStoreRequest
pub record StoreRequest : Type 0 where
  pub category : String
  pub name : String
  pub config : ConfigMap
  pub is_enabled : Option Bool
  pub is_default : Option Bool
  pub priority : Option ℕ
  pub description : String

-- ConfigResponse: the row and its map in the clear
pub record ConfigResponse : Type 0 where
  pub row : SystemConfig
  pub config : ConfigMap

abbrev pub given {ℓ} : {A : Type ℓ} → Option A → A → A
given none old = old
given (some new) old = new

abbrev pub unless_empty : String → String → String
unless_empty new old = if str_eq new "" then old else new

-- gorm leaves a zero value out of an INSERT where the tag has a default: `default:true`
abbrev pub column_defaults : SystemConfig → SystemConfig
column_defaults c = record c { is_enabled = true }

module _ (env : ConfigEnv) (equal_fold : String → String → Bool) where
  -- ToResponseWithMask
  unfoldable pub to_response_with_mask : SystemConfig → Bool → Result ConfigResponse
  unfolding mask_sensitive_data
  to_response_with_mask config mask_sensitive =
      map_result
        (λ m. record {
          row = config;
          config = if mask_sensitive then mask_sensitive_data equal_fold m else m;
        })
        (env.decrypt config.config_json)

  -- The row of a request, as CreateConfig fills it in
  abbrev pub row_of : StoreRequest → ℕ → String → String → SystemConfig
  row_of req user_id key encrypted = record {
    id = 0;
    category = req.category;
    name = req.name;
    key = key;
    is_enabled = given req.is_enabled false;
    is_default = given req.is_default false;
    priority = given req.priority 0;
    config_json = encrypted;
    description = req.description;
    created_by = user_id;
    deleted = false;
  }

  -- CreateConfig
  unfoldable pub create_config : StoreRequest → ℕ → ConfigQuery ConfigResponse
  unfolding ensure_key_unique to_response_with_mask
  create_config req user_id db =
      and_then (ensure_key_unique env (req.category ⧺ ":" ⧺ req.name) db) λ key db1.
        and_then (asks_config (λ n. env.encrypt n req.config) db1) λ encrypted db2.
          and_then
            (with_error (wrap "failed to create config") (
              on_configs
                (λ k. env.configs.create k (column_defaults (row_of req user_id key encrypted)))
                db2))
            λ config db3. (to_response_with_mask config false, announce env config db3)

  -- mergeConfig
  unfoldable pub merge_config : SystemConfig → ConfigMap → ConfigQuery SystemConfig
  unfolding merge_maps
  merge_config config new_config db =
      and_then
        (with_error (wrap "failed to decrypt existing config") (env.decrypt config.config_json, db))
        λ existing db1.
          and_then (asks_config (λ n. env.encrypt n (merge_maps existing new_config)) db1)
            λ encrypted db2. (ok (record config { config_json = encrypted }), db2)

  abbrev pub with_request : StoreRequest → SystemConfig → SystemConfig
  with_request req c = record c {
    name = unless_empty req.name c.name;
    description = unless_empty req.description c.description;
    is_enabled = given req.is_enabled c.is_enabled;
    priority = given req.priority c.priority;
  }

  -- gorm's Save: an UPDATE of all columns and, where it reaches no row, an upsert
  unfoldable pub save_rows : SystemConfig → ConfigQuery ℕ
  save_rows config db =
      and_then (on_configs (λ k. env.configs.updates k (λ c. c.id == config.id) (λ c. config)) db)
        λ n db1.
          let inserted = on_configs (λ k. env.upsert k config) db1 in
          if n == 0 then inserted else (ok n, db1)

  -- UpdateConfig
  unfoldable pub update_config : ℕ → StoreRequest → ConfigQuery ConfigResponse
  unfolding merge_config get_config_by_id to_response_with_mask save_rows
  update_config id req db =
      and_then (with_error (wrap "config not found") (get_config_by_id env id db)) λ old db1.
        and_then (merge_config old req.config db1) λ merged db2.
          let config = with_request req merged in
          and_then (with_error (wrap "failed to update config") (save_rows config db2))
            λ n db3. (to_response_with_mask config false, announce env config db3)

  -- DeleteConfig
  unfoldable pub delete_config : ℕ → ConfigQuery (Unit {0})
  unfolding get_config_by_id
  delete_config id db = and_then (get_config_by_id env id db) λ config db1.
      and_then (on_configs (λ k. env.configs.delete k (λ c. c.id == id)) db1)
        λ n db2. (ok tt, announce env config db2)

  -- GetConfig
  unfoldable pub get_config : ℕ → Bool → ConfigQuery ConfigResponse
  unfolding get_config_by_id to_response_with_mask
  get_config id mask_sensitive db =
      and_then (get_config_by_id env id db)
        λ config db1. (to_response_with_mask config mask_sensitive, db1)

  -- InvalidateAll
  abbrev pub invalidate_all : ConfigDb → ConfigDb
  invalidate_all db = record db {
    invalidated = "storage" ∷ "image_processing" ∷ "system" ∷ db.invalidated;
  }

  -- The end of Enable and Disable, which log a failure of the second query
  unfoldable pub publish_found : Result SystemConfig × ConfigDb → Result (Unit {0}) × ConfigDb
  publish_found (ok config, db) = (ok tt, record db { published = config ∷ db.published })
  publish_found (err e, db) = (ok tt, db)

  -- Enable and Disable
  unfoldable pub set_enabled : Bool → ℕ → ConfigQuery (Unit {0})
  unfolding publish_found get_config_by_id
  set_enabled enabled id db =
      and_then
        (on_configs
          (λ k. env.configs.updates k (λ c. c.id == id) (λ c. record c { is_enabled = enabled }))
          db)
        λ n db1. publish_found (get_config_by_id env id (invalidate_all db1))

  -- GetDefaultStorageConfigID, for the order by descending priority and then by id of `ranked`
  unfoldable pub first_enabled : Result (List SystemConfig) → Result ℕ
  first_enabled (ok []) = err (message "no enabled storage config available")
  first_enabled (ok (c ∷ cs)) = ok c.id
  first_enabled (err e) = err e

  unfoldable pub list_enabled_storage :
      (List SystemConfig → List SystemConfig) → ConfigQuery (List SystemConfig)
  list_enabled_storage ranked = on_configs λ k t. (
    map_result ranked (env.configs.find k (λ c. str_eq c.category "storage" && c.is_enabled) t),
    t,
  )

  unfoldable pub default_or_first :
      (List SystemConfig → List SystemConfig) → Result SystemConfig × ConfigDb → Result ℕ × ConfigDb
  unfolding first_enabled list_enabled_storage
  default_or_first ranked (ok config, db) = (ok config.id, db)
  default_or_first ranked (err e, db) =
      let (r, db') = list_enabled_storage ranked db in (first_enabled r, db')

  unfoldable pub get_default_storage_config_id :
      (List SystemConfig → List SystemConfig) → ConfigQuery ℕ
  unfolding default_or_first get_default_by_category
  get_default_storage_config_id ranked db =
      default_or_first ranked (get_default_by_category env "storage" db)

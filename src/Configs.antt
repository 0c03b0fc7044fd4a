-- ===== src/Configs.antt =====
-- database/models/system_config.go, database/repo/configs and config/db/manager.go: the rows of the
-- configuration, whose content is an encrypted map. A map is a list of pairs; JSON, encryption and
-- the caseless comparison of strings are parameters.
pub mod Merging
pub mod Defaults
pub mod Keys
pub mod Manager
use text.Mathlib.Text.{◌==◌ as str_eq}
use image_bed.Auth.{and_then}
use image_bed.Errors.{Result, err, message, ok}
use image_bed.Gorm.{Gorm, Schema}
use image_bed.Models.{failed}
use image_bed.Prelude.{
  Bool, List, Option, String, [], any, false, if◌then◌else◌, none, not, some, suc, true, zero, ℕ,
  ◌&&◌, ◌==◌, ◌∷◌,
}
use image_bed.Text.{decimal, ◌⧺◌}

-- A value of a map: a string, or any other JSON value.
pub data Value : Type 0 where
  string_value : String → Value
  json_value : String → Value

abbrev pub ConfigMap : Type 0
ConfigMap = List (String × Value)

unfoldable pub value_at : String → ConfigMap → Option Value
value_at key [] = none
value_at key ((k, v) ∷ rest) =
    let found = value_at key rest in if str_eq k key then some v else found

-- `value.(string)`, and whether it is "******"
abbrev pub is_masked : Value → Bool
is_masked (string_value s) = str_eq s "******"
is_masked (json_value s) = false

-- The loop of mergeConfig over the new map
unfoldable pub merge_maps : ConfigMap → ConfigMap → ConfigMap
merge_maps existing [] = existing
merge_maps existing ((k, v) ∷ rest) =
    let merged = merge_maps existing rest in if is_masked v then merged else (k, v) ∷ merged

-- sensitiveFields
abbrev pub sensitive_fields : List String
sensitive_fields = "secret" ∷ "secret_access_key" ∷ "access_key_id" ∷ "password" ∷ []

abbrev pub is_sensitive : (String → String → Bool) → String → Bool
is_sensitive equal_fold k = any (λ f. equal_fold k f) sensitive_fields

-- MaskSensitiveData
unfoldable pub mask_sensitive_data : (String → String → Bool) → ConfigMap → ConfigMap
mask_sensitive_data equal_fold [] = []
mask_sensitive_data equal_fold ((k, v) ∷ rest) =
    let masked = mask_sensitive_data equal_fold rest in
    (k, if is_sensitive equal_fold k then string_value "******" else v) ∷ masked

-- SystemConfig; priorities below zero are left out
pub record SystemConfig : Type 0 where
  pub id : ℕ
  pub category : String
  pub name : String
  pub key : String
  pub is_enabled : Bool
  pub is_default : Bool
  pub priority : ℕ
  pub config_json : String
  pub description : String
  pub created_by : ℕ
  pub deleted : Bool

abbrev pub config_schema : Schema SystemConfig
config_schema = record {
  live = λ c. not c.deleted;
  mark_deleted = λ c. record c { deleted = true };
  clash = λ c d. str_eq c.key d.key && not d.deleted;
  set_id = λ i c. record c { id = i };
  id_of = λ c. c.id;
}

-- gorm, JSON with encryption, whose nonce is random, and strings of the standard library
pub record ConfigEnv : Type 0 where
  pub configs : Gorm config_schema
  -- `Clauses(OnConflict{UpdateAll: true}).Create(&config)`
  pub upsert : ℕ → SystemConfig → List SystemConfig → Result ℕ × List SystemConfig
  pub encrypt : ℕ → ConfigMap → Result String
  pub decrypt : String → Result ConfigMap
  pub lower : String → String
  pub commit : ℕ → Result (Unit {0})

-- The table, and the cached category entries that are dropped with it, with the events published
pub record ConfigDb : Type 0 where
  pub sent : ℕ
  pub rows : List SystemConfig
  pub invalidated : List String
  pub published : List SystemConfig

abbrev pub ConfigQuery : Type 0 → Type 0
ConfigQuery A = ConfigDb → Result A × ConfigDb

abbrev pub on_configs :
    {A : Type 0} → (ℕ → List SystemConfig → Result A × List SystemConfig) → ConfigQuery A
on_configs stmt db =
    let (r, rows) = stmt db.sent db.rows in (r, record db { sent = suc db.sent; rows = rows })

abbrev pub asks_config : {A : Type 0} → (ℕ → Result A) → ConfigQuery A
asks_config f db = (f db.sent, record db { sent = suc db.sent })

module _ (env : ConfigEnv) where
  -- GetByID, GetDefaultByCategory
  unfoldable pub get_config_by_id : ℕ → ConfigQuery SystemConfig
  get_config_by_id id = on_configs λ k t. (env.configs.first k (λ c. c.id == id) t, t)

  abbrev pub is_default_of : String → SystemConfig → Bool
  is_default_of category c = str_eq c.category category && c.is_default && c.is_enabled

  unfoldable pub get_default_by_category : String → ConfigQuery SystemConfig
  get_default_by_category category =
      on_configs λ k t. (env.configs.first k (is_default_of category) t, t)

  unfoldable pub default_statements : ℕ → String → ConfigQuery (Unit {0})
  default_statements id category db =
      and_then
        (on_configs
          (λ k.
            env.configs.updates k (λ c. str_eq c.category category)
              (λ c. record c { is_default = false }))
          db)
        λ n db'.
          and_then
            (on_configs
              (λ k. env.configs.updates k (λ c. c.id == id) (λ c. record c { is_default = true }))
              db')
            λ n db''. asks_config env.commit db''

  unfoldable pub roll_back_configs :
      ConfigDb → Result (Unit {0}) × ConfigDb → Result (Unit {0}) × ConfigDb
  roll_back_configs before (ok a, db) = (ok a, db)
  roll_back_configs before (err e, db) = (err e, record db { rows = before.rows })

  -- SetDefault of the repository, in a transaction
  unfoldable pub set_default_row : ℕ → String → ConfigQuery (Unit {0})
  unfolding default_statements roll_back_configs
  set_default_row id category db = roll_back_configs db (default_statements id category db)

  -- `m.cache.Invalidate(category)` and `m.eventBus.Publish(_, config)`
  abbrev pub announce : SystemConfig → ConfigDb → ConfigDb
  announce config db = record db {
    invalidated = config.category ∷ db.invalidated;
    published = config ∷ db.published;
  }

  -- SetDefault of the manager
  unfoldable pub set_default_config : ℕ → ConfigQuery (Unit {0})
  unfolding set_default_row get_config_by_id
  set_default_config id db = and_then (get_config_by_id id db) λ config db'.
      and_then (set_default_row id config.category db') λ u db''. (ok tt, announce config db'')

  -- Exists
  unfoldable pub key_exists : String → ConfigQuery ℕ
  key_exists key =
      on_configs λ k t. (env.configs.count k (λ c. str_eq (env.lower c.key) (env.lower key)) t, t)

  -- EnsureKeyUnique from its i-th candidate on, for the 999 rounds of the loop
  unfoldable pub unique_key : ℕ → ℕ → String → String → ConfigQuery String
  unfolding key_exists
  unique_key zero i base_key key db =
      (err (message ("failed to generate unique key for " ⧺ base_key)), db)
  unique_key (suc rounds) i base_key key db = and_then (key_exists key db) λ count db'.
      let rest = unique_key rounds (suc i) base_key (base_key ⧺ "_" ⧺ decimal i) db' in
      if count == 0 then (ok key, db') else rest

  unfoldable pub ensure_key_unique : String → ConfigQuery String
  unfolding unique_key
  ensure_key_unique base_key = unique_key 999 1 base_key base_key

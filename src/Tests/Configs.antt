-- ===== src/Tests/Configs.antt =====
-- Two storage configurations, and the theorems on them.
use text.Mathlib.Text.{◌==◌ as str_eq}
use image_bed.Auth.{and_then}
use image_bed.Configs.{
  ConfigDb, ConfigEnv, ConfigMap, SystemConfig, config_schema, default_statements,
  ensure_key_unique, get_config_by_id, is_sensitive, key_exists, mask_sensitive_data, merge_maps,
  roll_back_configs, set_default_config, set_default_row, string_value, unique_key, value_at,
}
use image_bed.Configs.Keys.{IsFree, ensure_key_unique-IsFree}
use image_bed.Configs.Merging.{Distinct, mask_sensitive_data-merges, starred}
use image_bed.Errors.{err, message, ok}
use image_bed.Prelude.{Bool, String, [], false, refl, true, ℕ, ◌∷◌, ◌≡◌}
use image_bed.Tests.Database.{in_memory}
use image_bed.Text.{decimal}

abbrev configs_env : ConfigEnv
configs_env = record {
  configs = in_memory config_schema;
  upsert = λ n c t. (err (message "not called"), t);
  encrypt = λ n m. ok "sealed";
  decrypt = λ s. ok [];
  lower = λ s. s;
  commit = λ n. ok tt;
}

abbrev config_row : ℕ → String → Bool → SystemConfig
config_row id key is_default = record {
  id = id;
  category = "storage";
  name = "disk";
  key = key;
  is_enabled = true;
  is_default = is_default;
  priority = 0;
  config_json = "sealed";
  description = "";
  created_by = 1;
  deleted = false;
}

abbrev two_configs : ConfigDb
two_configs = record {
  sent = 0;
  rows = config_row 1 "storage:disk" true ∷ config_row 2 "storage:disk_1" false ∷ [];
  invalidated = [];
  published = [];
}

set_default_run : (set_default_config configs_env 2 two_configs).0 ≡ ok tt
unfolding set_default_config set_default_row roll_back_configs default_statements get_config_by_id
    and_then
set_default_run = refl

third_key : (ensure_key_unique configs_env "storage:disk" two_configs).0 ≡ ok "storage:disk_2"
unfolding ensure_key_unique unique_key key_exists and_then decimal
third_key = refl

ensure_key_unique-IsFree_example :
    IsFree configs_env "storage:disk_2" two_configs.rows
    × ((ensure_key_unique configs_env "storage:disk" two_configs).1.rows ≡ two_configs.rows)
ensure_key_unique-IsFree_example =
    ensure_key_unique-IsFree configs_env "storage:disk" "storage:disk_2" two_configs third_key

-- A configuration with a secret.
abbrev bucket : ConfigMap
bucket = ("type", string_value "s3") ∷ ("secret", string_value "abc") ∷ []

bucket-Distinct : Distinct bucket
unfolding value_at
bucket-Distinct = (refl, (refl, tt))

mask_sensitive_data-merges_example :
    (value_at "secret" (merge_maps bucket (mask_sensitive_data (λ a b. str_eq a b) bucket))
      ≡ value_at "secret" bucket)
    × ((is_sensitive (λ a b. str_eq a b) "secret" ≡ true
          → value_at "secret" (mask_sensitive_data (λ a b. str_eq a b) bucket)
            ≡ starred (λ a b. str_eq a b) (value_at "secret" bucket))
        × (is_sensitive (λ a b. str_eq a b) "secret" ≡ false
            → value_at "secret" (mask_sensitive_data (λ a b. str_eq a b) bucket)
              ≡ value_at "secret" bucket))
mask_sensitive_data-merges_example =
    mask_sensitive_data-merges (λ a b. str_eq a b) bucket "secret" bucket-Distinct

-- ===== src/Configs/Defaults.antt =====
-- SetDefault of config/db/manager.go and of its repository.
use mathlib.Core.List.{Memᴰ}
use text.Mathlib.Text.{◌==◌ as str_eq}
use image_bed.Configs.{ConfigDb, SystemConfig, config_schema}
use image_bed.Gorm.{scoped, update_where}
use image_bed.Gorm.Pairs.{AllPairs}
use image_bed.Prelude.{Every, List, String, false, if◌then◌else◌, true, ℕ, ◌==◌, ◌∷◌, ◌≡◌}

-- A live row of the category is the default if and only if it has the id.
abbrev pub IsOnlyDefault : ℕ → String → SystemConfig → Type 0
IsOnlyDefault id category c =
    c.deleted ≡ false → str_eq c.category category ≡ true → c.is_default ≡ (c.id == id)

-- The two updates of SetDefault, on one row.
abbrev cleared : String → SystemConfig → SystemConfig
cleared category c =
    if scoped config_schema (λ d. str_eq d.category category) c
    then record c { is_default = false }
    else c

abbrev chosen : ℕ → SystemConfig → SystemConfig
chosen id c = if scoped config_schema (λ d. d.id == id) c then record c { is_default = true } else c

abbrev both_updates : ℕ → String → List SystemConfig → List SystemConfig
both_updates id category t =
    update_where (scoped config_schema (λ c. c.id == id)) (λ c. record c { is_default = true })
      (update_where (scoped config_schema (λ c. str_eq c.category category))
        (λ c. record c { is_default = false }) t)

-- The updates change no column but `is_default`, and that only in the category or in the row chosen.
abbrev pub OnlyFlags : ℕ → String → SystemConfig → SystemConfig → Type 0
OnlyFlags id category c d =
    (d ≡ record c { is_default = d.is_default })
    × (str_eq c.category category ≡ false → (c.id == id) ≡ false → d ≡ c)

-- What a successful SetDefault has done, for the row that it found.
pub record IsMadeDefault (id : ℕ) (config : SystemConfig) (before later : ConfigDb) : Type 0 where
  pub found : Memᴰ config before.rows
  pub is_live : config.deleted ≡ false
  pub has_id : config.id ≡ id
  pub made : Memᴰ (record config { is_default = true }) later.rows
  pub only : Every (IsOnlyDefault id config.category) later.rows
  pub flags : AllPairs (OnlyFlags id config.category) before.rows later.rows
  pub dropped : (others : List String) × (later.invalidated ≡ config.category ∷ others)

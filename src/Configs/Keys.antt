-- ===== src/Configs/Keys.antt =====
-- EnsureKeyUnique of database/repo/configs.
use mathlib.Core.Path.{subst}
use text.Mathlib.Text.{◌==◌ as str_eq}
use image_bed.Auth.{and_then-ok}
use image_bed.Configs.{
  ConfigDb, ConfigEnv, SystemConfig, config_schema, ensure_key_unique, key_exists, unique_key,
}
use image_bed.Errors.{err-ne-ok, ok, ok-injective}
use image_bed.Gorm.{scoped}
use image_bed.Gorm.Outcomes.{count-ok, count-zero}
use image_bed.Prelude.{
  Bool-cases, Every, List, String, ap, arith, false, inl, inr, refl, suc, sym, zero, ℕ, ◌==◌, ◌∙◌,
  ◌≡◌,
}
use image_bed.Text.{decimal, ◌⧺◌}

module _ (env : ConfigEnv) where
  -- No row that is not deleted has the key, in whatever case.
  abbrev pub IsFree : String → List SystemConfig → Type 0
  IsFree key t =
      Every (λ c. scoped config_schema (λ d. str_eq (env.lower d.key) (env.lower key)) c ≡ false) t

  key_exists-zero :
      (key : String) (db : ConfigDb) (n : ℕ)
      → (key_exists env key db).0 ≡ ok n
      → n ≡ 0
      → IsFree key db.rows
  unfolding key_exists
  key_exists-zero key db n e none_left =
      count-zero _ db.rows (sym (count-ok config_schema env.configs _ _ db.rows n e) ∙ none_left)

  unique_key-IsFree :
      (rounds i : ℕ) (base_key start key : String) (db : ConfigDb)
      → (unique_key env rounds i base_key start db).0 ≡ ok key
      → IsFree key db.rows × ((unique_key env rounds i base_key start db).1.rows ≡ db.rows)
  unfolding unique_key key_exists
  unique_key-IsFree zero i base_key start key db e = absurd (err-ne-ok e)
  unique_key-IsFree (suc rounds) i base_key start key db e =
      let (n, (counted, (rest, s1))) = and_then-ok _ _ key e in
      let later = unique_key-IsFree rounds (suc i) base_key (base_key ⧺ "_" ⧺ decimal i) key in
      elim (Bool-cases (n == 0)) [
        | inl zero_rows ↦
            let same : start ≡ key = ok-injective (sym (rw zero_rows refl) ∙ rest) in
            (
              subst (λ k. IsFree k db.rows) same
                  (key_exists-zero start db n counted (ground (arith, zero_rows))),
              ap (λ x. x.rows) s1 ∙ rw zero_rows refl,
            )
        | inr taken ↦
            let (is_free, same_rows) =
              later (key_exists env start db).1 (sym (rw taken refl) ∙ rest) in
            (is_free, ap (λ x. x.rows) s1 ∙ rw taken same_rows)
      ]

  -- A key from EnsureKeyUnique is one that no row that is not deleted has, in whatever case, and
  -- looking for it changes no row.
  pub ensure_key_unique-IsFree :
      (base_key key : String) (db : ConfigDb)
      → (ensure_key_unique env base_key db).0 ≡ ok key
      → IsFree key db.rows × ((ensure_key_unique env base_key db).1.rows ≡ db.rows)
  unfolding ensure_key_unique
  ensure_key_unique-IsFree base_key key db e = unique_key-IsFree 999 1 base_key base_key key db e

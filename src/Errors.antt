-- ===== src/Errors.antt =====
-- Go's `(value, error)` results. An error is gorm's `ErrRecordNotFound`, which the code tests for,
-- or any other one, of which only the text is read.
use image_bed.Prelude.{String, some, ◌≡◌}
use image_bed.Text.{◌⧺◌}

pub data Error : Type 0 where
  record_not_found : Error
  message : String → Error

pub data Result {ℓ} (A : Type ℓ) : Type ℓ where
  ok : A → Result A
  err : Error → Result A

abbrev pub map_result {ℓ κ} : {A : Type ℓ} {B : Type κ} → (A → B) → Result A → Result B
map_result f (ok a) = ok (f a)
map_result f (err e) = err e

-- `err.Error()`
abbrev pub error_text : Error → String
error_text record_not_found = "record not found"
error_text (message s) = s

-- `fmt.Errorf("what: %w", err)`, read only for its text
abbrev pub wrap : String → Error → Error
wrap what e = message (what ⧺ error_text e)

pub ok-injective : {A : Type 0} {a b : A} → ok a ≡ ok b → a ≡ b
ok-injective e = cc

pub err-ne-ok : {A : Type 0} {e : Error} {a : A} → err e ≡ ok a → ⊥
err-ne-ok e = absurd cc

pub some-injective : {A : Type 0} {a b : A} → some a ≡ some b → a ≡ b
some-injective e = cc

pub err-injective : {A : Type 0} {e f : Error} → ◌≡◌ {A = Result A} (err e) (err f) → e ≡ f
err-injective h = cc

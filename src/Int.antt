-- ===== src/Int.antt =====
-- Signed integers where the code can go below zero, over the native numbers; and 64-bit words read
-- as two's complement.
pub mod Bounds
use image_bed.Prelude.{Bool, if◌then◌else◌, leb, ltb, ℕ, ◌%◌, ◌*◌, ◌+◌, ◌-◌, ◌^◌}

-- `negsuc n` is -(n + 1).
pub data ℤ : Type 0 where
  pos : ℕ → ℤ
  negsuc : ℕ → ℤ

-- a - b, as an integer
abbrev pub sub_ℕ : ℕ → ℕ → ℤ
sub_ℕ a b = if leb b a then pos (a - b) else negsuc (b - a - 1)

-- the smaller of an integer and a number
abbrev pub min_pos : ℤ → ℕ → ℤ
min_pos (pos a) b = if leb a b then pos a else pos b
min_pos (negsuc a) b = negsuc a

-- An int64 as its bit pattern, a number below 2 ^ 64.
abbrev pub int64_mod : ℕ
int64_mod = 2 ^ 64

abbrev flip_sign : ℕ → ℕ
flip_sign a = (a + 2 ^ 63) % int64_mod

abbrev pub lt64 : ℕ → ℕ → Bool
lt64 a b = ltb (flip_sign a) (flip_sign b)

abbrev pub le64 : ℕ → ℕ → Bool
le64 a b = leb (flip_sign a) (flip_sign b)

abbrev pub mul64 : ℕ → ℕ → ℕ
mul64 a b = (a * b) % int64_mod

-- ===== src/Int/Bounds.antt =====
-- Bounds of the integer operations.
use image_bed.Int.{min_pos, negsuc, pos, sub_ℕ}
use image_bed.Prelude.{Bool-cases, arith, inl, inr, leb, refl, ℕ, ◌-◌, ◌<◌, ◌≡◌, ◌≤◌}

pub sub_ℕ-within : (a b : ℕ) → b ≤ a → sub_ℕ a b ≡ pos (a - b)
sub_ℕ-within a b h = ground arith

pub sub_ℕ-below : (a b : ℕ) → a < b → sub_ℕ a b ≡ negsuc (b - a - 1)
sub_ℕ-below a b h = ground arith

pub min_pos-bounds :
    (a b : ℕ) → 0 < a → 0 < b → (q : ℕ) × (min_pos (pos a) b ≡ pos q) × (0 < q) × (q ≤ b)
min_pos-bounds a b pa pb = elim (Bool-cases (leb a b)) [
  | inl e ↦ (a, rw e refl, pa, ground arith)
  | inr e ↦ (b, rw e refl, pb, omega arith)
]

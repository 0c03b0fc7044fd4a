-- ===== src/Pipeline/Decide/Bounds.antt =====
-- Bounds of the decisions: where the products of the AVIF test stay below 2 ^ 63, and what quality is
-- handed to the WebP encoder.
use image_bed.Int.{negsuc, pos}
use image_bed.Int.Bounds.{min_pos-bounds, sub_ℕ-below, sub_ℕ-within}
use image_bed.Pipeline.Decide.{
  ImageComplexity, adaptive_webp_quality, high, low, medium, should_keep_avif,
}
use image_bed.Prelude.{
  Bool-cases, arith, inl, inr, refl, true, ℕ, ◌*◌, ◌+◌, ◌-◌, ◌<◌, ◌==◌, ◌^◌, ◌↔◌, ◌≡◌, ◌≤◌, ◌⊎◌,
}

-- For sizes of which neither is negative and whose products with 100 and 95 fit an int64, an AVIF is
-- kept exactly if it is not empty and either there is nothing to compare it with or the bytes that
-- it saves are more than 5 percent of the baseline.
pub should_keep_avif-exact :
    (candidate_size baseline_size : ℕ)
    → candidate_size * 100 < 2 ^ 63
    → baseline_size * 95 < 2 ^ 63
    → (should_keep_avif candidate_size baseline_size ≡ true) ↔ (
        (0 < candidate_size)
        × ((baseline_size ≡ 0) ⊎ (baseline_size * 5 < (baseline_size - candidate_size) * 100)))
unfolding should_keep_avif
should_keep_avif-exact c b small_c small_b = ground arith

-- The quality for a WebP of a base quality above 10 lies between 1 and 100, as the configuration's
-- own bounds have it, whatever the image's complexity.
pub adaptive_webp_quality-bounds :
    (c : ImageComplexity) (base_quality : ℕ)
    → 10 < base_quality
    → base_quality ≤ 100
    → (q : ℕ) × (adaptive_webp_quality c base_quality ≡ pos q) × (0 < q) × (q ≤ 100)
unfolding adaptive_webp_quality
adaptive_webp_quality-bounds low b above below =
    let (q, e, p, le) = min_pos-bounds (b - 10) 75 (omega arith) (omega arith) in
    (q, rw (sub_ℕ-within b 10 (omega arith)) e, p, omega arith)
adaptive_webp_quality-bounds medium b above below = (b, refl, omega arith, below)
adaptive_webp_quality-bounds high b above below =
    let (q, e, p, le) = min_pos-bounds (b + 5) 90 (omega arith) (omega arith) in
    (q, e, p, omega arith)

-- Of a base quality from 1 to 10, which the configuration admits too, an image of low complexity
-- gets a quality of zero or below.
pub adaptive_webp_quality-underflows :
    (base_quality : ℕ)
    → 0 < base_quality
    → base_quality ≤ 10
    → ((q : ℕ) × (adaptive_webp_quality low base_quality ≡ negsuc q))
      ⊎ (adaptive_webp_quality low base_quality ≡ pos 0)
unfolding adaptive_webp_quality
adaptive_webp_quality-underflows b above below = elim (Bool-cases (b == 10)) [
  | inl e ↦ let ten : b ≡ 10 = ground arith in inr (rw ten refl)
  | inr e ↦ inl (10 - b - 1, rw (sub_ℕ-below b 10 (ground arith)) refl)
]

-- ===== src/Configs/Merging.antt =====
-- mergeConfig and MaskSensitiveData of config/db.
use text.Mathlib.Text.{◌==◌ as str_eq}
use text.Mathlib.TextEquality.{eq_iff}
use mathlib.Core.Path.{subst}
use image_bed.Configs.{
  ConfigMap, Value, is_masked, is_sensitive, mask_sensitive_data, merge_maps, string_value,
  value_at,
}
use image_bed.Prelude.{
  Bool, Bool-cases, Option, String, [], ap, false, if◌then◌else◌, inl, inr, none, refl, some, true,
  ◌∙◌, ◌∷◌, ◌≡◌,
}

-- The keys of a map are distinct.
abbrev pub Distinct : ConfigMap → Type 0
Distinct [] = Unit
Distinct ((k, v) ∷ rest) = (value_at k rest ≡ none) × Distinct rest

-- What a merged map has at a key, for what the new and the old map have there.
abbrev pub overlaid : Option Value → Option Value → Option Value
overlaid none old = old
overlaid (some v) old = if is_masked v then old else some v

-- A merge takes each value of the new map that is not "******", and keeps the old map's value
-- elsewhere, where the keys of the new map are distinct.
pub merge_maps-overlays :
    (existing update : ConfigMap)
    → Distinct update
    → (key : String)
    → value_at key (merge_maps existing update)
      ≡ overlaid (value_at key update) (value_at key existing)
unfolding merge_maps value_at
merge_maps-overlays existing [] distinct key = refl
merge_maps-overlays existing ((k, v) ∷ rest) (own, distinct) key =
    let later = merge_maps-overlays existing rest distinct key in
    elim (Bool-cases (str_eq k key)) [
      | inl hit ↦
          let same : k ≡ key = (eq_iff k key).0 hit in
          let no_more : value_at key rest ≡ none = subst (λ x. value_at x rest ≡ none) same own in
          elim (Bool-cases (is_masked v)) [
            | inl hidden ↦
                rw (hidden, hit, hidden)
                  (later ∙ ap (λ o. overlaid o (value_at key existing)) no_more)
            | inr open_value ↦ rw (open_value, hit, open_value) refl
          ]
      | inr miss ↦ elim (Bool-cases (is_masked v)) [
        | inl hidden ↦ rw (hidden, miss) later
        | inr open_value ↦ rw (open_value, miss) later
      ]
    ]

module _ (equal_fold : String → String → Bool) where
  -- What a masked map has at a key.
  abbrev pub veiled : String → Option Value → Option Value
  veiled key none = none
  veiled key (some v) = some (if is_sensitive equal_fold key then string_value "******" else v)

  value_at-mask :
      (key : String) (m : ConfigMap)
      → value_at key (mask_sensitive_data equal_fold m) ≡ veiled key (value_at key m)
  unfolding value_at mask_sensitive_data
  value_at-mask key [] = refl
  value_at-mask key ((k, v) ∷ rest) = elim (Bool-cases (str_eq k key)) [
    | inl hit ↦
        let same : k ≡ key = (eq_iff k key).0 hit in
        rw hit
          (ap (λ x. some (if is_sensitive equal_fold x then string_value "******" else v)) same)
    | inr miss ↦ rw miss (value_at-mask key rest)
  ]

  mask-Distinct : (m : ConfigMap) → Distinct m → Distinct (mask_sensitive_data equal_fold m)
  unfolding mask_sensitive_data
  mask-Distinct [] d = tt
  mask-Distinct ((k, v) ∷ rest) (own, d) =
      (value_at-mask k rest ∙ ap (veiled k) own, mask-Distinct rest d)

  unveiled : (key : String) (o : Option Value) → overlaid (veiled key o) o ≡ o
  unveiled key none = refl
  unveiled key (some v) = elim (Bool-cases (is_sensitive equal_fold key)) [
    | inl hidden ↦ rw hidden refl
    | inr plain ↦ elim (Bool-cases (is_masked v)) [
      | inl stars ↦ rw (plain, stars) refl
      | inr open_value ↦ rw (plain, open_value) refl
    ]
  ]

  -- Stars for whatever value there is.
  abbrev pub starred : Option Value → Option Value
  starred none = none
  starred (some v) = some (string_value "******")

  veiled-starred :
      (key : String) (o : Option Value)
      → is_sensitive equal_fold key ≡ true
      → veiled key o ≡ starred o
  veiled-starred key none sensitive = refl
  veiled-starred key (some v) sensitive = rw sensitive refl

  veiled_same :
      (key : String) (o : Option Value) → is_sensitive equal_fold key ≡ false → veiled key o ≡ o
  veiled_same key none plain = refl
  veiled_same key (some v) plain = rw plain refl

  -- Sending a masked configuration back changes nothing: a map with distinct keys, merged with its
  -- own copy from MaskSensitiveData, has at every key what it had. The copy has "******" in place of
  -- the value of each key that the list of sensitive fields names, and the map's own value, or none,
  -- at every other key.
  pub mask_sensitive_data-merges :
      (m : ConfigMap) (key : String)
      → Distinct m
      → (value_at key (merge_maps m (mask_sensitive_data equal_fold m)) ≡ value_at key m)
        × ((is_sensitive equal_fold key ≡ true
              → value_at key (mask_sensitive_data equal_fold m) ≡ starred (value_at key m))
            × (is_sensitive equal_fold key ≡ false
                → value_at key (mask_sensitive_data equal_fold m) ≡ value_at key m))
  mask_sensitive_data-merges m key d = (
    merge_maps-overlays m (mask_sensitive_data equal_fold m) (mask-Distinct m d) key
        ∙ ap (λ o. overlaid o (value_at key m)) (value_at-mask key m)
        ∙ unveiled key (value_at key m),
    (
      λ sensitive. value_at-mask key m ∙ veiled-starred key (value_at key m) sensitive,
      λ plain. value_at-mask key m ∙ veiled_same key (value_at key m) plain,
    ),
  )

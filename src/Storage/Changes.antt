-- ===== src/Storage/Changes.antt =====
-- Sequences of changes of the registry, and the one that breaks it.
use mathlib.Core.Path.{subst}
use image_bed.Errors.{ok}
use image_bed.Prelude.{
  Bool, List, [], arith, false, not, refl, some, sym, true, ℕ, ◌&&◌, ◌==◌, ◌||◌, ◌∙◌, ◌∷◌, ◌≡◌, ◌≢◌,
}
use image_bed.Storage.{
  Constructors, RegistryState, StorageConfig, add_or_update_provider, create_provider, get_by_id,
  get_default, get_default_id, init_storage, provider_of, put, remove_provider, set_default_id,
  with_provider,
}
use image_bed.Storage.Default.{
  IsConsistent, distinct_ids, init_storage-Consistent, provider_of-put, remove_provider-Consistent,
  set_default_id-Consistent, with_provider-Consistent,
}

get_by_id-found :
    {P : Type 0} (id : ℕ) (s : RegistryState P) (p : P)
    → provider_of id s.providers ≡ some p
    → get_by_id id s ≡ ok p
unfolding get_by_id
get_by_id-found id s p e = rw (get_by_id, e) refl

some-injective : {P : Type 0} {a b : P} → some a ≡ some b → a ≡ b
some-injective e = cc

-- What the rest of the program asks of the registry.
pub data Change : Type 0 where
  initialises : List StorageConfig → Change
  adds_or_updates : StorageConfig → Change
  removes sets_default : ℕ → Change

module _ {P : Type 0} (c : Constructors P) where
  abbrev pub change : Change → RegistryState P → RegistryState P
  change (initialises cfgs) r = (init_storage c cfgs r).1
  change (adds_or_updates cfg) r = (add_or_update_provider c cfg r).1
  change (removes id) r = (remove_provider id r).1
  change (sets_default id) r = (set_default_id id r).1

  -- Configs have different ids, and an update of the default's config still says that it is it.
  abbrev pub is_proper : Change → RegistryState P → Bool
  is_proper (initialises cfgs) r = distinct_ids [] cfgs
  is_proper (adds_or_updates cfg) r = not (cfg.id == r.default_id) || cfg.is_default
  is_proper (removes id) r = true
  is_proper (sets_default id) r = true

  abbrev pub change_all : List Change → RegistryState P → RegistryState P
  change_all [] r = r
  change_all (x ∷ xs) r = change_all xs (change x r)

  abbrev pub are_proper : List Change → RegistryState P → Bool
  are_proper [] r = true
  are_proper (x ∷ xs) r = let rest = are_proper xs (change x r) in is_proper x r && rest

  change-Consistent :
      (x : Change) (r : RegistryState P)
      → is_proper x r ≡ true
      → IsConsistent r
      → IsConsistent (change x r)
  unfolding add_or_update_provider
  change-Consistent (initialises cfgs) r proper k = init_storage-Consistent c cfgs r proper k
  change-Consistent (adds_or_updates cfg) r proper k =
      with_provider-Consistent cfg (create_provider c cfg) r (λ same. ground (arith, proper, same))
        k
  change-Consistent (removes id) r proper k = remove_provider-Consistent id r k
  change-Consistent (sets_default id) r proper k = set_default_id-Consistent id r k

  -- From a registry whose default provider is the one that its table has for the default id, any
  -- sequence of initialisations, additions, updates, removals and changes of the default leads to such
  -- a registry, where configs have different ids and each update of the default's own config carries
  -- the default flag.
  pub change_all-Consistent :
      (xs : List Change) (r : RegistryState P)
      → are_proper xs r ≡ true
      → IsConsistent r
      → IsConsistent (change_all xs r)
  change_all-Consistent [] r proper k = k
  change_all-Consistent (x ∷ xs) r proper k =
      let now : is_proper x r ≡ true = ground (arith, proper) in
      let later : are_proper xs (change x r) ≡ true = ground (arith, proper) in
      change_all-Consistent xs (change x r) later (change-Consistent x r now k)

  -- Without the flag, an update of the default's config leaves GetDefault at the provider from
  -- before: where the new provider is another one, the default is not what GetByID gives for its id.
  pub add_or_update_provider-diverges :
      (cfg : StorageConfig) (old new : P) (r : RegistryState P)
      → create_provider c cfg ≡ ok new
      → cfg.id ≡ r.default_id
      → cfg.is_default ≡ false
      → r.default_provider ≡ some old
      → old ≢ new
      → let after = (add_or_update_provider c cfg r).1 in
        (get_default after ≡ some old)
        × (get_by_id (get_default_id after) after ≡ ok new)
        × ¬ IsConsistent after
  unfolding add_or_update_provider with_provider get_default get_default_id
  add_or_update_provider-diverges cfg old new r created own unflagged was differ =
      subst Diverges (sym (rw (created, unflagged) refl)) (
        was,
        get_by_id-found r.default_id after new found,
        λ k. differ (some-injective (sym (k.agrees old was) ∙ found)),
      )
    where
      after : RegistryState P
      after = record r { providers = put cfg.id new r.providers }

      Diverges : RegistryState P → Type 0
      Diverges s =
          (get_default s ≡ some old) × (get_by_id (get_default_id s) s ≡ ok new) × ¬ IsConsistent s

      same : (cfg.id == r.default_id) ≡ true
      same = ground (arith, own)

      found : provider_of r.default_id (put cfg.id new r.providers) ≡ some new
      found = provider_of-put cfg.id r.default_id new r.providers ∙ rw same refl

-- ===== src/Storage/Default.antt =====
-- The default provider against the table of providers.
use image_bed.Errors.{Result, err, ok}
use image_bed.Prelude.{
  ==_refl, Bool, Bool-cases, List, Option, [], arith, false, if◌then◌else◌, inl, inr, mem, none,
  not, refl, some, true, ℕ, ◌&&◌, ◌==◌, ◌∙◌, ◌∷◌, ◌≡◌, ◌≢◌,
}
use image_bed.Storage.{
  Constructors, RegistryState, StorageConfig, create_provider, empty_registry, init_all,
  init_provider, init_storage, provider_of, put, remove_found, remove_provider, set_default_id,
  set_found, settle_default, with_provider, without_provider,
}

-- The ids of the configs are keys of their table.
abbrev pub distinct_ids : List ℕ → List StorageConfig → Bool
distinct_ids seen [] = true
distinct_ids seen (cfg ∷ cfgs) = not (mem cfg.id seen) && distinct_ids (cfg.id ∷ seen) cfgs

module _ {P : Type 0} where
  -- The default provider is the one that GetByID gives for the default id.
  pub record IsConsistent (r : RegistryState P) : Type 0 where
    pub agrees :
        (p : P) → r.default_provider ≡ some p → provider_of r.default_id r.providers ≡ some p

  provider_of-without :
      (id k : ℕ) (t : List (ℕ × P))
      → provider_of k (without_provider id t) ≡ (if id == k then none else provider_of k t)
  provider_of-without id k [] = ground arith
  provider_of-without id k ((i, p) ∷ t) = ground (arith, provider_of-without id k t)

  pub provider_of-put :
      (id k : ℕ) (p : P) (t : List (ℕ × P))
      → provider_of k (put id p t) ≡ (if id == k then some p else provider_of k t)
  provider_of-put id k p t = elim (Bool-cases (id == k)) [
    | inl e ↦ rw e refl
    | inr e ↦ rw e (provider_of-without id k t ∙ rw e refl)
  ]

  -- A provider put in for the default, or for another id.
  put_default-Consistent :
      (id : ℕ) (p : P) (r : RegistryState P)
      → IsConsistent
          (record { providers = put id p r.providers; default_provider = some p; default_id = id })
  put_default-Consistent id p r = record {
    agrees = λ q h. rw (provider_of-put id id p r.providers, ==_refl id) h;
  }

  put_other-Consistent :
      (id : ℕ) (p : P) (r : RegistryState P)
      → ((q : P) → r.default_provider ≡ some q → id ≢ r.default_id)
      → IsConsistent r
      → IsConsistent (record r { providers = put id p r.providers })
  put_other-Consistent id p r other k = record {
    agrees = λ q h.
        let away : (id == r.default_id) ≡ false = ground (arith, other q h) in
        rw (provider_of-put id r.default_id p r.providers, away) (k.agrees q h);
  }

  pub with_provider-Consistent :
      (cfg : StorageConfig) (made : Result P) (r : RegistryState P)
      → (cfg.id ≡ r.default_id → cfg.is_default ≡ true)
      → IsConsistent r
      → IsConsistent (with_provider cfg made r).1
  unfolding with_provider
  with_provider-Consistent cfg (err e) r flagged k = k
  with_provider-Consistent cfg (ok p) r flagged k = elim (Bool-cases cfg.is_default) [
    | inl e ↦ rw e (put_default-Consistent cfg.id p r)
    | inr e ↦ rw e (put_other-Consistent cfg.id p r (λ q h same. cc (flagged same, e)) k)
  ]

  pub remove_provider-Consistent :
      (id : ℕ) (r : RegistryState P) → IsConsistent r → IsConsistent (remove_provider id r).1
  unfolding remove_provider remove_found
  remove_provider-Consistent id r k = go (provider_of id r.providers)
    where
      go : (found : Option P) → IsConsistent (remove_found id found r).1
      go none = k
      go (some p) = elim (Bool-cases (id == r.default_id)) [
        | inl same ↦ rw same k
        | inr other ↦ rw other (record {
          agrees =
              λ q h. rw (provider_of-without id r.default_id r.providers, other) (k.agrees q h);
        })
      ]

  pub set_default_id-Consistent :
      (id : ℕ) (r : RegistryState P) → IsConsistent r → IsConsistent (set_default_id id r).1
  unfolding set_default_id set_found
  set_default_id-Consistent id r k = go (provider_of id r.providers) refl
    where
      go :
          (found : Option P)
          → provider_of id r.providers ≡ found
          → IsConsistent (set_found id found r).1
      go none e = k
      go (some p) e = record { agrees = λ q h. e ∙ h }

  -- Between the configs of the loop, of which the ids `seen` are behind it.
  record Seeded (seen : List ℕ) (r : RegistryState P) : Type 0 where
    known : (q : P) → r.default_provider ≡ some q → mem r.default_id seen ≡ true
    consistent : IsConsistent r

  init_provider-Seeded :
      (seen : List ℕ) (cfg : StorageConfig) (new : Result P) (next : RegistryState P)
      → mem cfg.id seen ≡ false
      → Seeded seen next
      → Seeded (cfg.id ∷ seen) (init_provider cfg new next)
  unfolding init_provider
  init_provider-Seeded seen cfg (err e) next unseen k = record {
    known = λ q h. ground (arith, k.known q h);
    consistent = k.consistent;
  }
  init_provider-Seeded seen cfg (ok p) next unseen k = elim (Bool-cases cfg.is_default) [
    | inl e ↦
        rw e (record {
          known = λ q h. ground arith;
          consistent = put_default-Consistent cfg.id p next;
        })
    | inr e ↦ rw e (record {
      known = λ q h. ground (arith, k.known q h);
      consistent =
          put_other-Consistent cfg.id p next (λ q h same. cc (k.known q h, unseen, same))
            k.consistent;
    })
  ]

  init_all-Consistent :
      (c : Constructors P) (cfgs : List StorageConfig) (seen : List ℕ) (next : RegistryState P)
      → distinct_ids seen cfgs ≡ true
      → Seeded seen next
      → IsConsistent (init_all c cfgs next)
  unfolding init_all
  init_all-Consistent c [] seen next keys k = k.consistent
  init_all-Consistent c (cfg ∷ cfgs) seen next keys k =
      init_all-Consistent c cfgs (cfg.id ∷ seen) (init_provider cfg (create_provider c cfg) next)
        (ground (arith, keys))
        (init_provider-Seeded seen cfg (create_provider c cfg) next (ground (arith, keys)) k)

  pub init_storage-Consistent :
      (c : Constructors P) (cfgs : List StorageConfig) (r : RegistryState P)
      → distinct_ids [] cfgs ≡ true
      → IsConsistent r
      → IsConsistent (init_storage c cfgs r).1
  unfolding init_storage settle_default
  init_storage-Consistent c cfgs r keys k = go (init_all c cfgs empty_registry).default_provider
    where
      next : IsConsistent (init_all c cfgs empty_registry)
      next =
          init_all-Consistent c cfgs [] empty_registry keys
            (record { known = λ q h. absurd cc; consistent = record { agrees = λ q h. absurd cc } })

      go :
          (found : Option P)
          → IsConsistent (settle_default c cfgs found (init_all c cfgs empty_registry) r).1
      go none = k
      go (some p) = next

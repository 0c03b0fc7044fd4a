-- ===== src/Auth/Sessions.antt =====
-- The devices after a rotation, and what a lookup of a session finds among them.
use mathlib.Core.List.{Memᴰ}
use text.Mathlib.Text.{◌==◌ as str_eq}
use text.Mathlib.TextEquality.{eq_iff}
use image_bed.Auth.{AuthDb, AuthEnv, Device, and_then-ok, device_schema}
use image_bed.Auth.Devices.{
  get_device_by_refresh_token_and_device_id, has_device_id, is_session, new_device, optional,
  roll_back_devices, rotate_refresh_token, rotate_statements,
}
use image_bed.Errors.{Result, err, err-ne-ok, message, ok, ok-injective, record_not_found}
use image_bed.Gorm.{scoped, update_where}
use image_bed.Gorm.Outcomes.{Every-delete, create-ok, delete-ok}
use image_bed.Pipeline.Ownership.Settled.{fresh}
use image_bed.Prelude.{
  Bool-cases, Every, Every-append, List, String, [], ap, arith, false, inl, inr, none, refl, some,
  sym, true, ℕ, ◌++◌, ◌∙◌, ◌∷◌, ◌≡◌, ◌≢◌,
}
use image_bed.Services.Triples.{kept}
use image_bed.Uploads.Lookup.{Every-at, first-member}

-- No live device answers to the hash and the device id, at whatever time.
abbrev pub IsEnded : String → String → List Device → Type 0
IsEnded hashed device_id t =
    (now : ℕ) → Every (λ d. scoped device_schema (is_session hashed device_id now) d ≡ false) t

optional-some :
    {A : Type 0} (x : Result A × AuthDb) (a : A) → (optional x).0 ≡ ok (some a) → x.0 ≡ ok a
optional-some (ok b, db) a e = let same : some b ≡ some a = ok-injective e in cc
optional-some (err record_not_found, db) a e =
    let never : none ≡ some a = ok-injective e in absurd cc
optional-some (err (message s), db) a e = absurd (err-ne-ok e)

pub differs_rule : (s t : String) → s ≢ t → str_eq s t ≡ false
differs_rule s t n = elim (Bool-cases (str_eq s t)) [
  | inl e ↦ absurd (n ((eq_iff s t).0 e))
  | inr e ↦ e
]

module _ (env : AuthEnv) where
  -- A device that a lookup gives is among the devices, and its session is the one asked for.
  pub lookup-some :
      (token device_id : String) (db : AuthDb) (device : Device)
      → (get_device_by_refresh_token_and_device_id env token device_id db).0 ≡ ok (some device)
      → Memᴰ device db.devices
        × (scoped device_schema (is_session (env.sha256 token) device_id (env.now db.sent)) device
            ≡ true)
  unfolding get_device_by_refresh_token_and_device_id
  lookup-some token device_id db device e =
      let p = is_session (env.sha256 token) device_id (env.now db.sent) in
      let found = optional-some _ device e in
      elim (env.devices.first_law db.sent p db.devices) [
        | inl (why, f) ↦ absurd (err-ne-ok {e = message why} (sym f ∙ found))
        | inr f ↦ first-member _ device db.devices (sym f ∙ found)
      ]

  pub lookup-IsEnded :
      (token device_id : String) (db : AuthDb) (device : Device)
      → IsEnded (env.sha256 token) device_id db.devices
      → (get_device_by_refresh_token_and_device_id env token device_id db).0 ≢ ok (some device)
  lookup-IsEnded token device_id db device ended e =
      let (m, hit) = lookup-some token device_id db device e in
      let miss = Every-at _ device db.devices (ended (env.now db.sent)) m in
      let never : true ≡ false = sym hit ∙ miss in absurd cc

  roll_back-ok :
      (before : AuthDb) (r : Result (Unit {0}) × AuthDb)
      → (roll_back_devices env before r).0 ≡ ok tt
      → (r.0 ≡ ok tt) × ((roll_back_devices env before r).1 ≡ r.1)
  unfolding roll_back_devices
  roll_back-ok before (ok a, db) e = (e, refl)
  roll_back-ok before (err why, db) e = absurd (err-ne-ok e)

  -- A rotation that succeeds leaves the old devices deleted and the new one at the end.
  pub rotate-ok :
      (user_id : ℕ) (device_id fresh : String) (expiry : ℕ) (db : AuthDb)
      → (rotate_refresh_token env user_id device_id fresh expiry db).0 ≡ ok tt
      → (i : ℕ) × ((rotate_refresh_token env user_id device_id fresh expiry db).1.devices
          ≡ update_where
              (scoped device_schema (has_device_id device_id))
              device_schema.mark_deleted
              db.devices
            ++ device_schema.set_id i (new_device user_id device_id (env.sha256 fresh) expiry) ∷ [])
  unfolding rotate_refresh_token rotate_statements
  rotate-ok user_id device_id fresh expiry db e =
      let (statements, kept) = roll_back-ok db _ e in
      let (n, (deletes, (rest, end1))) = and_then-ok _ _ tt statements in
      let (d, (creates, (_, end2))) = and_then-ok _ _ tt rest in
      let (_, gone) = delete-ok device_schema env.devices _ _ _ n deletes in
      let (i, (_, made_it)) = create-ok device_schema env.devices _ _ _ d creates in
      (
        i,
        ap (λ x. x.devices) (kept ∙ end1 ∙ end2)
            ∙ made_it
            ∙ ap
                (λ t.
                  t
                  ++ device_schema.set_id i (new_device user_id device_id (env.sha256 fresh) expiry)
                    ∷ [])
                gone,
      )

  pub rotated-IsEnded :
      (hashed device_id : String) (d : Device) (t : List Device)
      → str_eq d.refresh_token hashed ≡ false
      → IsEnded hashed device_id (
          update_where (scoped device_schema (has_device_id device_id)) device_schema.mark_deleted t
          ++ d ∷ [])
  rotated-IsEnded hashed device_id d t other now =
      Every-append _ _ (d ∷ [])
        (Every-delete device_schema (has_device_id device_id) (is_session hashed device_id now)
          (λ r e. ground (arith, e)) (λ r. refl) t)
        (ground (arith, other), tt)

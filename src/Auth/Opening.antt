-- ===== src/Auth/Opening.antt =====
-- Login of internal/auth/login_service.go, and the lookup of the session that it opens.
use mathlib.Core.Path.{subst}
use text.Mathlib.Text.{◌==◌ as str_eq}
use text.Mathlib.TextEquality.{eq_iff}
use text.Mathlib.TextPositions.{eq_refl}
use image_bed.Auth.{
  AuthDb, AuthEnv, Device, TokenConfig, User, and_then-ok, device_schema, with_error-ok,
}
use image_bed.Auth.Devices.{
  create_login_device, forget, get_device_by_refresh_token_and_device_id, is_session, need_device,
  new_device, optional,
}
use image_bed.Auth.Login.{LoginResult, login, login_user}
use image_bed.Auth.Sessions.{differs_rule}
use image_bed.Errors.{Result, err, err-ne-ok, ok, ok-injective}
use image_bed.Gorm.{Fails, Gorm, first_of_rows, scoped}
use image_bed.Gorm.Outcomes.{create-ok, select-last}
use image_bed.Prelude.{
  Bool, Bool-cases, Every, List, String, [], any, ap, arith, false, inl, inr, refl, some, suc, sym,
  true, ℕ, ◌++◌, ◌<◌, ◌∙◌, ◌∷◌, ◌≡◌, ◌⊎◌,
}

eq_symmetric : (s t : String) → str_eq s t ≡ str_eq t s
eq_symmetric s t = elim (Bool-cases (str_eq t s)) [
  | inl e ↦ (eq_iff s t).1 (sym ((eq_iff t s).0 e)) ∙ sym e
  | inr e ↦
      differs_rule s t
        (λ same. let hit : str_eq t s ≡ true = (eq_iff t s).1 (sym same) in absurd cc)
      ∙ sym e
]

-- The only row that a query covers is the one it gives.
first-last :
    (g : Gorm device_schema) (k : ℕ) (p : Device → Bool) (t : List Device) (d : Device)
    → Every (λ r. scoped device_schema p r ≡ false) t
    → scoped device_schema p d ≡ true
    → Fails (g.first k p (t ++ d ∷ [])) ⊎ (g.first k p (t ++ d ∷ []) ≡ ok d)
first-last g k p t d none_before hit = elim (g.first_law k p (t ++ d ∷ [])) [
  | inl failure ↦ inl failure
  | inr e ↦ inr (e ∙ ap first_of_rows (select-last (scoped device_schema p) t d none_before hit))
]

module _ (env : AuthEnv) (config : TokenConfig) where
  pub forget-ok :
      {A : Type 0} (x : Result A × AuthDb)
      → (forget x).0 ≡ ok tt
      → (a : A) × ((x.0 ≡ ok a) × ((forget x).1 ≡ x.1))
  forget-ok (ok a, db) e = (a, (refl, refl))
  forget-ok (err why, db) e = absurd (err-ne-ok e)

  pub need_device-ok :
      (x : Result ℕ × AuthDb)
      → (need_device env x).0 ≡ ok tt
      → (n : ℕ) × ((x.0 ≡ ok n) × ((need_device env x).1 ≡ x.1))
  unfolding need_device
  need_device-ok (ok n, db) e = (n, (refl, refl))
  need_device-ok (err why, db) e = absurd (err-ne-ok e)

  -- The device of a login, at the end of the devices, where no device has the same refresh token.
  created_device :
      (user_id : ℕ) (device_id token : String) (expiry : ℕ) (db : AuthDb)
      → (create_login_device env user_id device_id token expiry db).0 ≡ ok tt
      → (i : ℕ) × ((any
              (device_schema.clash (new_device user_id device_id (env.sha256 token) expiry))
              db.devices
            ≡ false)
          × ((create_login_device env user_id device_id token expiry db).1.devices
              ≡ db.devices
                ++ device_schema.set_id i (new_device user_id device_id (env.sha256 token) expiry)
                  ∷ []))
  unfolding create_login_device
  created_device user_id device_id token expiry db e =
      let (d, (creates, same)) = forget-ok _ e in
      let (i, (free, rows)) = create-ok device_schema env.devices _ _ _ d creates in
      (i, (free, ap (λ x. x.devices) same ∙ rows))

  unclashed :
      (d : Device) (device_id : String) (now : ℕ) (t : List Device)
      → any (device_schema.clash d) t ≡ false
      → Every (λ r. scoped device_schema (is_session d.refresh_token device_id now) r ≡ false) t
  unclashed d device_id now [] e = tt
  unclashed d device_id now (r ∷ t) e =
      let turned = eq_symmetric d.refresh_token r.refresh_token in
      (ground (arith, e, turned), unclashed d device_id now t (ground (arith, e)))

  -- The device that a login stores.
  abbrev stores : LoginResult → AuthDb → Result (Unit {0}) × AuthDb
  stores result =
      create_login_device env result.user.id result.device_id result.tokens.refresh_token
        result.tokens.refresh_token_expiry

  abbrev IsStored : Result LoginResult × AuthDb → LoginResult → Type 0
  IsStored login result =
      (before : AuthDb) × (((stores result before).0 ≡ ok tt)
        × (login.1 ≡ (stores result before).1))

  login_user-IsStored :
      (user : User) (result : LoginResult) (db : AuthDb)
      → (login_user env config user db).0 ≡ ok result
      → IsStored (login_user env config user db) result
  unfolding login_user
  login_user-IsStored user result db e =
      let (pair, (tokens, (rest, s1))) = and_then-ok _ _ result e in
      let (finished, (stored, (same, s2))) = and_then-ok _ _ result rest in
      let (answered, s3) = with_error-ok _ _ finished stored in
      subst (IsStored (login_user env config user db)) (ok-injective same)
        (_, (answered, s1 ∙ s2 ∙ s3))

  -- A successful login opens a session: until the refresh token expires, and as long as no other
  -- statement changes the devices, the refresh token and the device id that were given out lead to
  -- a device of the user, unless the query reports an error.
  pub login-opens :
      (username password : String) (result : LoginResult) (db later : AuthDb)
      → (login env config username password db).0 ≡ ok result
      → later.devices ≡ (login env config username password db).1.devices
      → env.now later.sent < result.tokens.refresh_token_expiry
      → Fails
          (get_device_by_refresh_token_and_device_id env result.tokens.refresh_token
            result.device_id later).0
        ⊎ ((device : Device) × ((get_device_by_refresh_token_and_device_id env
                result.tokens.refresh_token result.device_id later).0
              ≡ ok (some device))
            × (device.user_id ≡ result.user.id))
  unfolding login get_device_by_refresh_token_and_device_id
  login-opens username password result db later e kept_rows early =
      let (user, (_, (rest, s1))) = and_then-ok _ _ result e in
      let (before, (stored, s2)) = login_user-IsStored user result _ rest in
      let hashed = env.sha256 result.tokens.refresh_token in
      let fresh =
        new_device result.user.id result.device_id hashed result.tokens.refresh_token_expiry in
      let (i, (free, rows)) =
        created_device result.user.id result.device_id result.tokens.refresh_token
          result.tokens.refresh_token_expiry before stored in
      let table : later.devices ≡ before.devices ++ device_schema.set_id i fresh ∷ [] =
        kept_rows ∙ ap (λ x. x.devices) (s1 ∙ s2) ∙ rows in
      let session = is_session hashed result.device_id (env.now later.sent) in
      let answer =
        λ (r : Result Device). (optional (r, record later { sent = suc later.sent })).0 in
      let asked = ap (λ t. answer (env.devices.first later.sent session t)) table in
      elim (first-last env.devices later.sent session before.devices (device_schema.set_id i fresh)
        (unclashed fresh result.device_id (env.now later.sent) before.devices free)
        (rw (eq_refl hashed, eq_refl result.device_id) (ground (arith, early)))) [
          | inl (why, f) ↦ inl (why, asked ∙ ap answer f)
          | inr f ↦ inr (device_schema.set_id i fresh, asked ∙ ap answer f, refl)
        ]

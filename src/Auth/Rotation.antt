-- ===== src/Auth/Rotation.antt =====
-- RefreshToken of internal/auth/login_service.go.
use mathlib.Core.Path.{subst}
use text.Mathlib.Text.{◌==◌ as str_eq}
use text.Mathlib.TextEquality.{eq_iff}
use image_bed.Auth.{
  AuthDb, AuthEnv, Device, TokenConfig, and_then, and_then-ok, asks, with_error, with_error-ok,
}
use image_bed.Auth.Devices.{get_device_by_refresh_token_and_device_id}
use image_bed.Auth.Login.{RefreshResult, refresh_device, refresh_found, refresh_session}
use image_bed.Auth.Sessions.{
  IsEnded, differs_rule, lookup-IsEnded, lookup-some, rotate-ok, rotated-IsEnded,
}
use image_bed.Auth.Tokens.{access_claims, generate_access_token}
use image_bed.Errors.{Error, Result, err, err-ne-ok, ok, ok-injective, wrap}
use image_bed.Pipeline.Ownership.Settled.{fresh}
use image_bed.Prelude.{
  Bool-cases, Option, String, ap, arith, false, inl, inr, none, refl, some, sym, ℕ, ◌+◌, ◌∙◌, ◌≡◌,
  ◌≢◌,
}
use image_bed.Services.Triples.{kept}

answered-keeps :
    {A B : Type 0} (g : Error → Error) (x : Result A × AuthDb) (f : A → B)
    → (and_then (with_error g x) (λ a db. (ok (f a), db))).1 ≡ x.1
unfolding and_then with_error
answered-keeps g (ok a, db) f = refl
answered-keeps g (err e, db) f = refl

generate_access_token-devices :
    (env : AuthEnv) (config : TokenConfig) (username : String) (user_id : ℕ) (role : String)
    (db : AuthDb)
    → (generate_access_token env config username user_id role db).1.devices ≡ db.devices
unfolding generate_access_token
generate_access_token-devices env config username user_id role db =
    elim (Bool-cases (str_eq config.secret "")) [
      | inl e ↦ rw e refl
      | inr e ↦ rw e (
          ap (λ x. x.devices)
            (answered-keeps (wrap "failed to generate access token")
              (asks
                (λ n.
                  env.sign n config.secret
                    (access_claims username user_id role (env.now db.sent + config.expires_in)))
                db)
              (λ token. (token, env.now db.sent + config.expires_in))))
    ]

module _ (env : AuthEnv) (config : TokenConfig) where
  refresh_device-IsEnded :
      (hashed device_id : String) (device : Device) (result : RefreshResult) (db : AuthDb)
      → (refresh_device env config device_id device db).0 ≡ ok result
      → str_eq (env.sha256 result.tokens.refresh_token) hashed ≡ false
      → IsEnded hashed device.device_id (refresh_device env config device_id device db).1.devices
  unfolding refresh_device
  refresh_device-IsEnded hashed device_id device result db e other =
      let (user, (_, (e1, s1))) = and_then-ok _ _ result e in
      let ((fresh, expiry), (_, (e2, s2))) = and_then-ok _ _ result e1 in
      let (finished, (rotation, (e3, s3))) = and_then-ok _ _ result e2 in
      let (access, (answered, (same, s4))) = and_then-ok _ _ result e3 in
      let (rotates, s5) = with_error-ok _ _ finished rotation in
      let (_, s6) = with_error-ok _ _ access answered in
      let (i, rows) = rotate-ok env user.id device.device_id fresh expiry _ rotates in
      let token : fresh ≡ result.tokens.refresh_token =
        ap (λ r. r.tokens.refresh_token) (ok-injective same) in
      subst (IsEnded hashed device.device_id)
        (sym (
          ap (λ x. x.devices) (s1 ∙ s2 ∙ s3 ∙ s4 ∙ s6)
          ∙ generate_access_token-devices env config user.username user.id user.role _
          ∙ ap (λ x. x.devices) s5
          ∙ rows))
        (rotated-IsEnded env hashed device.device_id _ _
          (subst (λ x. str_eq (env.sha256 x) hashed ≡ false) (sym token) other))

  refresh_found-some :
      (device_id : String) (found : Option Device) (result : RefreshResult) (db : AuthDb)
      → (refresh_found env config device_id found db).0 ≡ ok result
      → (device : Device) × ((found ≡ some device)
          × (((refresh_device env config device_id device db).0 ≡ ok result)
              × ((refresh_found env config device_id found db).1
                  ≡ (refresh_device env config device_id device db).1)))
  unfolding refresh_found
  refresh_found-some device_id none result db e = absurd (err-ne-ok e)
  refresh_found-some device_id (some device) result db e = (device, (refl, (e, refl)))

  -- What an answer of RefreshToken says of its steps.
  refresh_session-ok :
      (token device_id : String) (result : RefreshResult) (db : AuthDb)
      → (refresh_session env config token device_id db).0 ≡ ok result
      → (device : Device) × ((from : AuthDb) × (((get_device_by_refresh_token_and_device_id env
                token device_id db).0
              ≡ ok (some device))
            × (((refresh_device env config device_id device from).0 ≡ ok result)
                × ((refresh_session env config token device_id db).1
                    ≡ (refresh_device env config device_id device from).1))))
  unfolding refresh_session
  refresh_session-ok token device_id result db e =
      let (found, (lookup, (rest, s1))) = and_then-ok _ _ result e in
      let (found_it, _) = with_error-ok _ _ found lookup in
      let (device, (is_some, (e1, s2))) = refresh_found-some device_id found result _ rest in
      (device, (_, (found_it ∙ ap ok is_some, (e1, s1 ∙ s2))))

  -- Once RefreshToken has answered, the token that it took is of no more use on that device: as
  -- long as no other statement changes the devices, RefreshToken refuses it, provided that the
  -- hashes of the old and the new token differ.
  pub refresh_session-once :
      (token device_id : String) (result again : RefreshResult) (db later : AuthDb)
      → (refresh_session env config token device_id db).0 ≡ ok result
      → env.sha256 result.tokens.refresh_token ≢ env.sha256 token
      → later.devices ≡ (refresh_session env config token device_id db).1.devices
      → (refresh_session env config token device_id later).0 ≢ ok again
  refresh_session-once token device_id result again db later e differs kept once_more =
      let (device, (from, (lookup, (e1, s1)))) = refresh_session-ok token device_id result db e in
      let (device2, (_, (lookup2, _))) = refresh_session-ok token device_id again later once_more in
      let (_, hit) = lookup-some env token device_id db device lookup in
      let same : device.device_id ≡ device_id =
        (eq_iff device.device_id device_id).0 (ground (arith, hit)) in
      let other : str_eq (env.sha256 result.tokens.refresh_token) (env.sha256 token) ≡ false =
        differs_rule _ _ differs in
      let ended = refresh_device-IsEnded (env.sha256 token) device_id device result from e1 other in
      lookup-IsEnded env token device_id later device2
        (subst (IsEnded (env.sha256 token) device_id) (sym (kept ∙ ap (λ x. x.devices) s1)) (
          subst
            (λ d.
              IsEnded (env.sha256 token) d
                (refresh_device env config device_id device from).1.devices)
            same ended))
        lookup2

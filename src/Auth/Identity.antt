-- ===== src/Auth/Identity.antt =====
-- The access tokens of internal/auth/login_service.go, and the middleware that reads them.
use mathlib.Core.Path.{subst}
use text.Mathlib.Text.{◌==◌ as str_eq}
use image_bed.Auth.{
  AuthDb, AuthEnv, IsSigning, TokenClaims, TokenConfig, User, and_then, and_then-of_ok, and_then-ok,
  asks, with_error, with_error-of_ok, with_error-ok,
}
use image_bed.Auth.Access.{
  Identity, authenticate_request, by_scheme, claims_identity, credentials, handle_jwt_auth,
  role_or_user,
}
use image_bed.Auth.Login.{LoginResult, login, login_user}
use image_bed.Auth.Tokens.{
  TokenPair, access_claims, check_type, generate_access_token, generate_tokens, no_secret,
  parse_token,
}
use image_bed.Errors.{err-ne-ok, message, ok, ok-injective, wrap}
use image_bed.Prelude.{
  Bool, Bool-cases, String, ap, arith, false, inl, inr, refl, some, sym, ℕ, ◌+◌, ◌<◌, ◌==◌, ◌∙◌,
  ◌≡◌, ◌≢◌,
}

module _ (env : AuthEnv) (config : TokenConfig) where
  -- The signature behind a token that was given out.
  signed :
      (username : String) (user_id : ℕ) (role token : String) (expiry : ℕ) (db : AuthDb)
      → (generate_access_token env config username user_id role db).0 ≡ ok (token, expiry)
      → (str_eq config.secret "" ≡ false)
        × ((n : ℕ) × (env.sign n config.secret (access_claims username user_id role expiry)
              ≡ ok token))
  unfolding generate_access_token
  signed username user_id role token expiry db e = elim (Bool-cases (str_eq config.secret "")) [
    | inl empty ↦ absurd (err-ne-ok {e = no_secret} (sym (rw empty refl) ∙ e))
    | inr set ↦
        let (t, (h, (k, _))) =
          and_then-ok
            (with_error (wrap "failed to generate access token") (
              asks
                (λ n.
                  env.sign n config.secret
                    (access_claims username user_id role (env.now db.sent + config.expires_in)))
                db))
            (λ token db'. (ok (token, env.now db.sent + config.expires_in), db')) (token, expiry)
            (sym (rw set refl) ∙ e) in
        let (sig, _) = with_error-ok _ _ t h in
        let pair : (t, env.now db.sent + config.expires_in) ≡ (token, expiry) = ok-injective k in
        (
          set,
          (
            db.sent,
            subst
                (λ p.
                  env.sign db.sent config.secret (access_claims username user_id role p.1) ≡ ok p.0)
                pair sig,
          ),
        )
  ]

  -- ParseToken gives back what GenerateAccessToken put into a token, until it expires.
  parse_token-generated :
      (username : String) (user_id : ℕ) (role token : String) (expiry : ℕ) (db later : AuthDb)
      → IsSigning env
      → (generate_access_token env config username user_id role db).0 ≡ ok (token, expiry)
      → env.now later.sent < expiry
      → (parse_token env config token later).0 ≡ ok (access_claims username user_id role expiry)
  unfolding parse_token check_type and_then with_error
  parse_token-generated username user_id role token expiry db later signing e early =
      let (set, (n, sig)) = signed username user_id role token expiry db e in
      rw
        (
          set,
          signing.parse-sign n (env.now later.sent) config.secret token
              (access_claims username user_id role expiry) sig early,
        )
        refl

  generate_tokens-ok :
      (username : String) (user_id : ℕ) (role : String) (pair : TokenPair) (db : AuthDb)
      → (generate_tokens env config username user_id role db).0 ≡ ok pair
      → (generate_access_token env config username user_id role db).0
        ≡ ok (pair.access_token, pair.access_token_expiry)
  unfolding generate_tokens
  generate_tokens-ok username user_id role pair db e =
      let (access, (made_it, (rest, _))) = and_then-ok _ _ pair e in
      let (refresh, (_, (same, _))) = and_then-ok _ _ pair rest in
      made_it ∙ ap (λ p. ok (p.access_token, p.access_token_expiry)) (ok-injective same)

  login_user-ok :
      (user : User) (result : LoginResult) (db : AuthDb)
      → (login_user env config user db).0 ≡ ok result
      → (result.user ≡ user)
        × ((from : AuthDb) × ((generate_access_token env config user.username user.id user.role
                from).0
              ≡ ok (result.tokens.access_token, result.tokens.access_token_expiry)))
  unfolding login_user
  login_user-ok user result db e =
      let (pair, (tokens, (rest, _))) = and_then-ok _ _ result e in
      let (_, (_, (same, _))) = and_then-ok _ _ result rest in
      let (generated, _) = with_error-ok _ _ pair tokens in
      let same_result = ok-injective same in
      (
        sym (ap (λ r. r.user) same_result),
        (
          db,
          generate_tokens-ok user.username user.id user.role pair db generated
              ∙ ap (λ r. ok (r.tokens.access_token, r.tokens.access_token_expiry)) same_result,
        ),
      )

  -- The identity of a user in a request.
  abbrev pub identity_of : User → Identity
  identity_of user = record {
    user_id = user.id;
    username = user.username;
    role = role_or_user user.role;
    auth_type = "jwt";
  }

  bearer_identity :
      (keys_disabled : Bool) (token : String) (claims : TokenClaims) (user : User) (db : AuthDb)
      → (parse_token env config token db).0 ≡ ok claims
      → claims ≡ access_claims user.username user.id user.role claims.expires_at
      → user.id ≢ 0
      → str_eq user.username "" ≡ false
      → (handle_jwt_auth env config keys_disabled token db).0 ≡ ok (identity_of user)
  unfolding handle_jwt_auth claims_identity
  bearer_identity keys_disabled token claims user db parsed same has_id has_name =
      ap (λ r. r.0)
        (and_then-of_ok
          (with_error (λ _. message "invalid or expired token") (parse_token env config token db))
          (λ c db'. (claims_identity env config keys_disabled c, db')) claims
          (with_error-of_ok _ _ claims parsed))
      ∙ (let no_id : (user.id == 0) ≡ false = ground (arith, has_id) in
          rw (same, no_id, has_name) refl)

  -- The access token of a successful login, sent back as a Bearer token before it expires, gives the
  -- request the identity of the user who logged in, whatever else the tables hold by then.
  pub authenticate_request-login :
      (username password : String) (result : LoginResult) (db later : AuthDb)
      (keys_disabled allow_missing : Bool)
      → IsSigning env
      → (login env config username password db).0 ≡ ok result
      → result.user.id ≢ 0
      → str_eq result.user.username "" ≡ false
      → env.now later.sent < result.tokens.access_token_expiry
      → (authenticate_request env config keys_disabled
          (credentials "Bearer" result.tokens.access_token)
          allow_missing
          later).0
        ≡ ok (some (identity_of result.user))
  unfolding login authenticate_request by_scheme
  authenticate_request-login username password result db later keys_disabled allow_missing signing e
        has_id has_name early =
      let (user, (_, (rest, _))) = and_then-ok _ _ result e in
      let (same, (from, generated)) = login_user-ok user result _ rest in
      let mine =
        subst
          (λ u.
            (generate_access_token env config u.username u.id u.role from).0
            ≡ ok (result.tokens.access_token, result.tokens.access_token_expiry))
          (sym same) generated in
      let parsed =
        parse_token-generated result.user.username result.user.id result.user.role
          result.tokens.access_token result.tokens.access_token_expiry from later signing mine
          early in
      ap (λ r. r.0)
        (and_then-of_ok _ (λ identity db'. (ok (some identity), db')) (identity_of result.user)
          (bearer_identity keys_disabled result.tokens.access_token _ result.user later parsed refl
            has_id has_name))

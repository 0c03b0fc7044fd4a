-- ===== src/Auth/Admission.antt =====
-- api/middleware/auth_middleware.go: what stands behind the identity of a request.
use mathlib.Core.List.{Memᴰ}
use mathlib.Core.Path.{subst}
use text.Mathlib.Text.{◌==◌ as str_eq}
use text.Mathlib.TextEquality.{eq_iff}
use image_bed.Auth.{
  ApiToken, AuthDb, AuthEnv, TokenClaims, TokenConfig, User, and_then-ok, asks, token_schema,
  user_schema, with_error, with_error-ok,
}
use image_bed.Auth.Access.{
  Header, Identity, absent, authenticate_request, by_scheme, claims_identity, credentials,
  handle_jwt_auth, handle_static_token_auth, malformed, role_or_user,
}
use image_bed.Auth.Keys.{is_live_key, validate_static_token}
use image_bed.Auth.Owners.{get_user_by_api_token-ok}
use image_bed.Auth.Tokens.{check_type, no_secret, parse_token}
use image_bed.Errors.{err-ne-ok, message, ok, ok-injective, some-injective, wrap}
use image_bed.Gorm.{scoped}
use image_bed.Prelude.{
  Bool, Bool-cases, String, ap, false, inl, inr, none, not, refl, some, sym, true, ◌&&◌, ◌==◌, ◌∙◌,
  ◌≡◌, ◌⊎◌,
}

abbrev identity_of_claims : TokenClaims → Identity
identity_of_claims claims = record {
  user_id = claims.user_id;
  username = claims.username;
  role = role_or_user claims.role;
  auth_type = "jwt";
}

module _ (env : AuthEnv) (config : TokenConfig) (keys_disabled : Bool) where
  -- A Bearer token of the type "access" that is accepted under the secret when it is looked at, with
  -- the identity of its claims.
  abbrev pub IsSignedAccess : String → AuthDb → Identity → Type 0
  IsSignedAccess token db i =
      (claims : TokenClaims) × ((env.parse_with_claims config.secret (env.now db.sent) token
          ≡ ok claims)
        × ((str_eq claims.token_type "access" ≡ true) × (i ≡ identity_of_claims claims)))

  abbrev pub identity_of_owner : User → Identity
  identity_of_owner user = record {
    user_id = user.id;
    username = user.username;
    role = role_or_user user.role;
    auth_type = "static_token";
  }

  -- A live and active key of a live user, where keys are enabled, with the identity of that user.
  abbrev pub IsLiveKey : String → AuthDb → Identity → Type 0
  IsLiveKey token db i =
      (keys_disabled ≡ false)
      × ((key : ApiToken) × ((user : User) × ((Memᴰ key db.api_tokens
                × (scoped token_schema (is_live_key (env.sha256 token)) key ≡ true))
              × ((Memᴰ user db.users
                    × (scoped user_schema (λ u. u.id == key.user_id && not (u.id == 0)) user
                        ≡ true))
                  × (i ≡ identity_of_owner user)))))

  check_type-ok :
      (claims out : TokenClaims) (db : AuthDb)
      → (check_type env config claims db).0 ≡ ok out
      → (claims ≡ out) × (str_eq claims.token_type "access" ≡ true)
  unfolding check_type
  check_type-ok claims out db e = elim (Bool-cases (str_eq claims.token_type "access")) [
    | inl access ↦ (ok-injective (sym (rw access refl) ∙ e), access)
    | inr other ↦
        absurd
          (err-ne-ok {e = message "invalid token: expected access token"} (sym (rw other refl) ∙ e))
  ]

  parse_token-ok :
      (token : String) (claims : TokenClaims) (db : AuthDb)
      → (parse_token env config token db).0 ≡ ok claims
      → (env.parse_with_claims config.secret (env.now db.sent) token ≡ ok claims)
        × (str_eq claims.token_type "access" ≡ true)
  unfolding parse_token
  parse_token-ok token claims db e = elim (Bool-cases (str_eq config.secret "")) [
    | inl empty ↦ absurd (err-ne-ok {e = no_secret} (sym (rw empty refl) ∙ e))
    | inr full ↦
        let (read, (parsed, (checked, _))) =
          and_then-ok
            (with_error (wrap "failed to parse token")
              (asks (λ n. env.parse_with_claims config.secret (env.now n) token) db))
            (check_type env config) claims (sym (rw full refl) ∙ e) in
        let (plain, _) = with_error-ok _ _ read parsed in
        let (same, access) = check_type-ok read claims _ checked in
        (plain ∙ ap ok same, subst (λ c. str_eq c.token_type "access" ≡ true) same access)
  ]

  claims_identity-ok :
      (claims : TokenClaims) (i : Identity)
      → claims_identity env config keys_disabled claims ≡ ok i
      → i ≡ identity_of_claims claims
  unfolding claims_identity
  claims_identity-ok claims i e = elim (Bool-cases (claims.user_id == 0)) [
    | inl zero_id ↦
        absurd
          (err-ne-ok {e = message "user_id not found in token claims"} (sym (rw zero_id refl) ∙ e))
    | inr has_id ↦ elim (Bool-cases (str_eq claims.username "")) [
      | inl empty ↦ absurd (
          err-ne-ok {e = message "username not found in token claims"}
            (sym (rw (has_id, empty) refl) ∙ e))
      | inr full ↦
          let same : identity_of_claims claims ≡ i =
            ok-injective (sym (rw (has_id, full) refl) ∙ e) in
          sym same
    ]
  ]

  handle_jwt_auth-ok :
      (token : String) (i : Identity) (db : AuthDb)
      → (handle_jwt_auth env config keys_disabled token db).0 ≡ ok i
      → IsSignedAccess token db i
  unfolding handle_jwt_auth
  handle_jwt_auth-ok token i db e =
      let (claims, (parsed, (same, _))) = and_then-ok _ _ i e in
      let (plain, _) = with_error-ok _ _ claims parsed in
      let (signed_one, access) = parse_token-ok token claims db plain in
      (claims, (signed_one, (access, claims_identity-ok claims i same)))

  handle_static_token_auth-ok :
      (token : String) (i : Identity) (db : AuthDb)
      → (handle_static_token_auth env config keys_disabled token db).0 ≡ ok i
      → IsLiveKey token db i
  unfolding handle_static_token_auth validate_static_token
  handle_static_token_auth-ok token i db e =
      let (user, (valid, (same, _))) = and_then-ok _ _ i e in
      let (plain, _) = with_error-ok _ _ user valid in
      elim (Bool-cases keys_disabled) [
        | inl off ↦ absurd (
            err-ne-ok {e = message "API key authentication is disabled"}
              (sym (rw off refl) ∙ plain))
        | inr enabled ↦
            let (key, (held, owned)) =
              get_user_by_api_token-ok env token db user (sym (rw enabled refl) ∙ plain) in
            (enabled, (key, (user, (held, (owned, sym (ok-injective same))))))
      ]

  -- The middleware gives a request an identity only if its header carries a Bearer token of the type
  -- "access" that is accepted under the secret at that time, and then the identity is the one that
  -- its claims name; or, where API keys are enabled, a live and active API token, and then it is the
  -- one of the live user that owns it. The role is that of the claims or the user, "user" for none.
  pub authenticate_request-admits :
      (header : Header) (allow_missing : Bool) (i : Identity) (db : AuthDb)
      → (authenticate_request env config keys_disabled header allow_missing db).0 ≡ ok (some i)
      → (token : String) × (((header ≡ credentials "Bearer" token) × IsSignedAccess token db i)
          ⊎ ((header ≡ credentials "ApiKey" token) × IsLiveKey token db i))
  unfolding authenticate_request by_scheme
  authenticate_request-admits absent true i db e =
      let never : none ≡ some i = ok-injective e in absurd cc
  authenticate_request-admits absent false i db e = absurd (err-ne-ok e)
  authenticate_request-admits malformed allow_missing i db e = absurd (err-ne-ok e)
  authenticate_request-admits (credentials scheme token) allow_missing i db e =
      let (found, (admitted, (same, _))) = and_then-ok _ _ (some i) e in
      let one : found ≡ i = some-injective (ok-injective same) in
      (
        token,
        elim (Bool-cases (str_eq scheme "Bearer")) [
          | inl bearer ↦ inl (
            ap (λ s. credentials s token) ((eq_iff scheme "Bearer").0 bearer),
            handle_jwt_auth-ok token i db (sym (rw bearer refl) ∙ admitted ∙ ap ok one),
          )
          | inr no_bearer ↦ elim (Bool-cases (str_eq scheme "ApiKey")) [
            | inl api_key ↦ inr (
              ap (λ s. credentials s token) ((eq_iff scheme "ApiKey").0 api_key),
              handle_static_token_auth-ok token i db
                  (sym (rw (no_bearer, api_key) refl) ∙ admitted ∙ ap ok one),
            )
            | inr no_key ↦ absurd (
                err-ne-ok {e = message "unsupported authentication scheme"}
                  (sym (rw (no_bearer, no_key) refl) ∙ admitted))
          ]
        ],
      )

-- ===== src/Auth/Tokens.antt =====
-- internal/auth/jwt_service.go: the tokens that a login gives out and a request brings back.
use text.Mathlib.Text.{◌==◌ as str_eq}
use image_bed.Auth.{AuthEnv, AuthQuery, TokenClaims, TokenConfig, and_then, asks, with_error}
use image_bed.Errors.{Error, err, message, ok, wrap}
use image_bed.Prelude.{Option, String, if◌then◌else◌, ltb, none, some, ℕ, ◌+◌}

-- TokenPair
pub record TokenPair : Type 0 where
  pub access_token : String
  pub access_token_expiry : ℕ
  pub refresh_token : String
  pub refresh_token_expiry : ℕ

abbrev pub no_secret : Error
no_secret = message "JWT secret is not initialized"

abbrev pub access_claims : String → ℕ → String → ℕ → TokenClaims
access_claims username user_id role expiry = record {
  username = username;
  user_id = user_id;
  role = role;
  token_type = "access";
  expires_at = expiry;
}

module _ (env : AuthEnv) (config : TokenConfig) where
  -- GenerateAccessToken: the token and its expiry
  unfoldable pub generate_access_token : String → ℕ → String → AuthQuery (String × ℕ)
  generate_access_token username user_id role db =
      if str_eq config.secret ""
      then (err no_secret, db)
      else (let expiry = env.now db.sent + config.expires_in in
          and_then
            (with_error (wrap "failed to generate access token") (
              asks (λ n. env.sign n config.secret (access_claims username user_id role expiry)) db))
            λ token db'. (ok (token, expiry), db'))

  -- GenerateRefreshToken
  unfoldable pub generate_refresh_token : AuthQuery (String × ℕ)
  generate_refresh_token db =
      and_then
        (with_error (wrap "failed to generate refresh token") (asks env.generate_random_token db))
        λ token db'. (ok (token, env.now db'.sent + config.refresh_expires_in), db')

  -- GenerateTokens
  unfoldable pub generate_tokens : String → ℕ → String → AuthQuery TokenPair
  unfolding generate_access_token generate_refresh_token
  generate_tokens username user_id role db =
      and_then (generate_access_token username user_id role db) λ access db'.
        and_then (generate_refresh_token db') λ refresh db''. (
          ok (record {
            access_token = access.0;
            access_token_expiry = access.1;
            refresh_token = refresh.0;
            refresh_token_expiry = refresh.1;
          }),
          db'',
        )

  unfoldable pub check_type : TokenClaims → AuthQuery TokenClaims
  check_type claims db =
      if str_eq claims.token_type "access"
      then (ok claims, db)
      else (err (message "invalid token: expected access token"), db)

  -- ParseToken; a token that the library accepts is valid
  unfoldable pub parse_token : String → AuthQuery TokenClaims
  unfolding check_type
  parse_token token db =
      if str_eq config.secret ""
      then (err no_secret, db)
      else (and_then
          (with_error (wrap "failed to parse token")
            (asks (λ n. env.parse_with_claims config.secret (env.now n) token) db))
          check_type)

-- applyConfig, over the length of the secret in characters and the parsed durations
unfoldable pub apply_config :
    String → ℕ → Option ℕ → Option ℕ → TokenConfig → Option Error × TokenConfig
apply_config secret characters access refresh old =
    if ltb characters 32
    then (some (message "JWT secret must be at least 32 characters long"), old)
    else (elim access [
      | none ↦ (some (message "invalid JWT access token TTL"), old)
      | some a ↦ elim refresh [
        | none ↦ (some (message "invalid JWT refresh token TTL"), old)
        | some r ↦ (none, record { secret = secret; expires_in = a; refresh_expires_in = r })
      ]
    ])

-- ===== src/Auth/Access.antt =====
-- api/middleware/auth_middleware.go and authorization.go: whom a request comes from, and whether it
-- may go on.
use text.Mathlib.Text.{◌==◌ as str_eq}
use image_bed.Auth.{AuthEnv, AuthQuery, TokenClaims, TokenConfig, and_then, with_error}
use image_bed.Auth.Keys.{validate_static_token}
use image_bed.Auth.Tokens.{parse_token}
use image_bed.Errors.{Result, err, message, ok, wrap}
use image_bed.Prelude.{Bool, List, Option, String, any, if◌then◌else◌, none, some, ℕ, ◌==◌}

-- What the middleware puts into the context of a request.
pub record Identity : Type 0 where
  pub user_id : ℕ
  pub username : String
  pub role : String
  pub auth_type : String

-- The Authorization header: absent, without a space, or a scheme and the rest.
pub data Header : Type 0 where
  absent : Header
  malformed : Header
  credentials : String → String → Header

abbrev pub role_or_user : String → String
role_or_user role = if str_eq role "" then "user" else role

module _ (env : AuthEnv) (config : TokenConfig) (keys_disabled : Bool) where
  unfoldable pub claims_identity : TokenClaims → Result Identity
  claims_identity claims =
      if claims.user_id == 0
      then err (message "user_id not found in token claims")
      else if str_eq claims.username ""
      then err (message "username not found in token claims")
      else ok (record {
        user_id = claims.user_id;
        username = claims.username;
        role = role_or_user claims.role;
        auth_type = "jwt";
      })

  -- handleJwtAuth
  unfoldable pub handle_jwt_auth : String → AuthQuery Identity
  unfolding parse_token claims_identity
  handle_jwt_auth token db =
      and_then
        (with_error (λ _. message "invalid or expired token") (parse_token env config token db))
        λ claims db'. (claims_identity claims, db')

  -- handleStaticTokenAuth
  unfoldable pub handle_static_token_auth : String → AuthQuery Identity
  unfolding validate_static_token
  handle_static_token_auth token db =
      and_then
        (with_error (wrap "invalid token") (validate_static_token env keys_disabled token db))
        λ user db'. (
          ok (record {
            user_id = user.id;
            username = user.username;
            role = role_or_user user.role;
            auth_type = "static_token";
          }),
          db',
        )

  unfoldable pub by_scheme : String → String → AuthQuery Identity
  unfolding handle_jwt_auth handle_static_token_auth
  by_scheme scheme token db =
      if str_eq scheme "Bearer"
      then handle_jwt_auth token db
      else if str_eq scheme "ApiKey"
      then handle_static_token_auth token db
      else (err (message "unsupported authentication scheme"), db)

  -- authenticateRequest, with the identity that it sets
  unfoldable pub authenticate_request : Header → Bool → AuthQuery (Option Identity)
  unfolding by_scheme
  authenticate_request absent allow_missing db =
      (if allow_missing then ok none else err (message "no Authorization request header"), db)
  authenticate_request malformed allow_missing db =
      (err (message "authorization field format error"), db)
  authenticate_request (credentials scheme token) allow_missing db =
      and_then (by_scheme scheme token db) λ identity db'. (ok (some identity), db')

-- An answer of a middleware: the request goes on, or ends with the status.
pub data Answer : Type 0 where
  goes_on : Answer
  stops_with : ℕ → Answer

abbrev pub named_in : String → List String → Bool
named_in a xs = any (λ x. str_eq a x) xs

-- Authorize and RequireRole, over what the context has
unfoldable pub authorize : List String → Option Identity → Answer
authorize allowed none = stops_with 403
authorize allowed (some i) = if named_in i.auth_type allowed then goes_on else stops_with 403

unfoldable pub require_role : List String → Option Identity → Answer
require_role allowed none = stops_with 403
require_role allowed (some i) = if named_in i.role allowed then goes_on else stops_with 403

-- ===== src/Auth/Keys.antt =====
-- database/repo/keys and internal/auth/key_service.go: API tokens, of which the table has the hash.
use text.Mathlib.Text.{◌==◌ as str_eq}
use image_bed.Auth.{ApiToken, AuthDb, AuthEnv, AuthQuery, User, on_api_tokens, on_users}
use image_bed.Errors.{Error, Result, err, message, ok, record_not_found}
use image_bed.Prelude.{Bool, String, if◌then◌else◌, some, ℕ, ◌&&◌, ◌==◌, ◌||◌}

abbrev pub invalid_api_token : Error
invalid_api_token = message "invalid or non-existent API token"

abbrev pub is_key_of : ℕ → ℕ → ApiToken → Bool
is_key_of id user_id t = t.id == id && t.user_id == user_id

abbrev pub is_live_key : String → ApiToken → Bool
is_live_key hashed t = str_eq t.token hashed && t.is_active

abbrev pub need_key : Result ℕ × AuthDb → Result (Unit {0}) × AuthDb
need_key (ok n, db) = (if n == 0 then err record_not_found else ok tt, db)
need_key (err e, db) = (err e, db)

module _ (env : AuthEnv) where
  -- `Preload("User")`: a missing user is the zero user
  unfoldable pub owner_found : Result User × AuthDb → Result User × AuthDb
  owner_found (ok u, db) = (if u.id == 0 then err invalid_api_token else ok u, db)
  owner_found (err record_not_found, db) = (err invalid_api_token, db)
  owner_found (err (message s), db) = (err (message s), db)

  unfoldable pub owner_of : ApiToken → AuthQuery User
  unfolding owner_found
  owner_of token db =
      owner_found (on_users (λ k t. (env.users.first k (λ u. u.id == token.user_id) t, t)) db)

  -- updateTokenLastUsed, which a goroutine runs; its error is logged
  unfoldable pub update_token_last_used : ℕ → AuthDb → AuthDb
  update_token_last_used id db =
      (on_api_tokens
        (λ k.
          env.api_tokens.updates k (λ t. t.id == id)
            (λ t. record t { last_used_at = some (env.now k) }))
        db).1

  unfoldable pub used_by : ApiToken → Result User × AuthDb → Result User × AuthDb
  unfolding update_token_last_used
  used_by token (ok u, db) = (ok u, update_token_last_used token.id db)
  used_by token (err e, db) = (err e, db)

  unfoldable pub key_found : Result ApiToken × AuthDb → Result User × AuthDb
  unfolding used_by owner_of
  key_found (ok token, db) = used_by token (owner_of token db)
  key_found (err record_not_found, db) = (err invalid_api_token, db)
  key_found (err (message s), db) = (err (message s), db)

  -- GetUserByApiToken
  unfoldable pub get_user_by_api_token : String → AuthQuery User
  unfolding key_found
  get_user_by_api_token token db =
      if str_eq token ""
      then (err invalid_api_token, db)
      else key_found
          (on_api_tokens (λ k t. (env.api_tokens.first k (is_live_key (env.sha256 token)) t, t)) db)

  -- DisableApiToken, EnableApiToken and RevokeApiToken
  unfoldable pub set_active : Bool → ℕ → ℕ → AuthQuery (Unit {0})
  set_active active id user_id db =
      if id == 0 || user_id == 0
      then (err (message "invalid token ID or user ID"), db)
      else need_key (
          on_api_tokens
            (λ k.
              env.api_tokens.updates k (is_key_of id user_id)
                (λ t. record t { is_active = active }))
            db)

  unfoldable pub revoke_api_token : ℕ → ℕ → AuthQuery (Unit {0})
  revoke_api_token id user_id db =
      if id == 0 || user_id == 0
      then (err (message "invalid token ID or user ID"), db)
      else need_key (on_api_tokens (λ k. env.api_tokens.delete k (is_key_of id user_id)) db)

  -- ValidateStaticToken; `disabled` where the settings were read and switch API keys off
  unfoldable pub validate_static_token : Bool → String → AuthQuery User
  unfolding get_user_by_api_token
  validate_static_token disabled token db =
      if disabled
      then (err (message "API key authentication is disabled"), db)
      else get_user_by_api_token token db

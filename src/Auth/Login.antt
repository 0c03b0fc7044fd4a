-- ===== src/Auth/Login.antt =====
-- internal/auth/login_service.go: login, the rotation of refresh tokens, and logout.
use text.Mathlib.Text.{◌==◌ as str_eq}
use image_bed.Auth.{
  AuthDb, AuthEnv, AuthQuery, Device, TokenConfig, User, and_then, asks, with_error,
}
use image_bed.Auth.Devices.{
  create_login_device, delete_device_by_device_id, delete_device_by_device_id_and_refresh_token,
  get_device_by_refresh_token, get_device_by_refresh_token_and_device_id, get_user_by_id,
  get_user_by_username, rotate_refresh_token,
}
use image_bed.Auth.Tokens.{
  TokenPair, generate_access_token, generate_refresh_token, generate_tokens,
}
use image_bed.Errors.{Error, Result, err, message, ok, record_not_found, wrap}
use image_bed.Prelude.{Option, String, if◌then◌else◌, none, not, some, ◌&&◌}

abbrev pub invalid_credentials : Error
invalid_credentials = message "invalid credentials"

-- LoginResult
pub record LoginResult : Type 0 where
  pub user : User
  pub tokens : TokenPair
  pub device_id : String

-- RefreshResult
pub record RefreshResult : Type 0 where
  pub tokens : TokenPair
  pub device_id : String

module _ (env : AuthEnv) (config : TokenConfig) where
  unfoldable pub check_password : User → String → AuthQuery User
  check_password user password db =
      and_then
        (with_error (wrap "password comparison failed")
          (asks (λ n. env.compare_password n password user.password) db))
        λ same db'. (if same then ok user else err invalid_credentials, db')

  unfoldable pub found_user : Result User × AuthDb → String → Result User × AuthDb
  unfolding check_password
  found_user (ok user, db) password = check_password user password db
  found_user (err record_not_found, db) password =
      (err (wrap "failed to get user" record_not_found), db)
  found_user (err (message s), db) password =
      if str_eq s "user not found"
      then (err invalid_credentials, db)
      else (err (wrap "failed to get user" (message s)), db)

  -- ValidateCredentials
  unfoldable pub validate_credentials : String → String → AuthQuery User
  unfolding found_user get_user_by_username
  validate_credentials username password db =
      found_user (get_user_by_username env username db) password

  -- Login for a user whose password was checked
  unfoldable pub login_user : User → AuthQuery LoginResult
  unfolding generate_tokens create_login_device
  login_user user db =
      and_then
        (with_error (wrap "failed to generate tokens")
          (generate_tokens env config user.username user.id user.role db))
        λ pair db'.
          let device_id = env.new_uuid db'.sent in
          and_then
            (with_error (wrap "failed to store device token") (
              create_login_device env user.id device_id pair.refresh_token pair.refresh_token_expiry
                db'))
            λ _ db''. (ok (record { user = user; tokens = pair; device_id = device_id }), db'')

  -- Login
  unfoldable pub login : String → String → AuthQuery LoginResult
  unfolding validate_credentials login_user
  login username password db =
      and_then
        (with_error (wrap "failed to validate credentials")
          (validate_credentials username password db))
        login_user

  unfoldable pub refresh_device : String → Device → AuthQuery RefreshResult
  unfolding get_user_by_id generate_refresh_token rotate_refresh_token generate_access_token
  refresh_device device_id device db =
      and_then (with_error (wrap "failed to get user") (get_user_by_id env device.user_id db))
        λ user db1.
          and_then
            (with_error (wrap "failed to generate new refresh token")
              (generate_refresh_token env config db1))
            λ fresh db2.
              and_then
                (with_error (wrap "failed to update device token")
                  (rotate_refresh_token env user.id device.device_id fresh.0 fresh.1 db2))
                λ _ db3.
                  and_then
                    (with_error (wrap "failed to generate new access token")
                      (generate_access_token env config user.username user.id user.role db3))
                    λ access db4. (
                      ok (record {
                        tokens = record {
                          access_token = access.0;
                          access_token_expiry = access.1;
                          refresh_token = fresh.0;
                          refresh_token_expiry = fresh.1;
                        };
                        device_id = device_id;
                      }),
                      db4,
                    )

  unfoldable pub refresh_found : String → Option Device → AuthQuery RefreshResult
  unfolding refresh_device
  refresh_found device_id none db = (err (message "invalid refresh token or device ID"), db)
  refresh_found device_id (some device) db = refresh_device device_id device db

  -- RefreshToken
  unfoldable pub refresh_session : String → String → AuthQuery RefreshResult
  unfolding refresh_found get_device_by_refresh_token_and_device_id
  refresh_session token device_id db =
      and_then
        (with_error (wrap "failed to get device")
          (get_device_by_refresh_token_and_device_id env token device_id db))
        (refresh_found device_id)

  unfoldable pub logout_device : String → String → AuthQuery (Unit {0})
  unfolding delete_device_by_device_id delete_device_by_device_id_and_refresh_token
  logout_device device_id token db =
      if not (str_eq device_id "") && str_eq token ""
      then delete_device_by_device_id env device_id db
      else if not (str_eq device_id "") && not (str_eq token "")
      then delete_device_by_device_id_and_refresh_token env device_id token db
      else (err (message "device_id or refresh_token is required"), db)

  unfoldable pub logout_found : String → Option Device → AuthQuery (Unit {0})
  unfolding logout_device
  logout_found token none db = (err (message "invalid refresh token"), db)
  logout_found token (some device) db = logout_device device.device_id token db

  -- Logout
  unfoldable pub logout : String → String → AuthQuery (Unit {0})
  unfolding logout_found get_device_by_refresh_token
  logout device_id token db =
      if str_eq device_id "" && not (str_eq token "")
      then and_then (get_device_by_refresh_token env token db) (logout_found token)
      else logout_device device_id token db

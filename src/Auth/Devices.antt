-- ===== src/Auth/Devices.antt =====
-- database/repo/accounts: the devices of a login, which hold the hash of a refresh token, and the
-- lookups of users.
use text.Mathlib.Text.{◌==◌ as str_eq}
use image_bed.Auth.{AuthDb, AuthEnv, AuthQuery, Device, User, and_then, asks, on_devices, on_users}
use image_bed.Errors.{Error, Result, err, message, ok, record_not_found}
use image_bed.Prelude.{Bool, Option, String, false, if◌then◌else◌, ltb, none, some, ℕ, ◌&&◌, ◌==◌}

abbrev pub new_device : ℕ → String → String → ℕ → Device
new_device user_id device_id hashed expiry = record {
  id = 0;
  user_id = user_id;
  refresh_token = hashed;
  device_id = device_id;
  expiry = expiry;
  deleted = false;
}

abbrev pub has_device_id : String → Device → Bool
has_device_id device_id d = str_eq d.device_id device_id

-- `refresh_token = ? AND device_id = ? AND expiry > ?`
abbrev pub is_session : String → String → ℕ → Device → Bool
is_session hashed device_id now d =
    str_eq d.refresh_token hashed && has_device_id device_id d && ltb now d.expiry

-- `if errors.Is(err, gorm.ErrRecordNotFound) { return nil, nil }`
abbrev pub optional : {A : Type 0} → Result A × AuthDb → Result (Option A) × AuthDb
optional (ok a, db) = (ok (some a), db)
optional (err record_not_found, db) = (ok none, db)
optional (err (message s), db) = (err (message s), db)

abbrev pub forget : {A : Type 0} → Result A × AuthDb → Result (Unit {0}) × AuthDb
forget (ok a, db) = (ok tt, db)
forget (err e, db) = (err e, db)

abbrev pub user_not_found : Error
user_not_found = message "user not found"

abbrev pub need_user : Result User × AuthDb → Result User × AuthDb
need_user (ok u, db) = (ok u, db)
need_user (err record_not_found, db) = (err user_not_found, db)
need_user (err (message s), db) = (err (message s), db)

module _ (env : AuthEnv) where
  -- CreateLoginDevice, SaveDevice
  unfoldable pub create_login_device : ℕ → String → String → ℕ → AuthQuery (Unit {0})
  create_login_device user_id device_id refresh_token expiry db = forget (
      on_devices
        (λ k. env.devices.create k (new_device user_id device_id (env.sha256 refresh_token) expiry))
        db)

  -- GetDeviceByRefreshTokenAndDeviceID
  unfoldable pub get_device_by_refresh_token_and_device_id :
      String → String → AuthQuery (Option Device)
  get_device_by_refresh_token_and_device_id refresh_token device_id db = optional (
      on_devices
        (λ k t.
          (env.devices.first k (is_session (env.sha256 refresh_token) device_id (env.now k)) t, t))
        db)

  -- GetDeviceByRefreshToken
  unfoldable pub get_device_by_refresh_token : String → AuthQuery (Option Device)
  get_device_by_refresh_token refresh_token db = optional (
      on_devices
        (λ k t. (
          env.devices.first k
              (λ d. str_eq d.refresh_token (env.sha256 refresh_token) && ltb (env.now k) d.expiry)
              t,
          t,
        ))
        db)

  unfoldable pub rotate_statements : ℕ → String → String → ℕ → AuthQuery (Unit {0})
  rotate_statements user_id device_id hashed expiry db =
      and_then (on_devices (λ k. env.devices.delete k (has_device_id device_id)) db) λ n db'.
        and_then
          (on_devices (λ k. env.devices.create k (new_device user_id device_id hashed expiry)) db')
          λ d. asks env.commit

  unfoldable pub roll_back_devices :
      AuthDb → Result (Unit {0}) × AuthDb → Result (Unit {0}) × AuthDb
  roll_back_devices before (ok a, db) = (ok a, db)
  roll_back_devices before (err e, db) = (err e, record db { devices = before.devices })

  -- RotateRefreshToken, in a transaction
  unfoldable pub rotate_refresh_token : ℕ → String → String → ℕ → AuthQuery (Unit {0})
  unfolding rotate_statements roll_back_devices
  rotate_refresh_token user_id device_id new_refresh_token expiry db =
      roll_back_devices db
        (rotate_statements user_id device_id (env.sha256 new_refresh_token) expiry db)

  -- DeleteDeviceByDeviceID
  unfoldable pub delete_device_by_device_id : String → AuthQuery (Unit {0})
  delete_device_by_device_id device_id db =
      forget (on_devices (λ k. env.devices.delete k (has_device_id device_id)) db)

  unfoldable pub need_device : Result ℕ × AuthDb → Result (Unit {0}) × AuthDb
  need_device (err e, db) = (err e, db)
  need_device (ok n, db) =
      (if n == 0 then err (message "invalid device ID or refresh token") else ok tt, db)

  -- DeleteDeviceByDeviceIDAndRefreshToken
  unfoldable pub delete_device_by_device_id_and_refresh_token :
      String → String → AuthQuery (Unit {0})
  unfolding need_device
  delete_device_by_device_id_and_refresh_token device_id refresh_token db = need_device (
      on_devices
        (λ k.
          env.devices.delete k
            (λ d. has_device_id device_id d && str_eq d.refresh_token (env.sha256 refresh_token)))
        db)

  -- GetUserByUsername, GetUserByID
  unfoldable pub get_user_by_username : String → AuthQuery User
  get_user_by_username username db =
      need_user (on_users (λ k t. (env.users.first k (λ u. str_eq u.username username) t, t)) db)

  unfoldable pub get_user_by_id : ℕ → AuthQuery User
  get_user_by_id id db = need_user (on_users (λ k t. (env.users.first k (λ u. u.id == id) t, t)) db)

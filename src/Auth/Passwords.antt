-- ===== src/Auth/Passwords.antt =====
-- internal/user/user_service.go: the change of a password.
use text.Mathlib.Text.{◌==◌ as str_eq}
use image_bed.Auth.{AuthEnv, AuthQuery, and_then, asks, on_devices, on_users, with_error}
use image_bed.Auth.Devices.{get_user_by_id}
use image_bed.Errors.{Error, err, message, ok, record_not_found, wrap}
use image_bed.Prelude.{Bool, String, if◌then◌else◌, not, ℕ, ◌==◌}

-- ChangePasswordRequest
pub record ChangePasswordRequest : Type 0 where
  pub user_id : ℕ
  pub old_password : String
  pub new_password : String

-- The errors for the user of the request; both packages' errors for a missing one have one text.
abbrev pub user_error : Error → Error
user_error record_not_found = wrap "failed to get user" record_not_found
user_error (message s) =
    if str_eq s "user not found" then message s else wrap "failed to get user" (message s)

module _ (env : AuthEnv) where
  -- UpdatePassword
  unfoldable pub update_password : ℕ → String → AuthQuery ℕ
  update_password user_id hashed =
      on_users λ k. env.users.updates k (λ u. u.id == user_id) (λ u. record u { password = hashed })

  -- DeleteDevicesByUser
  unfoldable pub delete_devices_by_user : ℕ → AuthQuery ℕ
  delete_devices_by_user user_id = on_devices λ k. env.devices.delete k (λ d. d.user_id == user_id)

  -- The end of ChangePassword, from the new hash on
  unfoldable pub set_password : ChangePasswordRequest → AuthQuery (Unit {0})
  unfolding update_password delete_devices_by_user
  set_password req db =
      and_then
        (with_error (wrap "failed to hash new password")
          (asks (λ n. env.generate_from_password n req.new_password) db))
        λ hashed db1.
          and_then
            (with_error (wrap "failed to update password") (update_password req.user_id hashed db1))
            λ n db2.
              and_then
                (with_error (wrap "failed to revoke user sessions")
                  (delete_devices_by_user req.user_id db2))
                λ m db3. (ok tt, db3)

  unfoldable pub old_password_checked : ChangePasswordRequest → Bool → AuthQuery (Unit {0})
  unfolding set_password
  old_password_checked req same db =
      if not same
      then (err (message "invalid old password"), db)
      else if str_eq req.old_password req.new_password
      then (err (message "new password cannot be the same as old password"), db)
      else set_password req db

  -- ChangePassword of a service that has the repository of devices
  unfoldable pub change_password : ChangePasswordRequest → AuthQuery (Unit {0})
  unfolding old_password_checked get_user_by_id
  change_password req db =
      and_then (with_error user_error (get_user_by_id env req.user_id db)) λ user db1.
        and_then
          (with_error (wrap "password comparison failed")
            (asks (λ n. env.compare_password n req.old_password user.password) db1))
          (old_password_checked req)

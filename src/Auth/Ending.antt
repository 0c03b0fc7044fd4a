-- ===== src/Auth/Ending.antt =====
-- Logout of internal/auth/login_service.go.
use mathlib.Core.Path.{subst}
use text.Mathlib.Text.{◌==◌ as str_eq}
use image_bed.Auth.{AuthDb, AuthEnv, Device, TokenConfig, device_schema}
use image_bed.Auth.Devices.{
  delete_device_by_device_id, delete_device_by_device_id_and_refresh_token,
  get_device_by_refresh_token_and_device_id, has_device_id, is_session,
}
use image_bed.Auth.Login.{logout, logout_device}
use image_bed.Auth.Opening.{forget-ok, need_device-ok}
use image_bed.Auth.Sessions.{IsEnded, lookup-IsEnded}
use image_bed.Errors.{ok}
use image_bed.Gorm.Outcomes.{Every-delete, delete-ok}
use image_bed.Prelude.{
  Bool-cases, Every, String, ap, arith, false, inl, inr, refl, some, sym, ◌&&◌, ◌∙◌, ◌≡◌, ◌≢◌,
}

module _ (env : AuthEnv) (config : TokenConfig) where
  logged_out :
      (device_id token : String) (db : AuthDb)
      → (delete_device_by_device_id env device_id db).0 ≡ ok tt
      → IsEnded (env.sha256 token) device_id (delete_device_by_device_id env device_id db).1.devices
  unfolding delete_device_by_device_id
  logged_out device_id token db e =
      let (n, (deletes, same)) = forget-ok env config _ e in
      let (_, rows) = delete-ok device_schema env.devices _ _ _ n deletes in
      λ now. subst (Every _) (sym (ap (λ x. x.devices) same ∙ rows)) (
        Every-delete device_schema (has_device_id device_id)
          (is_session (env.sha256 token) device_id now) (λ r f. ground (arith, f)) (λ r. refl)
          db.devices)

  logged_out_one :
      (device_id token : String) (db : AuthDb)
      → (delete_device_by_device_id_and_refresh_token env device_id token db).0 ≡ ok tt
      → IsEnded
          (env.sha256 token)
          device_id
          (delete_device_by_device_id_and_refresh_token env device_id token db).1.devices
  unfolding delete_device_by_device_id_and_refresh_token
  logged_out_one device_id token db e =
      let (n, (deletes, same)) = need_device-ok env config _ e in
      let (_, rows) = delete-ok device_schema env.devices _ _ _ n deletes in
      λ now. subst (Every _) (sym (ap (λ x. x.devices) same ∙ rows)) (
        Every-delete device_schema
          (λ d. has_device_id device_id d && str_eq d.refresh_token (env.sha256 token))
          (is_session (env.sha256 token) device_id now) (λ r f. ground (arith, f)) (λ r. refl)
          db.devices)

  -- After a Logout that named a device and succeeded, with a refresh token or without one, the
  -- lookup of that refresh token on that device finds nothing, as long as no other statement changes
  -- the devices.
  pub logout-closes :
      (device_id token : String) (db later : AuthDb) (device : Device)
      → str_eq device_id "" ≡ false
      → (logout env config device_id token db).0 ≡ ok tt
      → later.devices ≡ (logout env config device_id token db).1.devices
      → (get_device_by_refresh_token_and_device_id env token device_id later).0 ≢ ok (some device)
  unfolding logout logout_device
  logout-closes device_id token db later device named e kept_rows =
      lookup-IsEnded env token device_id later device (
        subst (IsEnded (env.sha256 token) device_id) (sym kept_rows)
          (elim (Bool-cases (str_eq token "")) [
            | inl empty ↦
                rw (named, empty) (logged_out device_id token db (sym (rw (named, empty) refl) ∙ e))
            | inr full ↦
                rw (named, full)
                  (logged_out_one device_id token db (sym (rw (named, full) refl) ∙ e))
          ]))

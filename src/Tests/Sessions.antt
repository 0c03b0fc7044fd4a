-- ===== src/Tests/Sessions.antt =====
-- Accounts in memory, with one user and its device, and theorems on logins and requests there.
use mathlib.Core.Path.{subst}
use text.Mathlib.Text.{◌==◌ as str_eq}
use text.Mathlib.TextEquality.{eq_iff}
use image_bed.Auth.{
  AuthDb, AuthEnv, Device, IsSigning, TokenClaims, TokenConfig, User, and_then, device_schema,
  token_schema, user_schema, with_error,
}
use image_bed.Auth.Access.{authenticate_request, credentials}
use image_bed.Auth.Admission.{IsLiveKey, IsSignedAccess, authenticate_request-admits}
use image_bed.Auth.Devices.{
  delete_device_by_device_id_and_refresh_token, get_device_by_refresh_token_and_device_id,
  need_device,
}
use image_bed.Auth.Ending.{logout-closes}
use image_bed.Auth.Identity.{authenticate_request-login, identity_of}
use image_bed.Auth.Login.{LoginResult, RefreshResult, login, logout, logout_device, refresh_session}
use image_bed.Auth.Opening.{login-opens}
use image_bed.Auth.Passwords.{ChangePasswordRequest}
use image_bed.Auth.Rotation.{refresh_session-once}
use image_bed.Auth.Tokens.{TokenPair}
use image_bed.Errors.{Result, err, err-ne-ok, message, ok, ok-injective}
use image_bed.Gorm.{Fails}
use image_bed.Prelude.{
  Bool, Bool-cases, String, [], ap, arith, false, if◌then◌else◌, inl, inr, ltb, none, refl, some,
  sym, true, ℕ, ◌&&◌, ◌<◌, ◌==◌, ◌∙◌, ◌∷◌, ◌≡◌, ◌≢◌, ◌⊎◌,
}
use image_bed.Tests.Database.{in_memory}

abbrev claims_of : String → ℕ → String → String → ℕ → TokenClaims
claims_of username user_id role token_type expires_at = record {
  username = username;
  user_id = user_id;
  role = role;
  token_type = token_type;
  expires_at = expires_at;
}

-- Tokens of one user, who logs in at the time 0.
abbrev anna_claims : TokenClaims
anna_claims = claims_of "anna" 7 "admin" "access" 3600

abbrev is_anna : TokenClaims → Bool
is_anna c =
    str_eq c.username "anna"
    && c.user_id == 7
    && str_eq c.role "admin"
    && str_eq c.token_type "access"
    && c.expires_at == 3600

abbrev sign_anna : TokenClaims → Result String
sign_anna c = if is_anna c then ok "jwt" else err (message "cannot sign")

abbrev parse_anna : ℕ → String → Result TokenClaims
parse_anna now token =
    if str_eq token "jwt" && ltb now 3600 then ok anna_claims else err (message "token is invalid")

abbrev auth_env : AuthEnv
auth_env = record {
  users = in_memory user_schema;
  devices = in_memory device_schema;
  api_tokens = in_memory token_schema;
  now = λ n. 0;
  sha256 = λ s. s;
  compare_password = λ n password hash. ok (str_eq password hash);
  generate_from_password = λ n password. ok password;
  sign = λ n secret claims. sign_anna claims;
  parse_with_claims = λ secret now token. parse_anna now token;
  generate_random_token = λ n. ok "new";
  new_uuid = λ n. "phone";
  commit = λ n. ok tt;
}

is_anna_lem : (c : TokenClaims) → is_anna c ≡ true → c ≡ anna_claims
is_anna_lem c e =
    let name : c.username ≡ "anna" = (eq_iff c.username "anna").0 (ground (arith, e)) in
    let id : c.user_id ≡ 7 = ground (arith, e) in
    let role : c.role ≡ "admin" = (eq_iff c.role "admin").0 (ground (arith, e)) in
    let kind : c.token_type ≡ "access" = (eq_iff c.token_type "access").0 (ground (arith, e)) in
    let ends : c.expires_at ≡ 3600 = ground (arith, e) in
    whole c.username "anna" c.user_id 7 c.role "admin" c.token_type "access" c.expires_at 3600 name
      id role kind ends
  where
    whole :
        (a b : String) (i j : ℕ) (r s t u : String) (m n : ℕ)
        → a ≡ b
        → i ≡ j
        → r ≡ s
        → t ≡ u
        → m ≡ n
        → claims_of a i r t m ≡ claims_of b j s u n
    whole a b i j r s t u m n e1 e2 e3 e4 e5 = cc

auth_env-IsSigning : IsSigning auth_env
auth_env-IsSigning = record {
  parse-sign = λ n now secret token claims e early. elim (Bool-cases (is_anna claims)) [
    | inl hit ↦
        let token_is : ok "jwt" ≡ ok token = sym (rw hit refl) ∙ e in
        let same : claims ≡ anna_claims = is_anna_lem claims hit in
        let soon : now < 3600 = subst (λ c. now < c.expires_at) same early in
        ap (λ t. parse_anna now t) (sym (ok-injective token_is))
        ∙ (let open_yet : ltb now 3600 ≡ true = ground (arith, soon) in rw open_yet refl)
        ∙ ap ok (sym same)
    | inr miss ↦ absurd (err-ne-ok {e = message "cannot sign"} (sym (rw miss refl) ∙ e))
  ];
}

abbrev config : TokenConfig
config = record { secret = "s"; expires_in = 3600; refresh_expires_in = 7200 }

abbrev anna : User
anna = record { id = 7; username = "anna"; password = "pw"; role = "admin"; deleted = false }

abbrev laptop : Device
laptop = record {
  id = 1;
  user_id = 7;
  refresh_token = "old";
  device_id = "laptop";
  expiry = 100;
  deleted = false;
}

abbrev accounts : AuthDb
accounts = record {
  sent = 0;
  users = anna ∷ [];
  devices = laptop ∷ [];
  api_tokens =
      record {
        id = 3;
        user_id = 7;
        is_active = true;
        token = "key";
        last_used_at = none;
        deleted = false;
      }
      ∷ [];
}

abbrev new_tokens : TokenPair
new_tokens = record {
  access_token = "jwt";
  access_token_expiry = 3600;
  refresh_token = "new";
  refresh_token_expiry = 7200;
}

abbrev anna_login : LoginResult
anna_login = record { user = anna; tokens = new_tokens; device_id = "phone" }

logged_in : (login auth_env config "anna" "pw" accounts).0 ≡ ok anna_login
unfolding login and_then with_error
logged_in = refl

abbrev anna_refresh : RefreshResult
anna_refresh = record { tokens = new_tokens; device_id = "laptop" }

refreshed : (refresh_session auth_env config "old" "laptop" accounts).0 ≡ ok anna_refresh
unfolding refresh_session and_then with_error
refreshed = refl

-- The accounts after the login, after the refresh and after a logout.
abbrev with_phone : AuthDb
with_phone = (login auth_env config "anna" "pw" accounts).1

abbrev with_new_token : AuthDb
with_new_token = (refresh_session auth_env config "old" "laptop" accounts).1

abbrev without_laptop : AuthDb
without_laptop = (logout auth_env config "laptop" "old" accounts).1

new_is_not_old : auth_env.sha256 "new" ≢ auth_env.sha256 "old"
new_is_not_old e = let hit : true ≡ false = sym ((eq_iff "new" "old").1 e) in absurd cc

logged_out_laptop : (logout auth_env config "laptop" "old" accounts).0 ≡ ok tt
unfolding logout logout_device delete_device_by_device_id_and_refresh_token need_device
logged_out_laptop = refl

admitted_anna :
    (authenticate_request auth_env config false (credentials "ApiKey" "key") false accounts).0
    ≡ ok (
        some
          (record { user_id = 7; username = "anna"; role = "admin"; auth_type = "static_token" }))
unfolding authenticate_request and_then with_error
admitted_anna = refl

not_zero : anna.id ≢ 0
not_zero e = absurd (omega arith)

authenticate_request-login_example :
    (authenticate_request auth_env config false (credentials "Bearer" "jwt") false with_phone).0
    ≡ ok (some (identity_of auth_env config anna))
authenticate_request-login_example =
    authenticate_request-login auth_env config "anna" "pw" anna_login accounts with_phone false
      false auth_env-IsSigning logged_in not_zero refl (omega arith)

authenticate_request-admits_example :
    (token : String) × (((credentials "ApiKey" "key" ≡ credentials "Bearer" token)
        × IsSignedAccess auth_env config false token accounts
            (record { user_id = 7; username = "anna"; role = "admin"; auth_type = "static_token" }))
      ⊎ ((credentials "ApiKey" "key" ≡ credentials "ApiKey" token)
          × IsLiveKey auth_env config false token accounts (record {
            user_id = 7;
            username = "anna";
            role = "admin";
            auth_type = "static_token";
          })))
authenticate_request-admits_example =
    authenticate_request-admits auth_env config false (credentials "ApiKey" "key") false
      (record { user_id = 7; username = "anna"; role = "admin"; auth_type = "static_token" })
      accounts admitted_anna

refresh_session-once_example :
    (refresh_session auth_env config "old" "laptop" with_new_token).0 ≢ ok anna_refresh
refresh_session-once_example =
    refresh_session-once auth_env config "old" "laptop" anna_refresh anna_refresh accounts
      with_new_token refreshed new_is_not_old refl

login-opens_example :
    Fails (get_device_by_refresh_token_and_device_id auth_env "new" "phone" with_phone).0
    ⊎ ((device : Device) × ((get_device_by_refresh_token_and_device_id auth_env "new" "phone"
            with_phone).0
          ≡ ok (some device))
        × (device.user_id ≡ 7))
login-opens_example =
    login-opens auth_env config "anna" "pw" anna_login accounts with_phone logged_in refl early
  where
    early : auth_env.now with_phone.sent < 7200
    early = omega arith

logout-closes_example :
    (get_device_by_refresh_token_and_device_id auth_env "old" "laptop" without_laptop).0
    ≢ ok (some laptop)
logout-closes_example =
    logout-closes auth_env config "laptop" "old" accounts without_laptop laptop refl
      logged_out_laptop refl

abbrev new_password : ChangePasswordRequest
new_password = record { user_id = 7; old_password = "pw"; new_password = "wp" }

-- ===== src/Auth.antt =====
-- database/models/user.go, device.go and key.go with what internal/auth calls: the tables of users,
-- devices and API tokens, the hash of tokens, and the signatures of JWTs.
pub mod Devices
pub mod Tokens
pub mod Login
pub mod Keys
pub mod Access
pub mod Sessions
pub mod Rotation
pub mod Opening
pub mod Owners
pub mod Admission
pub mod Ending
pub mod Passwords
pub mod Identity
use text.Mathlib.Text.{◌==◌ as str_eq}
use image_bed.Errors.{Error, Result, err, err-injective, err-ne-ok, ok, ok-injective}
use image_bed.Gorm.{Gorm, Schema}
use image_bed.Prelude.{
  Bool, List, Option, String, ap, inl, inr, not, refl, suc, true, ℕ, ◌&&◌, ◌<◌, ◌||◌, ◌≡◌, ◌⊎◌,
}

pub record User : Type 0 where
  pub id : ℕ
  pub username : String
  pub password : String
  pub role : String
  pub deleted : Bool

pub record Device : Type 0 where
  pub id : ℕ
  pub user_id : ℕ
  pub refresh_token : String
  pub device_id : String
  pub expiry : ℕ
  pub deleted : Bool

pub record ApiToken : Type 0 where
  pub id : ℕ
  pub user_id : ℕ
  pub is_active : Bool
  pub token : String
  pub last_used_at : Option ℕ
  pub deleted : Bool

abbrev pub user_schema : Schema User
user_schema = record {
  live = λ u. not u.deleted;
  mark_deleted = λ u. record u { deleted = true };
  clash = λ u v. str_eq u.username v.username;
  set_id = λ i u. record u { id = i };
  id_of = λ u. u.id;
}

-- Refresh tokens are unique among all rows, device ids among those that are not deleted.
abbrev pub device_schema : Schema Device
device_schema = record {
  live = λ d. not d.deleted;
  mark_deleted = λ d. record d { deleted = true };
  clash = λ d e.
      str_eq d.refresh_token e.refresh_token || str_eq d.device_id e.device_id && not e.deleted;
  set_id = λ i d. record d { id = i };
  id_of = λ d. d.id;
}

abbrev pub token_schema : Schema ApiToken
token_schema = record {
  live = λ t. not t.deleted;
  mark_deleted = λ t. record t { deleted = true };
  clash = λ t v. str_eq t.token v.token;
  set_id = λ i t. record t { id = i };
  id_of = λ t. t.id;
}

-- TokenClaims, with the expiry of RegisteredClaims
pub record TokenClaims : Type 0 where
  pub username : String
  pub user_id : ℕ
  pub role : String
  pub token_type : String
  pub expires_at : ℕ

-- TokenConfig
pub record TokenConfig : Type 0 where
  pub secret : String
  pub expires_in : ℕ
  pub refresh_expires_in : ℕ

-- gorm, the clock, and the cryptography: SHA256 in hexadecimal, Argon2, HS256, random tokens and
-- UUIDs. The `n`-th statement and the `n`-th call may each fail. Times are in seconds.
pub record AuthEnv : Type 0 where
  pub users : Gorm user_schema
  pub devices : Gorm device_schema
  pub api_tokens : Gorm token_schema
  pub now : ℕ → ℕ
  pub sha256 : String → String
  pub compare_password : ℕ → String → String → Result Bool
  pub generate_from_password : ℕ → String → Result String
  pub sign : ℕ → String → TokenClaims → Result String
  -- with the time at which the token is looked at
  pub parse_with_claims : String → ℕ → String → Result TokenClaims
  pub generate_random_token : ℕ → Result String
  pub new_uuid : ℕ → String
  pub commit : ℕ → Result (Unit {0})

-- What is documented of HS256: a signed token is read back under the same secret until it expires.
pub record IsSigning (env : AuthEnv) : Type 0 where
  pub parse-sign :
      (n now : ℕ) (secret token : String) (claims : TokenClaims)
      → env.sign n secret claims ≡ ok token
      → now < claims.expires_at
      → env.parse_with_claims secret now token ≡ ok claims

pub record AuthDb : Type 0 where
  pub sent : ℕ
  pub users : List User
  pub devices : List Device
  pub api_tokens : List ApiToken

abbrev pub AuthQuery : Type 0 → Type 0
AuthQuery A = AuthDb → Result A × AuthDb

-- One statement on a table; a call outside counts as one too, and time is read with it.
abbrev pub on_users : {A : Type 0} → (ℕ → List User → Result A × List User) → AuthQuery A
on_users stmt db =
    let (r, rows) = stmt db.sent db.users in (r, record db { sent = suc db.sent; users = rows })

abbrev pub on_devices : {A : Type 0} → (ℕ → List Device → Result A × List Device) → AuthQuery A
on_devices stmt db =
    let (r, rows) = stmt db.sent db.devices in (r, record db { sent = suc db.sent; devices = rows })

abbrev pub on_api_tokens :
    {A : Type 0} → (ℕ → List ApiToken → Result A × List ApiToken) → AuthQuery A
on_api_tokens stmt db =
    let (r, rows) = stmt db.sent db.api_tokens in
    (r, record db { sent = suc db.sent; api_tokens = rows })

abbrev pub asks : {A : Type 0} → (ℕ → Result A) → AuthQuery A
asks f db = (f db.sent, record db { sent = suc db.sent })

unfoldable pub and_then : {S A B : Type 0} → Result A × S → (A → S → Result B × S) → Result B × S
and_then (ok a, db) f = f a db
and_then (err e, db) f = (err e, db)

unfoldable pub with_error : {S A : Type 0} → (Error → Error) → Result A × S → Result A × S
with_error f (ok a, db) = (ok a, db)
with_error f (err e, db) = (err (f e), db)

-- What a result of a chain says of its links.
pub and_then-ok :
    {S A B : Type 0} (x : Result A × S) (f : A → S → Result B × S) (b : B)
    → (and_then x f).0 ≡ ok b
    → (a : A) × ((x.0 ≡ ok a) × (((f a x.1).0 ≡ ok b) × ((and_then x f).1 ≡ (f a x.1).1)))
unfolding and_then
and_then-ok (ok a, db) f b e = (a, (refl, (e, refl)))
and_then-ok (err why, db) f b e = absurd cc

pub with_error-ok :
    {S A : Type 0} (g : Error → Error) (x : Result A × S) (a : A)
    → (with_error g x).0 ≡ ok a
    → (x.0 ≡ ok a) × ((with_error g x).1 ≡ x.1)
unfolding with_error
with_error-ok g (ok a, db) b e = (e, refl)
with_error-ok g (err why, db) b e = absurd cc

pub and_then-of_ok :
    {S A B : Type 0} (x : Result A × S) (f : A → S → Result B × S) (a : A)
    → x.0 ≡ ok a
    → and_then x f ≡ f a x.1
unfolding and_then
and_then-of_ok (ok a, db) f b e = ap (λ c. f c db) (ok-injective e)
and_then-of_ok (err why, db) f b e = absurd (err-ne-ok e)

pub with_error-of_ok :
    {S A : Type 0} (g : Error → Error) (x : Result A × S) (a : A)
    → x.0 ≡ ok a
    → (with_error g x).0 ≡ ok a
unfolding with_error
with_error-of_ok g (ok a, db) b e = e
with_error-of_ok g (err why, db) b e = absurd (err-ne-ok e)

pub and_then-err :
    {S A B : Type 0} (x : Result A × S) (f : A → S → Result B × S) (e : Error)
    → (and_then x f).0 ≡ err e
    → ((x.0 ≡ err e) × ((and_then x f).1 ≡ x.1))
      ⊎ ((a : A) × ((x.0 ≡ ok a) × (((f a x.1).0 ≡ err e) × ((and_then x f).1 ≡ (f a x.1).1))))
unfolding and_then
and_then-err (ok a, s) f e h = inr (a, (refl, (h, refl)))
and_then-err (err why, s) f e h = inl (ap err (err-injective h), refl)

-- ===== src/Auth/Owners.antt =====
-- database/repo/keys/keys_repository.go: whose user a token of the API is.
use mathlib.Core.List.{Memᴰ}
use mathlib.Core.Path.{subst}
use text.Mathlib.Text.{◌==◌ as str_eq}
use image_bed.Auth.{ApiToken, AuthDb, AuthEnv, User, on_api_tokens, token_schema, user_schema}
use image_bed.Auth.Keys.{
  get_user_by_api_token, invalid_api_token, is_live_key, key_found, owner_found, owner_of, used_by,
}
use image_bed.Errors.{Result, err, err-ne-ok, message, ok, ok-injective, record_not_found}
use image_bed.Gorm.{Gorm, Schema, scoped}
use image_bed.Prelude.{
  Bool, Bool-cases, List, String, arith, false, inl, inr, not, refl, sym, true, ℕ, ◌&&◌, ◌==◌, ◌∙◌,
  ◌≡◌,
}
use image_bed.Uploads.Lookup.{first-member}

module _ (env : AuthEnv) where
  used_by-ok :
      (token : ApiToken) (x : Result User × AuthDb) (user : User)
      → (used_by env token x).0 ≡ ok user
      → x.0 ≡ ok user
  unfolding used_by
  used_by-ok token (ok u, db) user e = e
  used_by-ok token (err why, db) user e = e

  key_found-ok :
      (x : Result ApiToken × AuthDb) (user : User)
      → (key_found env x).0 ≡ ok user
      → (token : ApiToken) × ((x.0 ≡ ok token) × ((owner_of env token x.1).0 ≡ ok user))
  unfolding key_found
  key_found-ok (ok token, db) user e = (token, (refl, used_by-ok token _ user e))
  key_found-ok (err record_not_found, db) user e = absurd (err-ne-ok e)
  key_found-ok (err (message s), db) user e = absurd (err-ne-ok e)

  first-found :
      {Row : Type 0} (s : Schema Row) (g : Gorm s) (k : ℕ) (p : Row → Bool) (t : List Row)
      (row : Row)
      → g.first k p t ≡ ok row
      → Memᴰ row t × (scoped s p row ≡ true)
  first-found s g k p t row e = elim (g.first_law k p t) [
    | inl (why, f) ↦ absurd (err-ne-ok {e = message why} (sym f ∙ e))
    | inr f ↦ first-member _ row t (sym f ∙ e)
  ]

  owner_found-ok :
      (x : Result User × AuthDb) (user : User)
      → (owner_found env x).0 ≡ ok user
      → (x.0 ≡ ok user) × ((user.id == 0) ≡ false)
  unfolding owner_found
  owner_found-ok (ok u, db) user e = elim (Bool-cases (u.id == 0)) [
    | inl zero_id ↦ absurd (err-ne-ok {e = invalid_api_token} (sym (rw zero_id refl) ∙ e))
    | inr other ↦
        let same : ok u ≡ ok user = sym (rw other refl) ∙ e in
        (same, subst (λ v. (v.id == 0) ≡ false) (ok-injective same) other)
  ]
  owner_found-ok (err record_not_found, db) user e = absurd (err-ne-ok e)
  owner_found-ok (err (message s), db) user e = absurd (err-ne-ok e)

  owner_of-ok :
      (token : ApiToken) (db : AuthDb) (user : User)
      → (owner_of env token db).0 ≡ ok user
      → Memᴰ user db.users
        × (scoped user_schema (λ u. u.id == token.user_id && not (u.id == 0)) user ≡ true)
  unfolding owner_of
  owner_of-ok token db user e =
      let (found, is_set) = owner_found-ok _ user e in
      let (m, hit) = first-found user_schema env.users db.sent _ db.users user found in
      (m, ground (arith, hit, is_set))

  -- A user for an API token stands behind a live and active token of the table, of which the hash
  -- is the one sent, and is the live user that it belongs to.
  pub get_user_by_api_token-ok :
      (token : String) (db : AuthDb) (user : User)
      → (get_user_by_api_token env token db).0 ≡ ok user
      → (key : ApiToken) × ((Memᴰ key db.api_tokens
            × (scoped token_schema (is_live_key (env.sha256 token)) key ≡ true))
          × (Memᴰ user db.users
              × (scoped user_schema (λ u. u.id == key.user_id && not (u.id == 0)) user ≡ true)))
  unfolding get_user_by_api_token
  get_user_by_api_token-ok token db user e = elim (Bool-cases (str_eq token "")) [
    | inl empty ↦ absurd (err-ne-ok {e = invalid_api_token} (sym (rw empty refl) ∙ e))
    | inr full ↦
        let (key, (lookup, owner)) =
          key_found-ok
            (on_api_tokens (λ k t. (env.api_tokens.first k (is_live_key (env.sha256 token)) t, t))
              db)
            user (sym (rw full refl) ∙ e) in
        (
          key,
          (
            first-found token_schema env.api_tokens db.sent _ db.api_tokens key lookup,
            owner_of-ok key _ user owner,
          ),
        )
  ]

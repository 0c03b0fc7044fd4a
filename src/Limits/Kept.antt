-- ===== src/Limits/Kept.antt =====
-- api/middleware/ratelimit.go: what happens between two requests of a client.
use mathlib.Core.Path.{subst}
use text.Mathlib.Text.{◌==◌ as str_eq}
use text.Mathlib.TextEquality.{eq_iff}
use image_bed.Auth.Sessions.{differs_rule}
use image_bed.Errors.{some-injective}
use image_bed.Limits.{
  Client, IpRateLimiter, Readings, Shard, cleanup_all_shards, client_found, client_of,
  evict_expired_locked, get_client_limiter, get_shard_index, is_idle, make_client, put_client,
  shard_of, with_shard, without_client,
}
use image_bed.Prelude.{
  Bool, Bool-cases, Every, List, Option, String, [], arith, false, inl, inr, leb, length, ltb, none,
  not, refl, select, some, suc, sym, true, ℕ, ◌+◌, ◌/◌, ◌==◌, ◌∙◌, ◌∷◌, ◌≡◌, ◌≢◌, ◌≤◌,
}

-- A selection that keeps a client's entry keeps what is found for it.
pub client_of-select :
    (p : String × Client → Bool) (ip : String) (c : Client) (shard : Shard)
    → ((k : String) → str_eq k ip ≡ true → p (k, c) ≡ true)
    → client_of ip shard ≡ some c
    → client_of ip (select p shard) ≡ some c
unfolding client_of
client_of-select p ip c [] keeps e = e
client_of-select p ip c ((k, d) ∷ rest) keeps e = elim (Bool-cases (str_eq k ip)) [
  | inl hit ↦
      let same : d ≡ c = some-injective (sym (rw hit refl) ∙ e) in rw (same, keeps k hit, hit) refl
  | inr miss ↦
      let later : client_of ip rest ≡ some c = sym (rw miss refl) ∙ e in
      let found = client_of-select p ip c rest keeps later in
      elim (Bool-cases (p (k, d))) [
        | inl kept_one ↦ rw (kept_one, miss) found
        | inr gone_one ↦ rw gone_one found
      ]
]

-- Another client's change to the map leaves what is found for this one.
client_of-without :
    (ip other : String) (c : Client) (shard : Shard)
    → other ≢ ip
    → client_of ip shard ≡ some c
    → client_of ip (without_client other shard) ≡ some c
client_of-without ip other c shard differ found =
    client_of-select (λ e. not (str_eq e.0 other)) ip c shard
      (λ k hit.
        let miss : str_eq k other ≡ false =
          differs_rule k other (λ same. differ (sym same ∙ (eq_iff k ip).0 hit)) in
        rw miss refl)
      found

client_of-evict :
    (expire now : ℕ) (ip : String) (c : Client) (shard : Shard)
    → now ≤ c.last_seen + expire
    → client_of ip shard ≡ some c
    → client_of ip (evict_expired_locked expire now shard) ≡ some c
client_of-evict expire now ip c shard early found =
    client_of-select (λ e. not (is_idle expire now e.1)) ip c shard (λ k hit. ground (arith, early))
      found

client_of-put :
    (ip other : String) (c new : Client) (shard : Shard)
    → other ≢ ip
    → client_of ip shard ≡ some c
    → client_of ip (put_client other new shard) ≡ some c
unfolding client_of
client_of-put ip other c new shard differ found =
    rw (differs_rule other ip differ) (client_of-without ip other c shard differ found)

-- An event at the limiter: a request of an address, or the cleanup.
pub data Event : Type 0 where
  request : Readings → String → Event
  cleanup : ℕ → Event

module _ (hash : String → ℕ) where
  unfoldable pub happens : Event → IpRateLimiter → IpRateLimiter
  happens (request t ip) rl = (get_client_limiter hash t ip rl).1
  happens (cleanup now) rl = cleanup_all_shards now rl

  unfoldable pub happen_all : List Event → IpRateLimiter → IpRateLimiter
  unfolding happens
  happen_all [] rl = rl
  happen_all (e ∷ es) rl = happen_all es (happens e rl)

  -- The address has this client.
  pub record Has (expire : ℕ) (ip : String) (c : Client) (rl : IpRateLimiter) : Type 0 where
    pub found : client_of ip (shard_of hash ip rl) ≡ some c
    pub expires : rl.expire_time ≡ expire

  Has-with_shard :
      (expire : ℕ) (ip : String) (c : Client) (i count : ℕ) (shard : Shard) (rl : IpRateLimiter)
      → Has expire ip c rl
      → (client_of ip (rl.shards i) ≡ some c → client_of ip shard ≡ some c)
      → Has expire ip c (record (with_shard i shard rl) { made = count })
  Has-with_shard expire ip c i count shard rl has keeps = record {
    found = elim (Bool-cases (get_shard_index hash ip rl == i)) [
      | inl hit ↦
          let same : get_shard_index hash ip rl ≡ i = ground (arith, hit) in
          rw hit (keeps (subst (λ j. client_of ip (rl.shards j) ≡ some c) same has.found))
      | inr miss ↦ rw miss has.found
    ];
    expires = has.expires;
  }

  Has-make_client :
      (expire : ℕ) (t : Readings) (ip other : String) (c : Client) (shard : Shard)
      (rl : IpRateLimiter)
      → Has expire ip c rl
      → other ≢ ip
      → t.evict ≤ c.last_seen + expire
      → (client_of ip (shard_of hash other rl) ≡ some c → client_of ip shard ≡ some c)
      → Has expire ip c (make_client hash t other shard rl).1
  unfolding make_client
  Has-make_client expire t ip other c shard rl has differ early keeps =
      Has-with_shard expire ip c (get_shard_index hash other rl) (suc rl.made) _ rl has λ there.
        client_of-put ip other c _ _ differ
          (elim (Bool-cases (leb (rl.max_size / rl.num_shards) (length shard))) [
            | inl full ↦ rw full (
                client_of-evict rl.expire_time t.evict ip c shard
                  (subst (λ x. t.evict ≤ c.last_seen + x) (sym has.expires) early) (keeps there))
            | inr room ↦ rw room (keeps there)
          ])

  Has-client_found :
      (expire : ℕ) (t : Readings) (ip other : String) (c : Client) (found : Option Client)
      (rl : IpRateLimiter)
      → Has expire ip c rl
      → other ≢ ip
      → t.evict ≤ c.last_seen + expire
      → Has expire ip c (client_found hash t other found rl).1
  unfolding client_found
  Has-client_found expire t ip other c none rl has differ early =
      Has-make_client expire t ip other c _ rl has differ early λ there. there
  Has-client_found expire t ip other c (some d) rl has differ early =
      elim (Bool-cases (is_idle rl.expire_time t.since d)) [
        | inl idle_one ↦ rw idle_one (
            Has-make_client expire t ip other c (without_client other (shard_of hash other rl)) rl
              has differ early λ there. client_of-without ip other c _ differ there)
        | inr busy_one ↦ rw busy_one (
            Has-with_shard expire ip c (get_shard_index hash other rl) rl.made _ rl has
              λ there. client_of-put ip other c _ _ differ there)
      ]

  Has-cleanup :
      (expire now : ℕ) (ip : String) (c : Client) (rl : IpRateLimiter)
      → Has expire ip c rl
      → now ≤ c.last_seen + expire
      → Has expire ip c (cleanup_all_shards now rl)
  unfolding cleanup_all_shards
  Has-cleanup expire now ip c rl has early = record {
    found = elim (Bool-cases (ltb (get_shard_index hash ip rl) rl.num_shards)) [
      | inl inside ↦ rw inside (
          client_of-evict rl.expire_time now ip c _
            (subst (λ x. now ≤ c.last_seen + x) (sym has.expires) early) has.found)
      | inr outside ↦ rw outside has.found
    ];
    expires = has.expires;
  }

  -- An event of others while the client is not idle for longer than `expire`.
  abbrev pub Apart : ℕ → String → Client → Event → Type 0
  Apart expire ip c (request t other) = (other ≢ ip) × (t.evict ≤ c.last_seen + expire)
  Apart expire ip c (cleanup now) = now ≤ c.last_seen + expire

  Has-happen_all :
      (expire : ℕ) (ip : String) (c : Client) (es : List Event) (rl : IpRateLimiter)
      → Every (Apart expire ip c) es
      → Has expire ip c rl
      → Has expire ip c (happen_all es rl)
  unfolding happen_all happens get_client_limiter
  Has-happen_all expire ip c [] rl h has = has
  Has-happen_all expire ip c (request t other ∷ es) rl ((differ, early), h) has =
      Has-happen_all expire ip c es _ h (Has-client_found expire t ip other c _ rl has differ early)
  Has-happen_all expire ip c (cleanup now ∷ es) rl (early, h) has =
      Has-happen_all expire ip c es _ h (Has-cleanup expire now ip c rl has early)

  -- A client that comes back within the expiry time gets its own limiter again, with what it has
  -- left there, whatever requests of other addresses and cleanups there were in between, as long as
  -- none of them came later than the expiry time.
  pub get_client_limiter-keeps :
      (t : Readings) (ip : String) (c : Client) (es : List Event) (rl : IpRateLimiter)
      → client_of ip (shard_of hash ip rl) ≡ some c
      → Every (Apart rl.expire_time ip c) es
      → t.since ≤ c.last_seen + rl.expire_time
      → (get_client_limiter hash t ip (happen_all es rl)).0.limiter ≡ c.limiter
  unfolding get_client_limiter client_found
  get_client_limiter-keeps t ip c es rl found apart early =
      let has =
        Has-happen_all rl.expire_time ip c es rl apart (record { found = found; expires = refl }) in
      let awake : is_idle (happen_all es rl).expire_time t.since c ≡ false =
        subst (λ x. is_idle x t.since c ≡ false) (sym has.expires) (ground (arith, early)) in
      rw (has.found, awake) refl

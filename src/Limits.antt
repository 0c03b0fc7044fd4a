-- ===== src/Limits.antt =====
-- api/middleware/ratelimit.go: a limiter for each client address, in shards. A shard is a list of
-- pairs with the latest entry first; the n-th limiter that is made has the number n. The hash and
-- what a limiter allows are parameters.
pub mod Kept
pub mod Crowded
use text.Mathlib.Text.{◌==◌ as str_eq}
use image_bed.Auth.Access.{Answer, goes_on, stops_with}
use image_bed.Converter.Refusal.{asked}
use image_bed.Prelude.{
  Bool, List, Option, String, [], if◌then◌else◌, leb, length, ltb, none, not, select, some, suc, ℕ,
  ◌%◌, ◌-◌, ◌/◌, ◌==◌, ◌∷◌,
}

-- clientLimiter
pub record Client : Type 0 where
  pub limiter : ℕ
  pub last_seen : ℕ

abbrev pub Shard : Type 0
Shard = List (String × Client)

-- IPRateLimiter, without the rate, which only the limiters read; `made` counts the limiters made so far
pub record IpRateLimiter : Type 0 where
  pub expire_time : ℕ
  pub num_shards : ℕ
  pub max_size : ℕ
  pub shards : ℕ → Shard
  pub made : ℕ

-- NewIPRateLimiter
abbrev pub new_ip_rate_limiter : ℕ → IpRateLimiter
new_ip_rate_limiter expire_time = record {
  expire_time = expire_time;
  num_shards = 32;
  max_size = 10000;
  shards = λ i. [];
  made = 0;
}

-- `now.Sub(client.lastSeen) > rl.expireTime`
abbrev pub is_idle : ℕ → ℕ → Client → Bool
is_idle expire_time now c = ltb expire_time (now - c.last_seen)

-- The map of a shard: `limiters[ip]`, `delete(limiters, ip)` and `limiters[ip] = client`
unfoldable pub client_of : String → Shard → Option Client
client_of ip [] = none
client_of ip ((k, c) ∷ rest) =
    let found = client_of ip rest in if str_eq k ip then some c else found

abbrev pub without_client : String → Shard → Shard
without_client ip shard = select (λ e. not (str_eq e.0 ip)) shard

abbrev pub put_client : String → Client → Shard → Shard
put_client ip c shard = (ip, c) ∷ without_client ip shard

-- evictExpiredLocked
abbrev pub evict_expired_locked : ℕ → ℕ → Shard → Shard
evict_expired_locked expire_time now shard = select (λ e. not (is_idle expire_time now e.1)) shard

abbrev pub with_shard : ℕ → Shard → IpRateLimiter → IpRateLimiter
with_shard i shard rl = record rl { shards = λ j. if j == i then shard else rl.shards j }

-- The readings of the clock in one call: for `time.Since`, for the eviction, for `lastSeen`
pub record Readings : Type 0 where
  pub since : ℕ
  pub evict : ℕ
  pub seen : ℕ

module _ (hash : String → ℕ) where
  -- getShardIndex
  abbrev pub get_shard_index : String → IpRateLimiter → ℕ
  get_shard_index ip rl = hash ip % rl.num_shards

  abbrev pub shard_of : String → IpRateLimiter → Shard
  shard_of ip rl = rl.shards (get_shard_index ip rl)

  -- The end of getClientLimiter, which makes a client
  unfoldable pub make_client : Readings → String → Shard → IpRateLimiter → Client × IpRateLimiter
  make_client t ip shard rl =
      let client : Client = record { limiter = rl.made; last_seen = t.seen } in
      let kept_ones =
        if leb (rl.max_size / rl.num_shards) (length shard)
        then evict_expired_locked rl.expire_time t.evict shard
        else shard in
      (
        client,
        record (with_shard (get_shard_index ip rl) (put_client ip client kept_ones) rl) {
          made = suc rl.made;
        },
      )

  unfoldable pub client_found :
      Readings → String → Option Client → IpRateLimiter → Client × IpRateLimiter
  unfolding make_client
  client_found t ip none rl = make_client t ip (shard_of ip rl) rl
  client_found t ip (some c) rl =
      if is_idle rl.expire_time t.since c
      then make_client t ip (without_client ip (shard_of ip rl)) rl
      else (let seen_now = record c { last_seen = t.seen } in
          (
            seen_now,
            with_shard (get_shard_index ip rl) (put_client ip seen_now (shard_of ip rl)) rl,
          ))

  -- getClientLimiter
  unfoldable pub get_client_limiter : Readings → String → IpRateLimiter → Client × IpRateLimiter
  unfolding client_of client_found
  get_client_limiter t ip rl = client_found t ip (client_of ip (shard_of ip rl)) rl

  -- Middleware, where `allow n t` is the answer of the limiter n, asked at the time t
  unfoldable pub limit_request :
      (ℕ → ℕ → Bool) → ℕ → Readings → String → IpRateLimiter → Answer × IpRateLimiter
  unfolding get_client_limiter
  limit_request allow asked t ip rl =
      let (client, rl') = get_client_limiter t ip rl in
      (if allow client.limiter asked then goes_on else stops_with 429, rl')

-- cleanupAllShards
unfoldable pub cleanup_all_shards : ℕ → IpRateLimiter → IpRateLimiter
cleanup_all_shards now rl = record rl {
  shards = λ i.
      if ltb i rl.num_shards
      then evict_expired_locked rl.expire_time now (rl.shards i)
      else rl.shards i;
}

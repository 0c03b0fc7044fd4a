-- ===== src/Tests/Limits.antt =====
-- A limiter of requests with one client, and the theorems on it.
use text.Mathlib.TextEquality.{eq_iff}
use image_bed.Limits.{
  Client, IpRateLimiter, Readings, client_of, get_client_limiter, new_ip_rate_limiter, shard_of,
}
use image_bed.Limits.Crowded.{get_client_limiter-grows}
use image_bed.Limits.Kept.{cleanup, get_client_limiter-keeps, happen_all, request}
use image_bed.Prelude.{
  String, [], arith, false, length, none, refl, some, sym, true, ℕ, ◌∷◌, ◌≡◌, ◌≢◌,
}

abbrev one_shard : String → ℕ
one_shard ip = 0

abbrev home : Client
home = record { limiter = 0; last_seen = 50 }

abbrev small : IpRateLimiter
small = record (new_ip_rate_limiter 10) {
  shards = λ i. ("10.0.0.1", home) ∷ [];
  made = 1;
  max_size = 0;
}

abbrev at_55 : Readings
at_55 = record { since = 55; evict = 55; seen = 55 }

abbrev away : String
away = "10.0.0.2"

other_address : away ≢ "10.0.0.1"
other_address e = let hit : true ≡ false = sym ((eq_iff "10.0.0.2" "10.0.0.1").1 e) in absurd cc

home_found : client_of "10.0.0.1" (shard_of one_shard "10.0.0.1" small) ≡ some home
unfolding client_of
home_found = refl

other_unknown : client_of "10.0.0.2" (shard_of one_shard "10.0.0.2" small) ≡ none
unfolding client_of
other_unknown = refl

get_client_limiter-keeps_example :
    (get_client_limiter one_shard at_55 "10.0.0.1"
      (happen_all one_shard (request at_55 "10.0.0.2" ∷ cleanup 56 ∷ []) small)).0.limiter
    ≡ 0
get_client_limiter-keeps_example =
    get_client_limiter-keeps one_shard at_55 "10.0.0.1" home
      (request at_55 "10.0.0.2" ∷ cleanup 56 ∷ []) small home_found
      ((other_address, omega arith), (omega arith, tt)) (omega arith)

get_client_limiter-grows_example :
    length (shard_of one_shard "10.0.0.2" (get_client_limiter one_shard at_55 "10.0.0.2" small).1)
    ≡ 2
get_client_limiter-grows_example =
    get_client_limiter-grows one_shard at_55 "10.0.0.2" small other_unknown (refl, tt)

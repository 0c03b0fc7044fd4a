-- ===== src/Limits/Crowded.antt =====
-- The size of a shard when every client in it is busy.
use text.Mathlib.Text.{◌==◌ as str_eq}
use image_bed.Limits.{
  IpRateLimiter, Readings, Shard, client_found, client_of, evict_expired_locked, get_client_limiter,
  get_shard_index, is_idle, make_client, shard_of, without_client,
}
use image_bed.Prelude.{
  Bool, Bool-cases, Every, Every-map, List, String, [], ap, arith, false, inl, inr, leb, length,
  none, not, refl, select, some, suc, sym, true, ℕ, ◌/◌, ◌==◌, ◌∙◌, ◌∷◌, ◌≡◌,
}

select-whole :
    {A : Type 0} (p : A → Bool) (xs : List A) → Every (λ x. p x ≡ true) xs → select p xs ≡ xs
select-whole p [] h = refl
select-whole p (x ∷ xs) (e, h) = rw e (ap (λ t. x ∷ t) (select-whole p xs h))

unknown-without :
    (ip : String) (shard : Shard)
    → client_of ip shard ≡ none
    → Every (λ e. not (str_eq e.0 ip) ≡ true) shard
unfolding client_of
unknown-without ip [] e = tt
unknown-without ip ((k, c) ∷ rest) e = elim (Bool-cases (str_eq k ip)) [
  | inl hit ↦ let never : some c ≡ none = sym (rw hit refl) ∙ e in absurd cc
  | inr miss ↦ (rw miss refl, unknown-without ip rest (sym (rw miss refl) ∙ e))
]

module _ (hash : String → ℕ) where
  -- A new address gets an entry of its own, and its shard grows by it, whatever `maxSize` is, when
  -- no client of the shard is past the expiry time.
  pub get_client_limiter-grows :
      (t : Readings) (ip : String) (rl : IpRateLimiter)
      → client_of ip (shard_of hash ip rl) ≡ none
      → Every (λ e. is_idle rl.expire_time t.evict e.1 ≡ false) (shard_of hash ip rl)
      → length (shard_of hash ip (get_client_limiter hash t ip rl).1)
        ≡ suc (length (shard_of hash ip rl))
  unfolding get_client_limiter client_found make_client
  get_client_limiter-grows t ip rl unknown busy =
      let shard = shard_of hash ip rl in
      let nothing_evicted : evict_expired_locked rl.expire_time t.evict shard ≡ shard =
        select-whole (λ e. not (is_idle rl.expire_time t.evict e.1)) shard
          (Every-map (λ e. is_idle rl.expire_time t.evict e.1 ≡ false)
            (λ e. not (is_idle rl.expire_time t.evict e.1) ≡ true) (λ e f. rw f refl) shard busy) in
      let nothing_deleted : without_client ip shard ≡ shard =
        select-whole (λ e. not (str_eq e.0 ip)) shard (unknown-without ip shard unknown) in
      let own : (get_shard_index hash ip rl == get_shard_index hash ip rl) ≡ true = ground arith in
      elim (Bool-cases (leb (rl.max_size / rl.num_shards) (length shard))) [
        | inl full ↦ rw (unknown, own, full, nothing_evicted, nothing_deleted) refl
        | inr room ↦ rw (unknown, own, room, nothing_deleted) refl
      ]

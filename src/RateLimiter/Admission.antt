-- ===== src/RateLimiter/Admission.antt =====
-- Which policy applies to a request, and how many requests a policy admits:
-- src/infrastructure/redis/rate-limiter.ts.
use rest_ecommerce_api.Prelude.Text.{Text, text, ◌==◌}
use rest_ecommerce_api.Prelude.{
  ℕ, zero, suc, ◌+◌, ◌-◌, ◌≡◌, inl, inr, refl, ◌∙◌, true, Option, none, some, arith, leb, nat_eq,
  math_min, math_max, is_some, if◌then◌else◌, Bool-cases,
}
use rest_ecommerce_api.RateLimiter.Policies.{RateLimitPolicy, global_policy, build_default_policies}
use rest_ecommerce_api.RateLimiter.Limiter.{
  RedisClient, first_policy, limiter_policies, resolve_policy, bucket_key, ceil_seconds,
  counted_result, start_window, after_started, after_incr, check_counter, check_policy,
}

-- With no override of the global policy, every request is under the global policy, whatever its
-- method and path: no other policy of the table is ever chosen.
pub resolve_policy-global :
    (overrides : Text → Option RateLimitPolicy) (method path : Text)
    → overrides (text "GLOBAL") ≡ none
    → resolve_policy (limiter_policies overrides) method path ≡ some global_policy
unfolding resolve_policy limiter_policies first_policy build_default_policies ◌==◌
resolve_policy-global overrides method path e = rw e refl

module _ {Db : Type 0} (client : RedisClient Db) (p : RateLimitPolicy) (key : Text) where
  counted_result-allowed :
      (now count : ℕ) (live : Option ℕ)
      → (counted_result now p count live).allowed ≡ leb count p.limit
  unfolding counted_result
  counted_result-allowed now count live = ground arith

  -- One check with a client whose commands succeed.
  after_incr-healthy :
      (now count : ℕ) (d : Db)
      → ((n : ℕ) (d' : Db) → (client.expire_nx key n d').0 ≡ true)
      → ((after_incr client now p key (some count) d).0.allowed ≡ leb count p.limit)
        × (client.count_at key (after_incr client now p key (some count) d).1
            ≡ client.count_at key d)
  unfolding after_incr after_started start_window
  after_incr-healthy now count d started = elim (Bool-cases (nat_eq count 1)) [
    | inl t ↦ rw t (
        rw (started (math_max 1 (ceil_seconds p.window_ms)) d)
          (counted_result-allowed now count _, client.expire_nx_lem key _ d))
    | inr t ↦ rw t (counted_result-allowed now count _, refl)
  ]

  check_counter-healthy :
      (now : ℕ) (d : Db)
      → is_some (client.incr key d).0 ≡ true
      → ((n : ℕ) (d' : Db) → (client.expire_nx key n d').0 ≡ true)
      → ((check_counter client now p key d).0.allowed ≡ leb (suc (client.count_at key d)) p.limit)
        × (client.count_at key (check_counter client now p key d).1 ≡ suc (client.count_at key d))
  unfolding check_counter
  check_counter-healthy now d up started = elim (client.incr_lem key d) [
    | inl failed ↦ absurd (ground (arith, failed, up))
    | inr (counted, after) ↦
        let (one, kept) =
          after_incr-healthy now (suc (client.count_at key d)) (client.incr key d).1 started in
        rw counted (one, kept ∙ after)
  ]

-- How many of `n` requests in a row, each at its time, the policy admits.
unfoldable pub admitted :
    {Db : Type 0}
    → Option (RedisClient Db)
    → RateLimitPolicy
    → Text
    → Text
    → Text
    → (ℕ → ℕ)
    → ℕ
    → Db
    → ℕ
admitted client p method path identifier now zero d = 0
admitted client p method path identifier now (suc n) d =
    let (result, after) = check_policy client (now n) p method path identifier d in
    (if result.allowed then 1 else 0) + admitted client p method path identifier now n after

module _ {Db : Type 0} (client : RedisClient Db) (p : RateLimitPolicy) where
  -- With a client whose commands succeed, `n` requests of one client on one route that come before the
  -- counter expires are admitted exactly as far as the limit has room: the smaller of `n` and the limit
  -- less what the counter holds.
  pub admitted-limit :
      (method path identifier : Text) (now : ℕ → ℕ) (n : ℕ) (d : Db)
      → ((k : Text) (d' : Db) → is_some (client.incr k d').0 ≡ true)
      → ((k : Text) (m : ℕ) (d' : Db) → (client.expire_nx k m d').0 ≡ true)
      → admitted (some client) p method path identifier now n d
        ≡ math_min n (p.limit - client.count_at (bucket_key p method path identifier) d)
  unfolding admitted check_policy
  admitted-limit method path identifier now zero d up started = ground arith
  admitted-limit method path identifier now (suc n) d up started =
      let key = bucket_key p method path identifier in
      let (one, next) = check_counter-healthy client p key (now n) d (up key d) (started key) in
      let rest =
        admitted-limit method path identifier now n (check_counter client (now n) p key d).1 up
          started in
      rw (one, rest, next) (ground arith)

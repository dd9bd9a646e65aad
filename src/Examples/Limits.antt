-- ===== src/Examples/Limits.antt =====
-- The rate limiter at concrete inputs.
use rest_ecommerce_api.Prelude.Text.{Text, text, ◌==◌, eq_refl}
use rest_ecommerce_api.Prelude.{
  ℕ, suc, ◌-◌, ◌≡◌, refl, inr, true, none, some, pos, math_min, if◌then◌else◌,
}
use rest_ecommerce_api.RateLimiter.Policies.{global_policy, login_policy}
use rest_ecommerce_api.RateLimiter.Limiter.{
  RedisClient, limiter_policies, resolve_policy, bucket_key,
}
use rest_ecommerce_api.RateLimiter.Admission.{resolve_policy-global, admitted, admitted-limit}

abbrev Counters : Type 0
Counters = Text → ℕ

abbrev counted : Text → Counters → Counters
counted key d k = if k == key then suc (d key) else d k

-- A client that counts in memory.
abbrev client : RedisClient Counters
client = record {
  count_at = λ key d. d key;
  incr = λ key d. (some (suc (d key)), counted key d);
  expire_nx = λ key n d. (true, d);
  ttl = λ key d. some (pos 60);
  incr_lem = λ key d. inr (refl, rw (eq_refl key) refl);
  expire_nx_lem = λ key n d. refl;
}

abbrev zeros : Counters
zeros k = 0

resolve_policy-global_example :
    resolve_policy (limiter_policies (λ scope. none)) (text "POST") (text "/api/v1/auth/login")
    ≡ some global_policy
resolve_policy-global_example =
    resolve_policy-global (λ scope. none) (text "POST") (text "/api/v1/auth/login") refl

admitted-limit_example :
    admitted (some client) login_policy (text "POST") (text "/login") (text "ip") (λ n. n) 9 zeros
    ≡ math_min 9 (
        5
        - client.count_at (bucket_key login_policy (text "POST") (text "/login") (text "ip")) zeros)
admitted-limit_example =
    admitted-limit client login_policy (text "POST") (text "/login") (text "ip") (λ n. n) 9 zeros
      (λ k d. refl) (λ k m d. refl)

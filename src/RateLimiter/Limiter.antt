-- ===== src/RateLimiter/Limiter.antt =====
-- The rate limiter of src/infrastructure/redis/rate-limiter.ts. The Redis client is a parameter.
use rest_ecommerce_api.Prelude.Text.{Text, text, ◌==◌, is_empty}
use rest_ecommerce_api.Prelude.{
  ℕ, suc, ◌+◌, ◌-◌, ◌*◌, ◌/◌, ◌≡◌, Bool, true, false, ◌&&◌, ◌||◌, not, Option, none, some, List, [],
  ◌∷◌, ◌++◌, ◌⊎◌, map, ℤ, pos, negsuc, ltb, nat_eq, first, take, or_else, math_max, if◌then◌else◌,
}
use rest_ecommerce_api.RateLimiter.Policies.{RateLimitPolicy, build_default_policies}

-- The commands of the client (the package redis), with `none` for a command that throws. `Db` is the
-- server's state.
pub record RedisClient (Db : Type 0) : Type 0 where
  pub count_at : Text → Db → ℕ
  pub incr : Text → Db → Option ℕ × Db
  pub expire_nx : Text → ℕ → Db → Bool × Db
  pub ttl : Text → Db → Option ℤ
  -- Documented: INCR adds one to the counter and returns it; a command that throws is not counted.
  pub incr_lem :
      (key : Text) (d : Db)
      → ((incr key d).0 ≡ none)
        ⊎ (((incr key d).0 ≡ some (suc (count_at key d)))
            × (count_at key (incr key d).1 ≡ suc (count_at key d)))
  -- Documented: EXPIRE leaves the value as it is.
  pub expire_nx_lem :
      (key : Text) (n : ℕ) (d : Db) → count_at key (expire_nx key n d).1 ≡ count_at key d

pub record RateLimitResult : Type 0 where
  pub allowed : Bool
  pub remaining : ℕ
  pub limit : ℕ
  pub reset : ℕ
  pub retry_after : Option ℕ

-- What an optional string demands: a missing or an empty one demands nothing.
abbrev pub demands : (Text → Bool) → Option Text → Bool
demands test none = true
demands test (some t) = is_empty t || test t

unfoldable pub starts_with : Text → Text → Bool
starts_with t [] = true
starts_with [] (c ∷ p) = false
starts_with (d ∷ t) (c ∷ p) = nat_eq d c && starts_with t p

-- `path.split('?')[0]`
unfoldable pub before_query : Text → Text
before_query [] = []
before_query (c ∷ t) = let rest = before_query t in if nat_eq c 63 then [] else c ∷ rest

abbrev pub is_global : RateLimitPolicy → Bool
is_global p = p.scope == text "GLOBAL"

-- `for (const p of policies)`
unfoldable pub first_policy : Text → Text → List RateLimitPolicy → Option RateLimitPolicy
first_policy method path [] = none
first_policy method path (p ∷ policies) =
    let rest = first_policy method path policies in
    elim p.matching [
      | none ↦ if is_global p then some p else rest
      | some m ↦
          if not (demands (λ t. t == method) m.method)
          then rest
          else if not (demands (λ t. starts_with path t) m.path_prefix)
          then rest
          else some p
    ]

-- `overrides[p.scope] ?? p`
unfoldable pub limiter_policies : (Text → Option RateLimitPolicy) → List RateLimitPolicy
unfolding build_default_policies
limiter_policies overrides = map (λ p. or_else (overrides p.scope) p) build_default_policies

unfoldable pub resolve_policy : List RateLimitPolicy → Text → Text → Option RateLimitPolicy
unfolding first
resolve_policy policies method path = elim (first_policy method path policies) [
  | some p ↦ some p
  | none ↦ first is_global policies
]

abbrev pub max_safe_integer : ℕ
max_safe_integer = 9007199254740991

-- `Math.ceil(ms / 1000)`
abbrev pub ceil_seconds : ℕ → ℕ
ceil_seconds ms = (ms + 999) / 1000

-- A time to live that is positive, in seconds.
abbrev pub positive_ttl : ℤ → Option ℕ
positive_ttl (pos n) = if ltb 0 n then some n else none
positive_ttl (negsuc n) = none

unfoldable pub bucket_key : RateLimitPolicy → Text → Text → Text → Text
unfolding before_query
bucket_key p method path identifier =
    let safe = take 128 identifier in
    p.key_prefix
    ++ text ":"
    ++ (if is_empty safe then text "anon" else safe)
    ++ text ":"
    ++ method
    ++ text ":"
    ++ before_query path

unfoldable pub fail_closed_result : ℕ → RateLimitPolicy → RateLimitResult
fail_closed_result now p = record {
  allowed = false;
  remaining = 0;
  limit = p.limit;
  reset = now + p.window_ms;
  retry_after = some (ceil_seconds p.window_ms);
}

unfoldable pub fail_open_result : ℕ → RateLimitPolicy → RateLimitResult
fail_open_result now p = record {
  allowed = true;
  remaining = p.limit;
  limit = p.limit;
  reset = now + p.window_ms;
  retry_after = none;
}

-- The result for a counter and a time to live, if it is positive.
unfoldable pub counted_result : ℕ → RateLimitPolicy → ℕ → Option ℕ → RateLimitResult
counted_result now p count live =
    let ttl_sec = math_max 1 (ceil_seconds p.window_ms) in
    let reset = now + elim live [ some n ↦ n * 1000 | none ↦ p.window_ms ] in
    if ltb p.limit count
    then record {
      allowed = false;
      remaining = 0;
      limit = p.limit;
      reset = reset;
      retry_after = some (or_else live ttl_sec);
    }
    else record {
      allowed = true;
      remaining = p.limit - count;
      limit = p.limit;
      reset = reset;
      retry_after = none;
    }

module _ {Db : Type 0} (client : RedisClient Db) where
  -- `if (count === 1) await client.expire(…)`; a throw is the Boolean false.
  unfoldable pub start_window : Text → ℕ → ℕ → Db → Bool × Db
  start_window key ttl_sec count d =
      if nat_eq count 1 then client.expire_nx key ttl_sec d else (true, d)

  -- Behind `incr`, in the `try` of `check`: a throw leads to `fail_open_result`, whatever the policy
  -- says.
  unfoldable pub after_started : ℕ → RateLimitPolicy → Text → ℕ → Bool → Db → RateLimitResult × Db
  after_started now p key count false d = (fail_open_result now p, d)
  after_started now p key count true d =
      let ttl_sec = math_max 1 (ceil_seconds p.window_ms) in
      (counted_result now p count (positive_ttl (or_else (client.ttl key d) (pos ttl_sec))), d)

  unfoldable pub after_incr : ℕ → RateLimitPolicy → Text → Option ℕ → Db → RateLimitResult × Db
  after_incr now p key none d = (fail_open_result now p, d)
  after_incr now p key (some count) d =
      let ttl_sec = math_max 1 (ceil_seconds p.window_ms) in
      let (started, after) = start_window key ttl_sec count d in
      after_started now p key count started after

  unfoldable pub check_counter : ℕ → RateLimitPolicy → Text → Db → RateLimitResult × Db
  check_counter now p key d =
      let (incremented, counted) = client.incr key d in after_incr now p key incremented counted

-- `check` under the policy in force; no client stands for one that is missing or not connected.
unfoldable pub check_policy :
    {Db : Type 0}
    → Option (RedisClient Db)
    → ℕ
    → RateLimitPolicy
    → Text
    → Text
    → Text
    → Db
    → RateLimitResult × Db
check_policy none now p method path identifier d =
    (if p.fail_closed then fail_closed_result now p else fail_open_result now p, d)
check_policy (some client) now p method path identifier d =
    check_counter client now p (bucket_key p method path identifier) d

unfoldable pub check :
    {Db : Type 0}
    → Option (RedisClient Db)
    → List RateLimitPolicy
    → ℕ
    → Text
    → Text
    → Text
    → Option RateLimitPolicy
    → Db
    → RateLimitResult × Db
check client policies now method path identifier policy d =
    let effective : Option RateLimitPolicy = elim policy [
      | some p ↦ some p
      | none ↦ resolve_policy policies method path
    ] in
    elim effective [
      | some p ↦ check_policy client now p method path identifier d
      | none ↦ (
        record {
          allowed = true;
          remaining = max_safe_integer;
          limit = max_safe_integer;
          reset = now;
          retry_after = none;
        },
        d,
      )
    ]

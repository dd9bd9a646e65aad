-- ===== src/Auth/Jwt.antt =====
-- src/modules/auth/infrastructure/adapters/JwtTokenProvider.ts over the package jsonwebtoken, and the
-- service with it.
use rest_ecommerce_api.Prelude.Text.{Text}
use rest_ecommerce_api.Prelude.{
  ℕ, ◌≡◌, refl, inl, inr, false, not, leb, length, Option, none, some, List, Option-cases, arith,
}
use rest_ecommerce_api.Errors.{
  Result, ok, err, is_ok, invalid_credentials, account_locked, invalid_password, token_invalid,
  max_sessions_reached, pure, raise, ◌>>=◌,
}
use rest_ecommerce_api.Errors.Rules.{
  bind_result, bind_none, bind_some, require_cases, or_raise_cases,
}
use rest_ecommerce_api.Auth.Entity.{User, Claims, TokenProvider, Hashing}
use rest_ecommerce_api.Auth.Repository.{
  Store, Database, save_token, find_by_email, find_active_by_user_id,
}
use rest_ecommerce_api.Auth.Service.{
  Request, Issued, max_sessions, has_length, create_email, issue, save_tokens, open_session, login,
}

-- The claims that jsonwebtoken returns.
pub record JwtPayload : Type 0 where
  pub sub : Text
  pub jti : Option Text
  pub exp : Option ℕ

-- `sign(payload, secret, { expiresIn, issuer, audience })` and `verify(token, secret, { issuer })` at a
-- time; the payload has the subject, and in an access token the address and the roles.
pub record JsonWebToken : Type 0 where
  pub sign : ℕ → Text → Option (Text × List Text) → Text → Text → Text
  pub verify : ℕ → Text → Text → Option JwtPayload

pub record EnvConfig : Type 0 where
  pub jwt_access_secret : Text
  pub jwt_refresh_secret : Text
  pub access_token_ttl : Text
  pub refresh_token_ttl : Text

-- What the two verifications return of a payload.
abbrev pub returned_claims : Option JwtPayload → Option Claims
returned_claims none = none
returned_claims (some payload) = some (record { sub = payload.sub; jti = payload.jti; exp = none })

abbrev pub jwt_token_provider : JsonWebToken → EnvConfig → TokenProvider
jwt_token_provider jwt config = record {
  generate_access_token = λ now user email roles.
      jwt.sign now user (some (email, roles)) config.jwt_access_secret config.access_token_ttl;
  generate_refresh_token =
      λ now user. jwt.sign now user none config.jwt_refresh_secret config.refresh_token_ttl;
  verify_access_token =
      λ now token. returned_claims (jwt.verify now token config.jwt_access_secret);
  verify_refresh_token =
      λ now token. returned_claims (jwt.verify now token config.jwt_refresh_secret);
}

module _ {World : Type 0} (db : Database) (jwt : JsonWebToken) (config : EnvConfig) where
  -- The call raises.
  abbrev Fails : {A : Type 0} → Result A × Store World → Type 0
  Fails x = is_ok x.0 ≡ false

  -- The tokens that are issued have no expiry.
  HasNoExpiry : Result Issued × Store World → Type 0
  HasNoExpiry (ok issued, s) = issued.access_claims.exp ≡ none
  HasNoExpiry (err e, s) = Unit {0}

  issue-HasNoExpiry :
      (now : ℕ) (user : User) (s : Store World)
      → HasNoExpiry (issue db (jwt_token_provider jwt config) now user s)
  unfolding issue HasNoExpiry pure
  issue-HasNoExpiry now user s =
      let signed =
        jwt.sign now user.id (some (user.email, user.roles)) config.jwt_access_secret
          config.access_token_ttl in
      elim (Option-cases (jwt.verify now signed config.jwt_access_secret)) [
        | inl e ↦ rw (e, bind_none) tt
        | inr (p, e) ↦
            rw (e, bind_some)
              (or_raise_cases HasNoExpiry token_invalid s _ _ tt (λ refresh_claims. refl))
      ]

  save_tokens-Fails :
      (c : Request) (user : Text) (issued : Issued) (s : Store World)
      → issued.access_claims.exp ≡ none
      → Fails (save_tokens db (jwt_token_provider jwt config) c user issued s)
  unfolding save_tokens save_token raise ◌>>=◌
  save_tokens-Fails c user issued s e = rw e refl

  open_session-Fails :
      (c : Request) (ip_address user_agent : Text) (user : User) (s : Store World)
      → Fails (open_session db (jwt_token_provider jwt config) c ip_address user_agent user s)
  unfolding open_session find_active_by_user_id HasNoExpiry
  open_session-Fails c ip_address user_agent user s =
      bind_result HasNoExpiry Fails (issue db (jwt_token_provider jwt config) c.now user) _ s
        (issue-HasNoExpiry c.now user s)
        (λ issued t e.
          bind_result (λ x. Unit {0}) Fails (find_active_by_user_id db user.id) _ t tt
            (λ sessions u _.
              require_cases Fails max_sessions_reached u (not (leb max_sessions (length sessions)))
                _ refl
                (bind_result Fails Fails
                  (save_tokens db (jwt_token_provider jwt config) c user.id issued) _ u
                  (save_tokens-Fails c user.id issued u e) (λ _ v f. absurd (ground (arith, f)))
                  (λ x v f. refl)))
            (λ x u _. refl))
        (λ x t _. refl)

  -- With the tokens of `JwtTokenProvider`, whose verification returns no expiry, no login succeeds,
  -- whoever logs in and whatever jsonwebtoken signs and verifies.
  pub login-Fails :
      (crypto : Hashing) (c : Request) (email password ip_address user_agent : Text)
      (s : Store World)
      → is_ok
          (login db
            (jwt_token_provider jwt config)
            crypto
            c
            email
            password
            ip_address
            user_agent
            s).0
        ≡ false
  unfolding login
  login-Fails crypto c raw password ip_address user_agent s =
      bind_result (λ x. Unit {0}) Fails (create_email crypto raw) _ s tt
        (λ email t _.
          bind_result (λ x. Unit {0}) Fails (find_by_email db email) _ t tt
            (λ found u _. or_raise_cases Fails invalid_credentials u found _ refl λ user.
              require_cases Fails account_locked u user.is_active _ refl (
                require_cases Fails invalid_password u (has_length password) _ refl (
                  require_cases Fails invalid_credentials u
                    (crypto.verify user.password_hash password) _ refl
                    (open_session-Fails c ip_address user_agent user u))))
            (λ x u _. refl))
        (λ x t _. refl)

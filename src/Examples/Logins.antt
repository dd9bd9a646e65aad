-- ===== src/Examples/Logins.antt =====
-- The logins at concrete inputs: Ann, with one refresh token.
use rest_ecommerce_api.Prelude.Text.{Text, text, ◌==◌, to_lower_case, lower_unit}
use rest_ecommerce_api.Prelude.{ℕ, ◌≡◌, ◌⊎◌, refl, Bool, true, false, none, some, [], ◌∷◌, first}
use rest_ecommerce_api.Memory.{memory}
use rest_ecommerce_api.Errors.{ok, is_ok}
use rest_ecommerce_api.Auth.Entity.{
  User, TokenType, TokenRecord, TokenProvider, Hashing, OtpService,
}
use rest_ecommerce_api.Auth.Repository.{Store, Database}
use rest_ecommerce_api.Auth.Service.{Request, refresh_tokens, authenticate, login}
use rest_ecommerce_api.Auth.Accounts.{change_password, reset_password}
use rest_ecommerce_api.Auth.Ending.{
  IsLoggedOut, Ends, IsRefused, change_password-Ends, reset_password-Ends, IsLoggedOut-IsRefused,
}
use rest_ecommerce_api.Auth.Calls.{refreshes, logs_out, run}
use rest_ecommerce_api.Auth.Rotating.{refresh_tokens-once}
use rest_ecommerce_api.Auth.Jwt.{JsonWebToken, EnvConfig, jwt_token_provider, login-Fails}

abbrev db : Database
db = record { users = memory _; sessions = memory _; tokens = memory _ }

abbrev request : ℕ → Request
request n = record { now = n; uuid = λ k. n ∷ k ∷ [] }

-- Tokens that name their kind, their time and their user, and are their own identifier.
abbrev provider : TokenProvider
provider = record {
  generate_access_token = λ now user email roles. 0 ∷ now ∷ user;
  generate_refresh_token = λ now user. 1 ∷ now ∷ user;
  verify_access_token =
      λ now token. some (record { sub = text "ann"; jti = some token; exp = some 900 });
  verify_refresh_token =
      λ now token. some (record { sub = text "ann"; jti = some token; exp = some 900 });
}

-- Hashing that stores a password as it is.
abbrev plain : Hashing
plain = record { hash = λ now p. p; verify = λ h p. h == p; is_email = λ e. true }

abbrev codes : OtpService (Unit {0})
codes = record {
  generate_otp = λ email w. (ok 300, w);
  verify_otp = λ email otp w. (ok (otp == text "123"), w);
}

abbrev ann : User
ann = record {
  id = text "ann";
  email = text "a@b.in";
  password_hash = text "Secret-1";
  name = text "Ann";
  is_email_verified = true;
  is_active = true;
  roles = text "user" ∷ [];
  last_login_at = none;
  created_at = 0;
  updated_at = 0;
}

abbrev token_of : Text → TokenType → Bool → TokenRecord
token_of token kind revoked = record {
  id = token;
  user_id = text "ann";
  token = token;
  token_type = kind;
  is_revoked = revoked;
  is_used = false;
  expires_at = 900000;
  created_at = 0;
}

abbrev token : Text
token = text "r1"

abbrev store : Bool → Store (Unit {0})
store revoked = record {
  users = ann ∷ [];
  sessions = [];
  tokens = token_of token TokenType.refresh revoked ∷ [];
  world = tt;
}

change_password-Ends_example : Ends db (store false) (text "ann") (
    change_password db plain
      (request 5)
      (text "ann")
      (text "Secret-1")
      (text "Secret-2")
      (store false))
change_password-Ends_example =
    change_password-Ends db plain (request 5) (text "ann") (text "Secret-1") (text "Secret-2")
      (store false)

reset_password-Ends_example : Ends db (store false) (text "ann") (
    reset_password db codes plain
      (request 5)
      (text "a@b.in")
      (text "123")
      (text "Secret-2")
      (store false))
unfolding first ◌==◌ to_lower_case lower_unit
reset_password-Ends_example =
    reset_password-Ends db codes plain (request 5) (text "a@b.in") (text "123") (text "Secret-2")
      ann (store false) refl

all_out : IsLoggedOut (text "ann") (store true)
all_out = record { no_token = (λ h. refl, tt); no_session = tt }

IsLoggedOut-IsRefused_example :
    IsRefused db provider (store true) (authenticate db provider 5 token (store true))
    × IsRefused db provider (store true) (refresh_tokens db provider (request 5) token (store true))
unfolding first ◌==◌
IsLoggedOut-IsRefused_example =
    IsLoggedOut-IsRefused db provider (text "ann") token (request 5)
      (token_of token TokenType.refresh true) (store true) all_out refl refl

-- A library that signs nothing and verifies everything.
abbrev jwt : JsonWebToken
jwt = record {
  sign = λ now user claims secret ttl. now ∷ user;
  verify = λ now token secret. some (record { sub = text "ann"; jti = none; exp = some 900 });
}

abbrev config : EnvConfig
config = record {
  jwt_access_secret = text "a";
  jwt_refresh_secret = text "r";
  access_token_ttl = text "15m";
  refresh_token_ttl = text "7d";
}

login-Fails_example :
    is_ok
      (login db
        (jwt_token_provider jwt config)
        plain
        (request 5)
        (text "a@b.in")
        (text "Secret-1")
        (text "::1")
        (text "curl")
        (store false)).0
    ≡ false
login-Fails_example =
    login-Fails db jwt config plain (request 5) (text "a@b.in") (text "Secret-1") (text "::1")
      (text "curl") (store false)

-- The provider of the program: the rotation raises behind the revocation.
abbrev behind : Store (Unit {0})
behind =
    run db (jwt_token_provider jwt config) codes plain
      (refreshes (request 6) token ∷ logs_out (text "ann") token ∷ [])
      (refresh_tokens db (jwt_token_provider jwt config) (request 5) token (store false)).1

refresh_tokens-once_example :
    IsRefused db
      (jwt_token_provider jwt config)
      (store false)
      (refresh_tokens db (jwt_token_provider jwt config) (request 5) token (store false))
    ⊎ IsRefused db
        (jwt_token_provider jwt config)
        behind
        (refresh_tokens db (jwt_token_provider jwt config) (request 7) token behind)
unfolding first ◌==◌
refresh_tokens-once_example =
    refresh_tokens-once db (jwt_token_provider jwt config) token codes plain
      (token_of token TokenType.refresh false) (store false) refl refl (request 5) (request 7)
      (refreshes (request 6) token ∷ logs_out (text "ann") token ∷ [])

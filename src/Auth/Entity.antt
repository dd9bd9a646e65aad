-- ===== src/Auth/Entity.antt =====
-- The records of src/modules/auth/domain, and what its service is given: the token provider, the
-- hashing of passwords and the one time passwords.
use rest_ecommerce_api.Prelude.Text.{Text}
use rest_ecommerce_api.Prelude.{ℕ, Bool, Option, List}
use rest_ecommerce_api.Errors.{Action}

-- Without the optional fields of the profile, which the service does not set.
pub record User : Type 0 where
  pub id : Text
  pub email : Text
  pub password_hash : Text
  pub name : Text
  pub is_email_verified : Bool
  pub is_active : Bool
  pub roles : List Text
  pub last_login_at : Option ℕ
  pub created_at : ℕ
  pub updated_at : ℕ

pub data TokenType : Type 0 where
  access refresh : TokenType

pub record TokenRecord : Type 0 where
  pub id : Text
  pub user_id : Text
  pub token : Text
  pub token_type : TokenType
  pub is_revoked : Bool
  pub is_used : Bool
  pub expires_at : ℕ
  pub created_at : ℕ

-- A record as it is handed to `saveToken`: a claim that the token lacks leaves the identifier
-- undefined, or the expiry an invalid date.
pub record NewToken : Type 0 where
  pub id : Option Text
  pub user_id : Text
  pub token : Text
  pub token_type : TokenType
  pub expires_at : Option ℕ
  pub created_at : ℕ

pub record Session : Type 0 where
  pub id : Text
  pub user_id : Text
  pub token_id : Option Text
  pub refresh_token_id : Option Text
  pub user_agent : Text
  pub ip_address : Text
  pub is_active : Bool
  pub created_at : ℕ
  pub expires_at : Option ℕ
  pub last_activity_at : ℕ

-- The claims of a verified token that the service reads.
pub record Claims : Type 0 where
  pub sub : Text
  pub jti : Option Text
  pub exp : Option ℕ

-- `TokenProvider`: signing and verifying at a time; a failed verification throws.
pub record TokenProvider : Type 0 where
  pub generate_access_token : ℕ → Text → Text → List Text → Text
  pub generate_refresh_token : ℕ → Text → Text
  pub verify_access_token : ℕ → Text → Option Claims
  pub verify_refresh_token : ℕ → Text → Option Claims

-- argon2, with the salt that it draws at a time, and the pattern of `Email.create`.
pub record Hashing : Type 0 where
  pub hash : ℕ → Text → Text
  pub verify : Text → Text → Bool
  pub is_email : Text → Bool

-- `OtpService`; `World` is what it keeps.
pub record OtpService (World : Type 0) : Type 0 where
  pub generate_otp : Text → Action World ℕ
  pub verify_otp : Text → Text → Action World Bool

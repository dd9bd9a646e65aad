-- ===== src/Auth/Accounts.antt =====
-- src/modules/auth/application/auth.service.ts: logging out, and the changes of an account that end
-- its logins.
use rest_ecommerce_api.Prelude.Text.{Text, ◌==◌}
use rest_ecommerce_api.Prelude.{true, ◌&&◌, not, none, some, if◌then◌else◌}
use rest_ecommerce_api.Errors.{
  Action, user_not_found, email_already_verified, invalid_credentials, invalid_password,
  password_mismatch, pure, or_raise, require, ◌>>=◌, ◌>>◌,
}
use rest_ecommerce_api.Auth.Entity.{TokenRecord, Hashing, OtpService}
use rest_ecommerce_api.Auth.Repository.{
  Store, Database, find_by_email, find_user_by_id, update_user, find_by_token, revoke_token,
  revoke_all_user_tokens, mark_token_used, find_by_token_id, revoke_by_id, revoke_all_by_user_id,
}
use rest_ecommerce_api.Auth.Service.{Request, has_length}

-- An operation of the one time passwords.
unfoldable pub with_otp : {World A : Type 0} → Action World A → Action (Store World) A
with_otp m s = let (r, w) = m s.world in (r, record s { world = w })

module _ {World : Type 0} (db : Database) where
  unfoldable pub end_login : Text → TokenRecord → Action (Store World) (Unit {0})
  end_login user token_doc = do
    revoke_token db token_doc.id
    mark_token_used db token_doc.id
    found ← find_by_token_id db (some token_doc.id)
    elim found [
      | some x ↦ if x.user_id == user && x.is_active then revoke_by_id db x.id else pure tt
      | none ↦ pure tt
    ]

  unfoldable pub logout : Text → Text → Action (Store World) (Unit {0})
  logout user token = do
    found ← find_by_token db token
    elim found [
      | some token_doc ↦ if not token_doc.is_revoked then end_login user token_doc else pure tt
      | none ↦ pure tt
    ]

  unfoldable pub logout_all : Text → Action (Store World) (Unit {0})
  logout_all user = do revoke_all_user_tokens db user; revoke_all_by_user_id db user

  -- A new password ends every login.
  unfoldable pub set_password : Hashing → Request → Text → Text → Action (Store World) (Unit {0})
  set_password crypto c user password = do
    require (has_length password) invalid_password
    update_user db user
        (λ u. record u { password_hash = crypto.hash c.now password; updated_at = c.now })
    logout_all user

  unfoldable pub change_password :
      Hashing → Request → Text → Text → Text → Action (Store World) (Unit {0})
  change_password crypto c user current password = do
    found ← find_user_by_id db user
    known ← or_raise found user_not_found
    require (has_length current) invalid_password
    require (crypto.verify known.password_hash current) password_mismatch
    set_password crypto c user password

  module _ (otps : OtpService World) where
    unfoldable pub verify_email : Request → Text → Text → Action (Store World) (Unit {0})
    verify_email c user otp = do
      found ← find_user_by_id db user
      known ← or_raise found user_not_found
      require (not known.is_email_verified) email_already_verified
      valid ← with_otp (otps.verify_otp known.email otp)
      require valid invalid_credentials
      update_user db user (λ u. record u { is_email_verified = true; updated_at = c.now })

    unfoldable pub forgot_password : Text → Action (Store World) (Unit {0})
    forgot_password email = do
      found ← find_by_email db email
      elim found [
        | some known ↦ (do with_otp (otps.generate_otp known.email); pure tt)
        | none ↦ pure tt
      ]

    unfoldable pub reset_password :
        Hashing → Request → Text → Text → Text → Action (Store World) (Unit {0})
    reset_password crypto c email otp password = do
      found ← find_by_email db email
      known ← or_raise found user_not_found
      valid ← with_otp (otps.verify_otp known.email otp)
      require valid invalid_credentials
      set_password crypto c known.id password

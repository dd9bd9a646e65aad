-- ===== src/Auth/Keeping.antt =====
-- The operations of src/modules/auth/application/auth.service.ts, and a token that is spent before them.
use rest_ecommerce_api.Prelude.Text.{Text, ◌==◌}
use rest_ecommerce_api.Prelude.{◌&&◌, not}
use rest_ecommerce_api.Errors.Rules.{
  Keeps-bind, Keeps-pure, Keeps-or_raise, Keeps-require, Keeps-if, Keeps-option,
}
use rest_ecommerce_api.Auth.Entity.{User, TokenRecord, TokenProvider, Hashing, OtpService}
use rest_ecommerce_api.Auth.Repository.{
  Database, exists_by_email, find_by_token_id, find_active_by_user_id,
}
use rest_ecommerce_api.Auth.Service.{
  Request, RegisterUserInput, register, open_session, login, rotate, refresh_tokens,
}
use rest_ecommerce_api.Auth.Accounts.{
  end_login, logout, logout_all, set_password, change_password, verify_email, forgot_password,
  reset_password,
}
use rest_ecommerce_api.Auth.Spending.{
  revoke_token-Keeps, mark_token_used-Keeps, create_session-Keeps, revoke_by_id-Keeps,
  save_tokens-Keeps, after-Keeps,
}
use rest_ecommerce_api.Auth.Steps.{
  KeepsSpent, update_user-Keeps, save_user-Keeps, revoke_all_by_user_id-Keeps,
  revoke_all_user_tokens-Keeps, find_by_email-Keeps, find_user_by_id-Keeps, find_by_token-Keeps,
  create_email-Keeps, issue-Keeps, with_otp-Keeps,
}

module _ {World : Type 0} (db : Database) (tokens : TokenProvider) (token : Text)
    (crypto : Hashing) where
  pub register-Keeps :
      (c : Request) (payload : RegisterUserInput)
      → KeepsSpent {World = World} db token (register db tokens crypto c payload)
  unfolding register exists_by_email
  register-Keeps c payload =
      Keeps-bind _ _ (create_email-Keeps db token crypto payload.email) λ email.
        Keeps-bind _ _ (record { at = λ s h. h })
          λ known. Keeps-bind _ _ (Keeps-require _ _) λ _. Keeps-bind _ _ (Keeps-require _ _) λ _.
            Keeps-bind _ _ (save_user-Keeps db token _) λ _.
              Keeps-bind _ _ (issue-Keeps db token tokens c.now _) λ issued.
                Keeps-bind _ _ (save_tokens-Keeps db tokens token c _ issued) λ _. Keeps-pure _

  open_session-Keeps :
      (c : Request) (ip_address user_agent : Text) (user : User)
      → KeepsSpent {World = World} db token (open_session db tokens c ip_address user_agent user)
  unfolding open_session find_active_by_user_id
  open_session-Keeps c ip_address user_agent user =
      Keeps-bind _ _ (issue-Keeps db token tokens c.now user) λ issued.
        Keeps-bind _ _ (record { at = λ s h. h })
          λ sessions. Keeps-bind _ _ (Keeps-require _ _) λ _.
            Keeps-bind _ _ (save_tokens-Keeps db tokens token c user.id issued) λ _.
              Keeps-bind _ _ (create_session-Keeps db tokens token _)
                λ _. Keeps-bind _ _ (update_user-Keeps db token user.id _) λ _. Keeps-pure _

  pub login-Keeps :
      (c : Request) (raw password ip_address user_agent : Text)
      → KeepsSpent {World = World} db token
          (login db tokens crypto c raw password ip_address user_agent)
  unfolding login
  login-Keeps c raw password ip_address user_agent =
      Keeps-bind _ _ (create_email-Keeps db token crypto raw) λ email.
        Keeps-bind _ _ (find_by_email-Keeps db token email) λ found.
          Keeps-bind _ _ (Keeps-or_raise _ _) λ user. Keeps-bind _ _ (Keeps-require _ _) λ _.
            Keeps-bind _ _ (Keeps-require _ _) λ _.
              Keeps-bind _ _ (Keeps-require _ _)
                λ _. open_session-Keeps c ip_address user_agent user

  rotate-Keeps :
      (c : Request) (user : User) (d : TokenRecord)
      → KeepsSpent {World = World} db token (rotate db tokens c user d)
  unfolding rotate
  rotate-Keeps c user d = Keeps-bind _ _ (issue-Keeps db token tokens c.now user) λ issued.
      Keeps-bind _ _ (revoke_token-Keeps db tokens token d.id)
        λ _. after-Keeps db tokens token c user issued d

  pub refresh_tokens-Keeps :
      (c : Request) (other : Text)
      → KeepsSpent {World = World} db token (refresh_tokens db tokens c other)
  unfolding refresh_tokens
  refresh_tokens-Keeps c other = Keeps-bind _ _ (Keeps-or_raise _ _) λ claims.
      Keeps-bind _ _ (find_by_token-Keeps db token other) λ found.
        Keeps-bind _ _ (Keeps-or_raise _ _) λ d. Keeps-bind _ _ (Keeps-require _ _) λ _.
          Keeps-bind _ _ (find_user_by_id-Keeps db token claims.sub) λ someone.
            Keeps-bind _ _ (Keeps-or_raise _ _)
              λ user. Keeps-bind _ _ (Keeps-require _ _) λ _. rotate-Keeps c user d

  pub logout-Keeps :
      (user other : Text) → KeepsSpent {World = World} db token (logout db user other)
  unfolding logout end_login find_by_token_id
  logout-Keeps user other = Keeps-bind _ _ (find_by_token-Keeps db token other) λ found.
      Keeps-option found _ _
        (λ d.
          Keeps-if (not d.is_revoked) _ _
            (Keeps-bind _ _ (revoke_token-Keeps db tokens token d.id) λ _.
              Keeps-bind _ _ (mark_token_used-Keeps db tokens token d.id) λ _.
                Keeps-bind _ _ (record { at = λ s h. h })
                  λ opened.
                    Keeps-option opened _ _
                      (λ x.
                        Keeps-if (x.user_id == user && x.is_active) _ _
                          (revoke_by_id-Keeps db tokens token x.id) (Keeps-pure tt))
                      (Keeps-pure tt))
            (Keeps-pure tt))
        (Keeps-pure tt)

  pub logout_all-Keeps : (user : Text) → KeepsSpent {World = World} db token (logout_all db user)
  unfolding logout_all
  logout_all-Keeps user =
      Keeps-bind _ _ (revoke_all_user_tokens-Keeps db token user)
        λ _. revoke_all_by_user_id-Keeps db token user

  set_password-Keeps :
      (c : Request) (user password : Text)
      → KeepsSpent {World = World} db token (set_password db crypto c user password)
  unfolding set_password
  set_password-Keeps c user password =
      Keeps-bind _ _ (Keeps-require _ _)
        λ _. Keeps-bind _ _ (update_user-Keeps db token user _) λ _. logout_all-Keeps user

  pub change_password-Keeps :
      (c : Request) (user current password : Text)
      → KeepsSpent {World = World} db token (change_password db crypto c user current password)
  unfolding change_password
  change_password-Keeps c user current password =
      Keeps-bind _ _ (find_user_by_id-Keeps db token user) λ found.
        Keeps-bind _ _ (Keeps-or_raise _ _) λ known.
          Keeps-bind _ _ (Keeps-require _ _)
            λ _. Keeps-bind _ _ (Keeps-require _ _) λ _. set_password-Keeps c user password

  module _ (otps : OtpService World) where
    pub verify_email-Keeps :
        (c : Request) (user otp : Text) → KeepsSpent db token (verify_email db otps c user otp)
    unfolding verify_email
    verify_email-Keeps c user otp = Keeps-bind _ _ (find_user_by_id-Keeps db token user) λ found.
        Keeps-bind _ _ (Keeps-or_raise _ _) λ known. Keeps-bind _ _ (Keeps-require _ _) λ _.
          Keeps-bind _ _ (with_otp-Keeps db token (otps.verify_otp known.email otp))
            λ valid. Keeps-bind _ _ (Keeps-require _ _) λ _. update_user-Keeps db token user _

    pub forgot_password-Keeps : (email : Text) → KeepsSpent db token (forgot_password db otps email)
    unfolding forgot_password
    forgot_password-Keeps email = Keeps-bind _ _ (find_by_email-Keeps db token email) λ found.
        Keeps-option found _ _
          (λ known.
            Keeps-bind _ _ (with_otp-Keeps db token (otps.generate_otp known.email))
              λ _. Keeps-pure tt)
          (Keeps-pure tt)

    pub reset_password-Keeps :
        (c : Request) (email otp password : Text)
        → KeepsSpent db token (reset_password db otps crypto c email otp password)
    unfolding reset_password
    reset_password-Keeps c email otp password =
        Keeps-bind _ _ (find_by_email-Keeps db token email) λ found.
          Keeps-bind _ _ (Keeps-or_raise _ _) λ known.
            Keeps-bind _ _ (with_otp-Keeps db token (otps.verify_otp known.email otp)) λ valid.
              Keeps-bind _ _ (Keeps-require _ _) λ _. set_password-Keeps c known.id password

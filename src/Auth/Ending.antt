-- ===== src/Auth/Ending.antt =====
-- The end of every login of a user: logoutAll, changePassword and resetPassword of
-- src/modules/auth/application/auth.service.ts.
use rest_ecommerce_api.Prelude.Text.{Text, ◌==◌}
use rest_ecommerce_api.Prelude.{ℕ, ◌≡◌, refl, ap, ◌∙◌, true, false, not, some, All, first, arith}
use rest_ecommerce_api.Prelude.Updates.{All-first}
use rest_ecommerce_api.Prelude.Replacing.{All-update}
use rest_ecommerce_api.Errors.{
  Error, Action, Result, ok, err, user_not_found, invalid_password, invalid_credentials,
  password_mismatch, token_invalid, token_expired, token_reused, or_raise, require, ◌>>=◌,
}
use rest_ecommerce_api.Errors.Rules.{
  bind_ok, bind_err, bind_some, bind_result, require_cases, or_raise_cases, require_err,
}
use rest_ecommerce_api.Auth.Entity.{User, TokenRecord, Hashing, OtpService, TokenProvider}
use rest_ecommerce_api.Auth.Repository.{
  Store, Database, has_token, has_email, is_live_token, is_live_session, revoked_token,
  revoked_session, revoke_all_user_tokens, revoke_all_by_user_id, update_user, find_by_token,
  find_user_by_id, find_by_email,
}
use rest_ecommerce_api.Auth.Service.{Request, is_spent, has_length, refresh_tokens, authenticate}
use rest_ecommerce_api.Auth.Accounts.{
  with_otp, logout_all, set_password, change_password, reset_password,
}

-- Every token of the user is revoked, and every session of the user has ended.
pub record IsLoggedOut {World : Type 0} (user : Text) (s : Store World) : Type 0 where
  pub no_token : All (λ t. t.user_id == user ≡ true → t.is_revoked ≡ true) s.tokens
  pub no_session : All (λ x. x.user_id == user ≡ true → x.is_active ≡ false) s.sessions

module _ {World : Type 0} (db : Database) where
  -- What one time passwords keep aside.
  abbrev IsSame : Store World → Store World → Type 0
  IsSame a b = (a.users ≡ b.users) × (a.sessions ≡ b.sessions) × (a.tokens ≡ b.tokens)

  -- Behind a success the user is logged out, behind an error nothing has changed.
  unfoldable pub Ends : Store World → Text → Result (Unit {0}) × Store World → Type 0
  Ends before user (ok _, s) = IsLoggedOut user s
  Ends before user (err e, s) = IsSame s before

  logout_all-IsLoggedOut :
      (before : Store World) (user : Text) (s : Store World)
      → Ends before user (logout_all db user s)
  unfolding logout_all revoke_all_user_tokens revoke_all_by_user_id Ends ◌>>=◌
  logout_all-IsLoggedOut before user s = record {
    no_token = rw (db.tokens.update_many_all (is_live_token user) revoked_token s.tokens) (
        All-update (λ t. t.user_id == user ≡ true → t.is_revoked ≡ true) (is_live_token user)
          revoked_token s.tokens (λ t p h. refl) (λ t p h. ground (arith, p, h)));
    no_session =
        rw (db.sessions.update_many_all (is_live_session user) revoked_session s.sessions) (
          All-update (λ x. x.user_id == user ≡ true → x.is_active ≡ false) (is_live_session user)
            revoked_session s.sessions (λ x p h. refl) (λ x p h. ground (arith, p, h)));
  }

  updates :
      (user : Text) (change : User → User) (s : Store World)
      → update_user db user change s ≡ (ok tt, (update_user db user change s).1)
  unfolding update_user
  updates user change s = refl

  set_password-Ends :
      (crypto : Hashing) (c : Request) (user password : Text) (before s : Store World)
      → IsSame s before
      → Ends before user (set_password db crypto c user password s)
  unfolding set_password Ends
  set_password-Ends crypto c user password before s same =
      require_cases (Ends before user) invalid_password s (has_length password) _ same
        (rw (bind_ok _ _ s (updates user _ s)) (logout_all-IsLoggedOut before user _))

  reads :
      (user : Text) (s : Store World)
      → find_user_by_id db user s ≡ (ok (db.users.find_one (λ u. u.id == user) s.users), s)
  unfolding find_user_by_id
  reads user s = refl

  -- A change of the password either raises and changes nothing, or leaves the user logged out
  -- everywhere: every token of the user is revoked, and every session of the user has ended.
  pub change_password-Ends :
      (crypto : Hashing) (c : Request) (user current password : Text) (s : Store World)
      → Ends s user (change_password db crypto c user current password s)
  unfolding change_password Ends
  change_password-Ends crypto c user current password s =
      let same : IsSame s s = (refl, refl, refl) in
      rw (bind_ok _ _ s (reads user s)) (
        or_raise_cases (Ends s user) user_not_found s
          (db.users.find_one (λ u. u.id == user) s.users) _ same
          λ known. require_cases (Ends s user) invalid_password s (has_length current) _ same (
            require_cases (Ends s user) password_mismatch s
              (crypto.verify known.password_hash current) _ same
              (set_password-Ends crypto c user password s s same)))

  -- Resetting the password of the user whom the address finds either raises and changes no user, no
  -- token and no session, or leaves that user logged out everywhere.
  pub reset_password-Ends :
      (otps : OtpService World) (crypto : Hashing) (c : Request) (email otp password : Text)
      (known : User) (s : Store World)
      → first (has_email email) s.users ≡ some known
      → Ends s known.id (reset_password db otps crypto c email otp password s)
  unfolding reset_password Ends find_by_email with_otp
  reset_password-Ends otps crypto c email otp password known s e =
      let found : db.users.find_one (has_email email) s.users ≡ some known =
        db.users.find_one_first (has_email email) s.users ∙ e in
      rw (bind_ok _ _ s (ap (λ o. (ok o, s)) found), bind_some)
        (bind_result (λ x. IsSame x.1 s) (Ends s known.id)
          (with_otp (otps.verify_otp known.email otp)) _ s (refl, refl, refl)
          (λ valid t same.
            require_cases (Ends s known.id) invalid_credentials t valid _ same
              (set_password-Ends crypto c known.id password s t same))
          (λ x t same. same))

module _ {World : Type 0} (db : Database) (tokens : TokenProvider) where
  -- A refusal that changes nothing.
  abbrev pub IsRefused : {A : Type 0} → Store World → Result A × Store World → Type 0
  IsRefused s x = (e : Error) × (x ≡ (err e, s))

  spent-IsRefused :
      {A : Type 0} (token : Text) (d : TokenRecord) (s : Store World)
      (f : TokenRecord → Action (Store World) A)
      → first (has_token token) s.tokens ≡ some d
      → is_spent d ≡ true
      → (find_by_token db token >>= λ found. or_raise found token_reused >>= λ t.
            require (not (is_spent t)) token_reused >>= λ _. f t)
          s
        ≡ (err token_reused, s)
  unfolding find_by_token
  spent-IsRefused token d s f e spent =
      let found : db.tokens.find_one (has_token token) s.tokens ≡ some d =
        db.tokens.find_one_first (has_token token) s.tokens ∙ e in
      bind_ok _ _ s (ap (λ o. (ok o, s)) found)
      ∙ bind_some _ d token_reused s
      ∙ bind_err _ _ s (require_err (not (is_spent d)) token_reused s (rw spent refl))

  pub spent_refresh-IsRefused :
      (c : Request) (token : Text) (d : TokenRecord) (s : Store World)
      → first (has_token token) s.tokens ≡ some d
      → is_spent d ≡ true
      → IsRefused s (refresh_tokens db tokens c token s)
  unfolding refresh_tokens
  spent_refresh-IsRefused c token d s e spent =
      or_raise_cases (IsRefused s) token_invalid s (tokens.verify_refresh_token c.now token) _
        (token_invalid, refl) (λ claims. (token_reused, spent-IsRefused token d s _ e spent))

  pub spent_access-IsRefused :
      (now : ℕ) (token : Text) (d : TokenRecord) (s : Store World)
      → first (has_token token) s.tokens ≡ some d
      → is_spent d ≡ true
      → IsRefused s (authenticate db tokens now token s)
  unfolding authenticate
  spent_access-IsRefused now token d s e spent =
      or_raise_cases (IsRefused s) token_expired s (tokens.verify_access_token now token) _
        (token_expired, refl) (λ claims. (token_reused, spent-IsRefused token d s _ e spent))

  -- No token of a user who is logged out everywhere is admitted, neither by the middleware nor for a
  -- refresh; both raise and change nothing.
  pub IsLoggedOut-IsRefused :
      (user token : Text) (c : Request) (d : TokenRecord) (s : Store World)
      → IsLoggedOut user s
      → first (has_token token) s.tokens ≡ some d
      → d.user_id == user ≡ true
      → IsRefused s (authenticate db tokens c.now token s)
        × IsRefused s (refresh_tokens db tokens c token s)
  IsLoggedOut-IsRefused user token c d s out e mine =
      let revoked : d.is_revoked ≡ true =
        All-first (λ t. t.user_id == user ≡ true → t.is_revoked ≡ true) (has_token token) s.tokens d
          out.no_token e mine in
      let spent : is_spent d ≡ true = ground (arith, revoked) in
      (spent_access-IsRefused c.now token d s e spent, spent_refresh-IsRefused c token d s e spent)

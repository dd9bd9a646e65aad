-- ===== src/Auth/Calls.antt =====
-- Any calls of src/modules/auth/application/auth.service.ts, in any order, and a token that is spent
-- before them.
use rest_ecommerce_api.Prelude.Text.{Text}
use rest_ecommerce_api.Prelude.{List, [], ◌∷◌}
use rest_ecommerce_api.Auth.Entity.{TokenProvider, Hashing, OtpService}
use rest_ecommerce_api.Auth.Repository.{Store, Database}
use rest_ecommerce_api.Auth.Service.{Request, RegisterUserInput, register, login, refresh_tokens}
use rest_ecommerce_api.Auth.Accounts.{
  logout, logout_all, change_password, verify_email, forgot_password, reset_password,
}
use rest_ecommerce_api.Auth.Spending.{IsSpent}
use rest_ecommerce_api.Auth.Keeping.{
  register-Keeps, login-Keeps, refresh_tokens-Keeps, logout-Keeps, logout_all-Keeps,
  change_password-Keeps, verify_email-Keeps, forgot_password-Keeps, reset_password-Keeps,
}

-- A call of the service.
pub data Call : Type 0 where
  registers : Request → RegisterUserInput → Call
  logs_in : Request → Text → Text → Text → Text → Call
  refreshes : Request → Text → Call
  logs_out : Text → Text → Call
  logs_out_everywhere : Text → Call
  changes_password : Request → Text → Text → Text → Call
  verifies_email : Request → Text → Text → Call
  forgets_password : Text → Call
  resets_password : Request → Text → Text → Text → Call

module _ {World : Type 0} (db : Database) (tokens : TokenProvider) (otps : OtpService World)
    (crypto : Hashing) where
  unfoldable pub step : Call → Store World → Store World
  step (registers c payload) s = (register db tokens crypto c payload s).1
  step (logs_in c email password ip agent) s =
      (login db tokens crypto c email password ip agent s).1
  step (refreshes c token) s = (refresh_tokens db tokens c token s).1
  step (logs_out user token) s = (logout db user token s).1
  step (logs_out_everywhere user) s = (logout_all db user s).1
  step (changes_password c user current password) s =
      (change_password db crypto c user current password s).1
  step (verifies_email c user otp) s = (verify_email db otps c user otp s).1
  step (forgets_password email) s = (forgot_password db otps email s).1
  step (resets_password c email otp password) s =
      (reset_password db otps crypto c email otp password s).1

  unfoldable pub run : List Call → Store World → Store World
  run [] s = s
  run (call ∷ calls) s = run calls (step call s)

module _ {World : Type 0} (db : Database) (tokens : TokenProvider) (otps : OtpService World)
    (crypto : Hashing) (token : Text) where
  step-IsSpent :
      (call : Call) (s : Store World)
      → IsSpent token s
      → IsSpent token (step db tokens otps crypto call s)
  unfolding step
  step-IsSpent (registers c payload) = (register-Keeps db tokens token crypto c payload).at
  step-IsSpent (logs_in c email password ip agent) =
      (login-Keeps db tokens token crypto c email password ip agent).at
  step-IsSpent (refreshes c other) = (refresh_tokens-Keeps db tokens token crypto c other).at
  step-IsSpent (logs_out user other) = (logout-Keeps db tokens token crypto user other).at
  step-IsSpent (logs_out_everywhere user) = (logout_all-Keeps db tokens token crypto user).at
  step-IsSpent (changes_password c user current password) =
      (change_password-Keeps db tokens token crypto c user current password).at
  step-IsSpent (verifies_email c user otp) =
      (verify_email-Keeps db tokens token crypto otps c user otp).at
  step-IsSpent (forgets_password email) =
      (forgot_password-Keeps db tokens token crypto otps email).at
  step-IsSpent (resets_password c email otp password) =
      (reset_password-Keeps db tokens token crypto otps c email otp password).at

  -- A token that is spent stays spent.
  pub run-IsSpent :
      (calls : List Call) (s : Store World)
      → IsSpent token s
      → IsSpent token (run db tokens otps crypto calls s)
  unfolding run
  run-IsSpent [] s h = h
  run-IsSpent (call ∷ calls) s h =
      run-IsSpent calls (step db tokens otps crypto call s) (step-IsSpent call s h)

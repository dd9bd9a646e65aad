-- ===== src/Auth/Rotating.antt =====
-- A refresh token and its rotation: refreshTokens of src/modules/auth/application/auth.service.ts.
use rest_ecommerce_api.Prelude.Text.{Text, ◌==◌}
use rest_ecommerce_api.Prelude.{◌≡◌, ◌⊎◌, refl, ap, ◌∙◌, inl, inr, not, some, List, first}
use rest_ecommerce_api.Prelude.Updates.{first-holds}
use rest_ecommerce_api.Prelude.Replacing.{first-modify_first_met}
use rest_ecommerce_api.Errors.{Result, ok, err, token_invalid, token_reused, user_not_found}
use rest_ecommerce_api.Errors.Rules.{bind_ok, bind_some, bind_result, require_cases, or_raise_cases}
use rest_ecommerce_api.Auth.Entity.{User, TokenRecord, TokenProvider, Hashing, OtpService}
use rest_ecommerce_api.Auth.Repository.{
  Store, Database, has_token, revoked_token, find_by_token, find_user_by_id, revoke_token,
}
use rest_ecommerce_api.Auth.Service.{Request, TokenPair, is_spent, issue, rotate, refresh_tokens}
use rest_ecommerce_api.Auth.Ending.{IsRefused, spent_refresh-IsRefused}
use rest_ecommerce_api.Auth.Spending.{IsSpent, after-Keeps, issue-reads}
use rest_ecommerce_api.Auth.Calls.{Call, run, run-IsSpent}

module _ {World : Type 0} (db : Database) (tokens : TokenProvider) (token : Text) where
  revokes : (id : Text) (s : Store World) → revoke_token db id s ≡ (ok tt, (revoke_token db id s).1)
  unfolding revoke_token
  revokes id s = refl

  finds :
      (s : Store World)
      → find_by_token db token s ≡ (ok (db.tokens.find_one (has_token token) s.tokens), s)
  unfolding find_by_token
  finds s = refl

  reads :
      (id : Text) (s : Store World)
      → find_user_by_id db id s ≡ (ok (db.users.find_one (λ u. u.id == id) s.users), s)
  unfolding find_user_by_id
  reads id s = refl

  module _ (d : TokenRecord) (s : Store World) (found : first (has_token token) s.tokens ≡ some d)
      (unique : first (λ t. t.id == d.id) s.tokens ≡ some d) where
    -- A refusal that changes nothing, or a spent token.
    abbrev Spends : Result TokenPair × Store World → Type 0
    Spends x = IsRefused db tokens s x ⊎ IsSpent token x.1

    revoked-IsSpent : IsSpent token (revoke_token db d.id s).1
    unfolding revoke_token
    revoked-IsSpent =
        rw (db.tokens.find_one_and_update_first (λ t. t.id == d.id) revoked_token s.tokens)
          (record {
            doc = revoked_token d;
            found =
                first-modify_first_met (has_token token) (λ t. t.id == d.id) revoked_token s.tokens
                  d found unique (first-holds (has_token token) s.tokens d found);
            spent = refl;
          })

    rotate-Spends : (c : Request) (user : User) → Spends (rotate db tokens c user d s)
    unfolding rotate
    rotate-Spends c user =
        bind_result (λ x. x.1 ≡ s) Spends (issue db tokens c.now user) _ s
          (issue-reads db tokens token c.now user s)
          (λ issued t e. rw e (
            inr (
              rw (bind_ok _ _ s (revokes d.id s)) (
                (after-Keeps db tokens token c user issued d).at (revoke_token db d.id s).1
                  revoked-IsSpent))))
          (λ x t e. inl (x, ap (λ z. (err x, z)) e))

    refresh_tokens-Spends : (c : Request) → Spends (refresh_tokens db tokens c token s)
    unfolding refresh_tokens
    refresh_tokens-Spends c =
        or_raise_cases Spends token_invalid s (tokens.verify_refresh_token c.now token) _
          (inl (token_invalid, refl))
          (λ claims.
            rw
              (
                bind_ok _ _ s (
                    finds s
                    ∙ ap (λ o. (ok o, s))
                        (db.tokens.find_one_first (has_token token) s.tokens ∙ found)),
                bind_some,
              )
              (require_cases Spends token_reused s (not (is_spent d)) _ (inl (token_reused, refl)) (
                rw (bind_ok _ _ s (reads claims.sub s)) (
                  or_raise_cases Spends user_not_found s _ _ (inl (user_not_found, refl)) λ user.
                    require_cases Spends user_not_found s user.is_active _
                      (inl (user_not_found, refl)) (rotate-Spends c user)))))

  -- A refresh token is accepted at most once. A refresh with it either raises and changes nothing, or,
  -- whether it then succeeds or raises, spends it: behind any further calls of the service every refresh
  -- with the same token raises and changes nothing. The token is stored, and its record is the one that
  -- its identifier finds.
  pub refresh_tokens-once :
      (otps : OtpService World) (crypto : Hashing) (d : TokenRecord) (s : Store World)
      → first (has_token token) s.tokens ≡ some d
      → first (λ t. t.id == d.id) s.tokens ≡ some d
      → (c later : Request) (calls : List Call)
      → let end : Store World =
          run db tokens otps crypto calls (refresh_tokens db tokens c token s).1 in
        IsRefused db tokens s (refresh_tokens db tokens c token s)
        ⊎ IsRefused db tokens end (refresh_tokens db tokens later token end)
  refresh_tokens-once otps crypto d s found unique c later calls =
      elim (refresh_tokens-Spends d s found unique c) [
        | inl refused ↦ inl refused
        | inr spent ↦
            let h = run-IsSpent db tokens otps crypto token calls _ spent in
            inr (spent_refresh-IsRefused db tokens later token h.doc _ h.found h.spent)
      ]

-- ===== src/Auth/Spending.antt =====
-- A token that is spent, and the steps of src/modules/auth/application/auth.service.ts that leave it so.
use rest_ecommerce_api.Prelude.Text.{Text, ◌==◌}
use rest_ecommerce_api.Prelude.{
  ℕ, ◌≡◌, refl, inl, inr, true, ◌&&◌, is_some, Option, none, some, first, any, Bool-cases, arith,
}
use rest_ecommerce_api.Prelude.Replacing.{first-modify_first_cases, first-append_found}
use rest_ecommerce_api.Errors.{token_invalid, pure, ◌>>=◌, write_failed}
use rest_ecommerce_api.Errors.Rules.{
  Keeps, Keeps-bind, Keeps-pure, Keeps-option, Keeps-if, Keeps-raise, or_raise_cases,
}
use rest_ecommerce_api.Auth.Entity.{User, TokenRecord, NewToken, Session, TokenProvider}
use rest_ecommerce_api.Auth.Repository.{
  Store, Database, has_token, token_clash, session_clash, insert_token, revoked_token, used_token,
  revoke_token, mark_token_used, save_token, insert_session, create_session, revoke_by_id,
  find_by_refresh_token_id,
}
use rest_ecommerce_api.Auth.Service.{
  Request, Issued, is_spent, issue, to_pair, new_session, save_tokens, end_session,
}

-- The record that the token finds is revoked or used.
pub record IsSpent {World : Type 0} (token : Text) (s : Store World) : Type 0 where
  pub doc : TokenRecord
  pub found : first (has_token token) s.tokens ≡ some doc
  pub spent : is_spent doc ≡ true

module _ {World : Type 0} (db : Database) (tokens : TokenProvider) (token : Text) where
  -- Revoking or using a token, this or another, leaves it spent.
  pub revoke_token-Keeps : (id : Text) → Keeps (IsSpent {World = World} token) (revoke_token db id)
  unfolding revoke_token
  revoke_token-Keeps id = record {
    at = λ s h.
        rw (db.tokens.find_one_and_update_first (λ t. t.id == id) revoked_token s.tokens)
          (elim (first-modify_first_cases (has_token token) (λ t. t.id == id) revoked_token s.tokens
            h.doc (λ t. refl) h.found) [
              | inl e ↦ record { doc = h.doc; found = e; spent = h.spent }
              | inr (p, e) ↦ record { doc = revoked_token h.doc; found = e; spent = refl }
            ]);
  }

  pub mark_token_used-Keeps :
      (id : Text) → Keeps (IsSpent {World = World} token) (mark_token_used db id)
  unfolding mark_token_used
  mark_token_used-Keeps id = record {
    at = λ s h.
        rw (db.tokens.find_one_and_update_first (λ t. t.id == id) used_token s.tokens)
          (elim (first-modify_first_cases (has_token token) (λ t. t.id == id) used_token s.tokens
            h.doc (λ t. refl) h.found) [
              | inl e ↦ record { doc = h.doc; found = e; spent = h.spent }
              | inr (p, e) ↦ record { doc = used_token h.doc; found = e; spent = ground arith }
            ]);
  }

  insert_token-Keeps :
      (doc : TokenRecord) → Keeps (IsSpent {World = World} token) (insert_token db doc)
  unfolding insert_token
  insert_token-Keeps doc = record {
    at = λ s h. elim (db.tokens.insert_one_lem token_clash doc s.tokens) [
      | inl e ↦ rw (e, insert_token) h
      | inr e ↦ elim (Bool-cases (any (token_clash doc) s.tokens)) [
        | inl t ↦ rw (e, t, insert_token) h
        | inr t ↦
            rw (e, t, insert_token)
              (record {
                doc = h.doc;
                found = first-append_found (has_token token) s.tokens doc h.doc h.found;
                spent = h.spent;
              })
      ]
    ];
  }

  save_token-Keeps :
      (drawn : Text) (new : NewToken)
      → Keeps (IsSpent {World = World} token) (save_token db drawn new)
  unfolding save_token
  save_token-Keeps drawn new =
      Keeps-option new.expires_at _ _ (λ e. insert_token-Keeps _) (Keeps-raise write_failed)

  -- The sessions are beside the tokens.
  insert_session-Keeps : (x : Session) → Keeps (IsSpent {World = World} token) (insert_session db x)
  unfolding insert_session
  insert_session-Keeps x = record {
    at = λ s h. elim (db.sessions.insert_one_lem session_clash x s.sessions) [
      | inl e ↦ rw (e, insert_session) h
      | inr e ↦ elim (Bool-cases (any (session_clash x) s.sessions)) [
        | inl t ↦ rw (e, t, insert_session) h
        | inr t ↦
            rw (e, t, insert_session) (record { doc = h.doc; found = h.found; spent = h.spent })
      ]
    ];
  }

  pub create_session-Keeps :
      (x : Session) → Keeps (IsSpent {World = World} token) (create_session db x)
  unfolding create_session
  create_session-Keeps x =
      Keeps-if (is_some x.token_id && is_some x.expires_at) _ _ (insert_session-Keeps x)
        (Keeps-raise write_failed)

  pub revoke_by_id-Keeps : (id : Text) → Keeps (IsSpent {World = World} token) (revoke_by_id db id)
  unfolding revoke_by_id
  revoke_by_id-Keeps id = record {
    at = λ s h. record { doc = h.doc; found = h.found; spent = h.spent };
  }

  pub end_session-Keeps :
      (user : Text) (o : Option Session)
      → Keeps (IsSpent {World = World} token) (end_session db tokens user o)
  unfolding end_session
  end_session-Keeps user none = Keeps-pure none
  end_session-Keeps user (some x) =
      Keeps-if (x.user_id == user && x.is_active) _ _
        (Keeps-bind _ _ (revoke_by_id-Keeps x.id) λ _.
          Keeps-bind _ _ (Keeps-option x.token_id _ _ (λ id. revoke_token-Keeps id) (Keeps-pure tt))
            λ _. Keeps-pure (some x))
        (Keeps-pure none)

  pub save_tokens-Keeps :
      (c : Request) (user : Text) (issued : Issued)
      → Keeps (IsSpent {World = World} token) (save_tokens db tokens c user issued)
  unfolding save_tokens
  save_tokens-Keeps c user issued = Keeps-bind _ _ (save_token-Keeps _ _) λ _. save_token-Keeps _ _

  -- What `rotate` does behind the revocation of the old token.
  pub after-Keeps :
      (c : Request) (user : User) (issued : Issued) (d : TokenRecord)
      → Keeps (IsSpent {World = World} token) (
          mark_token_used db d.id >>= λ _. find_by_refresh_token_id db d.id >>= λ previous.
          end_session db tokens user.id previous >>= λ rotated.
          save_tokens db tokens c user.id issued >>= λ _.
          (elim rotated [
            | some x ↦ create_session db (new_session c user.id x.user_agent x.ip_address issued)
            | none ↦ pure tt
          ])
          >>= λ _. pure (to_pair issued))
  unfolding find_by_refresh_token_id
  after-Keeps c user issued d = Keeps-bind _ _ (mark_token_used-Keeps d.id) λ _.
      Keeps-bind _ _ (record { at = λ s h. h })
        λ previous. Keeps-bind _ _ (end_session-Keeps user.id previous) λ rotated.
          Keeps-bind _ _ (save_tokens-Keeps c user.id issued) λ _.
            Keeps-bind _ _ (Keeps-option rotated _ _ (λ x. create_session-Keeps _) (Keeps-pure tt))
              λ _. Keeps-pure (to_pair issued)

  -- Issuing tokens writes nothing.
  pub issue-reads : (now : ℕ) (user : User) (s : Store World) → (issue db tokens now user s).1 ≡ s
  unfolding issue pure
  issue-reads now user s =
      or_raise_cases (λ x. x.1 ≡ s) token_invalid s _ _ refl
        λ a. or_raise_cases (λ x. x.1 ≡ s) token_invalid s _ _ refl λ b. refl

-- ===== src/Auth/Steps.antt =====
-- The steps of src/modules/auth that read, or write beside the tokens, or revoke those of a user, and a
-- token that is spent before them.
use mathlib.Core.Option.{some-injective}
use rest_ecommerce_api.Prelude.Text.{Text}
use rest_ecommerce_api.Prelude.{
  ℕ, sym, ◌≡◌, refl, inl, inr, Bool, some, List, [], ◌∷◌, map, first, any, true, false, subst, ap,
  if◌then◌else◌, Bool-cases, arith,
}
use rest_ecommerce_api.Errors.{Action}
use rest_ecommerce_api.Errors.Rules.{Keeps, Keeps-pure, Keeps-raise, Keeps-if}
use rest_ecommerce_api.Auth.Entity.{User, TokenProvider, Hashing}
use rest_ecommerce_api.Auth.Repository.{
  Store, Database, has_token, is_live_token, user_clash, revoked_token, find_by_email,
  find_user_by_id, save_user, update_user, find_by_token, revoke_all_user_tokens,
  revoke_all_by_user_id,
}
use rest_ecommerce_api.Auth.Service.{create_email, issue}
use rest_ecommerce_api.Auth.Accounts.{with_otp}
use rest_ecommerce_api.Auth.Spending.{IsSpent, issue-reads}

-- The first document that a test finds behind an update that the test does not see.
first-map_if :
    {A : Type 0} (q p : A → Bool) (f : A → A) (xs : List A) (d : A)
    → ((x : A) → q (f x) ≡ q x)
    → first q xs ≡ some d
    → first q (map (λ x. if p x then f x else x) xs) ≡ some (if p d then f d else d)
unfolding first
first-map_if q p f [] d blind e = absurd (ground (arith, e))
first-map_if q p f (x ∷ xs) d blind e =
    let seen : q (if p x then f x else x) ≡ q x = elim (Bool-cases (p x)) [
      | inl t ↦ rw t (blind x)
      | inr t ↦ rw t refl
    ] in
    let at : (b : Bool) → q x ≡ b → (if b then some x else first q xs) ≡ some d =
      λ b t. subst (λ c. (if c then some x else first q xs) ≡ some d) t e in
    elim (Bool-cases (q x)) [
      | inl t ↦
          rw (seen, t) (ap (λ y. some (if p y then f y else y)) (some-injective x d (at true t)))
      | inr t ↦ rw (seen, t) (first-map_if q p f xs d blind (at false t))
    ]

module _ {World : Type 0} (db : Database) (token : Text) where
  abbrev pub KeepsSpent : {A : Type 0} → Action (Store World) A → Type 0
  KeepsSpent m = Keeps (IsSpent {World = World} token) m

  -- What reads, or writes beside the tokens.
  pub update_user-Keeps :
      (user : Text) (change : User → User) → KeepsSpent (update_user db user change)
  unfolding update_user
  update_user-Keeps user change = record {
    at = λ s h. record { doc = h.doc; found = h.found; spent = h.spent };
  }

  pub save_user-Keeps : (user : User) → KeepsSpent (save_user db user)
  unfolding save_user
  save_user-Keeps user = record {
    at = λ s h. elim (db.users.insert_one_lem user_clash user s.users) [
      | inl e ↦ rw (e, save_user) h
      | inr e ↦ elim (Bool-cases (any (user_clash user) s.users)) [
        | inl t ↦ rw (e, t, save_user) h
        | inr t ↦ rw (e, t, save_user) (record { doc = h.doc; found = h.found; spent = h.spent })
      ]
    ];
  }

  pub revoke_all_by_user_id-Keeps : (user : Text) → KeepsSpent (revoke_all_by_user_id db user)
  unfolding revoke_all_by_user_id
  revoke_all_by_user_id-Keeps user = record {
    at = λ s h. record { doc = h.doc; found = h.found; spent = h.spent };
  }

  pub revoke_all_user_tokens-Keeps : (user : Text) → KeepsSpent (revoke_all_user_tokens db user)
  unfolding revoke_all_user_tokens
  revoke_all_user_tokens-Keeps user = record {
    at = λ s h. rw (db.tokens.update_many_all (is_live_token user) revoked_token s.tokens) (record {
      doc = if is_live_token user h.doc then revoked_token h.doc else h.doc;
      found =
          first-map_if (has_token token) (is_live_token user) revoked_token s.tokens h.doc
            (λ t. refl) h.found;
      spent = elim (Bool-cases (is_live_token user h.doc)) [
        | inl t ↦ rw t refl
        | inr t ↦ rw t h.spent
      ];
    });
  }

  -- Reads.
  pub find_by_email-Keeps : (email : Text) → KeepsSpent (find_by_email db email)
  unfolding find_by_email
  find_by_email-Keeps email = record { at = λ s h. h }

  pub find_user_by_id-Keeps : (user : Text) → KeepsSpent (find_user_by_id db user)
  unfolding find_user_by_id
  find_user_by_id-Keeps user = record { at = λ s h. h }

  pub find_by_token-Keeps : (other : Text) → KeepsSpent (find_by_token db other)
  unfolding find_by_token
  find_by_token-Keeps other = record { at = λ s h. h }

  pub create_email-Keeps : (crypto : Hashing) (raw : Text) → KeepsSpent (create_email crypto raw)
  unfolding create_email
  create_email-Keeps crypto raw = Keeps-if _ _ _ (Keeps-pure _) (Keeps-raise _)

  pub issue-Keeps :
      (tokens : TokenProvider) (now : ℕ) (user : User) → KeepsSpent (issue db tokens now user)
  issue-Keeps tokens now user = record {
    at = λ s h. subst (IsSpent token) (sym (issue-reads db tokens token now user s)) h;
  }

  pub with_otp-Keeps : {A : Type 0} (m : Action World A) → KeepsSpent (with_otp m)
  unfolding with_otp
  with_otp-Keeps m = record { at = λ s h. record { doc = h.doc; found = h.found; spent = h.spent } }

-- ===== src/Auth/Service.antt =====
-- src/modules/auth/application/auth.service.ts: registration, logins, and the rotation of the refresh
-- tokens.
use rest_ecommerce_api.Prelude.Text.{Text, text, ◌==◌, trim, to_lower_case}
use rest_ecommerce_api.Prelude.{
  ℕ, ◌*◌, Bool, true, false, ◌&&◌, ◌||◌, not, Option, none, some, List, [], ◌∷◌, length, leb,
  if◌then◌else◌, or_else,
}
use rest_ecommerce_api.Errors.{
  Action, invalid_email, invalid_password, user_already_exists, invalid_credentials, account_locked,
  token_invalid, token_expired, token_reused, user_not_found, max_sessions_reached, session_revoked,
  pure, raise, or_raise, require, ◌>>=◌, ◌>>◌,
}
use rest_ecommerce_api.Auth.Entity.{
  User, TokenType, NewToken, TokenRecord, Session, Claims, TokenProvider, Hashing,
}
use rest_ecommerce_api.Auth.Repository.{
  Store, Database, find_by_email, find_user_by_id, exists_by_email, save_user, update_user,
  save_token, find_by_token, revoke_token, mark_token_used, create_session, find_by_token_id,
  find_by_refresh_token_id, find_active_by_user_id, revoke_by_id,
}

-- The time, and the identifiers that a request draws.
pub record Request : Type 0 where
  pub now : ℕ
  pub uuid : ℕ → Text

pub record RegisterUserInput : Type 0 where
  pub email : Text
  pub password : Text
  pub name : Text
  pub roles : Option (List Text)

pub record TokenPair : Type 0 where
  pub access_token : Text
  pub refresh_token : Text
  pub expires_in : ℕ

pub record RegisterResult : Type 0 where
  pub user : User
  pub tokens : TokenPair

-- A pair of new tokens with their claims.
pub record Issued : Type 0 where
  pub access_token : Text
  pub refresh_token : Text
  pub access_claims : Claims
  pub refresh_claims : Claims

abbrev pub max_sessions : ℕ
max_sessions = 10

abbrev pub to_pair : Issued → TokenPair
to_pair issued = record {
  access_token = issued.access_token;
  refresh_token = issued.refresh_token;
  expires_in = 900;
}

-- `new Date(Number(exp) * 1000)`
abbrev pub expiry : Claims → Option ℕ
expiry claims = elim claims.exp [ some exp ↦ some (exp * 1000) | none ↦ none ]

abbrev pub new_token : ℕ → Text → Text → TokenType → Claims → NewToken
new_token now user token token_type claims = record {
  id = claims.jti;
  user_id = user;
  token = token;
  token_type = token_type;
  expires_at = expiry claims;
  created_at = now;
}

abbrev pub new_session : Request → Text → Text → Text → Issued → Session
new_session c user user_agent ip_address issued = record {
  id = c.uuid 2;
  user_id = user;
  token_id = issued.access_claims.jti;
  refresh_token_id = issued.refresh_claims.jti;
  user_agent = user_agent;
  ip_address = ip_address;
  is_active = true;
  created_at = c.now;
  expires_at = expiry issued.access_claims;
  last_activity_at = c.now;
}

abbrev pub is_spent : TokenRecord → Bool
is_spent t = t.is_revoked || t.is_used

-- `Password.fromRaw`
abbrev pub has_length : Text → Bool
has_length raw = leb 8 (length raw) && leb (length raw) 128

module _ {World : Type 0} where
  -- `Email.create`
  unfoldable pub create_email : Hashing → Text → Action (Store World) Text
  create_email crypto raw =
      let trimmed = to_lower_case (trim raw) in
      if leb (length trimmed) 254 && crypto.is_email trimmed
      then pure trimmed
      else raise invalid_email

module _ {World : Type 0} (db : Database) (tokens : TokenProvider) where
  -- Signing the two tokens of a user, and reading their claims back, which throws an error of the
  -- package where that fails.
  unfoldable pub issue : ℕ → User → Action (Store World) Issued
  issue now user = do
    let access_token = tokens.generate_access_token now user.id user.email user.roles
    let refresh_token = tokens.generate_refresh_token now user.id
    access_claims ← or_raise (tokens.verify_access_token now access_token) token_invalid
    refresh_claims ← or_raise (tokens.verify_refresh_token now refresh_token) token_invalid
    pure (record {
      access_token = access_token;
      refresh_token = refresh_token;
      access_claims = access_claims;
      refresh_claims = refresh_claims;
    })

  unfoldable pub save_tokens : Request → Text → Issued → Action (Store World) (Unit {0})
  save_tokens c user issued = do
    save_token db (c.uuid 0)
        (new_token c.now user issued.access_token TokenType.access issued.access_claims)
    save_token db (c.uuid 1)
        (new_token c.now user issued.refresh_token TokenType.refresh issued.refresh_claims)

  unfoldable pub register :
      Hashing → Request → RegisterUserInput → Action (Store World) RegisterResult
  register crypto c payload = do
    email ← create_email crypto payload.email
    known ← exists_by_email db email
    require (not known) user_already_exists
    require (has_length payload.password) invalid_password
    let user : User = record {
      id = c.uuid 3;
      email = email;
      password_hash = crypto.hash c.now payload.password;
      name = trim payload.name;
      is_email_verified = false;
      is_active = true;
      roles = or_else payload.roles (text "user" ∷ []);
      last_login_at = none;
      created_at = c.now;
      updated_at = c.now;
    }
    save_user db user
    issued ← issue c.now user
    save_tokens c user.id issued
    pure (record { user = user; tokens = to_pair issued })

  -- `login` behind the checks of the credentials.
  unfoldable pub open_session : Request → Text → Text → User → Action (Store World) TokenPair
  open_session c ip_address user_agent user = do
    issued ← issue c.now user
    sessions ← find_active_by_user_id db user.id
    require (not (leb max_sessions (length sessions))) max_sessions_reached
    save_tokens c user.id issued
    create_session db (new_session c user.id user_agent ip_address issued)
    update_user db user.id (λ u. record u { last_login_at = some c.now; updated_at = c.now })
    pure (to_pair issued)

  unfoldable pub login :
      Hashing → Request → Text → Text → Text → Text → Action (Store World) TokenPair
  login crypto c raw_email password ip_address user_agent = do
    email ← create_email crypto raw_email
    found ← find_by_email db email
    user ← or_raise found invalid_credentials
    require user.is_active account_locked
    require (has_length password) invalid_password
    require (crypto.verify user.password_hash password) invalid_credentials
    open_session c ip_address user_agent user

  -- The session of the old refresh token, where it is the user's and active, is revoked with its
  -- access token. A failure of that last step is ignored.
  unfoldable pub end_session : Text → Option Session → Action (Store World) (Option Session)
  end_session user none = pure none
  end_session user (some previous) =
      if previous.user_id == user && previous.is_active
      then (do
        revoke_by_id db previous.id
        elim previous.token_id [ some id ↦ revoke_token db id | none ↦ pure tt ]
        pure (some previous))
      else pure none

  unfoldable pub rotate : Request → User → TokenRecord → Action (Store World) TokenPair
  rotate c user token_doc = do
    issued ← issue c.now user
    revoke_token db token_doc.id
    mark_token_used db token_doc.id
    previous ← find_by_refresh_token_id db token_doc.id
    rotated ← end_session user.id previous
    save_tokens c user.id issued
    elim rotated [
      | some x ↦ create_session db (new_session c user.id x.user_agent x.ip_address issued)
      | none ↦ pure tt
    ]
    pure (to_pair issued)

  unfoldable pub refresh_tokens : Request → Text → Action (Store World) TokenPair
  refresh_tokens c token = do
    claims ← or_raise (tokens.verify_refresh_token c.now token) token_invalid
    found ← find_by_token db token
    token_doc ← or_raise found token_reused
    require (not (is_spent token_doc)) token_reused
    someone ← find_user_by_id db claims.sub
    user ← or_raise someone user_not_found
    require user.is_active user_not_found
    rotate c user token_doc

  -- What `createAuthMiddleware` admits: the user and the session of a request.
  unfoldable pub authenticate : ℕ → Text → Action (Store World) (Text × Text)
  authenticate now token = do
    claims ← or_raise (tokens.verify_access_token now token) token_expired
    found ← find_by_token db token
    token_doc ← or_raise found token_reused
    require (not (is_spent token_doc)) token_reused
    opened ← find_by_token_id db claims.jti
    session ← or_raise opened session_revoked
    require session.is_active session_revoked
    pure (claims.sub, session.id)

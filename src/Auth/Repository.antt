-- ===== src/Auth/Repository.antt =====
-- src/modules/auth/infrastructure/database: the repositories of the users, the sessions and the
-- tokens, beside what the one time passwords keep.
use rest_ecommerce_api.Prelude.Text.{Text, ◌==◌, to_lower_case}
use rest_ecommerce_api.Prelude.{
  Bool, true, false, is_some, if◌then◌else◌, ◌&&◌, ◌||◌, not, Option, none, some, List, length, leb,
  or_else,
}
use rest_ecommerce_api.Mongo.{Collection, inserted, duplicate, failed}
use rest_ecommerce_api.Errors.{Action, ok, err, duplicate_key, write_failed, raise}
use rest_ecommerce_api.Auth.Entity.{User, TokenRecord, NewToken, Session}

pub record Store (World : Type 0) : Type 0 where
  pub users : List User
  pub sessions : List Session
  pub tokens : List TokenRecord
  pub world : World

pub record Database : Type 0 where
  pub users : Collection User
  pub sessions : Collection Session
  pub tokens : Collection TokenRecord

abbrev pub has_email : Text → User → Bool
has_email email u = u.email == to_lower_case email

abbrev pub has_token : Text → TokenRecord → Bool
has_token token t = t.token == token

-- A filter on a field with a value that may be undefined, which a missing field matches.
abbrev pub id_eq : Option Text → Option Text → Bool
id_eq none none = true
id_eq none (some b) = false
id_eq (some a) none = false
id_eq (some a) (some b) = a == b

abbrev pub is_live_token : Text → TokenRecord → Bool
is_live_token user t = t.user_id == user && not t.is_revoked

abbrev pub is_live_session : Text → Session → Bool
is_live_session user x = x.user_id == user && x.is_active

abbrev pub revoked_token : TokenRecord → TokenRecord
revoked_token t = record t { is_revoked = true }

abbrev pub used_token : TokenRecord → TokenRecord
used_token t = record t { is_used = true }

abbrev pub revoked_session : Session → Session
revoked_session x = record x { is_active = false }

-- The unique indexes of the schemas.
abbrev pub user_clash : User → User → Bool
user_clash a b = a.id == b.id || a.email == b.email

abbrev pub token_clash : TokenRecord → TokenRecord → Bool
token_clash a b = a.id == b.id || a.token == b.token

abbrev pub session_clash : Session → Session → Bool
session_clash a b = a.id == b.id || id_eq a.token_id b.token_id

module _ {World : Type 0} (db : Database) where
  unfoldable pub find_by_email : Text → Action (Store World) (Option User)
  find_by_email email s = (ok (db.users.find_one (has_email email) s.users), s)

  unfoldable pub find_user_by_id : Text → Action (Store World) (Option User)
  find_user_by_id id s = (ok (db.users.find_one (λ u. u.id == id) s.users), s)

  -- `countDocuments(filter) > 0`
  unfoldable pub exists_by_email : Text → Action (Store World) Bool
  exists_by_email email s = (ok (leb 1 (length (db.users.find (has_email email) s.users))), s)

  unfoldable pub save_user : User → Action (Store World) (Unit {0})
  save_user user s = elim (db.users.insert_one user_clash user s.users) [
    | inserted ds ↦ (ok tt, record s { users = ds })
    | duplicate ↦ (err duplicate_key, s)
    | failed ↦ (err write_failed, s)
  ]

  unfoldable pub update_user : Text → (User → User) → Action (Store World) (Unit {0})
  update_user id change s =
      let (found, ds) = db.users.find_one_and_update (λ u. u.id == id) change s.users in
      (ok tt, record s { users = ds })

  unfoldable pub insert_token : TokenRecord → Action (Store World) (Unit {0})
  insert_token doc s = elim (db.tokens.insert_one token_clash doc s.tokens) [
    | inserted ds ↦ (ok tt, record s { tokens = ds })
    | duplicate ↦ (err duplicate_key, s)
    | failed ↦ (err write_failed, s)
  ]

  -- An identifier that is undefined is drawn by the schema (`default`, the first argument); an invalid
  -- date fails its validation.
  unfoldable pub save_token : Text → NewToken → Action (Store World) (Unit {0})
  save_token drawn new = elim new.expires_at [
    | none ↦ raise write_failed
    | some expires_at ↦ insert_token (record {
      id = or_else new.id drawn;
      user_id = new.user_id;
      token = new.token;
      token_type = new.token_type;
      is_revoked = false;
      is_used = false;
      expires_at = expires_at;
      created_at = new.created_at;
    })
  ]

  unfoldable pub find_by_token : Text → Action (Store World) (Option TokenRecord)
  find_by_token token s = (ok (db.tokens.find_one (has_token token) s.tokens), s)

  unfoldable pub revoke_token : Text → Action (Store World) (Unit {0})
  revoke_token id s =
      let (found, ds) = db.tokens.find_one_and_update (λ t. t.id == id) revoked_token s.tokens in
      (ok tt, record s { tokens = ds })

  unfoldable pub revoke_all_user_tokens : Text → Action (Store World) (Unit {0})
  revoke_all_user_tokens user s = (
    ok tt,
    record s { tokens = db.tokens.update_many (is_live_token user) revoked_token s.tokens },
  )

  unfoldable pub mark_token_used : Text → Action (Store World) (Unit {0})
  mark_token_used id s =
      let (found, ds) = db.tokens.find_one_and_update (λ t. t.id == id) used_token s.tokens in
      (ok tt, record s { tokens = ds })

  unfoldable pub insert_session : Session → Action (Store World) (Unit {0})
  insert_session session s = elim (db.sessions.insert_one session_clash session s.sessions) [
    | inserted ds ↦ (ok tt, record s { sessions = ds })
    | duplicate ↦ (err duplicate_key, s)
    | failed ↦ (err write_failed, s)
  ]

  -- The schema requires the identifier of the token and the expiry.
  unfoldable pub create_session : Session → Action (Store World) (Unit {0})
  create_session session =
      if is_some session.token_id && is_some session.expires_at
      then insert_session session
      else raise write_failed

  unfoldable pub find_by_token_id : Option Text → Action (Store World) (Option Session)
  find_by_token_id id s = (ok (db.sessions.find_one (λ x. id_eq x.token_id id) s.sessions), s)

  unfoldable pub find_by_refresh_token_id : Text → Action (Store World) (Option Session)
  find_by_refresh_token_id id s =
      (ok (db.sessions.find_one (λ x. id_eq x.refresh_token_id (some id)) s.sessions), s)

  unfoldable pub find_active_by_user_id : Text → Action (Store World) (List Session)
  find_active_by_user_id user s = (ok (db.sessions.find (is_live_session user) s.sessions), s)

  unfoldable pub revoke_by_id : Text → Action (Store World) (Unit {0})
  revoke_by_id id s =
      let (found, ds) =
        db.sessions.find_one_and_update (λ x. x.id == id) revoked_session s.sessions in
      (ok tt, record s { sessions = ds })

  unfoldable pub revoke_all_by_user_id : Text → Action (Store World) (Unit {0})
  revoke_all_by_user_id user s = (
    ok tt,
    record s {
      sessions = db.sessions.update_many (is_live_session user) revoked_session s.sessions;
    },
  )

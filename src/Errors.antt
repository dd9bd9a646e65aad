-- ===== src/Errors.antt =====
-- The errors that the services raise (shared/errors and each module's domain/errors), without their
-- messages, and the actions that may raise them: state passing in which what was written stays
-- written after a raise.
pub mod Rules
use rest_ecommerce_api.Prelude.{◌≡◌, Bool, true, false, Option, none, some, if◌then◌else◌}

pub data Error : Type 0 where
  -- inventory
  inventory_not_found reservation_not_found insufficient_stock : Error
  adjustment_rejected invalid_quantity : Error
  -- cart
  cart_item_not_found cart_stale cart_limit sku_unavailable : Error
  -- the plain `Error` with the message QUANTITY_EXCEEDS_MAX, and 'Cart creation failed'
  quantity_exceeds_max cart_creation_failed : Error
  -- checkout
  checkout_not_found checkout_conflict checkout_expired : Error
  cart_empty cart_changed price_changed item_unavailable : Error
  -- auth
  invalid_credentials account_locked user_already_exists user_not_found : Error
  token_invalid token_expired token_reused session_revoked max_sessions_reached : Error
  password_mismatch email_already_verified unauthorized : Error
  -- the plain errors of `Email.create` and `Password.fromRaw`
  invalid_email invalid_password : Error
  -- shared
  idempotency_conflict database_error invalid_cursor : Error
  -- what the database driver throws: E11000, or anything else
  duplicate_key write_failed : Error

pub data Result (A : Type 0) : Type 0 where
  ok : A → Result A
  err : Error → Result A

abbrev pub is_ok : {A : Type 0} → Result A → Bool
is_ok (ok a) = true
is_ok (err e) = false

abbrev pub Action : Type 0 → Type 0 → Type 0
Action S A = S → Result A × S

module _ {S A : Type 0} where
  unfoldable pub pure : A → Action S A
  pure a s = (ok a, s)

  unfoldable pub raise : Error → Action S A
  raise e s = (err e, s)

  unfoldable pub gets : (S → A) → Action S A
  gets f s = (ok (f s), s)

  -- `value ?? throw`
  unfoldable pub or_raise : Option A → Error → Action S A
  or_raise none e s = (err e, s)
  or_raise (some a) e s = (ok a, s)

  -- `try { … } catch (error) { … }`: the outcome as a value.
  unfoldable pub attempt : Action S A → Action S (Result A)
  attempt m s = let (r, s') = m s in (ok r, s')

infixl 5 ◌>>=◌ ◌>>◌
unfoldable pub ◌>>=◌ : {S A B : Type 0} → Action S A → (A → Action S B) → Action S B
◌>>=◌ m f s = let (r, s') = m s in elim r [ ok a ↦ f a s' | err e ↦ (err e, s') ]

abbrev pub ◌>>◌ : {S A B : Type 0} → Action S A → Action S B → Action S B
m >> k = m >>= λ _. k

-- `if (!test) throw error;`
unfoldable pub require : {S : Type 0} → Bool → Error → Action S (Unit {0})
require true e s = (ok tt, s)
require false e s = (err e, s)

abbrev pub is_duplicate : Error → Bool
is_duplicate duplicate_key = true
is_duplicate _ = false

-- ===== src/Checkout/Service.antt =====
-- src/modules/checkout/application/CheckoutService.ts: creating, reading, validating and completing.
-- A request reads the clock once.
use rest_ecommerce_api.Prelude.Text.{Text, ◌==◌}
use rest_ecommerce_api.Prelude.{
  ℕ, ◌+◌, ◌*◌, Bool, true, false, ◌&&◌, not, Option, none, some, List, [], ◌∷◌, map, leb, length,
  if◌then◌else◌, or_else,
}
use rest_ecommerce_api.Mongo.{Collection}
use rest_ecommerce_api.Errors.{
  Error, Action, ok, err, idempotency_conflict, checkout_not_found, checkout_conflict,
  checkout_expired, is_duplicate, pure, raise, or_raise, attempt, require, ◌>>=◌, ◌>>◌,
}
use rest_ecommerce_api.Checkout.Entity.{
  Checkout, CheckoutAddress, CheckoutItem, CheckoutReservationRef, CustomerSnapshot, priced, ready,
  expired, is_in, is_terminal_checkout_status, status_eq, active_checkout_statuses,
  checkout_ttl_seconds, max_checkout_items,
}
use rest_ecommerce_api.Checkout.Ports.{Ports, CheckoutCartSnapshot, PricedTotals}
use rest_ecommerce_api.Checkout.Repository.{
  Store, with_world, create, find_by_id, find_by_user_and_key, transition, mark_failed,
  mark_completed,
}
use rest_ecommerce_api.Checkout.Checking.{
  Request, CreateCheckoutInput, CheckoutIssue, CheckoutView, issue_text, to_view, single_currency,
  build_items, revalidate,
}

pub record CreatedCheckout : Type 0 where
  pub view : CheckoutView
  pub created : Bool

pub record Validation : Type 0 where
  pub view : CheckoutView
  pub is_ok : Bool
  pub issues : List CheckoutIssue

unfoldable pub new_checkout :
    Request
    → Text
    → CreateCheckoutInput
    → CheckoutCartSnapshot
    → CustomerSnapshot
    → CheckoutAddress
    → CheckoutAddress
    → List CheckoutItem
    → Text
    → PricedTotals
    → Checkout
new_checkout c user input cart customer shipping billing items currency totals = record {
  id = c.uuid 0;
  user_id = user;
  cart_id = cart.cart_id;
  cart_version = cart.version;
  status = priced;
  items = items;
  shipping_address = shipping;
  billing_address = billing;
  pricing = record {
    subtotal_minor = totals.subtotal_minor;
    discount_minor = totals.discount_minor;
    shipping_minor = totals.shipping_minor;
    tax_minor = totals.tax_minor;
    grand_total_minor = totals.grand_total_minor;
    currency = totals.currency;
    coupon_code = input.coupon_code;
  };
  currency = currency;
  customer = customer;
  reservations = [];
  idempotency_key = some input.idempotency_key;
  req_hash = some input.req_hash;
  fail_reason = none;
  order_id = none;
  version = 0;
  expires_at = c.now + checkout_ttl_seconds * 1000;
  created_at = c.now;
  updated_at = c.now;
}

unfoldable pub same_hash : CreateCheckoutInput → Checkout → Bool
same_hash input prior = elim prior.req_hash [ some h ↦ h == input.req_hash | none ↦ false ]

module _ {World : Type 0} (db : Collection Checkout) (ports : Ports World) where
  -- A request whose key is known already.
  unfoldable pub replay_checkout :
      CreateCheckoutInput → Checkout → Action (Store World) CreatedCheckout
  replay_checkout input prior = do
    require (same_hash input prior) idempotency_conflict
    pure (record { view = to_view prior; created = false })

  -- The handler of a failed insertion.
  unfoldable pub recover_checkout :
      Text → CreateCheckoutInput → Error → Action (Store World) CreatedCheckout
  recover_checkout user input e = do
    require (is_duplicate e) e
    found ← find_by_user_and_key db user input.idempotency_key
    winner ← or_raise found e
    replay_checkout input winner

  unfoldable pub store_checkout :
      Text → CreateCheckoutInput → Checkout → Action (Store World) CreatedCheckout
  store_checkout user input checkout = do
    outcome ← attempt (create db checkout)
    elim outcome [
      | ok _ ↦ pure (record { view = to_view checkout; created = true })
      | err e ↦ recover_checkout user input e
    ]

  -- A checkout for a cart that was read.
  unfoldable pub create_for_cart :
      Request
      → Text
      → CreateCheckoutInput
      → CheckoutCartSnapshot
      → Action (Store World) CreatedCheckout
  create_for_cart c user input cart = do
    require (cart.is_active && not (leb (length cart.items) 0)) Error.cart_empty
    require (leb (length cart.items) max_checkout_items) Error.cart_empty
    found ← with_world (ports.get_customer user)
    customer ← or_raise found checkout_conflict
    let shipping = ports.resolve_shipping input.shipping_address
    let billing = ports.resolve_billing input.billing_address shipping
    items ← build_items ports cart.items
    currency ← or_raise (single_currency items) checkout_conflict
    let totals =
        ports.price
          (map (λ item. record { quantity = item.quantity; unit_minor = item.unit_minor }) items)
          currency
    store_checkout user input
        (new_checkout c user input cart customer shipping billing items currency totals)

  unfoldable pub create_checkout :
      Request → Text → CreateCheckoutInput → Action (Store World) CreatedCheckout
  create_checkout c user input = do
    known ← find_by_user_and_key db user input.idempotency_key
    elim known [
      | some prior ↦ replay_checkout input prior
      | none ↦ do
        snapshot ← with_world (ports.get_cart user)
        cart ← or_raise snapshot Error.cart_empty
        create_for_cart c user input cart
    ]

  unfoldable pub require_owned : Text → Text → Action (Store World) Checkout
  require_owned user id = do
    found ← find_by_id db id
    checkout ← or_raise found checkout_not_found
    require (checkout.user_id == user) checkout_not_found
    pure checkout

  unfoldable pub get_checkout : Text → Text → Action (Store World) CheckoutView
  get_checkout user id = do checkout ← require_owned user id; pure (to_view checkout)

  -- A failed release is only logged.
  unfoldable pub compensate : List CheckoutReservationRef → Action (Store World) (Unit {0})
  compensate [] = pure tt
  compensate (ref ∷ refs) = do
    attempt (with_world (ports.release ref.reservation_id))
    compensate refs

  unfoldable pub expire_now : ℕ → Checkout → Action (Store World) Checkout
  expire_now now checkout = do
    compensate checkout.reservations
    transition db now checkout.id active_checkout_statuses expired none
    raise checkout_expired

  unfoldable pub require_live : ℕ → Checkout → Action (Store World) Checkout
  require_live now checkout =
      if is_terminal_checkout_status checkout.status
      then pure checkout
      else if not (leb checkout.expires_at now)
      then pure checkout
      else expire_now now checkout

  unfoldable pub record_issues : ℕ → Checkout → List CheckoutIssue → Action (Store World) Validation
  record_issues now live [] = pure (record { view = to_view live; is_ok = true; issues = [] })
  record_issues now live (issue ∷ issues) = do
    failed ← mark_failed db now live.id (issue_text issue.code) (some live.version)
    pure (record { view = to_view (or_else failed live); is_ok = false; issues = issue ∷ issues })

  unfoldable pub validate_checkout : Request → Text → Text → Action (Store World) Validation
  validate_checkout c user id = do
    checkout ← require_owned user id
    live ← require_live c.now checkout
    require (is_in live.status active_checkout_statuses) checkout_conflict
    issues ← revalidate ports live
    record_issues c.now live issues

  unfoldable pub get_for_order : Request → Text → Action (Store World) CheckoutView
  get_for_order c id = do
    found ← find_by_id db id
    checkout ← or_raise found checkout_not_found
    require (status_eq checkout.status ready) checkout_conflict
    require (not (leb checkout.expires_at c.now)) checkout_expired
    pure (to_view checkout)

  unfoldable pub complete : Request → Text → Text → Option ℕ → Action (Store World) (Unit {0})
  complete c id order version = do
    completed ← mark_completed db c.now id order version
    or_raise completed checkout_conflict
    pure tt

-- ===== src/Checkout/Checking.antt =====
-- src/modules/checkout/application/CheckoutService.ts: the inputs and views of the service, the items
-- that it builds from a cart, and the checks of a checkout against the cart and the catalog.
use rest_ecommerce_api.Prelude.Text.{Text, text, ◌==◌}
use rest_ecommerce_api.Prelude.{
  ℕ, ◌-◌, ◌/◌, Bool, false, ◌&&◌, ◌||◌, not, Option, none, some, List, [], ◌∷◌, ◌++◌, ℤ, pos, ◌*ℤ◌,
  leb_ℤ, eq_ℤ, leb, nat_eq, math_min, math_max, every, length, if◌then◌else◌,
}
use rest_ecommerce_api.Errors.{Error, Action, pure, or_raise, require, ◌>>=◌, ◌>>◌}
use rest_ecommerce_api.Checkout.Entity.{
  Checkout, CheckoutStatus, CheckoutAddress, CheckoutItem, PricingSnapshot, CheckoutReservationRef,
  CustomerSnapshot,
}
use rest_ecommerce_api.Checkout.Ports.{
  Ports, CheckoutCartItem, CheckoutCartSnapshot, CatalogPriceLine,
}
use rest_ecommerce_api.Checkout.Repository.{Store, with_world}

-- The time, and the identifiers that a request draws.
pub record Request : Type 0 where
  pub now : ℕ
  pub uuid : ℕ → Text

pub record CreateCheckoutInput : Type 0 where
  pub shipping_address : CheckoutAddress
  pub billing_address : Option CheckoutAddress
  pub coupon_code : Option Text
  pub idempotency_key : Text
  pub req_hash : Text

pub data IssueCode : Type 0 where
  cart_empty cart_changed price_changed item_unavailable : IssueCode

pub record CheckoutIssue : Type 0 where
  pub code : IssueCode
  pub sku : Option Text

pub record CheckoutView : Type 0 where
  pub id : Text
  pub user_id : Text
  pub status : CheckoutStatus
  pub items : List CheckoutItem
  pub pricing : PricingSnapshot
  pub currency : Text
  pub shipping_address : CheckoutAddress
  pub billing_address : CheckoutAddress
  pub customer : CustomerSnapshot
  pub reservations : List CheckoutReservationRef
  pub cart_id : Text
  pub cart_version : ℕ
  pub version : ℕ
  pub expires_at : ℕ
  pub created_at : ℕ
  pub updated_at : ℕ
  pub fail_reason : Option Text
  pub order_id : Option Text

unfoldable pub to_view : Checkout → CheckoutView
to_view c = record {
  id = c.id;
  user_id = c.user_id;
  status = c.status;
  items = c.items;
  pricing = c.pricing;
  currency = c.currency;
  shipping_address = c.shipping_address;
  billing_address = c.billing_address;
  customer = c.customer;
  reservations = c.reservations;
  cart_id = c.cart_id;
  cart_version = c.cart_version;
  version = c.version;
  expires_at = c.expires_at;
  created_at = c.created_at;
  updated_at = c.updated_at;
  fail_reason = c.fail_reason;
  order_id = c.order_id;
}

unfoldable pub issue_text : IssueCode → Text
issue_text IssueCode.cart_empty = text "CART_EMPTY"
issue_text IssueCode.cart_changed = text "CART_CHANGED"
issue_text IssueCode.price_changed = text "PRICE_CHANGED"
issue_text IssueCode.item_unavailable = text "ITEM_UNAVAILABLE"

-- `failForIssue`
unfoldable pub issue_error : IssueCode → Error
issue_error IssueCode.cart_empty = Error.cart_empty
issue_error IssueCode.cart_changed = Error.cart_changed
issue_error IssueCode.price_changed = Error.price_changed
issue_error IssueCode.item_unavailable = Error.item_unavailable

unfoldable pub remaining_ttl_seconds : ℕ → Checkout → ℕ
remaining_ttl_seconds now c = math_max 60 (math_min ((c.expires_at - now) / 1000) 3600)

unfoldable pub checkout_item : CheckoutCartItem → CatalogPriceLine → CheckoutItem
checkout_item cart_item line = record {
  product_id = line.product_id;
  variant_id = line.variant_id;
  sku = line.sku;
  title = line.title;
  variant_label = line.variant_label;
  quantity = cart_item.quantity;
  unit_minor = line.unit_minor;
  currency = line.currency;
  line_total_minor = cart_item.quantity *ℤ line.unit_minor;
}

-- `currencies.size === 1`
unfoldable pub single_currency : List CheckoutItem → Option Text
unfolding every
single_currency [] = none
single_currency (item ∷ items) =
    if every (λ other. other.currency == item.currency) items then some item.currency else none

-- The map from SKU to quantity: of two items with one SKU the later counts.
unfoldable pub expected_quantity : List CheckoutItem → Text → Option ℤ
expected_quantity [] sku = none
expected_quantity (item ∷ items) sku = elim (expected_quantity items sku) [
  | some quantity ↦ some quantity
  | none ↦ if item.sku == sku then some item.quantity else none
]

unfoldable pub is_expected : List CheckoutItem → CheckoutCartItem → Bool
unfolding expected_quantity
is_expected items item = elim (expected_quantity items item.sku) [
  | some quantity ↦ eq_ℤ quantity item.quantity
  | none ↦ false
]

unfoldable pub same_item_set : CheckoutCartSnapshot → Checkout → Bool
unfolding every is_expected
same_item_set cart checkout =
    cart.cart_id == checkout.cart_id
    && nat_eq cart.version checkout.cart_version
    && nat_eq (length cart.items) (length checkout.items)
    && every (is_expected checkout.items) cart.items

unfoldable pub item_issues : Option CatalogPriceLine → CheckoutItem → List CheckoutIssue
item_issues none item = record { code = IssueCode.item_unavailable; sku = some item.sku } ∷ []
item_issues (some line) item =
    if not line.purchasable
    then record { code = IssueCode.item_unavailable; sku = some item.sku } ∷ []
    else if not (eq_ℤ line.unit_minor item.unit_minor) || not (line.currency == item.currency)
    then record { code = IssueCode.price_changed; sku = some item.sku } ∷ []
    else []

module _ {World : Type 0} (ports : Ports World) where
  -- The loop of `buildAuthoritativeItems`.
  unfoldable pub build_items : List CheckoutCartItem → Action (Store World) (List CheckoutItem)
  build_items [] = pure []
  build_items (cart_item ∷ rest) = do
    found ← with_world (ports.get_line cart_item.sku)
    line ← or_raise found Error.item_unavailable
    require line.purchasable Error.item_unavailable
    require (leb_ℤ (pos 1) cart_item.quantity && leb_ℤ cart_item.quantity (pos 50))
        Error.item_unavailable
    items ← build_items rest
    pure (checkout_item cart_item line ∷ items)

  unfoldable pub check_items : List CheckoutItem → Action (Store World) (List CheckoutIssue)
  check_items [] = pure []
  check_items (item ∷ items) = do
    line ← with_world (ports.get_line item.sku)
    issues ← check_items items
    pure (item_issues line item ++ issues)

  unfoldable pub compare_cart :
      Checkout → CheckoutCartSnapshot → Action (Store World) (List CheckoutIssue)
  compare_cart checkout cart =
      if leb (length cart.items) 0
      then pure (record { code = IssueCode.cart_empty; sku = none } ∷ [])
      else if not (same_item_set cart checkout)
      then pure (record { code = IssueCode.cart_changed; sku = none } ∷ [])
      else check_items checkout.items

  unfoldable pub revalidate : Checkout → Action (Store World) (List CheckoutIssue)
  revalidate checkout = do
    snapshot ← with_world (ports.get_cart checkout.user_id)
    elim snapshot [
      | none ↦ pure (record { code = IssueCode.cart_empty; sku = none } ∷ [])
      | some cart ↦ compare_cart checkout cart
    ]

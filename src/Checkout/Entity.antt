-- ===== src/Checkout/Entity.antt =====
-- src/modules/checkout/domain/entities/Checkout.ts: checkouts, their statuses and their prices.
use rest_ecommerce_api.Prelude.Text.{Text}
use rest_ecommerce_api.Prelude.{ℕ, Bool, Option, List, [], ◌∷◌, ℤ, ◌*ℤ◌, any, nat_eq, sum_by}

pub data CheckoutStatus : Type 0 where
  priced reserved ready completed failed expired cancelled : CheckoutStatus

-- Also the AddressInput and the ResolvedAddress of the ports: a missing field reads as null.
pub record CheckoutAddress : Type 0 where
  pub full_name : Text
  pub phone : Option Text
  pub line1 : Text
  pub line2 : Option Text
  pub city : Text
  pub region : Text
  pub postal_code : Text
  pub country : Text

pub record CheckoutItem : Type 0 where
  pub product_id : Text
  pub variant_id : Text
  pub sku : Text
  pub title : Text
  pub variant_label : Option Text
  pub quantity : ℤ
  pub unit_minor : ℤ
  pub currency : Text
  pub line_total_minor : ℤ

pub record PricingSnapshot : Type 0 where
  pub subtotal_minor : ℤ
  pub discount_minor : ℤ
  pub shipping_minor : ℤ
  pub tax_minor : ℤ
  pub grand_total_minor : ℤ
  pub currency : Text
  pub coupon_code : Option Text

pub record CheckoutReservationRef : Type 0 where
  pub reservation_id : Text
  pub sku : Text
  pub quantity : ℤ

pub record CustomerSnapshot : Type 0 where
  pub user_id : Text
  pub email : Text
  pub name : Text

pub record Checkout : Type 0 where
  pub id : Text
  pub user_id : Text
  pub cart_id : Text
  pub cart_version : ℕ
  pub status : CheckoutStatus
  pub items : List CheckoutItem
  pub shipping_address : CheckoutAddress
  pub billing_address : CheckoutAddress
  pub pricing : PricingSnapshot
  pub currency : Text
  pub customer : CustomerSnapshot
  pub reservations : List CheckoutReservationRef
  pub idempotency_key : Option Text
  pub req_hash : Option Text
  pub fail_reason : Option Text
  pub order_id : Option Text
  pub version : ℕ
  pub expires_at : ℕ
  pub created_at : ℕ
  pub updated_at : ℕ

abbrev status_code : CheckoutStatus → ℕ
status_code priced = 0
status_code reserved = 1
status_code ready = 2
status_code completed = 3
status_code failed = 4
status_code expired = 5
status_code cancelled = 6

abbrev pub status_eq : CheckoutStatus → CheckoutStatus → Bool
status_eq a b = nat_eq (status_code a) (status_code b)

unfoldable pub is_in : CheckoutStatus → List CheckoutStatus → Bool
unfolding any
is_in status statuses = any (status_eq status) statuses

abbrev pub active_checkout_statuses : List CheckoutStatus
active_checkout_statuses = priced ∷ reserved ∷ ready ∷ []

abbrev pub terminal_checkout_statuses : List CheckoutStatus
terminal_checkout_statuses = completed ∷ failed ∷ expired ∷ cancelled ∷ []

abbrev pub allowed_transitions : CheckoutStatus → List CheckoutStatus
allowed_transitions priced = reserved ∷ failed ∷ expired ∷ cancelled ∷ []
allowed_transitions reserved = ready ∷ failed ∷ expired ∷ cancelled ∷ []
allowed_transitions ready = completed ∷ failed ∷ expired ∷ cancelled ∷ []
allowed_transitions completed = []
allowed_transitions failed = []
allowed_transitions expired = []
allowed_transitions cancelled = []

unfoldable pub can_transition_checkout_status : CheckoutStatus → CheckoutStatus → Bool
unfolding is_in
can_transition_checkout_status from to = is_in to (allowed_transitions from)

unfoldable pub is_terminal_checkout_status : CheckoutStatus → Bool
unfolding is_in
is_terminal_checkout_status status = is_in status terminal_checkout_statuses

unfoldable pub price_line_total : ℤ → ℤ → ℤ
price_line_total quantity unit_minor = quantity *ℤ unit_minor

pub record PriceLineInput : Type 0 where
  pub quantity : ℤ
  pub unit_minor : ℤ

unfoldable pub sum_line_totals : List PriceLineInput → ℤ
unfolding sum_by price_line_total
sum_line_totals items = sum_by (λ item. price_line_total item.quantity item.unit_minor) items

abbrev pub checkout_ttl_seconds : ℕ
checkout_ttl_seconds = 1800

abbrev pub max_checkout_items : ℕ
max_checkout_items = 50

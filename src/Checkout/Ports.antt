-- ===== src/Checkout/Ports.antt =====
-- src/modules/checkout/domain/ports/CheckoutPorts.ts: what a checkout asks of the other modules.
-- `World` is the state of those modules, which their operations may change.
use rest_ecommerce_api.Prelude.Text.{Text}
use rest_ecommerce_api.Prelude.{ℕ, ◌≡◌, Bool, false, Option, List, ℤ}
use rest_ecommerce_api.Errors.{Action}
use rest_ecommerce_api.Checkout.Entity.{
  CheckoutAddress, CheckoutReservationRef, CustomerSnapshot, PriceLineInput,
}

pub record CheckoutCartItem : Type 0 where
  pub sku : Text
  pub product_id : Text
  pub variant_id : Text
  pub title : Text
  pub quantity : ℤ
  pub unit_minor : ℤ
  pub currency : Text

-- The status is given by whether it is 'active'.
pub record CheckoutCartSnapshot : Type 0 where
  pub cart_id : Text
  pub version : ℕ
  pub is_active : Bool
  pub currency : Option Text
  pub items : List CheckoutCartItem

pub record CatalogPriceLine : Type 0 where
  pub product_id : Text
  pub variant_id : Text
  pub sku : Text
  pub title : Text
  pub variant_label : Option Text
  pub unit_minor : ℤ
  pub currency : Text
  pub purchasable : Bool

pub record PricedTotals : Type 0 where
  pub subtotal_minor : ℤ
  pub discount_minor : ℤ
  pub shipping_minor : ℤ
  pub tax_minor : ℤ
  pub grand_total_minor : ℤ
  pub currency : Text

pub record ReserveLine : Type 0 where
  pub sku : Text
  pub quantity : ℤ
  pub reference_id : Text
  pub idempotency_key : Text
  pub ttl_seconds : ℕ

-- The ports that the service is built with. Pricing and addresses are functions of their input.
pub record Ports (World : Type 0) : Type 0 where
  pub get_cart : Text → Action World (Option CheckoutCartSnapshot)
  pub get_line : Text → Action World (Option CatalogPriceLine)
  pub price : List PriceLineInput → Text → PricedTotals
  pub resolve_shipping : CheckoutAddress → CheckoutAddress
  pub resolve_billing : Option CheckoutAddress → CheckoutAddress → CheckoutAddress
  pub get_customer : Text → Action World (Option CustomerSnapshot)
  pub reserve : ReserveLine → Action World CheckoutReservationRef
  pub release : Text → Action World (Unit {0})

-- What the checkout relies on of the inventory: `is_held id w` tells whether the reservation still
-- holds stock. A release ends that, whatever its outcome, and takes up no other reservation.
pub record IsReleasing {World : Type 0} (ports : Ports World) : Type 0 where
  pub is_held : Text → World → Bool
  pub release-held : (id : Text) (w : World) → is_held id (ports.release id w).1 ≡ false
  pub release-keeps :
      (id other : Text) (w : World)
      → is_held id w ≡ false
      → is_held id (ports.release other w).1 ≡ false

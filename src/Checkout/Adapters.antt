-- ===== src/Checkout/Adapters.antt =====
-- The adapters behind the ports of a checkout, in src/modules/checkout/infrastructure: pricing,
-- addresses, the cart and the inventory.
use rest_ecommerce_api.Prelude.Text.{Text, text}
use rest_ecommerce_api.Prelude.{ℕ, ◌+◌, false, Option, none, some, List, map, pos, ◌++◌}
use rest_ecommerce_api.Mongo.{Collection}
use rest_ecommerce_api.Errors.{Action, pure, ◌>>=◌, ◌>>◌}
use rest_ecommerce_api.Cart.Entity.{Cart, CartCatalogPort}
use rest_ecommerce_api.Cart.Entity as CartEntity
use rest_ecommerce_api.Cart.View.{CartView, CartViewItem}
use rest_ecommerce_api.Cart.Repository as Carts
use rest_ecommerce_api.Cart.Service.{get_cart}
use rest_ecommerce_api.Inventory.Events
use rest_ecommerce_api.Inventory.View.{InventoryActor, ActorType}
use rest_ecommerce_api.Inventory.Repository.{Database}
use rest_ecommerce_api.Inventory.Repository as Stock
use rest_ecommerce_api.Inventory.Reserving.{reserve, release}
use rest_ecommerce_api.Checkout.Entity.{
  CheckoutAddress, CheckoutReservationRef, PriceLineInput, sum_line_totals,
}
use rest_ecommerce_api.Checkout.Ports.{
  CheckoutCartItem, CheckoutCartSnapshot, PricedTotals, ReserveLine,
}

-- `DefaultCheckoutPricing.price`
unfoldable pub default_price : List PriceLineInput → Text → PricedTotals
default_price lines currency =
    let subtotal = sum_line_totals lines in
    record {
      subtotal_minor = subtotal;
      discount_minor = pos 0;
      shipping_minor = pos 0;
      tax_minor = pos 0;
      grand_total_minor = subtotal;
      currency = currency;
    }

-- `InlineCheckoutAddressResolver`
abbrev pub resolve_shipping : CheckoutAddress → CheckoutAddress
resolve_shipping input = record {
  full_name = input.full_name;
  phone = input.phone;
  line1 = input.line1;
  line2 = input.line2;
  city = input.city;
  region = input.region;
  postal_code = input.postal_code;
  country = input.country;
}

abbrev pub resolve_billing : Option CheckoutAddress → CheckoutAddress → CheckoutAddress
resolve_billing none shipping = resolve_shipping shipping
resolve_billing (some input) shipping = resolve_shipping input

-- The carts, the stock, and how many calls the two were asked to make.
pub record Modules : Type 0 where
  pub carts : Carts.Store
  pub stock : Stock.Store
  pub calls : ℕ

unfoldable pub on_carts : {A : Type 0} → Action Carts.Store A → Action Modules A
on_carts m w = let (r, carts) = m w.carts in (r, record w { carts = carts; calls = w.calls + 1 })

unfoldable pub on_stock : {A : Type 0} → Action Stock.Store A → Action Modules A
on_stock m w = let (r, stock) = m w.stock in (r, record w { stock = stock; calls = w.calls + 1 })

abbrev pub snapshot_item : CartViewItem → CheckoutCartItem
snapshot_item item = record {
  sku = item.sku;
  product_id = item.product_id;
  variant_id = item.variant_id;
  title = item.title;
  quantity = item.quantity;
  unit_minor = item.unit_minor;
  currency = item.currency;
}

unfoldable pub to_snapshot : CartView → CheckoutCartSnapshot
to_snapshot view = record {
  cart_id = view.id;
  version = view.version;
  is_active = CartEntity.status_eq view.status CartEntity.CartStatus.active;
  currency = view.currency;
  items = map snapshot_item view.items;
}

-- `SYSTEM_ACTOR` with the identifier of the checkout or of the reservation
abbrev pub checkout_actor : Text → InventoryActor
checkout_actor id = record { type = ActorType.system; id = text "checkout:" ++ id }

-- What each call brings: its time, its identifiers.
module _ (requests : ℕ → Events.Request) where
  module _ (db : Database) where
    -- `InventoryServiceCheckoutInventoryAdapter`
    unfoldable pub reserve_line : ReserveLine → Action Modules CheckoutReservationRef
    reserve_line input w =
        (do
          result ← on_stock (
              reserve db (requests w.calls)
                (record {
                  sku = input.sku;
                  quantity = input.quantity;
                  reference_type = text "checkout";
                  reference_id = input.reference_id;
                  idempotency_key = input.idempotency_key;
                  ttl_seconds = some input.ttl_seconds;
                })
                (checkout_actor input.reference_id))
          pure (record {
            reservation_id = result.reservation.id;
            sku = result.reservation.sku;
            quantity = result.reservation.quantity;
          }))
          w

    unfoldable pub release_line : Text → Action Modules (Unit {0})
    release_line id w =
        (do on_stock (release db (requests w.calls) id (checkout_actor id) false none); pure tt) w

  module _ (carts : Collection Cart) (catalog : CartCatalogPort)
      (cart_request : ℕ → Carts.Request) where
    -- `CartServiceCheckoutCartAdapter.getCart`
    unfoldable pub cart_snapshot : Text → Action Modules (Option CheckoutCartSnapshot)
    cart_snapshot user w =
        (do
          view ← on_carts (get_cart carts catalog (cart_request w.calls) user)
          pure (some (to_snapshot view)))
          w

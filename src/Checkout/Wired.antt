-- ===== src/Checkout/Wired.antt =====
-- The ports of a checkout, filled with the adapters of src/modules/checkout/infrastructure over the
-- services of the carts and the inventory.
use rest_ecommerce_api.Prelude.Text.{Text}
use rest_ecommerce_api.Prelude.{ℕ, ◌≡◌, refl, ap, false, none, Option}
use rest_ecommerce_api.Mongo.{Collection}
use rest_ecommerce_api.Errors.{Action, pure}
use rest_ecommerce_api.Errors.Rules.{bind_state}
use rest_ecommerce_api.Cart.Entity.{Cart, CartCatalogPort}
use rest_ecommerce_api.Cart.Repository as Carts
use rest_ecommerce_api.Inventory.Events
use rest_ecommerce_api.Inventory.Once.{is_open, release-IsSettled}
use rest_ecommerce_api.Inventory.Elsewhere.{elsewhere-IsSettled}
use rest_ecommerce_api.Inventory.Repository.{Database}
use rest_ecommerce_api.Inventory.Reserving.{release}
use rest_ecommerce_api.Checkout.Entity.{CustomerSnapshot}
use rest_ecommerce_api.Checkout.Ports.{Ports, CatalogPriceLine, IsReleasing}
use rest_ecommerce_api.Checkout.Adapters.{
  Modules, on_stock, default_price, resolve_shipping, resolve_billing, checkout_actor, reserve_line,
  release_line, cart_snapshot,
}

module _ (stock : Database) (requests : ℕ → Events.Request) where
  release_line_lem :
      (id : Text) (w : Modules)
      → (release_line requests stock id w).1.stock
        ≡ (release stock (requests w.calls) id (checkout_actor id) false none w.stock).1
  unfolding release_line on_stock pure
  release_line_lem id w =
      ap (λ x. x.stock)
        (bind_state (on_stock (release stock (requests w.calls) id (checkout_actor id) false none))
          _ w (λ a t. refl))

  -- The adapter keeps what a checkout relies on: behind its release of a reservation, whatever the
  -- outcome, the inventory holds no active reservation under that identifier, and a reservation that
  -- was not active is not active.
  pub release_line-releases :
      (id other : Text) (w : Modules)
      → (is_open id (release_line requests stock id w).1.stock.reservations ≡ false)
        × (is_open other w.stock.reservations ≡ false
            → is_open other (release_line requests stock id w).1.stock.reservations ≡ false)
  release_line-releases id other w = (
    rw (release_line_lem id w)
        (release-IsSettled stock id (checkout_actor id) (requests w.calls) false none w.stock),
    λ h. rw (release_line_lem id w) (
        (elsewhere-IsSettled stock other (requests w.calls) id (checkout_actor id) false none).at
          w.stock h),
  )

-- What answers for the catalog and for the users is a parameter.
module _ (stock : Database) (requests : ℕ → Events.Request) (carts : Collection Cart)
    (catalog : CartCatalogPort) (cart_request : ℕ → Carts.Request)
    (get_line : Text → Action Modules (Option CatalogPriceLine))
    (get_customer : Text → Action Modules (Option CustomerSnapshot)) where
  abbrev pub wired : Ports Modules
  wired = record {
    get_cart = cart_snapshot requests carts catalog cart_request;
    get_line = get_line;
    price = default_price;
    resolve_shipping = resolve_shipping;
    resolve_billing = resolve_billing;
    get_customer = get_customer;
    reserve = reserve_line requests stock;
    release = release_line requests stock;
  }

  abbrev pub wired-IsReleasing : IsReleasing wired
  wired-IsReleasing = record {
    is_held = λ id w. is_open id w.stock.reservations;
    release-held = λ id w. (release_line-releases stock requests id id w).0;
    release-keeps = λ id other w. (release_line-releases stock requests other id w).1;
  }

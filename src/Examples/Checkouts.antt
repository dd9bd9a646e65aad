-- ===== src/Examples/Checkouts.antt =====
-- The checkouts at concrete inputs: one T-shirt of five, at 100.
use rest_ecommerce_api.Prelude.Text.{Text, text, ◌==◌, eq_refl}
use rest_ecommerce_api.Prelude.{
  ℕ, ◌≡◌, refl, true, false, none, some, List, [], ◌∷◌, All, pos, first, any, every, length, ◌*ℤ◌,
  ◌≤◌, math_min, math_max, or_else, if◌then◌else◌,
}
use rest_ecommerce_api.Mongo.{Collection}
use rest_ecommerce_api.Memory.{memory}
use rest_ecommerce_api.Errors.{
  ok, err, idempotency_conflict, ◌>>=◌, require, or_raise, attempt, pure,
}
use rest_ecommerce_api.Checkout.Entity.{
  Checkout, CheckoutAddress, CheckoutItem, CheckoutReservationRef, priced, ready, completed,
  cancelled, is_in, is_terminal_checkout_status,
}
use rest_ecommerce_api.Checkout.Ports.{Ports, IsReleasing, CheckoutCartSnapshot}
use rest_ecommerce_api.Checkout.Repository.{
  Store, has_id, is_due, create, with_world, find_by_user_and_key, moved_checkout,
  completed_checkout, find_active_expired,
}
use rest_ecommerce_api.Checkout.Checking.{
  Request, CreateCheckoutInput, to_view, build_items, single_currency, checkout_item,
}
use rest_ecommerce_api.Checkout.Service.{
  CreatedCheckout, create_checkout, create_for_cart, store_checkout, new_checkout, complete,
  compensate,
}
use rest_ecommerce_api.Checkout.Reserving.{
  Sweep, expire_round, reserve_valid, cancel_checkout, expire_checkouts,
}
use rest_ecommerce_api.Checkout.Adapters.{
  Modules, default_price, resolve_shipping, resolve_billing, release_line,
}
use rest_ecommerce_api.Checkout.Wired.{wired, wired-IsReleasing, release_line-releases}
use rest_ecommerce_api.Checkout.Follows.{Follows}
use rest_ecommerce_api.Checkout.Lifecycle.{reserves, sweeps, run, run-Follows, run-final}
use rest_ecommerce_api.Checkout.Releasing.{AreFreed}
use rest_ecommerce_api.Checkout.Stocked.{IsAllOrNone, reserve_valid-IsAllOrNone}
use rest_ecommerce_api.Checkout.Cancelling.{cancel_checkout-AreFreed}
use rest_ecommerce_api.Checkout.Sweeping.{IsSwept, expire_checkouts-IsSwept}
use rest_ecommerce_api.Checkout.Overlap.{complete-AreFreed}
use rest_ecommerce_api.Checkout.Creating.{IsCreation, create_checkout-IsCreation}
use rest_ecommerce_api.Checkout.Recreating.{create_checkout-again}
use rest_ecommerce_api.Inventory.Once.{is_open}
use rest_ecommerce_api.Inventory.History.{empty_store}
use rest_ecommerce_api.Inventory.History as Histories
use rest_ecommerce_api.Examples.Stocked as Stocked
use rest_ecommerce_api.Examples.Carts as Carts

abbrev checkouts : Collection Checkout
checkouts = memory Checkout

abbrev address : CheckoutAddress
address = record {
  full_name = text "Ann";
  phone = none;
  line1 = text "1 Main Street";
  line2 = none;
  city = text "Pune";
  region = text "MH";
  postal_code = text "411001";
  country = text "IN";
}

abbrev request : ℕ → Request
request n = record { now = n; uuid = λ k. n ∷ k ∷ [] }

abbrev asking : Text → CreateCheckoutInput
asking hash = record {
  shipping_address = address;
  billing_address = none;
  coupon_code = none;
  idempotency_key = text "key1";
  req_hash = hash;
}

-- Other modules that answer for one T-shirt, and hold nothing.
abbrev desk : Ports (Unit {0})
desk = record {
  get_cart = λ user w. (
    ok (
        some (record {
          cart_id = text "cart";
          version = 3;
          is_active = true;
          currency = some (text "INR");
          items =
              record {
                sku = text "TEE-1";
                product_id = text "p1";
                variant_id = text "v1";
                title = text "Tee";
                quantity = pos 2;
                unit_minor = pos 100;
                currency = text "INR";
              }
              ∷ [];
        })),
    w,
  );
  get_line = λ sku w. (
    ok (
        some (record {
          product_id = text "p1";
          variant_id = text "v1";
          sku = sku;
          title = text "Tee";
          variant_label = none;
          unit_minor = pos 100;
          currency = text "INR";
          purchasable = true;
        })),
    w,
  );
  price = default_price;
  resolve_shipping = resolve_shipping;
  resolve_billing = resolve_billing;
  get_customer = λ user w.
      (ok (some (record { user_id = user; email = text "ann@example.com"; name = text "Ann" })), w);
  reserve = λ line w. (
    ok (record { reservation_id = line.idempotency_key; sku = line.sku; quantity = line.quantity }),
    w,
  );
  release = λ id w. (ok tt, w);
}

-- The adapters over in-memory collections.
abbrev modules : Ports Modules
modules =
    wired Stocked.db Stocked.request Carts.db Carts.catalog Carts.request (λ sku w. (ok none, w))
      (λ user w. (ok none, w))

create_checkout-IsCreation_example : IsCreation (request 1) (text "ann") (asking (text "h1")) [] (
    create_checkout checkouts desk
      (request 1)
      (text "ann")
      (asking (text "h1"))
      (record { checkouts = []; world = tt }))
create_checkout-IsCreation_example =
    create_checkout-IsCreation (request 1) (text "ann") (asking (text "h1")) [] checkouts desk tt
      (λ lines currency. refl)

abbrev cart : CheckoutCartSnapshot
cart = record {
  cart_id = text "cart";
  version = 3;
  is_active = true;
  currency = some (text "INR");
  items = [];
}

abbrev tee : CheckoutItem
tee = record {
  product_id = text "p1";
  variant_id = text "v1";
  sku = text "TEE-1";
  title = text "Tee";
  variant_label = none;
  quantity = pos 2;
  unit_minor = pos 100;
  currency = text "INR";
  line_total_minor = pos 200;
}

-- The checkout that the request 1 of Ann makes.
abbrev priced_tee : Checkout
priced_tee =
    new_checkout (request 1) (text "ann") (asking (text "h1")) cart
      (record { user_id = text "ann"; email = text "ann@example.com"; name = text "Ann" }) address
      address (tee ∷ []) (text "INR")
      (default_price (record { quantity = pos 2; unit_minor = pos 100 } ∷ []) (text "INR"))

abbrev tee_created : CreatedCheckout
tee_created = record { view = to_view priced_tee; created = true }

-- The first request, computed.
first_request :
    create_checkout checkouts desk
      (request 1)
      (text "ann")
      (asking (text "h1"))
      (record { checkouts = []; world = tt })
    ≡ (ok tee_created, record { checkouts = priced_tee ∷ []; world = tt })
unfolding create_checkout create_for_cart store_checkout create find_by_user_and_key with_world
    build_items single_currency every ◌>>=◌ require or_raise attempt pure memory first any ◌==◌
    new_checkout checkout_item ◌*ℤ◌
first_request = refl

create_checkout-again_example :
    create_checkout checkouts desk
      (request 2)
      (text "ann")
      (asking (text "h2"))
      (record { checkouts = priced_tee ∷ []; world = tt })
    ≡ (
      if text "h1" == text "h2"
          then ok (record { view = to_view priced_tee; created = false })
          else err idempotency_conflict,
      record { checkouts = priced_tee ∷ []; world = tt },
    )
create_checkout-again_example =
    create_checkout-again (text "ann") (asking (text "h1")) checkouts desk (request 1) (request 2)
      (asking (text "h2")) [] tt tee_created (record { checkouts = priced_tee ∷ []; world = tt })
      (λ lines currency. refl) first_request refl refl

abbrev held : CheckoutReservationRef
held = record { reservation_id = 2 ∷ 0 ∷ []; sku = text "TEE-1"; quantity = pos 3 }

-- A checkout whose reservation the inventory holds, beside its cart and its stock.
abbrev ready_tee : Checkout
ready_tee = record priced_tee { status = ready; reservations = held ∷ []; version = 3 }

abbrev store_of : Checkout → Store Modules
store_of c = record {
  checkouts = c ∷ [];
  world = record {
    carts = [];
    stock = Histories.run Stocked.db Stocked.holding empty_store;
    calls = 3;
  };
}

stored : (c : Checkout) → first (has_id c.id) (store_of c).checkouts ≡ some c
unfolding first
stored c = rw (eq_refl c.id) refl

run-Follows_example :
    Follows priced_tee.id priced_tee
      (run checkouts modules
        (reserves (request 2) (text "ann") priced_tee.id ∷ sweeps 9000000 none ∷ [])
        (store_of priced_tee)).checkouts
run-Follows_example =
    run-Follows checkouts modules priced_tee.id priced_tee
      (reserves (request 2) (text "ann") priced_tee.id ∷ sweeps 9000000 none ∷ [])
      (store_of priced_tee) (stored priced_tee)

abbrev fresh_tee : Checkout
fresh_tee = record priced_tee { status = priced }

abbrev over : Checkout
over = record ready_tee { status = completed }

run-final_example :
    (after : Checkout) × (first
        (has_id over.id)
        (run checkouts modules (sweeps 9000000 none ∷ []) (store_of over)).checkouts
      ≡ some after)
    × (after.status ≡ completed)
unfolding is_terminal_checkout_status is_in any
run-final_example =
    run-final checkouts modules over.id over (sweeps 9000000 none ∷ []) (store_of over)
      (stored over) refl

abbrev laws : IsReleasing modules
laws =
    wired-IsReleasing Stocked.db Stocked.request Carts.db Carts.catalog Carts.request
      (λ sku w. (ok none, w)) (λ user w. (ok none, w))

reserve_valid-IsAllOrNone_example :
    IsAllOrNone checkouts modules laws fresh_tee
      (store_of fresh_tee).world
      (reserve_valid checkouts modules 9 fresh_tee [] (store_of fresh_tee))
reserve_valid-IsAllOrNone_example =
    reserve_valid-IsAllOrNone checkouts modules laws 9 fresh_tee (store_of fresh_tee)
      (stored fresh_tee) refl

cancel_checkout-AreFreed_example :
    (end : Store Modules) × (cancel_checkout checkouts modules
        (request 9)
        ready_tee.user_id
        ready_tee.id
        (some 3)
        (store_of ready_tee)
      ≡ (
        ok (record { view = to_view (moved_checkout 9 cancelled ready_tee); replayed = false }),
        end,
      ))
    × (first (has_id ready_tee.id) end.checkouts ≡ some (moved_checkout 9 cancelled ready_tee))
    × AreFreed checkouts modules laws ready_tee.reservations end
unfolding is_in any new_checkout
cancel_checkout-AreFreed_example =
    cancel_checkout-AreFreed checkouts modules laws ready_tee.user_id (request 9) (some 3) ready_tee
      (store_of ready_tee) (stored ready_tee) refl refl refl refl

expire_checkouts-IsSwept_example :
    (due : List Checkout) × (report : Sweep) × (end : Store Modules) × (expire_checkouts checkouts
        modules 9000000 none
        (store_of ready_tee)
      ≡ (ok report, end))
    × (find_active_expired checkouts 9000000
          (math_min (math_max (or_else none 100) 1) 500)
          (store_of ready_tee)
        ≡ (ok due, store_of ready_tee))
    × All (λ c. (is_due 9000000 c ≡ true) × IsSwept checkouts modules laws 9000000 c end) due
    × (report.scanned ≡ length due)
    × (report.scanned ≤ 500)
    × (report.expired ≤ report.scanned)
    × (report.failed ≡ 0)
expire_checkouts-IsSwept_example =
    expire_checkouts-IsSwept checkouts modules laws 9000000 none (store_of ready_tee)

-- Behind a round of the sweep that an order interrupts.
abbrev between_the_steps : Store Modules
between_the_steps =
    (expire_round checkouts modules
      (λ t. (complete checkouts modules (request 9) ready_tee.id (text "order1") none t).1) 9
      ready_tee (store_of ready_tee)).1

complete-AreFreed_example :
    ((complete checkouts modules
        (request 9)
        ready_tee.id
        (text "order1")
        none
        (compensate checkouts modules ready_tee.reservations (store_of ready_tee)).1).0
      ≡ ok tt)
    × (first (has_id ready_tee.id) between_the_steps.checkouts
        ≡ some (completed_checkout 9 (text "order1") ready_tee))
    × AreFreed checkouts modules laws ready_tee.reservations between_the_steps
complete-AreFreed_example =
    complete-AreFreed checkouts modules laws (request 9) (text "order1") none 9 ready_tee
      (store_of ready_tee) (stored ready_tee) refl refl

release_line-releases_example :
    (is_open
        (2 ∷ 0 ∷ [])
        (release_line Stocked.request Stocked.db
          (2 ∷ 0 ∷ [])
          (store_of ready_tee).world).1.stock.reservations
      ≡ false)
    × (is_open (7 ∷ []) (store_of ready_tee).world.stock.reservations ≡ false
        → is_open
            (7 ∷ [])
            (release_line Stocked.request Stocked.db
              (2 ∷ 0 ∷ [])
              (store_of ready_tee).world).1.stock.reservations
          ≡ false)
release_line-releases_example =
    release_line-releases Stocked.db Stocked.request (2 ∷ 0 ∷ []) (7 ∷ [])
      (store_of ready_tee).world

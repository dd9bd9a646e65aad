-- ===== src/Examples/Stocked.antt =====
-- The inventory at concrete inputs: five T-shirts, of which a checkout holds three.
use rest_ecommerce_api.Prelude.Text.{Text, text}
use rest_ecommerce_api.Prelude.{
  ℕ, false, ◌≡◌, Bool, true, Option, none, some, List, [], ◌∷◌, pos, ◌≤ℤ◌, sum_by,
}
use rest_ecommerce_api.Prelude.Int.{◌-ℤ◌, ◌+ℤ◌}
use rest_ecommerce_api.Prelude.{refl, first, any, modify_first}
use rest_ecommerce_api.Prelude.Text.{
  ◌==◌, to_upper_case, upper_unit, trim, trim_start, trim_end, is_space,
}
use rest_ecommerce_api.Errors.{◌>>=◌, require, or_raise, attempt, pure}
use rest_ecommerce_api.Inventory.Entity.{normalize_sku}
use rest_ecommerce_api.Inventory.Building.{is_integer_in_range}
use rest_ecommerce_api.Inventory.Service.{emit}
use rest_ecommerce_api.Inventory.Repository.{
  Store, create_reservation, append_movement, publish, find_by_sku, find_reservation_by_key,
  reserve_stock,
}
use rest_ecommerce_api.Inventory.Reserving.{
  reserve_checked, reserve_found, reserve_new, hold_taken, record_reservation,
}
use rest_ecommerce_api.Memory.{memory}
use rest_ecommerce_api.Inventory.Events.{Request}
use rest_ecommerce_api.Inventory.View.{
  InventoryActor, system, EnsureInventoryInput, ReserveInput, InventoryCatalogPort,
}
use rest_ecommerce_api.Inventory.Repository.{Database}
use rest_ecommerce_api.Inventory.Ledger.{IsConsistent, active_total}
use rest_ecommerce_api.Inventory.Reserving.{reserve, release, confirm, expire_reservations}
use rest_ecommerce_api.Inventory.History.{
  Call, ensures, reserves, empty_store, step, run, step-IsConsistent, run-IsConsistent,
  empty_store-IsConsistent, on_hand_of, active-le-on_hand,
}
use rest_ecommerce_api.Inventory.Retry.{reserve-again}
use rest_ecommerce_api.Inventory.Entity.{Inventory}
use rest_ecommerce_api.Errors.{is_ok}
use rest_ecommerce_api.Inventory.Returning.{is_database_error, settling_no_error}
use rest_ecommerce_api.Inventory.Once.{releasing, confirming, settle, settle-settle}
use rest_ecommerce_api.Inventory.Conservation.{units, units-conserved}

abbrev pub db : Database
db = record {
  inventories = memory _;
  reservations = memory _;
  movements = memory _;
  outbox = memory _;
}

abbrev tee : Text
tee = text "TEE-1"

-- The request number `n`.
abbrev pub request : ℕ → Request
request n = record { now = n; uuid = λ k. n ∷ k ∷ []; correlation_id = none }

abbrev clerk : InventoryActor
clerk = record { type = system; id = text "seed" }

abbrev pub catalog : InventoryCatalogPort
catalog = record {
  resolve_sku = λ sku.
      some (record { product_id = text "p1"; variant_id = text "v1"; sku = sku; active = true });
  resolve_variant = λ p v. none;
}

abbrev five_tees : EnsureInventoryInput
five_tees = record {
  sku = some tee;
  product_id = none;
  variant_id = none;
  initial_on_hand = some (pos 5);
  low_stock_threshold = none;
}

abbrev three_tees : Text → ReserveInput
three_tees key = record {
  sku = tee;
  quantity = pos 3;
  reference_type = text "checkout";
  reference_id = text "c1";
  idempotency_key = key;
  ttl_seconds = none;
}

abbrev stocking : List Call
stocking = ensures catalog (request 1) five_tees clerk ∷ []

abbrev pub holding : List Call
holding =
    ensures catalog (request 1) five_tees clerk
    ∷ reserves (request 2) (three_tees (text "key1")) clerk
    ∷ []

active-le-on_hand_example :
    active_total tee (run db holding empty_store).reservations
    ≤ℤ sum_by (on_hand_of tee) (run db holding empty_store).inventories
active-le-on_hand_example = active-le-on_hand db holding tee

step-IsConsistent_example :
    IsConsistent (
      step db (reserves (request 2) (three_tees (text "key1")) clerk) (run db stocking empty_store))
step-IsConsistent_example =
    step-IsConsistent db (reserves (request 2) (three_tees (text "key1")) clerk)
      (run db stocking empty_store)
      (run-IsConsistent db stocking empty_store empty_store-IsConsistent)

units-conserved_example :
    ((c : Request) (input : ReserveInput)
      → units tee (reserve db c input clerk (run db stocking empty_store)).1
        ≡ units tee (run db stocking empty_store))
    × ((c : Request) (id : Text) (as_expired : Bool) (reason : Option Text)
        → units tee (release db c id clerk as_expired reason (run db stocking empty_store)).1
          ≡ units tee (run db stocking empty_store))
    × ((c : Request) (id : Text)
        → units tee (confirm db c id clerk (run db stocking empty_store)).1
          ≡ units tee (run db stocking empty_store))
    × ((c : ℕ → Request) (now : ℕ) (limit : Option ℕ)
        → units tee (expire_reservations db c now limit clerk (run db stocking empty_store)).1
          ≡ units tee (run db stocking empty_store))
units-conserved_example = units-conserved db tee (run db stocking empty_store) clerk

abbrev sweeper : InventoryActor
sweeper = record { type = system; id = text "sweep" }

settle-settle_example :
    settle db
      (2 ∷ 0 ∷ [])
      (confirming (request 4) sweeper)
      (settle db (2 ∷ 0 ∷ []) (releasing (request 3) clerk false none) (run db holding empty_store))
    ≡ settle db (2 ∷ 0 ∷ []) (releasing (request 3) clerk false none) (run db holding empty_store)
settle-settle_example =
    settle-settle db (2 ∷ 0 ∷ []) (releasing (request 3) clerk false none)
      (confirming (request 4) sweeper) (run db holding empty_store)

abbrev tee_record : Inventory
tee_record = record {
  id = text "i1";
  sku = tee;
  product_id = text "p1";
  variant_id = text "v1";
  on_hand = pos 5;
  reserved = pos 0;
  sold = pos 0;
  low_stock_threshold = pos 1;
  version = 0;
  created_at = 0;
  updated_at = 0;
  last_movement_at = 0;
}

abbrev stocked : Store
stocked = record { inventories = tee_record ∷ []; reservations = []; movements = []; outbox = [] }

-- Three of five T-shirts can be held.
reserve_test : is_ok (reserve db (request 2) (three_tees (text "key1")) clerk stocked).0 ≡ true
unfolding reserve reserve_checked reserve_found reserve_new hold_taken record_reservation emit
    memory create_reservation append_movement publish find_by_sku find_reservation_by_key
    reserve_stock first any modify_first ◌>>=◌ require or_raise attempt pure is_integer_in_range
    normalize_sku to_upper_case upper_unit trim trim_start trim_end is_space ◌==◌ ◌-ℤ◌ ◌+ℤ◌
reserve_test = refl

reserve-again_example :
    (reserve db
      (request 3)
      (three_tees (text "key1"))
      clerk
      (reserve db (request 2) (three_tees (text "key1")) clerk stocked).1).1
    ≡ (reserve db (request 2) (three_tees (text "key1")) clerk stocked).1
reserve-again_example =
    reserve-again db (request 2) (request 3) (three_tees (text "key1")) (three_tees (text "key1"))
      clerk clerk stocked reserve_test refl

settling_no_error_example :
    (is_database_error
        (release db (request 3) (2 ∷ 0 ∷ []) clerk false none (run db holding empty_store)).0
      ≡ false)
    × (is_database_error (confirm db (request 3) (2 ∷ 0 ∷ []) clerk (run db holding empty_store)).0
        ≡ false)
settling_no_error_example =
    settling_no_error db (request 3) (2 ∷ 0 ∷ []) clerk (run db holding empty_store) false none
      (run-IsConsistent db holding empty_store empty_store-IsConsistent)

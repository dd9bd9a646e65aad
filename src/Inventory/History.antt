-- ===== src/Inventory/History.antt =====
-- Sequences of calls of src/modules/inventory/application/InventoryService.ts.
use rest_ecommerce_api.Prelude.Text.{Text, ◌==◌}
use rest_ecommerce_api.Prelude.{
  ℕ, ◌≡◌, subst, Bool, Option, List, [], ◌∷◌, ℤ, pos, ◌+ℤ◌, ◌≤ℤ◌, arith, int_laws, All, sum_by,
  count_by, if◌then◌else◌, +ℤ_parts,
}
use rest_ecommerce_api.Inventory.Entity.{Inventory}
use rest_ecommerce_api.Inventory.Events.{Request}
use rest_ecommerce_api.Inventory.View.{
  InventoryActor, AdjustInventoryInput, EnsureInventoryInput, ReserveInput, InventoryCatalogPort,
}
use rest_ecommerce_api.Inventory.Repository.{Store, Database}
use rest_ecommerce_api.Inventory.Ledger.{
  IsSound, IsConsistent, reserved_of, reserved_total, active_total,
}
use rest_ecommerce_api.Inventory.Consistency.{reserve-IsConsistent}
use rest_ecommerce_api.Inventory.Settling.{
  release-IsConsistent, confirm-IsConsistent, expire_reservations-IsConsistent,
}
use rest_ecommerce_api.Inventory.Stocking.{adjust-IsConsistent, ensure_inventory-IsConsistent}
use rest_ecommerce_api.Inventory.Service.{adjust, ensure_inventory}
use rest_ecommerce_api.Inventory.Reserving.{reserve, release, confirm, expire_reservations}

-- The calls of the service that write, with what they bring.
pub data Call : Type 0 where
  ensures : InventoryCatalogPort → Request → EnsureInventoryInput → InventoryActor → Call
  adjusts : Request → AdjustInventoryInput → InventoryActor → Call
  reserves : Request → ReserveInput → InventoryActor → Call
  releases : Request → Text → InventoryActor → Option Text → Call
  confirms : Request → Text → InventoryActor → Call
  expires : (ℕ → Request) → ℕ → Option ℕ → InventoryActor → Call

abbrev pub empty_store : Store
empty_store = record { inventories = []; reservations = []; movements = []; outbox = [] }

module _ (db : Database) where
  -- The store after a call, whether it succeeded or raised.
  unfoldable pub step : Call → Store → Store
  step (ensures catalog c input actor) s = (ensure_inventory db catalog c input actor s).1
  step (adjusts c input actor) s = (adjust db c input actor s).1
  step (reserves c input actor) s = (reserve db c input actor s).1
  step (releases c id actor reason) s = (release db c id actor Bool.false reason s).1
  step (confirms c id actor) s = (confirm db c id actor s).1
  step (expires c now limit actor) s = (expire_reservations db c now limit actor s).1

  unfoldable pub run : List Call → Store → Store
  run [] s = s
  run (call ∷ calls) s = run calls (step call s)

  -- Every call of the service, successful or not, keeps the stock records sound (no negative
  -- quantity, reserved at most on hand, one record to a SKU) and keeps what they hold back for each
  -- SKU equal to what its active reservations hold.
  pub step-IsConsistent : (call : Call) (s : Store) → IsConsistent s → IsConsistent (step call s)
  unfolding step
  step-IsConsistent (ensures catalog c input actor) s l =
      ensure_inventory-IsConsistent db catalog c input actor s l
  step-IsConsistent (adjusts c input actor) s l = adjust-IsConsistent db c input actor s l
  step-IsConsistent (reserves c input actor) s l = reserve-IsConsistent db c input actor s l
  step-IsConsistent (releases c id actor reason) s l =
      release-IsConsistent db c id actor Bool.false reason s l
  step-IsConsistent (confirms c id actor) s l = confirm-IsConsistent db c id actor s l
  step-IsConsistent (expires c now limit actor) s l =
      expire_reservations-IsConsistent db c now limit actor s l

  pub run-IsConsistent :
      (calls : List Call) (s : Store) → IsConsistent s → IsConsistent (run calls s)
  unfolding run
  run-IsConsistent [] s l = l
  run-IsConsistent (call ∷ calls) s l =
      run-IsConsistent calls (step call s) (step-IsConsistent call s l)

pub empty_store-IsConsistent : IsConsistent empty_store
unfolding sum_by count_by reserved_total active_total
empty_store-IsConsistent = record {
  sound = tt;
  one_record = λ k. omega arith;
  held = tt;
  balanced = λ k. omega int_laws;
}

-- The stock on hand for a SKU.
abbrev pub on_hand_of : Text → Inventory → ℤ
on_hand_of k r = if r.sku == k then r.on_hand else pos 0

reserved-le-on_hand :
    (k : Text) (is : List Inventory)
    → All IsSound is
    → sum_by (reserved_of k) is ≤ℤ sum_by (on_hand_of k) is
unfolding sum_by
reserved-le-on_hand k [] h = omega arith
reserved-le-on_hand k (r ∷ is) h = ground (
  arith,
  reserved-le-on_hand k is h.1,
  h.0.reserved_le,
  +ℤ_parts (reserved_of k r) (sum_by (reserved_of k) is),
  +ℤ_parts (on_hand_of k r) (sum_by (on_hand_of k) is),
)

covered : (a b c : ℤ) → b ≡ a +ℤ pos 0 → b ≤ℤ c → a ≤ℤ c
covered a b c e le = omega (int_laws, subst (λ t. t ≤ℤ c) e le)

-- No overselling: after any calls, successful or not, on an empty store, the active reservations for
-- a SKU hold at most what is on hand for it.
pub active-le-on_hand :
    (db : Database) (calls : List Call) (sku : Text)
    → let s = run db calls empty_store in
      active_total sku s.reservations ≤ℤ sum_by (on_hand_of sku) s.inventories
unfolding reserved_total
active-le-on_hand db calls sku =
    let l = run-IsConsistent db calls empty_store empty_store-IsConsistent in
    covered _ _ _ (l.balanced sku) (reserved-le-on_hand sku _ l.sound)

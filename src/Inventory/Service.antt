-- ===== src/Inventory/Service.antt =====
-- src/modules/inventory/application/InventoryService.ts: records and their adjustment. Logging and
-- metrics are left out; a request reads the clock once.
use rest_ecommerce_api.Prelude.Text.{Text, text}
use rest_ecommerce_api.Prelude.{
  Bool, true, false, ◌&&◌, not, Option, none, some, [], ℤ, pos, eq_ℤ, leb, abs, if◌then◌else◌,
  or_else,
}
use rest_ecommerce_api.Errors.{
  Error, Action, ok, err, inventory_not_found, adjustment_rejected, invalid_quantity, pure,
  or_raise, attempt, require, is_duplicate, ◌>>=◌, ◌>>◌,
}
use rest_ecommerce_api.Inventory.Entity.{
  Inventory, is_in_stock, is_low_stock, is_out_of_stock, is_adjustment_reason, available_quantity,
  derive_stock_status, default_low_stock_threshold, max_adjustment_delta,
}
use rest_ecommerce_api.Inventory.Events.{
  InventoryEventType, Payload, adjusted_payload, low_stock_payload, Request, build_inventory_event,
}
use rest_ecommerce_api.Inventory.Repository.{
  Store, Database, AdjustmentOutcome, truthy, find_inventory_by_id, find_by_sku, create_inventory,
  apply_adjustment, append_movement, find_movement_by_key, publish,
}
use rest_ecommerce_api.Inventory.View.{
  InventoryActor, InventoryView, AvailabilityView, EnsureInventoryInput, AdjustInventoryInput,
  CatalogVariantRef, InventoryCatalogPort, to_view,
}
use rest_ecommerce_api.Inventory.Building.{
  is_integer_in_range, looks_like_id, adjust_locator, catalog_ref, new_inventory, init_movement,
  adjust_movement,
}

-- The source reads a store's clock and draws identifiers as it goes: `c.uuid 0`, `c.uuid 1`, ….
module _ (db : Database) where
  -- A failure to publish is only logged, and the publisher swallows its own.
  unfoldable pub emit :
      Request
      → InventoryEventType
      → Text
      → Text
      → Payload
      → Option Text
      → Text
      → Action Store (Unit {0})
  emit c event_type aggregate_type aggregate_id payload causation_id event_id =
      publish db (
        build_inventory_event c event_type aggregate_type aggregate_id payload causation_id
          event_id)

  unfoldable pub find_record : Text → Action Store (Option Inventory)
  find_record sku_or_id = do
    by_sku ← find_by_sku db sku_or_id
    elim by_sku [
      | some r ↦ pure (some r)
      | none ↦ if looks_like_id sku_or_id then find_inventory_by_id db sku_or_id else pure none
    ]

  unfoldable pub get_record : Text → Action Store InventoryView
  get_record sku_or_id = do
    found ← find_record sku_or_id
    r ← or_raise found inventory_not_found
    pure (to_view r)

  unfoldable pub get_availability : Text → Action Store AvailabilityView
  get_availability sku = do
    found ← find_by_sku db sku
    r ← or_raise found inventory_not_found
    let status = derive_stock_status r
    pure (record { sku = r.sku; available = not (is_out_of_stock status); status = status })

  -- A failed insertion: if another request won the race, its record is the answer.
  unfoldable pub recover_inventory : CatalogVariantRef → Error → Action Store (InventoryView × Bool)
  recover_inventory ref e = do
    raced ← (if is_duplicate e then find_by_sku db ref.sku else pure none)
    r ← or_raise raced e
    pure (to_view r, false)

  unfoldable pub record_bootstrap :
      Request → InventoryActor → CatalogVariantRef → ℤ → Action Store (InventoryView × Bool)
  record_bootstrap c actor ref initial_on_hand = do
    found ← find_by_sku db ref.sku
    created ← or_raise found inventory_not_found
    append_movement db (init_movement c actor ref initial_on_hand created)
    pure (to_view created, true)

  -- The part of `ensureInventory` behind its checks.
  unfoldable pub bootstrap_inventory :
      Request → InventoryActor → CatalogVariantRef → ℤ → ℤ → Action Store (InventoryView × Bool)
  bootstrap_inventory c actor ref initial_on_hand threshold = do
    outcome ← attempt (create_inventory db (new_inventory c ref initial_on_hand threshold))
    elim outcome [
      | err e ↦ recover_inventory ref e
      | ok _ ↦ record_bootstrap c actor ref initial_on_hand
    ]

  unfoldable pub ensure_inventory :
      InventoryCatalogPort
      → Request
      → EnsureInventoryInput
      → InventoryActor
      → Action Store (InventoryView × Bool)
  ensure_inventory catalog c input actor = do
    ref ← or_raise (catalog_ref catalog input) inventory_not_found
    existing ← find_by_sku db ref.sku
    elim existing [
      | some r ↦ pure (to_view r, false)
      | none ↦ do
        let initial_on_hand = or_else input.initial_on_hand (pos 0)
        require (is_integer_in_range initial_on_hand (pos 0) max_adjustment_delta) invalid_quantity
        let threshold = or_else input.low_stock_threshold default_low_stock_threshold
        require (is_integer_in_range threshold (pos 0) max_adjustment_delta) invalid_quantity
        bootstrap_inventory c actor ref initial_on_hand threshold
    ]

  -- The status events of an adjustment.
  unfoldable pub emit_adjusted :
      Request → AdjustInventoryInput → Inventory → AdjustmentOutcome → Action Store (Unit {0})
  emit_adjusted c input before outcome = do
    let after = outcome.record_after
    let before_status =
        derive_stock_status (record before {
          on_hand = outcome.previous_on_hand;
          reserved = outcome.previous_reserved;
        })
    let after_status = derive_stock_status after
    emit c InventoryEventType.adjusted (text "inventory") after.sku
        (adjusted_payload after.sku input.delta input.reason outcome.previous_on_hand after.on_hand
          (available_quantity after) after_status input.reference_type input.reference_id)
        none (c.uuid 1)
    if is_in_stock before_status && is_low_stock after_status
        then emit c InventoryEventType.low_stock (text "inventory") after.sku
            (low_stock_payload after.sku (available_quantity after) after.low_stock_threshold) none
            (c.uuid 2)
        else pure tt

  unfoldable pub record_adjustment :
      Request
      → AdjustInventoryInput
      → InventoryActor
      → Inventory
      → AdjustmentOutcome
      → Action Store InventoryView
  record_adjustment c input actor before outcome = do
    append_movement db (adjust_movement c actor input outcome)
    emit_adjusted c input before outcome
    pure (to_view outcome.record_after)

  -- The part of `adjust` behind its checks and the idempotent replay.
  unfoldable pub apply_and_record :
      Request → AdjustInventoryInput → InventoryActor → Inventory → Action Store InventoryView
  apply_and_record c input actor before = do
    applied ← apply_adjustment db c.now before.sku input.delta
    outcome ← or_raise applied adjustment_rejected
    record_adjustment c input actor before outcome

  unfoldable pub adjust :
      Request → AdjustInventoryInput → InventoryActor → Action Store InventoryView
  adjust c input actor = do
    require (not (eq_ℤ input.delta (pos 0))) invalid_quantity
    require (leb (abs input.delta) (abs max_adjustment_delta)) invalid_quantity
    require (is_adjustment_reason input.reason) invalid_quantity
    locator ← or_raise (adjust_locator input) invalid_quantity
    found ← find_record locator
    before ← or_raise found inventory_not_found
    prior ←
        (if truthy input.idempotency_key
          then find_movement_by_key db (or_else input.idempotency_key [])
          else pure none)
    elim prior [
      | some m ↦ do
        again ← find_record locator
        current ← or_raise again inventory_not_found
        pure (to_view current)
      | none ↦ apply_and_record c input actor before
    ]

-- ===== src/Inventory/Building.antt =====
-- src/modules/inventory/application/InventoryService.ts: the checks on the inputs, and the documents
-- and movements that the operations write.
use rest_ecommerce_api.Prelude.Text.{Text, text, ◌==◌}
use rest_ecommerce_api.Prelude.{
  ℕ, ◌+◌, ◌*◌, Bool, ◌&&◌, ◌||◌, Option, none, some, [], ◌++◌, ℤ, pos, ◌+ℤ◌, ◌-ℤ◌, leb_ℤ, eq_ℤ, leb,
  nat_eq, math_min, math_max, if◌then◌else◌, or_else, every, take, length,
}
use rest_ecommerce_api.Inventory.Entity.{
  Inventory, Reservation, InventoryMovement, active, MovementType, reason_text, normalize_sku,
  default_reservation_ttl_seconds, max_reservation_ttl_seconds, min_reservation_ttl_seconds,
}
use rest_ecommerce_api.Inventory.Events.{Request}
use rest_ecommerce_api.Inventory.Repository.{AdjustmentOutcome, truthy}
use rest_ecommerce_api.Inventory.View.{
  InventoryActor, actor_type_text, EnsureInventoryInput, AdjustInventoryInput, ReserveInput,
  CatalogVariantRef, InventoryCatalogPort,
}

unfoldable pub is_integer_in_range : ℤ → ℤ → ℤ → Bool
is_integer_in_range value min max = leb_ℤ min value && leb_ℤ value max

-- The regular expression `^[0-9a-f-]{8,}`, with the flag `i`.
unfoldable pub is_hex_or_dash : ℕ → Bool
is_hex_or_dash c =
    leb b'0' c && leb c b'9'
    || leb b'a' c && leb c b'f'
    || leb b'A' c && leb c b'F'
    || nat_eq c b'-'

unfoldable pub looks_like_id : Text → Bool
unfolding is_hex_or_dash every
looks_like_id s = leb 8 (length s) && every is_hex_or_dash (take 8 s)

-- The fields that a replayed reservation must share with the first request.
unfoldable pub same_fingerprint : Text → ReserveInput → Reservation → Bool
same_fingerprint sku input prior =
    prior.sku == sku
    && eq_ℤ prior.quantity input.quantity
    && prior.reference_type == input.reference_type
    && prior.reference_id == input.reference_id

-- `Math.min(Math.max(ttl ?? default, min), max)`
unfoldable pub reservation_ttl_seconds : Option ℕ → ℕ
reservation_ttl_seconds ttl =
    math_min (math_max (or_else ttl default_reservation_ttl_seconds) min_reservation_ttl_seconds)
      max_reservation_ttl_seconds

-- The locator of an adjustment, `inventoryId ?? sku`, unless it is falsy.
unfoldable pub adjust_locator : AdjustInventoryInput → Option Text
adjust_locator input =
    let locator : Option Text = elim input.inventory_id [ some id ↦ some id | none ↦ input.sku ] in
    if truthy locator then locator else none

unfoldable pub catalog_ref : InventoryCatalogPort → EnsureInventoryInput → Option CatalogVariantRef
catalog_ref catalog input =
    if truthy input.sku
    then catalog.resolve_sku (or_else input.sku [])
    else if truthy input.product_id && truthy input.variant_id
    then catalog.resolve_variant (or_else input.product_id []) (or_else input.variant_id [])
    else none

unfoldable pub new_reservation : Request → Inventory → Text → ReserveInput → Reservation
new_reservation c r sku input = record {
  id = c.uuid 0;
  inventory_id = r.id;
  sku = sku;
  product_id = r.product_id;
  variant_id = r.variant_id;
  quantity = input.quantity;
  status = active;
  reference_type = input.reference_type;
  reference_id = input.reference_id;
  idempotency_key = some input.idempotency_key;
  expires_at = c.now + reservation_ttl_seconds input.ttl_seconds * 1000;
  version = 0;
  created_at = c.now;
  updated_at = c.now;
}

unfoldable pub new_inventory : Request → CatalogVariantRef → ℤ → ℤ → Inventory
new_inventory c ref initial_on_hand threshold = record {
  id = c.uuid 0;
  sku = normalize_sku ref.sku;
  product_id = ref.product_id;
  variant_id = ref.variant_id;
  on_hand = initial_on_hand;
  reserved = pos 0;
  sold = pos 0;
  low_stock_threshold = threshold;
  version = 0;
  created_at = c.now;
  updated_at = c.now;
  last_movement_at = c.now;
}

-- The movements of the audit trail.
unfoldable pub init_movement :
    Request → InventoryActor → CatalogVariantRef → ℤ → Inventory → InventoryMovement
init_movement c actor ref initial_on_hand created = record {
  id = c.uuid 1;
  inventory_id = created.id;
  sku = created.sku;
  type = MovementType.init;
  quantity_delta = initial_on_hand;
  previous_on_hand = pos 0;
  previous_reserved = pos 0;
  new_on_hand = created.on_hand;
  new_reserved = pos 0;
  reason = text "BOOTSTRAP";
  reference_type = some (text "variant");
  reference_id = some ref.variant_id;
  actor_type = actor_type_text actor.type;
  actor_id = actor.id;
  idempotency_key = some (text "init:" ++ created.id);
  correlation_id = or_else c.correlation_id [];
  created_at = c.now;
}

unfoldable pub adjust_movement :
    Request → InventoryActor → AdjustInventoryInput → AdjustmentOutcome → InventoryMovement
adjust_movement c actor input outcome = record {
  id = c.uuid 0;
  inventory_id = outcome.record_after.id;
  sku = outcome.record_after.sku;
  type = MovementType.adjust;
  quantity_delta = input.delta;
  previous_on_hand = outcome.previous_on_hand;
  previous_reserved = outcome.previous_reserved;
  new_on_hand = outcome.record_after.on_hand;
  new_reserved = outcome.record_after.reserved;
  reason = reason_text input.reason;
  reference_type = input.reference_type;
  reference_id = input.reference_id;
  actor_type = actor_type_text actor.type;
  actor_id = actor.id;
  idempotency_key = some (or_else input.idempotency_key (text "adjust:" ++ c.uuid 0));
  correlation_id = or_else c.correlation_id [];
  created_at = c.now;
}

unfoldable pub reserve_movement :
    Request → InventoryActor → Reservation → Inventory → InventoryMovement
reserve_movement c actor reservation after = record {
  id = c.uuid 1;
  inventory_id = reservation.inventory_id;
  sku = reservation.sku;
  type = MovementType.reserve;
  quantity_delta = reservation.quantity;
  previous_on_hand = after.on_hand;
  previous_reserved = after.reserved -ℤ reservation.quantity;
  new_on_hand = after.on_hand;
  new_reserved = after.reserved;
  reason = text "RESERVE";
  reference_type = some reservation.reference_type;
  reference_id = some reservation.reference_id;
  actor_type = actor_type_text actor.type;
  actor_id = actor.id;
  idempotency_key = some (reservation.id ++ text ":reserve");
  correlation_id = or_else c.correlation_id [];
  created_at = c.now;
}

-- `options.asExpired` and `options.reason` of `release`.
unfoldable pub release_movement :
    Request → InventoryActor → Bool → Option Text → Reservation → Inventory → InventoryMovement
release_movement c actor as_expired reason existing after = record {
  id = c.uuid 0;
  inventory_id = existing.inventory_id;
  sku = existing.sku;
  type = if as_expired then MovementType.expire else MovementType.release;
  quantity_delta = pos 0 -ℤ existing.quantity;
  previous_on_hand = after.on_hand;
  previous_reserved = after.reserved +ℤ existing.quantity;
  new_on_hand = after.on_hand;
  new_reserved = after.reserved;
  reason = or_else reason (if as_expired then text "EXPIRED" else text "RELEASED");
  reference_type = some existing.reference_type;
  reference_id = some existing.reference_id;
  actor_type = actor_type_text actor.type;
  actor_id = actor.id;
  idempotency_key =
      some (existing.id ++ text ":" ++ (if as_expired then text "expire" else text "release"));
  correlation_id = or_else c.correlation_id [];
  created_at = c.now;
}

unfoldable pub confirm_movement :
    Request → InventoryActor → Reservation → Inventory → InventoryMovement
confirm_movement c actor existing after = record {
  id = c.uuid 0;
  inventory_id = existing.inventory_id;
  sku = existing.sku;
  type = MovementType.confirm;
  quantity_delta = pos 0 -ℤ existing.quantity;
  previous_on_hand = after.on_hand +ℤ existing.quantity;
  previous_reserved = after.reserved +ℤ existing.quantity;
  new_on_hand = after.on_hand;
  new_reserved = after.reserved;
  reason = text "CONFIRMED";
  reference_type = some existing.reference_type;
  reference_id = some existing.reference_id;
  actor_type = actor_type_text actor.type;
  actor_id = actor.id;
  idempotency_key = some (existing.id ++ text ":confirm");
  correlation_id = or_else c.correlation_id [];
  created_at = c.now;
}

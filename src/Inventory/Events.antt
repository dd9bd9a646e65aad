-- ===== src/Inventory/Events.antt =====
-- src/modules/inventory/domain/events/InventoryEvents.ts: the events that the module publishes, as
-- the outbox publisher of infrastructure/events stores them.
use rest_ecommerce_api.Prelude.Text.{Text, text}
use rest_ecommerce_api.Prelude.{ℕ, Option, ℤ, or_else}
use rest_ecommerce_api.Inventory.Entity.{StockStatus, ReservationStatus, AdjustmentReason}

pub data InventoryEventType : Type 0 where
  adjusted reserved released committed low_stock : InventoryEventType

-- The payload of each event type, with its fields in the source's order.
pub data Payload : Type 0 where
  adjusted_payload :
      (sku : Text) (delta : ℤ) (reason : AdjustmentReason)
      (previous_on_hand new_on_hand new_available : ℤ) (status : StockStatus)
      (reference_type reference_id : Option Text)
      → Payload
  low_stock_payload : (sku : Text) (available threshold : ℤ) → Payload
  reserved_payload :
      (reservation_id sku : Text) (quantity : ℤ) (reference_type reference_id : Text)
      (expires_at : ℕ) (available : ℤ)
      → Payload
  released_payload :
      (reservation_id sku : Text) (quantity : ℤ) (reason : Text) (status : ReservationStatus)
      (available : ℤ)
      → Payload
  committed_payload :
      (reservation_id sku : Text) (quantity : ℤ) (reference_type reference_id : Text)
      (available : ℤ)
      → Payload

pub record InventoryEventEnvelope : Type 0 where
  pub event_id : Text
  pub event_type : InventoryEventType
  pub event_version : ℕ
  pub occurred_at : ℕ
  pub producer : Text
  pub aggregate_type : Text
  pub aggregate_id : Text
  pub correlation_id : Text
  pub causation_id : Option Text
  pub schema_version : ℕ
  pub payload : Payload

-- What a request brings from outside: the time, the identifiers that it draws, in order, and its
-- correlation id.
pub record Request : Type 0 where
  pub now : ℕ
  pub uuid : ℕ → Text
  pub correlation_id : Option Text

-- `version` is never passed, so it is 1.
unfoldable pub build_inventory_event :
    Request
    → InventoryEventType
    → Text
    → Text
    → Payload
    → Option Text
    → Text
    → InventoryEventEnvelope
build_inventory_event c event_type aggregate_type aggregate_id payload causation_id event_id =
    record {
      event_id = event_id;
      event_type = event_type;
      event_version = 1;
      occurred_at = c.now;
      producer = text "inventory-svc";
      aggregate_type = aggregate_type;
      aggregate_id = aggregate_id;
      correlation_id = or_else c.correlation_id (text "");
      causation_id = causation_id;
      schema_version = 1;
      payload = payload;
    }

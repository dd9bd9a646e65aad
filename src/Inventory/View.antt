-- ===== src/Inventory/View.antt =====
-- src/modules/inventory/application/InventoryService.ts: the inputs of the service, its actors and
-- the views that it returns.
use rest_ecommerce_api.Prelude.Text.{Text, text}
use rest_ecommerce_api.Prelude.{ℕ, Bool, Option, ℤ, pos}
use rest_ecommerce_api.Inventory.Entity.{
  Inventory, Reservation, ReservationStatus, StockStatus, out_of_stock, AdjustmentReason,
  available_quantity, derive_stock_status,
}

pub data ActorType : Type 0 where
  staff admin system : ActorType

abbrev pub actor_type_text : ActorType → Text
actor_type_text staff = text "staff"
actor_type_text admin = text "admin"
actor_type_text system = text "system"

pub record InventoryActor : Type 0 where
  pub type : ActorType
  pub id : Text

pub record InventoryView : Type 0 where
  pub id : Text
  pub sku : Text
  pub product_id : Text
  pub variant_id : Text
  pub on_hand : ℤ
  pub reserved : ℤ
  pub sold : ℤ
  pub available : ℤ
  pub low_stock_threshold : ℤ
  pub status : StockStatus
  pub version : ℕ
  pub created_at : ℕ
  pub updated_at : ℕ
  pub last_movement_at : ℕ

pub record AvailabilityView : Type 0 where
  pub sku : Text
  pub available : Bool
  pub status : StockStatus

pub record ReservationView : Type 0 where
  pub id : Text
  pub inventory_id : Text
  pub sku : Text
  pub quantity : ℤ
  pub status : ReservationStatus
  pub reference_type : Text
  pub reference_id : Text
  pub expires_at : ℕ
  pub version : ℕ
  pub created_at : ℕ
  pub updated_at : ℕ

pub record EnsureInventoryInput : Type 0 where
  pub sku : Option Text
  pub product_id : Option Text
  pub variant_id : Option Text
  pub initial_on_hand : Option ℤ
  pub low_stock_threshold : Option ℤ

pub record AdjustInventoryInput : Type 0 where
  pub sku : Option Text
  pub inventory_id : Option Text
  pub delta : ℤ
  pub reason : AdjustmentReason
  pub reference_type : Option Text
  pub reference_id : Option Text
  pub idempotency_key : Option Text

pub record ReserveInput : Type 0 where
  pub sku : Text
  pub quantity : ℤ
  pub reference_type : Text
  pub reference_id : Text
  pub idempotency_key : Text
  pub ttl_seconds : Option ℕ

pub record ReservationResult : Type 0 where
  pub reservation : ReservationView
  pub inventory : InventoryView
  pub replayed : Bool

pub record CatalogVariantRef : Type 0 where
  pub product_id : Text
  pub variant_id : Text
  pub sku : Text
  pub active : Bool

-- The port to the catalog (domain/repositories), an interface of the service.
pub record InventoryCatalogPort : Type 0 where
  pub resolve_sku : Text → Option CatalogVariantRef
  pub resolve_variant : Text → Text → Option CatalogVariantRef

unfoldable pub to_view : Inventory → InventoryView
to_view r = record {
  id = r.id;
  sku = r.sku;
  product_id = r.product_id;
  variant_id = r.variant_id;
  on_hand = r.on_hand;
  reserved = r.reserved;
  sold = r.sold;
  available = available_quantity r;
  low_stock_threshold = r.low_stock_threshold;
  status = derive_stock_status r;
  version = r.version;
  created_at = r.created_at;
  updated_at = r.updated_at;
  last_movement_at = r.last_movement_at;
}

unfoldable pub to_reservation_view : Reservation → ReservationView
to_reservation_view r = record {
  id = r.id;
  inventory_id = r.inventory_id;
  sku = r.sku;
  quantity = r.quantity;
  status = r.status;
  reference_type = r.reference_type;
  reference_id = r.reference_id;
  expires_at = r.expires_at;
  version = r.version;
  created_at = r.created_at;
  updated_at = r.updated_at;
}

unfoldable pub empty_view : ℕ → Reservation → InventoryView
empty_view now r = record {
  id = r.inventory_id;
  sku = r.sku;
  product_id = r.product_id;
  variant_id = r.variant_id;
  on_hand = pos 0;
  reserved = pos 0;
  sold = pos 0;
  available = pos 0;
  low_stock_threshold = pos 0;
  status = out_of_stock;
  version = 0;
  created_at = now;
  updated_at = now;
  last_movement_at = now;
}

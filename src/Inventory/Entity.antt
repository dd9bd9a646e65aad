-- ===== src/Inventory/Entity.antt =====
-- src/modules/inventory/domain/entities/Inventory.ts: the stock records, the reservations, the
-- movements of the audit trail, and the domain rules over them.
use rest_ecommerce_api.Prelude.Text.{Text, text, trim, to_upper_case}
use rest_ecommerce_api.Prelude.{
  ℕ, Bool, true, false, ◌&&◌, ◌||◌, Option, List, [], ◌∷◌, ℤ, pos, ◌-ℤ◌, leb_ℤ, nat_eq, any,
  if◌then◌else◌,
}

pub data StockStatus : Type 0 where
  in_stock low_stock out_of_stock : StockStatus

pub data ReservationStatus : Type 0 where
  active released expired confirmed : ReservationStatus

pub data AdjustmentReason : Type 0 where
  receipt damage loss return : AdjustmentReason
  transfer_in transfer_out cycle_count manual_correction : AdjustmentReason

pub data MovementType : Type 0 where
  init adjust reserve release expire confirm : MovementType

-- Dates are milliseconds.
pub record Inventory : Type 0 where
  pub id : Text
  pub sku : Text
  pub product_id : Text
  pub variant_id : Text
  pub on_hand : ℤ
  pub reserved : ℤ
  pub sold : ℤ
  pub low_stock_threshold : ℤ
  pub version : ℕ
  pub created_at : ℕ
  pub updated_at : ℕ
  pub last_movement_at : ℕ

pub record Reservation : Type 0 where
  pub id : Text
  pub inventory_id : Text
  pub sku : Text
  pub product_id : Text
  pub variant_id : Text
  pub quantity : ℤ
  pub status : ReservationStatus
  pub reference_type : Text
  pub reference_id : Text
  pub idempotency_key : Option Text
  pub expires_at : ℕ
  pub version : ℕ
  pub created_at : ℕ
  pub updated_at : ℕ

pub record InventoryMovement : Type 0 where
  pub id : Text
  pub inventory_id : Text
  pub sku : Text
  pub type : MovementType
  pub quantity_delta : ℤ
  pub previous_on_hand : ℤ
  pub previous_reserved : ℤ
  pub new_on_hand : ℤ
  pub new_reserved : ℤ
  pub reason : Text
  pub reference_type : Option Text
  pub reference_id : Option Text
  pub actor_type : Text
  pub actor_id : Text
  pub idempotency_key : Option Text
  pub correlation_id : Text
  pub created_at : ℕ

-- The enumerations are told apart by their positions.
abbrev status_code : ReservationStatus → ℕ
status_code active = 0
status_code released = 1
status_code expired = 2
status_code confirmed = 3

abbrev pub status_eq : ReservationStatus → ReservationStatus → Bool
status_eq a b = nat_eq (status_code a) (status_code b)

abbrev pub is_in_stock : StockStatus → Bool
is_in_stock in_stock = true
is_in_stock _ = false

abbrev pub is_low_stock : StockStatus → Bool
is_low_stock low_stock = true
is_low_stock _ = false

abbrev pub is_out_of_stock : StockStatus → Bool
is_out_of_stock out_of_stock = true
is_out_of_stock _ = false

abbrev reason_code : AdjustmentReason → ℕ
reason_code receipt = 0
reason_code damage = 1
reason_code loss = 2
reason_code return = 3
reason_code transfer_in = 4
reason_code transfer_out = 5
reason_code cycle_count = 6
reason_code manual_correction = 7

abbrev reason_eq : AdjustmentReason → AdjustmentReason → Bool
reason_eq a b = nat_eq (reason_code a) (reason_code b)

abbrev pub reason_text : AdjustmentReason → Text
reason_text receipt = text "RECEIPT"
reason_text damage = text "DAMAGE"
reason_text loss = text "LOSS"
reason_text return = text "RETURN"
reason_text transfer_in = text "TRANSFER_IN"
reason_text transfer_out = text "TRANSFER_OUT"
reason_text cycle_count = text "CYCLE_COUNT"
reason_text manual_correction = text "MANUAL_CORRECTION"

abbrev pub adjustment_reasons : List AdjustmentReason
adjustment_reasons =
    receipt ∷ damage ∷ loss ∷ return ∷ transfer_in ∷ transfer_out ∷ cycle_count ∷ manual_correction
    ∷ []

-- `ADJUSTMENT_REASONS.includes(reason)`
unfoldable pub is_adjustment_reason : AdjustmentReason → Bool
unfolding any
is_adjustment_reason r = any (reason_eq r) adjustment_reasons

abbrev pub default_low_stock_threshold : ℤ
default_low_stock_threshold = pos 5

abbrev pub default_reservation_ttl_seconds : ℕ
default_reservation_ttl_seconds = 900

abbrev pub max_reservation_ttl_seconds : ℕ
max_reservation_ttl_seconds = 3600

abbrev pub min_reservation_ttl_seconds : ℕ
min_reservation_ttl_seconds = 60

abbrev pub max_reservation_quantity : ℤ
max_reservation_quantity = pos 1000

abbrev pub max_adjustment_delta : ℤ
max_adjustment_delta = pos 1_000_000

unfoldable pub available_quantity : Inventory → ℤ
available_quantity r = r.on_hand -ℤ r.reserved

unfoldable pub derive_stock_status : Inventory → StockStatus
derive_stock_status r =
    if leb_ℤ (available_quantity r) (pos 0)
    then out_of_stock
    else if leb_ℤ (available_quantity r) r.low_stock_threshold
    then low_stock
    else in_stock

-- The values are integers by their type.
unfoldable pub satisfies_quantity_invariants : Inventory → Bool
satisfies_quantity_invariants r =
    leb_ℤ (pos 0) r.on_hand
    && leb_ℤ (pos 0) r.reserved
    && leb_ℤ (pos 0) r.sold
    && leb_ℤ r.reserved r.on_hand

abbrev pub terminal_reservation_states : List ReservationStatus
terminal_reservation_states = released ∷ expired ∷ confirmed ∷ []

unfoldable pub is_terminal_reservation_status : ReservationStatus → Bool
unfolding any
is_terminal_reservation_status st = any (status_eq st) terminal_reservation_states

unfoldable pub can_transition_reservation : ReservationStatus → ReservationStatus → Bool
can_transition_reservation from to =
    if status_eq from active
      && (status_eq to released || status_eq to expired || status_eq to confirmed)
    then true
    else false

unfoldable pub normalize_sku : Text → Text
normalize_sku sku = to_upper_case (trim sku)

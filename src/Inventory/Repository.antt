-- ===== src/Inventory/Repository.antt =====
-- src/modules/inventory/infrastructure/database: the three repositories and the outbox publisher,
-- over the collections of the database. A document has the fields of its domain type.
use rest_ecommerce_api.Prelude.Text.{Text, ◌==◌}
use rest_ecommerce_api.Prelude.{
  ℕ, ◌+◌, Bool, true, false, ◌&&◌, ◌||◌, Option, none, some, List, [], ◌∷◌, ℤ, pos, ◌+ℤ◌, ◌-ℤ◌,
  leb_ℤ, leb, any, math_min, math_max, if◌then◌else◌,
}
use rest_ecommerce_api.Mongo.{Collection, Inserted, inserted, duplicate, failed}
use rest_ecommerce_api.Errors.{Action, Result, ok, err, duplicate_key, write_failed}
use rest_ecommerce_api.Inventory.Entity.{
  Inventory, Reservation, InventoryMovement, ReservationStatus, active, status_eq, normalize_sku,
}
use rest_ecommerce_api.Inventory.Events.{InventoryEventEnvelope}

pub record Store : Type 0 where
  pub inventories : List Inventory
  pub reservations : List Reservation
  pub movements : List InventoryMovement
  pub outbox : List InventoryEventEnvelope

pub record Database : Type 0 where
  pub inventories : Collection Inventory
  pub reservations : Collection Reservation
  pub movements : Collection InventoryMovement
  pub outbox : Collection InventoryEventEnvelope

-- Equal keys; a document without one has `null`, which the sparse indexes contain too.
abbrev pub key_eq : Option Text → Option Text → Bool
key_eq none none = true
key_eq none (some b) = false
key_eq (some a) none = false
key_eq (some a) (some b) = a == b

-- The unique indexes of the schemas, and that on `_id`.
abbrev pub inventory_clash : Inventory → Inventory → Bool
inventory_clash a b = a.sku == b.sku || a.id == b.id

abbrev pub reservation_clash : Reservation → Reservation → Bool
reservation_clash a b = key_eq a.idempotency_key b.idempotency_key || a.id == b.id

abbrev pub movement_clash : InventoryMovement → InventoryMovement → Bool
movement_clash a b = key_eq a.idempotency_key b.idempotency_key || a.id == b.id

abbrev pub outbox_clash : InventoryEventEnvelope → InventoryEventEnvelope → Bool
outbox_clash a b = a.event_id == b.event_id

-- The filters and updates of the conditional updates.
abbrev pub has_sku : Text → Inventory → Bool
has_sku sku r = r.sku == normalize_sku sku

abbrev pub touch : ℕ → Inventory → Inventory
touch now r = record r { version = r.version + 1; updated_at = now; last_movement_at = now }

abbrev pub can_adjust : Text → ℤ → Inventory → Bool
can_adjust locator delta r =
    (r.sku == normalize_sku locator || r.id == locator)
    && leb_ℤ r.reserved (r.on_hand +ℤ delta)
    && leb_ℤ (pos 0) (r.on_hand +ℤ delta)

abbrev pub adjusted_record : ℕ → ℤ → Inventory → Inventory
adjusted_record now delta r = record (touch now r) { on_hand = r.on_hand +ℤ delta }

abbrev pub can_reserve : Text → ℤ → Inventory → Bool
can_reserve sku q r = has_sku sku r && leb_ℤ q (r.on_hand -ℤ r.reserved)

abbrev pub reserved_record : ℕ → ℤ → Inventory → Inventory
reserved_record now q r = record (touch now r) { reserved = r.reserved +ℤ q }

abbrev pub can_release : Text → ℤ → Inventory → Bool
can_release sku q r = has_sku sku r && leb_ℤ q r.reserved

abbrev pub released_record : ℕ → ℤ → Inventory → Inventory
released_record now q r = record (touch now r) { reserved = r.reserved -ℤ q }

abbrev pub committed_record : ℕ → ℤ → Inventory → Inventory
committed_record now q r = record (touch now r) {
  reserved = r.reserved -ℤ q;
  on_hand = r.on_hand -ℤ q;
  sold = r.sold +ℤ q;
}

abbrev pub has_status_in : Text → List ReservationStatus → Reservation → Bool
has_status_in id from r = r.id == id && any (status_eq r.status) from

abbrev pub moved_reservation : ℕ → ReservationStatus → Reservation → Reservation
moved_reservation now to r = record r { status = to; updated_at = now; version = r.version + 1 }

pub record AdjustmentOutcome : Type 0 where
  pub record_after : Inventory
  pub previous_on_hand : ℤ
  pub previous_reserved : ℤ

abbrev pub adjustment_outcome : ℤ → Option Inventory → Option AdjustmentOutcome
adjustment_outcome delta none = none
adjustment_outcome delta (some r) = some (record {
  record_after = r;
  previous_on_hand = r.on_hand -ℤ delta;
  previous_reserved = r.reserved;
})

-- An insertion puts the new contents in place, or throws.
abbrev pub store_inserted :
    {D : Type 0} → (List D → Store) → Store → Inserted D → Result (Unit {0}) × Store
store_inserted put s (inserted ds) = (ok tt, put ds)
store_inserted put s duplicate = (err duplicate_key, s)
store_inserted put s failed = (err write_failed, s)

abbrev pub truthy : Option Text → Bool
truthy none = false
truthy (some []) = false
truthy (some (c ∷ k)) = true

module _ (db : Database) where
  -- MongoInventoryRepository
  unfoldable pub find_inventory_by_id : Text → Action Store (Option Inventory)
  find_inventory_by_id id s = (ok (db.inventories.find_one (λ r. r.id == id) s.inventories), s)

  unfoldable pub find_by_sku : Text → Action Store (Option Inventory)
  find_by_sku sku s = (ok (db.inventories.find_one (has_sku sku) s.inventories), s)

  unfoldable pub create_inventory : Inventory → Action Store (Unit {0})
  create_inventory r s =
      store_inserted (λ ds. record s { inventories = ds }) s
        (db.inventories.insert_one inventory_clash r s.inventories)

  unfoldable pub apply_adjustment : ℕ → Text → ℤ → Action Store (Option AdjustmentOutcome)
  apply_adjustment now locator delta s =
      let (found, ds) =
        db.inventories.find_one_and_update (can_adjust locator delta) (adjusted_record now delta)
          s.inventories in
      (ok (adjustment_outcome delta found), record s { inventories = ds })

  unfoldable pub reserve_stock : ℕ → Text → ℤ → Action Store (Option Inventory)
  reserve_stock now sku q s =
      let (found, ds) =
        db.inventories.find_one_and_update (can_reserve sku q) (reserved_record now q)
          s.inventories in
      (ok found, record s { inventories = ds })

  unfoldable pub release_stock : ℕ → Text → ℤ → Action Store (Option Inventory)
  release_stock now sku q s =
      let (found, ds) =
        db.inventories.find_one_and_update (can_release sku q) (released_record now q)
          s.inventories in
      (ok found, record s { inventories = ds })

  unfoldable pub commit_stock : ℕ → Text → ℤ → Action Store (Option Inventory)
  commit_stock now sku q s =
      let (found, ds) =
        db.inventories.find_one_and_update (can_release sku q) (committed_record now q)
          s.inventories in
      (ok found, record s { inventories = ds })

  -- MongoReservationRepository
  unfoldable pub find_reservation_by_id : Text → Action Store (Option Reservation)
  find_reservation_by_id id s = (ok (db.reservations.find_one (λ r. r.id == id) s.reservations), s)

  unfoldable pub find_reservation_by_key : Text → Action Store (Option Reservation)
  find_reservation_by_key key s =
      (ok (db.reservations.find_one (λ r. key_eq r.idempotency_key (some key)) s.reservations), s)

  unfoldable pub create_reservation : Reservation → Action Store (Unit {0})
  create_reservation r s =
      store_inserted (λ ds. record s { reservations = ds }) s
        (db.reservations.insert_one reservation_clash r s.reservations)

  unfoldable pub transition :
      ℕ → Text → List ReservationStatus → ReservationStatus → Action Store (Option Reservation)
  transition now id from to s =
      let (found, ds) =
        db.reservations.find_one_and_update (has_status_in id from) (moved_reservation now to)
          s.reservations in
      (ok found, record s { reservations = ds })

  unfoldable pub find_active_expired : ℕ → ℕ → Action Store (List Reservation)
  find_active_expired now limit s = (
    ok (
        db.reservations.find_sorted (λ r. status_eq r.status active && leb r.expires_at now)
          (λ r. r.expires_at) (math_min (math_max limit 1) 500) s.reservations),
    s,
  )

  -- MongoMovementRepository: a duplicate key is an idempotent replay, and is ignored.
  unfoldable pub append_movement : InventoryMovement → Action Store (Unit {0})
  append_movement m s = elim (db.movements.insert_one movement_clash m s.movements) [
    | inserted ds ↦ (ok tt, record s { movements = ds })
    | duplicate ↦ if truthy m.idempotency_key then (ok tt, s) else (err duplicate_key, s)
    | failed ↦ (err write_failed, s)
  ]

  unfoldable pub find_movement_by_key : Text → Action Store (Option InventoryMovement)
  find_movement_by_key key s =
      (ok (db.movements.find_one (λ m. key_eq m.idempotency_key (some key)) s.movements), s)

  -- OutboxInventoryEventPublisher: a failed append is only logged.
  unfoldable pub publish : InventoryEventEnvelope → Action Store (Unit {0})
  publish e s = elim (db.outbox.insert_one outbox_clash e s.outbox) [
    | inserted ds ↦ (ok tt, record s { outbox = ds })
    | _ ↦ (ok tt, s)
  ]

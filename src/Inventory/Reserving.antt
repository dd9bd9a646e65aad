-- ===== src/Inventory/Reserving.antt =====
-- src/modules/inventory/application/InventoryService.ts: reserving, releasing, confirming and expiring.
-- Logging and metrics are left out; a request reads the clock once.
use rest_ecommerce_api.Prelude.Text.{Text, text, is_empty, trim}
use rest_ecommerce_api.Prelude.{
  ℕ, ◌+◌, Bool, true, false, ◌||◌, not, Option, none, some, List, [], ◌∷◌, pos, math_min, math_max,
  if◌then◌else◌, or_else, length,
}
use rest_ecommerce_api.Errors.{
  Error, Action, ok, err, inventory_not_found, reservation_not_found, insufficient_stock,
  invalid_quantity, idempotency_conflict, database_error, pure, raise, or_raise, attempt, require,
  is_duplicate, ◌>>=◌, ◌>>◌,
}
use rest_ecommerce_api.Inventory.Entity.{
  Inventory, Reservation, active, released, expired, confirmed, available_quantity, normalize_sku,
  status_eq, can_transition_reservation, max_reservation_quantity,
}
use rest_ecommerce_api.Inventory.Events.{
  InventoryEventType, reserved_payload, released_payload, committed_payload, Request,
}
use rest_ecommerce_api.Inventory.Repository.{
  Store, Database, find_by_sku, reserve_stock, release_stock, commit_stock, find_reservation_by_id,
  find_reservation_by_key, create_reservation, transition, find_active_expired, append_movement,
}
use rest_ecommerce_api.Inventory.View.{
  InventoryActor, InventoryView, ReservationView, ReserveInput, ReservationResult, to_view,
  to_reservation_view, empty_view,
}
use rest_ecommerce_api.Inventory.Building.{
  is_integer_in_range, same_fingerprint, new_reservation, reserve_movement, release_movement,
  confirm_movement,
}
use rest_ecommerce_api.Inventory.Service.{emit}

-- `record ? toView(record) : emptyView(reservation)`
abbrev pub view_or_empty : ℕ → Reservation → Option Inventory → InventoryView
view_or_empty now r none = empty_view now r
view_or_empty now r (some i) = to_view i

abbrev pub replayed_result : ℕ → Reservation → Option Inventory → ReservationResult
replayed_result now r found = record {
  reservation = to_reservation_view r;
  inventory = view_or_empty now r found;
  replayed = true;
}

module _ (db : Database) where
  -- A request whose key is known already: the same request gets the first reservation back.
  unfoldable pub replay_reservation :
      Text → ReserveInput → Inventory → Reservation → Action Store ReservationResult
  replay_reservation sku input fallback prior = do
    require (same_fingerprint sku input prior) idempotency_conflict
    current ← find_by_sku db sku
    pure (record {
      reservation = to_reservation_view prior;
      inventory = to_view (or_else current fallback);
      replayed = true;
    })

  -- What follows once the reservation is stored.
  unfoldable pub record_reservation :
      Request → InventoryActor → Reservation → Inventory → Action Store ReservationResult
  record_reservation c actor reservation after = do
    append_movement db (reserve_movement c actor reservation after)
    emit db c InventoryEventType.reserved (text "reservation") reservation.id
        (reserved_payload reservation.id reservation.sku reservation.quantity
          reservation.reference_type reservation.reference_id reservation.expires_at
          (available_quantity after))
        (some reservation.id) (c.uuid 2)
    pure (record {
      reservation = to_reservation_view reservation;
      inventory = to_view after;
      replayed = false;
    })

  -- A duplicate key: another request won the race, and its reservation is the answer.
  unfoldable pub replay_winner :
      Text → ReserveInput → Inventory → Error → Action Store ReservationResult
  replay_winner sku input after e = do
    require (is_duplicate e) e
    found ← find_reservation_by_key db input.idempotency_key
    winner ← or_raise found e
    replay_reservation sku input after winner

  -- The handler of a failed insertion: the stock is given back first.
  unfoldable pub recover_reservation :
      Request → Text → ReserveInput → Inventory → Error → Action Store ReservationResult
  recover_reservation c sku input after e = do
    release_stock db c.now sku input.quantity
    replay_winner sku input after e

  -- The reservation for stock that was taken.
  unfoldable pub hold_taken :
      Request
      → Text
      → ReserveInput
      → InventoryActor
      → Inventory
      → Inventory
      → Action Store ReservationResult
  hold_taken c sku input actor r after = do
    let reservation = new_reservation c r sku input
    outcome ← attempt (create_reservation db reservation)
    elim outcome [
      | ok _ ↦ record_reservation c actor reservation after
      | err e ↦ recover_reservation c sku input after e
    ]

  -- A request with a new key.
  unfoldable pub reserve_new :
      Request → Text → ReserveInput → InventoryActor → Inventory → Action Store ReservationResult
  reserve_new c sku input actor r = do
    taken ← reserve_stock db c.now sku input.quantity
    after ← or_raise taken insufficient_stock
    hold_taken c sku input actor r after

  -- The part of `reserve` for a record that was found.
  unfoldable pub reserve_found :
      Request → ReserveInput → InventoryActor → Inventory → Action Store ReservationResult
  reserve_found c input actor r = do
    let sku = normalize_sku input.sku
    known ← find_reservation_by_key db input.idempotency_key
    elim known [
      | some prior ↦ replay_reservation sku input r prior
      | none ↦ reserve_new c sku input actor r
    ]

  -- The part of `reserve` behind the checks of its input.
  unfoldable pub reserve_checked :
      Request → ReserveInput → InventoryActor → Action Store ReservationResult
  reserve_checked c input actor = do
    found ← find_by_sku db (normalize_sku input.sku)
    r ← or_raise found inventory_not_found
    reserve_found c input actor r

  unfoldable pub reserve : Request → ReserveInput → InventoryActor → Action Store ReservationResult
  reserve c input actor = do
    require (is_integer_in_range input.quantity (pos 1) max_reservation_quantity) invalid_quantity
    require (not (is_empty (trim input.reference_type) || is_empty (trim input.reference_id)))
        invalid_quantity
    reserve_checked c input actor

  -- The movement and the event of a release.
  unfoldable pub record_release :
      Request
      → InventoryActor
      → Bool
      → Option Text
      → Reservation
      → Reservation
      → Inventory
      → Action Store ReservationResult
  record_release c actor as_expired reason existing transitioned after = do
    append_movement db (release_movement c actor as_expired reason existing after)
    emit db c InventoryEventType.released (text "reservation") existing.id
        (released_payload existing.id existing.sku existing.quantity
          (or_else reason (if as_expired then text "expired" else text "released"))
          (if as_expired then expired else released) (available_quantity after))
        (some existing.id) (c.uuid 1)
    pure (record {
      reservation = to_reservation_view transitioned;
      inventory = to_view after;
      replayed = false;
    })

  -- What `release` does once it has moved the reservation out of `active`.
  unfoldable pub return_stock :
      Request
      → InventoryActor
      → Bool
      → Option Text
      → Reservation
      → Reservation
      → Action Store ReservationResult
  return_stock c actor as_expired reason existing transitioned = do
    freed ← release_stock db c.now existing.sku existing.quantity
    after ← or_raise freed database_error
    record_release c actor as_expired reason existing transitioned after

  unfoldable pub replay_release : Request → Reservation → Action Store ReservationResult
  replay_release c existing = do
    found ← find_by_sku db existing.sku
    pure (replayed_result c.now existing found)

  -- The part of `release` for a reservation that was read as active.
  unfoldable pub release_active :
      Request
      → Text
      → InventoryActor
      → Bool
      → Option Text
      → Reservation
      → Action Store ReservationResult
  release_active c id actor as_expired reason existing = do
    let target = if as_expired then expired else released
    require (can_transition_reservation active target) reservation_not_found
    moved ← transition db c.now id (active ∷ []) target
    elim moved [
      | some transitioned ↦ return_stock c actor as_expired reason existing transitioned
      | none ↦ do
        again ← find_reservation_by_id db id
        current ← or_raise again reservation_not_found
        replay_release c current
    ]

  unfoldable pub release :
      Request → Text → InventoryActor → Bool → Option Text → Action Store ReservationResult
  release c id actor as_expired reason = do
    found ← find_reservation_by_id db id
    existing ← or_raise found reservation_not_found
    if not (status_eq existing.status active)
        then replay_release c existing
        else release_active c id actor as_expired reason existing

  -- The movement and the event of a confirmation.
  unfoldable pub record_commit :
      Request
      → InventoryActor
      → Reservation
      → Reservation
      → Inventory
      → Action Store ReservationResult
  record_commit c actor existing transitioned after = do
    append_movement db (confirm_movement c actor existing after)
    emit db c InventoryEventType.committed (text "reservation") existing.id
        (committed_payload existing.id existing.sku existing.quantity existing.reference_type
          existing.reference_id (available_quantity after))
        (some existing.id) (c.uuid 1)
    pure (record {
      reservation = to_reservation_view transitioned;
      inventory = to_view after;
      replayed = false;
    })

  unfoldable pub commit_reservation :
      Request → InventoryActor → Reservation → Reservation → Action Store ReservationResult
  commit_reservation c actor existing transitioned = do
    taken ← commit_stock db c.now existing.sku existing.quantity
    after ← or_raise taken database_error
    record_commit c actor existing transitioned after

  -- A reservation that is no longer active: a replay if it is confirmed, else an error.
  unfoldable pub replay_confirm : Request → Reservation → Action Store ReservationResult
  replay_confirm c existing =
      if status_eq existing.status confirmed
      then replay_release c existing
      else raise reservation_not_found

  -- The part of `confirm` for a reservation that was read as active.
  unfoldable pub confirm_active :
      Request → Text → InventoryActor → Reservation → Action Store ReservationResult
  confirm_active c id actor existing = do
    moved ← transition db c.now id (active ∷ []) confirmed
    elim moved [
      | some transitioned ↦ commit_reservation c actor existing transitioned
      | none ↦ do
        again ← find_reservation_by_id db id
        current ← or_raise again reservation_not_found
        replay_confirm c current
    ]

  unfoldable pub confirm : Request → Text → InventoryActor → Action Store ReservationResult
  confirm c id actor = do
    found ← find_reservation_by_id db id
    existing ← or_raise found reservation_not_found
    if not (status_eq existing.status active)
        then replay_confirm c existing
        else confirm_active c id actor existing

  unfoldable pub get_reservation : Text → Action Store ReservationView
  get_reservation id = do
    found ← find_reservation_by_id db id
    r ← or_raise found reservation_not_found
    pure (to_reservation_view r)

  -- The loop of the sweep: a failure is counted, and the next reservation is tried.
  unfoldable pub expire_each :
      (ℕ → Request) → InventoryActor → List Reservation → ℕ → ℕ → Action Store (ℕ × ℕ)
  expire_each c actor [] done failed = pure (done, failed)
  expire_each c actor (r ∷ due) done failed = do
    outcome ← attempt (release (c (length due)) r.id actor true none)
    let count : ℕ × ℕ = elim outcome [ ok _ ↦ (done + 1, failed) | err _ ↦ (done, failed + 1) ]
    expire_each c actor due count.0 count.1

  -- The numbers scanned, expired and failed. Each release draws identifiers of its own.
  unfoldable pub expire_reservations :
      (ℕ → Request) → ℕ → Option ℕ → InventoryActor → Action Store (ℕ × ℕ × ℕ)
  unfolding expire_each
  expire_reservations c now limit actor = do
    due ← find_active_expired db now (math_min (math_max (or_else limit 100) 1) 500)
    counts ← expire_each c actor due 0 0
    pure (length due, counts.0, counts.1)

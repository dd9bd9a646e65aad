-- ===== src/Inventory/Retry.antt =====
-- The idempotency key of `reserve` in src/modules/inventory/application/InventoryService.ts.
use rest_ecommerce_api.Prelude.Text.{Text, eq_refl}
use rest_ecommerce_api.Prelude.{
  ◌≡◌, refl, inl, inr, Bool, true, none, some, List, [], ◌∷◌, ◌++◌, arith, first, is_some,
  Option-cases,
}
use rest_ecommerce_api.Prelude.Replacing.{first-append}
use rest_ecommerce_api.Errors.{
  Error, Result, is_ok, ok, err, pure, invalid_quantity, inventory_not_found, insufficient_stock,
  idempotency_conflict,
}
use rest_ecommerce_api.Errors.Rules.{
  Keeps, keeps_rules, bind_ok, bind_none, attempt_lem, require_cases, or_raise_cases,
}
use rest_ecommerce_api.Inventory.Entity.{Inventory, InventoryMovement, Reservation, normalize_sku}
use rest_ecommerce_api.Inventory.Events.{InventoryEventEnvelope, Request}
use rest_ecommerce_api.Inventory.View.{InventoryActor, ReserveInput, ReservationResult}
use rest_ecommerce_api.Inventory.Repository.{Store, Database, key_eq, append_movement, publish}
use rest_ecommerce_api.Inventory.Building.{new_reservation}
use rest_ecommerce_api.Inventory.Laws.{
  find_by_sku_lem, reserve_stock_lem, release_stock_lem, create_reservation_cases,
  find_reservation_by_key_lem,
}
use rest_ecommerce_api.Inventory.Service.{emit}
use rest_ecommerce_api.Inventory.Reserving.{
  record_reservation, recover_reservation, replay_reservation, replay_winner, reserve_new, reserve,
  hold_taken, reserve_found, reserve_checked,
}

-- A reservation under the key.
unfoldable is_known : Text → List Reservation → Bool
unfolding first
is_known key rs = is_some (first (λ r. key_eq r.idempotency_key (some key)) rs)

abbrev IsKnown : Text → Store → Type 0
IsKnown key s = is_known key s.reservations ≡ true

-- What holds behind a success.
abbrev OkThen : {A : Type 0} → (Store → Type 0) → Result A × Store → Type 0
OkThen P (ok a, s) = P s
OkThen P (err e, s) = Unit

ok_then : {A : Type 0} (P : Store → Type 0) (x : Result A × Store) → P x.1 → OkThen P x
ok_then P (ok a, s) h = h
ok_then P (err e, s) h = tt

module _ (db : Database) (key : Text) where
  append_movement-IsKnown : (m : InventoryMovement) → Keeps (IsKnown key) (append_movement db m)
  unfolding append_movement
  append_movement-IsKnown m = record { at = λ s h. ground arith }

  publish-IsKnown : (e : InventoryEventEnvelope) → Keeps (IsKnown key) (publish db e)
  unfolding publish
  publish-IsKnown e = record { at = λ s h. ground arith }

  record_reservation-IsKnown :
      (c : Request) (actor : InventoryActor) (r : Reservation) (after : Inventory)
      → Keeps (IsKnown key) (record_reservation db c actor r after)
  unfolding record_reservation emit
  record_reservation-IsKnown c actor r after =
      search (keeps_rules, append_movement-IsKnown, publish-IsKnown)

module _ (db : Database) (R : Result ReservationResult × Store → Type 0) (s : Store) where
  -- A replay only reads.
  replay_reservation-reads :
      (sku : Text) (input : ReserveInput) (fallback : Inventory) (prior : Reservation)
      → ((x : Result ReservationResult) → R (x, s))
      → R (replay_reservation db sku input fallback prior s)
  unfolding replay_reservation pure
  replay_reservation-reads sku input fallback prior k =
      require_cases R idempotency_conflict s _ _ (k _)
        (rw (bind_ok _ _ s (find_by_sku_lem db s sku)) (k _))

module _ (db : Database) (c : Request) (input : ReserveInput) (actor : InventoryActor) where
  abbrev key : Text
  key = input.idempotency_key

  -- A failed insertion never ends in a success where the key is not known.
  recover_reservation-OkThen :
      (sku : Text) (after : Inventory) (e : Error) (s : Store)
      → first (λ r. key_eq r.idempotency_key (some key)) s.reservations ≡ none
      → OkThen (IsKnown key) (recover_reservation db c sku input after e s)
  unfolding recover_reservation replay_winner
  recover_reservation-OkThen sku after e s absent =
      rw (bind_ok _ _ s (release_stock_lem db s c.now sku input.quantity)) (
        require_cases (OkThen (IsKnown key)) e _ _ _ tt
          (rw (bind_ok _ _ _ (find_reservation_by_key_lem db _ key)) (rw (absent, bind_none) tt)))

  stored-IsKnown :
      (r : Reservation) (rs : List Reservation)
      → r.idempotency_key ≡ some key
      → is_known key (rs ++ r ∷ []) ≡ true
  unfolding is_known
  stored-IsKnown r rs e =
      first-append (λ x. key_eq x.idempotency_key (some key)) rs r (rw e (eq_refl key))

  hold_taken-OkThen :
      (sku : Text) (r after : Inventory) (s : Store)
      → first (λ x. key_eq x.idempotency_key (some key)) s.reservations ≡ none
      → OkThen (IsKnown key) (hold_taken db c sku input actor r after s)
  unfolding hold_taken new_reservation
  hold_taken-OkThen sku r after s absent =
      elim (create_reservation_cases db s (new_reservation c r sku input)) [
        | inl (e, stored) ↦
            rw (bind_ok _ _ s (attempt_lem _ s stored))
              (recover_reservation-OkThen sku after e s absent)
        | inr (fresh, stored) ↦ rw (bind_ok _ _ s (attempt_lem _ s stored)) (
            ok_then (IsKnown key) _ (
              (record_reservation-IsKnown db key c actor _ after).at _
                (stored-IsKnown (new_reservation c r sku input) s.reservations refl)))
      ]

  found-OkThen :
      (r : Inventory) (s : Store) → OkThen (IsKnown key) (reserve_found db c input actor r s)
  unfolding reserve_found reserve_new is_known
  found-OkThen r s =
      rw (bind_ok _ _ s (find_reservation_by_key_lem db s key))
        (elim (Option-cases (first (λ x. key_eq x.idempotency_key (some key)) s.reservations)) [
          | inl e ↦
              let sku = normalize_sku input.sku in
              rw e (
                rw (bind_ok _ _ s (reserve_stock_lem db s c.now sku input.quantity)) (
                  or_raise_cases (OkThen (IsKnown key)) insufficient_stock _ _ _ tt
                    λ after. hold_taken-OkThen sku r after _ e))
          | inr (p, e) ↦ rw e (
              ok_then (IsKnown key) _ (
                replay_reservation-reads db (λ x. IsKnown key x.1) s (normalize_sku input.sku) input
                  r p (λ x. rw e refl)))
        ])

  checked-OkThen : (s : Store) → OkThen (IsKnown key) (reserve_checked db c input actor s)
  unfolding reserve_checked
  checked-OkThen s =
      rw (bind_ok _ _ s (find_by_sku_lem db s (normalize_sku input.sku)))
        (or_raise_cases (OkThen (IsKnown key)) inventory_not_found s _ _ tt λ r. found-OkThen r s)

  -- A success leaves a reservation under the key.
  reserve-OkThen : (s : Store) → OkThen (IsKnown key) (reserve db c input actor s)
  unfolding reserve
  reserve-OkThen s =
      require_cases (OkThen (IsKnown key)) invalid_quantity s _ _ tt
        (require_cases (OkThen (IsKnown key)) invalid_quantity s _ _ tt (checked-OkThen s))

  found-unchanged :
      (r : Inventory) (s : Store) → IsKnown key s → (reserve_found db c input actor r s).1 ≡ s
  unfolding reserve_found is_known
  found-unchanged r s h =
      rw (bind_ok _ _ s (find_reservation_by_key_lem db s key))
        (elim (Option-cases (first (λ x. key_eq x.idempotency_key (some key)) s.reservations)) [
          | inl e ↦ absurd (ground (arith, rw e at h))
          | inr (p, e) ↦ rw e (
              replay_reservation-reads db (λ x. x.1 ≡ s) s (normalize_sku input.sku) input r p
                (λ x. refl))
        ])

  checked-unchanged : (s : Store) → IsKnown key s → (reserve_checked db c input actor s).1 ≡ s
  unfolding reserve_checked
  checked-unchanged s h =
      rw (bind_ok _ _ s (find_by_sku_lem db s (normalize_sku input.sku)))
        (or_raise_cases (λ x. x.1 ≡ s) inventory_not_found s _ _ refl λ r. found-unchanged r s h)

  -- Under a key that is known, a request changes nothing.
  known-unchanged : (s : Store) → IsKnown key s → (reserve db c input actor s).1 ≡ s
  unfolding reserve
  known-unchanged s h =
      require_cases (λ x. x.1 ≡ s) invalid_quantity s _ _ refl
        (require_cases (λ x. x.1 ≡ s) invalid_quantity s _ _ refl (checked-unchanged s h))

then_known :
    (P : Store → Type 0) (x : Result ReservationResult × Store)
    → is_ok x.0 ≡ true
    → OkThen P x
    → P x.1
then_known P (ok b, s) e h = h
then_known P (err b, s) e h = absurd (ground (arith, e))

-- Retries are safe: behind a request to reserve that succeeded, any request under the same key, whatever
-- else it asks for and whether it succeeds or raises, changes nothing in the store.
pub reserve-again :
    (db : Database) (c later : Request) (input again : ReserveInput) (actor other : InventoryActor)
    (s : Store)
    → is_ok (reserve db c input actor s).0 ≡ true
    → again.idempotency_key ≡ input.idempotency_key
    → (reserve db later again other (reserve db c input actor s).1).1
      ≡ (reserve db c input actor s).1
reserve-again db c later input again actor other s e same =
    known-unchanged db later again other (reserve db c input actor s).1 (
      rw same (
        then_known (IsKnown input.idempotency_key) (reserve db c input actor s) e
          (reserve-OkThen db c input actor s)))

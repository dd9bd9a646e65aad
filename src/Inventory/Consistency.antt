-- ===== src/Inventory/Consistency.antt =====
-- The balance between records and reservations under reserve of
-- src/modules/inventory/application/InventoryService.ts.
use rest_ecommerce_api.Prelude.Text.{Text, upper-trim_idem}
use rest_ecommerce_api.Prelude.{
  ℕ, ◌≡◌, refl, inl, inr, true, none, some, List, ℤ, pos, ◌+ℤ◌, ◌≤ℤ◌, arith, first, modify_first,
  Option-cases,
}
use rest_ecommerce_api.Prelude.Updates.{modify_first-miss}
use rest_ecommerce_api.Errors.{Error, invalid_quantity, inventory_not_found}
use rest_ecommerce_api.Errors.Rules.{
  Keeps, Keeps-bind, Keeps-read, Keeps-require, keeps_rules, bind_ok, bind_none, bind_some,
  attempt_lem, Keeps-guard, Keeps-or_raise,
}
use rest_ecommerce_api.Inventory.Entity.{
  Inventory, Reservation, InventoryMovement, normalize_sku, max_reservation_quantity,
}
use rest_ecommerce_api.Inventory.Events.{Request, InventoryEventEnvelope}
use rest_ecommerce_api.Inventory.View.{InventoryActor, ReserveInput}
use rest_ecommerce_api.Inventory.Repository.{
  Store, Database, can_reserve, can_release, released_record, append_movement, publish, find_by_sku,
  find_reservation_by_key,
}
use rest_ecommerce_api.Inventory.Building.{new_reservation, is_integer_in_range}
use rest_ecommerce_api.Inventory.Laws.{
  find_by_sku_lem, reserve_stock_lem, release_stock_lem, create_reservation_cases,
  find_reservation_by_key_lem,
}
use rest_ecommerce_api.Inventory.Stock.{
  can_release-owed, release_stock-Ledger, reserve_stock-Ledger, le-at, at-settled,
}
use rest_ecommerce_api.Inventory.Ledger.{Ledger, IsConsistent, at, hold-Ledger, owe-Ledger}
use rest_ecommerce_api.Inventory.Service.{emit}
use rest_ecommerce_api.Inventory.Reserving.{
  record_reservation, recover_reservation, replay_reservation, reserve_new, reserve,
  reserve_checked, reserve_found, hold_taken, replay_winner,
}

pub normalize_sku_idem : (sku : Text) → normalize_sku (normalize_sku sku) ≡ normalize_sku sku
unfolding normalize_sku
normalize_sku_idem sku = upper-trim_idem sku

at_least_one : (q : ℤ) → is_integer_in_range q (pos 1) max_reservation_quantity ≡ true → pos 1 ≤ℤ q
unfolding is_integer_in_range
at_least_one q h = ground arith

module _ (db : Database) where
  pub append_movement-Keeps : (m : InventoryMovement) → Keeps IsConsistent (append_movement db m)
  unfolding append_movement
  append_movement-Keeps m = record { at = λ s l. ground arith }

  pub publish-Keeps : (e : InventoryEventEnvelope) → Keeps IsConsistent (publish db e)
  unfolding publish
  publish-Keeps e = record { at = λ s l. ground arith }

  -- Reading changes nothing, and neither does a replay.
  pub find_by_sku-Keeps : (sku : Text) → Keeps IsConsistent (find_by_sku db sku)
  find_by_sku-Keeps sku = Keeps-read _ _ (λ s. find_by_sku_lem db s sku)

  pub find_reservation_by_key-Keeps :
      (key : Text) → Keeps IsConsistent (find_reservation_by_key db key)
  find_reservation_by_key-Keeps key = Keeps-read _ _ (λ s. find_reservation_by_key_lem db s key)

  replay_reservation-Keeps :
      (sku : Text) (input : ReserveInput) (fallback : Inventory) (prior : Reservation)
      → Keeps IsConsistent (replay_reservation db sku input fallback prior)
  unfolding replay_reservation
  replay_reservation-Keeps sku input fallback prior = search (keeps_rules, find_by_sku-Keeps)

  record_reservation-Keeps :
      (c : Request) (actor : InventoryActor) (r : Reservation) (after : Inventory)
      → Keeps IsConsistent (record_reservation db c actor r after)
  unfolding record_reservation emit
  record_reservation-Keeps c actor r after =
      search (keeps_rules, append_movement-Keeps, publish-Keeps)

  -- Stock that was taken and not held is given back, and nothing else changes.
  give_back :
      (now : ℕ) (sku : Text) (q : ℤ) (is : List Inventory) (rs : List Reservation)
      → normalize_sku sku ≡ sku
      → pos 1 ≤ℤ q
      → Ledger (λ k. pos 0 +ℤ at sku q k) is rs
      → Ledger (λ k. pos 0) (modify_first (can_release sku q) (released_record now q) is) rs
  give_back now sku q is rs n h l =
      let (d, e) = can_release-owed _ is rs l now sku q n h (le-at sku q) in
      owe-Ledger _ _ rs (release_stock-Ledger _ is rs l now sku q n h d e) (λ k. pos 0)
        (λ k. at-settled sku q k)

  replay_winner-Keeps :
      (sku : Text) (input : ReserveInput) (after : Inventory) (e : Error)
      → Keeps IsConsistent (replay_winner db sku input after e)
  unfolding replay_winner
  replay_winner-Keeps sku input after e =
      search (keeps_rules, find_reservation_by_key-Keeps, replay_reservation-Keeps)

  recover_reservation-Keeps :
      (c : Request) (sku : Text) (input : ReserveInput) (after : Inventory) (e : Error) (s : Store)
      → normalize_sku sku ≡ sku
      → pos 1 ≤ℤ input.quantity
      → Ledger (λ k. pos 0 +ℤ at sku input.quantity k) s.inventories s.reservations
      → IsConsistent (recover_reservation db c sku input after e s).1
  unfolding recover_reservation
  recover_reservation-Keeps c sku input after e s n h l =
      rw (bind_ok _ _ s (release_stock_lem db s c.now sku input.quantity)) (
        (replay_winner-Keeps sku input after e).at _
          (give_back c.now sku input.quantity s.inventories s.reservations n h l))

  -- Once the stock is taken, the reservation that holds it is stored, or the stock is given back.
  hold_taken-Keeps :
      (c : Request) (sku : Text) (input : ReserveInput) (actor : InventoryActor)
      (r after : Inventory) (s : Store)
      → normalize_sku sku ≡ sku
      → pos 1 ≤ℤ input.quantity
      → Ledger (λ k. pos 0 +ℤ at sku input.quantity k) s.inventories s.reservations
      → IsConsistent (hold_taken db c sku input actor r after s).1
  unfolding hold_taken new_reservation
  hold_taken-Keeps c sku input actor r after s n h l =
      elim (create_reservation_cases db s (new_reservation c r sku input)) [
        | inl (e, stored) ↦
            rw (bind_ok _ _ s (attempt_lem _ s stored))
              (recover_reservation-Keeps c sku input after e s n h l)
        | inr (fresh, stored) ↦ rw (bind_ok _ _ s (attempt_lem _ s stored)) (
            (record_reservation-Keeps c actor _ after).at _ (
              owe-Ledger _ _ _
                (hold-Ledger _ s.inventories s.reservations l (new_reservation c r sku input)
                  (record { positive = h; normal = n }) refl)
                (λ k. pos 0) (λ k. at-settled sku input.quantity k)))
      ]

  reserve_new-Keeps :
      (c : Request) (sku : Text) (input : ReserveInput) (actor : InventoryActor) (r : Inventory)
      → normalize_sku sku ≡ sku
      → pos 1 ≤ℤ input.quantity
      → Keeps IsConsistent (reserve_new db c sku input actor r)
  unfolding reserve_new
  reserve_new-Keeps c sku input actor r n h = record {
    at = λ s l.
        rw (bind_ok _ _ s (reserve_stock_lem db s c.now sku input.quantity))
          (elim (Option-cases (first (can_reserve sku input.quantity) s.inventories)) [
            | inl e ↦ rw (e, modify_first-miss _ _ s.inventories e, bind_none) l
            | inr (d, e) ↦
                rw (e, bind_some)
                  (hold_taken-Keeps c sku input actor r _ _ n h (
                    reserve_stock-Ledger _ s.inventories s.reservations l c.now sku input.quantity n
                      h d e))
          ]);
  }

  -- Reserving keeps the balance, whatever the outcome.
  pub reserve-IsConsistent :
      (c : Request) (input : ReserveInput) (actor : InventoryActor) (s : Store)
      → IsConsistent s
      → IsConsistent (reserve db c input actor s).1
  unfolding reserve reserve_checked reserve_found
  reserve-IsConsistent c input actor s l =
      Keeps.at
        (Keeps-guard _ invalid_quantity _ λ in_range.
          Keeps-bind _ _ (Keeps-require _ invalid_quantity) λ _.
            Keeps-bind _ _ (find_by_sku-Keeps _) λ found.
              Keeps-bind _ _ (Keeps-or_raise found inventory_not_found) λ r.
                Keeps-bind _ _ (find_reservation_by_key-Keeps input.idempotency_key) (elim [
                  | none ↦
                      reserve_new-Keeps c (normalize_sku input.sku) input actor r
                        (normalize_sku_idem input.sku) (at_least_one input.quantity in_range)
                  | some prior ↦ replay_reservation-Keeps (normalize_sku input.sku) input r prior
                ]))
        s l

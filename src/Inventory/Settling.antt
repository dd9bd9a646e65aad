-- ===== src/Inventory/Settling.antt =====
-- The balance between records and reservations under release, confirm and expireReservations of
-- src/modules/inventory/application/InventoryService.ts.
use rest_ecommerce_api.Prelude.Text.{Text, ◌==◌}
use rest_ecommerce_api.Prelude.{
  ℕ, ◌≡◌, refl, inl, inr, Bool, true, false, Option, none, some, List, [], ◌∷◌, pos, ◌+ℤ◌, arith,
  first, any, modify_first, Bool-cases, Option-cases, length,
}
use rest_ecommerce_api.Prelude.Updates.{first-holds, All-first, first-narrow}
use rest_ecommerce_api.Errors.{require}
use rest_ecommerce_api.Errors.Rules.{
  Keeps, Keeps-bind, Keeps-pure, keeps_rules, bind_ok, bind_none, bind_some, Keeps-attempt,
}
use rest_ecommerce_api.Inventory.Entity.{
  Inventory, Reservation, ReservationStatus, active, released, expired, confirmed, status_eq,
  can_transition_reservation,
}
use rest_ecommerce_api.Inventory.Events.{Request}
use rest_ecommerce_api.Inventory.View.{InventoryActor}
use rest_ecommerce_api.Inventory.Repository.{
  Store, Database, has_status_in, moved_reservation, find_active_expired,
}
use rest_ecommerce_api.Inventory.Laws.{
  release_stock_lem, commit_stock_lem, transition_lem, find_reservation_by_id_lem,
}
use rest_ecommerce_api.Inventory.Stock.{
  can_release-owed, release_stock-Ledger, commit_stock-Ledger, le-at, at-settled,
}
use rest_ecommerce_api.Inventory.Ledger.{IsHeld, Ledger, IsConsistent, at, end-Ledger, owe-Ledger}
use rest_ecommerce_api.Inventory.Consistency.{
  append_movement-Keeps, publish-Keeps, find_by_sku-Keeps,
}
use rest_ecommerce_api.Inventory.Service.{emit}
use rest_ecommerce_api.Inventory.Reserving.{
  record_release, record_commit, return_stock, replay_release, release, commit_reservation,
  replay_confirm, confirm, release_active, confirm_active, expire_each, expire_reservations,
}

-- The transition of an active reservation finds the reservation that was read.
pub active_is_moved :
    (id : Text) (rs : List Reservation) (r : Reservation)
    → first (λ x. x.id == id) rs ≡ some r
    → status_eq r.status active ≡ true
    → first (has_status_in id (active ∷ [])) rs ≡ some r
unfolding any
active_is_moved id rs r e a =
    first-narrow (λ x. x.id == id) (has_status_in id (active ∷ [])) rs r (λ x t. ground (arith, t))
      e (ground (arith, first-holds (λ x. x.id == id) rs r e))

is_active : (st : ReservationStatus) → status_eq st active ≡ true → st ≡ active
is_active st a = ground arith

module _ (db : Database) where
  find_active_expired-Keeps :
      (now limit : ℕ) → Keeps IsConsistent (find_active_expired db now limit)
  unfolding find_active_expired
  find_active_expired-Keeps now limit = record { at = λ s l. l }

  replay_release-Keeps :
      (c : Request) (r : Reservation) → Keeps IsConsistent (replay_release db c r)
  unfolding replay_release
  replay_release-Keeps c r = search (keeps_rules, find_by_sku-Keeps)

  replay_confirm-Keeps :
      (c : Request) (r : Reservation) → Keeps IsConsistent (replay_confirm db c r)
  unfolding replay_confirm
  replay_confirm-Keeps c r = search (keeps_rules, replay_release-Keeps)

  record_release-Keeps :
      (c : Request) (actor : InventoryActor) (as_expired : Bool) (reason : Option Text)
      (existing transitioned : Reservation) (after : Inventory)
      → Keeps IsConsistent (record_release db c actor as_expired reason existing transitioned after)
  unfolding record_release emit
  record_release-Keeps c actor as_expired reason existing transitioned after =
      search (keeps_rules, append_movement-Keeps, publish-Keeps)

  record_commit-Keeps :
      (c : Request) (actor : InventoryActor) (existing transitioned : Reservation)
      (after : Inventory)
      → Keeps IsConsistent (record_commit db c actor existing transitioned after)
  unfolding record_commit emit
  record_commit-Keeps c actor existing transitioned after =
      search (keeps_rules, append_movement-Keeps, publish-Keeps)

  -- Stock that a reservation held and no longer holds is given back.
  return_stock-Keeps :
      (c : Request) (actor : InventoryActor) (as_expired : Bool) (reason : Option Text)
      (existing transitioned : Reservation) (s : Store)
      → IsHeld existing
      → Ledger (λ k. pos 0 +ℤ at existing.sku existing.quantity k) s.inventories s.reservations
      → IsConsistent (return_stock db c actor as_expired reason existing transitioned s).1
  unfolding return_stock
  return_stock-Keeps c actor as_expired reason existing transitioned s h l =
      let (d, e) =
        can_release-owed _ s.inventories s.reservations l c.now existing.sku existing.quantity
          h.normal h.positive (le-at existing.sku existing.quantity) in
      rw (bind_ok _ _ s (release_stock_lem db s c.now existing.sku existing.quantity), e, bind_some)
        ((record_release-Keeps c actor as_expired reason existing transitioned _).at _ (
          owe-Ledger _ _ _
            (release_stock-Ledger _ s.inventories s.reservations l c.now existing.sku
              existing.quantity h.normal h.positive d e)
            (λ k. pos 0) (λ k. at-settled existing.sku existing.quantity k)))

  commit_reservation-Keeps :
      (c : Request) (actor : InventoryActor) (existing transitioned : Reservation) (s : Store)
      → IsHeld existing
      → Ledger (λ k. pos 0 +ℤ at existing.sku existing.quantity k) s.inventories s.reservations
      → IsConsistent (commit_reservation db c actor existing transitioned s).1
  unfolding commit_reservation
  commit_reservation-Keeps c actor existing transitioned s h l =
      let (d, e) =
        can_release-owed _ s.inventories s.reservations l c.now existing.sku existing.quantity
          h.normal h.positive (le-at existing.sku existing.quantity) in
      rw (bind_ok _ _ s (commit_stock_lem db s c.now existing.sku existing.quantity), e, bind_some)
        ((record_commit-Keeps c actor existing transitioned _).at _ (
          owe-Ledger _ _ _
            (commit_stock-Ledger _ s.inventories s.reservations l c.now existing.sku
              existing.quantity h.normal h.positive d e)
            (λ k. pos 0) (λ k. at-settled existing.sku existing.quantity k)))

  -- After the transition the stock of the reservation is owed.
  pub moved_owes :
      (now : ℕ) (id : Text) (to : ReservationStatus) (s : Store) (r : Reservation)
      → IsConsistent s
      → first (λ x. x.id == id) s.reservations ≡ some r
      → status_eq r.status active ≡ true
      → status_eq to active ≡ false
      → Ledger
          (λ k. pos 0 +ℤ at r.sku r.quantity k)
          s.inventories
          (modify_first (has_status_in id (active ∷ [])) (moved_reservation now to) s.reservations)
  moved_owes now id to s r l e a t =
      end-Ledger _ s.inventories s.reservations l _ now to r
        (active_is_moved id s.reservations r e a) (is_active r.status a) t

  release_active-Keeps :
      (c : Request) (id : Text) (actor : InventoryActor) (as_expired : Bool) (reason : Option Text)
      (s : Store) (r : Reservation)
      → IsConsistent s
      → first (λ x. x.id == id) s.reservations ≡ some r
      → status_eq r.status active ≡ true
      → IsConsistent (release_active db c id actor as_expired reason r s).1
  unfolding release_active can_transition_reservation require
  release_active-Keeps c id actor true reason s r l e a =
      rw
        (
          bind_ok _ _ s refl,
          bind_ok _ _ s (transition_lem db s c.now id (active ∷ []) expired),
          active_is_moved id s.reservations r e a,
        )
        (return_stock-Keeps c actor true reason r _ _ (All-first IsHeld _ s.reservations r l.held e)
          (moved_owes c.now id expired s r l e a refl))
  release_active-Keeps c id actor false reason s r l e a =
      rw
        (
          bind_ok _ _ s refl,
          bind_ok _ _ s (transition_lem db s c.now id (active ∷ []) released),
          active_is_moved id s.reservations r e a,
        )
        (return_stock-Keeps c actor false reason r _ _
          (All-first IsHeld _ s.reservations r l.held e)
          (moved_owes c.now id released s r l e a refl))

  confirm_active-Keeps :
      (c : Request) (id : Text) (actor : InventoryActor) (s : Store) (r : Reservation)
      → IsConsistent s
      → first (λ x. x.id == id) s.reservations ≡ some r
      → status_eq r.status active ≡ true
      → IsConsistent (confirm_active db c id actor r s).1
  unfolding confirm_active
  confirm_active-Keeps c id actor s r l e a =
      rw
        (
          bind_ok _ _ s (transition_lem db s c.now id (active ∷ []) confirmed),
          active_is_moved id s.reservations r e a,
        )
        (commit_reservation-Keeps c actor r _ _ (All-first IsHeld _ s.reservations r l.held e)
          (moved_owes c.now id confirmed s r l e a refl))

  -- Releasing keeps the balance, whatever the outcome.
  pub release-IsConsistent :
      (c : Request) (id : Text) (actor : InventoryActor) (as_expired : Bool) (reason : Option Text)
      (s : Store)
      → IsConsistent s
      → IsConsistent (release db c id actor as_expired reason s).1
  unfolding release
  release-IsConsistent c id actor as_expired reason s l =
      rw (bind_ok _ _ s (find_reservation_by_id_lem db s id))
        (elim (Option-cases (first (λ r. r.id == id) s.reservations)) [
          | inl e ↦ rw (e, bind_none) l
          | inr (r, e) ↦
              rw (e, bind_some)
                (elim (Bool-cases (status_eq r.status active)) [
                  | inl a ↦ rw a (release_active-Keeps c id actor as_expired reason s r l e a)
                  | inr a ↦ rw a ((replay_release-Keeps c r).at s l)
                ])
        ])

  -- Confirming keeps the balance, whatever the outcome.
  pub confirm-IsConsistent :
      (c : Request) (id : Text) (actor : InventoryActor) (s : Store)
      → IsConsistent s
      → IsConsistent (confirm db c id actor s).1
  unfolding confirm
  confirm-IsConsistent c id actor s l =
      rw (bind_ok _ _ s (find_reservation_by_id_lem db s id))
        (elim (Option-cases (first (λ r. r.id == id) s.reservations)) [
          | inl e ↦ rw (e, bind_none) l
          | inr (r, e) ↦
              rw (e, bind_some)
                (elim (Bool-cases (status_eq r.status active)) [
                  | inl a ↦ rw a (confirm_active-Keeps c id actor s r l e a)
                  | inr a ↦ rw a ((replay_confirm-Keeps c r).at s l)
                ])
        ])

  expire_each-Keeps :
      (c : ℕ → Request) (actor : InventoryActor) (due : List Reservation) (done failed : ℕ)
      → Keeps IsConsistent (expire_each db c actor due done failed)
  unfolding expire_each
  expire_each-Keeps c actor [] done failed = Keeps-pure _
  expire_each-Keeps c actor (r ∷ due) done failed =
      Keeps-bind _ _
        (Keeps-attempt _
          (record { at = release-IsConsistent (c (length due)) r.id actor true none }))
        (λ outcome. expire_each-Keeps c actor due _ _)

  -- A sweep keeps the balance.
  pub expire_reservations-IsConsistent :
      (c : ℕ → Request) (now : ℕ) (limit : Option ℕ) (actor : InventoryActor) (s : Store)
      → IsConsistent s
      → IsConsistent (expire_reservations db c now limit actor s).1
  unfolding expire_reservations
  expire_reservations-IsConsistent c now limit actor = Keeps.at (
      Keeps-bind _ _ (find_active_expired-Keeps now _)
        λ due. Keeps-bind _ _ (expire_each-Keeps c actor due 0 0) λ counts. Keeps-pure _)

-- ===== src/Inventory/Returning.antt =====
-- The DatabaseError branches of release and confirm in
-- src/modules/inventory/application/InventoryService.ts.
use rest_ecommerce_api.Prelude.Text.{Text, ◌==◌}
use rest_ecommerce_api.Prelude.{
  ◌≡◌, refl, inl, inr, Bool, true, false, Option, some, [], ◌∷◌, pos, ◌+ℤ◌, arith, first,
  Bool-cases, Option-cases,
}
use rest_ecommerce_api.Prelude.Updates.{All-first}
use rest_ecommerce_api.Errors.{Result, ok, err, database_error, pure, raise, ◌>>=◌, require}
use rest_ecommerce_api.Errors.Rules.{bind_ok, bind_none, bind_some}
use rest_ecommerce_api.Inventory.Entity.{
  Inventory, Reservation, active, released, expired, confirmed, status_eq,
  can_transition_reservation,
}
use rest_ecommerce_api.Inventory.Events.{Request}
use rest_ecommerce_api.Inventory.View.{InventoryActor}
use rest_ecommerce_api.Inventory.Repository.{Store, Database, append_movement, publish}
use rest_ecommerce_api.Inventory.Laws.{
  release_stock_lem, commit_stock_lem, find_by_sku_lem, find_reservation_by_id_lem, transition_lem,
}
use rest_ecommerce_api.Inventory.Settling.{active_is_moved, moved_owes}
use rest_ecommerce_api.Inventory.Stock.{can_release-owed, le-at}
use rest_ecommerce_api.Inventory.Ledger.{IsHeld, Ledger, IsConsistent, at}
use rest_ecommerce_api.Inventory.Service.{emit}
use rest_ecommerce_api.Inventory.Reserving.{
  record_release, record_commit, return_stock, commit_reservation, replay_release, replay_confirm,
  release_active, confirm_active, release, confirm,
}

-- The result of a DatabaseError.
unfoldable pub is_database_error : {A : Type 0} → Result A → Bool
is_database_error (ok a) = false
is_database_error (err database_error) = true
is_database_error (err _) = false

module _ (db : Database) (c : Request) (actor : InventoryActor) (s : Store) where
  record_release_no_error :
      (as_expired : Bool) (reason : Option Text) (r moved : Reservation) (after : Inventory)
      → is_database_error (record_release db c actor as_expired reason r moved after s).0 ≡ false
  unfolding record_release append_movement emit publish pure ◌>>=◌ is_database_error
  record_release_no_error as_expired reason r moved after = ground arith

  record_commit_no_error :
      (r moved : Reservation) (after : Inventory)
      → is_database_error (record_commit db c actor r moved after s).0 ≡ false
  unfolding record_commit append_movement emit publish pure ◌>>=◌ is_database_error
  record_commit_no_error r moved after = ground arith

  replay_release_no_error :
      (r : Reservation) → is_database_error (replay_release db c r s).0 ≡ false
  unfolding replay_release pure is_database_error
  replay_release_no_error r = rw (bind_ok _ _ s (find_by_sku_lem db s r.sku)) refl

  replay_confirm_no_error :
      (r : Reservation) → is_database_error (replay_confirm db c r s).0 ≡ false
  unfolding replay_confirm raise is_database_error
  replay_confirm_no_error r = elim (Bool-cases (status_eq r.status confirmed)) [
    | inl t ↦ rw t (replay_release_no_error r)
    | inr t ↦ rw t refl
  ]

module _ (db : Database) (c : Request) (actor : InventoryActor) (s : Store) (r moved : Reservation)
    (held : IsHeld r)
    (l : Ledger (λ k. pos 0 +ℤ at r.sku r.quantity k) s.inventories s.reservations) where
  -- Stock that is owed is there to be returned, or sold.
  return_stock_no_error :
      (as_expired : Bool) (reason : Option Text)
      → is_database_error (return_stock db c actor as_expired reason r moved s).0 ≡ false
  unfolding return_stock
  return_stock_no_error as_expired reason =
      let (d, e) =
        can_release-owed _ s.inventories s.reservations l c.now r.sku r.quantity held.normal
          held.positive (le-at r.sku r.quantity) in
      rw (bind_ok _ _ s (release_stock_lem db s c.now r.sku r.quantity), e, bind_some)
        (record_release_no_error db c actor _ as_expired reason r moved _)

  commit_reservation_no_error :
      is_database_error (commit_reservation db c actor r moved s).0 ≡ false
  unfolding commit_reservation
  commit_reservation_no_error =
      let (d, e) =
        can_release-owed _ s.inventories s.reservations l c.now r.sku r.quantity held.normal
          held.positive (le-at r.sku r.quantity) in
      rw (bind_ok _ _ s (commit_stock_lem db s c.now r.sku r.quantity), e, bind_some)
        (record_commit_no_error db c actor _ r moved _)

module _ (db : Database) (c : Request) (id : Text) (actor : InventoryActor) (s : Store)
    (l : IsConsistent s) where
  release_active_no_error :
      (as_expired : Bool) (reason : Option Text) (r : Reservation)
      → first (λ x. x.id == id) s.reservations ≡ some r
      → status_eq r.status active ≡ true
      → is_database_error (release_active db c id actor as_expired reason r s).0 ≡ false
  unfolding release_active can_transition_reservation require
  release_active_no_error true reason r e a =
      rw
        (
          bind_ok _ _ s refl,
          bind_ok _ _ s (transition_lem db s c.now id (active ∷ []) expired),
          active_is_moved id s.reservations r e a,
        )
        (return_stock_no_error db c actor _ r _ (All-first IsHeld _ s.reservations r l.held e)
          (moved_owes db c.now id expired s r l e a refl) true reason)
  release_active_no_error false reason r e a =
      rw
        (
          bind_ok _ _ s refl,
          bind_ok _ _ s (transition_lem db s c.now id (active ∷ []) released),
          active_is_moved id s.reservations r e a,
        )
        (return_stock_no_error db c actor _ r _ (All-first IsHeld _ s.reservations r l.held e)
          (moved_owes db c.now id released s r l e a refl) false reason)

  confirm_active_no_error :
      (r : Reservation)
      → first (λ x. x.id == id) s.reservations ≡ some r
      → status_eq r.status active ≡ true
      → is_database_error (confirm_active db c id actor r s).0 ≡ false
  unfolding confirm_active
  confirm_active_no_error r e a =
      rw
        (
          bind_ok _ _ s (transition_lem db s c.now id (active ∷ []) confirmed),
          active_is_moved id s.reservations r e a,
        )
        (commit_reservation_no_error db c actor _ r _ (All-first IsHeld _ s.reservations r l.held e)
          (moved_owes db c.now id confirmed s r l e a refl))

  release_no_error :
      (as_expired : Bool) (reason : Option Text)
      → is_database_error (release db c id actor as_expired reason s).0 ≡ false
  unfolding release is_database_error
  release_no_error as_expired reason =
      rw (bind_ok _ _ s (find_reservation_by_id_lem db s id))
        (elim (Option-cases (first (λ r. r.id == id) s.reservations)) [
          | inl e ↦ rw (e, bind_none) refl
          | inr (r, e) ↦
              rw (e, bind_some)
                (elim (Bool-cases (status_eq r.status active)) [
                  | inl a ↦ rw a (release_active_no_error as_expired reason r e a)
                  | inr a ↦ rw a (replay_release_no_error db c actor s r)
                ])
        ])

  confirm_no_error : is_database_error (confirm db c id actor s).0 ≡ false
  unfolding confirm is_database_error
  confirm_no_error =
      rw (bind_ok _ _ s (find_reservation_by_id_lem db s id))
        (elim (Option-cases (first (λ r. r.id == id) s.reservations)) [
          | inl e ↦ rw (e, bind_none) refl
          | inr (r, e) ↦
              rw (e, bind_some)
                (elim (Bool-cases (status_eq r.status active)) [
                  | inl a ↦ rw a (confirm_active_no_error r e a)
                  | inr a ↦ rw a (replay_confirm_no_error db c actor s r)
                ])
        ])

-- In a store whose records balance its active reservations, no release, expiry or confirmation ends in
-- the DatabaseError for stock that cannot be returned or committed after the status was moved.
pub settling_no_error :
    (db : Database) (c : Request) (id : Text) (actor : InventoryActor) (s : Store)
    (as_expired : Bool) (reason : Option Text)
    → IsConsistent s
    → (is_database_error (release db c id actor as_expired reason s).0 ≡ false)
      × (is_database_error (confirm db c id actor s).0 ≡ false)
settling_no_error db c id actor s as_expired reason l =
    (release_no_error db c id actor s l as_expired reason, confirm_no_error db c id actor s l)

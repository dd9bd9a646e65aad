-- ===== src/Inventory/Laws.antt =====
-- The repository's operations as functions of the stored documents, by the laws of the collections.
use mathlib.Core.Option
use rest_ecommerce_api.Prelude.Text.{Text, ◌==◌}
use rest_ecommerce_api.Prelude.{
  ℕ, ◌≡◌, ◌⊎◌, inl, inr, false, some, List, [], ◌∷◌, ◌++◌, ℤ, Bool-cases, first, any, modify_first,
}
use rest_ecommerce_api.Errors.{Error, ok, err, duplicate_key, write_failed}
use rest_ecommerce_api.Inventory.Entity.{Inventory, Reservation, ReservationStatus}
use rest_ecommerce_api.Inventory.Repository.{
  Store, Database, has_sku, can_adjust, adjusted_record, can_reserve, reserved_record, can_release,
  released_record, committed_record, has_status_in, moved_reservation, adjustment_outcome,
  inventory_clash, reservation_clash, key_eq, find_inventory_by_id, find_by_sku, create_inventory,
  apply_adjustment, reserve_stock, release_stock, commit_stock, find_reservation_by_id,
  find_reservation_by_key, create_reservation, transition, find_movement_by_key,
}

module _ (db : Database) (s : Store) where
  pub find_inventory_by_id_lem :
      (id : Text) → find_inventory_by_id db id s ≡ (ok (first (λ r. r.id == id) s.inventories), s)
  unfolding find_inventory_by_id
  find_inventory_by_id_lem id = rw (db.inventories.find_one_first _ _)

  pub find_by_sku_lem :
      (sku : Text) → find_by_sku db sku s ≡ (ok (first (has_sku sku) s.inventories), s)
  unfolding find_by_sku
  find_by_sku_lem sku = rw (db.inventories.find_one_first _ _)

  pub apply_adjustment_lem :
      (now : ℕ) (locator : Text) (delta : ℤ)
      → apply_adjustment db now locator delta s ≡ (
        ok (
            adjustment_outcome delta (
              Option.map
                (adjusted_record now delta)
                (first (can_adjust locator delta) s.inventories))),
        record s {
          inventories =
              modify_first (can_adjust locator delta) (adjusted_record now delta) s.inventories;
        },
      )
  unfolding apply_adjustment
  apply_adjustment_lem now locator delta = rw (db.inventories.find_one_and_update_first _ _ _)

  pub reserve_stock_lem :
      (now : ℕ) (sku : Text) (q : ℤ)
      → reserve_stock db now sku q s ≡ (
        ok (Option.map (reserved_record now q) (first (can_reserve sku q) s.inventories)),
        record s {
          inventories = modify_first (can_reserve sku q) (reserved_record now q) s.inventories;
        },
      )
  unfolding reserve_stock
  reserve_stock_lem now sku q = rw (db.inventories.find_one_and_update_first _ _ _)

  pub release_stock_lem :
      (now : ℕ) (sku : Text) (q : ℤ)
      → release_stock db now sku q s ≡ (
        ok (Option.map (released_record now q) (first (can_release sku q) s.inventories)),
        record s {
          inventories = modify_first (can_release sku q) (released_record now q) s.inventories;
        },
      )
  unfolding release_stock
  release_stock_lem now sku q = rw (db.inventories.find_one_and_update_first _ _ _)

  pub commit_stock_lem :
      (now : ℕ) (sku : Text) (q : ℤ)
      → commit_stock db now sku q s ≡ (
        ok (Option.map (committed_record now q) (first (can_release sku q) s.inventories)),
        record s {
          inventories = modify_first (can_release sku q) (committed_record now q) s.inventories;
        },
      )
  unfolding commit_stock
  commit_stock_lem now sku q = rw (db.inventories.find_one_and_update_first _ _ _)

  pub find_reservation_by_id_lem :
      (id : Text)
      → find_reservation_by_id db id s ≡ (ok (first (λ r. r.id == id) s.reservations), s)
  unfolding find_reservation_by_id
  find_reservation_by_id_lem id = rw (db.reservations.find_one_first _ _)

  pub find_reservation_by_key_lem :
      (key : Text)
      → find_reservation_by_key db key s
        ≡ (ok (first (λ r. key_eq r.idempotency_key (some key)) s.reservations), s)
  unfolding find_reservation_by_key
  find_reservation_by_key_lem key = rw (db.reservations.find_one_first _ _)

  pub find_movement_by_key_lem :
      (key : Text)
      → find_movement_by_key db key s
        ≡ (ok (first (λ m. key_eq m.idempotency_key (some key)) s.movements), s)
  unfolding find_movement_by_key
  find_movement_by_key_lem key = rw (db.movements.find_one_first _ _)

  pub transition_lem :
      (now : ℕ) (id : Text) (from : List ReservationStatus) (to : ReservationStatus)
      → transition db now id from to s ≡ (
        ok (Option.map (moved_reservation now to) (first (has_status_in id from) s.reservations)),
        record s {
          reservations =
              modify_first (has_status_in id from) (moved_reservation now to) s.reservations;
        },
      )
  unfolding transition
  transition_lem now id from to = rw (db.reservations.find_one_and_update_first _ _ _)

  -- An insertion either throws and stores nothing, or stores a document that clashes with none.
  pub create_inventory_cases :
      (r : Inventory)
      → ((e : Error) × (create_inventory db r s ≡ (err e, s)))
        ⊎ ((any (inventory_clash r) s.inventories ≡ false)
            × (create_inventory db r s
                ≡ (ok tt, record s { inventories = s.inventories ++ r ∷ [] })))
  unfolding create_inventory
  create_inventory_cases r = elim (db.inventories.insert_one_lem inventory_clash r s.inventories) [
    | inl e ↦ inl (write_failed, rw e)
    | inr e ↦ elim (Bool-cases (any (inventory_clash r) s.inventories)) [
      | inl t ↦ inl (duplicate_key, rw (e, t))
      | inr t ↦ inr (t, rw (e, t))
    ]
  ]

  pub create_reservation_cases :
      (r : Reservation)
      → ((e : Error) × (create_reservation db r s ≡ (err e, s)))
        ⊎ ((any (reservation_clash r) s.reservations ≡ false)
            × (create_reservation db r s
                ≡ (ok tt, record s { reservations = s.reservations ++ r ∷ [] })))
  unfolding create_reservation
  create_reservation_cases r =
      elim (db.reservations.insert_one_lem reservation_clash r s.reservations) [
        | inl e ↦ inl (write_failed, rw e)
        | inr e ↦ elim (Bool-cases (any (reservation_clash r) s.reservations)) [
          | inl t ↦ inl (duplicate_key, rw (e, t))
          | inr t ↦ inr (t, rw (e, t))
        ]
      ]

-- ===== src/Inventory/Stocking.antt =====
-- The balance between records and reservations under ensureInventory and adjust of
-- src/modules/inventory/application/InventoryService.ts.
use rest_ecommerce_api.Prelude.Text.{Text, ◌==◌, eq_iff}
use rest_ecommerce_api.Prelude.{
  ◌≡◌, refl, inl, inr, true, false, none, some, List, [], ◌∷◌, ◌++◌, ℤ, pos, ◌+ℤ◌, arith, int_laws,
  first, any, Bool-cases, Option-cases,
}
use rest_ecommerce_api.Prelude.Updates.{
  modify_first-miss, All-append, sum_by-append, count_by-append, count_by-any,
}
use rest_ecommerce_api.Errors.{Error}
use rest_ecommerce_api.Errors.Rules.{
  Keeps, Keeps-bind, Keeps-pure, Keeps-read, Keeps-require, keeps_rules, bind_ok, bind_none,
  bind_some, attempt_lem, Keeps-guard, Keeps-or_raise, Keeps-if,
}
use rest_ecommerce_api.Inventory.Entity.{Inventory, Reservation, max_adjustment_delta}
use rest_ecommerce_api.Inventory.Events.{Request}
use rest_ecommerce_api.Inventory.View.{
  InventoryActor, AdjustInventoryInput, EnsureInventoryInput, InventoryCatalogPort,
  CatalogVariantRef,
}
use rest_ecommerce_api.Inventory.Repository.{
  Store, Database, AdjustmentOutcome, can_adjust, inventory_clash,
}
use rest_ecommerce_api.Inventory.Building.{new_inventory, is_integer_in_range}
use rest_ecommerce_api.Inventory.Laws.{
  apply_adjustment_lem, create_inventory_cases, find_inventory_by_id_lem, find_movement_by_key_lem,
}
use rest_ecommerce_api.Inventory.Stock.{adjusted_record-IsSound}
use rest_ecommerce_api.Inventory.Ledger.{
  IsSound, Ledger, IsConsistent, at, update-Ledger, owe-Ledger, reserved_total, reserved_of,
}
use rest_ecommerce_api.Inventory.Consistency.{
  append_movement-Keeps, publish-Keeps, find_by_sku-Keeps, normalize_sku_idem,
}
use rest_ecommerce_api.Inventory.Service.{
  emit, find_record, emit_adjusted, record_adjustment, apply_and_record, adjust, recover_inventory,
  record_bootstrap, bootstrap_inventory, ensure_inventory,
}

same_sku :
    (r : Inventory) (k : Text)
    → (r.sku == k) ≡ true
    → (x : Inventory) → (x.sku == k) ≡ true
    → inventory_clash r x ≡ true
same_sku r k t x u = ground (arith, eq_iff x.sku k, eq_iff r.sku k, eq_iff r.sku x.sku)

at-zero : (sku k : Text) → pos 0 +ℤ at sku (pos 0) k ≡ pos 0
at-zero sku k = elim (Bool-cases (sku == k)) [
  | inl t ↦ rw t (omega int_laws)
  | inr t ↦ rw t (omega int_laws)
]

-- A new record under a new SKU, with nothing reserved, keeps the balance.
add_record-Ledger :
    (is : List Inventory) (rs : List Reservation) (r : Inventory)
    → Ledger (λ k. pos 0) is rs
    → IsSound r
    → r.reserved ≡ pos 0
    → any (inventory_clash r) is ≡ false
    → Ledger (λ k. pos 0) (is ++ r ∷ []) rs
unfolding reserved_total
add_record-Ledger is rs r l v z fresh = record {
  sound = All-append IsSound is (r ∷ []) l.sound (v, tt);
  one_record = λ k. rw (count_by-append (λ x. x.sku == k) is r) (elim (Bool-cases (r.sku == k)) [
    | inl t ↦
        rw (t, count_by-any (λ x. x.sku == k) (inventory_clash r) is fresh (same_sku r k t))
          (omega arith)
    | inr t ↦ rw t (omega (arith, l.one_record k))
  ]);
  held = l.held;
  balanced = λ k.
      rw (sum_by-append (reserved_of k) is r, z, l.balanced k)
        (elim (Bool-cases (r.sku == k)) [
          | inl t ↦ rw t (omega int_laws)
          | inr t ↦ rw t (omega int_laws)
        ]);
}

new_inventory-IsSound :
    (c : Request) (ref : CatalogVariantRef) (q threshold : ℤ)
    → is_integer_in_range q (pos 0) max_adjustment_delta ≡ true
    → IsSound (new_inventory c ref q threshold)
unfolding new_inventory is_integer_in_range
new_inventory-IsSound c ref q threshold h = record {
  on_hand_nonneg = ground arith;
  reserved_nonneg = omega arith;
  sold_nonneg = omega arith;
  reserved_le = ground arith;
  normal = normalize_sku_idem ref.sku;
}

module _ (db : Database) where
  find_record-Keeps : (locator : Text) → Keeps IsConsistent (find_record db locator)
  unfolding find_record
  find_record-Keeps locator = Keeps-bind _ _ (find_by_sku-Keeps db locator) (elim [
    | none ↦
        Keeps-if _ _ _ (Keeps-read _ _ (λ s. find_inventory_by_id_lem db s locator)) (Keeps-pure _)
    | some r ↦ Keeps-pure _
  ])

  record_adjustment-Keeps :
      (c : Request) (input : AdjustInventoryInput) (actor : InventoryActor) (before : Inventory)
      (outcome : AdjustmentOutcome)
      → Keeps IsConsistent (record_adjustment db c input actor before outcome)
  unfolding record_adjustment emit_adjusted emit
  record_adjustment-Keeps c input actor before outcome =
      search (keeps_rules, append_movement-Keeps, publish-Keeps)

  apply_and_record-Keeps :
      (c : Request) (input : AdjustInventoryInput) (actor : InventoryActor) (before : Inventory)
      → Keeps IsConsistent (apply_and_record db c input actor before)
  unfolding apply_and_record
  apply_and_record-Keeps c input actor before = record {
    at = λ s l.
        rw (bind_ok _ _ s (apply_adjustment_lem db s c.now before.sku input.delta))
          (elim (Option-cases (first (can_adjust before.sku input.delta) s.inventories)) [
            | inl e ↦ rw (e, modify_first-miss _ _ s.inventories e, bind_none) l
            | inr (d, e) ↦
                rw (e, bind_some)
                  ((record_adjustment-Keeps c input actor before _).at _ (
                    owe-Ledger _ _ _
                      (update-Ledger _ s.inventories s.reservations l _ _ d d.sku (pos 0)
                        (adjusted_record-IsSound c.now before.sku input.delta) (λ x. refl) e refl
                        (omega int_laws))
                      (λ k. pos 0) (λ k. at-zero d.sku k)))
          ]);
  }

  -- Adjusting keeps the balance, whatever the outcome.
  pub adjust-IsConsistent :
      (c : Request) (input : AdjustInventoryInput) (actor : InventoryActor) (s : Store)
      → IsConsistent s
      → IsConsistent (adjust db c input actor s).1
  unfolding adjust
  adjust-IsConsistent c input actor = Keeps.at (
      Keeps-bind _ _ (Keeps-require _ _) λ _. Keeps-bind _ _ (Keeps-require _ _) λ _.
        Keeps-bind _ _ (Keeps-require _ _) λ _. Keeps-bind _ _ (Keeps-or_raise _ _) λ locator.
          Keeps-bind _ _ (find_record-Keeps locator) λ found.
            Keeps-bind _ _ (Keeps-or_raise found _) λ before.
              Keeps-bind _ _
                (Keeps-if _ _ _ (Keeps-read _ _ (λ s. find_movement_by_key_lem db s _))
                  (Keeps-pure _))
                (elim [
                  | none ↦ apply_and_record-Keeps c input actor before
                  | some m ↦
                      Keeps-bind _ _ (find_record-Keeps locator)
                        λ again. Keeps-bind _ _ (Keeps-or_raise again _) λ current. Keeps-pure _
                ]))

  recover_inventory-Keeps :
      (ref : CatalogVariantRef) (e : Error) → Keeps IsConsistent (recover_inventory db ref e)
  unfolding recover_inventory
  recover_inventory-Keeps ref e = search (keeps_rules, find_by_sku-Keeps)

  record_bootstrap-Keeps :
      (c : Request) (actor : InventoryActor) (ref : CatalogVariantRef) (q : ℤ)
      → Keeps IsConsistent (record_bootstrap db c actor ref q)
  unfolding record_bootstrap
  record_bootstrap-Keeps c actor ref q =
      search (keeps_rules, find_by_sku-Keeps, append_movement-Keeps)

  bootstrap_inventory-Keeps :
      (c : Request) (actor : InventoryActor) (ref : CatalogVariantRef) (q threshold : ℤ)
      → is_integer_in_range q (pos 0) max_adjustment_delta ≡ true
      → Keeps IsConsistent (bootstrap_inventory db c actor ref q threshold)
  unfolding bootstrap_inventory new_inventory
  bootstrap_inventory-Keeps c actor ref q threshold h = record {
    at = λ s l. elim (create_inventory_cases db s (new_inventory c ref q threshold)) [
      | inl (e, stored) ↦
          rw (bind_ok _ _ s (attempt_lem _ s stored)) ((recover_inventory-Keeps ref e).at s l)
      | inr (fresh, stored) ↦ rw (bind_ok _ _ s (attempt_lem _ s stored)) (
          (record_bootstrap-Keeps c actor ref q).at _ (
            add_record-Ledger s.inventories s.reservations (new_inventory c ref q threshold) l
              (new_inventory-IsSound c ref q threshold h) refl fresh))
    ];
  }

  -- Creating a record keeps the balance, whatever the outcome.
  pub ensure_inventory-IsConsistent :
      (catalog : InventoryCatalogPort) (c : Request) (input : EnsureInventoryInput)
      (actor : InventoryActor) (s : Store)
      → IsConsistent s
      → IsConsistent (ensure_inventory db catalog c input actor s).1
  unfolding ensure_inventory
  ensure_inventory-IsConsistent catalog c input actor = Keeps.at (
      Keeps-bind _ _ (Keeps-or_raise _ _) λ ref. Keeps-bind _ _ (find_by_sku-Keeps db _) (elim [
        | some r ↦ Keeps-pure _
        | none ↦ Keeps-guard _ _ _ λ in_range.
            Keeps-bind _ _ (Keeps-require _ _)
              λ _. bootstrap_inventory-Keeps c actor ref _ _ in_range
      ]))

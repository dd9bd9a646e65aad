-- ===== src/Inventory/Conservation.antt =====
-- The units of stock, on hand or sold, under the operations of
-- src/modules/inventory/application/InventoryService.ts.
use rest_ecommerce_api.Prelude.Text.{Text, ◌==◌}
use rest_ecommerce_api.Prelude.{
  ℕ, ◌≡◌, refl, ◌∙◌, Bool, Option, none, some, List, [], ◌∷◌, ℤ, pos, ◌+ℤ◌, arith, int_laws, first,
  modify_first, sum_by, if◌then◌else◌, Bool-cases, Option-cases, inl, inr, length,
}
use rest_ecommerce_api.Prelude.Updates.{sum_by-modify_first, modify_first-miss}
use rest_ecommerce_api.Errors.{Error, ok, err}
use rest_ecommerce_api.Errors.Rules.{
  Keeps, Keeps-bind, Keeps-pure, Keeps-read, Keeps-attempt, Keeps-require, Keeps-or_raise, Keeps-if,
  keeps_rules,
}
use rest_ecommerce_api.Inventory.Entity.{
  Inventory, Reservation, InventoryMovement, ReservationStatus,
}
use rest_ecommerce_api.Inventory.Events.{Request, InventoryEventEnvelope}
use rest_ecommerce_api.Inventory.View.{InventoryActor, ReserveInput}
use rest_ecommerce_api.Inventory.Repository.{
  Store, Database, append_movement, publish, find_by_sku, find_reservation_by_key,
  find_reservation_by_id, find_active_expired, reserve_stock, release_stock, commit_stock,
  create_reservation, transition, can_reserve, reserved_record, can_release, released_record,
  committed_record,
}
use rest_ecommerce_api.Inventory.Laws.{
  find_by_sku_lem, find_reservation_by_key_lem, find_reservation_by_id_lem, reserve_stock_lem,
  release_stock_lem, commit_stock_lem, create_reservation_cases, transition_lem,
}
use rest_ecommerce_api.Inventory.Service.{emit}
use rest_ecommerce_api.Inventory.Reserving.{
  record_reservation, replay_reservation, replay_winner, recover_reservation, hold_taken,
  reserve_new, reserve, reserve_checked, reserve_found, record_release, return_stock,
  replay_release, release_active, release, record_commit, commit_reservation, replay_confirm,
  confirm_active, confirm, expire_each, expire_reservations,
}

-- The units of a SKU, on hand or sold.
abbrev pub units_of : Text → Inventory → ℤ
units_of k r = if r.sku == k then r.on_hand +ℤ r.sold else pos 0

abbrev pub units : Text → Store → ℤ
units k s = sum_by (units_of k) s.inventories

-- The number of units of a SKU stays what it is.
abbrev HasUnits : Text → ℤ → Store → Type 0
HasUnits k n s = units k s ≡ n

-- An update that changes no record's units changes no sum.
same_units :
    (k : Text) (p : Inventory → Bool) (f : Inventory → Inventory) (is : List Inventory)
    → ((x : Inventory) → units_of k (f x) ≡ units_of k x)
    → sum_by (units_of k) (modify_first p f is) ≡ sum_by (units_of k) is
same_units k p f is same = elim (Option-cases (first p is)) [
  | inl e ↦ rw (modify_first-miss p f is e)
  | inr (d, e) ↦ rw (sum_by-modify_first (units_of k) p f is d e, same d) (omega int_laws)
]

committed_units :
    (k : Text) (now : ℕ) (q : ℤ) (x : Inventory)
    → units_of k (committed_record now q x) ≡ units_of k x
committed_units k now q x = elim (Bool-cases (x.sku == k)) [
  | inl t ↦ rw t (omega int_laws)
  | inr t ↦ rw t
]

module _ (db : Database) (k : Text) (n : ℤ) where
  append_movement-Keeps : (m : InventoryMovement) → Keeps (HasUnits k n) (append_movement db m)
  unfolding append_movement
  append_movement-Keeps m = record { at = λ s l. ground arith }

  publish-Keeps : (e : InventoryEventEnvelope) → Keeps (HasUnits k n) (publish db e)
  unfolding publish
  publish-Keeps e = record { at = λ s l. ground arith }

  find_by_sku-Keeps : (sku : Text) → Keeps (HasUnits k n) (find_by_sku db sku)
  find_by_sku-Keeps sku = Keeps-read _ _ (λ s. find_by_sku_lem db s sku)

  find_by_key-Keeps : (key : Text) → Keeps (HasUnits k n) (find_reservation_by_key db key)
  find_by_key-Keeps key = Keeps-read _ _ (λ s. find_reservation_by_key_lem db s key)

  find_by_id-Keeps : (id : Text) → Keeps (HasUnits k n) (find_reservation_by_id db id)
  find_by_id-Keeps id = Keeps-read _ _ (λ s. find_reservation_by_id_lem db s id)

  find_active_expired-Keeps :
      (now limit : ℕ) → Keeps (HasUnits k n) (find_active_expired db now limit)
  unfolding find_active_expired
  find_active_expired-Keeps now limit = record { at = λ s l. l }

  reserve_stock-Keeps :
      (now : ℕ) (sku : Text) (q : ℤ) → Keeps (HasUnits k n) (reserve_stock db now sku q)
  reserve_stock-Keeps now sku q = record {
    at = λ s l.
        rw (reserve_stock_lem db s now sku q)
          (same_units k (can_reserve sku q) (reserved_record now q) s.inventories (λ x. refl) ∙ l);
  }

  release_stock-Keeps :
      (now : ℕ) (sku : Text) (q : ℤ) → Keeps (HasUnits k n) (release_stock db now sku q)
  release_stock-Keeps now sku q = record {
    at = λ s l.
        rw (release_stock_lem db s now sku q)
          (same_units k (can_release sku q) (released_record now q) s.inventories (λ x. refl) ∙ l);
  }

  commit_stock-Keeps :
      (now : ℕ) (sku : Text) (q : ℤ) → Keeps (HasUnits k n) (commit_stock db now sku q)
  commit_stock-Keeps now sku q = record {
    at = λ s l. rw (commit_stock_lem db s now sku q) (
        same_units k (can_release sku q) (committed_record now q) s.inventories
          (committed_units k now q)
        ∙ l);
  }

  create_reservation-Keeps : (r : Reservation) → Keeps (HasUnits k n) (create_reservation db r)
  create_reservation-Keeps r = record {
    at = λ s l. elim (create_reservation_cases db s r) [
      | inl (e, stored) ↦ rw stored l
      | inr (fresh, stored) ↦ rw stored l
    ];
  }

  transition-Keeps :
      (now : ℕ) (id : Text) (from : List ReservationStatus) (to : ReservationStatus)
      → Keeps (HasUnits k n) (transition db now id from to)
  transition-Keeps now id from to = record { at = λ s l. rw (transition_lem db s now id from to) l }

  ruleset repository_rules = (
    keeps_rules, append_movement-Keeps, publish-Keeps, find_by_sku-Keeps, find_by_key-Keeps,
    find_by_id-Keeps, reserve_stock-Keeps, release_stock-Keeps, commit_stock-Keeps,
    create_reservation-Keeps, transition-Keeps,
  )

  replay_reservation-Keeps :
      (sku : Text) (input : ReserveInput) (fallback : Inventory) (prior : Reservation)
      → Keeps (HasUnits k n) (replay_reservation db sku input fallback prior)
  unfolding replay_reservation
  replay_reservation-Keeps sku input fallback prior = search repository_rules

  replay_winner-Keeps :
      (sku : Text) (input : ReserveInput) (after : Inventory) (e : Error)
      → Keeps (HasUnits k n) (replay_winner db sku input after e)
  unfolding replay_winner
  replay_winner-Keeps sku input after e = search (repository_rules, replay_reservation-Keeps)

  recover_reservation-Keeps :
      (c : Request) (sku : Text) (input : ReserveInput) (after : Inventory) (e : Error)
      → Keeps (HasUnits k n) (recover_reservation db c sku input after e)
  unfolding recover_reservation
  recover_reservation-Keeps c sku input after e = search (repository_rules, replay_winner-Keeps)

  record_reservation-Keeps :
      (c : Request) (actor : InventoryActor) (r : Reservation) (after : Inventory)
      → Keeps (HasUnits k n) (record_reservation db c actor r after)
  unfolding record_reservation emit
  record_reservation-Keeps c actor r after = search repository_rules

  reserve_new-Keeps :
      (c : Request) (sku : Text) (input : ReserveInput) (actor : InventoryActor) (r : Inventory)
      → Keeps (HasUnits k n) (reserve_new db c sku input actor r)
  unfolding reserve_new hold_taken
  reserve_new-Keeps c sku input actor r = Keeps-bind _ _ (reserve_stock-Keeps _ _ _) λ taken.
      Keeps-bind _ _ (Keeps-or_raise taken _) λ after.
        Keeps-bind _ _ (Keeps-attempt _ (create_reservation-Keeps _)) (elim [
          | ok _ ↦ record_reservation-Keeps c actor _ after
          | err e ↦ recover_reservation-Keeps c sku input after e
        ])

  pub reserve-Keeps :
      (c : Request) (input : ReserveInput) (actor : InventoryActor)
      → Keeps (HasUnits k n) (reserve db c input actor)
  unfolding reserve reserve_checked reserve_found
  reserve-Keeps c input actor = Keeps-bind _ _ (Keeps-require _ _) λ _.
      Keeps-bind _ _ (Keeps-require _ _) λ _. Keeps-bind _ _ (find_by_sku-Keeps _) λ found.
        Keeps-bind _ _ (Keeps-or_raise found _) λ r. Keeps-bind _ _ (find_by_key-Keeps _) (elim [
          | none ↦ reserve_new-Keeps c _ input actor r
          | some prior ↦ replay_reservation-Keeps _ input r prior
        ])

  replay_release-Keeps :
      (c : Request) (r : Reservation) → Keeps (HasUnits k n) (replay_release db c r)
  unfolding replay_release
  replay_release-Keeps c r = search repository_rules

  replay_confirm-Keeps :
      (c : Request) (r : Reservation) → Keeps (HasUnits k n) (replay_confirm db c r)
  unfolding replay_confirm
  replay_confirm-Keeps c r = search (repository_rules, replay_release-Keeps)

  return_stock-Keeps :
      (c : Request) (actor : InventoryActor) (as_expired : Bool) (reason : Option Text)
      (existing transitioned : Reservation)
      → Keeps (HasUnits k n) (return_stock db c actor as_expired reason existing transitioned)
  unfolding return_stock record_release emit
  return_stock-Keeps c actor as_expired reason existing transitioned =
      search repository_rules depth 8

  commit_reservation-Keeps :
      (c : Request) (actor : InventoryActor) (existing transitioned : Reservation)
      → Keeps (HasUnits k n) (commit_reservation db c actor existing transitioned)
  unfolding commit_reservation record_commit emit
  commit_reservation-Keeps c actor existing transitioned = search repository_rules depth 8

  pub release-Keeps :
      (c : Request) (id : Text) (actor : InventoryActor) (as_expired : Bool) (reason : Option Text)
      → Keeps (HasUnits k n) (release db c id actor as_expired reason)
  unfolding release release_active
  release-Keeps c id actor as_expired reason = Keeps-bind _ _ (find_by_id-Keeps id) λ found.
      Keeps-bind _ _ (Keeps-or_raise found _) λ existing.
        Keeps-if _ _ _ (replay_release-Keeps c existing) (
          Keeps-bind _ _ (Keeps-require _ _) λ _. Keeps-bind _ _ (transition-Keeps _ _ _ _) (elim [
            | none ↦ Keeps-bind _ _ (find_by_id-Keeps id) λ again.
                Keeps-bind _ _ (Keeps-or_raise again _) λ current. replay_release-Keeps c current
            | some moved ↦ return_stock-Keeps c actor as_expired reason existing moved
          ]))

  pub confirm-Keeps :
      (c : Request) (id : Text) (actor : InventoryActor)
      → Keeps (HasUnits k n) (confirm db c id actor)
  unfolding confirm confirm_active
  confirm-Keeps c id actor = Keeps-bind _ _ (find_by_id-Keeps id) λ found.
      Keeps-bind _ _ (Keeps-or_raise found _) λ existing.
        Keeps-if _ _ _ (replay_confirm-Keeps c existing) (
          Keeps-bind _ _ (transition-Keeps _ _ _ _) (elim [
            | none ↦ Keeps-bind _ _ (find_by_id-Keeps id) λ again.
                Keeps-bind _ _ (Keeps-or_raise again _) λ current. replay_confirm-Keeps c current
            | some moved ↦ commit_reservation-Keeps c actor existing moved
          ]))

  expire_each-Keeps :
      (c : ℕ → Request) (actor : InventoryActor) (due : List Reservation) (done failed : ℕ)
      → Keeps (HasUnits k n) (expire_each db c actor due done failed)
  unfolding expire_each
  expire_each-Keeps c actor [] done failed = Keeps-pure _
  expire_each-Keeps c actor (r ∷ due) done failed =
      Keeps-bind _ _ (Keeps-attempt _ (release-Keeps (c (length due)) r.id actor Bool.true none))
        (λ outcome. expire_each-Keeps c actor due _ _)

  pub expire_reservations-Keeps :
      (c : ℕ → Request) (now : ℕ) (limit : Option ℕ) (actor : InventoryActor)
      → Keeps (HasUnits k n) (expire_reservations db c now limit actor)
  unfolding expire_reservations
  expire_reservations-Keeps c now limit actor =
      Keeps-bind _ _ (find_active_expired-Keeps now _)
        λ due. Keeps-bind _ _ (expire_each-Keeps c actor due 0 0) λ counts. Keeps-pure _

-- Reserving, releasing, confirming and the expiry sweep lose no unit of any SKU and make none up,
-- whether they succeed or raise: the units on hand and those sold have the same sum before and after.
pub units-conserved :
    (db : Database) (sku : Text) (s : Store) (actor : InventoryActor)
    → ((c : Request) (input : ReserveInput)
        → units sku (reserve db c input actor s).1 ≡ units sku s)
      × ((c : Request) (id : Text) (as_expired : Bool) (reason : Option Text)
          → units sku (release db c id actor as_expired reason s).1 ≡ units sku s)
      × ((c : Request) (id : Text) → units sku (confirm db c id actor s).1 ≡ units sku s)
      × ((c : ℕ → Request) (now : ℕ) (limit : Option ℕ)
          → units sku (expire_reservations db c now limit actor s).1 ≡ units sku s)
units-conserved db sku s actor = (
  λ c input. (reserve-Keeps db sku (units sku s) c input actor).at s refl,
  λ c id as_expired reason.
      (release-Keeps db sku (units sku s) c id actor as_expired reason).at s refl,
  λ c id. (confirm-Keeps db sku (units sku s) c id actor).at s refl,
  λ c now limit. (expire_reservations-Keeps db sku (units sku s) c now limit actor).at s refl,
)

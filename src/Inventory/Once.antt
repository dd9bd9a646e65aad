-- ===== src/Inventory/Once.antt =====
-- Settling a reservation repeatedly: release and confirm of
-- src/modules/inventory/application/InventoryService.ts.
use rest_ecommerce_api.Prelude.Text.{Text, ◌==◌}
use rest_ecommerce_api.Prelude.{
  ℕ, ◌≡◌, refl, sym, ◌∙◌, inl, inr, Bool, true, false, Option, none, some, List, [], ◌∷◌, arith,
  first, any, modify_first, Bool-cases, Option-cases,
}
use rest_ecommerce_api.Prelude.Updates.{first-holds, first-modify_first}
use rest_ecommerce_api.Errors.{require}
use rest_ecommerce_api.Errors.Rules.{
  Keeps, Keeps-bind, Keeps-pure, Keeps-raise, Keeps-read, Keeps-if, keeps_rules, bind_ok, bind_none,
  bind_some,
}
use rest_ecommerce_api.Inventory.Entity.{
  InventoryMovement, Reservation, ReservationStatus, active, released, expired, confirmed,
  status_eq, can_transition_reservation,
}
use rest_ecommerce_api.Inventory.Events.{InventoryEventEnvelope, Request}
use rest_ecommerce_api.Inventory.View.{InventoryActor}
use rest_ecommerce_api.Inventory.Repository.{
  Store, Database, has_status_in, moved_reservation, append_movement, publish,
}
use rest_ecommerce_api.Inventory.Laws.{
  find_by_sku_lem, find_reservation_by_id_lem, release_stock_lem, commit_stock_lem, transition_lem,
}
use rest_ecommerce_api.Inventory.Settling.{active_is_moved}
use rest_ecommerce_api.Inventory.Service.{emit}
use rest_ecommerce_api.Inventory.Reserving.{
  record_release, record_commit, return_stock, replay_release, release_active, release,
  commit_reservation, replay_confirm, confirm_active, confirm,
}

unfoldable pub found_open : Option Reservation → Bool
found_open none = false
found_open (some r) = status_eq r.status active

-- Whether the reservation that the identifier finds is active.
unfoldable pub is_open : Text → List Reservation → Bool
unfolding first
is_open id rs = found_open (first (λ r. r.id == id) rs)

abbrev pub IsSettled : Text → Store → Type 0
IsSettled id s = is_open id s.reservations ≡ false

-- The reservation that was moved is the one that the identifier finds.
moved-IsSettled :
    (now : ℕ) (id : Text) (to : ReservationStatus) (rs : List Reservation) (r : Reservation)
    → first (λ x. x.id == id) rs ≡ some r
    → status_eq r.status active ≡ true
    → status_eq to active ≡ false
    → is_open id (modify_first (has_status_in id (active ∷ [])) (moved_reservation now to) rs)
      ≡ false
unfolding is_open found_open any
moved-IsSettled now id to rs r e a t =
    let mine : (r.id == id) ≡ true = first-holds (λ x. x.id == id) rs r e in
    rw
      (first-modify_first (λ x. x.id == id) (has_status_in id (active ∷ []))
        (moved_reservation now to) rs r e (active_is_moved id rs r e a) (λ x y. ground (arith, y))
        mine)
      t

module _ (db : Database) (id : Text) where
  pub append_movement-IsSettled :
      (m : InventoryMovement) → Keeps (IsSettled id) (append_movement db m)
  unfolding append_movement
  append_movement-IsSettled m = record { at = λ s h. ground arith }

  pub publish-IsSettled : (e : InventoryEventEnvelope) → Keeps (IsSettled id) (publish db e)
  unfolding publish
  publish-IsSettled e = record { at = λ s h. ground arith }

  pub return_stock-IsSettled :
      (c : Request) (actor : InventoryActor) (as_expired : Bool) (reason : Option Text)
      (existing transitioned : Reservation)
      → Keeps (IsSettled id) (return_stock db c actor as_expired reason existing transitioned)
  unfolding return_stock record_release emit
  return_stock-IsSettled c actor as_expired reason existing transitioned =
      Keeps-bind _ _
        (record { at = λ s h. rw (release_stock_lem db s c.now existing.sku existing.quantity) h })
        (λ freed. search (keeps_rules, append_movement-IsSettled, publish-IsSettled))

  commit_reservation-IsSettled :
      (c : Request) (actor : InventoryActor) (existing transitioned : Reservation)
      → Keeps (IsSettled id) (commit_reservation db c actor existing transitioned)
  unfolding commit_reservation record_commit emit
  commit_reservation-IsSettled c actor existing transitioned =
      Keeps-bind _ _
        (record { at = λ s h. rw (commit_stock_lem db s c.now existing.sku existing.quantity) h })
        (λ taken. search (keeps_rules, append_movement-IsSettled, publish-IsSettled))

module _ {Q : Store → Type 0} (db : Database) (c : Request) (r : Reservation) where
  -- A replay only reads.
  pub replay_release-reads : Keeps Q (replay_release db c r)
  unfolding replay_release
  replay_release-reads =
      Keeps-bind _ _ (Keeps-read _ _ (λ s. find_by_sku_lem db s r.sku)) (λ found. Keeps-pure _)

  replay_confirm-reads : Keeps Q (replay_confirm db c r)
  unfolding replay_confirm
  replay_confirm-reads = Keeps-if _ _ _ replay_release-reads (Keeps-raise _)

module _ (db : Database) (id : Text) (actor : InventoryActor) where
  release_active-IsSettled :
      (c : Request) (as_expired : Bool) (reason : Option Text) (s : Store) (r : Reservation)
      → first (λ x. x.id == id) s.reservations ≡ some r
      → status_eq r.status active ≡ true
      → IsSettled id (release_active db c id actor as_expired reason r s).1
  unfolding release_active can_transition_reservation require
  release_active-IsSettled c true reason s r e a =
      rw
        (
          bind_ok _ _ s refl,
          bind_ok _ _ s (transition_lem db s c.now id (active ∷ []) expired),
          active_is_moved id s.reservations r e a,
        )
        ((return_stock-IsSettled db id c actor true reason r _).at _
          (moved-IsSettled c.now id expired s.reservations r e a refl))
  release_active-IsSettled c false reason s r e a =
      rw
        (
          bind_ok _ _ s refl,
          bind_ok _ _ s (transition_lem db s c.now id (active ∷ []) released),
          active_is_moved id s.reservations r e a,
        )
        ((return_stock-IsSettled db id c actor false reason r _).at _
          (moved-IsSettled c.now id released s.reservations r e a refl))

  confirm_active-IsSettled :
      (c : Request) (s : Store) (r : Reservation)
      → first (λ x. x.id == id) s.reservations ≡ some r
      → status_eq r.status active ≡ true
      → IsSettled id (confirm_active db c id actor r s).1
  unfolding confirm_active
  confirm_active-IsSettled c s r e a =
      rw
        (
          bind_ok _ _ s (transition_lem db s c.now id (active ∷ []) confirmed),
          active_is_moved id s.reservations r e a,
        )
        ((commit_reservation-IsSettled db id c actor r _).at _
          (moved-IsSettled c.now id confirmed s.reservations r e a refl))

  is_open-found :
      (s : Store) (r : Reservation)
      → first (λ x. x.id == id) s.reservations ≡ some r
      → is_open id s.reservations ≡ status_eq r.status active
  unfolding is_open found_open
  is_open-found s r e = rw e refl

  is_open-missing : (s : Store) → first (λ x. x.id == id) s.reservations ≡ none → IsSettled id s
  unfolding is_open found_open
  is_open-missing s e = rw e refl

  pub release-IsSettled :
      (c : Request) (as_expired : Bool) (reason : Option Text) (s : Store)
      → IsSettled id (release db c id actor as_expired reason s).1
  unfolding release
  release-IsSettled c as_expired reason s =
      rw (bind_ok _ _ s (find_reservation_by_id_lem db s id))
        (elim (Option-cases (first (λ r. r.id == id) s.reservations)) [
          | inl e ↦ rw (e, bind_none) (is_open-missing s e)
          | inr (r, e) ↦
              rw (e, bind_some)
                (elim (Bool-cases (status_eq r.status active)) [
                  | inl a ↦ rw a (release_active-IsSettled c as_expired reason s r e a)
                  | inr a ↦ rw a (
                      (replay_release-reads {Q = IsSettled id} db c r).at s
                        (is_open-found s r e ∙ a))
                ])
        ])

  confirm-IsSettled : (c : Request) (s : Store) → IsSettled id (confirm db c id actor s).1
  unfolding confirm
  confirm-IsSettled c s =
      rw (bind_ok _ _ s (find_reservation_by_id_lem db s id))
        (elim (Option-cases (first (λ r. r.id == id) s.reservations)) [
          | inl e ↦ rw (e, bind_none) (is_open-missing s e)
          | inr (r, e) ↦
              rw (e, bind_some)
                (elim (Bool-cases (status_eq r.status active)) [
                  | inl a ↦ rw a (confirm_active-IsSettled c s r e a)
                  | inr a ↦ rw a (
                      (replay_confirm-reads {Q = IsSettled id} db c r).at s
                        (is_open-found s r e ∙ a))
                ])
        ])

  release-settled :
      (c : Request) (as_expired : Bool) (reason : Option Text) (s : Store)
      → IsSettled id s
      → (release db c id actor as_expired reason s).1 ≡ s
  unfolding release
  release-settled c as_expired reason s h =
      rw (bind_ok _ _ s (find_reservation_by_id_lem db s id))
        (elim (Option-cases (first (λ r. r.id == id) s.reservations)) [
          | inl e ↦ rw (e, bind_none) refl
          | inr (r, e) ↦
              let a : status_eq r.status active ≡ false = sym (is_open-found s r e) ∙ h in
              rw (e, bind_some, a) ((replay_release-reads {Q = λ x. x ≡ s} db c r).at s refl)
        ])

  confirm-settled : (c : Request) (s : Store) → IsSettled id s → (confirm db c id actor s).1 ≡ s
  unfolding confirm
  confirm-settled c s h =
      rw (bind_ok _ _ s (find_reservation_by_id_lem db s id))
        (elim (Option-cases (first (λ r. r.id == id) s.reservations)) [
          | inl e ↦ rw (e, bind_none) refl
          | inr (r, e) ↦
              let a : status_eq r.status active ≡ false = sym (is_open-found s r e) ∙ h in
              rw (e, bind_some, a) ((replay_confirm-reads {Q = λ x. x ≡ s} db c r).at s refl)
        ])

-- The two ways to settle a reservation, with what the calls bring: each has its own actor.
pub data Settlement : Type 0 where
  releasing : Request → InventoryActor → Bool → Option Text → Settlement
  confirming : Request → InventoryActor → Settlement

module _ (db : Database) (id : Text) where
  -- The store behind a settlement, whether it succeeded or raised.
  unfoldable pub settle : Settlement → Store → Store
  settle (releasing c actor as_expired reason) s = (release db c id actor as_expired reason s).1
  settle (confirming c actor) s = (confirm db c id actor s).1

  -- Behind a settlement the reservation is not active, whatever the outcome.
  settle-IsSettled : (call : Settlement) (s : Store) → IsSettled id (settle call s)
  unfolding settle
  settle-IsSettled (releasing c actor as_expired reason) s =
      release-IsSettled db id actor c as_expired reason s
  settle-IsSettled (confirming c actor) s = confirm-IsSettled db id actor c s

  -- A settlement of a reservation that is not active changes nothing.
  settle-settled : (call : Settlement) (s : Store) → IsSettled id s → settle call s ≡ s
  unfolding settle
  settle-settled (releasing c actor as_expired reason) s h =
      release-settled db id actor c as_expired reason s h
  settle-settled (confirming c actor) s h = confirm-settled db id actor c s h

  -- A reservation is settled at most once: of two settlements, each a release, an expiry or a
  -- confirmation, each by any actor, successful or not, the second changes nothing in the store, so
  -- that its stock is neither returned nor sold twice.
  pub settle-settle :
      (call again : Settlement) (s : Store) → settle again (settle call s) ≡ settle call s
  settle-settle call again s = settle-settled again (settle call s) (settle-IsSettled call s)

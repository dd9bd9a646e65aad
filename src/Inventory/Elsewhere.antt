-- ===== src/Inventory/Elsewhere.antt =====
-- The release of one reservation, of src/modules/inventory/application/InventoryService.ts, and
-- another reservation.
use rest_ecommerce_api.Prelude.Text.{Text, ◌==◌}
use rest_ecommerce_api.Prelude.{
  ℕ, ◌≡◌, refl, inl, inr, Bool, true, false, not, Option, none, some, [], ◌∷◌, first, Option-cases,
  if◌then◌else◌,
}
use rest_ecommerce_api.Prelude.Replacing.{modify_first-misses, first-modify_first_cases}
use rest_ecommerce_api.Errors.Rules.{
  Keeps, Keeps-bind, Keeps-read, Keeps-if, Keeps-or_raise, Keeps-require,
}
use rest_ecommerce_api.Inventory.Entity.{
  Reservation, ReservationStatus, active, released, expired, status_eq,
}
use rest_ecommerce_api.Inventory.Events.{Request}
use rest_ecommerce_api.Inventory.View.{InventoryActor}
use rest_ecommerce_api.Inventory.Repository.{Database, has_status_in, moved_reservation, transition}
use rest_ecommerce_api.Inventory.Laws.{find_reservation_by_id_lem, transition_lem}
use rest_ecommerce_api.Inventory.Once.{
  is_open, found_open, IsSettled, return_stock-IsSettled, replay_release-reads,
}
use rest_ecommerce_api.Inventory.Reserving.{release, release_active}

module _ (db : Database) (id : Text) where
  transition-IsSettled :
      (now : ℕ) (other : Text) (to : ReservationStatus)
      → status_eq to active ≡ false
      → Keeps (IsSettled id) (transition db now other (active ∷ []) to)
  unfolding is_open found_open
  transition-IsSettled now other to t = record {
    at = λ s h.
        let moved = moved_reservation now to in
        let passes = has_status_in other (active ∷ []) in
        rw (transition_lem db s now other (active ∷ []) to)
          (elim (Option-cases (first (λ r. r.id == id) s.reservations)) [
            | inl n ↦
                rw (modify_first-misses (λ r. r.id == id) passes moved s.reservations (λ x. refl) n)
                  refl
            | inr (r, n) ↦
                elim (first-modify_first_cases (λ r. r.id == id) passes moved s.reservations r
                  (λ x. refl) n) [ inl k ↦ rw k (rw n at h) | inr (p, k) ↦ rw k t ]
          ]);
  }

  release_active_elsewhere :
      (c : Request) (other : Text) (actor : InventoryActor) (as_expired : Bool)
      (reason : Option Text) (r : Reservation)
      → Keeps (IsSettled id) (release_active db c other actor as_expired reason r)
  unfolding release_active
  release_active_elsewhere c other actor as_expired reason r =
      Keeps-bind _ _ (Keeps-require _ _) λ _. Keeps-bind _ _ (moves as_expired) (elim [
        | some moved ↦ return_stock-IsSettled db id c actor as_expired reason r moved
        | none ↦
            Keeps-bind _ _ (Keeps-read _ _ (λ s. find_reservation_by_id_lem db s other)) λ again.
              Keeps-bind _ _ (Keeps-or_raise again _) λ current. replay_release-reads db c current
      ])
    where
      moves :
          (b : Bool)
          → Keeps
              (IsSettled id)
              (transition db c.now other (active ∷ []) (if b then expired else released))
      moves true = transition-IsSettled c.now other expired refl
      moves false = transition-IsSettled c.now other released refl

  -- Releasing some reservation opens no other one.
  pub elsewhere-IsSettled :
      (c : Request) (other : Text) (actor : InventoryActor) (as_expired : Bool)
      (reason : Option Text)
      → Keeps (IsSettled id) (release db c other actor as_expired reason)
  unfolding release
  elsewhere-IsSettled c other actor as_expired reason =
      Keeps-bind _ _ (Keeps-read _ _ (λ s. find_reservation_by_id_lem db s other)) λ found.
        Keeps-bind _ _ (Keeps-or_raise found _) λ r.
          Keeps-if (not (status_eq r.status active)) _ _ (replay_release-reads db c r)
            (release_active_elsewhere c other actor as_expired reason r)

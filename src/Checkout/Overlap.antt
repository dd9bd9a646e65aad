-- ===== src/Checkout/Overlap.antt =====
-- A round of the sweep and `completeCheckout` of src/modules/checkout/application/CheckoutService.ts
-- on one checkout, the second between the two steps of the first.
use rest_ecommerce_api.Prelude.Text.{Text, eq_refl}
use rest_ecommerce_api.Prelude.{
  ℕ, ◌≡◌, refl, sym, ap, subst, ◌∙◌, inl, inr, true, false, Option, some, List, [], ◌∷◌, first, any,
  arith, none,
}
use rest_ecommerce_api.Prelude.Replacing.{first-modify_first_cases}
use rest_ecommerce_api.Mongo.{Collection}
use rest_ecommerce_api.Errors.{Action, ok, pure}
use rest_ecommerce_api.Errors.Rules.{bind_ok, bind_some}
use rest_ecommerce_api.Checkout.Entity.{
  Checkout, CheckoutReservationRef, ready, expired, is_in, active_checkout_statuses,
}
use rest_ecommerce_api.Checkout.Ports.{Ports, IsReleasing}
use rest_ecommerce_api.Checkout.Repository.{
  Store, has_id, has_version, can_transition, moved_checkout, completed_checkout, update,
  transition, mark_completed,
}
use rest_ecommerce_api.Checkout.Checking.{Request}
use rest_ecommerce_api.Checkout.Service.{complete, compensate}
use rest_ecommerce_api.Checkout.Reserving.{expire_round, others}
use rest_ecommerce_api.Checkout.Laws.{
  update_lem, update_ok, compensate_lem, update_stored, compensate-Keeps,
}
use rest_ecommerce_api.Checkout.Releasing.{AreFreed, compensate-AreFreed}

module _ {World : Type 0} (db : Collection Checkout) (ports : Ports World)
    (laws : IsReleasing ports) where
  -- A checkout that is not active is not moved by the sweep.
  expiring-keeps_ended :
      (now : ℕ) (c : Checkout) (s : Store World)
      → first (has_id c.id) s.checkouts ≡ some c
      → is_in c.status active_checkout_statuses ≡ false
      → first
          (has_id c.id)
          (transition db now c.id active_checkout_statuses expired none s).1.checkouts
        ≡ some c
  unfolding transition
  expiring-keeps_ended now c s e t =
      let passes = can_transition c.id active_checkout_statuses none in
      rw (update_lem db s passes (moved_checkout now expired))
        (elim (first-modify_first_cases (has_id c.id) passes (moved_checkout now expired)
          s.checkouts c (λ x. refl) e) [ inl k ↦ k | inr (p, k) ↦ absurd (ground (arith, p, t)) ])

  completing-AreFreed :
      (refs : List CheckoutReservationRef) (now : ℕ) (id order : Text) (version : Option ℕ)
      (s : Store World)
      → AreFreed db ports laws refs s
      → AreFreed db ports laws refs (mark_completed db now id order version s).1
  unfolding mark_completed update
  completing-AreFreed refs now id order version s h = h

  sweeping-AreFreed :
      (refs : List CheckoutReservationRef) (now : ℕ) (id : Text) (s : Store World)
      → AreFreed db ports laws refs s
      → AreFreed db ports laws refs (transition db now id active_checkout_statuses expired none s).1
  unfolding transition update
  sweeping-AreFreed refs now id s h = h

  -- A round of the sweep, one step at a time.
  expire_round_lem :
      (between : Store World → Store World) (now : ℕ) (c : Checkout) (s : Store World)
      → (expire_round db ports between now c s).1
        ≡ (transition db now c.id active_checkout_statuses expired none
            (between (compensate db ports c.reservations s).1)).1
  unfolding expire_round transition pure
  expire_round_lem between now c s =
      let freed = (compensate db ports c.reservations s).1 in
      let passes = can_transition c.id active_checkout_statuses none in
      rw (bind_ok _ _ s (compensate_lem db ports c.reservations s)) (
        rw (bind_ok (others between) _ freed refl) (
          rw
            (bind_ok _ _ (between freed)
              (update_ok db (between freed) passes (moved_checkout now expired)).1)
            refl))

  -- A round of the sweep gives the reservations back and only then moves the checkout. Where an
  -- order completes the checkout between these steps, it succeeds, whether or not the checkout has
  -- expired: the round does not move it, the checkout ends completed, and none of its reservations
  -- holds stock. The checkout is stored, ready, and of the version that the order names, if any.
  pub complete-AreFreed :
      (request : Request) (order : Text) (version : Option ℕ) (now : ℕ) (c : Checkout)
      (s : Store World)
      → first (has_id c.id) s.checkouts ≡ some c
      → c.status ≡ ready
      → has_version version c ≡ true
      → let completing : Action (Store World) (Unit {0}) =
          complete db ports request c.id order version in
        let end : Store World = (expire_round db ports (λ t. (completing t).1) now c s).1 in
        ((completing (compensate db ports c.reservations s).1).0 ≡ ok tt)
        × (first (has_id c.id) end.checkouts ≡ some (completed_checkout request.now order c))
        × AreFreed db ports laws c.reservations end
  unfolding complete mark_completed is_in any pure
  complete-AreFreed request order version now c s e t v =
      let freed = (compensate db ports c.reservations s).1 in
      let kept =
        (compensate-Keeps (λ cs. first (has_id c.id) cs ≡ some c) db ports c.reservations).at s e in
      let passes = can_transition c.id (ready ∷ []) version in
      let (completes, stored) =
        update_stored db freed passes (completed_checkout request.now order) c
          (λ x p. ground (arith, p)) (ground (arith, t, v, eq_refl c.id)) refl kept in
      let between = (update db passes (completed_checkout request.now order) freed).1 in
      let done = bind_ok _ _ freed completes ∙ bind_some _ _ _ between in
      let same =
        expire_round_lem (λ x. (complete db ports request c.id order version x).1) now c s
        ∙ ap (λ x. (transition db now c.id active_checkout_statuses expired none x).1)
            (ap (λ r. r.1) done) in
      let given_back =
        completing-AreFreed c.reservations request.now c.id order version freed
          (compensate-AreFreed db ports laws c.reservations s) in
      (
        ap (λ r. r.0) done,
        ap (λ x. first (has_id c.id) x.checkouts) same
            ∙ expiring-keeps_ended now (completed_checkout request.now order c) between stored refl,
        subst (λ x. AreFreed db ports laws c.reservations x) (sym same)
            (sweeping-AreFreed c.reservations now c.id between given_back),
      )

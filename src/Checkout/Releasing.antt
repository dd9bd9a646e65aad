-- ===== src/Checkout/Releasing.antt =====
-- The reservations that src/modules/checkout/application/CheckoutService.ts gives back, and those
-- that it keeps: `compensate`, `cancelCheckout` and the loop of `reserveCheckout`.
use rest_ecommerce_api.Prelude.Text.{Text}
use rest_ecommerce_api.Prelude.{◌≡◌, sym, subst, false, List, [], ◌∷◌, All}
use rest_ecommerce_api.Mongo.{Collection}
use rest_ecommerce_api.Errors.Rules.{Keeps, Keeps-bind, Keeps-pure, Keeps-attempt}
use rest_ecommerce_api.Checkout.Entity.{Checkout, CheckoutReservationRef}
use rest_ecommerce_api.Checkout.Ports.{Ports, IsReleasing}
use rest_ecommerce_api.Checkout.Repository.{Store, with_world}
use rest_ecommerce_api.Checkout.Service.{compensate}
use rest_ecommerce_api.Checkout.Laws.{compensate_cons}

module _ {World : Type 0} (db : Collection Checkout) (ports : Ports World)
    (laws : IsReleasing ports) where
  -- None of the reservations holds stock any more.
  abbrev pub AreFreed : List CheckoutReservationRef → Store World → Type 0
  AreFreed refs s = All (λ ref. laws.is_held ref.reservation_id s.world ≡ false) refs

  compensate-freed :
      (id : Text) (refs : List CheckoutReservationRef)
      → Keeps (λ s. laws.is_held id s.world ≡ false) (compensate db ports refs)
  unfolding compensate with_world
  compensate-freed id [] = Keeps-pure tt
  compensate-freed id (ref ∷ refs) =
      Keeps-bind _ _
        (Keeps-attempt _
          (record { at = λ s h. laws.release-keeps id ref.reservation_id s.world h }))
        (λ _. compensate-freed id refs)

  -- Releasing some takes up no other.
  pub freeing-AreFreed :
      (others refs : List CheckoutReservationRef)
      → Keeps (AreFreed others) (compensate db ports refs)
  freeing-AreFreed [] refs = record { at = λ s h. h }
  freeing-AreFreed (other ∷ others) refs = record {
    at = λ s h. (
      (compensate-freed other.reservation_id refs).at s h.0,
      (freeing-AreFreed others refs).at s h.1,
    );
  }

  pub compensate-AreFreed :
      (refs : List CheckoutReservationRef) (s : Store World)
      → AreFreed refs (compensate db ports refs s).1
  unfolding with_world
  compensate-AreFreed [] s = tt
  compensate-AreFreed (ref ∷ refs) s =
      let next = (with_world (ports.release ref.reservation_id) s).1 in
      let gone = laws.release-held ref.reservation_id s.world in
      subst (λ x. AreFreed (ref ∷ refs) x.1) (sym (compensate_cons db ports ref refs s))
        ((compensate-freed ref.reservation_id refs).at next gone, compensate-AreFreed refs next)

-- ===== src/Checkout/Effects.antt =====
-- What the calls of src/modules/checkout/application/CheckoutService.ts do to a stored checkout.
use rest_ecommerce_api.Prelude.Text.{Text, text}
use rest_ecommerce_api.Prelude.{
  ℕ, ◌≡◌, refl, true, not, leb, length, Option, none, some, List, [], ◌∷◌, first,
}
use rest_ecommerce_api.Mongo.{Collection}
use rest_ecommerce_api.Errors.{Error, Action, ok, err, raise, ◌>>◌}
use rest_ecommerce_api.Errors.Rules.{
  Keeps, Keeps-bind, Keeps-pure, Keeps-raise, Keeps-or_raise, Keeps-attempt, Keeps-if,
  Keeps-require, bind_leads,
}
use rest_ecommerce_api.Checkout.Entity.{
  Checkout, CheckoutItem, CheckoutReservationRef, reserved, ready, failed,
  can_transition_checkout_status,
}
use rest_ecommerce_api.Checkout.Ports.{Ports, CheckoutCartItem, CheckoutCartSnapshot}
use rest_ecommerce_api.Checkout.Repository.{Store, has_id, mark_failed, can_change, failed_checkout}
use rest_ecommerce_api.Checkout.Checking.{
  CheckoutIssue, CheckoutView, IssueCode, cart_empty, cart_changed, same_item_set, build_items,
  check_items, compare_cart, revalidate,
}
use rest_ecommerce_api.Checkout.Service.{compensate}
use rest_ecommerce_api.Checkout.Reserving.{
  reserve_items, undo, make_ready, keep_reservations, give_up, reserve_stock,
}
use rest_ecommerce_api.Checkout.Laws.{On, with_world-Keeps, compensate-Keeps, moved_raise}
use rest_ecommerce_api.Checkout.Follows.{
  Follows, step-Keeps, set_reservations-Keeps, failed-Follows,
}

-- Reading the cart and the catalog changes no checkout.
module _ {World : Type 0} (P : List Checkout → Type 0) (ports : Ports World) where
  pub build_items-Keeps :
      (items : List CheckoutCartItem) → Keeps (On {World = World} P) (build_items ports items)
  unfolding build_items
  build_items-Keeps [] = Keeps-pure []
  build_items-Keeps (item ∷ items) =
      Keeps-bind _ _ (with_world-Keeps P (ports.get_line item.sku)) λ found.
        Keeps-bind _ _ (Keeps-or_raise found _) λ line. Keeps-bind _ _ (Keeps-require _ _) λ _.
          Keeps-bind _ _ (Keeps-require _ _)
            λ _. Keeps-bind _ _ (build_items-Keeps items) λ rest. Keeps-pure _

  check_items-Keeps :
      (items : List CheckoutItem) → Keeps (On {World = World} P) (check_items ports items)
  unfolding check_items
  check_items-Keeps [] = Keeps-pure []
  check_items-Keeps (item ∷ items) =
      Keeps-bind _ _ (with_world-Keeps P (ports.get_line item.sku))
        λ line. Keeps-bind _ _ (check_items-Keeps items) λ issues. Keeps-pure _

  compare_cart-Keeps :
      (c : Checkout) (cart : CheckoutCartSnapshot)
      → Keeps (On {World = World} P) (compare_cart ports c cart)
  unfolding compare_cart
  compare_cart-Keeps c cart =
      Keeps-if (leb (length cart.items) 0) _ _ (Keeps-pure (cart_issue cart_empty)) (
        Keeps-if (not (same_item_set cart c)) _ _ (Keeps-pure (cart_issue cart_changed))
          (check_items-Keeps c.items))
    where
      cart_issue : IssueCode → List CheckoutIssue
      cart_issue code = record { code = code; sku = none } ∷ []

  pub revalidate-Keeps : (c : Checkout) → Keeps (On {World = World} P) (revalidate ports c)
  unfolding revalidate
  revalidate-Keeps c =
      Keeps-bind _ _ (with_world-Keeps P (ports.get_cart c.user_id))
        (elim [ none ↦ Keeps-pure _ | some cart ↦ compare_cart-Keeps c cart ])

-- Making the reservations changes no checkout either.
module _ {World : Type 0} (P : List Checkout → Type 0) (db : Collection Checkout)
    (ports : Ports World) where
  reserve_items-Keeps :
      (now : ℕ) (c : Checkout) (items : List CheckoutItem) (made : List CheckoutReservationRef)
      → Keeps (On {World = World} P) (reserve_items db ports now c made items)
  unfolding reserve_items
  reserve_items-Keeps now c [] made = Keeps-pure _
  reserve_items-Keeps now c (item ∷ items) made =
      Keeps-bind _ _ (Keeps-attempt _ (with_world-Keeps P (ports.reserve _)))
        (elim [ ok ref ↦ reserve_items-Keeps now c items _ | err e ↦ Keeps-pure _ ])

  undo-Keeps :
      (made : List CheckoutReservationRef) → Keeps (On {World = World} P) (undo db ports made)
  unfolding undo
  undo-Keeps made = Keeps-bind _ _ (compensate-Keeps P db ports made) λ _. Keeps-raise _

-- A checkout that is stored, beside what is kept of another one.
abbrev pub Stored : Checkout → (List Checkout → Type 0) → List Checkout → Type 0
Stored c P cs = (first (has_id c.id) cs ≡ some c) × P cs

module _ {World : Type 0} (db : Collection Checkout) (ports : Ports World) (id : Text)
    (before : Checkout) where
  make_ready-Keeps :
      (now : ℕ) (made : List CheckoutReservationRef) (c : Checkout)
      → Keeps (On {World = World} (Follows id before)) (make_ready db ports now made c)
  unfolding make_ready can_transition_checkout_status
  make_ready-Keeps now made c =
      Keeps-bind _ _ (step-Keeps db id before now c.id reserved ready (some c.version) refl)
        (elim [ none ↦ undo-Keeps _ db ports made | some r ↦ Keeps-pure _ ])

  keep_reservations-Keeps :
      (now : ℕ) (c : Checkout) (made : List CheckoutReservationRef)
      → Keeps (On {World = World} (Follows id before)) (keep_reservations db ports now c made)
  unfolding keep_reservations
  keep_reservations-Keeps now c made =
      Keeps-bind _ _ (set_reservations-Keeps db id before now c.id made c.version)
        (elim [ none ↦ undo-Keeps _ db ports made | some r ↦ make_ready-Keeps now made r ])

  give_up-Follows :
      (now : ℕ) (c : Checkout) (made : List CheckoutReservationRef) (e : Error) (s : Store World)
      → can_transition_checkout_status c.status failed ≡ true
      → On (Stored c (Follows id before)) s
      → On (Follows id before) (give_up db ports now c made e s).1
  unfolding give_up mark_failed
  give_up-Follows now c made e s allowed =
      let reason = text "INVENTORY_RESERVATION_FAILED" in
      bind_leads (On (Stored c (Follows id before))) (On (Follows id before))
        (compensate db ports made)
        (λ _. mark_failed db now c.id reason (some c.version) >> raise {A = CheckoutView} e)
        (compensate-Keeps (Stored c (Follows id before)) db ports made) (λ t k. k.1)
        (λ _ t k.
          rw
            (moved_raise db ports (can_change c.id (some c.version)) (failed_checkout now reason) e
              t)
            (failed-Follows db id before now c reason (some c.version) t k.0 allowed k.1))
        s

  -- A checkout that is stored and is reserved for fails, or is kept with its reservations.
  pub reserve_stock-Follows :
      (now : ℕ) (c : Checkout) (s : Store World)
      → can_transition_checkout_status c.status failed ≡ true
      → On (Stored c (Follows id before)) s
      → On (Follows id before) (reserve_stock db ports now c s).1
  unfolding reserve_stock
  reserve_stock-Follows now c s allowed =
      bind_leads (On (Stored c (Follows id before))) (On (Follows id before)) _ _
        (reserve_items-Keeps (Stored c (Follows id before)) db ports now c c.items []) (λ t k. k.1)
        (λ r. after r.0 r.1) s
    where
      after :
          (made : List CheckoutReservationRef) (failure : Option Error) (t : Store World)
          → On (Stored c (Follows id before)) t
          → On
              (Follows id before)
              (elim failure as (λ x. Action (Store World) CheckoutView) [
                | some e ↦ give_up db ports now c made e
                | none ↦ keep_reservations db ports now c made
              ]
                t).1
      after made none t k = (keep_reservations-Keeps now c made).at t k.1
      after made (some e) t k = give_up-Follows now c made e t allowed k

-- ===== src/Checkout/Reserving.antt =====
-- src/modules/checkout/application/CheckoutService.ts: reserving the stock of a checkout, cancelling,
-- changing the addresses, and the expiry sweep.
use rest_ecommerce_api.Prelude.Text.{Text, text}
use rest_ecommerce_api.Prelude.{
  ℕ, ◌+◌, Bool, true, false, ◌||◌, not, Option, none, some, List, [], ◌∷◌, ◌++◌, length, math_min,
  math_max, if◌then◌else◌, or_else,
}
use rest_ecommerce_api.Mongo.{Collection}
use rest_ecommerce_api.Errors.{
  Error, Action, ok, err, checkout_conflict, pure, raise, or_raise, attempt, require, ◌>>=◌, ◌>>◌,
}
use rest_ecommerce_api.Checkout.Entity.{
  Checkout, CheckoutAddress, CheckoutItem, CheckoutReservationRef, priced, reserved, ready,
  cancelled, expired, is_in, status_eq, active_checkout_statuses,
}
use rest_ecommerce_api.Checkout.Ports.{Ports, ReserveLine}
use rest_ecommerce_api.Checkout.Repository.{
  Store, with_world, transition, set_reservations, update_address, mark_failed, find_active_expired,
}
use rest_ecommerce_api.Checkout.Checking.{
  Request, CheckoutIssue, CheckoutView, issue_text, issue_error, to_view, remaining_ttl_seconds,
  revalidate,
}
use rest_ecommerce_api.Checkout.Service.{require_owned, require_live, compensate}

pub record Cancellation : Type 0 where
  pub view : CheckoutView
  pub replayed : Bool

pub record Sweep : Type 0 where
  pub scanned : ℕ
  pub expired : ℕ
  pub failed : ℕ

unfoldable pub reserve_line : ℕ → Checkout → CheckoutItem → ReserveLine
unfolding remaining_ttl_seconds
reserve_line now checkout item = record {
  sku = item.sku;
  quantity = item.quantity;
  reference_id = checkout.id;
  idempotency_key = checkout.id ++ text ":" ++ item.sku;
  ttl_seconds = remaining_ttl_seconds now checkout;
}

-- The steps of other requests.
abbrev pub others : {S : Type 0} → (S → S) → Action S (Unit {0})
others between s = (ok tt, between s)

module _ {World : Type 0} (db : Collection Checkout) (ports : Ports World) where
  -- The loop of `reserveCheckout` in its `try`: the reservations made, and the error that ended it.
  unfoldable pub reserve_items :
      ℕ
      → Checkout
      → List CheckoutReservationRef
      → List CheckoutItem
      → Action (Store World) (List CheckoutReservationRef × Option Error)
  reserve_items now checkout made [] = pure (made, none)
  reserve_items now checkout made (item ∷ items) = do
    outcome ← attempt (with_world (ports.reserve (reserve_line now checkout item)))
    elim outcome [
      | ok ref ↦ reserve_items now checkout (made ++ ref ∷ []) items
      | err e ↦ pure (made, some e)
    ]

  -- A conflict behind the reservations: they are released.
  unfoldable pub undo : List CheckoutReservationRef → Action (Store World) CheckoutView
  undo made = do compensate db ports made; raise checkout_conflict

  unfoldable pub make_ready :
      ℕ → List CheckoutReservationRef → Checkout → Action (Store World) CheckoutView
  make_ready now made with_refs = do
    moved ← transition db now with_refs.id (reserved ∷ []) ready (some with_refs.version)
    elim moved [ some r ↦ pure (to_view r) | none ↦ undo made ]

  unfoldable pub keep_reservations :
      ℕ → Checkout → List CheckoutReservationRef → Action (Store World) CheckoutView
  keep_reservations now checkout made = do
    stored ← set_reservations db now checkout.id made checkout.version
    elim stored [ some with_refs ↦ make_ready now made with_refs | none ↦ undo made ]

  -- The `catch` of `reserveCheckout`.
  unfoldable pub give_up :
      ℕ → Checkout → List CheckoutReservationRef → Error → Action (Store World) CheckoutView
  give_up now checkout made e = do
    compensate db ports made
    mark_failed db now checkout.id (text "INVENTORY_RESERVATION_FAILED") (some checkout.version)
    raise e

  unfoldable pub reserve_stock : ℕ → Checkout → Action (Store World) CheckoutView
  reserve_stock now checkout = do
    (made, failure) ← reserve_items now checkout [] checkout.items
    elim failure [
      | some e ↦ give_up now checkout made e
      | none ↦ keep_reservations now checkout made
    ]

  unfoldable pub reserve_valid :
      ℕ → Checkout → List CheckoutIssue → Action (Store World) CheckoutView
  reserve_valid now live (issue ∷ issues) = do
    mark_failed db now live.id (issue_text issue.code) (some live.version)
    raise (issue_error issue.code)
  reserve_valid now live [] = do
    moved ← transition db now live.id (priced ∷ []) reserved (some live.version)
    checkout ← or_raise moved checkout_conflict
    reserve_stock now checkout

  unfoldable pub reserve_live : ℕ → Checkout → Action (Store World) CheckoutView
  reserve_live now live =
      if status_eq live.status reserved || status_eq live.status ready
      then pure (to_view live)
      else if not (status_eq live.status priced)
      then raise checkout_conflict
      else (do issues ← revalidate ports live; reserve_valid now live issues)

  unfoldable pub reserve_checkout : Request → Text → Text → Action (Store World) CheckoutView
  reserve_checkout c user id = do
    checkout ← require_owned db ports user id
    live ← require_live db ports c.now checkout
    reserve_live c.now live

  -- Behind the transition of `cancelCheckout`.
  unfoldable pub release_cancelled : Text → Checkout → Action (Store World) Cancellation
  release_cancelled user checkout = do
    compensate db ports checkout.reservations
    refreshed ← require_owned db ports user checkout.id
    pure (record { view = to_view refreshed; replayed = false })

  unfoldable pub cancel_live : ℕ → Text → Checkout → Option ℕ → Action (Store World) Cancellation
  cancel_live now user live version = do
    require (is_in live.status active_checkout_statuses) checkout_conflict
    moved ←
        transition db now live.id active_checkout_statuses cancelled
          (some (or_else version live.version))
    elim moved [
      | some checkout ↦ release_cancelled user checkout
      | none ↦ do
        current ← require_owned db ports user live.id
        require (status_eq current.status cancelled) checkout_conflict
        pure (record { view = to_view current; replayed = true })
    ]

  unfoldable pub cancel_checkout :
      Request → Text → Text → Option ℕ → Action (Store World) Cancellation
  cancel_checkout c user id version = do
    checkout ← require_owned db ports user id
    if status_eq checkout.status cancelled
        then pure (record { view = to_view checkout; replayed = true })
        else (do live ← require_live db ports c.now checkout; cancel_live c.now user live version)

  unfoldable pub update_checkout_address :
      Request
      → Text
      → Text
      → CheckoutAddress
      → Option CheckoutAddress
      → ℕ
      → Action (Store World) CheckoutView
  update_checkout_address c user id shipping_input billing_input version = do
    checkout ← require_owned db ports user id
    live ← require_live db ports c.now checkout
    require (is_in live.status active_checkout_statuses) checkout_conflict
    let shipping = ports.resolve_shipping shipping_input
    let billing = ports.resolve_billing billing_input shipping
    updated ← update_address db c.now live.id shipping billing version
    changed ← or_raise updated checkout_conflict
    pure (to_view changed)

  -- One round of the sweep: the reservations are released before the transition. `between` is what
  -- other requests do to the store between these steps, each of which the source awaits.
  unfoldable pub expire_round :
      (Store World → Store World) → ℕ → Checkout → Action (Store World) Bool
  expire_round between now checkout = do
    compensate db ports checkout.reservations
    others between
    moved ← transition db now checkout.id active_checkout_statuses expired none
    pure (elim moved [ some r ↦ true | none ↦ false ])

  -- A round that no other request interrupts.
  unfoldable pub expire_one : ℕ → Checkout → Action (Store World) Bool
  expire_one = expire_round (λ s. s)

  unfoldable pub expire_each : ℕ → List Checkout → Sweep → Action (Store World) Sweep
  expire_each now [] done = pure done
  expire_each now (checkout ∷ due) done = do
    outcome ← attempt (expire_one now checkout)
    elim outcome [
      | ok true ↦ expire_each now due (record done { expired = done.expired + 1 })
      | ok false ↦ expire_each now due done
      | err e ↦ expire_each now due (record done { failed = done.failed + 1 })
    ]

  unfoldable pub expire_checkouts : ℕ → Option ℕ → Action (Store World) Sweep
  expire_checkouts now limit = do
    due ← find_active_expired db now (math_min (math_max (or_else limit 100) 1) 500)
    expire_each now due (record { scanned = length due; expired = 0; failed = 0 })

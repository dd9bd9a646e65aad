-- ===== src/Checkout/Repository.antt =====
-- src/modules/checkout/infrastructure/database/checkout.repository.ts over the collection of
-- checkouts, beside the state of the modules that the ports lead to.
use rest_ecommerce_api.Prelude.Text.{Text, ◌==◌}
use rest_ecommerce_api.Prelude.{
  ℕ, ◌+◌, Bool, true, false, ◌&&◌, ◌||◌, Option, none, some, List, [], ◌∷◌, leb, nat_eq, math_min,
  math_max,
}
use rest_ecommerce_api.Mongo.{Collection, inserted, duplicate, failed}
use rest_ecommerce_api.Errors.{Action, ok, err, duplicate_key, write_failed}
use rest_ecommerce_api.Checkout.Entity.{
  Checkout, CheckoutStatus, CheckoutAddress, CheckoutReservationRef, ready, completed, is_in,
  active_checkout_statuses,
}

pub record Store (World : Type 0) : Type 0 where
  pub checkouts : List Checkout
  pub world : World

abbrev pub has_id : Text → Checkout → Bool
has_id id c = c.id == id

abbrev pub has_version : Option ℕ → Checkout → Bool
has_version none c = true
has_version (some v) c = nat_eq c.version v

abbrev pub has_key : Text → Text → Checkout → Bool
has_key user key c =
    c.user_id == user && elim c.idempotency_key [ some k ↦ k == key | none ↦ false ]

abbrev pub can_transition : Text → List CheckoutStatus → Option ℕ → Checkout → Bool
can_transition id from version c = has_id id c && is_in c.status from && has_version version c

abbrev pub moved_checkout : ℕ → CheckoutStatus → Checkout → Checkout
moved_checkout now to c = record c { status = to; updated_at = now; version = c.version + 1 }

abbrev pub can_change : Text → Option ℕ → Checkout → Bool
can_change id version c = has_id id c && has_version version c

abbrev pub reserved_checkout : ℕ → List CheckoutReservationRef → Checkout → Checkout
reserved_checkout now refs c = record c {
  reservations = refs;
  updated_at = now;
  version = c.version + 1;
}

abbrev pub addressed_checkout : ℕ → CheckoutAddress → CheckoutAddress → Checkout → Checkout
addressed_checkout now shipping billing c = record c {
  shipping_address = shipping;
  billing_address = billing;
  updated_at = now;
  version = c.version + 1;
}

abbrev pub failed_checkout : ℕ → Text → Checkout → Checkout
failed_checkout now reason c = record c {
  status = CheckoutStatus.failed;
  fail_reason = some reason;
  updated_at = now;
  version = c.version + 1;
}

abbrev pub completed_checkout : ℕ → Text → Checkout → Checkout
completed_checkout now order c = record c {
  status = completed;
  order_id = some order;
  updated_at = now;
  version = c.version + 1;
}

abbrev pub is_due : ℕ → Checkout → Bool
is_due now c = is_in c.status active_checkout_statuses && leb c.expires_at now

-- The unique indexes of the schema.
abbrev pub checkout_clash : Checkout → Checkout → Bool
checkout_clash a b =
    a.id == b.id || elim a.idempotency_key [ some key ↦ has_key a.user_id key b | none ↦ false ]

-- An operation of another module.
unfoldable pub with_world : {World A : Type 0} → Action World A → Action (Store World) A
with_world m s = let (r, w) = m s.world in (r, record s { world = w })

module _ {World : Type 0} (db : Collection Checkout) where
  unfoldable pub update :
      (Checkout → Bool) → (Checkout → Checkout) → Action (Store World) (Option Checkout)
  update filter change s =
      let (found, ds) = db.find_one_and_update filter change s.checkouts in
      (ok found, record s { checkouts = ds })

  unfoldable pub create : Checkout → Action (Store World) (Unit {0})
  create checkout s = elim (db.insert_one checkout_clash checkout s.checkouts) [
    | inserted ds ↦ (ok tt, record s { checkouts = ds })
    | duplicate ↦ (err duplicate_key, s)
    | failed ↦ (err write_failed, s)
  ]

  unfoldable pub find_by_id : Text → Action (Store World) (Option Checkout)
  find_by_id id s = (ok (db.find_one (has_id id) s.checkouts), s)

  unfoldable pub find_by_user_and_key : Text → Text → Action (Store World) (Option Checkout)
  find_by_user_and_key user key s = (ok (db.find_one (has_key user key) s.checkouts), s)

  unfoldable pub transition :
      ℕ
      → Text
      → List CheckoutStatus
      → CheckoutStatus
      → Option ℕ
      → Action (Store World) (Option Checkout)
  transition now id from to version =
      update (can_transition id from version) (moved_checkout now to)

  unfoldable pub set_reservations :
      ℕ → Text → List CheckoutReservationRef → ℕ → Action (Store World) (Option Checkout)
  set_reservations now id refs version =
      update (can_change id (some version)) (reserved_checkout now refs)

  unfoldable pub update_address :
      ℕ → Text → CheckoutAddress → CheckoutAddress → ℕ → Action (Store World) (Option Checkout)
  update_address now id shipping billing version =
      update (can_change id (some version)) (addressed_checkout now shipping billing)

  unfoldable pub mark_failed : ℕ → Text → Text → Option ℕ → Action (Store World) (Option Checkout)
  mark_failed now id reason version = update (can_change id version) (failed_checkout now reason)

  unfoldable pub mark_completed :
      ℕ → Text → Text → Option ℕ → Action (Store World) (Option Checkout)
  mark_completed now id order version =
      update (can_transition id (ready ∷ []) version) (completed_checkout now order)

  unfoldable pub find_active_expired : ℕ → ℕ → Action (Store World) (List Checkout)
  find_active_expired now limit s = (
    ok (
        db.find_sorted (is_due now) (λ c. c.expires_at) (math_min (math_max limit 1) 500)
          s.checkouts),
    s,
  )

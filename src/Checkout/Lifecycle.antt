-- ===== src/Checkout/Lifecycle.antt =====
-- Sequences of calls of src/modules/checkout/application/CheckoutService.ts, in any order and of any
-- user, each run to its end.
use rest_ecommerce_api.Prelude.Text.{Text}
use rest_ecommerce_api.Prelude.{
  ℕ, ◌≡◌, refl, true, false, Option, some, List, [], ◌∷◌, first, any, arith,
}
use rest_ecommerce_api.Mongo.{Collection}
use rest_ecommerce_api.Checkout.Entity.{
  Checkout, CheckoutAddress, CheckoutStatus, priced, reserved, ready, completed, failed, expired,
  cancelled, is_in, is_terminal_checkout_status, can_transition_checkout_status,
}
use rest_ecommerce_api.Checkout.Ports.{Ports}
use rest_ecommerce_api.Checkout.Repository.{Store, has_id}
use rest_ecommerce_api.Checkout.Checking.{Request, CreateCheckoutInput}
use rest_ecommerce_api.Checkout.Service.{create_checkout, validate_checkout, complete}
use rest_ecommerce_api.Checkout.Reserving.{
  reserve_checkout, cancel_checkout, update_checkout_address, expire_checkouts,
}
use rest_ecommerce_api.Checkout.Laws.{On}
use rest_ecommerce_api.Checkout.Follows.{Reaches, here, next, Follows, Evolves-refl}
use rest_ecommerce_api.Checkout.Keeping.{
  create_checkout-Keeps, complete-Keeps, expire_checkouts-Keeps,
}
use rest_ecommerce_api.Checkout.Live.{
  validate_checkout-Follows, reserve_checkout-Follows, cancel_checkout-Follows,
  update_checkout_address-Follows,
}

-- A call of the service, by a user, an order or the sweep.
pub data Call : Type 0 where
  creates : Request → Text → CreateCheckoutInput → Call
  validates : Request → Text → Text → Call
  reserves : Request → Text → Text → Call
  cancels : Request → Text → Text → Option ℕ → Call
  addresses : Request → Text → Text → CheckoutAddress → Option CheckoutAddress → ℕ → Call
  completes : Request → Text → Text → Option ℕ → Call
  sweeps : ℕ → Option ℕ → Call

module _ {World : Type 0} (db : Collection Checkout) (ports : Ports World) where
  unfoldable pub step : Call → Store World → Store World
  step (creates c user input) s = (create_checkout db ports c user input s).1
  step (validates c user id) s = (validate_checkout db ports c user id s).1
  step (reserves c user id) s = (reserve_checkout db ports c user id s).1
  step (cancels c user id version) s = (cancel_checkout db ports c user id version s).1
  step (addresses c user id shipping billing version) s =
      (update_checkout_address db ports c user id shipping billing version s).1
  step (completes c id order version) s = (complete db ports c id order version s).1
  step (sweeps now limit) s = (expire_checkouts db ports now limit s).1

  unfoldable pub run : List Call → Store World → Store World
  run [] s = s
  run (call ∷ calls) s = run calls (step call s)

  module _ (id : Text) (before : Checkout) where
    step-Follows :
        (call : Call) (s : Store World)
        → On (Follows id before) s
        → On (Follows id before) (step call s)
    unfolding step
    step-Follows (creates c user input) s =
        (create_checkout-Keeps db ports id before c user input).at s
    step-Follows (validates c user i) s =
        (validate_checkout-Follows db ports id before c user i).at s
    step-Follows (reserves c user i) s = (reserve_checkout-Follows db ports id before c user i).at s
    step-Follows (cancels c user i version) s =
        (cancel_checkout-Follows db ports id before c user i version).at s
    step-Follows (addresses c user i shipping billing version) s =
        (update_checkout_address-Follows db ports id before c user i shipping billing version).at s
    step-Follows (completes c i order version) s =
        (complete-Keeps db ports id before c i order version).at s
    step-Follows (sweeps now limit) s = (expire_checkouts-Keeps db ports id before now limit).at s

    run-keeps_following :
        (calls : List Call) (s : Store World)
        → On (Follows id before) s
        → On (Follows id before) (run calls s)
    unfolding run
    run-keeps_following [] s h = h
    run-keeps_following (call ∷ calls) s h =
        run-keeps_following calls (step call s) (step-Follows call s h)

  -- A stored checkout is still stored after any sequence of calls, with a status that the allowed
  -- transitions lead to, a version that is not lower, and the user, the items, the prices, the
  -- customer, the cart and the expiry time that it had.
  pub run-Follows :
      (id : Text) (before : Checkout) (calls : List Call) (s : Store World)
      → first (has_id id) s.checkouts ≡ some before
      → Follows id before (run calls s).checkouts
  run-Follows id before calls s e =
      run-keeps_following id before calls s
        (record { current = before; found = e; evolves = Evolves-refl before })

-- No transition leaves a final status.
terminal-stuck :
    (from to : CheckoutStatus)
    → is_terminal_checkout_status from ≡ true
    → can_transition_checkout_status from to ≡ false
unfolding is_terminal_checkout_status can_transition_checkout_status is_in any
terminal-stuck priced to t = absurd (ground arith)
terminal-stuck reserved to t = absurd (ground arith)
terminal-stuck ready to t = absurd (ground arith)
terminal-stuck completed to t = refl
terminal-stuck failed to t = refl
terminal-stuck expired to t = refl
terminal-stuck cancelled to t = refl

Reaches-stays :
    (from to : CheckoutStatus)
    → is_terminal_checkout_status from ≡ true
    → Reaches from to
    → to ≡ from
Reaches-stays from _ t here = refl
Reaches-stays from _ t (next {a} {b} r k) =
    let same : a ≡ from = Reaches-stays from a t r in
    let stuck : can_transition_checkout_status a b ≡ false = rw same (terminal-stuck from b t) in
    absurd (ground (arith, k, stuck))

module _ {World : Type 0} (db : Collection Checkout) (ports : Ports World) where
  -- A checkout that is completed, failed, expired or cancelled keeps its status in any sequence of
  -- calls.
  pub run-final :
      (id : Text) (before : Checkout) (calls : List Call) (s : Store World)
      → first (has_id id) s.checkouts ≡ some before
      → is_terminal_checkout_status before.status ≡ true
      → (after : Checkout) × (first (has_id id) (run db ports calls s).checkouts ≡ some after)
        × (after.status ≡ before.status)
  run-final id before calls s e t =
      let h = run-Follows db ports id before calls s e in
      (h.current, h.found, Reaches-stays before.status h.current.status t h.evolves.reaches)

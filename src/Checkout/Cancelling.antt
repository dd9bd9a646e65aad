-- ===== src/Checkout/Cancelling.antt =====
-- `cancelCheckout` of src/modules/checkout/application/CheckoutService.ts, on a live checkout.
use rest_ecommerce_api.Prelude.Text.{Text, ◌==◌, eq_iff, eq_refl}
use rest_ecommerce_api.Prelude.{
  ℕ, ◌≡◌, refl, ◌∙◌, true, false, leb, Option, some, first, any, arith, or_else,
}
use rest_ecommerce_api.Mongo.{Collection}
use rest_ecommerce_api.Errors.{ok, checkout_conflict, checkout_not_found, pure}
use rest_ecommerce_api.Errors.Rules.{bind_ok, bind_some, require_ok}
use rest_ecommerce_api.Checkout.Entity.{
  Checkout, CheckoutStatus, priced, reserved, ready, completed, failed, expired, cancelled, is_in,
  status_eq, active_checkout_statuses, is_terminal_checkout_status,
}
use rest_ecommerce_api.Checkout.Ports.{Ports, IsReleasing}
use rest_ecommerce_api.Checkout.Repository.{
  Store, has_id, can_transition, moved_checkout, update, transition,
}
use rest_ecommerce_api.Checkout.Checking.{Request, to_view}
use rest_ecommerce_api.Checkout.Service.{require_owned, require_live, compensate}
use rest_ecommerce_api.Checkout.Reserving.{cancel_checkout, cancel_live, release_cancelled}
use rest_ecommerce_api.Checkout.Laws.{
  find_by_id_lem, update_stored, compensate_lem, compensate-Keeps,
}
use rest_ecommerce_api.Checkout.Releasing.{AreFreed, compensate-AreFreed}

-- An active status is neither final nor cancelled.
active-goes_on :
    (status : CheckoutStatus)
    → is_in status active_checkout_statuses ≡ true
    → (is_terminal_checkout_status status ≡ false) × (status_eq status cancelled ≡ false)
unfolding is_in is_terminal_checkout_status any
active-goes_on priced t = (refl, refl)
active-goes_on reserved t = (refl, refl)
active-goes_on ready t = (refl, refl)
active-goes_on completed t = absurd (ground arith)
active-goes_on failed t = absurd (ground arith)
active-goes_on expired t = absurd (ground arith)
active-goes_on cancelled t = absurd (ground arith)

module _ {World : Type 0} (db : Collection Checkout) (ports : Ports World) (user : Text)
    (s : Store World) (c : Checkout) (stored : first (has_id c.id) s.checkouts ≡ some c)
    (mine : c.user_id ≡ user) where
  pub owned_found : require_owned db ports user c.id s ≡ (ok c, s)
  unfolding require_owned pure
  owned_found =
      let t : c.user_id == user ≡ true = (eq_iff c.user_id user).1 mine in
      rw (bind_ok _ _ s (find_by_id_lem db s c.id))
        (rw (stored, bind_some) (rw (bind_ok _ _ s (require_ok _ checkout_not_found s t)) refl))

module _ {World : Type 0} (db : Collection Checkout) (ports : Ports World)
    (laws : IsReleasing ports) (now : ℕ) (user : Text) where
  release_cancelled_lem :
      (c : Checkout) (s : Store World)
      → first (has_id c.id) s.checkouts ≡ some c
      → c.user_id ≡ user
      → release_cancelled db ports user c s ≡ (
        ok (record { view = to_view c; replayed = false }),
        (compensate db ports c.reservations s).1,
      )
  unfolding release_cancelled pure
  release_cancelled_lem c s e mine =
      let next = (compensate db ports c.reservations s).1 in
      let kept =
        (compensate-Keeps (λ cs. first (has_id c.id) cs ≡ some c) db ports c.reservations).at s e in
      rw (bind_ok _ _ s (compensate_lem db ports c.reservations s))
        (rw (bind_ok _ _ next (owned_found db ports user next c kept mine)) refl)

  cancel_live_lem :
      (version : Option ℕ) (c : Checkout) (s : Store World)
      → first (has_id c.id) s.checkouts ≡ some c
      → c.user_id ≡ user
      → is_in c.status active_checkout_statuses ≡ true
      → or_else version c.version ≡ c.version
      → (end : Store World) × (cancel_live db ports now user c version s ≡ (
        ok (record { view = to_view (moved_checkout now cancelled c); replayed = false }),
        end,
      ))
        × (first (has_id c.id) end.checkouts ≡ some (moved_checkout now cancelled c))
        × AreFreed db ports laws c.reservations end
  unfolding cancel_live transition
  cancel_live_lem version c s e mine active same =
      let after = moved_checkout now cancelled c in
      let passes =
        can_transition c.id active_checkout_statuses (some (or_else version c.version)) in
      let (moves, kept) =
        update_stored db s passes (moved_checkout now cancelled) c (λ x p. ground (arith, p))
          (ground (arith, active, same, eq_refl c.id)) refl e in
      let next = (update db passes (moved_checkout now cancelled) s).1 in
      (
        (compensate db ports c.reservations next).1,
        bind_ok _ _ s (require_ok _ checkout_conflict s active)
            ∙ bind_ok _ _ s moves
            ∙ release_cancelled_lem after next kept mine,
        (compensate-Keeps (λ cs. first (has_id c.id) cs ≡ some after) db ports c.reservations).at
            next kept,
        compensate-AreFreed db ports laws c.reservations next,
      )

module _ {World : Type 0} (db : Collection Checkout) (ports : Ports World)
    (laws : IsReleasing ports) (user : Text) where
  -- Cancelling, by its user and at its version, a stored checkout that is active and not expired
  -- succeeds: the checkout is stored and returned as cancelled, and none of its reservations holds
  -- stock any more.
  pub cancel_checkout-AreFreed :
      (request : Request) (version : Option ℕ) (c : Checkout) (s : Store World)
      → first (has_id c.id) s.checkouts ≡ some c
      → c.user_id ≡ user
      → is_in c.status active_checkout_statuses ≡ true
      → leb c.expires_at request.now ≡ false
      → or_else version c.version ≡ c.version
      → (end : Store World) × (cancel_checkout db ports request user c.id version s ≡ (
        ok (record { view = to_view (moved_checkout request.now cancelled c); replayed = false }),
        end,
      ))
        × (first (has_id c.id) end.checkouts ≡ some (moved_checkout request.now cancelled c))
        × AreFreed db ports laws c.reservations end
  unfolding cancel_checkout require_live pure
  cancel_checkout-AreFreed request version c s e mine active live same =
      let (terminal, ended) = active-goes_on c.status active in
      let (end, cancels, kept, freed) =
        cancel_live_lem db ports laws request.now user version c s e mine active same in
      (
        end,
        rw (bind_ok _ _ s (owned_found db ports user s c e mine))
            (rw ended (rw (terminal, live) (bind_ok _ _ s refl ∙ cancels))),
        kept,
        freed,
      )

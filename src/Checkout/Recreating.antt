-- ===== src/Checkout/Recreating.antt =====
-- `createCheckout` of src/modules/checkout/application/CheckoutService.ts under a key that made a
-- checkout before.
use rest_ecommerce_api.Prelude.Text.{Text, ◌==◌, eq_refl}
use rest_ecommerce_api.Prelude.{
  ◌≡◌, refl, sym, ◌∙◌, inl, inr, true, false, some, List, [], ◌∷◌, ◌++◌, first, any, subst, arith,
  Bool-cases, if◌then◌else◌,
}
use rest_ecommerce_api.Prelude.Replacing.{first-append_new}
use rest_ecommerce_api.Mongo.{Collection}
use rest_ecommerce_api.Errors.{Result, ok, err, idempotency_conflict, pure}
use rest_ecommerce_api.Errors.Rules.{bind_ok, bind_err, require_ok, require_err}
use rest_ecommerce_api.Checkout.Entity.{Checkout, PriceLineInput}
use rest_ecommerce_api.Checkout.Ports.{Ports}
use rest_ecommerce_api.Checkout.Repository.{Store, has_key, checkout_clash}
use rest_ecommerce_api.Checkout.Checking.{Request, CreateCheckoutInput, to_view}
use rest_ecommerce_api.Checkout.Service.{
  CreatedCheckout, same_hash, replay_checkout, create_checkout,
}
use rest_ecommerce_api.Checkout.Laws.{find_by_user_and_key_lem}
use rest_ecommerce_api.Checkout.Adapters.{default_price}
use rest_ecommerce_api.Checkout.Creating.{IsNew, IsCreation, create_checkout-IsCreation}

module _ (user : Text) (input : CreateCheckoutInput) where
  -- The new checkout is the one that its key finds.
  keyed :
      (c : Request) (checkout : Checkout) (cs : List Checkout)
      → IsNew c user input checkout
      → any (checkout_clash checkout) cs ≡ false
      → first (has_key user input.idempotency_key) (cs ++ checkout ∷ []) ≡ some checkout
  keyed c checkout cs new fresh =
      first-append_new (has_key user input.idempotency_key) (checkout_clash checkout) cs checkout
        fresh (λ x t. rw (new.of_key, new.of_user) (ground (arith, t)))
        (rw (new.of_key, new.of_user) (ground (arith, eq_refl user, eq_refl input.idempotency_key)))

  hashes :
      (again : CreateCheckoutInput) (checkout : Checkout)
      → checkout.req_hash ≡ some input.req_hash
      → same_hash again checkout ≡ (input.req_hash == again.req_hash)
  unfolding same_hash
  hashes again checkout hash = rw hash refl

  module _ {World : Type 0} (db : Collection Checkout) (ports : Ports World) where
    replay_lem :
        (again : CreateCheckoutInput) (checkout : Checkout) (s : Store World)
        → checkout.req_hash ≡ some input.req_hash
        → replay_checkout db ports again checkout s ≡ (
          if input.req_hash == again.req_hash
              then ok (record { view = to_view checkout; created = false })
              else err idempotency_conflict,
          s,
        )
    unfolding replay_checkout pure
    replay_lem again checkout s hash =
        let tested : same_hash again checkout ≡ (input.req_hash == again.req_hash) =
          hashes again checkout hash in
        elim (Bool-cases (input.req_hash == again.req_hash)) [
          | inl t ↦ bind_ok _ _ s (require_ok _ idempotency_conflict s (tested ∙ t)) ∙ rw t refl
          | inr t ↦ bind_err _ _ s (require_err _ idempotency_conflict s (tested ∙ t)) ∙ rw t refl
        ]

    replayed :
        (later : Request) (again : CreateCheckoutInput) (checkout : Checkout) (s : Store World)
        → again.idempotency_key ≡ input.idempotency_key
        → checkout.req_hash ≡ some input.req_hash
        → first (has_key user input.idempotency_key) s.checkouts ≡ some checkout
        → create_checkout db ports later user again s ≡ (
          if input.req_hash == again.req_hash
              then ok (record { view = to_view checkout; created = false })
              else err idempotency_conflict,
          s,
        )
    unfolding create_checkout
    replayed later again checkout s same hash e =
        bind_ok _ _ s (find_by_user_and_key_lem db s user again.idempotency_key)
        ∙ rw (same, e) (replay_lem again checkout s hash)

    -- What follows a creation that stored a checkout.
    RepeatsAfter : Result CreatedCheckout × Store World → Type 0
    RepeatsAfter (err e, t) = Unit {0}
    RepeatsAfter (ok r, t) =
        r.created ≡ true
        → (later : Request) (again : CreateCheckoutInput)
        → again.idempotency_key ≡ input.idempotency_key
        → create_checkout db ports later user again t ≡ (
          if input.req_hash == again.req_hash
              then ok (record { view = r.view; created = false })
              else err idempotency_conflict,
          t,
        )

    creation-repeats :
        (c : Request) (cs : List Checkout) (x : Result CreatedCheckout × Store World)
        → IsCreation c user input cs x
        → RepeatsAfter x
    unfolding IsCreation RepeatsAfter
    creation-repeats c cs (err e, t) h = tt
    creation-repeats c cs (ok r, t) (inl h) = λ made. absurd (ground (arith, made, h.0))
    creation-repeats c cs (ok r, t) (inr (made, (checkout, stored, view, fresh, new))) =
        λ _ later again same.
          let found =
            subst (λ z. first (has_key user input.idempotency_key) z ≡ some checkout) (sym stored)
              (keyed c checkout cs new fresh) in
          rw view (replayed later again checkout t same new.of_hash found)

    -- Where the prices are those of `DefaultCheckoutPricing`: behind a request that created a
    -- checkout, any request of the user under the same key changes nothing. It returns the view of
    -- that checkout where the two requests have one hash, and else raises a conflict.
    pub create_checkout-again :
        (c later : Request) (again : CreateCheckoutInput) (cs : List Checkout) (world : World)
        (r : CreatedCheckout) (t : Store World)
        → ((lines : List PriceLineInput) (currency : Text)
            → ports.price lines currency ≡ default_price lines currency)
        → create_checkout db ports c user input (record { checkouts = cs; world = world })
          ≡ (ok r, t)
        → r.created ≡ true
        → again.idempotency_key ≡ input.idempotency_key
        → create_checkout db ports later user again t ≡ (
          if input.req_hash == again.req_hash
              then ok (record { view = r.view; created = false })
              else err idempotency_conflict,
          t,
        )
    unfolding RepeatsAfter
    create_checkout-again c later again cs world r t prices e made same =
        creation-repeats c cs (ok r, t)
          (subst (IsCreation c user input cs) e
            (create_checkout-IsCreation c user input cs db ports world prices))
          made later again same

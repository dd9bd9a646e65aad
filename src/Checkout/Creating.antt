-- ===== src/Checkout/Creating.antt =====
-- `createCheckout` of src/modules/checkout/application/CheckoutService.ts: what it stores.
use rest_ecommerce_api.Prelude.Text.{Text}
use rest_ecommerce_api.Prelude.{
  ℕ, ◌+◌, ◌≤◌, ◌≡◌, refl, sym, ap, ◌∙◌, inl, inr, ◌⊎◌, true, false, leb, none, some, List, [], ◌∷◌,
  ◌++◌, All, any, length, map, sum_by, arith, Option-cases,
}
use rest_ecommerce_api.Mongo.{Collection}
use rest_ecommerce_api.Errors.{
  Error, Result, ok, err, pure, cart_empty, checkout_conflict, idempotency_conflict,
}
use rest_ecommerce_api.Errors.Rules.{
  bind_result, or_raise_cases, guard_cases, require_cases, bind_ok, bind_some, bind_none,
  attempt_lem,
}
use rest_ecommerce_api.Checkout.Entity.{
  Checkout, CheckoutAddress, CustomerSnapshot, CheckoutItem, PriceLineInput, priced,
  max_checkout_items,
}
use rest_ecommerce_api.Checkout.Ports.{Ports, CheckoutCartSnapshot}
use rest_ecommerce_api.Checkout.Repository.{Store, with_world, checkout_clash, find_by_user_and_key}
use rest_ecommerce_api.Checkout.Checking.{
  Request, CreateCheckoutInput, to_view, single_currency, build_items,
}
use rest_ecommerce_api.Checkout.Service.{
  CreatedCheckout, new_checkout, replay_checkout, recover_checkout, store_checkout, create_for_cart,
  create_checkout,
}
use rest_ecommerce_api.Checkout.Laws.{create_cases}
use rest_ecommerce_api.Checkout.Adapters.{default_price}
use rest_ecommerce_api.Checkout.Pricing.{
  IsValidItem, single_currency-All, sum_line_totals-items, AreBuilt, build_items-AreBuilt,
}

leb_le : (a b : ℕ) → leb a b ≡ true → a ≤ b
leb_le a b t = ground arith

-- A checkout as it is created, priced at the sum of its items.
pub record IsNew (c : Request) (user : Text) (input : CreateCheckoutInput) (checkout : Checkout)
    : Type 0 where
  pub of_user : checkout.user_id ≡ user
  pub of_key : checkout.idempotency_key ≡ some input.idempotency_key
  pub of_hash : checkout.req_hash ≡ some input.req_hash
  pub is_priced : checkout.status ≡ priced
  pub no_reservations : checkout.reservations ≡ []
  pub first_version : checkout.version ≡ 0
  pub lives : checkout.expires_at ≡ c.now + 1800000
  pub some_items : (1 ≤ length checkout.items) × (length checkout.items ≤ 50)
  pub valid_items : All IsValidItem checkout.items
  pub one_currency : All (λ item. item.currency ≡ checkout.currency) checkout.items
  pub total :
      checkout.pricing.grand_total_minor ≡ sum_by (λ item. item.line_total_minor) checkout.items

module _ {World : Type 0} (c : Request) (user : Text) (input : CreateCheckoutInput)
    (cs : List Checkout) where
  -- Either one new checkout is stored and returned, or none.
  unfoldable pub IsCreation : Result CreatedCheckout × Store World → Type 0
  IsCreation (ok result, s) =
      ((result.created ≡ false) × (s.checkouts ≡ cs))
      ⊎ ((result.created ≡ true)
          × ((checkout : Checkout) × (s.checkouts ≡ cs ++ checkout ∷ [])
              × (result.view ≡ to_view checkout)
              × (any (checkout_clash checkout) cs ≡ false)
              × IsNew c user input checkout))
  IsCreation (err e, s) = s.checkouts ≡ cs

  module _ (db : Collection Checkout) (ports : Ports World) where
    replay-IsCreation :
        (prior : Checkout) (s : Store World)
        → s.checkouts ≡ cs
        → IsCreation (replay_checkout db ports input prior s)
    unfolding replay_checkout IsCreation pure
    replay-IsCreation prior s e =
        require_cases IsCreation idempotency_conflict s _ _ e (inl (refl, e))

    recover-IsCreation :
        (x : Error) (s : Store World)
        → s.checkouts ≡ cs
        → IsCreation (recover_checkout db ports user input x s)
    unfolding recover_checkout IsCreation find_by_user_and_key
    recover-IsCreation x s e = require_cases IsCreation x s _ _ e (
        bind_result (λ r. r.1.checkouts ≡ cs) IsCreation
          (find_by_user_and_key db user input.idempotency_key) _ s e
          (λ found t h.
            or_raise_cases IsCreation x t found _ h λ winner. replay-IsCreation winner t h)
          (λ y t h. h))

    store-IsCreation :
        (checkout : Checkout) (s : Store World)
        → IsNew c user input checkout
        → s.checkouts ≡ cs
        → IsCreation (store_checkout db ports user input checkout s)
    unfolding store_checkout IsCreation pure
    store-IsCreation checkout s new e = elim (create_cases db s checkout) [
      | inl (x, l) ↦ rw (bind_ok _ _ s (attempt_lem _ s l)) (recover-IsCreation x s e)
      | inr (fresh, l) ↦ rw (bind_ok _ _ s (attempt_lem _ s l)) (
          inr (
            refl,
            (
              checkout,
              ap (λ x. x ++ checkout ∷ []) e,
              refl,
              ap (any (checkout_clash checkout)) (sym e) ∙ fresh,
              new,
            ),
          ))
    ]

    new_checkout-IsNew :
        (cart : CheckoutCartSnapshot) (customer : CustomerSnapshot)
        (shipping billing : CheckoutAddress) (items : List CheckoutItem) (currency : Text)
        → ((lines : List PriceLineInput) (currency : Text)
            → ports.price lines currency ≡ default_price lines currency)
        → All IsValidItem items
        → length items ≤ 50
        → single_currency items ≡ some currency
        → IsNew c user input (
            new_checkout c user input cart customer shipping billing items currency (
              ports.price
                (map
                  (λ item. record { quantity = item.quantity; unit_minor = item.unit_minor })
                  items)
                currency))
    unfolding new_checkout default_price
    new_checkout-IsNew cart customer shipping billing items currency prices valid most single =
        let (same, some_item) = single_currency-All items currency single in
        record {
          of_user = refl;
          of_key = refl;
          of_hash = refl;
          is_priced = refl;
          no_reservations = refl;
          first_version = refl;
          lives = refl;
          some_items = (some_item, most);
          valid_items = valid;
          one_currency = same;
          total =
              ap (λ x. x.grand_total_minor) (prices _ currency) ∙ sum_line_totals-items items valid;
        }

    create_for_cart-IsCreation :
        (cart : CheckoutCartSnapshot) (s : Store World)
        → ((lines : List PriceLineInput) (currency : Text)
            → ports.price lines currency ≡ default_price lines currency)
        → s.checkouts ≡ cs
        → IsCreation (create_for_cart db ports c user input cart s)
    unfolding create_for_cart with_world IsCreation AreBuilt
    create_for_cart-IsCreation cart s prices e = require_cases IsCreation cart_empty s _ _ e (
        guard_cases IsCreation cart_empty s (leb (length cart.items) max_checkout_items) _ e λ most.
          bind_result (λ x. x.1.checkouts ≡ cs) IsCreation (with_world (ports.get_customer user)) _
            s e
            (λ found t h. or_raise_cases IsCreation checkout_conflict t found _ h λ customer.
              bind_result (AreBuilt ports cs cart.items) IsCreation (build_items ports cart.items) _
                t (build_items-AreBuilt ports cs cart.items t h)
                (λ items u built. elim (Option-cases (single_currency items)) [
                  | inl n ↦ rw (n, bind_none) built.0
                  | inr (currency, n) ↦
                      rw (n, bind_some)
                        (store-IsCreation _ u
                          (new_checkout-IsNew cart customer _ _ items currency prices built.1
                            (omega (arith, built.2, leb_le (length cart.items) 50 most)) n)
                          built.0)
                ])
                (λ x u same. same))
            (λ x t h. h))

  -- Where the prices are those of `DefaultCheckoutPricing`, creating a checkout either stores none,
  -- whether it raises or replays an earlier request, or stores one more and returns it: the user's,
  -- priced, with the key of the request, which no stored checkout of the user had, without
  -- reservations, expiring in half an hour, with 1 to 50 items of 1 to 50 pieces in one currency, and
  -- a grand total that is the sum of quantity times unit price.
  pub create_checkout-IsCreation :
      (db : Collection Checkout) (ports : Ports World) (world : World)
      → ((lines : List PriceLineInput) (currency : Text)
          → ports.price lines currency ≡ default_price lines currency)
      → IsCreation
          (create_checkout db ports c user input (record { checkouts = cs; world = world }))
  unfolding create_checkout with_world find_by_user_and_key IsCreation
  create_checkout-IsCreation db ports world prices =
      let s : Store World = record { checkouts = cs; world = world } in
      bind_result (λ r. r.1.checkouts ≡ cs) IsCreation
        (find_by_user_and_key db user input.idempotency_key) _ s refl
        (elim [
          | some prior ↦ λ t h. replay-IsCreation db ports prior t h
          | none ↦ λ t h.
              bind_result (λ r. r.1.checkouts ≡ cs) IsCreation (with_world (ports.get_cart user)) _
                t h
                (λ snapshot u k.
                  or_raise_cases IsCreation cart_empty u snapshot _ k
                    λ cart. create_for_cart-IsCreation db ports cart u prices k)
                (λ x u k. k)
        ])
        (λ x t h. h)

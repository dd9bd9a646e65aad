-- ===== src/Checkout/Keeping.antt =====
-- The calls of src/modules/checkout/application/CheckoutService.ts that create, complete and expire,
-- and a checkout that is stored before them.
use rest_ecommerce_api.Prelude.Text.{Text}
use rest_ecommerce_api.Prelude.{
  ℕ, refl, true, false, not, leb, Option, none, some, List, [], ◌∷◌, first,
}
use rest_ecommerce_api.Mongo.{Collection}
use rest_ecommerce_api.Errors.{Error, ok, err}
use rest_ecommerce_api.Errors.Rules.{
  Keeps, Keeps-bind, Keeps-pure, Keeps-raise, Keeps-or_raise, Keeps-attempt, Keeps-if,
  Keeps-require, Keeps-read,
}
use rest_ecommerce_api.Checkout.Entity.{Checkout, is_terminal_checkout_status}
use rest_ecommerce_api.Checkout.Ports.{Ports, CheckoutCartSnapshot}
use rest_ecommerce_api.Checkout.Repository.{has_id, find_by_user_and_key, find_active_expired}
use rest_ecommerce_api.Checkout.Checking.{Request, CreateCheckoutInput}
use rest_ecommerce_api.Checkout.Service.{
  replay_checkout, recover_checkout, store_checkout, create_for_cart, create_checkout,
  require_owned, require_live, expire_now, complete,
}
use rest_ecommerce_api.Checkout.Reserving.{
  Sweep, expire_round, expire_one, expire_each, expire_checkouts,
}
use rest_ecommerce_api.Checkout.Laws.{
  On, with_world-Keeps, compensate-Keeps, find_by_id_lem, find_by_user_and_key_lem,
}
use rest_ecommerce_api.Checkout.Follows.{Follows, create-Keeps, expired-Keeps, completed-Keeps}
use rest_ecommerce_api.Checkout.Effects.{build_items-Keeps}

module _ {World : Type 0} (db : Collection Checkout) (ports : Ports World) (id : Text)
    (before : Checkout) where
  -- What the first lookups of every operation keep.
  find_by_key-Keeps :
      (user key : Text)
      → Keeps (On {World = World} (Follows id before)) (find_by_user_and_key db user key)
  find_by_key-Keeps user key =
      Keeps-read _ (λ s. first _ s.checkouts) (λ s. find_by_user_and_key_lem db s user key)

  pub require_owned-Keeps :
      (user i : Text)
      → Keeps (On {World = World} (Follows id before)) (require_owned db ports user i)
  unfolding require_owned
  require_owned-Keeps user i =
      Keeps-bind _ _ (Keeps-read _ (λ s. first (has_id i) s.checkouts) (λ s. find_by_id_lem db s i))
        λ found.
          Keeps-bind _ _ (Keeps-or_raise found _)
            λ c. Keeps-bind _ _ (Keeps-require _ _) λ _. Keeps-pure c

  replay-Keeps :
      (input : CreateCheckoutInput) (prior : Checkout)
      → Keeps (On {World = World} (Follows id before)) (replay_checkout db ports input prior)
  unfolding replay_checkout
  replay-Keeps input prior = Keeps-bind _ _ (Keeps-require _ _) λ _. Keeps-pure _

  recover-Keeps :
      (user : Text) (input : CreateCheckoutInput) (e : Error)
      → Keeps (On {World = World} (Follows id before)) (recover_checkout db ports user input e)
  unfolding recover_checkout
  recover-Keeps user input e = Keeps-bind _ _ (Keeps-require _ _) λ _.
      Keeps-bind _ _ (find_by_key-Keeps user input.idempotency_key)
        λ found. Keeps-bind _ _ (Keeps-or_raise found e) λ winner. replay-Keeps input winner

  store_checkout-Keeps :
      (user : Text) (input : CreateCheckoutInput) (c : Checkout)
      → Keeps (On {World = World} (Follows id before)) (store_checkout db ports user input c)
  unfolding store_checkout
  store_checkout-Keeps user input c =
      Keeps-bind _ _ (Keeps-attempt _ (create-Keeps db id before c))
        (elim [ ok _ ↦ Keeps-pure _ | err e ↦ recover-Keeps user input e ])

  create_for_cart-Keeps :
      (c : Request) (user : Text) (input : CreateCheckoutInput) (cart : CheckoutCartSnapshot)
      → Keeps (On {World = World} (Follows id before)) (create_for_cart db ports c user input cart)
  unfolding create_for_cart
  create_for_cart-Keeps c user input cart = Keeps-bind _ _ (Keeps-require _ _) λ _.
      Keeps-bind _ _ (Keeps-require _ _) λ _.
        Keeps-bind _ _ (with_world-Keeps (Follows id before) (ports.get_customer user)) λ found.
          Keeps-bind _ _ (Keeps-or_raise found _) λ customer.
            Keeps-bind _ _ (build_items-Keeps (Follows id before) ports cart.items) λ items.
              Keeps-bind _ _ (Keeps-or_raise _ _) λ currency. store_checkout-Keeps user input _

  pub create_checkout-Keeps :
      (c : Request) (user : Text) (input : CreateCheckoutInput)
      → Keeps (On {World = World} (Follows id before)) (create_checkout db ports c user input)
  unfolding create_checkout
  create_checkout-Keeps c user input =
      Keeps-bind _ _ (find_by_key-Keeps user input.idempotency_key) (elim [
        | some prior ↦ replay-Keeps input prior
        | none ↦
            Keeps-bind _ _ (with_world-Keeps (Follows id before) (ports.get_cart user)) λ snapshot.
              Keeps-bind _ _ (Keeps-or_raise snapshot _)
                λ cart. create_for_cart-Keeps c user input cart
      ])

  pub complete-Keeps :
      (c : Request) (i order : Text) (version : Option ℕ)
      → Keeps (On {World = World} (Follows id before)) (complete db ports c i order version)
  unfolding complete
  complete-Keeps c i order version =
      Keeps-bind _ _ (completed-Keeps db id before c.now i order version)
        λ completed. Keeps-bind _ _ (Keeps-or_raise completed _) λ _. Keeps-pure _

  pub expire_now-Keeps :
      (now : ℕ) (c : Checkout)
      → Keeps (On {World = World} (Follows id before)) (expire_now db ports now c)
  unfolding expire_now
  expire_now-Keeps now c =
      Keeps-bind _ _ (compensate-Keeps (Follows id before) db ports c.reservations)
        λ _. Keeps-bind _ _ (expired-Keeps db id before now c.id none) λ _. Keeps-raise _

  pub require_live-Keeps :
      (now : ℕ) (c : Checkout)
      → Keeps (On {World = World} (Follows id before)) (require_live db ports now c)
  unfolding require_live
  require_live-Keeps now c =
      Keeps-if (is_terminal_checkout_status c.status) _ _ (Keeps-pure c)
        (Keeps-if (not (leb c.expires_at now)) _ _ (Keeps-pure c) (expire_now-Keeps now c))

  expire_one-Keeps :
      (now : ℕ) (c : Checkout)
      → Keeps (On {World = World} (Follows id before)) (expire_one db ports now c)
  unfolding expire_one expire_round
  expire_one-Keeps now c =
      Keeps-bind _ _ (compensate-Keeps (Follows id before) db ports c.reservations) λ _.
        Keeps-bind _ _ (record { at = λ s h. h })
          λ _. Keeps-bind _ _ (expired-Keeps db id before now c.id none) λ _. Keeps-pure _

  expire_each-Keeps :
      (now : ℕ) (due : List Checkout) (done : Sweep)
      → Keeps (On {World = World} (Follows id before)) (expire_each db ports now due done)
  unfolding expire_each
  expire_each-Keeps now [] done = Keeps-pure done
  expire_each-Keeps now (c ∷ due) done =
      Keeps-bind _ _ (Keeps-attempt _ (expire_one-Keeps now c)) (elim [
        | ok true ↦ expire_each-Keeps now due _
        | ok false ↦ expire_each-Keeps now due _
        | err e ↦ expire_each-Keeps now due _
      ])

  pub expire_checkouts-Keeps :
      (now : ℕ) (limit : Option ℕ)
      → Keeps (On {World = World} (Follows id before)) (expire_checkouts db ports now limit)
  unfolding expire_checkouts find_active_expired
  expire_checkouts-Keeps now limit =
      Keeps-bind _ _ (Keeps-read _ _ (λ s. refl)) λ due. expire_each-Keeps now due _

-- ===== src/Cart/Versions.antt =====
-- The optimistic version of a cart in
-- src/modules/cart/infrastructure/database/cart.repository.ts.
use rest_ecommerce_api.Prelude.Text.{Text}
use rest_ecommerce_api.Prelude.{
  ℕ, ◌≡◌, refl, subst, inl, inr, Bool, true, false, none, some, ℤ, arith, nat_eq, first, any,
  modify_first, if◌then◌else◌, Bool-cases,
}
use rest_ecommerce_api.Prelude.Updates.{
  first-narrow, first_unique, modify_first-miss, first-modify_first,
}
use rest_ecommerce_api.Mongo.{Collection}
use rest_ecommerce_api.Errors.{Error, ok, err, cart_stale, cart_item_not_found, pure, raise}
use rest_ecommerce_api.Errors.Rules.{bind_ok, bind_some}
use rest_ecommerce_api.Cart.Entity.{Cart}
use rest_ecommerce_api.Cart.Repository.{
  Store, Request, of_user, has_id, can_change, changed_cart, pulled_cart, cleared_cart, open_cart,
  update, update_quantity, remove_item, clear,
}
use rest_ecommerce_api.Cart.Laws.{update_lem, get_by_user_id_lem}
use rest_ecommerce_api.Cart.Shape.{IsCarts}
use rest_ecommerce_api.Cart.Requests.{update_quantity-Keeps}

-- A request on the user's line: a stale version, unless the line is not there.
unfoldable pub refusal : Text → Cart → Error
unfolding any
refusal id cart = if any (has_id id) cart.items then cart_stale else cart_item_not_found

module _ (db : Collection Cart) (c : Request) (user : Text) (v : ℕ) (s : Store) (cart : Cart)
    (h : IsCarts s) (e : first (of_user user) s ≡ some cart)
    (stale : nat_eq cart.version v ≡ false) where
  -- The conditional update finds no cart.
  missed :
      (p : Cart → Bool) (f : Cart → Cart)
      → ((x : Cart) → p x ≡ true → open_cart user (some v) x ≡ true)
      → update db p f s ≡ (ok none, s)
  missed p f k =
      let fails : p cart ≡ false = ground (arith, k cart) in
      let none_open : first p s ≡ none =
        first_unique (of_user user) p s cart (h.one_cart user) e (λ x t. ground (arith, k x t))
          fails in
      rw (update_lem db s p f) (rw none_open (rw (modify_first-miss p f s none_open) refl))

  stale_change-refused :
      (id : Text) (q : ℤ) → update_quantity db c user id q v s ≡ (err (refusal id cart), s)
  unfolding update_quantity refusal raise
  stale_change-refused id q =
      rw
        (bind_ok _ _ s
          (missed (can_change user (some v) id) (changed_cart c.now id q) (λ x t. ground arith)))
        (rw (bind_ok _ _ s (get_by_user_id_lem db s user)) (
          rw (e, bind_some)
            (elim (Bool-cases (any (has_id id) cart.items)) [
              | inl t ↦ rw t refl
              | inr t ↦ rw t refl
            ])))

  stale_removal-refused :
      (id : Text) → remove_item db c user id (some v) s ≡ (err (refusal id cart), s)
  unfolding remove_item refusal raise
  stale_removal-refused id =
      rw
        (bind_ok _ _ s
          (missed (can_change user (some v) id) (pulled_cart c.now id) (λ x t. ground arith)))
        (rw (bind_ok _ _ s (get_by_user_id_lem db s user)) (
          rw e (elim (Bool-cases (any (has_id id) cart.items)) [
            | inl t ↦ rw t refl
            | inr t ↦ rw t refl
          ])))

  stale_clear-refused : clear db c user (some v) s ≡ (err cart_stale, s)
  unfolding clear raise
  stale_clear-refused =
      rw (bind_ok _ _ s (missed (open_cart user (some v)) (cleared_cart c.now) (λ x t. t)))
        (rw (bind_ok _ _ s (get_by_user_id_lem db s user)) (rw e refl))

  -- The three requests on a cart that names a version which is not the stored one raise (a stale cart,
  -- or a line that is not found), and leave every cart as it was.
  pub stale-refused :
      (id : Text) (q : ℤ)
      → (update_quantity db c user id q v s ≡ (err (refusal id cart), s))
        × (remove_item db c user id (some v) s ≡ (err (refusal id cart), s))
        × (clear db c user (some v) s ≡ (err cart_stale, s))
  stale-refused id q = (stale_change-refused id q, stale_removal-refused id, stale_clear-refused)

module _ (db : Collection Cart) (user : Text) (s : Store) (cart : Cart) where
  -- No lost update: of two changes of a user's cart that name the same version, the first, which finds
  -- its line, is stored, and the second, for any line and quantity, raises and changes nothing.
  pub second_change-refused :
      (first_c second_c : Request) (id id' : Text) (q q' : ℤ) (v : ℕ)
      → IsCarts s
      → first (of_user user) s ≡ some cart
      → can_change user (some v) id cart ≡ true
      → let changed = changed_cart first_c.now id q cart in
        let s' = (update_quantity db first_c user id q v s).1 in
        (update_quantity db first_c user id q v s ≡ (ok changed, s'))
        × (first (of_user user) s' ≡ some changed)
        × (update_quantity db second_c user id' q' v s' ≡ (err (refusal id' changed), s'))
  unfolding update_quantity pure
  second_change-refused first_c second_c id id' q q' v h e t =
      let changed = changed_cart first_c.now id q cart in
      let narrow : first (can_change user (some v) id) s ≡ some cart =
        first-narrow (of_user user) (can_change user (some v) id) s cart (λ x y. ground arith) e
          t in
      let s2 = modify_first (can_change user (some v) id) (changed_cart first_c.now id q) s in
      let stored : update_quantity db first_c user id q v s ≡ (ok changed, s2) =
        rw
          (bind_ok _ _ s
            (update_lem db s (can_change user (some v) id) (changed_cart first_c.now id q)))
          (rw narrow refl) in
      let seen : first (of_user user) s2 ≡ some changed =
        first-modify_first (of_user user) (can_change user (some v) id)
          (changed_cart first_c.now id q) s cart e narrow (λ x y. ground arith) (ground arith) in
      let kept : IsCarts s2 =
        subst (λ z. IsCarts z.1) stored ((update_quantity-Keeps db first_c user id q v).at s h) in
      let stale : nat_eq changed.version v ≡ false = ground arith in
      rw stored
        (refl, seen, stale_change-refused db second_c user v s2 changed kept seen stale id' q')

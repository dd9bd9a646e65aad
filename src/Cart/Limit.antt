-- ===== src/Cart/Limit.antt =====
-- The limit on the lines of a cart: addOrMergeItem of cart.repository.ts and toView of
-- CartService.ts in src/modules/cart.
use rest_ecommerce_api.Prelude.Text.{Text, ◌==◌}
use rest_ecommerce_api.Prelude.{
  ℕ, ◌≤◌, ◌≡◌, refl, true, false, Option, none, some, arith, leb, length, first, any, modify_first,
}
use rest_ecommerce_api.Prelude.Updates.{
  first-holds, first-narrow, first_unique, first-modify_first, length-append,
}
use rest_ecommerce_api.Mongo.{Collection}
use rest_ecommerce_api.Errors.{
  Error, ok, err, cart_limit, invalid_quantity, sku_unavailable, pure, raise, require, ◌>>=◌,
}
use rest_ecommerce_api.Errors.Rules.{require_ok, bind_ok, bind_err, bind_some, attempt_lem}
use rest_ecommerce_api.Cart.Entity.{
  Cart, CartItem, CatalogLineInfo, CartCatalogPort, is_valid_quantity, cart_item_identity,
  cart_max_lines,
}
use rest_ecommerce_api.Cart.Repository.{
  Store, Request, of_user, has_sku, has_version, is_active, can_merge, merged_cart, can_push,
  pushed_cart, push_item, add_or_merge_item,
}
use rest_ecommerce_api.Cart.View.{AddToCartInput, to_view}
use rest_ecommerce_api.Cart.Service.{
  resolve_line, new_item, add_resolved, add_item, get_cart, rethrown,
}
use rest_ecommerce_api.Cart.Laws.{update_missed, update_found, get_or_create_active}
use rest_ecommerce_api.Cart.Shape.{IsCarts}

-- A cart of more than fifty lines has no view.
to_view-over :
    (catalog : CartCatalogPort) (cart : Cart) (s : Store)
    → leb (length cart.items) cart_max_lines ≡ false
    → to_view catalog cart s ≡ (err cart_limit, s)
unfolding to_view require ◌>>=◌
to_view-over catalog cart s over = rw over refl

module _ (db : Collection Cart) (c : Request) (user : Text) (version : Option ℕ) (item : CartItem)
    (s : Store) (cart : Cart) where
  -- An item of a new SKU is pushed behind up to fifty lines.
  add_or_merge_item-pushed :
      IsCarts s
      → first (of_user user) s ≡ some cart
      → is_active cart ≡ true
      → has_version version cart ≡ true
      → any (has_sku item.sku) cart.items ≡ false
      → length cart.items ≤ 50
      → add_or_merge_item db c user version item s ≡ (
        ok (record { cart = pushed_cart c.now item cart; created = true }),
        modify_first (can_push user version item.sku) (pushed_cart c.now item) s,
      )
  unfolding add_or_merge_item push_item pure
  add_or_merge_item-pushed h e opened current new room =
      let no_merge : first (can_merge user version item.sku) s ≡ none =
        first_unique (of_user user) (can_merge user version item.sku) s cart (h.one_cart user) e
          (λ x t. ground arith) (ground arith) in
      let push : first (can_push user version item.sku) s ≡ some cart =
        first-narrow (of_user user) (can_push user version item.sku) s cart (λ x t. ground arith) e
          (ground (arith, first-holds (of_user user) s cart e)) in
      rw (bind_ok _ _ s (get_or_create_active db s c user cart e opened)) (
        rw (bind_ok _ _ s (update_missed db s _ (merged_cart c.now item) no_merge))
          (rw (bind_ok _ _ s (update_found db s _ (pushed_cart c.now item) cart push)) refl))

module _ (db : Collection Cart) (catalog : CartCatalogPort) (user : Text) (s : Store) where
  add_item-raises :
      (c : Request) (input : AddToCartInput) (info : CatalogLineInfo) (e : Error) (s' : Store)
      → is_valid_quantity input.quantity ≡ true
      → resolve_line catalog input ≡ some info
      → info.purchasable ≡ true
      → add_resolved db catalog c user input info s ≡ (err e, s')
      → add_item db catalog c user input s ≡ (err (rethrown e), s')
  unfolding add_item raise
  add_item-raises c input info e s' valid resolved sold raised =
      rw (bind_ok _ _ s (require_ok _ invalid_quantity s valid)) (
        rw (resolved, bind_some)
          (rw (bind_ok _ _ s (require_ok _ sku_unavailable s sold))
            (rw (bind_ok _ _ s (attempt_lem _ s raised)) refl)))

  get_cart-over :
      (c : Request) (cart : Cart)
      → first (of_user user) s ≡ some cart
      → is_active cart ≡ true
      → leb (length cart.items) cart_max_lines ≡ false
      → get_cart db catalog c user s ≡ (err cart_limit, s)
  unfolding get_cart
  get_cart-over c cart e opened over =
      rw (bind_ok _ _ s (get_or_create_active db s c user cart e opened))
        (to_view-over catalog cart s over)

module _ (db : Collection Cart) (catalog : CartCatalogPort) (user : Text) (s : Store)
    (cart : Cart) where
  -- A request to add a line with a valid quantity, of a SKU that resolves to a line that can be bought
  -- and is not in the user's active cart of exactly fifty lines, and with the cart's version if it names
  -- one, where no user has two carts: it raises the limit error, but the line is stored, and a read of
  -- the cart directly behind it, at any time, raises that error too and changes nothing.
  pub add_item-overfills :
      (c later : Request) (input : AddToCartInput) (info : CatalogLineInfo)
      → IsCarts s
      → first (of_user user) s ≡ some cart
      → is_active cart ≡ true
      → has_version input.expected_version cart ≡ true
      → length cart.items ≡ 50
      → any (has_sku (cart_item_identity info.sku)) cart.items ≡ false
      → is_valid_quantity input.quantity ≡ true
      → resolve_line catalog input ≡ some info
      → info.purchasable ≡ true
      → let s' = (add_item db catalog c user input s).1 in
        let overfull = pushed_cart c.now (new_item c info input.quantity) cart in
        (add_item db catalog c user input s ≡ (err cart_limit, s'))
        × (first (of_user user) s' ≡ some overfull)
        × (get_cart db catalog later user s' ≡ (err cart_limit, s'))
  unfolding add_resolved rethrown new_item
  add_item-overfills c later input info h e opened current full new valid resolved sold =
      let item = new_item c info input.quantity in
      let overfull = pushed_cart c.now item cart in
      let filter = can_push user input.expected_version item.sku in
      let s2 = modify_first filter (pushed_cart c.now item) s in
      let over : leb (length overfull.items) cart_max_lines ≡ false =
        ground (arith, length-append cart.items (record item { updated_at = c.now })) in
      let stored =
        add_or_merge_item-pushed db c user input.expected_version item s cart h e opened current new
          (omega (arith, full)) in
      let pushed : add_resolved db catalog c user input info s ≡ (err cart_limit, s2) =
        rw (bind_ok _ _ s stored)
          (bind_err (to_view catalog overfull) _ s2 (to_view-over catalog overfull s2 over)) in
      let mine : (cart.user_id == user) ≡ true = first-holds (of_user user) s cart e in
      let narrow : first filter s ≡ some cart =
        first-narrow (of_user user) filter s cart (λ x t. ground arith) e (ground arith) in
      let seen : first (of_user user) s2 ≡ some overfull =
        first-modify_first (of_user user) filter (pushed_cart c.now item) s cart e narrow
          (λ x t. ground arith) mine in
      rw (add_item-raises db catalog user s c input info cart_limit s2 valid resolved sold pushed)
        (refl, seen, get_cart-over db catalog user s2 later overfull seen opened over)

-- ===== src/Cart/Service.antt =====
-- src/modules/cart/application/CartService.ts: the requests on a cart. A request draws the
-- identifier of a cart that it creates from `c.uuid 0`, and of a line from `c.uuid 1`.
use rest_ecommerce_api.Prelude.Text.{Text, is_empty}
use rest_ecommerce_api.Prelude.{ℕ, Bool, Option, none, some, ℤ, first, if◌then◌else◌}
use rest_ecommerce_api.Mongo.{Collection}
use rest_ecommerce_api.Errors.{
  Error, Action, ok, err, invalid_quantity, sku_unavailable, cart_item_not_found,
  quantity_exceeds_max, pure, raise, or_raise, attempt, require, ◌>>=◌, ◌>>◌,
}
use rest_ecommerce_api.Cart.Entity.{
  Cart, CartItem, CatalogLineInfo, CartCatalogPort, cart_item_identity, is_valid_quantity,
}
use rest_ecommerce_api.Cart.View.{AddToCartInput, UpdateCartItemInput, CartView, to_view}
use rest_ecommerce_api.Cart.Repository.{
  Store, Request, AddItemResult, get_by_user_id, get_or_create, add_or_merge_item, update_quantity,
  has_id,
}
use rest_ecommerce_api.Cart.Repository

pub record AddedView : Type 0 where
  pub view : CartView
  pub created : Bool

-- A string that is missing or empty is falsy.
abbrev pub truthy : Option Text → Option Text
truthy none = none
truthy (some t) = if is_empty t then none else some t

unfoldable pub resolve_line : CartCatalogPort → AddToCartInput → Option CatalogLineInfo
resolve_line catalog input = elim (truthy input.sku) [
  | some sku ↦ catalog.resolve_sku (cart_item_identity sku)
  | none ↦ elim (truthy input.product_id) [
    | some product ↦ catalog.resolve_product_variant product input.variant_id
    | none ↦ none
  ]
]

unfoldable pub new_item : Request → CatalogLineInfo → ℤ → CartItem
new_item c info quantity = record {
  item_id = c.uuid 1;
  sku = cart_item_identity info.sku;
  variant_id = info.variant_id;
  product_id = info.product_id;
  title = info.title;
  variant_label = info.variant_label;
  image_url = info.image_url;
  quantity = quantity;
  price = record { unit_minor = info.unit_minor; currency = info.currency };
  added_at = c.now;
  updated_at = c.now;
}

-- The `catch` of `addItem`.
unfoldable pub rethrown : Error → Error
rethrown quantity_exceeds_max = invalid_quantity
rethrown e = e

module _ (db : Collection Cart) (catalog : CartCatalogPort) where
  unfoldable pub get_cart : Request → Text → Action Store CartView
  get_cart c user = do cart ← get_or_create db c user; to_view catalog cart

  -- The `try` of `addItem`.
  unfoldable pub add_resolved :
      Request → Text → AddToCartInput → CatalogLineInfo → Action Store AddedView
  add_resolved c user input info = do
    added ← add_or_merge_item db c user input.expected_version (new_item c info input.quantity)
    view ← to_view catalog added.cart
    pure (record { view = view; created = added.created })

  unfoldable pub add_item : Request → Text → AddToCartInput → Action Store AddedView
  add_item c user input = do
    require (is_valid_quantity input.quantity) invalid_quantity
    info ← or_raise (resolve_line catalog input) sku_unavailable
    require info.purchasable sku_unavailable
    outcome ← attempt (add_resolved c user input info)
    elim outcome [ ok added ↦ pure added | err e ↦ raise (rethrown e) ]

  -- The line that `cart?.items.find(…)` yields.
  abbrev pub line_of : Option Cart → Text → Option CartItem
  line_of none id = none
  line_of (some cart) id = first (has_id id) cart.items

  unfoldable pub update_item : Request → Text → Text → UpdateCartItemInput → Action Store CartView
  update_item c user id input = do
    require (is_valid_quantity input.quantity) invalid_quantity
    cart ← get_by_user_id db user
    line ← or_raise (line_of cart id) cart_item_not_found
    info ← or_raise (catalog.resolve_sku line.sku) sku_unavailable
    require info.purchasable sku_unavailable
    updated ← update_quantity db c user id input.quantity input.expected_version
    to_view catalog updated

  unfoldable pub remove_item : Request → Text → Text → Option ℕ → Action Store CartView
  remove_item c user id version = do
    cart ← Repository.remove_item db c user id version
    to_view catalog cart

  unfoldable pub clear_cart : Request → Text → Option ℕ → Action Store CartView
  clear_cart c user version = do cart ← Repository.clear db c user version; to_view catalog cart

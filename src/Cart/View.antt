-- ===== src/Cart/View.antt =====
-- The views of src/modules/cart/application/CartService.ts.
use rest_ecommerce_api.Prelude.Text.{Text, ◌==◌}
use rest_ecommerce_api.Prelude.{
  ℕ, Bool, true, false, ◌||◌, not, Option, none, some, List, [], ◌∷◌, map, ℤ, ◌*ℤ◌, leb, eq_ℤ, any,
  length, sum_by,
}
use rest_ecommerce_api.Errors.{Action, cart_limit, pure, require, ◌>>◌}
use rest_ecommerce_api.Cart.Entity.{
  Cart, CartItem, CartStatus, CatalogLineInfo, CartCatalogPort, cart_max_lines, cart_subtotal_minor,
}
use rest_ecommerce_api.Cart.Repository.{Store}

pub record AddToCartInput : Type 0 where
  pub sku : Option Text
  pub product_id : Option Text
  pub variant_id : Option Text
  pub quantity : ℤ
  pub expected_version : Option ℕ

pub record UpdateCartItemInput : Type 0 where
  pub quantity : ℤ
  pub expected_version : ℕ

pub record CartViewItem : Type 0 where
  pub item_id : Text
  pub sku : Text
  pub variant_id : Text
  pub product_id : Text
  pub title : Text
  pub variant_label : Option Text
  pub image_url : Option Text
  pub quantity : ℤ
  pub unit_minor : ℤ
  pub currency : Text
  pub line_total_minor : ℤ
  pub price_stale : Bool
  pub unavailable : Bool

pub record CartView : Type 0 where
  pub id : Text
  pub status : CartStatus
  pub items : List CartViewItem
  pub item_count : ℤ
  pub subtotal_minor : ℤ
  pub currency : Option Text
  pub version : ℕ
  pub has_stale_prices : Bool
  pub has_unavailable_items : Bool
  pub created_at : ℕ
  pub updated_at : ℕ
  pub last_activity_at : ℕ

unfoldable pub price_stale : Option CatalogLineInfo → CartItem → Bool
price_stale none line = false
price_stale (some current) line =
    not (eq_ℤ current.unit_minor line.price.unit_minor)
    || not (current.currency == line.price.currency)

unfoldable pub unavailable : Option CatalogLineInfo → Bool
unavailable none = true
unavailable (some current) = not current.purchasable

-- `current?.title ?? line.title`
abbrev pub current_title : Option CatalogLineInfo → CartItem → Text
current_title none line = line.title
current_title (some current) line = current.title

abbrev pub current_image : Option CatalogLineInfo → CartItem → Option Text
current_image none line = line.image_url
current_image (some current) line = elim current.image_url [
  | some url ↦ some url
  | none ↦ line.image_url
]

unfoldable pub view_item : Option CatalogLineInfo → CartItem → CartViewItem
view_item current line = record {
  item_id = line.item_id;
  sku = line.sku;
  variant_id = line.variant_id;
  product_id = line.product_id;
  title = current_title current line;
  variant_label = line.variant_label;
  image_url = current_image current line;
  quantity = line.quantity;
  unit_minor = line.price.unit_minor;
  currency = line.price.currency;
  line_total_minor = line.price.unit_minor *ℤ line.quantity;
  price_stale = price_stale current line;
  unavailable = unavailable current;
}

abbrev pub first_currency : List CartItem → Option Text
first_currency [] = none
first_currency (line ∷ lines) = some line.price.currency

-- The view, for the lookup by SKU that the catalog returned.
unfoldable pub view_of : (Text → Option CatalogLineInfo) → Cart → CartView
unfolding any sum_by
view_of refresh cart =
    let items = map (λ line. view_item (refresh line.sku) line) cart.items in
    record {
      id = cart.id;
      status = cart.status;
      items = items;
      item_count = sum_by (λ i. i.quantity) items;
      subtotal_minor = cart_subtotal_minor cart;
      currency = first_currency cart.items;
      version = cart.version;
      has_stale_prices = any (λ i. i.price_stale) items;
      has_unavailable_items = any (λ i. i.unavailable) items;
      created_at = cart.created_at;
      updated_at = cart.updated_at;
      last_activity_at = cart.last_activity_at;
    }

unfoldable pub to_view : CartCatalogPort → Cart → Action Store CartView
to_view catalog cart = do
  require (leb (length cart.items) cart_max_lines) cart_limit
  let refresh = catalog.refresh_line_info (map (λ i. i.sku) cart.items)
  pure (view_of refresh cart)

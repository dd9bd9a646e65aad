-- ===== src/Cart/Entity.antt =====
-- src/modules/cart/domain/entities/Cart.ts and the catalog port of domain/repositories.
use rest_ecommerce_api.Prelude.Text.{Text, trim, to_upper_case}
use rest_ecommerce_api.Prelude.{
  ℕ, Bool, ◌&&◌, Option, List, [], ◌∷◌, ℤ, pos, ◌*ℤ◌, leb_ℤ, nat_eq, any, sum_by,
}

pub data CartStatus : Type 0 where
  active converted expired : CartStatus

pub record CartPriceSnapshot : Type 0 where
  pub unit_minor : ℤ
  pub currency : Text

-- `priceStale` and `unavailable` are false in every stored line, and are left out.
pub record CartItem : Type 0 where
  pub item_id : Text
  pub sku : Text
  pub variant_id : Text
  pub product_id : Text
  pub title : Text
  pub variant_label : Option Text
  pub image_url : Option Text
  pub quantity : ℤ
  pub price : CartPriceSnapshot
  pub added_at : ℕ
  pub updated_at : ℕ

-- `expires_at` is a field of the stored document alone.
pub record Cart : Type 0 where
  pub id : Text
  pub user_id : Text
  pub status : CartStatus
  pub items : List CartItem
  pub version : ℕ
  pub created_at : ℕ
  pub updated_at : ℕ
  pub last_activity_at : ℕ
  pub expires_at : ℕ

abbrev pub cart_min_qty : ℤ
cart_min_qty = pos 1

abbrev pub cart_max_qty : ℤ
cart_max_qty = pos 50

abbrev pub cart_max_lines : ℕ
cart_max_lines = 50

abbrev pub cart_ttl_days : ℕ
cart_ttl_days = 30

abbrev status_code : CartStatus → ℕ
status_code active = 0
status_code converted = 1
status_code expired = 2

abbrev pub status_eq : CartStatus → CartStatus → Bool
status_eq a b = nat_eq (status_code a) (status_code b)

abbrev pub allowed_transitions : CartStatus → List CartStatus
allowed_transitions active = converted ∷ expired ∷ []
allowed_transitions expired = active ∷ []
allowed_transitions converted = []

unfoldable pub can_transition_cart_status : CartStatus → CartStatus → Bool
unfolding any
can_transition_cart_status from to = any (status_eq to) (allowed_transitions from)

unfoldable pub cart_item_identity : Text → Text
cart_item_identity sku = to_upper_case (trim sku)

unfoldable pub is_valid_quantity : ℤ → Bool
is_valid_quantity value = leb_ℤ cart_min_qty value && leb_ℤ value cart_max_qty

unfoldable pub cart_subtotal_minor : Cart → ℤ
unfolding sum_by
cart_subtotal_minor cart = sum_by (λ item. item.price.unit_minor *ℤ item.quantity) cart.items

pub record CatalogLineInfo : Type 0 where
  pub product_id : Text
  pub variant_id : Text
  pub sku : Text
  pub title : Text
  pub variant_label : Option Text
  pub image_url : Option Text
  pub unit_minor : ℤ
  pub currency : Text
  pub purchasable : Bool

-- The map that `refreshLineInfo` returns is a lookup by SKU; a null entry and a missing one read alike.
pub record CartCatalogPort : Type 0 where
  pub resolve_sku : Text → Option CatalogLineInfo
  pub resolve_product_variant : Text → Option Text → Option CatalogLineInfo
  pub refresh_line_info : List Text → Text → Option CatalogLineInfo

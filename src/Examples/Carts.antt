-- ===== src/Examples/Carts.antt =====
-- The carts at concrete inputs.
use rest_ecommerce_api.Prelude.Text.{Text, text, ◌==◌, eq_iff, to_upper_case, trim}
use rest_ecommerce_api.Prelude.{
  ℕ, zero, suc, ◌≤◌, ◌<◌, sym, inl, inr, Bool-cases, ◌≡◌, refl, true, none, some, List, [], ◌∷◌,
  pos, arith, count_by, first, any, length,
}
use rest_ecommerce_api.Mongo.{Collection}
use rest_ecommerce_api.Memory.{memory}
use rest_ecommerce_api.Errors.{ok, err, cart_stale, cart_limit}
use rest_ecommerce_api.Cart.Entity.{
  Cart, CartItem, CatalogLineInfo, CartCatalogPort, active, is_valid_quantity, cart_item_identity,
}
use rest_ecommerce_api.Cart.Repository.{
  Store, Request, of_user, has_sku, changed_cart, pushed_cart, update_quantity, remove_item, clear,
}
use rest_ecommerce_api.Prelude.{sum_by, ◌↔◌, ◌*ℤ◌, All, false}
use rest_ecommerce_api.Cart.Totals.{IsPriced, IsSold, view_of-totals}
use rest_ecommerce_api.Cart.View.{AddToCartInput, view_of}
use rest_ecommerce_api.Cart.Service.{resolve_line, new_item, add_item, get_cart}
use rest_ecommerce_api.Cart.Shape.{IsCarts}
use rest_ecommerce_api.Cart.Requests.{adds, step, step-IsCarts}
use rest_ecommerce_api.Cart.Versions.{refusal, stale-refused, second_change-refused}
use rest_ecommerce_api.Cart.Limit.{add_item-overfills}

abbrev pub db : Collection Cart
db = memory Cart

abbrev pub request : ℕ → Request
request n = record { now = n; uuid = λ k. n ∷ k ∷ [] }

-- The line number `n`: its SKU and its identifier are the one character of code `n`.
abbrev line : ℕ → CartItem
line n = record {
  item_id = n ∷ [];
  sku = n ∷ [];
  variant_id = [];
  product_id = [];
  title = [];
  variant_label = none;
  image_url = none;
  quantity = pos 1;
  price = record { unit_minor = pos 100; currency = text "INR" };
  added_at = 0;
  updated_at = 0;
}

abbrev cart_of : List CartItem → Cart
cart_of items = record {
  id = text "cart";
  user_id = text "ann";
  status = active;
  items = items;
  version = 7;
  created_at = 0;
  updated_at = 0;
  last_activity_at = 0;
  expires_at = 0;
}

-- The lines from the number `n` on, downwards.
abbrev lines : ℕ → List CartItem
lines zero = []
lines (suc n) = line (suc n) ∷ lines n

abbrev pub catalog : CartCatalogPort
catalog = record {
  resolve_sku = λ sku. some (record {
    product_id = [];
    variant_id = [];
    sku = 120 ∷ [];
    title = [];
    variant_label = none;
    image_url = none;
    unit_minor = pos 100;
    currency = text "INR";
    purchasable = true;
  });
  resolve_product_variant = λ product variant. none;
  refresh_line_info = λ skus sku. none;
}

abbrev adding : Text → AddToCartInput
adding sku = record {
  sku = some sku;
  product_id = none;
  variant_id = none;
  quantity = pos 2;
  expected_version = none;
}

-- Lines of smaller numbers have other SKUs.
lines-fresh : (m n : ℕ) → n < m → count_by (has_sku (m ∷ [])) (lines n) ≡ 0
unfolding count_by ◌==◌
lines-fresh m zero le = refl
lines-fresh m (suc n) le =
    let rest : count_by (has_sku (m ∷ [])) (lines n) ≡ 0 = lines-fresh m n (omega (arith, le)) in
    ground (arith, le, rest)

lines-IsCart : (k : Text) (n : ℕ) → count_by (has_sku k) (lines n) ≤ 1
unfolding count_by
lines-IsCart k zero = omega arith
lines-IsCart k (suc n) = elim (Bool-cases ((suc n ∷ []) == k)) [
  | inl t ↦
      let rest : count_by (has_sku k) (lines n) ≡ 0 =
        rw (sym ((eq_iff (suc n ∷ []) k).0 t)) (lines-fresh (suc n) n (omega arith)) in
      ground (arith, rest)
  | inr t ↦ ground (arith, lines-IsCart k n)
]

-- A store of the one cart with the lines from `n` on.
abbrev store_of : ℕ → Store
store_of n = cart_of (lines n) ∷ []

store_of-IsCarts : (n : ℕ) → length (lines n) ≤ 51 → IsCarts (store_of n)
unfolding count_by
store_of-IsCarts n le = record {
  carts = (record { one_line = λ k. lines-IsCart k n; bounded = le }, tt);
  one_cart = λ u. ground arith;
}

step-IsCarts_example :
    IsCarts (step db catalog (adds (request 9) (text "ann") (adding (text "x"))) (store_of 2))
step-IsCarts_example =
    step-IsCarts db catalog (adds (request 9) (text "ann") (adding (text "x"))) (store_of 2)
      (store_of-IsCarts 2 (omega arith))

stale-refused_example :
    (update_quantity db (request 9) (text "ann") (1 ∷ []) (pos 4) 6 (store_of 2)
      ≡ (err (refusal (1 ∷ []) (cart_of (lines 2))), store_of 2))
    × (remove_item db (request 9) (text "ann") (1 ∷ []) (some 6) (store_of 2)
        ≡ (err (refusal (1 ∷ []) (cart_of (lines 2))), store_of 2))
    × (clear db (request 9) (text "ann") (some 6) (store_of 2) ≡ (err cart_stale, store_of 2))
unfolding first ◌==◌
stale-refused_example =
    stale-refused db (request 9) (text "ann") 6 (store_of 2) (cart_of (lines 2))
      (store_of-IsCarts 2 (omega arith)) refl refl (1 ∷ []) (pos 4)

second_change-refused_example :
    let s' = (update_quantity db (request 8) (text "ann") (1 ∷ []) (pos 4) 7 (store_of 2)).1 in
    let changed = changed_cart 8 (1 ∷ []) (pos 4) (cart_of (lines 2)) in
    (update_quantity db (request 8) (text "ann") (1 ∷ []) (pos 4) 7 (store_of 2) ≡ (ok changed, s'))
    × (first (of_user (text "ann")) s' ≡ some changed)
    × (update_quantity db (request 9) (text "ann") (2 ∷ []) (pos 6) 7 s'
        ≡ (err (refusal (2 ∷ []) changed), s'))
unfolding first any ◌==◌
second_change-refused_example =
    second_change-refused db (text "ann") (store_of 2) (cart_of (lines 2)) (request 8) (request 9)
      (1 ∷ []) (2 ∷ []) (pos 4) (pos 6) 7 (store_of-IsCarts 2 (omega arith)) refl refl

abbrev info : CatalogLineInfo
info = record {
  product_id = [];
  variant_id = [];
  sku = 120 ∷ [];
  title = [];
  variant_label = none;
  image_url = none;
  unit_minor = pos 100;
  currency = text "INR";
  purchasable = true;
}

add_item-overfills_example :
    let s' = (add_item db catalog (request 8) (text "ann") (adding (text "x")) (store_of 50)).1 in
    let overfull = pushed_cart 8 (new_item (request 8) info (pos 2)) (cart_of (lines 50)) in
    (add_item db catalog (request 8) (text "ann") (adding (text "x")) (store_of 50)
      ≡ (err cart_limit, s'))
    × (first (of_user (text "ann")) s' ≡ some overfull)
    × (get_cart db catalog (request 9) (text "ann") s' ≡ (err cart_limit, s'))
unfolding first any ◌==◌ resolve_line is_valid_quantity cart_item_identity to_upper_case trim
add_item-overfills_example =
    add_item-overfills db catalog (text "ann") (store_of 50) (cart_of (lines 50)) (request 8)
      (request 9) (adding (text "x")) info (store_of-IsCarts 50 (omega arith)) refl refl refl refl
      refl refl refl refl

view_of-totals_example :
    let view = view_of (λ sku. some info) (cart_of (lines 2)) in
    (view.subtotal_minor ≡ sum_by (λ i. i.line_total_minor) view.items)
    × All (λ i. i.line_total_minor ≡ i.unit_minor *ℤ i.quantity) view.items
    × (view.item_count ≡ sum_by (λ l. l.quantity) (cart_of (lines 2)).items)
    × ((view.has_stale_prices ≡ false) ↔ All (IsPriced (some info)) (cart_of (lines 2)).items)
    × ((view.has_unavailable_items ≡ false)
        ↔ All (λ l. IsSold (some info)) (cart_of (lines 2)).items)
view_of-totals_example = view_of-totals (λ sku. some info) (cart_of (lines 2))

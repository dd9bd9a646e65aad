-- ===== src/Cart/Totals.antt =====
-- The sums and flags of a view: toView of src/modules/cart/application/CartService.ts.
use mathlib.Core.Option.{some-injective}
use rest_ecommerce_api.Prelude.Text.{Text, eq_iff}
use rest_ecommerce_api.Prelude.{
  ◌≡◌, ◌↔◌, refl, sym, Bool, true, false, Option, none, some, subst, List, [], ◌∷◌, map, ℤ, ◌*ℤ◌,
  eq_ℤ, any, sum_by, All, arith,
}
use rest_ecommerce_api.Cart.Entity.{Cart, CartItem, CatalogLineInfo, cart_subtotal_minor}
use rest_ecommerce_api.Cart.View.{view_item, view_of, price_stale, unavailable}

module _ {A B : Type 0} (f : A → B) where
  sum_by-map : (g : B → ℤ) (xs : List A) → sum_by g (map f xs) ≡ sum_by (λ x. g (f x)) xs
  unfolding sum_by
  sum_by-map g [] = refl
  sum_by-map g (x ∷ xs) = rw (sum_by-map g xs) refl

  any-map : (p : B → Bool) (xs : List A) → any p (map f xs) ≡ any (λ x. p (f x)) xs
  unfolding any
  any-map p [] = refl
  any-map p (x ∷ xs) = rw (any-map p xs) refl

module _ {A : Type 0} (p : A → Bool) (Q : A → Type 0) (told : (x : A) → (p x ≡ false) ↔ Q x) where
  -- A test that no element passes.
  any-All : (xs : List A) → (any p xs ≡ false) ↔ All Q xs
  unfolding any
  any-All [] = (λ e. tt, λ h. refl)
  any-All (x ∷ xs) =
      let (there, back) = any-All xs in
      (
        λ e. ((told x).0 (ground (arith, e)), there (ground (arith, e))),
        λ h. ground (arith, (told x).1 h.0, back h.1),
      )

-- The line has the unit price and the currency that the catalog has, where it knows the SKU.
abbrev pub IsPriced : Option CatalogLineInfo → CartItem → Type 0
IsPriced found line =
    (current : CatalogLineInfo)
    → found ≡ some current
    → (eq_ℤ current.unit_minor line.price.unit_minor ≡ true)
      × (current.currency ≡ line.price.currency)

-- The catalog knows the SKU and sells it.
abbrev pub IsSold : Option CatalogLineInfo → Type 0
IsSold found = (current : CatalogLineInfo) × (found ≡ some current) × (current.purchasable ≡ true)

price_stale-IsPriced :
    (found : Option CatalogLineInfo) (line : CartItem)
    → (price_stale found line ≡ false) ↔ IsPriced found line
unfolding price_stale
price_stale-IsPriced none line = (λ e current h. absurd (ground (arith, h)), λ h. refl)
price_stale-IsPriced (some now) line =
    let same_text = eq_iff now.currency line.price.currency in
    (
      λ e current h.
          subst
            (λ x.
              (eq_ℤ x.unit_minor line.price.unit_minor ≡ true) × (x.currency ≡ line.price.currency))
            (some-injective now current h) (ground (arith, e), same_text.0 (ground (arith, e))),
      λ h. ground (arith, (h now refl).0, same_text.1 (h now refl).1),
    )

unavailable-IsSold : (found : Option CatalogLineInfo) → (unavailable found ≡ false) ↔ IsSold found
unfolding unavailable
unavailable-IsSold none = (λ e. absurd (ground (arith, e)), λ h. absurd (ground (arith, h.1)))
unavailable-IsSold (some now) = (
  λ e. (now, refl, ground (arith, e)),
  λ h. rw (some-injective now h.0 h.1) (ground (arith, h.2)),
)

module _ (refresh : Text → Option CatalogLineInfo) where
  items-total :
      (lines : List CartItem)
      → All
          (λ i. i.line_total_minor ≡ i.unit_minor *ℤ i.quantity)
          (map (λ line. view_item (refresh line.sku) line) lines)
  unfolding view_item
  items-total [] = tt
  items-total (line ∷ lines) = (refl, items-total lines)

  -- A view's subtotal is the sum of the line totals that it shows, each the unit price that it shows
  -- times the quantity that it shows; its count is the sum of the quantities in the cart. It flags no
  -- stale price exactly where every line whose SKU the catalog knows has the catalog's price and
  -- currency, and nothing unavailable exactly where the catalog knows and sells the SKU of every line.
  pub view_of-totals :
      (cart : Cart)
      → let view = view_of refresh cart in
        (view.subtotal_minor ≡ sum_by (λ i. i.line_total_minor) view.items)
        × All (λ i. i.line_total_minor ≡ i.unit_minor *ℤ i.quantity) view.items
        × (view.item_count ≡ sum_by (λ line. line.quantity) cart.items)
        × ((view.has_stale_prices ≡ false)
            ↔ All (λ line. IsPriced (refresh line.sku) line) cart.items)
        × ((view.has_unavailable_items ≡ false)
            ↔ All (λ line. IsSold (refresh line.sku)) cart.items)
  unfolding view_of view_item cart_subtotal_minor
  view_of-totals cart =
      let shown = λ (line : CartItem). view_item (refresh line.sku) line in
      (
        sym (sum_by-map shown (λ i. i.line_total_minor) cart.items),
        items-total cart.items,
        sum_by-map shown (λ i. i.quantity) cart.items,
        rw (any-map shown (λ i. i.price_stale) cart.items)
            (any-All _ _ (λ line. price_stale-IsPriced (refresh line.sku) line) cart.items),
        rw (any-map shown (λ i. i.unavailable) cart.items)
            (any-All _ _ (λ line. unavailable-IsSold (refresh line.sku)) cart.items),
      )

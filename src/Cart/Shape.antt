-- ===== src/Cart/Shape.antt =====
-- The shape of the carts that src/modules/cart/infrastructure/database/cart.repository.ts stores.
use rest_ecommerce_api.Prelude.Text.{Text, ◌==◌, eq_iff}
use rest_ecommerce_api.Prelude.{
  ℕ, ◌≤◌, ◌≡◌, refl, inl, inr, Bool, true, false, not, Option, ℤ, arith, All, length, any,
  modify_first, count_by, Bool-cases,
}
use rest_ecommerce_api.Prelude.Updates.{
  count_by-modify_first, count_by-append, count_by-any, length-modify_first, length-append,
  length-filter_by, count_by-filter_by,
}
use rest_ecommerce_api.Cart.Entity.{Cart, CartItem}
use rest_ecommerce_api.Cart.Repository.{
  Store, of_user, has_sku, has_id, can_push, pushed_cart, merged_cart, changed_cart, pulled_cart,
  rolled_back_cart,
}

-- At most one line to a SKU, and at most 51 lines.
pub record IsCart (cart : Cart) : Type 0 where
  pub one_line : (k : Text) → count_by (has_sku k) cart.items ≤ 1
  pub bounded : length cart.items ≤ 51

-- At most one cart to a user.
pub record IsCarts (s : Store) : Type 0 where
  pub carts : All IsCart s
  pub one_cart : (u : Text) → count_by (of_user u) s ≤ 1

replaced_lines :
    (now : ℕ) (p : CartItem → Bool) (f : CartItem → CartItem) (cart : Cart)
    → ((x : CartItem) → (f x).sku ≡ x.sku)
    → IsCart cart
    → ((k : Text) → count_by (has_sku k) (modify_first p f cart.items) ≤ 1)
      × (length (modify_first p f cart.items) ≤ 51)
replaced_lines now p f cart same h = (
  λ k. rw (count_by-modify_first (has_sku k) p f cart.items (λ x. rw (same x))) (h.one_line k),
  rw (length-modify_first p f cart.items) h.bounded,
)

pub merged_cart-IsCart :
    (now : ℕ) (item : CartItem) (cart : Cart) → IsCart cart → IsCart (merged_cart now item cart)
merged_cart-IsCart now item cart h =
    let (one, short) = replaced_lines now _ _ cart (λ x. refl) h in
    record { one_line = one; bounded = short }

pub changed_cart-IsCart :
    (now : ℕ) (id : Text) (q : ℤ) (cart : Cart) → IsCart cart → IsCart (changed_cart now id q cart)
changed_cart-IsCart now id q cart h =
    let (one, short) = replaced_lines now _ _ cart (λ x. refl) h in
    record { one_line = one; bounded = short }

pub rolled_back_cart-IsCart :
    (now : ℕ) (id : Text) (q : ℤ) (cart : Cart)
    → IsCart cart
    → IsCart (rolled_back_cart now id q cart)
rolled_back_cart-IsCart now id q cart h =
    let (one, short) = replaced_lines 0 _ _ cart (λ x. refl) h in
    record { one_line = one; bounded = short }

pub pulled_cart-IsCart :
    (now : ℕ) (id : Text) (cart : Cart) → IsCart cart → IsCart (pulled_cart now id cart)
pulled_cart-IsCart now id cart h = record {
  one_line = λ k.
      omega
        (arith, count_by-filter_by (has_sku k) (λ l. not (has_id id l)) cart.items, h.one_line k);
  bounded = omega (arith, length-filter_by (λ l. not (has_id id l)) cart.items, h.bounded);
}

pub pushed_cart-IsCart :
    (now : ℕ) (user : Text) (version : Option ℕ) (item : CartItem) (cart : Cart)
    → can_push user version item.sku cart ≡ true
    → IsCart cart
    → IsCart (pushed_cart now item cart)
pushed_cart-IsCart now user version item cart t h =
    let new : any (has_sku item.sku) cart.items ≡ false = ground arith in
    let room : length cart.items ≤ 50 = ground arith in
    let stored : CartItem = record item { updated_at = now } in
    record {
      one_line = λ k. elim (Bool-cases (item.sku == k)) [
        | inl y ↦
            let none_yet : count_by (has_sku k) cart.items ≡ 0 =
              count_by-any (has_sku k) (has_sku item.sku) cart.items new
                (λ x e. rw ((eq_iff item.sku k).0 y) e) in
            ground (arith, count_by-append (has_sku k) cart.items stored)
        | inr n ↦ ground (arith, count_by-append (has_sku k) cart.items stored, h.one_line k)
      ];
      bounded = omega (arith, length-append cart.items stored, room);
    }

-- ===== src/Checkout/Pricing.antt =====
-- The items that src/modules/checkout/application/CheckoutService.ts builds from the lines of a cart
-- and the catalog, and their prices.
use rest_ecommerce_api.Prelude.Text.{Text, ◌==◌, eq_iff}
use rest_ecommerce_api.Prelude.{
  suc, ◌≤◌, ◌≡◌, refl, ap, subst, inl, inr, true, some, List, [], ◌∷◌, All, every, length, map, pos,
  ◌*ℤ◌, ◌≤ℤ◌, sum_by, arith, Bool-cases,
}
use mathlib.Core.Option.{some-injective}
use rest_ecommerce_api.Errors.{Result, ok, err, item_unavailable, pure}
use rest_ecommerce_api.Errors.Rules.{bind_result, or_raise_cases, guard_cases}
use rest_ecommerce_api.Checkout.Entity.{Checkout, CheckoutItem, price_line_total, sum_line_totals}
use rest_ecommerce_api.Checkout.Ports.{Ports, CheckoutCartItem}
use rest_ecommerce_api.Checkout.Repository.{Store, with_world}
use rest_ecommerce_api.Checkout.Checking.{checkout_item, build_items, single_currency}

-- An item with an admitted quantity, whose total is the quantity times the unit price.
pub record IsValidItem (item : CheckoutItem) : Type 0 where
  pub at_least_one : pos 1 ≤ℤ item.quantity
  pub at_most_fifty : item.quantity ≤ℤ pos 50
  pub totalled : item.line_total_minor ≡ item.quantity *ℤ item.unit_minor

every-All :
    (currency : Text) (items : List CheckoutItem)
    → every (λ item. item.currency == currency) items ≡ true
    → All (λ item. item.currency ≡ currency) items
unfolding every
every-All currency [] e = tt
every-All currency (item ∷ items) e = (
  (eq_iff item.currency currency).0 (ground (arith, e)),
  every-All currency items (ground (arith, e)),
)

-- The items in one currency share it.
pub single_currency-All :
    (items : List CheckoutItem) (currency : Text)
    → single_currency items ≡ some currency
    → All (λ item. item.currency ≡ currency) items × (1 ≤ length items)
unfolding single_currency
single_currency-All [] currency e = absurd (ground arith)
single_currency-All (item ∷ items) currency e =
    elim (Bool-cases (every (λ other. other.currency == item.currency) items)) [
      | inl t ↦
          let same : item.currency ≡ currency = some-injective _ _ (rw t at e) in
          (
            (
              same,
              subst (λ z. All (λ other. other.currency ≡ z) items) same
                  (every-All item.currency items t),
            ),
            omega arith,
          )
      | inr t ↦ absurd (ground (arith, rw t at e))
    ]

-- The sum over the lines of the price is the sum of the totals of the items.
pub sum_line_totals-items :
    (items : List CheckoutItem)
    → All IsValidItem items
    → sum_line_totals
        (map (λ item. record { quantity = item.quantity; unit_minor = item.unit_minor }) items)
      ≡ sum_by (λ item. item.line_total_minor) items
unfolding sum_line_totals sum_by price_line_total
sum_line_totals-items [] h = refl
sum_line_totals-items (item ∷ items) h = rw (h.0.totalled, sum_line_totals-items items h.1) refl

module _ {World : Type 0} (ports : Ports World) (cs : List Checkout) where
  -- Building the items changes no checkout, and what it returns is valid, line by line.
  unfoldable pub AreBuilt :
      List CheckoutCartItem → Result (List CheckoutItem) × Store World → Type 0
  AreBuilt lines (ok items, s) =
      (s.checkouts ≡ cs) × All IsValidItem items × (length items ≡ length lines)
  AreBuilt lines (err e, s) = s.checkouts ≡ cs

  pub build_items-AreBuilt :
      (lines : List CheckoutCartItem) (s : Store World)
      → s.checkouts ≡ cs
      → AreBuilt lines (build_items ports lines s)
  unfolding build_items AreBuilt with_world pure checkout_item
  build_items-AreBuilt [] s e = (e, tt, refl)
  build_items-AreBuilt (line ∷ lines) s e =
      bind_result (λ x. x.1.checkouts ≡ cs) (AreBuilt (line ∷ lines))
        (with_world (ports.get_line line.sku)) _ s e
        (λ found t h.
          or_raise_cases (AreBuilt (line ∷ lines)) item_unavailable t found _ h λ priced.
            guard_cases (AreBuilt (line ∷ lines)) item_unavailable t priced.purchasable _ h λ _.
              guard_cases (AreBuilt (line ∷ lines)) item_unavailable t _ _ h λ admitted.
                bind_result (AreBuilt lines) (AreBuilt (line ∷ lines)) (build_items ports lines) _ t
                  (build_items-AreBuilt lines t h)
                  (λ items u built. (
                    built.0,
                    (
                      record {
                        at_least_one = ground (arith, admitted);
                        at_most_fifty = ground (arith, admitted);
                        totalled = refl;
                      },
                      built.1,
                    ),
                    ap suc built.2,
                  ))
                  (λ x u same. same))
        (λ x t h. h)

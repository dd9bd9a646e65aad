-- ===== src/Cart/Requests.antt =====
-- The shape of the stored carts under the requests of
-- src/modules/cart/application/CartService.ts.
use rest_ecommerce_api.Prelude.Text.{Text, ◌==◌, eq_iff}
use rest_ecommerce_api.Prelude.{
  ℕ, ◌≡◌, refl, sym, inl, inr, Bool, true, Option, none, some, List, [], ◌∷◌, ℤ, arith, first,
  count_by, Bool-cases,
}
use rest_ecommerce_api.Prelude.Updates.{
  All-modify_first, All-append, count_by-modify_first, count_by-append, count_by-any,
}
use rest_ecommerce_api.Mongo.{Collection}
use rest_ecommerce_api.Errors.{Action, ok, err, ◌>>=◌}
use rest_ecommerce_api.Errors.Rules.{
  Keeps, Keeps-bind, Keeps-pure, Keeps-raise, Keeps-if, Keeps-or_raise, Keeps-option, Keeps-attempt,
  Keeps-require, keeps_rules,
}
use rest_ecommerce_api.Cart.Entity.{Cart, CartItem, CartCatalogPort}
use rest_ecommerce_api.Cart.Repository.{
  Store, Request, AddItemResult, of_user, has_sku, has_id, can_push, pushed_cart, merged_cart,
  changed_cart, pulled_cart, cleared_cart, rolled_back_cart, reactivated, new_cart, cart_clash,
  find, update, save, get_by_user_id, create_cart, reopen, get_or_create, check_merged, push_item,
  add_or_merge_item, update_quantity, clear, mark_converted,
}
use rest_ecommerce_api.Cart.Repository
use rest_ecommerce_api.Cart.View.{AddToCartInput, UpdateCartItemInput, to_view}
use rest_ecommerce_api.Cart.Service.{
  get_cart, add_resolved, add_item, update_item, remove_item, clear_cart,
}
use rest_ecommerce_api.Cart.Laws.{update_lem, save_cases}
use rest_ecommerce_api.Cart.Shape.{
  IsCart, IsCarts, merged_cart-IsCart, changed_cart-IsCart, rolled_back_cart-IsCart,
  pulled_cart-IsCart, pushed_cart-IsCart,
}

new_cart-IsCart : (c : Request) (user : Text) → IsCart (new_cart c user)
unfolding count_by
new_cart-IsCart c user = record { one_line = λ k. omega arith; bounded = omega arith }

cleared_cart-IsCart : (now : ℕ) (cart : Cart) → IsCart (cleared_cart now cart)
unfolding count_by
cleared_cart-IsCart now cart = record { one_line = λ k. omega arith; bounded = omega arith }

same_lines : (x y : Cart) → x.items ≡ y.items → IsCart x → IsCart y
same_lines x y e h = record { one_line = rw (sym e) h.one_line; bounded = rw (sym e) h.bounded }

module _ (db : Collection Cart) where
  find-Keeps : (p : Cart → Bool) → Keeps IsCarts (find db p)
  unfolding find
  find-Keeps p = record { at = λ s h. h }

  update-Keeps :
      (p : Cart → Bool) (f : Cart → Cart)
      → ((x : Cart) → (f x).user_id ≡ x.user_id)
      → ((x : Cart) → p x ≡ true → IsCart x → IsCart (f x))
      → Keeps IsCarts (update db p f)
  update-Keeps p f same k = record {
    at = λ s h. rw (update_lem db s p f) (record {
      carts = All-modify_first IsCart p f s k h.carts;
      one_cart =
          λ u. rw (count_by-modify_first (of_user u) p f s (λ x. rw (same x))) (h.one_cart u);
    });
  }

  save-Keeps : (cart : Cart) → IsCart cart → Keeps IsCarts (save db cart)
  save-Keeps cart new = record {
    at = λ s h. elim (save_cases db s cart) [
      | inl (e, l) ↦ rw l h
      | inr (fresh, l) ↦ rw l (record {
        carts = All-append IsCart s (cart ∷ []) h.carts (new, tt);
        one_cart = λ u. elim (Bool-cases (cart.user_id == u)) [
          | inl y ↦
              let none_yet : count_by (of_user u) s ≡ 0 =
                count_by-any (of_user u) (cart_clash cart) s fresh (λ x e. ground (
                  arith,
                  eq_iff cart.user_id x.user_id,
                  eq_iff x.user_id u,
                  eq_iff cart.user_id u,
                )) in
              ground (arith, count_by-append (of_user u) s cart)
          | inr n ↦ ground (arith, count_by-append (of_user u) s cart, h.one_cart u)
        ];
      })
    ];
  }

  get_by_user_id-Keeps : (user : Text) → Keeps IsCarts (get_by_user_id db user)
  unfolding get_by_user_id
  get_by_user_id-Keeps user = find-Keeps (of_user user)

  create_cart-Keeps : (c : Request) (user : Text) → Keeps IsCarts (create_cart db c user)
  unfolding create_cart
  create_cart-Keeps c user =
      Keeps-bind _ _ (Keeps-attempt _ (save-Keeps _ (new_cart-IsCart c user))) (elim [
        | ok a ↦ search (keeps_rules, get_by_user_id-Keeps)
        | err e ↦ search (keeps_rules, get_by_user_id-Keeps)
      ])

  reopen-Keeps : (c : Request) (user : Text) (e : Cart) → Keeps IsCarts (reopen db c user e)
  unfolding reopen
  reopen-Keeps c user e =
      Keeps-bind _ _ (update-Keeps _ _ (λ x. refl) (λ x t h. same_lines x _ refl h))
        (elim [ some cart ↦ Keeps-pure cart | none ↦ Keeps-pure e ])

  get_or_create-Keeps : (c : Request) (user : Text) → Keeps IsCarts (get_or_create db c user)
  unfolding get_or_create
  get_or_create-Keeps c user =
      Keeps-bind _ _ (get_by_user_id-Keeps user)
        (elim [ some e ↦ search (keeps_rules, reopen-Keeps) | none ↦ create_cart-Keeps c user ])

  check_merged-Keeps :
      (now : ℕ) (user : Text) (item : CartItem) (cart : Cart)
      → Keeps IsCarts (check_merged db now user item cart)
  unfolding check_merged
  check_merged-Keeps now user item cart =
      Keeps-option (first (has_sku item.sku) cart.items) _ _
        (λ line.
          Keeps-if _ _ _
            (Keeps-bind _ _
              (update-Keeps _ _ (λ x. refl) (λ x t h. rolled_back_cart-IsCart _ _ _ x h))
              (λ o. Keeps-raise _))
            (Keeps-pure _))
        (Keeps-pure _)

  push_item-Keeps :
      (c : Request) (user : Text) (v : Option ℕ) (item : CartItem)
      → Keeps IsCarts (push_item db c user v item)
  unfolding push_item
  push_item-Keeps c user v item =
      Keeps-bind _ _
        (update-Keeps _ _ (λ x. refl) (λ x t h. pushed_cart-IsCart c.now user v item x t h))
        (elim [ some cart ↦ Keeps-pure _ | none ↦ search (keeps_rules, get_by_user_id-Keeps) ])

  add_or_merge_item-Keeps :
      (c : Request) (user : Text) (v : Option ℕ) (item : CartItem)
      → Keeps IsCarts (add_or_merge_item db c user v item)
  unfolding add_or_merge_item
  add_or_merge_item-Keeps c user v item = Keeps-bind _ _ (get_or_create-Keeps c user) λ _.
      Keeps-bind _ _ (update-Keeps _ _ (λ x. refl) (λ x t h. merged_cart-IsCart c.now item x h))
        (elim [
          | some cart ↦ check_merged-Keeps _ user item cart
          | none ↦ push_item-Keeps c user v item
        ])

  pub update_quantity-Keeps :
      (c : Request) (user id : Text) (q : ℤ) (v : ℕ)
      → Keeps IsCarts (update_quantity db c user id q v)
  unfolding update_quantity
  update_quantity-Keeps c user id q v =
      Keeps-bind _ _ (update-Keeps _ _ (λ x. refl) (λ x t h. changed_cart-IsCart c.now id q x h))
        (elim [ some cart ↦ Keeps-pure cart | none ↦ search (keeps_rules, get_by_user_id-Keeps) ])

  repository_remove-Keeps :
      (c : Request) (user id : Text) (v : Option ℕ)
      → Keeps IsCarts (Repository.remove_item db c user id v)
  unfolding Repository.remove_item
  repository_remove-Keeps c user id v =
      Keeps-bind _ _ (update-Keeps _ _ (λ x. refl) (λ x t h. pulled_cart-IsCart c.now id x h))
        (elim [
          | some cart ↦ Keeps-pure cart
          | none ↦
              Keeps-bind _ _ (get_by_user_id-Keeps user)
                (elim [ none ↦ get_or_create-Keeps c user | some current ↦ search keeps_rules ])
        ])

  clear-Keeps : (c : Request) (user : Text) (v : Option ℕ) → Keeps IsCarts (clear db c user v)
  unfolding clear
  clear-Keeps c user v =
      Keeps-bind _ _ (update-Keeps _ _ (λ x. refl) (λ x t h. cleared_cart-IsCart c.now x)) (elim [
        | some cart ↦ Keeps-pure cart
        | none ↦
            Keeps-bind _ _ (get_by_user_id-Keeps user)
              (elim [ none ↦ get_or_create-Keeps c user | some current ↦ Keeps-raise _ ])
      ])

  mark_converted-Keeps : (c : Request) (user : Text) → Keeps IsCarts (mark_converted db c user)
  unfolding mark_converted
  mark_converted-Keeps c user =
      Keeps-bind _ _ (update-Keeps _ _ (λ x. refl) (λ x t h. same_lines x _ refl h))
        λ o. Keeps-pure tt

module _ (db : Collection Cart) (catalog : CartCatalogPort) where
  to_view-Keeps : (cart : Cart) → Keeps IsCarts (to_view catalog cart)
  unfolding to_view
  to_view-Keeps cart = search keeps_rules

  viewed : {m : Action Store Cart} → Keeps IsCarts m → Keeps IsCarts (m >>= to_view catalog)
  viewed km = Keeps-bind _ _ km to_view-Keeps

  get_cart-Keeps : (c : Request) (user : Text) → Keeps IsCarts (get_cart db catalog c user)
  unfolding get_cart
  get_cart-Keeps c user = viewed (get_or_create-Keeps db c user)

  add_item-Keeps :
      (c : Request) (user : Text) (input : AddToCartInput)
      → Keeps IsCarts (add_item db catalog c user input)
  unfolding add_item add_resolved
  add_item-Keeps c user input = Keeps-bind _ _ (Keeps-require _ _) λ _.
      Keeps-bind _ _ (Keeps-or_raise _ _) λ info. Keeps-bind _ _ (Keeps-require _ _) λ _.
        Keeps-bind _ _ (search (keeps_rules, add_or_merge_item-Keeps db, to_view-Keeps))
          (elim [ ok a ↦ Keeps-pure a | err e ↦ Keeps-raise _ ])

  update_item-Keeps :
      (c : Request) (user id : Text) (input : UpdateCartItemInput)
      → Keeps IsCarts (update_item db catalog c user id input)
  unfolding update_item
  update_item-Keeps c user id input = Keeps-bind _ _ (Keeps-require _ _) λ _.
      Keeps-bind _ _ (get_by_user_id-Keeps db user) λ cart.
        Keeps-bind _ _ (Keeps-or_raise _ _) λ line. Keeps-bind _ _ (Keeps-or_raise _ _) λ info.
          Keeps-bind _ _ (Keeps-require _ _)
            λ _. viewed (update_quantity-Keeps db c user id input.quantity input.expected_version)

  remove_item-Keeps :
      (c : Request) (user id : Text) (v : Option ℕ)
      → Keeps IsCarts (remove_item db catalog c user id v)
  unfolding remove_item
  remove_item-Keeps c user id v = viewed (repository_remove-Keeps db c user id v)

  clear_cart-Keeps :
      (c : Request) (user : Text) (v : Option ℕ) → Keeps IsCarts (clear_cart db catalog c user v)
  unfolding clear_cart
  clear_cart-Keeps c user v = viewed (clear-Keeps db c user v)

-- The requests that write, with what they bring; checkout marks a cart as converted.
pub data Call : Type 0 where
  reads : Request → Text → Call
  adds : Request → Text → AddToCartInput → Call
  updates : Request → Text → Text → UpdateCartItemInput → Call
  removes : Request → Text → Text → Option ℕ → Call
  clears : Request → Text → Option ℕ → Call
  converts : Request → Text → Call

module _ (db : Collection Cart) (catalog : CartCatalogPort) where
  -- The carts after a request, whether it succeeded or raised.
  unfoldable pub step : Call → Store → Store
  step (reads c user) s = (get_cart db catalog c user s).1
  step (adds c user input) s = (add_item db catalog c user input s).1
  step (updates c user id input) s = (update_item db catalog c user id input s).1
  step (removes c user id v) s = (remove_item db catalog c user id v s).1
  step (clears c user v) s = (clear_cart db catalog c user v s).1
  step (converts c user) s = (mark_converted db c user s).1

  unfoldable pub run : List Call → Store → Store
  run [] s = s
  run (call ∷ calls) s = run calls (step call s)

  -- Every request on a cart, successful or not, keeps at most one cart to a user, and in each cart at
  -- most one line to a SKU and at most 51 lines.
  pub step-IsCarts : (call : Call) (s : Store) → IsCarts s → IsCarts (step call s)
  unfolding step
  step-IsCarts (reads c user) s h = (get_cart-Keeps db catalog c user).at s h
  step-IsCarts (updates c user id input) s h = (update_item-Keeps db catalog c user id input).at s h
  step-IsCarts (removes c user id v) s h = (remove_item-Keeps db catalog c user id v).at s h
  step-IsCarts (clears c user v) s h = (clear_cart-Keeps db catalog c user v).at s h
  step-IsCarts (adds c user input) s h = (add_item-Keeps db catalog c user input).at s h
  step-IsCarts (converts c user) s h = (mark_converted-Keeps db c user).at s h

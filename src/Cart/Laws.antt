-- ===== src/Cart/Laws.antt =====
-- The operations of src/modules/cart/infrastructure/database/cart.repository.ts on a known store.
use mathlib.Core.Option
use rest_ecommerce_api.Prelude.Text.{Text}
use rest_ecommerce_api.Prelude.{
  ◌≡◌, refl, ◌⊎◌, inl, inr, Bool, true, false, none, some, [], ◌∷◌, ◌++◌, first, any, modify_first,
  Bool-cases,
}
use rest_ecommerce_api.Prelude.Updates.{modify_first-miss}
use rest_ecommerce_api.Mongo.{Collection}
use rest_ecommerce_api.Errors.{ok, err, Error, duplicate_key, write_failed, pure}
use rest_ecommerce_api.Errors.Rules.{bind_ok}
use rest_ecommerce_api.Cart.Entity.{Cart}
use rest_ecommerce_api.Cart.Repository.{
  Store, find, update, save, get_by_user_id, cart_clash, of_user, get_or_create, Request, is_active,
}

module _ (db : Collection Cart) (s : Store) where
  pub find_lem : (p : Cart → Bool) → find db p s ≡ (ok (first p s), s)
  unfolding find
  find_lem p = rw (db.find_one_first p s) refl

  pub get_by_user_id_lem :
      (user : Text) → get_by_user_id db user s ≡ (ok (first (of_user user) s), s)
  unfolding get_by_user_id
  get_by_user_id_lem user = find_lem (of_user user)

  pub update_lem :
      (p : Cart → Bool) (f : Cart → Cart)
      → update db p f s ≡ (ok (Option.map f (first p s)), modify_first p f s)
  unfolding update
  update_lem p f = rw (db.find_one_and_update_first p f s) refl

  pub save_cases :
      (cart : Cart)
      → ((e : Error) × (save db cart s ≡ (err e, s)))
        ⊎ ((any (cart_clash cart) s ≡ false) × (save db cart s ≡ (ok tt, s ++ cart ∷ [])))
  unfolding save
  save_cases cart = elim (db.insert_one_lem cart_clash cart s) [
    | inl e ↦ inl (write_failed, rw (e, save))
    | inr e ↦ elim (Bool-cases (any (cart_clash cart) s)) [
      | inl t ↦ inl (duplicate_key, rw (e, t, save))
      | inr t ↦ inr (t, rw (e, t, save))
    ]
  ]

  pub update_missed :
      (p : Cart → Bool) (f : Cart → Cart) → first p s ≡ none → update db p f s ≡ (ok none, s)
  update_missed p f e = rw (update_lem p f) (rw e (rw (modify_first-miss p f s e) refl))

  pub update_found :
      (p : Cart → Bool) (f : Cart → Cart) (d : Cart)
      → first p s ≡ some d
      → update db p f s ≡ (ok (some (f d)), modify_first p f s)
  update_found p f d e = rw (update_lem p f) (rw e refl)

  pub get_or_create_active :
      (c : Request) (user : Text) (cart : Cart)
      → first (of_user user) s ≡ some cart
      → is_active cart ≡ true
      → get_or_create db c user s ≡ (ok cart, s)
  unfolding get_or_create pure
  get_or_create_active c user cart e t =
      rw (bind_ok _ _ s (get_by_user_id_lem user)) (rw (e, t) refl)

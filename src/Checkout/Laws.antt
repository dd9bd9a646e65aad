-- ===== src/Checkout/Laws.antt =====
-- The operations of src/modules/checkout/infrastructure/database/checkout.repository.ts on a known
-- store, and the steps of the service that read a checkout first.
use mathlib.Core.Option
use rest_ecommerce_api.Prelude.Text.{Text, ◌==◌, eq_refl}
use rest_ecommerce_api.Prelude.{
  ℕ, ◌≡◌, refl, sym, ap, ◌∙◌, inl, inr, ◌⊎◌, Bool, true, false, Option, none, some, List, [], ◌∷◌,
  ◌++◌, first, any, modify_first, leb, Bool-cases, Option-cases,
}
use rest_ecommerce_api.Prelude.Updates.{modify_first-miss, first-narrow, first-modify_first}
use rest_ecommerce_api.Mongo.{Collection}
use rest_ecommerce_api.Errors.{
  Error, Action, Result, ok, err, duplicate_key, write_failed, checkout_not_found, checkout_expired,
  pure, raise, attempt, ◌>>=◌,
}
use rest_ecommerce_api.Errors.Rules.{
  Keeps, Keeps-bind, Keeps-pure, Keeps-attempt, bind_ok, bind_err, bind_none, bind_some, require_ok,
  require_err,
}
use rest_ecommerce_api.Checkout.Entity.{
  Checkout, CheckoutReservationRef, expired, is_terminal_checkout_status, active_checkout_statuses,
}
use rest_ecommerce_api.Checkout.Ports.{Ports}
use rest_ecommerce_api.Checkout.Repository.{
  Store, has_id, has_key, checkout_clash, with_world, update, create, find_by_id,
  find_by_user_and_key, transition, can_transition, moved_checkout,
}
use rest_ecommerce_api.Checkout.Service.{require_owned, require_live, expire_now, compensate}

module _ {World : Type 0} (db : Collection Checkout) (s : Store World) where
  pub find_by_id_lem : (id : Text) → find_by_id db id s ≡ (ok (first (has_id id) s.checkouts), s)
  unfolding find_by_id
  find_by_id_lem id = rw (db.find_one_first (has_id id) s.checkouts) refl

  pub find_by_user_and_key_lem :
      (user key : Text)
      → find_by_user_and_key db user key s ≡ (ok (first (has_key user key) s.checkouts), s)
  unfolding find_by_user_and_key
  find_by_user_and_key_lem user key = rw (db.find_one_first (has_key user key) s.checkouts) refl

  pub update_lem :
      (p : Checkout → Bool) (f : Checkout → Checkout)
      → update db p f s ≡ (
        ok (Option.map f (first p s.checkouts)),
        record s { checkouts = modify_first p f s.checkouts },
      )
  unfolding update
  update_lem p f = rw (db.find_one_and_update_first p f s.checkouts) refl

  -- An update raises nothing.
  pub update_ok :
      (p : Checkout → Bool) (f : Checkout → Checkout)
      → (found : Option Checkout) × (update db p f s ≡ (ok found, (update db p f s).1))
  unfolding update
  update_ok p f = ((db.find_one_and_update p f s.checkouts).0, refl)

  pub update_found :
      (p : Checkout → Bool) (f : Checkout → Checkout) (d : Checkout)
      → first p s.checkouts ≡ some d
      → update db p f s ≡ (ok (some (f d)), record s { checkouts = modify_first p f s.checkouts })
  update_found p f d e = rw (update_lem p f) (rw e refl)

  -- An update that the stored checkout with some identifier passes: it is stored as updated.
  pub update_stored :
      (p : Checkout → Bool) (f : Checkout → Checkout) (d : Checkout)
      → ((x : Checkout) → p x ≡ true → has_id d.id x ≡ true)
      → p d ≡ true
      → (f d).id ≡ d.id
      → first (has_id d.id) s.checkouts ≡ some d
      → (update db p f s ≡ (ok (some (f d)), (update db p f s).1))
        × (first (has_id d.id) (update db p f s).1.checkouts ≡ some (f d))
  update_stored p f d narrow t same e =
      let met = first-narrow (has_id d.id) p s.checkouts d narrow e t in
      let is_d : (f d).id == d.id ≡ true = ap (λ z. z == d.id) same ∙ eq_refl d.id in
      let stored = first-modify_first (has_id d.id) p f s.checkouts d e met narrow is_d in
      (rw (update_lem p f) (rw met refl), rw (update_lem p f) stored)

  pub update_missed :
      (p : Checkout → Bool) (f : Checkout → Checkout)
      → first p s.checkouts ≡ none
      → update db p f s ≡ (ok none, s)
  update_missed p f e = rw (update_lem p f) (rw e (rw (modify_first-miss p f s.checkouts e) refl))

  pub create_cases :
      (c : Checkout)
      → ((e : Error) × (create db c s ≡ (err e, s)))
        ⊎ ((any (checkout_clash c) s.checkouts ≡ false)
            × (create db c s ≡ (ok tt, record s { checkouts = s.checkouts ++ c ∷ [] })))
  unfolding create
  create_cases c = elim (db.insert_one_lem checkout_clash c s.checkouts) [
    | inl e ↦ inl (write_failed, rw (e, create))
    | inr e ↦ elim (Bool-cases (any (checkout_clash c) s.checkouts)) [
      | inl t ↦ inl (duplicate_key, rw (e, t, create))
      | inr t ↦ inr (t, rw (e, t, create))
    ]
  ]

-- What a predicate on the stored checkouts is.
abbrev pub On : {World : Type 0} → (List Checkout → Type 0) → Store World → Type 0
On P s = P s.checkouts

module _ {World : Type 0} (P : List Checkout → Type 0) where
  -- The other modules do not touch the checkouts.
  pub with_world-Keeps :
      {A : Type 0} (m : Action World A) → Keeps (On {World = World} P) (with_world m)
  unfolding with_world
  with_world-Keeps m = record { at = λ s h. h }

  pub compensate-Keeps :
      (db : Collection Checkout) (ports : Ports World) (refs : List CheckoutReservationRef)
      → Keeps (On {World = World} P) (compensate db ports refs)
  unfolding compensate
  compensate-Keeps db ports [] = Keeps-pure tt
  compensate-Keeps db ports (ref ∷ refs) =
      Keeps-bind _ _ (Keeps-attempt _ (with_world-Keeps (ports.release ref.reservation_id)))
        λ _. compensate-Keeps db ports refs

module _ {World : Type 0} (db : Collection Checkout) (ports : Ports World) where
  -- Releasing raises nothing.
  pub compensate_lem :
      (refs : List CheckoutReservationRef) (s : Store World)
      → compensate db ports refs s ≡ (ok tt, (compensate db ports refs s).1)
  unfolding compensate pure attempt ◌>>=◌
  compensate_lem [] s = refl
  compensate_lem (ref ∷ refs) s =
      compensate_lem refs (with_world (ports.release ref.reservation_id) s).1

  pub compensate_cons :
      (ref : CheckoutReservationRef) (refs : List CheckoutReservationRef) (s : Store World)
      → compensate db ports (ref ∷ refs) s
        ≡ compensate db ports refs (with_world (ports.release ref.reservation_id) s).1
  unfolding compensate attempt ◌>>=◌
  compensate_cons ref refs s = refl

  -- A transition always returns.
  pub moved_raise :
      {A : Type 0} (p : Checkout → Bool) (f : Checkout → Checkout) (e : Error) (s : Store World)
      → (update db p f >>= λ _. raise {A = A} e) s ≡ (err e, (update db p f s).1)
  unfolding ◌>>=◌ update raise
  moved_raise p f e s = refl

  pub expire_now_lem :
      (now : ℕ) (c : Checkout) (s : Store World)
      → expire_now db ports now c s ≡ (err checkout_expired, (expire_now db ports now c s).1)
  unfolding expire_now transition
  expire_now_lem now c s =
      let run =
        bind_ok _ _ s (compensate_lem c.reservations s)
        ∙ moved_raise (can_transition c.id active_checkout_statuses none)
            (moved_checkout now expired) checkout_expired
            (compensate db ports c.reservations s).1 in
      run ∙ ap (λ z. (err checkout_expired, z.1)) (sym run)

  pub owned_lem :
      (user id : Text) (s : Store World)
      → (require_owned db ports user id s ≡ (err checkout_not_found, s))
        ⊎ ((c : Checkout) × (first (has_id id) s.checkouts ≡ some c)
            × ((c.user_id == user) ≡ true)
            × (require_owned db ports user id s ≡ (ok c, s)))
  unfolding require_owned pure
  owned_lem user id s = elim (Option-cases (first (has_id id) s.checkouts)) [
    | inl e ↦ inl (rw (bind_ok _ _ s (find_by_id_lem db s id)) (rw (e, bind_none) refl))
    | inr (c, e) ↦ elim (Bool-cases (c.user_id == user)) [
      | inl t ↦ inr (
        c,
        e,
        t,
        rw (bind_ok _ _ s (find_by_id_lem db s id))
            (rw (e, bind_some) (rw (bind_ok _ _ s (require_ok _ checkout_not_found s t)) refl)),
      )
      | inr t ↦ inl (
          rw (bind_ok _ _ s (find_by_id_lem db s id))
            (rw (e, bind_some) (bind_err _ _ s (require_err _ checkout_not_found s t))))
    ]
  ]

  live_lem :
      (now : ℕ) (c : Checkout) (s : Store World)
      → (require_live db ports now c s ≡ (err checkout_expired, (expire_now db ports now c s).1))
        ⊎ (require_live db ports now c s ≡ (ok c, s))
  unfolding require_live pure
  live_lem now c s = elim (Bool-cases (is_terminal_checkout_status c.status)) [
    | inl t ↦ inr (rw t refl)
    | inr t ↦ elim (Bool-cases (leb c.expires_at now)) [
      | inl d ↦ inl (rw (t, d) (expire_now_lem now c s))
      | inr d ↦ inr (rw (t, d) refl)
    ]
  ]

module _ {World B : Type 0} (db : Collection Checkout) (ports : Ports World)
    (R : Result B × Store World → Type 0) (s : Store World) where
  -- What follows `requireOwned` may use that the checkout is the stored one, and the user's.
  pub owned_cases :
      (user id : Text) (f : Checkout → Action (Store World) B)
      → R (err checkout_not_found, s)
      → ((c : Checkout)
          → first (has_id id) s.checkouts ≡ some c
          → (c.user_id == user) ≡ true
          → R (f c s))
      → R ((require_owned db ports user id >>= f) s)
  owned_cases user id f missing found = elim (owned_lem db ports user id s) [
    | inl e ↦ rw (bind_err _ _ s e) missing
    | inr (c, e, t, l) ↦ rw (bind_ok _ _ s l) (found c e t)
  ]

  -- What follows `requireLive` stands at the same store.
  pub live_cases :
      (now : ℕ) (c : Checkout) (f : Checkout → Action (Store World) B)
      → R (err checkout_expired, (expire_now db ports now c s).1)
      → R (f c s)
      → R ((require_live db ports now c >>= f) s)
  live_cases now c f gone alive = elim (live_lem db ports now c s) [
    | inl e ↦ rw (bind_err _ _ s e) gone
    | inr e ↦ rw (bind_ok _ _ s e) alive
  ]

-- ===== src/Checkout/Follows.antt =====
-- What becomes of a stored checkout of src/modules/checkout/infrastructure/database: its statuses
-- along ALLOWED_TRANSITIONS, and what no operation may touch.
use rest_ecommerce_api.Prelude.Text.{Text, ◌==◌, eq_iff}
use rest_ecommerce_api.Prelude.{
  ℕ, ◌+◌, ◌≤◌, ◌≡◌, refl, sym, ap, ◌∙◌, subst, inl, inr, Bool, true, Option, some, List, [], ◌∷◌,
  arith, first, any, modify_first,
}
use mathlib.Core.Option.{some-injective}
use rest_ecommerce_api.Prelude.Updates.{first-holds}
use rest_ecommerce_api.Prelude.Replacing.{first-modify_first_cases, first-append_found}
use rest_ecommerce_api.Mongo.{Collection}
use rest_ecommerce_api.Errors.Rules.{Keeps}
use rest_ecommerce_api.Checkout.Entity.{
  Checkout, CheckoutStatus, CheckoutAddress, CheckoutReservationRef, priced, reserved, ready,
  completed, failed, expired, cancelled, is_in, active_checkout_statuses,
  can_transition_checkout_status,
}
use rest_ecommerce_api.Checkout.Repository.{
  Store, has_id, moved_checkout, can_change, failed_checkout, completed_checkout, update,
  transition, set_reservations, update_address, mark_failed, mark_completed, create,
}
use rest_ecommerce_api.Checkout.Laws.{update_lem, create_cases, On}

-- A status that the allowed transitions lead to.
pub data Reaches (from : CheckoutStatus) : CheckoutStatus → Type 0 where
  here : Reaches from from
  next :
      {a b : CheckoutStatus}
      → Reaches from a
      → can_transition_checkout_status a b ≡ true
      → Reaches from b

-- The same checkout, later.
pub record Evolves (before after : Checkout) : Type 0 where
  pub reaches : Reaches before.status after.status
  pub version_le : before.version ≤ after.version
  pub same_user : after.user_id ≡ before.user_id
  pub same_items : after.items ≡ before.items
  pub same_pricing : after.pricing ≡ before.pricing
  pub same_customer : after.customer ≡ before.customer
  pub same_cart : (after.cart_id ≡ before.cart_id) × (after.cart_version ≡ before.cart_version)
  pub same_expiry : after.expires_at ≡ before.expires_at

pub record Follows (id : Text) (before : Checkout) (cs : List Checkout) : Type 0 where
  pub current : Checkout
  pub found : first (has_id id) cs ≡ some current
  pub evolves : Evolves before current

-- An update may set these fields, with the next version.
updated :
    (before x : Checkout) (to : CheckoutStatus) (refs : List CheckoutReservationRef)
    (shipping billing : CheckoutAddress) (reason order : Option Text) (now : ℕ)
    → Reaches before.status to
    → Evolves before x
    → Evolves before (record x {
      status = to;
      reservations = refs;
      shipping_address = shipping;
      billing_address = billing;
      fail_reason = reason;
      order_id = order;
      updated_at = now;
      version = x.version + 1;
    })
updated before x to refs shipping billing reason order now r h = record {
  reaches = r;
  version_le = omega (arith, h.version_le);
  same_user = h.same_user;
  same_items = h.same_items;
  same_pricing = h.same_pricing;
  same_customer = h.same_customer;
  same_cart = h.same_cart;
  same_expiry = h.same_expiry;
}

pub Evolves-refl : (c : Checkout) → Evolves c c
Evolves-refl c = record {
  reaches = here;
  version_le = omega arith;
  same_user = refl;
  same_items = refl;
  same_pricing = refl;
  same_customer = refl;
  same_cart = (refl, refl);
  same_expiry = refl;
}

module _ (before x : Checkout) (now : ℕ) (h : Evolves before x) where
  moved-Evolves :
      (to : CheckoutStatus)
      → can_transition_checkout_status x.status to ≡ true
      → Evolves before (moved_checkout now to x)
  moved-Evolves to t = updated before x to _ _ _ _ _ now (next h.reaches t) h

  failed-Evolves :
      (reason : Text)
      → can_transition_checkout_status x.status failed ≡ true
      → Evolves before (failed_checkout now reason x)
  failed-Evolves reason t = updated before x failed _ _ _ (some reason) _ now (next h.reaches t) h

  completed-Evolves :
      (order : Text)
      → can_transition_checkout_status x.status completed ≡ true
      → Evolves before (completed_checkout now order x)
  completed-Evolves order t =
      updated before x completed _ _ _ _ (some order) now (next h.reaches t) h

-- A transition from an active status to a final one is allowed, whatever the active status.
pub active-can_end :
    (from : CheckoutStatus)
    → is_in from active_checkout_statuses ≡ true
    → (can_transition_checkout_status from failed ≡ true)
      × (can_transition_checkout_status from expired ≡ true)
      × (can_transition_checkout_status from cancelled ≡ true)
unfolding is_in can_transition_checkout_status any
active-can_end priced t = ground arith
active-can_end reserved t = ground arith
active-can_end ready t = ground arith
active-can_end completed t = absurd (ground arith)
active-can_end failed t = absurd (ground arith)
active-can_end expired t = absurd (ground arith)
active-can_end cancelled t = absurd (ground arith)

only_status : (from only : CheckoutStatus) → is_in from (only ∷ []) ≡ true → from ≡ only
unfolding is_in any
only_status from only t = ground arith

-- A stored checkout that an update may meet evolves, if each one that it meets does.
update-Follows :
    (id : Text) (before : Checkout) (p : Checkout → Bool) (f : Checkout → Checkout)
    (cs : List Checkout)
    → ((x : Checkout) → (f x).id ≡ x.id)
    → ((x : Checkout)
        → first (has_id id) cs ≡ some x
        → p x ≡ true
        → Evolves before x
        → Evolves before (f x))
    → Follows id before cs
    → Follows id before (modify_first p f cs)
update-Follows id before p f cs same k h =
    elim (first-modify_first_cases (has_id id) p f cs h.current (λ x. ap (λ z. z == id) (same x))
      h.found) [
        | inl e ↦ record { current = h.current; found = e; evolves = h.evolves }
        | inr (t, e) ↦ record {
          current = f h.current;
          found = e;
          evolves = k h.current h.found t h.evolves;
        }
      ]

module _ {World : Type 0} (db : Collection Checkout) (id : Text) (before : Checkout) where
  update-Keeps :
      (p : Checkout → Bool) (f : Checkout → Checkout)
      → ((x : Checkout) → (f x).id ≡ x.id)
      → ((x : Checkout) → p x ≡ true → Evolves before x → Evolves before (f x))
      → Keeps (On {World = World} (Follows id before)) (update db p f)
  update-Keeps p f same k = record {
    at = λ s h.
        rw (update_lem db s p f) (update-Follows id before p f s.checkouts same (λ x e. k x) h);
  }

  -- From the active statuses to a final one.
  pub end-Keeps :
      (now : ℕ) (i : Text) (to : CheckoutStatus) (version : Option ℕ)
      → ((from : CheckoutStatus)
          → is_in from active_checkout_statuses ≡ true
          → can_transition_checkout_status from to ≡ true)
      → Keeps
          (On {World = World} (Follows id before))
          (transition db now i active_checkout_statuses to version)
  unfolding transition
  end-Keeps now i to version allowed =
      update-Keeps _ _ (λ x. refl)
        (λ x t h. moved-Evolves before x now h to (allowed x.status (ground (arith, t))))

  pub expired-Keeps :
      (now : ℕ) (i : Text) (version : Option ℕ)
      → Keeps
          (On {World = World} (Follows id before))
          (transition db now i active_checkout_statuses expired version)
  expired-Keeps now i version =
      end-Keeps now i expired version (λ from t. (active-can_end from t).1)

  pub cancelled-Keeps :
      (now : ℕ) (i : Text) (version : Option ℕ)
      → Keeps
          (On {World = World} (Follows id before))
          (transition db now i active_checkout_statuses cancelled version)
  cancelled-Keeps now i version =
      end-Keeps now i cancelled version (λ from t. (active-can_end from t).2)

  -- From one status on.
  pub step-Keeps :
      (now : ℕ) (i : Text) (from to : CheckoutStatus) (version : Option ℕ)
      → can_transition_checkout_status from to ≡ true
      → Keeps (On {World = World} (Follows id before)) (transition db now i (from ∷ []) to version)
  unfolding transition
  step-Keeps now i from to version allowed =
      update-Keeps _ _ (λ x. refl)
        (λ x t h.
          moved-Evolves before x now h to
            (rw (only_status x.status from (ground (arith, t))) allowed))

  pub completed-Keeps :
      (now : ℕ) (i order : Text) (version : Option ℕ)
      → Keeps (On {World = World} (Follows id before)) (mark_completed db now i order version)
  unfolding mark_completed can_transition_checkout_status is_in any
  completed-Keeps now i order version =
      update-Keeps _ _ (λ x. refl)
        (λ x t h.
          completed-Evolves before x now h order
            (rw (only_status x.status ready (ground (arith, t))) refl))

  pub set_reservations-Keeps :
      (now : ℕ) (i : Text) (refs : List CheckoutReservationRef) (version : ℕ)
      → Keeps (On {World = World} (Follows id before)) (set_reservations db now i refs version)
  unfolding set_reservations
  set_reservations-Keeps now i refs version =
      update-Keeps _ _ (λ x. refl) (λ x t h. updated before x _ refs _ _ _ _ now h.reaches h)

  pub update_address-Keeps :
      (now : ℕ) (i : Text) (shipping billing : CheckoutAddress) (version : ℕ)
      → Keeps
          (On {World = World} (Follows id before))
          (update_address db now i shipping billing version)
  unfolding update_address
  update_address-Keeps now i shipping billing version =
      update-Keeps _ _ (λ x. refl)
        (λ x t h. updated before x _ _ shipping billing _ _ now h.reaches h)

  pub create-Keeps : (c : Checkout) → Keeps (On {World = World} (Follows id before)) (create db c)
  create-Keeps c = record {
    at = λ s h. elim (create_cases db s c) [
      | inl (e, l) ↦ rw l h
      | inr (fresh, l) ↦ rw l (record {
        current = h.current;
        found = first-append_found (has_id id) s.checkouts c h.current h.found;
        evolves = h.evolves;
      })
    ];
  }

  -- `markFailed` tests no status: the checkout was read with that version, in an active status.
  pub failed-Follows :
      (now : ℕ) (live : Checkout) (reason : Text) (version : Option ℕ) (s : Store World)
      → first (has_id live.id) s.checkouts ≡ some live
      → can_transition_checkout_status live.status failed ≡ true
      → Follows id before s.checkouts
      → Follows id before (mark_failed db now live.id reason version s).1.checkouts
  unfolding mark_failed
  failed-Follows now live reason version s e allowed h =
      rw (update_lem db s (can_change live.id version) (failed_checkout now reason)) (
        update-Follows id before _ _ s.checkouts (λ x. refl)
          (λ x f t g.
            let mine : (x.id == id) ≡ true = first-holds (has_id id) s.checkouts x f in
            let theirs : (x.id == live.id) ≡ true = ground (arith, t) in
            let same : id ≡ live.id =
              sym ((eq_iff x.id id).0 mine) ∙ (eq_iff x.id live.id).0 theirs in
            let here : x ≡ live =
              some-injective _ _
                (sym (subst (λ z. first (has_id z) s.checkouts ≡ some x) same f) ∙ e) in
            failed-Evolves before x now g reason (
              subst (λ z. can_transition_checkout_status z.status failed ≡ true) (sym here)
                allowed))
          h)

-- ===== src/Checkout/Live.antt =====
-- The calls of src/modules/checkout/application/CheckoutService.ts that read a checkout of the user
-- and change it while it is live, and a checkout that is stored before them.
use rest_ecommerce_api.Prelude.Text.{Text, eq_iff, eq_refl}
use rest_ecommerce_api.Prelude.{
  ℕ, ◌≡◌, refl, sym, subst, inl, inr, true, ◌||◌, Option, none, some, List, [], ◌∷◌, first, arith,
  any, Bool-cases,
}
use rest_ecommerce_api.Prelude.Updates.{first-holds}
use rest_ecommerce_api.Mongo.{Collection}
use rest_ecommerce_api.Errors.{Action, Result, pure, raise, ◌>>=◌}
use rest_ecommerce_api.Errors.Rules.{
  Keeps, Keeps-bind, Keeps-pure, Keeps-or_raise, Keeps-if, Keeps-require, bind_leads, guard_cases,
  bind_ok, bind_some,
}
use rest_ecommerce_api.Checkout.Entity.{
  Checkout, CheckoutAddress, priced, reserved, ready, cancelled, is_in, status_eq,
  active_checkout_statuses, can_transition_checkout_status,
}
use rest_ecommerce_api.Checkout.Ports.{Ports}
use rest_ecommerce_api.Checkout.Repository.{
  Store, has_id, transition, mark_failed, update, can_transition, moved_checkout,
}
use rest_ecommerce_api.Checkout.Checking.{Request, CheckoutIssue, issue_text}
use rest_ecommerce_api.Checkout.Service.{
  require_owned, require_live, validate_checkout, record_issues,
}
use rest_ecommerce_api.Checkout.Reserving.{
  release_cancelled, cancel_live, cancel_checkout, update_checkout_address, reserve_checkout,
  reserve_live, reserve_valid,
}
use rest_ecommerce_api.Checkout.Laws.{On, compensate-Keeps, owned_cases, live_cases, update_stored}
use rest_ecommerce_api.Checkout.Follows.{
  Follows, cancelled-Keeps, update_address-Keeps, failed-Follows, active-can_end, step-Keeps,
}
use rest_ecommerce_api.Checkout.Effects.{Stored, revalidate-Keeps, reserve_stock-Follows}
use rest_ecommerce_api.Checkout.Keeping.{require_owned-Keeps, require_live-Keeps, expire_now-Keeps}

module _ {World : Type 0} (db : Collection Checkout) (ports : Ports World) (id : Text)
    (before : Checkout) where
  abbrev Kept : {B : Type 0} → Result B × Store World → Type 0
  Kept x = Follows id before x.1.checkouts

  -- After the two reads the checkout is the stored one.
  owned_live-Follows :
      {B : Type 0} (c : Request) (user i : Text) (f : Checkout → Action (Store World) B)
      (s : Store World)
      → ((live : Checkout)
          → first (has_id live.id) s.checkouts ≡ some live
          → Follows id before s.checkouts
          → Follows id before (f live s).1.checkouts)
      → Follows id before s.checkouts
      → Follows id before
          ((require_owned db ports user i >>= λ x. require_live db ports c.now x >>= f)
            s).1.checkouts
  owned_live-Follows c user i f s k h = owned_cases db ports Kept s user i _ h λ x e t.
      live_cases db ports Kept s c.now x f ((expire_now-Keeps db ports id before c.now x).at s h) (
        k x
          (subst (λ z. first (has_id z) s.checkouts ≡ some x)
            (sym ((eq_iff x.id i).0 (first-holds (has_id i) s.checkouts x e))) e)
          h)

  record_issues-Follows :
      (now : ℕ) (live : Checkout) (issues : List CheckoutIssue) (s : Store World)
      → is_in live.status active_checkout_statuses ≡ true
      → On (Stored live (Follows id before)) s
      → On (Follows id before) (record_issues db ports now live issues s).1
  unfolding record_issues pure ◌>>=◌ mark_failed update
  record_issues-Follows now live [] s t h = h.1
  record_issues-Follows now live (issue ∷ issues) s t h =
      failed-Follows db id before now live (issue_text issue.code) (some live.version) s h.0
        (active-can_end live.status t).0 h.1

  pub update_checkout_address-Follows :
      (c : Request) (user i : Text) (shipping : CheckoutAddress) (billing : Option CheckoutAddress)
      (version : ℕ)
      → Keeps
          (On {World = World} (Follows id before))
          (update_checkout_address db ports c user i shipping billing version)
  unfolding update_checkout_address
  update_checkout_address-Follows c user i shipping billing version = record {
    at = λ s. owned_live-Follows c user i _ s λ live e.
        (Keeps-bind _ _ (Keeps-require _ _) λ _.
            Keeps-bind _ _ (update_address-Keeps db id before c.now live.id _ _ version)
              λ changed. Keeps-bind _ _ (Keeps-or_raise changed _) λ _. Keeps-pure _).at
          s;
  }

  pub validate_checkout-Follows :
      (c : Request) (user i : Text)
      → Keeps (On {World = World} (Follows id before)) (validate_checkout db ports c user i)
  unfolding validate_checkout
  validate_checkout-Follows c user i = record {
    at = λ s. owned_live-Follows c user i _ s λ live e h. guard_cases Kept _ s _ _ h λ t.
        bind_leads (On (Stored live (Follows id before))) (On (Follows id before)) _ _
          (revalidate-Keeps (Stored live (Follows id before)) ports live) (λ u k. k.1)
          (λ issues u k. record_issues-Follows c.now live issues u t k) s (e, h);
  }

  reserve_priced-Follows :
      (now : ℕ) (live : Checkout) (s : Store World)
      → status_eq live.status priced ≡ true
      → On (Stored live (Follows id before)) s
      → On (Follows id before) (reserve_valid db ports now live [] s).1
  unfolding reserve_valid transition is_in any can_transition_checkout_status
  reserve_priced-Follows now live s t h =
      let (moves, kept) =
        update_stored db s (can_transition live.id (priced ∷ []) (some live.version))
          (moved_checkout now reserved) live (λ x p. ground (arith, p))
          (ground (arith, t, eq_refl live.id)) refl h.0 in
      let follows =
        (step-Keeps db id before now live.id priced reserved (some live.version) refl).at s h.1 in
      rw (bind_ok _ _ s moves) (
        rw bind_some (
          reserve_stock-Follows db ports id before now (moved_checkout now reserved live)
            (update db (can_transition live.id (priced ∷ []) (some live.version))
              (moved_checkout now reserved) s).1
            refl (kept, follows)))

  reserve_valid-Follows :
      (now : ℕ) (live : Checkout) (issues : List CheckoutIssue) (s : Store World)
      → status_eq live.status priced ≡ true
      → On (Stored live (Follows id before)) s
      → On (Follows id before) (reserve_valid db ports now live issues s).1
  unfolding reserve_valid raise ◌>>=◌ mark_failed update is_in any
  reserve_valid-Follows now live (issue ∷ issues) s t h =
      failed-Follows db id before now live (issue_text issue.code) (some live.version) s h.0
        (active-can_end live.status (ground (arith, t))).0 h.1
  reserve_valid-Follows now live [] s t h = reserve_priced-Follows now live s t h

  reserve_live-Follows :
      (now : ℕ) (live : Checkout) (s : Store World)
      → On (Stored live (Follows id before)) s
      → On (Follows id before) (reserve_live db ports now live s).1
  unfolding reserve_live pure raise
  reserve_live-Follows now live s h =
      elim (Bool-cases (status_eq live.status reserved || status_eq live.status ready)) [
        | inl t ↦ rw t h.1
        | inr t ↦ elim (Bool-cases (status_eq live.status priced)) [
          | inl p ↦
              rw (t, p)
                (bind_leads (On (Stored live (Follows id before))) (On (Follows id before)) _ _
                  (revalidate-Keeps (Stored live (Follows id before)) ports live) (λ u k. k.1)
                  (λ issues u k. reserve_valid-Follows now live issues u p k) s h)
          | inr p ↦ rw (t, p) h.1
        ]
      ]

  pub reserve_checkout-Follows :
      (c : Request) (user i : Text)
      → Keeps (On {World = World} (Follows id before)) (reserve_checkout db ports c user i)
  unfolding reserve_checkout
  reserve_checkout-Follows c user i = record {
    at = λ s. owned_live-Follows c user i _ s λ live e h. reserve_live-Follows c.now live s (e, h);
  }

  cancel_live-Keeps :
      (now : ℕ) (user : Text) (live : Checkout) (version : Option ℕ)
      → Keeps (On {World = World} (Follows id before)) (cancel_live db ports now user live version)
  unfolding cancel_live release_cancelled
  cancel_live-Keeps now user live version = Keeps-bind _ _ (Keeps-require _ _) λ _.
      Keeps-bind _ _ (cancelled-Keeps db id before now live.id _) (elim [
        | some c ↦
            Keeps-bind _ _ (compensate-Keeps (Follows id before) db ports c.reservations) λ _.
              Keeps-bind _ _ (require_owned-Keeps db ports id before user c.id) λ r. Keeps-pure _
        | none ↦
            Keeps-bind _ _ (require_owned-Keeps db ports id before user live.id)
              λ r. Keeps-bind _ _ (Keeps-require _ _) λ _. Keeps-pure _
      ])

  pub cancel_checkout-Follows :
      (c : Request) (user i : Text) (version : Option ℕ)
      → Keeps (On {World = World} (Follows id before)) (cancel_checkout db ports c user i version)
  unfolding cancel_checkout
  cancel_checkout-Follows c user i version =
      Keeps-bind _ _ (require_owned-Keeps db ports id before user i) λ x.
        Keeps-if (status_eq x.status cancelled) _ _ (Keeps-pure _) (
          Keeps-bind _ _ (require_live-Keeps db ports id before c.now x)
            λ live. cancel_live-Keeps c.now user live version)

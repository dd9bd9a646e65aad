-- ===== src/Checkout/Stocked.antt =====
-- Reserving the stock of a checkout: `reserveCheckout` of
-- src/modules/checkout/application/CheckoutService.ts once the checkout was found valid.
use mathlib.Core.List.{append_assoc, append-nil}
use rest_ecommerce_api.Prelude.Text.{Text, text, eq_refl}
use rest_ecommerce_api.Prelude.{
  ℕ, ◌≡◌, refl, ap, ◌∙◌, inl, inr, ◌⊎◌, sym, none, some, List, [], ◌∷◌, ◌++◌, first, any, arith,
}
use rest_ecommerce_api.Mongo.{Collection}
use rest_ecommerce_api.Errors.{Error, Result, ok, err, pure}
use rest_ecommerce_api.Errors.Rules.{bind_ok, bind_some, attempt_lem, Result-cases}
use rest_ecommerce_api.Checkout.Entity.{
  Checkout, CheckoutStatus, CheckoutItem, CheckoutReservationRef, priced, reserved, ready, is_in,
}
use rest_ecommerce_api.Checkout.Ports.{Ports, ReserveLine, IsReleasing}
use rest_ecommerce_api.Checkout.Repository.{
  Store, has_id, with_world, can_transition, can_change, moved_checkout, reserved_checkout,
  failed_checkout, update, transition, set_reservations, mark_failed,
}
use rest_ecommerce_api.Checkout.Checking.{CheckoutView, to_view}
use rest_ecommerce_api.Checkout.Service.{compensate}
use rest_ecommerce_api.Checkout.Reserving.{
  reserve_line, reserve_items, reserve_stock, reserve_valid, give_up, make_ready, keep_reservations,
}
use rest_ecommerce_api.Checkout.Laws.{update_stored, compensate-Keeps, compensate_lem, moved_raise}
use rest_ecommerce_api.Checkout.Releasing.{AreFreed, compensate-AreFreed}

-- A request of the inventory for an item of the checkout: all its pieces, under the checkout.
pub record Asks (id : Text) (item : CheckoutItem) (line : ReserveLine) : Type 0 where
  pub sku : line.sku ≡ item.sku
  pub quantity : line.quantity ≡ item.quantity
  pub reference_id : line.reference_id ≡ id
  pub idempotency_key : line.idempotency_key ≡ id ++ text ":" ++ item.sku

-- The inventory, called for one item after another, returned a reservation for each.
pub data AreReserved {World : Type 0} (ports : Ports World) (id : Text)
    : List CheckoutItem → List CheckoutReservationRef → World → World → Type 0 where
  no_item : {w : World} → AreReserved ports id [] [] w w
  next_item :
      {item : CheckoutItem} {items : List CheckoutItem} {ref : CheckoutReservationRef}
      {refs : List CheckoutReservationRef} {w between end : World} (line : ReserveLine)
      → Asks id item line
      → ports.reserve line w ≡ (ok ref, between)
      → AreReserved ports id items refs between end
      → AreReserved ports id (item ∷ items) (ref ∷ refs) w end

-- The inventory raised for the first item.
pub data IsRaised {World : Type 0} (ports : Ports World) (id : Text)
    : List CheckoutItem → World → Error → World → Type 0 where
  first_item :
      {item : CheckoutItem} {items : List CheckoutItem} {w end : World} {e : Error}
      (line : ReserveLine)
      → Asks id item line
      → ports.reserve line w ≡ (err e, end)
      → IsRaised ports id (item ∷ items) w e end

module _ {World : Type 0} (db : Collection Checkout) (ports : Ports World) (now : ℕ)
    (c : Checkout) where
  -- The loop of the reservations came to its end.
  record Reserved (made : List CheckoutReservationRef) (items : List CheckoutItem) (s : Store World)
      : Type 0 where
    refs : List CheckoutReservationRef
    end : Store World
    ends : reserve_items db ports now c made items s ≡ (ok (made ++ refs, none), end)
    same_checkouts : end.checkouts ≡ s.checkouts
    all : AreReserved ports c.id items refs s.world end.world

  -- An item of the loop raised.
  record Raised (made : List CheckoutReservationRef) (items : List CheckoutItem) (s : Store World)
      : Type 0 where
    refs : List CheckoutReservationRef
    error : Error
    between : World
    end : Store World
    ends : reserve_items db ports now c made items s ≡ (ok (made ++ refs, some error), end)
    same_checkouts : end.checkouts ≡ s.checkouts
    before : List CheckoutItem
    rest : List CheckoutItem
    splits : items ≡ before ++ rest
    some_of : AreReserved ports c.id before refs s.world between
    raised : IsRaised ports c.id rest between error end.world

  asks : (item : CheckoutItem) → Asks c.id item (reserve_line now c item)
  unfolding reserve_line
  asks item = record { sku = refl; quantity = refl; reference_id = refl; idempotency_key = refl }

  reserve_items_lem :
      (made : List CheckoutReservationRef) (items : List CheckoutItem) (s : Store World)
      → Reserved made items s ⊎ Raised made items s
  unfolding reserve_items with_world pure
  reserve_items_lem made [] s = inl (record {
    refs = [];
    end = s;
    ends = ap (λ r. (ok (r, none), s)) (sym (append-nil made));
    same_checkouts = refl;
    all = no_item;
  })
  reserve_items_lem made (item ∷ items) s =
      let line = reserve_line now c item in
      let next = (with_world (ports.reserve line) s).1 in
      elim (Result-cases (ports.reserve line s.world).0) [
        | inl (ref, e) ↦
            let call : ports.reserve line s.world ≡ (ok ref, next.world) =
              ap (λ z. (z, next.world)) e in
            let first_step =
              bind_ok _ _ s
                (attempt_lem (with_world (ports.reserve line)) s (ap (λ z. (z, next)) e)) in
            let joined =
              λ (refs : List CheckoutReservationRef). append_assoc made (ref ∷ []) refs in
            elim (reserve_items_lem (made ++ ref ∷ []) items next) [
              | inl r ↦ inl (record {
                refs = ref ∷ r.refs;
                end = r.end;
                ends = first_step ∙ r.ends ∙ ap (λ z. (ok (z, none), r.end)) (joined r.refs);
                same_checkouts = r.same_checkouts;
                all = next_item line (asks item) call r.all;
              })
              | inr r ↦ inr (record {
                refs = ref ∷ r.refs;
                error = r.error;
                between = r.between;
                end = r.end;
                ends =
                    first_step ∙ r.ends ∙ ap (λ z. (ok (z, some r.error), r.end)) (joined r.refs);
                same_checkouts = r.same_checkouts;
                before = item ∷ r.before;
                rest = r.rest;
                splits = ap (λ z. item ∷ z) r.splits;
                some_of = next_item line (asks item) call r.some_of;
                raised = r.raised;
              })
            ]
        | inr (e, h) ↦ inr (record {
          refs = [];
          error = e;
          between = s.world;
          end = next;
          ends =
              bind_ok _ _ s
                (attempt_lem (with_world (ports.reserve line)) s (ap (λ z. (z, next)) h))
              ∙ ap (λ r. (ok (r, some e), next)) (sym (append-nil made));
          same_checkouts = refl;
          before = [];
          rest = item ∷ items;
          splits = refl;
          some_of = no_item;
          raised = first_item line (asks item) (ap (λ z. (z, next.world)) h);
        })
      ]

module _ {World : Type 0} (db : Collection Checkout) (ports : Ports World)
    (laws : IsReleasing ports) where
  -- Ready with what the inventory returned for each item, or failed at an item for which it raised,
  -- with what it returned for those before given back.
  unfoldable pub IsAllOrNone : Checkout → World → Result CheckoutView × Store World → Type 0
  IsAllOrNone c w (ok view, s) =
      (r : Checkout) × (first (has_id c.id) s.checkouts ≡ some r)
      × (view ≡ to_view r)
      × (r.status ≡ ready)
      × AreReserved ports c.id c.items r.reservations w s.world
  IsAllOrNone c w (err e, s) =
      (f : Checkout) × (first (has_id c.id) s.checkouts ≡ some f)
      × (f.status ≡ CheckoutStatus.failed)
      × (before : List CheckoutItem) × (rest : List CheckoutItem) × (refs : List
          CheckoutReservationRef)
      × (between : World) × (behind : World) × (c.items ≡ before ++ rest)
      × AreReserved ports c.id before refs w between
      × IsRaised ports c.id rest between e behind
      × AreFreed db ports laws refs s

module _ {World : Type 0} (db : Collection Checkout) (ports : Ports World)
    (laws : IsReleasing ports) (now : ℕ) (c : Checkout) where
  kept_all :
      (w : World) (refs : List CheckoutReservationRef) (s : Store World)
      → first (has_id c.id) s.checkouts ≡ some c
      → c.status ≡ reserved
      → AreReserved ports c.id c.items refs w s.world
      → IsAllOrNone db ports laws c w (keep_reservations db ports now c refs s)
  unfolding keep_reservations make_ready set_reservations transition IsAllOrNone pure is_in any
      update
  kept_all w refs s e t all =
      let with_refs = reserved_checkout now refs c in
      let (stores, kept) =
        update_stored db s (can_change c.id (some c.version)) (reserved_checkout now refs) c
          (λ x p. ground (arith, p)) (ground (arith, eq_refl c.id)) refl e in
      let next = (set_reservations db now c.id refs c.version s).1 in
      let (moves, moved) =
        update_stored db next (can_transition c.id (reserved ∷ []) (some with_refs.version))
          (moved_checkout now ready) with_refs (λ x p. ground (arith, p))
          (ground (arith, t, eq_refl c.id)) refl kept in
      rw (bind_ok _ _ s stores)
        (rw (bind_ok _ _ next moves) (moved_checkout now ready with_refs, moved, refl, refl, all))

  gave_up :
      (s : Store World) (r : Raised db ports now c [] c.items s)
      → first (has_id c.id) s.checkouts ≡ some c
      → IsAllOrNone db ports laws c s.world (give_up db ports now c r.refs r.error r.end)
  unfolding give_up mark_failed IsAllOrNone update
  gave_up s r e =
      let next = (compensate db ports r.refs r.end).1 in
      let reason = text "INVENTORY_RESERVATION_FAILED" in
      let kept =
        (compensate-Keeps (λ cs. first (has_id c.id) cs ≡ some c) db ports r.refs).at r.end
          (ap (first (has_id c.id)) r.same_checkouts ∙ e) in
      let failed =
        update_stored db next (can_change c.id (some c.version)) (failed_checkout now reason) c
          (λ x p. ground (arith, p)) (ground (arith, eq_refl c.id)) refl kept in
      rw (bind_ok _ _ r.end (compensate_lem db ports r.refs r.end)) (
        rw
          (moved_raise db ports (can_change c.id (some c.version)) (failed_checkout now reason)
            r.error next)
          (
            failed_checkout now reason c,
            failed.1,
            refl,
            r.before,
            r.rest,
            r.refs,
            r.between,
            r.end.world,
            r.splits,
            r.some_of,
            r.raised,
            compensate-AreFreed db ports laws r.refs r.end,
          ))

  reserve_stock-IsAllOrNone :
      (s : Store World)
      → first (has_id c.id) s.checkouts ≡ some c
      → c.status ≡ reserved
      → IsAllOrNone db ports laws c s.world (reserve_stock db ports now c s)
  unfolding reserve_stock
  reserve_stock-IsAllOrNone s e t = elim (reserve_items_lem db ports now c [] c.items s) [
    | inl r ↦
        rw (bind_ok _ _ s r.ends)
          (kept_all s.world r.refs r.end (ap (first (has_id c.id)) r.same_checkouts ∙ e) t r.all)
    | inr r ↦ rw (bind_ok _ _ s r.ends) (gave_up s r e)
  ]

module _ {World : Type 0} (db : Collection Checkout) (ports : Ports World)
    (laws : IsReleasing ports) (now : ℕ) where
  -- Reserving the stock of a stored checkout that is priced and was found valid ends in one of two
  -- ways. Either the call returns it, stored as ready with the reservations that the inventory returned,
  -- one for each item, asked for its SKU and all its pieces; or the call raises what the inventory raised
  -- for an item, the checkout is stored as failed, and none of the reservations that the inventory
  -- returned for the items before holds stock. A reservation that the inventory stored before it raised
  -- is not among these.
  pub reserve_valid-IsAllOrNone :
      (live : Checkout) (s : Store World)
      → first (has_id live.id) s.checkouts ≡ some live
      → live.status ≡ priced
      → IsAllOrNone db ports laws live s.world (reserve_valid db ports now live [] s)
  unfolding reserve_valid transition is_in any update IsAllOrNone
  reserve_valid-IsAllOrNone live s e t =
      let passes = can_transition live.id (priced ∷ []) (some live.version) in
      let (moves, kept) =
        update_stored db s passes (moved_checkout now reserved) live (λ x p. ground (arith, p))
          (ground (arith, t, eq_refl live.id)) refl e in
      let all =
        reserve_stock-IsAllOrNone db ports laws now (moved_checkout now reserved live)
          (update db passes (moved_checkout now reserved) s).1 kept refl in
      rw (bind_ok _ _ s moves) (rw bind_some all)

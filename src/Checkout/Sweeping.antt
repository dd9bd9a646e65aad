-- ===== src/Checkout/Sweeping.antt =====
-- The expiry sweep, `expireCheckouts` of src/modules/checkout/application/CheckoutService.ts.
use rest_ecommerce_api.Prelude.Text.{Text}
use rest_ecommerce_api.Prelude.{
  ℕ, ◌+◌, ◌≤◌, ◌≡◌, refl, sym, ◌∙◌, subst, inl, inr, Bool, true, false, Option, none, some, List,
  [], ◌∷◌, All, first, any, arith, length, math_min, math_max, or_else, Bool-cases, Option-cases,
}
use mathlib.Core.Option.{some-injective}
use rest_ecommerce_api.Prelude.Updates.{first-holds, first-narrow, first-modify_first}
use rest_ecommerce_api.Prelude.Replacing.{All-both, modify_first-misses, first-modify_first_cases}
use rest_ecommerce_api.Mongo.{Collection}
use rest_ecommerce_api.Errors.{ok, err, pure}
use rest_ecommerce_api.Errors.Rules.{
  Keeps, Keeps-bind, Keeps-pure, Keeps-attempt, bind_ok, attempt_lem,
}
use rest_ecommerce_api.Checkout.Entity.{
  Checkout, CheckoutReservationRef, expired, is_in, active_checkout_statuses,
}
use rest_ecommerce_api.Checkout.Ports.{Ports, IsReleasing}
use rest_ecommerce_api.Checkout.Repository.{
  Store, has_id, is_due, can_transition, moved_checkout, update, transition, find_active_expired,
}
use rest_ecommerce_api.Checkout.Service.{compensate}
use rest_ecommerce_api.Checkout.Reserving.{
  Sweep, expire_round, expire_one, others, expire_each, expire_checkouts,
}
use rest_ecommerce_api.Checkout.Laws.{On, update_lem, update_ok, compensate_lem, compensate-Keeps}
use rest_ecommerce_api.Checkout.Releasing.{AreFreed, compensate-AreFreed, freeing-AreFreed}

math_min_le : (a b : ℕ) → math_min a b ≤ b
math_min_le a b = ground arith

-- No checkout that the identifier finds is active.
unfoldable pub IsEnded : Text → List Checkout → Type 0
IsEnded id cs =
    (d : Checkout) → first (has_id id) cs ≡ some d → is_in d.status active_checkout_statuses ≡ false

module _ {World : Type 0} (db : Collection Checkout) (now : ℕ) (id : Text) where
  -- A transition to a final status activates no checkout.
  expiring-Keeps :
      (other : Text)
      → Keeps
          (On {World = World} (IsEnded id))
          (transition db now other active_checkout_statuses expired none)
  unfolding transition IsEnded is_in any
  expiring-Keeps other = record {
    at = λ s h d.
        let passes = can_transition other active_checkout_statuses none in
        rw (update_lem db s passes (moved_checkout now expired))
          (elim (Option-cases (first (has_id id) s.checkouts)) [
            | inl n ↦
                rw
                  (modify_first-misses (has_id id) passes (moved_checkout now expired) s.checkouts
                    (λ x. refl) n)
                  (λ e. absurd (ground arith))
            | inr (x, n) ↦
                elim (first-modify_first_cases (has_id id) passes (moved_checkout now expired)
                  s.checkouts x (λ y. refl) n) [
                    | inl k ↦ rw k (λ e. h d (n ∙ e))
                    | inr (t, k) ↦ rw k (λ e. rw (sym (some-injective _ _ e)) refl)
                  ]
          ]);
  }

  expiring-IsEnded :
      (s : Store World)
      → IsEnded id (transition db now id active_checkout_statuses expired none s).1.checkouts
  unfolding transition IsEnded is_in any
  expiring-IsEnded s d =
      let passes = can_transition id active_checkout_statuses none in
      rw (update_lem db s passes (moved_checkout now expired))
        (elim (Option-cases (first (has_id id) s.checkouts)) [
          | inl n ↦
              rw
                (modify_first-misses (has_id id) passes (moved_checkout now expired) s.checkouts
                  (λ x. refl) n)
                (λ e. absurd (ground arith))
          | inr (x, n) ↦ elim (Bool-cases (is_in x.status active_checkout_statuses)) [
            | inl t ↦ λ e.
                let mine = first-holds (has_id id) s.checkouts x n in
                let met =
                  first-narrow (has_id id) passes s.checkouts x (λ y p. ground (arith, p)) n
                    (ground (arith, mine, t)) in
                let moved =
                  first-modify_first (has_id id) passes (moved_checkout now expired) s.checkouts x n
                    met (λ y p. ground (arith, p)) mine in
                rw (sym (some-injective _ _ (sym moved ∙ e))) refl
            | inr t ↦
                elim (first-modify_first_cases (has_id id) passes (moved_checkout now expired)
                  s.checkouts x (λ y. refl) n) [
                    | inl k ↦ rw k (λ e. rw (sym (some-injective _ _ e)) t)
                    | inr (p, k) ↦ absurd (ground (arith, p, t))
                  ]
          ]
        ])

module _ {World : Type 0} (db : Collection Checkout) (ports : Ports World)
    (laws : IsReleasing ports) (now : ℕ) where
  -- What the sweep leaves of a checkout that was due.
  abbrev pub IsSwept : Checkout → Store World → Type 0
  IsSwept c s = IsEnded c.id s.checkouts × AreFreed db ports laws c.reservations s

  -- An update of the checkouts frees and takes up nothing.
  update-AreFreed :
      (refs : List CheckoutReservationRef) (p : Checkout → Bool) (f : Checkout → Checkout)
      (s : Store World)
      → AreFreed db ports laws refs s
      → AreFreed db ports laws refs (update db p f s).1
  unfolding update
  update-AreFreed refs p f s h = h

  expire_one-Keeps : (c other : Checkout) → Keeps (IsSwept c) (expire_one db ports now other)
  unfolding expire_one expire_round transition update
  expire_one-Keeps c other =
      Keeps-bind _ _
        (record {
          at = λ s h. (
            (compensate-Keeps (IsEnded c.id) db ports other.reservations).at s h.0,
            (freeing-AreFreed db ports laws c.reservations other.reservations).at s h.1,
          );
        })
        (λ _.
          Keeps-bind _ _ (record { at = λ s h. h })
            λ _.
              Keeps-bind _ _
                (record { at = λ s h. ((expiring-Keeps db now c.id other.id).at s h.0, h.1) })
                (λ _. Keeps-pure _))

  expire_one-IsSwept :
      (c : Checkout) (s : Store World)
      → (b : Bool) × (end : Store World) × (expire_one db ports now c s ≡ (ok b, end))
        × IsSwept c end
  unfolding expire_one expire_round transition pure
  expire_one-IsSwept c s =
      let next = (compensate db ports c.reservations s).1 in
      let passes = can_transition c.id active_checkout_statuses none in
      let (found, moves) = update_ok db next passes (moved_checkout now expired) in
      (
        elim found [ some r ↦ true | none ↦ false ],
        (update db passes (moved_checkout now expired) next).1,
        bind_ok _ _ s (compensate_lem db ports c.reservations s)
            ∙ bind_ok (others (λ s. s)) _ next refl
            ∙ bind_ok _ _ next moves,
        (
          expiring-IsEnded db now c.id next,
          update-AreFreed c.reservations passes (moved_checkout now expired) next
              (compensate-AreFreed db ports laws c.reservations s),
        ),
      )

  expire_each-Keeps :
      (c : Checkout) (due : List Checkout) (done : Sweep)
      → Keeps (IsSwept c) (expire_each db ports now due done)
  unfolding expire_each
  expire_each-Keeps c [] done = Keeps-pure done
  expire_each-Keeps c (other ∷ due) done =
      Keeps-bind _ _ (Keeps-attempt _ (expire_one-Keeps c other)) (elim [
        | ok true ↦ expire_each-Keeps c due _
        | ok false ↦ expire_each-Keeps c due _
        | err e ↦ expire_each-Keeps c due _
      ])

  -- What the rounds count, and what they leave of each checkout.
  record Rounds (due : List Checkout) (done : Sweep) (s : Store World) : Type 0 where
    report : Sweep
    end : Store World
    ends : expire_each db ports now due done s ≡ (ok report, end)
    same_scanned : report.scanned ≡ done.scanned
    same_failed : report.failed ≡ done.failed
    expired_le : report.expired ≤ done.expired + length due
    swept : All (λ c. IsSwept c end) due

  counted : Bool → Sweep → Sweep
  counted true done = record done { expired = done.expired + 1 }
  counted false done = done

  counted_lem :
      (b : Bool) (done : Sweep)
      → ((counted b done).scanned ≡ done.scanned)
        × ((counted b done).failed ≡ done.failed)
        × ((counted b done).expired ≤ done.expired + 1)
  unfolding counted
  counted_lem true done = (refl, refl, omega arith)
  counted_lem false done = (refl, refl, omega arith)

  expire_each_cons :
      (c : Checkout) (due : List Checkout) (done : Sweep) (s next : Store World) (b : Bool)
      → expire_one db ports now c s ≡ (ok b, next)
      → expire_each db ports now (c ∷ due) done s
        ≡ expire_each db ports now due (counted b done) next
  unfolding expire_each counted
  expire_each_cons c due done s next true e =
      bind_ok _ _ s (attempt_lem (expire_one db ports now c) s e)
  expire_each_cons c due done s next false e =
      bind_ok _ _ s (attempt_lem (expire_one db ports now c) s e)

  expire_each-swept : (due : List Checkout) (done : Sweep) (s : Store World) → Rounds due done s
  unfolding expire_each pure
  expire_each-swept [] done s = record {
    report = done;
    end = s;
    ends = refl;
    same_scanned = refl;
    same_failed = refl;
    expired_le = omega arith;
    swept = tt;
  }
  expire_each-swept (c ∷ due) done s =
      let (b, next, expires, swept) = expire_one-IsSwept c s in
      let rest = expire_each-swept due (counted b done) next in
      let (scanned, failed, most) = counted_lem b done in
      record {
        report = rest.report;
        end = rest.end;
        ends = expire_each_cons c due done s next b expires ∙ rest.ends;
        same_scanned = rest.same_scanned ∙ scanned;
        same_failed = rest.same_failed ∙ failed;
        expired_le = omega (arith, rest.expired_le, most);
        swept = (
          subst (λ x. IsSwept c x.1) rest.ends
              ((expire_each-Keeps c due (counted b done)).at next swept),
          rest.swept,
        );
      }

  -- The sweep raises nothing. It scans at most 500 checkouts, expires at most as many and counts no
  -- failure; of every checkout that it scanned, none of the reservations holds stock any more, and the
  -- checkout that is stored under its identifier, if any, is not active.
  pub expire_checkouts-IsSwept :
      (limit : Option ℕ) (s : Store World)
      → (due : List Checkout) × (report : Sweep) × (end : Store World) × (expire_checkouts db ports
            now limit s
          ≡ (ok report, end))
        × (find_active_expired db now (math_min (math_max (or_else limit 100) 1) 500) s
            ≡ (ok due, s))
        × All (λ c. (is_due now c ≡ true) × IsSwept c end) due
        × (report.scanned ≡ length due)
        × (report.scanned ≤ 500)
        × (report.expired ≤ report.scanned)
        × (report.failed ≡ 0)
  unfolding expire_checkouts find_active_expired
  expire_checkouts-IsSwept limit s =
      let most = math_min (math_max (math_min (math_max (or_else limit 100) 1) 500) 1) 500 in
      let due = db.find_sorted (is_due now) (λ c. c.expires_at) most s.checkouts in
      let matches = db.find_sorted_matches (is_due now) (λ c. c.expires_at) most s.checkouts in
      let all =
        expire_each-swept due (record { scanned = length due; expired = 0; failed = 0 }) s in
      (
        due,
        all.report,
        all.end,
        bind_ok _ _ s refl ∙ all.ends,
        refl,
        All-both _ _ due matches.0 all.swept,
        all.same_scanned,
        omega (
          arith,
          all.same_scanned,
          matches.1,
          math_min_le (math_max (math_min (math_max (or_else limit 100) 1) 500) 1) 500,
        ),
        omega (arith, all.same_scanned, all.expired_le),
        all.same_failed,
      )

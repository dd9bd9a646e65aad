-- ===== src/Inventory/Stock.antt =====
-- The conditional updates of the stock records (infrastructure/database/inventory.repository.ts).
use rest_ecommerce_api.Prelude.Text.{Text, ◌==◌, eq_iff, eq_refl}
use rest_ecommerce_api.Prelude.{
  ℕ, ◌≤◌, ◌≡◌, refl, inl, inr, true, some, List, [], ◌∷◌, ℤ, pos, ◌+ℤ◌, ◌-ℤ◌, ◌≤ℤ◌, arith, int_laws,
  +ℤ_parts, -ℤ_parts, All, first, modify_first, sum_by, count_by, leb_ℤ, Bool-cases,
}
use rest_ecommerce_api.Prelude.Updates.{first-holds}
use rest_ecommerce_api.Inventory.Entity.{Inventory, Reservation, normalize_sku}
use rest_ecommerce_api.Inventory.Repository.{
  can_adjust, adjusted_record, can_reserve, reserved_record, can_release, released_record,
  committed_record,
}
use rest_ecommerce_api.Inventory.Ledger.{
  IsSound, IsHeld, Ledger, reserved_of, reserved_total, active_of, active_total, at, update-Ledger,
  owe-Ledger,
}

pub reserved_record-IsSound :
    (now : ℕ) (sku : Text) (q : ℤ) (r : Inventory)
    → pos 0 ≤ℤ q
    → can_reserve sku q r ≡ true
    → IsSound r
    → IsSound (reserved_record now q r)
reserved_record-IsSound now sku q r h t v = record {
  on_hand_nonneg = v.on_hand_nonneg;
  reserved_nonneg = ground (arith, +ℤ_parts r.reserved q);
  sold_nonneg = v.sold_nonneg;
  reserved_le = ground (arith, +ℤ_parts r.reserved q, -ℤ_parts r.on_hand r.reserved);
  normal = v.normal;
}

pub released_record-IsSound :
    (now : ℕ) (sku : Text) (q : ℤ) (r : Inventory)
    → pos 0 ≤ℤ q
    → can_release sku q r ≡ true
    → IsSound r
    → IsSound (released_record now q r)
released_record-IsSound now sku q r h t v = record {
  on_hand_nonneg = v.on_hand_nonneg;
  reserved_nonneg = ground (arith, -ℤ_parts r.reserved q);
  sold_nonneg = v.sold_nonneg;
  reserved_le = ground (arith, -ℤ_parts r.reserved q);
  normal = v.normal;
}

-- `commitStock` tests only `reserved ≥ quantity`: that the stock on hand covers it rests on the
-- invariant.
pub committed_record-IsSound :
    (now : ℕ) (sku : Text) (q : ℤ) (r : Inventory)
    → pos 0 ≤ℤ q
    → can_release sku q r ≡ true
    → IsSound r
    → IsSound (committed_record now q r)
committed_record-IsSound now sku q r h t v = record {
  on_hand_nonneg = ground (arith, -ℤ_parts r.on_hand q);
  reserved_nonneg = ground (arith, -ℤ_parts r.reserved q);
  sold_nonneg = ground (arith, +ℤ_parts r.sold q);
  reserved_le = ground (arith, -ℤ_parts r.on_hand q, -ℤ_parts r.reserved q);
  normal = v.normal;
}

pub adjusted_record-IsSound :
    (now : ℕ) (locator : Text) (δ : ℤ) (r : Inventory)
    → can_adjust locator δ r ≡ true
    → IsSound r
    → IsSound (adjusted_record now δ r)
adjusted_record-IsSound now locator δ r t v = record {
  on_hand_nonneg = ground (arith, +ℤ_parts r.on_hand δ);
  reserved_nonneg = v.reserved_nonneg;
  sold_nonneg = v.sold_nonneg;
  reserved_le = ground (arith, +ℤ_parts r.on_hand δ);
  normal = v.normal;
}

-- Where no record has the SKU, nothing is reserved for it.
reserved_total-none :
    (k : Text) (is : List Inventory)
    → count_by (λ r. r.sku == k) is ≡ 0
    → sum_by (reserved_of k) is ≡ pos 0
unfolding sum_by count_by
reserved_total-none k [] e = refl
reserved_total-none k (r ∷ is) e = elim (Bool-cases (r.sku == k)) [
  | inl t ↦ absurd (omega (arith, rw t at e))
  | inr t ↦ rw (t, reserved_total-none k is (omega (arith, rw t at e))) (omega int_laws)
]

covered_head : (a q : ℤ) (rest : ℤ) → rest ≡ pos 0 → q ≤ℤ a +ℤ rest → leb_ℤ q a ≡ true
covered_head a q rest e le = ground (arith, +ℤ_parts a rest)

covered_tail : (q : ℤ) (rest : ℤ) → q ≤ℤ pos 0 +ℤ rest → q ≤ℤ rest
covered_tail q rest le = omega (int_laws, le)

-- If a positive quantity is reserved for a SKU with one record, that record can release it.
pub can_release-total :
    (sku : Text) (q : ℤ) (is : List Inventory)
    → normalize_sku sku ≡ sku
    → pos 1 ≤ℤ q
    → count_by (λ r. r.sku == sku) is ≤ 1
    → q ≤ℤ sum_by (reserved_of sku) is
    → (d : Inventory) × (first (can_release sku q) is ≡ some d)
unfolding sum_by count_by first
can_release-total sku q [] n h one le = absurd (omega int_laws)
can_release-total sku q (r ∷ is) n h one le = elim (Bool-cases (r.sku == sku)) [
  | inl t ↦ (
    r,
    rw (
      n,
      t,
      covered_head r.reserved q (sum_by (reserved_of sku) is)
          (reserved_total-none sku is (omega (arith, rw t at one))) (rw t at le),
    ),
  )
  | inr t ↦
      rw (n, t)
        (can_release-total sku q is n h (omega (arith, rw t at one))
          (covered_tail q (sum_by (reserved_of sku) is) (rw t at le)))
]

-- What a match of the filters says of the record's SKU.
reserved_sku :
    (sku : Text) (q : ℤ) (d : Inventory)
    → normalize_sku sku ≡ sku
    → can_reserve sku q d ≡ true
    → d.sku ≡ sku
reserved_sku sku q d n t = ground (arith, n, t, eq_iff d.sku (normalize_sku sku))

released_sku :
    (sku : Text) (q : ℤ) (d : Inventory)
    → normalize_sku sku ≡ sku
    → can_release sku q d ≡ true
    → d.sku ≡ sku
released_sku sku q d n t = ground (arith, n, t, eq_iff d.sku (normalize_sku sku))

at-minus : (sku : Text) (q : ℤ) (k : Text) (o : ℤ) → o +ℤ at sku (pos 0 -ℤ q) k ≡ o -ℤ at sku q k
at-minus sku q k o = elim (Bool-cases (sku == k)) [
  | inl t ↦ rw t (omega int_laws)
  | inr t ↦ rw t (omega int_laws)
]

pub at-settled : (sku : Text) (q : ℤ) (k : Text) → pos 0 +ℤ at sku q k -ℤ at sku q k ≡ pos 0
at-settled sku q k = omega int_laws

pub active_total-nonneg :
    (k : Text) (rs : List Reservation) → All IsHeld rs → pos 0 ≤ℤ active_total k rs
unfolding active_total sum_by
active_total-nonneg k [] h = omega arith
active_total-nonneg k (r ∷ rs) h =
    ground (arith, active_total-nonneg k rs h.1, +ℤ_parts (active_of k r) (active_total k rs))

module _ (owed : Text → ℤ) (is : List Inventory) (rs : List Reservation) (l : Ledger owed is rs)
    (now : ℕ) (sku : Text) (q : ℤ) (n : normalize_sku sku ≡ sku) (h : pos 1 ≤ℤ q) where
  -- `reserveStock` owes what it takes.
  pub reserve_stock-Ledger :
      (d : Inventory)
      → first (can_reserve sku q) is ≡ some d
      → Ledger
          (λ k. owed k +ℤ at sku q k)
          (modify_first (can_reserve sku q) (reserved_record now q) is)
          rs
  reserve_stock-Ledger d e =
      update-Ledger owed is rs l (can_reserve sku q) (reserved_record now q) d sku q
        (λ x t v. reserved_record-IsSound now sku q x (omega arith) t v) (λ x. refl) e
        (reserved_sku sku q d n (first-holds _ is d e)) refl

  -- `releaseStock` and `commitStock` settle what they give back.
  settled :
      (f : Inventory → Inventory) (d : Inventory)
      → ((x : Inventory) → can_release sku q x ≡ true → IsSound x → IsSound (f x))
      → ((x : Inventory) → (f x).sku ≡ x.sku)
      → (f d).reserved ≡ d.reserved +ℤ (pos 0 -ℤ q)
      → first (can_release sku q) is ≡ some d
      → Ledger (λ k. owed k -ℤ at sku q k) (modify_first (can_release sku q) f is) rs
  settled f d keeps same grown e =
      owe-Ledger _ _ rs
        (update-Ledger owed is rs l (can_release sku q) f d sku (pos 0 -ℤ q) keeps same e
          (released_sku sku q d n (first-holds _ is d e)) grown)
        (λ k. owed k -ℤ at sku q k) (λ k. at-minus sku q k (owed k))

  pub release_stock-Ledger :
      (d : Inventory)
      → first (can_release sku q) is ≡ some d
      → Ledger
          (λ k. owed k -ℤ at sku q k)
          (modify_first (can_release sku q) (released_record now q) is)
          rs
  release_stock-Ledger d =
      settled (released_record now q) d
        (λ x t v. released_record-IsSound now sku q x (omega arith) t v) (λ x. refl)
        (omega int_laws)

  pub commit_stock-Ledger :
      (d : Inventory)
      → first (can_release sku q) is ≡ some d
      → Ledger
          (λ k. owed k -ℤ at sku q k)
          (modify_first (can_release sku q) (committed_record now q) is)
          rs
  commit_stock-Ledger d =
      settled (committed_record now q) d
        (λ x t v. committed_record-IsSound now sku q x (omega arith) t v) (λ x. refl)
        (omega int_laws)

  -- Stock that is owed can be released.
  pub can_release-owed : q ≤ℤ owed sku → (d : Inventory) × (first (can_release sku q) is ≡ some d)
  unfolding reserved_total
  can_release-owed le =
      can_release-total sku q is n h (l.one_record sku)
        (rw (l.balanced sku) (omega (int_laws, active_total-nonneg sku rs l.held)))

-- What is owed for a SKU alone.
pub le-at : (sku : Text) (q : ℤ) → q ≤ℤ pos 0 +ℤ at sku q sku
le-at sku q = rw (eq_refl sku) (omega int_laws)

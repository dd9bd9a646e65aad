-- ===== src/Inventory/Ledger.antt =====
-- The balance between the stock records and the reservations.
use rest_ecommerce_api.Prelude.Text.{Text, ◌==◌}
use rest_ecommerce_api.Prelude.{
  ℕ, ◌≤◌, ◌≡◌, ap, ◌∙◌, inl, inr, Bool, true, false, ◌&&◌, some, List, [], ◌∷◌, ◌++◌, ℤ, pos, ◌+ℤ◌,
  ◌-ℤ◌, ◌≤ℤ◌, int_laws, All, first, modify_first, sum_by, count_by, if◌then◌else◌, Bool-cases,
}
use rest_ecommerce_api.Prelude.Updates.{
  All-modify_first, All-append, sum_by-modify_first, sum_by-append, count_by-modify_first,
}
use rest_ecommerce_api.Inventory.Entity.{
  Inventory, Reservation, ReservationStatus, active, status_eq, normalize_sku,
}
use rest_ecommerce_api.Inventory.Repository.{Store, moved_reservation}

-- The stock that a record holds back for a SKU, and that a reservation holds of it while active.
abbrev pub reserved_of : Text → Inventory → ℤ
reserved_of k r = if r.sku == k then r.reserved else pos 0

abbrev pub active_of : Text → Reservation → ℤ
active_of k r = if r.sku == k && status_eq r.status active then r.quantity else pos 0

unfoldable pub reserved_total : Text → List Inventory → ℤ
reserved_total k = sum_by (reserved_of k)

unfoldable pub active_total : Text → List Reservation → ℤ
active_total k = sum_by (active_of k)

-- A record that satisfies the quantity invariants, under a normalized SKU.
pub record IsSound (r : Inventory) : Type 0 where
  pub on_hand_nonneg : pos 0 ≤ℤ r.on_hand
  pub reserved_nonneg : pos 0 ≤ℤ r.reserved
  pub sold_nonneg : pos 0 ≤ℤ r.sold
  pub reserved_le : r.reserved ≤ℤ r.on_hand
  pub normal : normalize_sku r.sku ≡ r.sku

pub record IsHeld (r : Reservation) : Type 0 where
  pub positive : pos 1 ≤ℤ r.quantity
  pub normal : normalize_sku r.sku ≡ r.sku

abbrev pub at : Text → ℤ → Text → ℤ
at sku q k = if sku == k then q else pos 0

-- The records hold back what the active reservations hold, and `owed` more.
pub record Ledger (owed : Text → ℤ) (inventories : List Inventory) (reservations : List Reservation)
    : Type 0 where
  pub sound : All IsSound inventories
  pub one_record : (k : Text) → count_by (λ r. r.sku == k) inventories ≤ 1
  pub held : All IsHeld reservations
  pub balanced : (k : Text) → reserved_total k inventories ≡ active_total k reservations +ℤ owed k

-- The state that the module keeps: nothing is owed.
abbrev pub IsConsistent : Store → Type 0
IsConsistent s = Ledger (λ k. pos 0) s.inventories s.reservations

-- What a record's reserved quantity grows by, its total grows by, under its own SKU alone.
reserved_of-change :
    (k : Text) (a b : Inventory) (δ : ℤ)
    → b.sku ≡ a.sku
    → b.reserved ≡ a.reserved +ℤ δ
    → reserved_of k b -ℤ reserved_of k a ≡ at a.sku δ k
reserved_of-change k a b δ same grown =
    rw (same, grown)
      (elim (Bool-cases (a.sku == k)) [
        | inl t ↦ rw t (omega int_laws)
        | inr t ↦ rw t (omega int_laws)
      ])

module _ (owed : Text → ℤ) (is : List Inventory) (rs : List Reservation)
    (l : Ledger owed is rs) where
  -- An update of one record that keeps it sound changes what is owed by what it reserves.
  pub update-Ledger :
      (p : Inventory → Bool) (f : Inventory → Inventory) (d : Inventory) (sku : Text) (δ : ℤ)
      → ((x : Inventory) → p x ≡ true → IsSound x → IsSound (f x))
      → ((x : Inventory) → (f x).sku ≡ x.sku)
      → first p is ≡ some d
      → d.sku ≡ sku
      → (f d).reserved ≡ d.reserved +ℤ δ
      → Ledger (λ k. owed k +ℤ at sku δ k) (modify_first p f is) rs
  unfolding reserved_total
  update-Ledger p f d sku δ keeps same e here grown = record {
    sound = All-modify_first IsSound p f is keeps l.sound;
    one_record = λ k.
        rw (count_by-modify_first (λ r. r.sku == k) p f is (λ x. ap (λ t. t == k) (same x)))
          (l.one_record k);
    held = l.held;
    balanced = λ k.
        rw
          (
            sum_by-modify_first (reserved_of k) p f is d e,
            l.balanced k,
            reserved_of-change k d (f d) δ (same d) grown,
            here,
          )
          (omega int_laws);
  }

  -- A reservation that is added holds what was owed to it.
  pub hold-Ledger :
      (r : Reservation)
      → IsHeld r
      → r.status ≡ active
      → Ledger (λ k. owed k -ℤ at r.sku r.quantity k) is (rs ++ r ∷ [])
  unfolding active_total
  hold-Ledger r h a = record {
    sound = l.sound;
    one_record = l.one_record;
    held = All-append IsHeld rs (r ∷ []) l.held (h, tt);
    balanced = λ k.
        rw (sum_by-append (active_of k) rs r, l.balanced k, a)
          (elim (Bool-cases (r.sku == k)) [
            | inl t ↦ rw t (omega int_laws)
            | inr t ↦ rw t (omega int_laws)
          ]);
  }

  -- An active reservation that ends owes what it held.
  pub end-Ledger :
      (p : Reservation → Bool) (now : ℕ) (to : ReservationStatus) (d : Reservation)
      → first p rs ≡ some d
      → d.status ≡ active
      → status_eq to active ≡ false
      → Ledger
          (λ k. owed k +ℤ at d.sku d.quantity k)
          is
          (modify_first p (moved_reservation now to) rs)
  unfolding active_total
  end-Ledger p now to d e a t = record {
    sound = l.sound;
    one_record = l.one_record;
    held =
        All-modify_first IsHeld p (moved_reservation now to) rs
          (λ x _ h. record { positive = h.positive; normal = h.normal }) l.held;
    balanced = λ k.
        rw
          (
            l.balanced k,
            sum_by-modify_first (active_of k) p (moved_reservation now to) rs d e,
            a,
            t,
          )
          (elim (Bool-cases (d.sku == k)) [
            | inl u ↦ rw u (omega int_laws)
            | inr u ↦ rw u (omega int_laws)
          ]);
  }

  -- Only what is owed for each SKU matters.
  pub owe-Ledger : (owed' : Text → ℤ) → ((k : Text) → owed k ≡ owed' k) → Ledger owed' is rs
  owe-Ledger owed' same = record {
    sound = l.sound;
    one_record = l.one_record;
    held = l.held;
    balanced = λ k. l.balanced k ∙ ap (λ o. active_total k rs +ℤ o) (same k);
  }

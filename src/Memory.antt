-- ===== src/Memory.antt =====
-- An in-memory collection: a value at which the laws of `Collection` hold.
use mathlib.Core.Option
use rest_ecommerce_api.Prelude.{
  ℕ, zero, suc, ◌≤◌, ◌≡◌, refl, inr, Bool, true, List, [], ◌∷◌, ◌++◌, arith, All, length, take,
  first, any, modify_first, filter_by, count_by, map, if◌then◌else◌, Bool-cases, inl,
}
use rest_ecommerce_api.Mongo.{Collection, duplicate, inserted}

module _ {Doc : Type 0} where
  filter_by-All : (p : Doc → Bool) (ds : List Doc) → All (λ d. p d ≡ true) (filter_by p ds)
  unfolding filter_by
  filter_by-All p [] = tt
  filter_by-All p (d ∷ ds) = elim (Bool-cases (p d)) [
    | inl t ↦ rw t (t, filter_by-All p ds)
    | inr t ↦ rw t (filter_by-All p ds)
  ]

  take-All :
      (p : Doc → Bool) (n : ℕ) (ds : List Doc)
      → All (λ d. p d ≡ true) ds
      → All (λ d. p d ≡ true) (take n ds) × (length (take n ds) ≤ n)
  take-All p zero ds h = (tt, omega arith)
  take-All p (suc n) [] h = (tt, omega arith)
  take-All p (suc n) (d ∷ ds) h =
      let (all, short) = take-All p n ds h.1 in ((h.0, all), omega (arith, short))

  filter_by-count : (p : Doc → Bool) (ds : List Doc) → length (filter_by p ds) ≡ count_by p ds
  unfolding filter_by count_by
  filter_by-count p [] = refl
  filter_by-count p (d ∷ ds) = ground (arith, filter_by-count p ds)

-- Sorting is left to the caller: the laws do not speak of it.
unfoldable pub memory : (Doc : Type 0) → Collection Doc
unfolding first modify_first any filter_by count_by take-All filter_by-All filter_by-count
memory Doc = record {
  find_one = first;
  find_one_and_update = λ p f ds. (Option.map f (first p ds), modify_first p f ds);
  insert_one = λ clash d ds. if any (clash d) ds then duplicate else inserted (ds ++ d ∷ []);
  find_sorted = λ p key n ds. take n (filter_by p ds);
  update_many = λ p f ds. map (λ d. if p d then f d else d) ds;
  find = filter_by;
  find_one_first = λ p ds. refl;
  find_one_and_update_first = λ p f ds. refl;
  insert_one_lem = λ clash d ds. inr refl;
  find_sorted_matches = λ p key n ds. take-All p n (filter_by p ds) (filter_by-All p ds);
  update_many_all = λ p f ds. refl;
  length-find = λ p ds. filter_by-count p ds;
}

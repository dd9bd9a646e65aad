-- ===== src/Prelude/Updates.antt =====
-- Lemmas on searching a list, and on replacing one of its elements or adding one.
use mathlib.Core.Option.{some-injective}
use rest_ecommerce_api.Prelude.{
  ◌+◌, ◌≤◌, ◌≡◌, refl, subst, inl, inr, Bool, true, false, none, some, List, [], ◌∷◌, ◌++◌, ℤ, ◌+ℤ◌,
  ◌-ℤ◌, arith, int_laws, All, first, any, modify_first, filter_by, length, sum_by, count_by,
  if◌then◌else◌, Bool-cases,
}

module _ {ℓ} {A : Type ℓ} where
  -- What a search finds passes the test.
  pub first-holds : (p : A → Bool) (xs : List A) (d : A) → first p xs ≡ some d → p d ≡ true
  unfolding first
  first-holds p [] d e = absurd (ground arith)
  first-holds p (x ∷ xs) d e = ground (arith, first-holds p xs d)

  -- It is an element of the list.
  pub All-first {κ} :
      (P : A → Type κ) (p : A → Bool) (xs : List A) (d : A) → All P xs → first p xs ≡ some d → P d
  unfolding first
  All-first P p [] d h e = absurd (ground arith)
  All-first P p (x ∷ xs) d h e = elim (Bool-cases (p x)) [
    | inl t ↦ subst P (some-injective _ _ (rw t at e)) h.0
    | inr t ↦ All-first P p xs d h.1 (rw t at e)
  ]

  -- A stricter search finds the same element, if that passes the stricter test.
  pub first-narrow :
      (p q : A → Bool) (xs : List A) (d : A)
      → ((x : A) → q x ≡ true → p x ≡ true)
      → first p xs ≡ some d
      → q d ≡ true
      → first q xs ≡ some d
  unfolding first
  first-narrow p q [] d h e t = absurd (ground arith)
  first-narrow p q (x ∷ xs) d h e t = ground (arith, h x, first-narrow p q xs d h)

  pub modify_first-miss :
      (p : A → Bool) (f : A → A) (xs : List A) → first p xs ≡ none → modify_first p f xs ≡ xs
  unfolding first modify_first
  modify_first-miss p f [] e = refl
  modify_first-miss p f (x ∷ xs) e = ground (arith, modify_first-miss p f xs)

  pub All-modify_first {κ} :
      (P : A → Type κ) (p : A → Bool) (f : A → A) (xs : List A)
      → ((x : A) → p x ≡ true → P x → P (f x))
      → All P xs
      → All P (modify_first p f xs)
  unfolding modify_first
  All-modify_first P p f [] k h = tt
  All-modify_first P p f (x ∷ xs) k h = elim (Bool-cases (p x)) [
    | inl t ↦ rw t (k x t h.0, h.1)
    | inr t ↦ rw t (h.0, All-modify_first P p f xs k h.1)
  ]

  pub All-append {κ} : (P : A → Type κ) (xs ys : List A) → All P xs → All P ys → All P (xs ++ ys)
  All-append P [] ys h k = k
  All-append P (x ∷ xs) ys h k = (h.0, All-append P xs ys h.1 k)

  -- A sum changes by what the replaced element changes by.
  pub sum_by-modify_first :
      (g : A → ℤ) (p : A → Bool) (f : A → A) (xs : List A) (d : A)
      → first p xs ≡ some d
      → sum_by g (modify_first p f xs) ≡ sum_by g xs +ℤ (g (f d) -ℤ g d)
  unfolding first modify_first sum_by
  sum_by-modify_first g p f [] d e = absurd (ground arith)
  sum_by-modify_first g p f (x ∷ xs) d e = elim (Bool-cases (p x)) [
    | inl t ↦ rw t (rw (some-injective _ _ (rw t at e)) (omega int_laws))
    | inr t ↦ rw t (rw (sum_by-modify_first g p f xs d (rw t at e)) (omega int_laws))
  ]

  pub sum_by-append :
      (g : A → ℤ) (xs : List A) (y : A) → sum_by g (xs ++ y ∷ []) ≡ sum_by g xs +ℤ g y
  unfolding sum_by
  sum_by-append g [] y = omega int_laws
  sum_by-append g (x ∷ xs) y = rw (sum_by-append g xs y) (omega int_laws)

  -- The number of matches stays, if the replaced element matches as before.
  pub count_by-modify_first :
      (q p : A → Bool) (f : A → A) (xs : List A)
      → ((x : A) → q (f x) ≡ q x)
      → count_by q (modify_first p f xs) ≡ count_by q xs
  unfolding modify_first count_by
  count_by-modify_first q p f [] k = refl
  count_by-modify_first q p f (x ∷ xs) k = ground (arith, k x, count_by-modify_first q p f xs k)

  pub count_by-append :
      (q : A → Bool) (xs : List A) (y : A)
      → count_by q (xs ++ y ∷ []) ≡ count_by q xs + (if q y then 1 else 0)
  unfolding count_by
  count_by-append q [] y = omega arith
  count_by-append q (x ∷ xs) y = omega (arith, count_by-append q xs y)

  pub count_by-any :
      (q r : A → Bool) (xs : List A)
      → any r xs ≡ false
      → ((x : A) → q x ≡ true → r x ≡ true)
      → count_by q xs ≡ 0
  unfolding any count_by
  count_by-any q r [] e k = refl
  count_by-any q r (x ∷ xs) e k = ground (arith, k x, count_by-any q r xs)

  -- No element passes a test that no element passes.
  pub count_by-zero :
      (p q : A → Bool) (xs : List A)
      → count_by p xs ≡ 0
      → ((x : A) → q x ≡ true → p x ≡ true)
      → first q xs ≡ none
  unfolding first count_by
  count_by-zero p q [] e k = refl
  count_by-zero p q (x ∷ xs) e k = ground (arith, k x, count_by-zero p q xs)

  -- Where at most one element passes a test, and it fails a stricter one, none passes that.
  pub first_unique :
      (p q : A → Bool) (xs : List A) (d : A)
      → count_by p xs ≤ 1
      → first p xs ≡ some d
      → ((x : A) → q x ≡ true → p x ≡ true)
      → q d ≡ false
      → first q xs ≡ none
  unfolding first count_by
  first_unique p q [] d c e k f = refl
  first_unique p q (x ∷ xs) d c e k f = elim (Bool-cases (p x)) [
    | inl t ↦
        let here : x ≡ d = some-injective _ _ (rw t at e) in
        let rest : count_by p xs ≡ 0 = omega (arith, rw t at c) in
        let miss : q x ≡ false = rw here f in rw miss (count_by-zero p q xs rest k)
    | inr t ↦
        let c' : count_by p xs ≤ 1 = omega (arith, rw t at c) in
        let tail : first q xs ≡ none = first_unique p q xs d c' (rw t at e) k f in
        ground (arith, k x, tail)
  ]

  -- The search for the replaced element finds it as replaced.
  pub first-modify_first :
      (p q : A → Bool) (f : A → A) (xs : List A) (d : A)
      → first p xs ≡ some d
      → first q xs ≡ some d
      → ((x : A) → q x ≡ true → p x ≡ true)
      → p (f d) ≡ true
      → first p (modify_first q f xs) ≡ some (f d)
  unfolding first modify_first
  first-modify_first p q f [] d e h k t = absurd (ground arith)
  first-modify_first p q f (x ∷ xs) d e h k t = elim (Bool-cases (q x)) [
    | inl y ↦ let here : x ≡ d = some-injective _ _ (rw y at h) in rw y (rw here (rw t refl))
    | inr n ↦ elim (Bool-cases (p x)) [
      | inl y ↦
          let here : x ≡ d = some-injective _ _ (rw y at e) in
          let found : q d ≡ true = first-holds q xs d (rw n at h) in
          absurd (ground (arith, found, subst (λ z. q z ≡ false) here n))
      | inr m ↦ rw n (rw m (first-modify_first p q f xs d (rw m at e) (rw n at h) k t))
    ]
  ]

  pub length-modify_first :
      (p : A → Bool) (f : A → A) (xs : List A) → length (modify_first p f xs) ≡ length xs
  unfolding modify_first
  length-modify_first p f [] = refl
  length-modify_first p f (x ∷ xs) = ground (arith, length-modify_first p f xs)

  pub length-append : (xs : List A) (y : A) → length (xs ++ y ∷ []) ≡ length xs + 1
  length-append [] y = refl
  length-append (x ∷ xs) y = omega (arith, length-append xs y)

  pub length-filter_by : (p : A → Bool) (xs : List A) → length (filter_by p xs) ≤ length xs
  unfolding filter_by
  length-filter_by p [] = omega arith
  length-filter_by p (x ∷ xs) = ground (arith, length-filter_by p xs)

  pub count_by-filter_by :
      (q p : A → Bool) (xs : List A) → count_by q (filter_by p xs) ≤ count_by q xs
  unfolding filter_by count_by
  count_by-filter_by q p [] = omega arith
  count_by-filter_by q p (x ∷ xs) = ground (arith, count_by-filter_by q p xs)

-- ===== src/Prelude/Replacing.antt =====
-- More lemmas on lists with an element added or replaced.
use mathlib.Core.Option.{some-injective}
use rest_ecommerce_api.Prelude.{
  ◌≡◌, refl, subst, ap, ◌⊎◌, inl, inr, Bool, true, false, none, some, List, [], ◌∷◌, ◌++◌, arith,
  All, first, any, modify_first, map, if◌then◌else◌, Bool-cases, is_some,
}
use rest_ecommerce_api.Prelude.Updates.{first-holds}

module _ {ℓ} {A : Type ℓ} where
  pub first-append :
      (p : A → Bool) (xs : List A) (y : A) → p y ≡ true → is_some (first p (xs ++ y ∷ [])) ≡ true
  unfolding first
  first-append p [] y t = rw t refl
  first-append p (x ∷ xs) y t = ground (arith, first-append p xs y t)

  -- A search that a replacement does not disturb finds the same element, or the replaced one.
  pub first-modify_first_cases :
      (q p : A → Bool) (f : A → A) (xs : List A) (d : A)
      → ((x : A) → q (f x) ≡ q x)
      → first q xs ≡ some d
      → (first q (modify_first p f xs) ≡ some d)
        ⊎ ((p d ≡ true) × (first q (modify_first p f xs) ≡ some (f d)))
  unfolding first modify_first
  first-modify_first_cases q p f [] d k e = absurd (ground arith)
  first-modify_first_cases q p f (x ∷ xs) d k e = elim (Bool-cases (p x)) [
    | inl y ↦ elim (Bool-cases (q x)) [
      | inl t ↦
          let here : x ≡ d = some-injective _ _ (rw t at e) in
          inr (subst (λ z. p z ≡ true) here y, rw y (rw (k x, t) (ap (λ z. some (f z)) here)))
      | inr t ↦ inl (rw y (rw (k x, t) (rw t at e)))
    ]
    | inr n ↦ elim (Bool-cases (q x)) [
      | inl t ↦ inl (rw n (rw t (rw t at e)))
      | inr t ↦ rw n (rw t (first-modify_first_cases q p f xs d k (rw t at e)))
    ]
  ]

  pub first-append_found :
      (p : A → Bool) (xs : List A) (y d : A) → first p xs ≡ some d → first p (xs ++ y ∷ []) ≡ some d
  unfolding first
  first-append_found p [] y d e = absurd (ground arith)
  first-append_found p (x ∷ xs) y d e = ground (arith, first-append_found p xs y d)

  pub modify_first-misses :
      (q p : A → Bool) (f : A → A) (xs : List A)
      → ((x : A) → q (f x) ≡ q x)
      → first q xs ≡ none
      → first q (modify_first p f xs) ≡ none
  unfolding first modify_first
  modify_first-misses q p f [] k e = refl
  modify_first-misses q p f (x ∷ xs) k e = ground (arith, k x, modify_first-misses q p f xs k)

  pub All-both {κ ι} :
      (P : A → Type κ) (Q : A → Type ι) (xs : List A)
      → All P xs
      → All Q xs
      → All (λ x. P x × Q x) xs
  All-both P Q [] h k = tt
  All-both P Q (x ∷ xs) h k = ((h.0, k.0), All-both P Q xs h.1 k.1)

  -- An element that is added where none passes the test is found by it.
  pub first-append_new :
      (p q : A → Bool) (xs : List A) (y : A)
      → any q xs ≡ false
      → ((x : A) → p x ≡ true → q x ≡ true)
      → p y ≡ true
      → first p (xs ++ y ∷ []) ≡ some y
  unfolding first any
  first-append_new p q [] y e k t = rw t refl
  first-append_new p q (x ∷ xs) y e k t = ground (arith, k x, first-append_new p q xs y)

  -- A replacement that meets the element which the search finds.
  pub first-modify_first_met :
      (p q : A → Bool) (f : A → A) (xs : List A) (d : A)
      → first p xs ≡ some d
      → first q xs ≡ some d
      → p (f d) ≡ true
      → first p (modify_first q f xs) ≡ some (f d)
  unfolding first modify_first
  first-modify_first_met p q f [] d e h t = absurd (ground arith)
  first-modify_first_met p q f (x ∷ xs) d e h t = elim (Bool-cases (q x)) [
    | inl y ↦ let here : x ≡ d = some-injective _ _ (rw y at h) in rw y (rw here (rw t refl))
    | inr n ↦ elim (Bool-cases (p x)) [
      | inl y ↦
          let here : x ≡ d = some-injective _ _ (rw y at e) in
          let found : q d ≡ true = first-holds q xs d (rw n at h) in
          absurd (ground (arith, found, subst (λ z. q z ≡ false) here n))
      | inr m ↦ rw n (rw m (first-modify_first_met p q f xs d (rw m at e) (rw n at h) t))
    ]
  ]

  -- Every element passes what the update makes of the matches, if the others do.
  pub All-update {κ} :
      (P : A → Type κ) (p : A → Bool) (f : A → A) (xs : List A)
      → ((x : A) → p x ≡ true → P (f x))
      → ((x : A) → p x ≡ false → P x)
      → All P (map (λ x. if p x then f x else x) xs)
  All-update P p f [] h k = tt
  All-update P p f (x ∷ xs) h k = elim (Bool-cases (p x)) [
    | inl t ↦ rw t (h x t, All-update P p f xs h k)
    | inr t ↦ rw t (k x t, All-update P p f xs h k)
  ]

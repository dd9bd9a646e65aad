-- ===== src/Errors/Rules.antt =====
-- How actions run: one step at a time, and what they keep.
use rest_ecommerce_api.Prelude.{
  ◌≡◌, refl, ap, inl, inr, ◌⊎◌, Bool, true, false, Option, none, some, if◌then◌else◌,
}
use rest_ecommerce_api.Errors.{
  Error, Result, ok, err, Action, pure, raise, or_raise, attempt, require, ◌>>=◌,
}

-- A bind after a step whose outcome is known.
module _ {S A B : Type 0} where
  abbrev continue : (A → Action S B) → Result A × S → Result B × S
  continue f (r, s) = elim r [ ok a ↦ f a s | err e ↦ (err e, s) ]

  pub bind_ok :
      (m : Action S A) (f : A → Action S B) (s : S) {a : A} {s' : S}
      → m s ≡ (ok a, s')
      → (m >>= f) s ≡ f a s'
  unfolding ◌>>=◌
  bind_ok m f s e = ap (continue f) e

  pub bind_err :
      (m : Action S A) (f : A → Action S B) (s : S) {e : Error} {s' : S}
      → m s ≡ (err e, s')
      → (m >>= f) s ≡ (err e, s')
  unfolding ◌>>=◌
  bind_err m f s h = ap (continue f) h

  pub bind_none : (f : A → Action S B) (e : Error) (s : S) → (or_raise none e >>= f) s ≡ (err e, s)
  unfolding ◌>>=◌ or_raise
  bind_none f e s = refl

  pub bind_some :
      (f : A → Action S B) (a : A) (e : Error) (s : S) → (or_raise (some a) e >>= f) s ≡ f a s
  unfolding ◌>>=◌ or_raise
  bind_some f a e s = refl

module _ {S A B : Type 0} where
  -- Where the second step leaves the state alone, the first one decides it.
  pub bind_state :
      (m : Action S A) (f : A → Action S B) (s : S)
      → ((a : A) (t : S) → (f a t).1 ≡ t)
      → ((m >>= f) s).1 ≡ (m s).1
  unfolding ◌>>=◌
  bind_state m f s same = decided (m s).0 (m s).1
    where
      decided :
          (r : Result A) (t : S)
          → (elim r as (λ x. Result B × S) [ ok a ↦ f a t | err e ↦ (err e, t) ]).1 ≡ t
      decided (ok a) t = same a t
      decided (err e) t = refl

module _ {S A : Type 0} where
  pub attempt_lem :
      (m : Action S A) (s : S) {r : Result A} {s' : S} → m s ≡ (r, s') → attempt m s ≡ (ok r, s')
  unfolding attempt
  attempt_lem m s e = rw e

pub require_ok : {S : Type 0} (b : Bool) (e : Error) (s : S) → b ≡ true → require b e s ≡ (ok tt, s)
unfolding require
require_ok b e s t = rw t refl

pub require_err :
    {S : Type 0} (b : Bool) (e : Error) (s : S) → b ≡ false → require b e s ≡ (err e, s)
unfolding require
require_err b e s t = rw t refl

pub Result-cases :
    {A : Type 0} (r : Result A) → ((a : A) × (r ≡ ok a)) ⊎ ((e : Error) × (r ≡ err e))
Result-cases (ok a) = inl (a, refl)
Result-cases (err e) = inr (e, refl)

-- An action that keeps a property of the state, whether or not it raises.
pub record Keeps {S A : Type 0} (Q : S → Type 0) (m : Action S A) : Type 0 where
  pub at : (s : S) → Q s → Q (m s).1

module _ {S A : Type 0} {Q : S → Type 0} where
  pub Keeps-pure : (a : A) → Keeps Q (pure a)
  unfolding pure
  Keeps-pure a = record { at = λ s q. q }

  pub Keeps-raise : (e : Error) → Keeps Q (raise {A = A} e)
  unfolding raise
  Keeps-raise e = record { at = λ s q. q }

  pub Keeps-or_raise : (o : Option A) (e : Error) → Keeps Q (or_raise o e)
  unfolding or_raise
  Keeps-or_raise none e = record { at = λ s q. q }
  Keeps-or_raise (some a) e = record { at = λ s q. q }

  pub Keeps-attempt : (m : Action S A) → Keeps Q m → Keeps Q (attempt m)
  unfolding attempt
  Keeps-attempt m km = record { at = km.at }

  pub Keeps-if :
      (b : Bool) (m n : Action S A) → Keeps Q m → Keeps Q n → Keeps Q (if b then m else n)
  Keeps-if true m n km kn = km
  Keeps-if false m n km kn = kn

  pub Keeps-option :
      {X : Type 0} (o : Option X) (m : X → Action S A) (n : Action S A)
      → ((x : X) → Keeps Q (m x))
      → Keeps Q n
      → Keeps Q (elim o as (λ x. Action S A) [ some x ↦ m x | none ↦ n ])
  Keeps-option none m n km kn = kn
  Keeps-option (some x) m n km kn = km x

  pub Keeps-read : (m : Action S A) (f : S → A) → ((s : S) → m s ≡ (ok (f s), s)) → Keeps Q m
  Keeps-read m f e = record { at = λ s q. rw (e s) q }

module _ {S : Type 0} {Q : S → Type 0} where
  pub Keeps-require : (b : Bool) (e : Error) → Keeps Q (require b e)
  unfolding require
  Keeps-require true e = record { at = λ s q. q }
  Keeps-require false e = record { at = λ s q. q }

module _ {S A B : Type 0} {Q : S → Type 0} where
  after_result :
      (f : A → Action S B) (r : Result A) (s : S)
      → ((a : A) → Keeps Q (f a))
      → Q s
      → Q (elim r as (λ x. Result B × S) [ ok a ↦ f a s | err e ↦ (err e, s) ]).1
  after_result f (ok a) s kf q = (kf a).at s q
  after_result f (err e) s kf q = q

  pub Keeps-bind :
      (m : Action S A) (f : A → Action S B)
      → Keeps Q m
      → ((a : A) → Keeps Q (f a))
      → Keeps Q (m >>= f)
  unfolding ◌>>=◌
  Keeps-bind m f km kf = record { at = λ s q. after_result f (m s).0 (m s).1 kf (km.at s q) }

module _ {S A B : Type 0} (Q R : S → Type 0) where
  -- A first step that keeps `Q`, and a second that leads from `Q` to `R`.
  pub bind_leads :
      (m : Action S A) (f : A → Action S B)
      → Keeps Q m
      → ((s : S) → Q s → R s)
      → ((a : A) (s : S) → Q s → R (f a s).1)
      → (s : S) → Q s
      → R ((m >>= f) s).1
  unfolding ◌>>=◌
  bind_leads m f km stop go s q = led (m s).0 (m s).1 (km.at s q)
    where
      led :
          (r : Result A) (t : S)
          → Q t
          → R (elim r as (λ x. Result B × S) [ ok a ↦ f a t | err e ↦ (err e, t) ]).1
      led (ok a) t k = go a t k
      led (err e) t k = stop t k

module _ {S B : Type 0} {Q : S → Type 0} where
  -- What follows a guard may use that its test holds.
  pub Keeps-guard :
      (b : Bool) (e : Error) (f : Unit {0} → Action S B)
      → (b ≡ true → Keeps Q (f tt))
      → Keeps Q (require b e >>= f)
  unfolding require ◌>>=◌
  Keeps-guard true e f kf = record { at = (kf refl).at }
  Keeps-guard false e f kf = record { at = λ s q. q }

pub ruleset keeps_rules = (
  Keeps-pure, Keeps-raise, Keeps-or_raise, Keeps-attempt, Keeps-if, Keeps-option, Keeps-require,
  Keeps-bind,
)

module _ {S B : Type 0} (R : Result B × S → Type 0) (e : Error) (s : S) where
  -- What holds of the error, and of what follows, holds of a guard or a check for null before it.
  pub require_cases :
      (b : Bool) (f : Unit {0} → Action S B) → R (err e, s) → R (f tt s) → R ((require b e >>= f) s)
  unfolding require ◌>>=◌
  require_cases true f raised passed = passed
  require_cases false f raised passed = raised

  pub or_raise_cases :
      {A : Type 0} (o : Option A) (f : A → Action S B)
      → R (err e, s)
      → ((a : A) → R (f a s))
      → R ((or_raise o e >>= f) s)
  unfolding or_raise ◌>>=◌
  or_raise_cases none f raised passed = raised
  or_raise_cases (some a) f raised passed = passed a

  -- What follows a guard may use that its test holds.
  pub guard_cases :
      (b : Bool) (f : Unit {0} → Action S B)
      → R (err e, s)
      → (b ≡ true → R (f tt s))
      → R ((require b e >>= f) s)
  unfolding require ◌>>=◌
  guard_cases true f raised passed = passed refl
  guard_cases false f raised passed = raised

-- A bind, from what holds of the outcome of its first step.
module _ {S A B : Type 0} (P : Result A × S → Type 0) (R : Result B × S → Type 0) where
  pub bind_result :
      (m : Action S A) (f : A → Action S B) (s : S)
      → P (m s)
      → ((a : A) (t : S) → P (ok a, t) → R (f a t))
      → ((e : Error) (t : S) → P (err e, t) → R (err e, t))
      → R ((m >>= f) s)
  unfolding ◌>>=◌
  bind_result m f s p good bad = went (m s).0 (m s).1 p
    where
      went :
          (r : Result A) (t : S)
          → P (r, t)
          → R (elim r as (λ x. Result B × S) [ ok a ↦ f a t | err e ↦ (err e, t) ])
      went (ok a) t h = good a t h
      went (err e) t h = bad e t h

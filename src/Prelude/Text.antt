-- ===== src/Prelude/Text.antt =====
-- JavaScript strings: sequences of UTF-16 code units, with `===`, `trim` and `toUpperCase`.
use Prim.Native.Nat.{ℕ, ◌+◌, ◌-◌}
use Prim.Native.Char.{code}
use Prim.Native.String.{String}
use mathlib.Core.Path.{◌≡◌, refl, ◌∙◌, ap}
use mathlib.Core.Logic.{◌↔◌, inl, inr}
use mathlib.Core.Bool.{Bool, true, false, ◌||◌, ◌&&◌}
use mathlib.Core.List.{List, [], ◌∷◌, map}
use native.Mathlib.Omega.{arith}
use rest_ecommerce_api.Prelude.Tests.{leb, nat_eq, if◌then◌else◌, Bool-cases}

abbrev pub Text : Type 0
Text = List ℕ

-- The code units of a literal (its characters lie in the basic plane).
abbrev pub text : String → Text
text String.[] = []
text (String.◌∷◌ c s) = code c ∷ text s

infix 50 ◌==◌
unfoldable pub ◌==◌ : Text → Text → Bool
[] == [] = true
[] == (d ∷ t) = false
(c ∷ s) == [] = false
(c ∷ s) == (d ∷ t) = nat_eq c d && s == t

pub eq_iff : (s t : Text) → ((s == t) ≡ true) ↔ (s ≡ t)
unfolding ◌==◌
eq_iff [] [] = ground arith
eq_iff [] (d ∷ t) = ground arith
eq_iff (c ∷ s) [] = ground arith
eq_iff (c ∷ s) (d ∷ t) = ground (arith, eq_iff s t)

pub eq_refl : (s : Text) → (s == s) ≡ true
eq_refl s = (eq_iff s s).1 refl

-- The empty string is falsy.
abbrev pub is_empty : Text → Bool
is_empty [] = true
is_empty (c ∷ s) = false

-- White space and line terminators of ECMAScript.
unfoldable pub is_space : ℕ → Bool
is_space c =
    leb 9 c && leb c 13
    || nat_eq c 32
    || nat_eq c 160
    || nat_eq c 5760
    || leb 8192 c && leb c 8202
    || nat_eq c 8232
    || nat_eq c 8233
    || nat_eq c 8239
    || nat_eq c 8287
    || nat_eq c 12288
    || nat_eq c 65279

-- One unit of `toUpperCase`, on the ASCII letters.
unfoldable pub upper_unit : ℕ → ℕ
upper_unit c = if leb b'a' c && leb c b'z' then c - 32 else c

unfoldable pub to_upper_case : Text → Text
unfolding upper_unit
to_upper_case = map upper_unit

-- One unit of `toLowerCase`, on the ASCII letters.
unfoldable pub lower_unit : ℕ → ℕ
lower_unit c = if leb b'A' c && leb c b'Z' then c + 32 else c

unfoldable pub to_lower_case : Text → Text
unfolding lower_unit
to_lower_case = map lower_unit

unfoldable pub trim_start : Text → Text
trim_start [] = []
trim_start (c ∷ s) = if is_space c then trim_start s else c ∷ s

unfoldable pub trim_end : Text → Text
trim_end [] = []
trim_end (c ∷ s) = let rest = trim_end s in if is_empty rest && is_space c then [] else c ∷ rest

unfoldable pub trim : Text → Text
unfolding trim_start trim_end is_space
trim s = trim_end (trim_start s)

-- Trimming and upper case are idempotent, and commute.
upper_unit_idem : (c : ℕ) → upper_unit (upper_unit c) ≡ upper_unit c
unfolding upper_unit
upper_unit_idem c = ground arith

to_upper_case_idem : (s : Text) → to_upper_case (to_upper_case s) ≡ to_upper_case s
unfolding to_upper_case
to_upper_case_idem [] = refl
to_upper_case_idem (c ∷ s) = cc (upper_unit_idem c, to_upper_case_idem s)

is_space-upper_unit : (c : ℕ) → is_space (upper_unit c) ≡ is_space c
unfolding is_space upper_unit
is_space-upper_unit c = ground arith

is_empty-upper : (s : Text) → is_empty (to_upper_case s) ≡ is_empty s
unfolding to_upper_case
is_empty-upper [] = refl
is_empty-upper (c ∷ s) = refl

trim_start-upper : (s : Text) → trim_start (to_upper_case s) ≡ to_upper_case (trim_start s)
unfolding trim_start to_upper_case
trim_start-upper [] = refl
trim_start-upper (c ∷ s) = ground (arith, is_space-upper_unit c, trim_start-upper s)

trim_end-upper : (s : Text) → trim_end (to_upper_case s) ≡ to_upper_case (trim_end s)
unfolding trim_end to_upper_case
trim_end-upper [] = refl
trim_end-upper (c ∷ s) =
    ground (arith, is_space-upper_unit c, trim_end-upper s, is_empty-upper (trim_end s))

trim_end_idem : (s : Text) → trim_end (trim_end s) ≡ trim_end s
unfolding trim_end
trim_end_idem [] = refl
trim_end_idem (c ∷ s) = ground (arith, trim_end_idem s)

trim_start-trim_end : (s : Text) → trim_start (trim_end (trim_start s)) ≡ trim_end (trim_start s)
unfolding trim_start
trim_start-trim_end [] = unfold trim_end in refl
trim_start-trim_end (c ∷ s) = elim (Bool-cases (is_space c)) [
  | inl e ↦ rw e (trim_start-trim_end s)
  | inr e ↦ rw e (unfold trim_end in ground (arith, e))
]

trim_idem : (s : Text) → trim (trim s) ≡ trim s
unfolding trim
trim_idem s = ap trim_end (trim_start-trim_end s) ∙ trim_end_idem (trim_start s)

trim-upper : (s : Text) → trim (to_upper_case s) ≡ to_upper_case (trim s)
unfolding trim
trim-upper s = ap trim_end (trim_start-upper s) ∙ trim_end-upper (trim_start s)

pub upper-trim_idem :
    (s : Text) → to_upper_case (trim (to_upper_case (trim s))) ≡ to_upper_case (trim s)
upper-trim_idem s =
    ap to_upper_case (trim-upper (trim s) ∙ ap to_upper_case (trim_idem s))
    ∙ to_upper_case_idem (trim s)

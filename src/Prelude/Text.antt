-- ===== src/Prelude/Text.antt =====
-- Rust's strings: the list of their Unicode scalar values. `String` literals only spell them.
use Prim.Native.Nat.{ℕ, ◌+◌, compare, Ordering}
use Prim.Native.Char.{code}
use Prim.Native.String.{String}
use mathlib.Core.Path.{◌≡◌, refl, sym, ap₂}
use mathlib.Core.Bool.{Bool, true, ◌&&◌}
use mathlib.Core.List.{List, [], ◌∷◌, map}
use native.Mathlib.Omega.{arith}
use native.Mathlib.Decide.{ℕ_discrete}
use gitvote.Prelude.Tests.{leb, if◌then◌else◌}
use gitvote.Prelude.Equality.{Eq, ◌==◌}

abbrev pub Str : Type 0
Str = List ℕ

abbrev pub str : String → Str
str String.[] = []
str (String.◌∷◌ c s) = code c ∷ str s

pub cons-ne-nil : (x : ℕ) (xs : Str) → ¬ (x ∷ xs ≡ [])
cons-ne-nil x xs h = cc

unfoldable pub Str-discrete : Discrete Str
unfolding ℕ_discrete
Str-discrete [] [] = yes refl
Str-discrete [] (y ∷ ys) = no (λ h. cons-ne-nil y ys (sym h))
Str-discrete (x ∷ xs) [] = no (cons-ne-nil x xs)
Str-discrete (x ∷ xs) (y ∷ ys) =
    let rest = Str-discrete xs ys in
    elim (ℕ_discrete x y) [
      | yes p ↦ elim rest [ yes q ↦ yes (ap₂ ◌∷◌ p q) | no q ↦ no (λ h. q (cons_tail x y xs ys h)) ]
      | no p ↦ no (λ h. p (cons_head x y xs ys h))
    ]
  where
    cons_tail : (x y : ℕ) (xs ys : Str) → x ∷ xs ≡ y ∷ ys → xs ≡ ys
    cons_tail x y xs ys h = cc

    cons_head : (x y : ℕ) (xs ys : Str) → x ∷ xs ≡ y ∷ ys → x ≡ y
    cons_head x y xs ys h = cc

instance unfoldable pub str_eq : Eq Str
unfolding Str-discrete
str_eq = record { dec = Str-discrete }

-- `u8::to_ascii_lowercase`
unfoldable pub to_ascii_lowercase : ℕ → ℕ
to_ascii_lowercase c = if leb b'A' c && leb c b'Z' then c + 32 else c

-- `str::eq_ignore_ascii_case`
unfoldable pub eq_ignore_ascii_case : Str → Str → Bool
unfolding to_ascii_lowercase
eq_ignore_ascii_case s t = map to_ascii_lowercase s == map to_ascii_lowercase t

pub eq_ignore_ascii_case_refl : (s : Str) → eq_ignore_ascii_case s s ≡ true
unfolding eq_ignore_ascii_case
eq_ignore_ascii_case_refl s = ground arith

pub eq_ignore_ascii_case_sym :
    (s t : Str) → eq_ignore_ascii_case s t ≡ true → eq_ignore_ascii_case t s ≡ true
unfolding eq_ignore_ascii_case
eq_ignore_ascii_case_sym s t h = ground arith

pub eq_ignore_ascii_case_trans :
    (s t u : Str)
    → eq_ignore_ascii_case s t ≡ true
    → eq_ignore_ascii_case t u ≡ true
    → eq_ignore_ascii_case s u ≡ true
unfolding eq_ignore_ascii_case
eq_ignore_ascii_case_trans s t u h k = ground arith

-- The order of strings, by which a `BTreeMap` sorts its keys.
unfoldable pub str_compare : Str → Str → Ordering
str_compare [] [] = Ordering.eq
str_compare [] (y ∷ ys) = Ordering.lt
str_compare (x ∷ xs) [] = Ordering.gt
str_compare (x ∷ xs) (y ∷ ys) =
    let rest = str_compare xs ys in
    elim (compare x y) [
      | Ordering.lt ↦ Ordering.lt
      | Ordering.eq ↦ rest
      | Ordering.gt ↦ Ordering.gt
    ]

pub str_compare-eq : (s t : Str) → str_compare s t ≡ Ordering.eq → s ≡ t
unfolding str_compare
str_compare-eq [] [] h = refl
str_compare-eq [] (y ∷ ys) h = cc
str_compare-eq (x ∷ xs) [] h = cc
str_compare-eq (x ∷ xs) (y ∷ ys) h = ground (arith, str_compare-eq xs ys)

pub str_compare_refl : (s : Str) → str_compare s s ≡ Ordering.eq
unfolding str_compare
str_compare_refl [] = refl
str_compare_refl (x ∷ xs) = ground (arith, str_compare_refl xs)

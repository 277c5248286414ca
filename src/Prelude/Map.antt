-- ===== src/Prelude/Map.antt =====
-- `BTreeMap<String, V>`: an association list in the order of its keys.
use Prim.Native.Nat.{Ordering}
use mathlib.Core.Path.{◌≡◌, refl}
use mathlib.Core.Bool.{Bool, true, false}
use mathlib.Core.Option.{Option, none, some}
use mathlib.Core.List.{List, [], ◌∷◌, map}
use native.Mathlib.Omega.{arith}
use gitvote.Prelude.Tests.{if◌then◌else◌}
use gitvote.Prelude.Equality.{◌==◌}
use gitvote.Prelude.Text.{Str, str_eq, str_compare, str_compare-eq, str_compare_refl}

abbrev pub Map {ℓ} : Type ℓ → Type ℓ
Map V = List (Str × V)

module _ {ℓ} {V : Type ℓ} where
  abbrev pub keys : Map V → List Str
  keys = map (λ e. e.0)

  unfoldable pub lookup : Str → Map V → Option V
  lookup k [] = none
  lookup k ((j, v) ∷ m) = if k == j then some v else lookup k m

  unfoldable pub contains_key : Str → Map V → Bool
  contains_key k [] = false
  contains_key k ((j, v) ∷ m) = if k == j then true else contains_key k m

  unfoldable pub insert : Str → V → Map V → Map V
  insert k v [] = (k, v) ∷ []
  insert k v ((j, w) ∷ m) =
      let rest = insert k v m in
      elim (str_compare k j) [
        | Ordering.lt ↦ (k, v) ∷ (j, w) ∷ m
        | Ordering.eq ↦ (k, v) ∷ m
        | Ordering.gt ↦ (j, w) ∷ rest
      ]

  unfoldable pub remove : Str → Map V → Map V
  remove k [] = []
  remove k ((j, w) ∷ m) = let rest = remove k m in if k == j then rest else (j, w) ∷ rest

  pub contains_key-lookup :
      (k : Str) (m : Map V)
      → contains_key k m ≡ (elim (lookup k m) [ none ↦ false | some v ↦ true ])
  unfolding contains_key lookup
  contains_key-lookup k [] = refl
  contains_key-lookup k ((j, v) ∷ m) = ground (arith, contains_key-lookup k m)

  pub lookup-insert :
      (k j : Str) (v : V) (m : Map V)
      → lookup j (insert k v m) ≡ (if j == k then some v else lookup j m)
  unfolding lookup insert
  lookup-insert k j v [] = refl
  lookup-insert k j v ((i, w) ∷ m) =
      ground (arith, str_compare-eq k i, str_compare_refl k, lookup-insert k j v m)

  pub lookup-remove :
      (k j : Str) (m : Map V) → lookup j (remove k m) ≡ (if j == k then none else lookup j m)
  unfolding lookup remove
  lookup-remove k j [] = ground arith
  lookup-remove k j ((i, w) ∷ m) = ground (arith, lookup-remove k j m)

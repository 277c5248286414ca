-- ===== src/Results/Turnout.antt =====
-- src/results.rs: the allowed voters who voted, and those who did not.
use gitvote.Prelude.{
  ℕ, ◌+◌, ◌≡◌, refl, sym, ap, ◌∙◌, Bool, true, false, not, List, [], ◌∷◌, Str, any, length, count,
  length-select, eq_ignore_ascii_case, eq_ignore_ascii_case_sym, eq_ignore_ascii_case_trans, arith,
  to_ℕ, All,
}
use gitvote.Prelude.Map.{Map, keys}
use gitvote.Float.{Float}
use gitvote.Results.{UserVote, Vote}
use gitvote.Results.Tally.{is_binding, pending}
use gitvote.Results.Calculate.{values, summarise}
use gitvote.Results.Counts.{binding-summarise}

-- No two names are the same user.
abbrev pub Distinct : List Str → Type 0
Distinct [] = Unit
Distinct (x ∷ xs) = (any (λ y. eq_ignore_ascii_case y x) xs ≡ false) × Distinct xs

abbrev total : (Str → ℕ) → List Str → ℕ
total f [] = 0
total f (x ∷ xs) = f x + total f xs

eq_ignore_ascii_case_comm : (s t : Str) → eq_ignore_ascii_case s t ≡ eq_ignore_ascii_case t s
eq_ignore_ascii_case_comm s t =
    ground (arith, eq_ignore_ascii_case_sym s t, eq_ignore_ascii_case_sym t s)

count_absent :
    (a x : Str) (xs : List Str)
    → eq_ignore_ascii_case x a ≡ true
    → any (λ y. eq_ignore_ascii_case y x) xs ≡ false
    → count (λ y. eq_ignore_ascii_case y a) xs ≡ 0
count_absent a x [] h k = refl
count_absent a x (y ∷ ys) h k =
    ground
      (arith, eq_ignore_ascii_case_sym x a, eq_ignore_ascii_case_trans y a x, count_absent a x ys h)

-- Among distinct names a user stands at most once.
pub count-Distinct :
    (a : Str) (xs : List Str)
    → Distinct xs
    → to_ℕ (any (λ y. eq_ignore_ascii_case y a) xs) ≡ count (λ y. eq_ignore_ascii_case y a) xs
count-Distinct a [] d = refl
count-Distinct a (x ∷ xs) d = ground (arith, count_absent a x xs, count-Distinct a xs d.1)

total-any :
    (users xs : List Str)
    → Distinct xs
    → total (λ a. to_ℕ (any (λ y. eq_ignore_ascii_case y a) xs)) users
      ≡ total (λ a. count (λ y. eq_ignore_ascii_case y a) xs) users
total-any [] xs d = refl
total-any (a ∷ users) xs d = omega (arith, count-Distinct a xs d, total-any users xs d)

total_zero : (xs : List Str) → total (λ _. 0) xs ≡ 0
total_zero [] = refl
total_zero (x ∷ xs) = omega (arith, total_zero xs)

total_add :
    (a : Str) (f : Str → ℕ) (xs : List Str)
    → count (λ y. eq_ignore_ascii_case y a) xs + total f xs
      ≡ total (λ y. to_ℕ (eq_ignore_ascii_case a y) + f y) xs
total_add a f [] = refl
total_add a f (x ∷ xs) = omega (arith, ap to_ℕ (eq_ignore_ascii_case_comm x a), total_add a f xs)

-- Counting the pairs of the same user in two lists, by either list.
total_swap :
    (users xs : List Str)
    → total (λ a. count (λ y. eq_ignore_ascii_case y a) xs) users
      ≡ total (λ y. count (λ a. eq_ignore_ascii_case a y) users) xs
total_swap [] xs = sym (total_zero xs)
total_swap (a ∷ users) xs =
    ap (◌+◌ (count (λ y. eq_ignore_ascii_case y a) xs)) (total_swap users xs)
    ∙ total_add a (λ y. count (λ a. eq_ignore_ascii_case a y) users) xs

total_matched :
    (users xs : List Str)
    → Distinct users
    → Distinct xs
    → total (λ a. to_ℕ (any (λ y. eq_ignore_ascii_case y a) xs)) users
      ≡ total (λ y. to_ℕ (any (λ a. eq_ignore_ascii_case a y) users)) xs
total_matched users xs d e = total-any users xs e ∙ total_swap users xs ∙ sym (total-any xs users d)

count-not :
    (p : Str → Bool) (xs : List Str)
    → count (λ x. not (p x)) xs + total (λ x. to_ℕ (p x)) xs ≡ length xs
count-not p [] = refl
count-not p (x ∷ xs) = ground (arith, count-not p xs)

-- Each vote is marked binding exactly if an allowed voter cast it.
abbrev pub IsMarked : List Str → Map UserVote → Type 0
IsMarked allowed = All (λ e. e.1.binding ≡ is_binding allowed e.0)

count_binding-total :
    (allowed : List Str) (votes : Map UserVote)
    → IsMarked allowed votes
    → count (λ v. v.binding) (values votes) ≡ total (λ y. to_ℕ (is_binding allowed y)) (keys votes)
count_binding-total allowed [] m = refl
count_binding-total allowed (e ∷ votes) m =
    omega (arith, ap to_ℕ m.0, count_binding-total allowed votes m.1)

module _ {F : Type 0} ⦃num : Float F⦄ (vote : Vote F) (allowed : List Str)
    (votes : Map UserVote) where
  pub turnout :
      Distinct allowed
      → Distinct (keys votes)
      → IsMarked allowed votes
      → let r = summarise vote allowed votes in r.binding + r.not_voted ≡ r.allowed_voters
  unfolding summarise pending
  turnout d e m = omega (
    arith,
    binding-summarise vote allowed votes,
    count_binding-total allowed votes m,
    total_matched allowed (keys votes) d e,
    count-not (λ user. any (λ voter. eq_ignore_ascii_case voter user) (keys votes)) allowed,
    length-select (λ user. not (any (λ voter. eq_ignore_ascii_case voter user) (keys votes)))
        allowed,
  )

-- ===== src/Tmpl/Filter.antt =====
-- src/tmpl.rs: the filter on non-binding votes.
use gitvote.Float.{leb_trans}
use gitvote.Prelude.{
  ap, sym, ◌++◌, ◌⊎◌, subst, ◌⊎◌, inr, inl, Bool-cases, ◌≡◌, refl, ◌≤◌, ℕ, zero, suc, true, false,
  not, [], ◌∷◌, Str, select, take, length, leb, arith, All,
}
use mathlib.Core.List.{Perm}
use mathlib.Core.List.Perm
use gitvote.Prelude.Map.{Map}
use gitvote.Results.{UserVote}
use gitvote.Tmpl.Build.{insert_by_timestamp, sort_by_timestamp, non_binding}

-- The votes are in the order of their times, the oldest first.
abbrev pub IsSorted : Map UserVote → Type 0
IsSorted [] = Unit
IsSorted (e ∷ m) = All (λ d. leb e.1.timestamp d.1.timestamp ≡ true) m × IsSorted m

All-insert :
    (P : Str × UserVote → Type 0) (e : Str × UserVote) (m : Map UserVote)
    → P e
    → All P m
    → All P (insert_by_timestamp e m)
unfolding insert_by_timestamp
All-insert P e [] p a = (p, tt)
All-insert P e (d ∷ m) p a = elim (Bool-cases (leb e.1.timestamp d.1.timestamp)) [
  | inl h ↦ rw h (p, a)
  | inr h ↦ rw h (a.0, All-insert P e m p a.1)
]

All-weaken :
    (P Q : Str × UserVote → Type 0) (m : Map UserVote)
    → ((e : Str × UserVote) → P e → Q e)
    → All P m
    → All Q m
All-weaken P Q [] k a = tt
All-weaken P Q (e ∷ m) k a = (k e a.0, All-weaken P Q m k a.1)

insert-IsSorted :
    (e : Str × UserVote) (m : Map UserVote) → IsSorted m → IsSorted (insert_by_timestamp e m)
unfolding insert_by_timestamp
insert-IsSorted e [] s = (tt, tt)
insert-IsSorted e (d ∷ m) s = elim (Bool-cases (leb e.1.timestamp d.1.timestamp)) [
  | inl h ↦ rw h (
    (
      h,
      All-weaken (λ c. leb d.1.timestamp c.1.timestamp ≡ true)
          (λ c. leb e.1.timestamp c.1.timestamp ≡ true) m
          (λ c k. leb_trans e.1.timestamp d.1.timestamp c.1.timestamp h k) s.0,
    ),
    s,
  )
  | inr h ↦ rw h (
    All-insert (λ c. leb d.1.timestamp c.1.timestamp ≡ true) e m (ground arith) s.0,
    insert-IsSorted e m s.1,
  )
]

sort-IsSorted : (m : Map UserVote) → IsSorted (sort_by_timestamp m)
unfolding sort_by_timestamp
sort-IsSorted [] = tt
sort-IsSorted (e ∷ m) = insert-IsSorted e (sort_by_timestamp m) (sort-IsSorted m)

All-sort : (P : Str × UserVote → Type 0) (m : Map UserVote) → All P m → All P (sort_by_timestamp m)
unfolding sort_by_timestamp
All-sort P [] a = tt
All-sort P (e ∷ m) a = All-insert P e (sort_by_timestamp m) a.0 (All-sort P m a.1)

All-take : (P : Str × UserVote → Type 0) (n : ℕ) (m : Map UserVote) → All P m → All P (take n m)
All-take P zero m a = tt
All-take P (suc n) [] a = tt
All-take P (suc n) (e ∷ m) a = (a.0, All-take P n m a.1)

unfoldable drop : ℕ → Map UserVote → Map UserVote
drop zero m = m
drop (suc n) [] = []
drop (suc n) (e ∷ m) = drop n m

length-take-le : (n : ℕ) (m : Map UserVote) → length (take n m) ≤ n
length-take-le zero m = omega arith
length-take-le (suc n) [] = omega arith
length-take-le (suc n) (e ∷ m) = omega (arith, length-take-le n m)

select-not-binding :
    (m : Map UserVote) → All (λ e. e.1.binding ≡ false) (select (λ e. not e.1.binding) m)
select-not-binding [] = tt
select-not-binding (e ∷ m) = elim (Bool-cases e.1.binding) [
  | inl h ↦ rw h (select-not-binding m)
  | inr h ↦ rw h (refl, select-not-binding m)
]

take-drop : (n : ℕ) (m : Map UserVote) → take n m ++ drop n m ≡ m
unfolding drop
take-drop zero m = refl
take-drop (suc n) [] = refl
take-drop (suc n) (e ∷ m) = ap (◌∷◌ e) (take-drop n m)

take_all : (n : ℕ) (m : Map UserVote) → (length (take n m) ≡ n) ⊎ (drop n m ≡ [])
unfolding drop
take_all zero m = inl refl
take_all (suc n) [] = inr refl
take_all (suc n) (e ∷ m) = elim (take_all n m) [ inl h ↦ inl (omega (arith, h)) | inr h ↦ inr h ]

insert-perm : (e : Str × UserVote) (m : Map UserVote) → Perm (insert_by_timestamp e m) (e ∷ m)
unfolding insert_by_timestamp
insert-perm e [] = Perm.rfl
insert-perm e (d ∷ m) = elim (Bool-cases (leb e.1.timestamp d.1.timestamp)) [
  | inl h ↦ rw h Perm.rfl
  | inr h ↦ rw h (Perm.trans (Perm.cons d (insert-perm e m)) (Perm.swap e d m))
]

sort-perm : (m : Map UserVote) → Perm (sort_by_timestamp m) m
unfolding sort_by_timestamp
sort-perm [] = Perm.rfl
sort-perm (e ∷ m) = Perm.trans (insert-perm e (sort_by_timestamp m)) (Perm.cons e (sort-perm m))

-- The votes found and those left out are all the votes that are not binding, and in this order none
-- is before an older one; there are `max` found, or none is left out.
pub record IsOldest (max : ℕ) (votes found : Map UserVote) : Type 0 where
  pub left_out : Map UserVote
  pub all : Perm (found ++ left_out) (select (λ e. not e.1.binding) votes)
  pub sorted : IsSorted (found ++ left_out)
  pub full : (length found ≡ max) ⊎ (left_out ≡ [])
  pub bounded : length found ≤ max
  pub not_binding : All (λ e. e.1.binding ≡ false) found

-- The filter gives the oldest of the votes that are not binding, in the order of their times: as many
-- as asked for, or all of them if there are no more.
pub non_binding-IsOldest :
    (max : ℕ) (votes : Map UserVote) → IsOldest max votes (non_binding max votes)
unfolding non_binding
non_binding-IsOldest max votes =
    let found = select (λ e. not e.1.binding) votes in
    let sorted = sort_by_timestamp found in
    record {
      left_out = drop max sorted;
      all = subst (λ l. Perm l found) (sym (take-drop max sorted)) (sort-perm found);
      sorted = subst IsSorted (sym (take-drop max sorted)) (sort-IsSorted found);
      full = take_all max sorted;
      bounded = length-take-le max sorted;
      not_binding = All-take _ max sorted (All-sort _ found (select-not-binding votes));
    }

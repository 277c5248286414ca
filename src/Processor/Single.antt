-- ===== src/Processor/Single.antt =====
-- src/processor.rs: the number of open votes of an issue around `create_vote`.
use gitvote.Prelude.{
  ℕ, ◌+◌, ◌≤◌, ◌≡◌, sym, subst, inl, inr, Bool-cases, Bool, true, List, [], ◌∷◌, ◌++◌, Str, ℤ,
  arith, count,
}
use gitvote.World.Steps.{Table}
use gitvote.World.{Row, World, Env, after}
use gitvote.Float.{Float}
use gitvote.Cmd.{CreateVoteInput}
use gitvote.CfgRepo.{CfgProfile}
use gitvote.Db.Update.{new_row}
use gitvote.Processor.{create_vote}
use gitvote.Processor.Create.{IsFree, Opens, unchanged, opened, create_vote-Opens}
use gitvote.Db.{open_of, is_of_issue}

pub count-append :
    {A : Type 0} (p : A → Bool) (xs ys : List A) → count p (xs ++ ys) ≡ count p xs + count p ys
count-append p [] ys = omega arith
count-append p (x ∷ xs) ys = omega (arith, count-append p xs ys)

module _ {F : Type 0} where
  -- Each issue has at most one open vote.
  abbrev pub Single : Table F → Type 0
  Single t = (name : Str) (n : ℤ) → count (open_of name n) t ≤ 1

  is_of_issue-eq :
      (name : Str) (n : ℤ) (row : Row F)
      → is_of_issue name n row ≡ true
      → (row.repository_full_name ≡ name) × (row.issue_number ≡ n)
  unfolding is_of_issue
  is_of_issue-eq name n row h = (ground arith, ground arith)

  one_more :
      (t : Table F) (row : Row F)
      → Single t
      → count (open_of row.repository_full_name row.issue_number) t ≡ 0
      → Single (t ++ row ∷ [])
  one_more t row single free name n = elim (Bool-cases (is_of_issue name n row)) [
    | inl h ↦
        let e = is_of_issue-eq name n row h in
        let none_open =
          subst (λ m. count (open_of m n) t ≡ 0) e.0
            (subst (λ k. count (open_of row.repository_full_name k) t ≡ 0) e.1 free) in
        ground (arith, count-append (open_of name n) t (row ∷ []))
    | inr h ↦ ground (arith, single name n, count-append (open_of name n) t (row ∷ []))
  ]

  new_row_free :
      (i : CreateVoteInput) (t : Table F) (vote_id now : ℕ) (comment : ℤ) (cfg : CfgProfile F)
      → IsFree i t
      → let row = new_row vote_id now comment i cfg in
        count (open_of row.repository_full_name row.issue_number) t ≡ 0
  unfolding new_row
  new_row_free i t vote_id now comment cfg free = free

  Single-Opens : (i : CreateVoteInput) (t u : Table F) → Opens i t u → Single t → Single u
  Single-Opens i t u (unchanged e) single = subst Single (sym e) single
  Single-Opens i t u (opened vote_id now comment cfg free own e) single = subst Single (sym e) (
      one_more t (new_row vote_id now comment i cfg) single
        (new_row_free i t vote_id now comment cfg free))

  -- `create_vote` keeps it so that each issue has at most one open vote, however it ends.
  pub create_vote-Single :
      ⦃num : Float F⦄ (env : Env F) (i : CreateVoteInput) (w : World F)
      → Single w.table
      → Single (after (create_vote env i w)).table
  create_vote-Single env i w = Single-Opens i w.table _ (create_vote-Opens i env w)

-- ===== src/Processor/Limit.antt =====
-- src/processor.rs: the limit on how often a vote is checked.
use gitvote.Github.Api.Quiet.{Quiet-split_full_name}
use gitvote.Processor.Quiet.{Quiet-refuse}
use gitvote.Db.Effects.{Quiet-statement}
use gitvote.Results.{Vote}
use gitvote.Cmd.{CheckVoteInput}
use gitvote.Float.{Float}
use gitvote.Prelude.{
  ◌+◌, ◌<◌, ◌<◌, Option-cases, ◌≡◌, refl, subst, ap, sym, Bool, true, false, inl, inr, Option, none,
  some, List, [], ◌∷◌, Str, ℕ, as_u64, Memᴰ, arith, select,
}
use gitvote.World.{Trace, Query, unit, World, Env, Row, repo_of, ◌>>=◌, pure, after}
use gitvote.World.Steps.{Table, Post, Steps, Steps->>=, Steps-quiet, Steps-after}
use gitvote.Db.{results_of, get_open_vote, open_of, from_row, query_opt, optional_vote, rows}
use gitvote.Db.Closing.{select-Memᴰ}
use gitvote.Processor.{check_vote, check_open_vote, check_unless_recent, checked_recently, clock}

module _ {F : Type 0} ⦃num : Float F⦄ (env : Env F) (i : CheckVoteInput) (t : Table F) where
  -- Whatever the clock shows, the open votes of the issue were checked less than a day, in
  -- nanoseconds, before.
  abbrev pub IsChecked : Type 0
  IsChecked =
      (row : Row F)
      → Memᴰ row t
      → open_of i.repository_full_name i.issue_number row ≡ true
      → (trace : Trace)
      → (at : ℕ) × (row.checked_at ≡ some at) × (env.now trace < at + 86400000000000)

  recently_checked :
      (now at : ℕ) (checked_at : Option ℕ)
      → checked_at ≡ some at
      → now < at + 86400000000000
      → checked_recently env now checked_at ≡ true
  recently_checked now at none e h = absurd (ground arith)
  recently_checked now at (some at') e h = ground arith

  abbrev Recent : Vote F → Type 0
  Recent vote = (trace : Trace) → checked_recently env (env.now trace) vote.checked_at ≡ true

  abbrev RecentVote : Option (Vote F) → Table F → Type 0
  RecentVote none u = u ≡ t
  RecentVote (some vote) u = (u ≡ t) × Recent vote

  module _ (h : IsChecked) where
    read_recent :
        (row : Row F)
        → Memᴰ row t
        → open_of i.repository_full_name i.issue_number row ≡ true
        → Steps (λ u. u ≡ t) (from_row row) (λ vote. RecentVote (some vote)) (λ u. u ≡ t)
    unfolding from_row
    read_recent row m o = elim (Option-cases (results_of row.results)) [
      | inl e ↦ rw (e, from_row) (record { run = λ w p. p })
      | inr (results, e) ↦
          rw (e, from_row)
            (record {
              run = λ w p. (
                p,
                λ trace.
                    let (at, checked, young) = h row m o trace in
                    recently_checked (env.now trace) at row.checked_at checked young,
              );
            })
    ]

    found_recent :
        (found : List (Row F))
        → found ≡ select (open_of i.repository_full_name i.issue_number) t
        → Steps {F = F} {A = Option (Vote F)}
            (λ u. u ≡ t)
            (query_opt found >>= (λ row. optional_vote row))
            RecentVote
            (λ u. u ≡ t)
    found_recent [] e = record { run = λ w p. p }
    found_recent (row ∷ row' ∷ rest) e = record { run = λ w p. p }
    found_recent (row ∷ []) e =
        let k =
          select-Memᴰ (open_of i.repository_full_name i.issue_number) t row
            (subst (Memᴰ row) e (Memᴰ.head refl)) in
        Steps->>= {A = Option (Row F)} (λ o u. (u ≡ t) × (o ≡ some row)) (query_opt (row ∷ []))
          (λ o. optional_vote o) (record { run = λ w p. (p, refl) })
          λ o. record {
            run = λ w (p, s).
                subst (λ o. Post RecentVote (λ u. u ≡ t) (optional_vote o w)) (sym s)
                  ((Steps->>= {A = Vote F} (λ vote. RecentVote (some vote)) (from_row row)
                      (λ vote. pure (some vote)) (read_recent row k.0 k.1)
                      λ vote. record { run = λ v q. q }).run
                    w p);
          }

    get_open_vote-Recent :
        Steps
          (λ u. u ≡ t)
          (get_open_vote env i.repository_full_name i.issue_number)
          RecentVote
          (λ u. u ≡ t)
    unfolding get_open_vote
    get_open_vote-Recent =
        Steps->>= (λ _ u. u ≡ t) _ _
          (Steps-quiet _ (λ u p. p) (Quiet-statement env Query.get_open_vote))
          λ done.
            Steps->>= {A = List (Row F)}
              (λ found u.
                (u ≡ t) × (found ≡ select (open_of i.repository_full_name i.issue_number) t))
              (rows env (open_of i.repository_full_name i.issue_number)) _
              (record {
                run = λ w e. (e, ap (select (open_of i.repository_full_name i.issue_number)) e);
              })
              λ found. record { run = λ w (p, e). (found_recent found e).run w p }

    refused_check :
        (names : Str × Str) (vote : Vote F) (b : Bool)
        → b ≡ true
        → Steps (λ u. u ≡ t) (check_unless_recent env names vote b) (λ _ u. u ≡ t) (λ u. u ≡ t)
    unfolding check_unless_recent
    refused_check names vote false e = absurd (ground arith)
    refused_check names vote true e =
        Steps-quiet _ (λ u p. p)
          (Quiet-refuse env (repo_of (as_u64 vote.installation_id) names) vote.issue_number _)

    check-Recent :
        (vote : Vote F)
        → Recent vote
        → Steps (λ u. u ≡ t) (check_open_vote env vote) (λ _ u. u ≡ t) (λ u. u ≡ t)
    unfolding check_open_vote
    check-Recent vote k =
        Steps->>= (λ _ u. u ≡ t) _ _
          (Steps-quiet _ (λ u p. p) (Quiet-split_full_name vote.repository_full_name))
          λ names.
            Steps->>= {A = ℕ} (λ now u. (u ≡ t) × (checked_recently env now vote.checked_at ≡ true))
              (clock env) _ (record { run = λ w p. (p, k w.trace) })
              λ now. record {
                run = λ w (p, e).
                    (refused_check names vote (checked_recently env now vote.checked_at) e).run w p;
              }

    found_cases :
        (o : Option (Vote F))
        → Steps
            (RecentVote o)
            (elim o [ none ↦ unit | some vote ↦ check_open_vote env vote ])
            (λ _ u. u ≡ t)
            (λ u. u ≡ t)
    found_cases none = record { run = λ w p. p }
    found_cases (some vote) = record { run = λ w (p, k). (check-Recent vote k).run w p }

    check_vote-Steps : Steps (λ u. u ≡ t) (check_vote env i) (λ _ u. u ≡ t) (λ u. u ≡ t)
    unfolding check_vote
    check_vote-Steps = Steps->>= RecentVote _ _ get_open_vote-Recent found_cases

-- If the open votes of an issue were checked less than a day (86,400 seconds) before any time that
-- the clock shows, `check_vote` changes nothing in the table: the time of the last check does not move.
pub check_vote-limit :
    {F : Type 0} ⦃num : Float F⦄ (env : Env F) (i : CheckVoteInput) (w : World F)
    → IsChecked env i w.table
    → (after (check_vote env i w)).table ≡ w.table
check_vote-limit env i w h = Steps-after _ (check_vote-Steps env i w.table h) w refl

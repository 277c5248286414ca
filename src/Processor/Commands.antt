-- ===== src/Processor/Commands.antt =====
-- src/processor.rs: what the commands to cancel and to check a vote may do to the table.
use gitvote.Db.Edits.{
  Reads-OpenId, Anything, untouched, update_vote_last_check-Edits, get_open_vote-Reads, Reads,
  Edits, OptionReads, Edits-Keeps,
}
use gitvote.Github.Api.Quiet.{
  Quiet-remove_label, Quiet-user_is_collaborator, Quiet-create_check_run, Quiet-calculate,
  Quiet-split_full_name,
}
use gitvote.Results.{Vote}
use gitvote.Cmd.{CheckVoteInput, CancelVoteInput}
use gitvote.Float.{Float}
use gitvote.Prelude.{ℕ, ◌≡◌, refl, Bool, true, false, Option, none, some, Str, as_u64}
use gitvote.World.{unit, World, Env, Repo, repo_of, after}
use gitvote.World.Quiet.{Same-refl, Quiet, Quiet->>=, Quiet-pure}
use gitvote.World.Steps.{Table, Steps, Steps->>=, Steps-quiet, Steps-after, Steps-weaken}
use gitvote.Db.Changes.{Cancels, kept, cancel_vote-Cancels, Keeps, without_check}
use gitvote.Processor.{
  checked_recently, clock, cancel_outcome, cancel_if_collaborator, cancel_vote, check_unless_recent,
  check_open_vote, check_vote,
}
use gitvote.Processor.Quiet.{Quiet-refuse, Quiet-post, Quiet-when, Quiet-ignore}

module _ {F : Type 0} (env : Env F) (i : CancelVoteInput) where
  abbrev CancelsOf : Table F → Table F → Type 0
  CancelsOf = Cancels env i.repository_full_name i.issue_number

  pub Quiet-cancel_outcome :
      (r : Repo) (cancelled_vote_id : Option ℕ) → Quiet (cancel_outcome env r i cancelled_vote_id)
  unfolding cancel_outcome
  Quiet-cancel_outcome r none = Quiet-refuse env r i.issue_number _
  Quiet-cancel_outcome r (some vote_id) = Quiet->>= _ _ (Quiet-post env r i.issue_number _) λ id.
      Quiet->>= _ _
        (Quiet-when env i.is_pull_request _ (Quiet-create_check_run env r i.issue_number _))
        λ done. Quiet-ignore _ (Quiet-remove_label env r i.issue_number _)

  cancel_if_collaborator-Cancels :
      (t : Table F) (r : Repo) (b : Bool)
      → Steps (λ u. u ≡ t) (cancel_if_collaborator env r i b) (λ _. CancelsOf t) (CancelsOf t)
  unfolding cancel_if_collaborator
  cancel_if_collaborator-Cancels t r false =
      Steps-weaken _ (λ u p. p) (λ a u p. kept p) (Steps-quiet _ (λ u p. kept p) (Quiet-pure tt))
  cancel_if_collaborator-Cancels t r true =
      Steps->>= (λ _. CancelsOf t) _ _
        (cancel_vote-Cancels env i.repository_full_name i.issue_number t)
        λ id. Steps-quiet _ (λ u p. p) (Quiet-cancel_outcome r id)

  cancel_vote-Steps :
      (t : Table F) → Steps (λ u. u ≡ t) (cancel_vote env i) (λ _. CancelsOf t) (CancelsOf t)
  unfolding cancel_vote
  cancel_vote-Steps t =
      Steps->>= (λ _ u. u ≡ t) _ _
        (Steps-quiet _ (λ u p. kept p) (Quiet-split_full_name i.repository_full_name))
        λ names.
          let r = repo_of (as_u64 i.installation_id) names in
          Steps->>= (λ _ u. u ≡ t) _ _
            (Steps-quiet _ (λ u p. kept p) (Quiet-user_is_collaborator env r i.cancelled_by))
            (cancel_if_collaborator-Cancels t r)

  -- `cancel_vote` changes nothing in the table, or it removes the open votes of the issue of the
  -- command and no other row, however it ends.
  pub cancel_vote-table :
      (w : World F)
      → Cancels env i.repository_full_name i.issue_number w.table
          (after (cancel_vote env i w)).table
  cancel_vote-table w = Steps-after _ (cancel_vote-Steps w.table) w refl

module _ {F : Type 0} ⦃num : Float F⦄ (env : Env F) where
  check_unless_recent-Edits :
      (t : Table F) (names : Str × Str) (vote : Vote F) (b : Bool)
      → Reads t vote
      → Steps
          (Edits without_check Anything t)
          (check_unless_recent env names vote b)
          (λ _. Edits without_check Anything t)
          (Edits without_check Anything t)
  unfolding check_unless_recent
  check_unless_recent-Edits t names vote true m =
      Steps-quiet _ (λ u p. p)
        (Quiet-refuse env (repo_of (as_u64 vote.installation_id) names) vote.issue_number _)
  check_unless_recent-Edits t names vote false m =
      Steps->>= (λ _. Edits without_check Anything t) _ _
        (Steps-quiet _ (λ u p. p) (Quiet-calculate env names vote))
        λ results.
          Steps->>= (λ _. Edits without_check Anything t) _ _
            (Steps-quiet _ (λ u p. p)
              (Quiet-post env (repo_of (as_u64 vote.installation_id) names) vote.issue_number _))
            λ id.
              update_vote_last_check-Edits env t vote.vote_id Anything tt (Reads-OpenId t vote m)

  Quiet-clock : Quiet (clock env)
  Quiet-clock = record { same = λ w. Same-refl w }

  check_open_vote-Edits :
      (t : Table F) (vote : Vote F)
      → Reads t vote
      → Steps
          (Edits without_check Anything t)
          (check_open_vote env vote)
          (λ _. Edits without_check Anything t)
          (Edits without_check Anything t)
  unfolding check_open_vote
  check_open_vote-Edits t vote m =
      Steps->>= (λ _. Edits without_check Anything t) _ _
        (Steps-quiet _ (λ u p. p) (Quiet-split_full_name vote.repository_full_name))
        λ names.
          Steps->>= (λ _. Edits without_check Anything t) _ _ (Steps-quiet _ (λ u p. p) Quiet-clock)
            λ now.
              check_unless_recent-Edits t names vote (checked_recently env now vote.checked_at) m

  check_found-Edits :
      (t : Table F) (o : Option (Vote F))
      → Steps
          (λ u. (u ≡ t) × OptionReads t o)
          (elim o [ none ↦ unit | some vote ↦ check_open_vote env vote ])
          (λ _. Edits without_check Anything t)
          (Edits without_check Anything t)
  check_found-Edits t none = record { run = λ w (p, m). untouched p }
  check_found-Edits t (some vote) = record {
    run = λ w (p, m). (check_open_vote-Edits t vote m).run w (untouched p);
  }

  check_vote-Steps :
      (t : Table F) (i : CheckVoteInput)
      → Steps
          (λ u. u ≡ t)
          (check_vote env i)
          (λ _. Edits without_check Anything t)
          (Edits without_check Anything t)
  unfolding check_vote
  check_vote-Steps t i =
      Steps->>= (λ o u. (u ≡ t) × OptionReads t o) _ _
        (get_open_vote-Reads env t (λ u e. untouched e) i.repository_full_name i.issue_number)
        (check_found-Edits t)

  -- `check_vote` only updates a vote that is open.
  pub check_vote-Edits :
      (i : CheckVoteInput) (w : World F)
      → Edits without_check Anything w.table (after (check_vote env i w)).table
  check_vote-Edits i w = Steps-after _ (check_vote-Steps w.table i) w refl

  -- `check_vote` changes nothing of any row but the time of the last check.
  pub check_vote-Keeps :
      (i : CheckVoteInput) (w : World F)
      → Keeps without_check w.table (after (check_vote env i w)).table
  check_vote-Keeps i w = Edits-Keeps without_check w.table _ (check_vote-Edits i w)

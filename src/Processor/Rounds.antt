-- ===== src/Processor/Rounds.antt =====
-- src/processor.rs: what a round of each worker may do to the table.
use gitvote.Github.Splits.{split_full_name-Steps}
use gitvote.Github.Names.{split_full_name}
use gitvote.Results.Calculate.{calculate}
use gitvote.Db.Edits.{
  Reads-OpenId, Edits-Anything, get_open_votes_with_close_on_passing-Reads,
  update_vote_ends_at-Edits, untouched, Reads, Edits, Edits-Keeps,
}
use gitvote.Results.Tally.{passes_with_all_allowed_voters}
use gitvote.Db.Effects.{Quiet-get_pending_status_checks}
use gitvote.CfgRepo.{DiscussionsAnnouncements}
use gitvote.Github.{err, ok, Result}
use gitvote.Processor.{when}
use gitvote.Github.Api.Quiet.{
  Quiet-add_labels, Quiet-create_discussion, Quiet-remove_label, Quiet-create_check_run,
  Quiet-calculate, Quiet-split_full_name,
}
use gitvote.Cmd.{CheckVoteInput}
use gitvote.Float.{Float}
use gitvote.Results.{VoteResults, Vote}
use gitvote.Prelude.{
  sym, subst, ℕ, Str, All, ◌≡◌, refl, Bool, true, false, Option, none, some, as_u64, List, [], ◌∷◌,
}
use gitvote.World.{
  pure, ignore, World, Env, Repo, repo_of, M, after, attempt, caught, Run, done, fail, panic,
}
use gitvote.World.Quiet.{Same, Quiet-lift, Quiet-attempt, Quiet, Quiet->>=, Quiet-pure}
use gitvote.World.Steps.{
  then_do-Post, after_post, Table, Post, Steps, Steps->>=, Steps-quiet, Steps-after,
}
use gitvote.Db.Closing.{closing_time, Closes, close_finished_vote-Closes}
use gitvote.Db.Changes.{Keeps, without_end}
use gitvote.Db.Update
use gitvote.Cmd
use gitvote.Processor.Workers.{
  enqueue, status_checker_round, status_check_frequency, enqueue_found, report, closer_pause,
  enqueue_checks, auto_close_frequency, announce, publish, report_closed, close_finished_vote,
  votes_closer_round, auto_close, auto_close_all, auto_closer_round, end_if_passing,
  auto_close_found,
}
use gitvote.Processor.Quiet.{Quiet-post, Quiet-when, Quiet-ignore}

pub attempt-Post :
    {F A : Type 0} (R : Table F → Type 0) (r : Run F A)
    → Post (λ _. R) R r
    → Post (λ _. R) R (caught r)
attempt-Post R (done a w) p = p
attempt-Post R (fail e w) p = p
attempt-Post R (panic w) p = p

module _ {F A : Type 0} {P R : Table F → Type 0} where
  pub Steps-attempt : (m : M F A) → Steps P m (λ _. R) R → Steps P (attempt m) (λ _. R) R
  Steps-attempt m s = record { run = λ w p. attempt-Post R (m w) (s.run w p) }

module _ {F : Type 0} (env : Env F) (r : Repo) (vote : Vote F) where
  Quiet-announce :
      (results : VoteResults F) (d : Option DiscussionsAnnouncements)
      → Quiet (announce env r vote results d)
  unfolding announce
  Quiet-announce results none = Quiet-pure tt
  Quiet-announce results (some d) =
      Quiet->>= _ _ (Quiet-lift _)
        λ body. Quiet-ignore _ (Quiet-create_discussion env r d.category _ body)

  Quiet-publish : (results : Option (VoteResults F)) → Quiet (publish env r vote results)
  unfolding publish
  Quiet-publish none = Quiet-pure tt
  Quiet-publish (some results) =
      Quiet->>= _ _ (Quiet-post env r vote.issue_number _) λ id. Quiet-announce results _

  Quiet-report_closed :
      (results : Option (VoteResults F)) → Quiet (report_closed env r vote results)
  unfolding report_closed
  Quiet-report_closed results = Quiet->>= _ _ (Quiet-publish results) λ published.
      Quiet->>= _ _
        (Quiet-when env vote.is_pull_request _ (Quiet-create_check_run env r vote.issue_number _))
        λ checked.
          Quiet->>= _ _ (Quiet-ignore _ (Quiet-remove_label env r vote.issue_number _))
            λ removed. Quiet-add_labels env r vote.issue_number _

module _ {F : Type 0} ⦃num : Float F⦄ (env : Env F) where
  pub Quiet-report : (o : Option (Vote F × Option (VoteResults F))) → Quiet (report env o)
  unfolding report
  Quiet-report none = Quiet-pure none
  Quiet-report (some (vote, results)) =
      Quiet->>= _ _ (Quiet-split_full_name vote.repository_full_name) λ names.
        Quiet->>= _ _
          (Quiet-report_closed env (repo_of (as_u64 vote.installation_id) names) vote results)
          λ reported. Quiet-pure (some tt)

  close_finished_vote-Post :
      (w : World F)
      → let C = Closes env (closing_time env w) w.table in
        Post (λ _. C) C (close_finished_vote env w)
  unfolding close_finished_vote
  close_finished_vote-Post w =
      then_do-Post (λ _. Closes env (closing_time env w) w.table) _ _ _
        (λ found. Steps-quiet _ (λ u p. p) (Quiet-report found)) _
        (close_finished_vote-Closes env w)

  -- A round of the votes closer closes one open vote whose end lies before the time that the database
  -- has when it is asked for a finished vote, and sets that time as the time of closing; these are the
  -- rows with its id. Or it changes nothing in the table, however its calls of GitHub end.
  pub votes_closer_round-Closes :
      (w : World F)
      → Closes env (closing_time env w) w.table (after (votes_closer_round env w)).table
  unfolding votes_closer_round
  votes_closer_round-Closes w =
      let C = Closes env (closing_time env w) w.table in
      after_post {A = ℕ} C _ (
        then_do-Post (λ _. C) (λ _. C) C (λ closed. pure (closer_pause env closed))
          (λ closed. Steps-quiet _ (λ u p. p) (Quiet-pure (closer_pause env closed)))
          (attempt (close_finished_vote env) w) (attempt-Post C _ (close_finished_vote-Post w)))

  -- The vote that reading an open row of the table with the id gives. Its results, as `calculate` gave
  -- them in the repository that the vote names, reach the threshold over all the allowed voters.
  pub record IsPassing (t : Table F) (vote_id : ℕ) : Type 0 where
    pub vote : Vote F
    pub names : Str × Str
    pub before : World F
    pub results : VoteResults F
    pub behind : World F
    pub id : vote.vote_id ≡ vote_id
    pub reads : Reads t vote
    pub split : (w : World F) → split_full_name vote.repository_full_name w ≡ done names w
    pub calculated : calculate env names vote before ≡ done results behind
    pub passes : passes_with_all_allowed_voters results ≡ true

  module _ (t : Table F) where
    abbrev Kept : {A : Type 0} → A → Table F → Type 0
    Kept a = Edits without_end (IsPassing t) t

    end_if-Edits :
        (vote : Vote F) (b : Bool)
        → Reads t vote
        → (b ≡ true → IsPassing t vote.vote_id)
        → Steps
            (Edits without_end (IsPassing t) t)
            (when env b (ignore (Update.update_vote_ends_at env vote.vote_id)))
            Kept
            (Edits without_end (IsPassing t) t)
    end_if-Edits vote true m k =
        Steps->>= Kept _ _
          (Steps-attempt _ (
            update_vote_ends_at-Edits env t vote.vote_id (IsPassing t) (k refl)
              (Reads-OpenId t vote m)))
          λ ended. Steps-quiet _ (λ u p. p) (Quiet-pure tt)
    end_if-Edits vote false m k = Steps-quiet _ (λ u p. p) (Quiet-pure tt)

    -- The results are those of `calculate`.
    abbrev IsCalculated : Vote F → Result (VoteResults F) → Type 0
    IsCalculated vote (ok results) =
        (names : Str × Str) × ((w : World F)
          → split_full_name vote.repository_full_name w ≡ done names w)
        × (before behind : World F) × (calculate env names vote before ≡ done results behind)
    IsCalculated vote (err e) = Unit

    end_if_passing-Edits :
        (vote : Vote F) (results : Result (VoteResults F))
        → Reads t vote
        → Steps
            (λ u. Edits without_end (IsPassing t) t u × IsCalculated vote results)
            (end_if_passing env vote results)
            Kept
            (Edits without_end (IsPassing t) t)
    end_if_passing-Edits vote (ok results) m = record {
      run = λ w (p, (names, s, before, behind, c)).
          (end_if-Edits vote (passes_with_all_allowed_voters results) m λ h. record {
            vote = vote;
            names = names;
            before = before;
            results = results;
            behind = behind;
            id = refl;
            reads = m;
            split = s;
            calculated = c;
            passes = h;
          }).run
            w p;
    }
    end_if_passing-Edits vote (err e) m = record { run = λ w (p, c). p }

    caught-IsCalculated :
        (names : Str × Str) (vote : Vote F) (w : World F) (r : Run F (VoteResults F))
        → ((v : World F) → split_full_name vote.repository_full_name v ≡ done names v)
        → calculate env names vote w ≡ r
        → Same w (after r)
        → Edits without_end (IsPassing t) t w.table
        → Post
            (λ results u. Edits without_end (IsPassing t) t u × IsCalculated vote results)
            (Edits without_end (IsPassing t) t)
            (caught r)
    caught-IsCalculated names vote w (done results v) k h s p =
        (subst (Edits without_end (IsPassing t) t) (sym s.table) p, (names, k, w, v, h))
    caught-IsCalculated names vote w (fail e v) k h s p =
        (subst (Edits without_end (IsPassing t) t) (sym s.table) p, tt)
    caught-IsCalculated names vote w (panic v) k h s p =
        subst (Edits without_end (IsPassing t) t) (sym s.table) p

    auto_close-Edits :
        (vote : Vote F)
        → Reads t vote
        → Steps
            (Edits without_end (IsPassing t) t)
            (auto_close env vote)
            Kept
            (Edits without_end (IsPassing t) t)
    unfolding auto_close
    auto_close-Edits vote m =
        Steps->>=
          (λ names u.
            Edits without_end (IsPassing t) t u
            × ((w : World F) → split_full_name vote.repository_full_name w ≡ done names w))
          _ _ (split_full_name-Steps (λ u p. p) vote.repository_full_name)
          λ names.
            Steps->>= (λ results u. Edits without_end (IsPassing t) t u × IsCalculated vote results)
              _ _
              (record {
                run = λ w (p, k).
                    caught-IsCalculated names vote w _ k refl
                      ((Quiet-calculate env names vote).same w) p;
              })
              λ results. end_if_passing-Edits vote results m

    auto_close_all-Edits :
        (votes : List (Vote F))
        → All (Reads t) votes
        → Steps
            (Edits without_end (IsPassing t) t)
            (auto_close_all env votes)
            Kept
            (Edits without_end (IsPassing t) t)
    unfolding auto_close_all
    auto_close_all-Edits [] m = Steps-quiet _ (λ u p. p) (Quiet-pure tt)
    auto_close_all-Edits (vote ∷ votes) (m, ms) =
        Steps->>= Kept _ _ (auto_close-Edits vote m) λ done. auto_close_all-Edits votes ms

    abbrev FoundReads : Result (List (Vote F)) → Type 0
    FoundReads (ok votes) = All (Reads t) votes
    FoundReads (err e) = Unit

    auto_close_found-Edits :
        (votes : Result (List (Vote F)))
        → Steps
            (λ u. Edits without_end (IsPassing t) t u × FoundReads votes)
            (auto_close_found env votes)
            Kept
            (Edits without_end (IsPassing t) t)
    auto_close_found-Edits (ok votes) = record {
      run = λ w (p, m). (auto_close_all-Edits votes m).run w p;
    }
    auto_close_found-Edits (err e) = record { run = λ w (p, m). p }

    caught-Found :
        (r : Run F (List (Vote F)))
        → Post (λ votes u. (u ≡ t) × All (Reads t) votes) (λ u. u ≡ t) r
        → Post
            (λ votes u. Edits without_end (IsPassing t) t u × FoundReads votes)
            (Edits without_end (IsPassing t) t)
            (caught r)
    caught-Found (done votes w) (p, m) = (untouched p, m)
    caught-Found (fail e w) p = (untouched p, tt)
    caught-Found (panic w) p = untouched p

    auto_closer_round-Steps :
        Steps (λ u. u ≡ t) (auto_closer_round env) Kept (Edits without_end (IsPassing t) t)
    unfolding auto_closer_round
    auto_closer_round-Steps =
        Steps->>= (λ votes u. Edits without_end (IsPassing t) t u × FoundReads votes) _ _
          (record {
            run = λ w p.
                caught-Found _
                  ((get_open_votes_with_close_on_passing-Reads env t (λ u e. e)).run w p);
          })
          λ votes.
            Steps->>= Kept _ _ (auto_close_found-Edits votes)
              λ done. Steps-quiet _ (λ u p. p) (Quiet-pure auto_close_frequency)

  -- A round of the auto closer sets the end only of votes whose rows are open and whose results reach
  -- the threshold over all the allowed voters: the results that `calculate` gives, in the repository
  -- that the row names, for the vote that is read from the row, with its own configuration.
  pub auto_closer_round-Edits :
      (w : World F)
      → Edits without_end (IsPassing w.table) w.table (after (auto_closer_round env w)).table
  auto_closer_round-Edits w = Steps-after _ (auto_closer_round-Steps w.table) w refl

  -- A round of the auto closer changes nothing of any row but the end of the vote.
  pub auto_closer_round-Keeps :
      (w : World F) → Keeps without_end w.table (after (auto_closer_round env w)).table
  auto_closer_round-Keeps w =
      Edits-Keeps without_end w.table _
        (Edits-Anything without_end (IsPassing w.table) w.table _ (auto_closer_round-Edits w))

module _ {F : Type 0} (env : Env F) (t : Table F) where
  abbrev SameTable : {A : Type 0} → A → Table F → Type 0
  SameTable a u = u ≡ t

  enqueue_checks-Steps :
      (inputs : List CheckVoteInput)
      → Steps (λ u. u ≡ t) (enqueue_checks env inputs) SameTable (λ u. u ≡ t)
  unfolding enqueue_checks
  enqueue_checks-Steps [] = Steps-quiet _ (λ u p. p) (Quiet-pure tt)
  enqueue_checks-Steps (input ∷ inputs) =
      Steps->>= SameTable (enqueue env (Cmd.check_vote input)) _ (record { run = λ w p. p })
        λ done. enqueue_checks-Steps inputs

  enqueue_found-Steps :
      (inputs : Result (List CheckVoteInput))
      → Steps (λ u. u ≡ t) (enqueue_found env inputs) SameTable (λ u. u ≡ t)
  enqueue_found-Steps (ok inputs) = enqueue_checks-Steps inputs
  enqueue_found-Steps (err e) = Steps-quiet _ (λ u p. p) (Quiet-pure tt)

  status_checker_round-Steps : Steps (λ u. u ≡ t) (status_checker_round env) SameTable (λ u. u ≡ t)
  unfolding status_checker_round
  status_checker_round-Steps =
      Steps->>= SameTable _ _
        (Steps-quiet _ (λ u p. p) (Quiet-attempt _ (Quiet-get_pending_status_checks env)))
        λ inputs.
          Steps->>= SameTable _ _ (enqueue_found-Steps inputs)
            λ done. Steps-quiet _ (λ u p. p) (Quiet-pure status_check_frequency)

-- A round of the status checker changes nothing in the table.
pub table-status_checker_round :
    {F : Type 0} (env : Env F) (w : World F) → (after (status_checker_round env w)).table ≡ w.table
table-status_checker_round env w = Steps-after _ (status_checker_round-Steps env w.table) w refl

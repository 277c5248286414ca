-- ===== src/Processor/Workers.antt =====
-- src/processor.rs: the workers. A round of a loop is a run; what the loop waits for is its result.
use Prim.Native.String.{String}
use gitvote.Prelude.{
  ℕ, Option, none, some, List, [], ◌∷◌, ◌++◌, Str, str, ℤ, show_ℤ, show_ℕ, as_u64, ◌*◌,
  if◌then◌else◌,
}
use gitvote.CfgRepo.{Announcements, DiscussionsAnnouncements}
use gitvote.Cmd.{Command, CheckVoteInput}
use gitvote.Cmd
use gitvote.Db
use gitvote.Db.{second, hour, day}
use gitvote.Db.Update
use gitvote.Float.{Float}
use gitvote.Github.{CheckDetails, Result, ok, err}
use gitvote.Github.Api.{add_labels, create_check_run, create_discussion, remove_label}
use gitvote.Github.Names.{split_full_name}
use gitvote.Processor.{
  vote_open_label, vote_closed_label, vote_passed_label, vote_failed_label, post, create_vote,
  cancel_vote, check_vote, when,
}
use gitvote.Results.{Vote, VoteResults}
use gitvote.Results.Calculate.{calculate}
use gitvote.Results.Tally.{passes_with_all_allowed_voters}
use gitvote.Tmpl
use gitvote.World.{Env, Repo, repo_of, M, ◌>>=◌, ◌>>◌, pure, unit, ignore, attempt, lift, done}

abbrev pub votes_closer_pause_on_none : ℕ
votes_closer_pause_on_none = 15 * second

abbrev pub votes_closer_pause_on_error : ℕ
votes_closer_pause_on_error = 30 * second

abbrev pub status_check_frequency : ℕ
status_check_frequency = 30 * 60 * second

abbrev pub auto_close_frequency : ℕ
auto_close_frequency = day

unfoldable pub build_announcement_title : ℤ → Str → Str
unfolding show_ℤ
build_announcement_title issue_number issue_title =
    issue_title ++ (str " #" ++ (show_ℤ issue_number ++ str " (vote closed)"))

abbrev tally_summary : {F : Type 0} → String → VoteResults F → Str
tally_summary verdict results =
    str verdict
    ++ (show_ℕ results.in_favor
        ++ (str " out of " ++ (show_ℕ results.allowed_voters ++ str " voted in favor.")))

-- The conclusion of the check, and its summary.
unfoldable pub conclusion : {F : Type 0} → Option (VoteResults F) → Str × Str
conclusion none = (str "success", str "The vote was cancelled")
conclusion (some results) =
    if results.passed
    then (str "success", tally_summary "The vote passed! " results)
    else (str "failure", tally_summary "The vote did not pass. " results)

unfoldable pub closed_details : {F : Type 0} → Option (VoteResults F) → CheckDetails
closed_details results = record {
  status = str "completed";
  conclusion = some (conclusion results).0;
  summary = (conclusion results).1;
}

unfoldable pub closed_labels : {F : Type 0} → Option (VoteResults F) → List Str
closed_labels none = vote_closed_label ∷ []
closed_labels (some results) =
    vote_closed_label ∷ (if results.passed then vote_passed_label else vote_failed_label) ∷ []

abbrev discussions : Option Announcements → Option DiscussionsAnnouncements
discussions none = none
discussions (some a) = a.discussions

abbrev title_or_default : Option Str → Str
title_or_default none = []
title_or_default (some title) = title

module _ {F : Type 0} (env : Env F) where
  -- A discussion that cannot be created is only a warning.
  unfoldable pub announce :
      Repo → Vote F → VoteResults F → Option DiscussionsAnnouncements → M F (Unit {0})
  announce r vote results none = unit
  announce r vote results (some d) = do
    let title = title_or_default vote.issue_title
    body ← lift (env.render (Tmpl.vote_closed_announcement vote.issue_number title results))
    ignore
        (create_discussion env r d.category (build_announcement_title vote.issue_number title) body)

  unfoldable pub publish : Repo → Vote F → Option (VoteResults F) → M F (Unit {0})
  publish r vote none = unit
  publish r vote (some results) = do
    id ← post env r vote.issue_number (Tmpl.vote_closed results)
    announce r vote results (discussions vote.cfg.announcements)

  unfoldable pub report_closed : Repo → Vote F → Option (VoteResults F) → M F (Unit {0})
  report_closed r vote results = do
    publish r vote results
    when env vote.is_pull_request
        (create_check_run env r vote.issue_number (closed_details results))
    ignore (remove_label env r vote.issue_number vote_open_label)
    add_labels env r vote.issue_number (closed_labels results)

  -- `StatusChecker`: the commands are sent to the queue.
  abbrev pub enqueue : Command → M F (Unit {0})
  enqueue cmd w = done tt (record w { queue = w.queue ++ cmd ∷ [] })

  unfoldable pub enqueue_checks : List CheckVoteInput → M F (Unit {0})
  enqueue_checks [] = unit
  enqueue_checks (input ∷ inputs) = do enqueue (Cmd.check_vote input); enqueue_checks inputs

  abbrev pub enqueue_found : Result (List CheckVoteInput) → M F (Unit {0})
  enqueue_found (ok inputs) = enqueue_checks inputs
  enqueue_found (err e) = unit

  unfoldable pub status_checker_round : M F ℕ
  status_checker_round = do
    inputs ← attempt (Db.get_pending_status_checks env)
    enqueue_found inputs
    pure status_check_frequency

  module _ ⦃num : Float F⦄ where
    unfoldable pub report : Option (Vote F × Option (VoteResults F)) → M F (Option (Unit {0}))
    report none = pure none
    report (some (vote, results)) = do
      names ← split_full_name vote.repository_full_name
      report_closed (repo_of (as_u64 vote.installation_id) names) vote results
      pure (some tt)

    unfoldable pub close_finished_vote : M F (Option (Unit {0}))
    close_finished_vote = do closed ← Update.close_finished_vote env; report closed

    -- How long the votes closer pauses; it does not after a vote was closed.
    abbrev pub closer_pause : Result (Option (Unit {0})) → ℕ
    closer_pause (ok (some u)) = 0
    closer_pause (ok none) = votes_closer_pause_on_none
    closer_pause (err e) = votes_closer_pause_on_error

    unfoldable pub votes_closer_round : M F ℕ
    votes_closer_round = do closed ← attempt close_finished_vote; pure (closer_pause closed)

    -- `VotesAutoCloser`: errors are logged, and the loop goes on.
    abbrev pub end_if_passing : Vote F → Result (VoteResults F) → M F (Unit {0})
    end_if_passing vote (ok results) =
        when env (passes_with_all_allowed_voters results)
          (ignore (Update.update_vote_ends_at env vote.vote_id))
    end_if_passing vote (err e) = unit

    unfoldable pub auto_close : Vote F → M F (Unit {0})
    auto_close vote = do
      names ← split_full_name vote.repository_full_name
      results ← attempt (calculate env names vote)
      end_if_passing vote results

    unfoldable pub auto_close_all : List (Vote F) → M F (Unit {0})
    auto_close_all [] = unit
    auto_close_all (vote ∷ votes) = do auto_close vote; auto_close_all votes

    abbrev pub auto_close_found : Result (List (Vote F)) → M F (Unit {0})
    auto_close_found (ok votes) = auto_close_all votes
    auto_close_found (err e) = unit

    unfoldable pub auto_closer_round : M F ℕ
    auto_closer_round = do
      votes ← attempt (Db.get_open_votes_with_close_on_passing env)
      auto_close_found votes
      pure auto_close_frequency

    -- `CommandsHandler`: the error of a command is dropped.
    abbrev pub execute : Command → M F (Unit {0})
    execute (Cmd.create_vote input) = create_vote env input
    execute (Cmd.cancel_vote input) = cancel_vote env input
    execute (Cmd.check_vote input) = check_vote env input

    unfoldable pub handle : Command → M F (Unit {0})
    handle cmd = ignore (execute cmd)

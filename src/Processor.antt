-- ===== src/Processor.antt =====
-- src/processor.rs: the commands' handlers. Each returns what its `async fn` returns.
pub mod Workers
pub mod Quiet
pub mod Create
pub mod Single
pub mod Commands
pub mod Rounds
pub mod Strangers
pub mod Limit
pub mod Race
pub mod Double
pub mod Progress
pub mod Drains
pub mod Queue
pub mod Tasks
pub mod Shutdown
pub mod Opened
use gitvote.Prelude.{
  ℕ, ◌⊎◌, inl, inr, Bool, true, false, not, ◌&&◌, Option, none, some, List, [], ◌∷◌, ◌++◌, Str, str,
  ℤ, as_u64, ltb, ◌+◌, if◌then◌else◌,
}
use gitvote.CfgRepo.{CfgError, CfgProfile, config_not_found, invalid_config, profile_not_found}
use gitvote.CfgRepo.Load.{profile_get}
use gitvote.Cmd.{CreateVoteInput, CancelVoteInput, CheckVoteInput}
use gitvote.Cmd.FromEvent.{is_some}
use gitvote.Db
use gitvote.Db.{day}
use gitvote.Db.Update
use gitvote.Float.{Float}
use gitvote.Github.{CheckDetails, Error}
use gitvote.Github.Api.{
  add_labels, create_check_run, post_comment, remove_label, user_is_collaborator,
}
use gitvote.Github.Names.{split_full_name}
use gitvote.Results.{Vote, VoteResults}
use gitvote.Results.Calculate.{calculate}
use gitvote.Tmpl.{Template}
use gitvote.Tmpl
use gitvote.Tmpl.Build.{new_vote_created}
use gitvote.World.{World, Env, Repo, repo_of, M, ◌>>=◌, ◌>>◌, pure, unit, ignore, lift, done}

abbrev pub max_vote_check_frequency : ℕ
max_vote_check_frequency = day

abbrev pub gitvote_label : Str
gitvote_label = str "gitvote"

abbrev pub vote_open_label : Str
vote_open_label = str "gitvote/open"

abbrev pub vote_closed_label : Str
vote_closed_label = str "gitvote/closed"

abbrev pub vote_passed_label : Str
vote_passed_label = str "gitvote/passed"

abbrev pub vote_failed_label : Str
vote_failed_label = str "gitvote/failed"

abbrev pub vote_open_details : CheckDetails
vote_open_details = record {
  status = str "in_progress";
  conclusion = none;
  summary = str "Vote open";
}

abbrev pub vote_cancelled_details : CheckDetails
vote_cancelled_details = record {
  status = str "completed";
  conclusion = some (str "success");
  summary = str "Vote cancelled";
}

abbrev pub error_template : {F : Type 0} → CfgError → Template F
error_template config_not_found = Tmpl.config_not_found
error_template profile_not_found = Tmpl.config_profile_not_found
error_template (invalid_config reason) = Tmpl.invalid_config reason

module _ {F : Type 0} (env : Env F) where
  -- Renders a template and posts it.
  unfoldable pub post : Repo → ℤ → Template F → M F ℤ
  post r issue_number template = do
    body ← lift (env.render template)
    post_comment env r issue_number body

  abbrev pub when : Bool → M F (Unit {0}) → M F (Unit {0})
  when true m = m
  when false m = unit

  unfoldable pub open_labels : Repo → ℤ → M F (Unit {0})
  open_labels r issue_number = do
    ignore (remove_label env r issue_number vote_closed_label)
    ignore (remove_label env r issue_number vote_passed_label)
    ignore (remove_label env r issue_number vote_failed_label)
    add_labels env r issue_number (gitvote_label ∷ vote_open_label ∷ [])

  -- The vote is posted and stored, and then announced by a check and labels.
  unfoldable pub open_vote : Repo → CreateVoteInput → CfgProfile F → M F (Unit {0})
  open_vote r i cfg = do
    vote_comment_id ← post r i.issue_number (Tmpl.vote_created (new_vote_created i cfg))
    vote_id ← Update.store_vote env vote_comment_id i cfg
    when i.is_pull_request (create_check_run env r i.issue_number vote_open_details)
    open_labels r i.issue_number

  abbrev pub refuse : Repo → ℤ → Template F → M F (Unit {0})
  refuse r issue_number template = do id ← post r issue_number template; unit

  -- Only one vote is open at a time in an issue.
  unfoldable pub create_if_free : Repo → CreateVoteInput → CfgProfile F → Bool → M F (Unit {0})
  create_if_free r i cfg true =
      refuse r i.issue_number (Tmpl.vote_in_progress i.created_by i.is_pull_request)
  create_if_free r i cfg false = open_vote r i cfg

  -- Only collaborators create votes.
  unfoldable pub create_if_collaborator :
      Repo → CreateVoteInput → CfgProfile F → Bool → M F (Unit {0})
  create_if_collaborator r i cfg false = refuse r i.issue_number (Tmpl.vote_restricted i.created_by)
  create_if_collaborator r i cfg true = do
    in_progress ← Db.has_vote_open env i.repository_full_name i.issue_number
    create_if_free r i cfg in_progress

  unfoldable pub create_vote_as : Repo → CreateVoteInput → CfgProfile F → M F (Unit {0})
  create_vote_as r i cfg = do
    collaborator ← user_is_collaborator env r i.created_by
    create_if_collaborator r i cfg collaborator

  unfoldable pub cancel_outcome : Repo → CancelVoteInput → Option ℕ → M F (Unit {0})
  cancel_outcome r i none =
      refuse r i.issue_number (Tmpl.no_vote_in_progress i.cancelled_by i.is_pull_request)
  cancel_outcome r i (some vote_id) = do
    id ← post r i.issue_number (Tmpl.vote_cancelled i.cancelled_by i.is_pull_request)
    when i.is_pull_request (create_check_run env r i.issue_number vote_cancelled_details)
    ignore (remove_label env r i.issue_number vote_open_label)

  -- Only collaborators cancel votes.
  unfoldable pub cancel_if_collaborator : Repo → CancelVoteInput → Bool → M F (Unit {0})
  cancel_if_collaborator r i false = unit
  cancel_if_collaborator r i true = do
    cancelled_vote_id ← Db.cancel_vote env i.repository_full_name i.issue_number
    cancel_outcome r i cancelled_vote_id

  unfoldable pub cancel_vote : CancelVoteInput → M F (Unit {0})
  cancel_vote i = do
    names ← split_full_name i.repository_full_name
    let r = repo_of (as_u64 i.installation_id) names
    collaborator ← user_is_collaborator env r i.cancelled_by
    cancel_if_collaborator r i collaborator

  abbrev pub clock : M F ℕ
  clock w = done (env.now w.trace) w

  -- `now - checked_at < MAX_VOTE_CHECK_FREQUENCY`, where `now` may lie before `checked_at`.
  abbrev pub checked_recently : ℕ → Option ℕ → Bool
  checked_recently now none = false
  checked_recently now (some checked_at) = ltb now (checked_at + max_vote_check_frequency)

  module _ ⦃num : Float F⦄ where
    unfoldable pub create_vote : CreateVoteInput → M F (Unit {0})
    create_vote i = do
      names ← split_full_name i.repository_full_name
      let r = repo_of (as_u64 i.installation_id) names
      cfg ← profile_get env r (is_some i.organization) i.profile_name
      elim cfg [
        | inl e ↦ refuse r i.issue_number (error_template e)
        | inr cfg ↦ create_vote_as r i cfg
      ]

    unfoldable pub check_unless_recent : Str × Str → Vote F → Bool → M F (Unit {0})
    check_unless_recent names vote true =
        refuse (repo_of (as_u64 vote.installation_id) names) vote.issue_number
          Tmpl.vote_checked_recently
    check_unless_recent names vote false = do
      results ← calculate env names vote
      id ←
          post (repo_of (as_u64 vote.installation_id) names) vote.issue_number
            (Tmpl.vote_status results)
      Update.update_vote_last_check env vote.vote_id

    unfoldable pub check_open_vote : Vote F → M F (Unit {0})
    check_open_vote vote = do
      names ← split_full_name vote.repository_full_name
      now ← clock
      check_unless_recent names vote (checked_recently now vote.checked_at)

    unfoldable pub check_vote : CheckVoteInput → M F (Unit {0})
    check_vote i = do
      vote ← Db.get_open_vote env i.repository_full_name i.issue_number
      elim vote [ none ↦ unit | some vote ↦ check_open_vote vote ]

-- ===== src/Cmd/FromEvent.antt =====
-- src/cmd.rs: commands from events, by hand or by automation.
use gitvote.Prelude.{
  ◌++◌, inl, inr, Bool, true, false, not, ◌||◌, Option, none, some, List, [], ◌∷◌, Str, str, str_eq,
  ◌==◌, is_empty, as_u64, if◌then◌else◌,
}
use mathlib.Core.Option
use gitvote.CfgRepo.{
  Automation, AutomationRule, CfgError, config_not_found, invalid_config, profile_not_found,
}
use gitvote.CfgRepo.Load.{cfg_get, matches}
use gitvote.Cmd.{
  CreateVoteInput, CancelVoteInput, CheckVoteInput, Command, create_vote, cancel_vote, check_vote,
}
use gitvote.Cmd.Parse.{captures, cmd_create_vote, cmd_cancel_vote, cmd_check_vote}
use gitvote.Github.{
  Event, issue, issue_comment, pull_request, PullRequestEvent, IssueEventAction,
  IssueCommentEventAction, PullRequestEventAction, Organization, other, Result, ok, err, File,
}
use gitvote.Github.Api.{get_pr_files}
use gitvote.Github.Names.{split_full_name}
use gitvote.World.{repo_of, Repo, Env, M, ◌>>=◌, pure, throw, attempt, lift}

abbrev pub is_some : {A : Type 0} → Option A → Bool
is_some none = false
is_some (some a) = true

abbrev org_login : Option Organization → Option Str
org_login = Option.map (λ o. o.login)

-- `CreateVoteInput::new`
unfoldable pub new_create_vote : Option Str → Event → CreateVoteInput
new_create_vote profile_name (issue e) = record {
  profile_name = profile_name;
  created_by = e.sender.login;
  installation_id = e.installation.id;
  issue_id = e.issue.id;
  issue_number = e.issue.number;
  issue_title = e.issue.title;
  is_pull_request = is_some e.issue.pull_request;
  repository_full_name = e.repository.full_name;
  organization = org_login e.organization;
}
new_create_vote profile_name (issue_comment e) = record {
  profile_name = profile_name;
  created_by = e.sender.login;
  installation_id = e.installation.id;
  issue_id = e.issue.id;
  issue_number = e.issue.number;
  issue_title = e.issue.title;
  is_pull_request = is_some e.issue.pull_request;
  repository_full_name = e.repository.full_name;
  organization = org_login e.organization;
}
new_create_vote profile_name (pull_request e) = record {
  profile_name = profile_name;
  created_by = e.sender.login;
  installation_id = e.installation.id;
  issue_id = e.pull_request.id;
  issue_number = e.pull_request.number;
  issue_title = e.pull_request.title;
  is_pull_request = true;
  repository_full_name = e.repository.full_name;
  organization = org_login e.organization;
}

-- `CancelVoteInput::new`
unfoldable pub new_cancel_vote : Event → CancelVoteInput
new_cancel_vote (issue e) = record {
  cancelled_by = e.sender.login;
  installation_id = e.installation.id;
  issue_number = e.issue.number;
  is_pull_request = is_some e.issue.pull_request;
  repository_full_name = e.repository.full_name;
}
new_cancel_vote (issue_comment e) = record {
  cancelled_by = e.sender.login;
  installation_id = e.installation.id;
  issue_number = e.issue.number;
  is_pull_request = is_some e.issue.pull_request;
  repository_full_name = e.repository.full_name;
}
new_cancel_vote (pull_request e) = record {
  cancelled_by = e.sender.login;
  installation_id = e.installation.id;
  issue_number = e.pull_request.number;
  is_pull_request = true;
  repository_full_name = e.repository.full_name;
}

-- `CheckVoteInput::new`
unfoldable pub new_check_vote : Event → CheckVoteInput
new_check_vote (issue e) = record {
  issue_number = e.issue.number;
  repository_full_name = e.repository.full_name;
}
new_check_vote (issue_comment e) = record {
  issue_number = e.issue.number;
  repository_full_name = e.repository.full_name;
}
new_check_vote (pull_request e) = record {
  issue_number = e.pull_request.number;
  repository_full_name = e.repository.full_name;
}

-- The text of an event that may hold a command.
abbrev issue_content : IssueEventAction → Option Str → Option Str
issue_content IssueEventAction.opened body = body
issue_content IssueEventAction.other body = none

abbrev comment_content : IssueCommentEventAction → Option Str → Option Str
comment_content IssueCommentEventAction.created body = body
comment_content IssueCommentEventAction.other body = none

abbrev pull_request_content : PullRequestEventAction → Option Str → Option Str
pull_request_content PullRequestEventAction.opened body = body
pull_request_content PullRequestEventAction.synchronize body = none
pull_request_content PullRequestEventAction.other body = none

unfoldable pub content : Event → Option Str
content (issue e) = issue_content e.action e.issue.body
content (issue_comment e) = comment_content e.action e.comment.body
content (pull_request e) = pull_request_content e.action e.pull_request.body

abbrev pub profile_name : Str → Option Str
profile_name [] = none
profile_name (c ∷ cs) = some (c ∷ cs)

unfoldable pub to_command : Event → Str → Str → Option Command
to_command event cmd profile =
    if cmd == cmd_create_vote
    then some (create_vote (new_create_vote (profile_name profile) event))
    else if cmd == cmd_cancel_vote
    then some (cancel_vote (new_cancel_vote event))
    else if cmd == cmd_check_vote
    then some (check_vote (new_check_vote event))
    else none

unfoldable pub from_event_manual : Event → Option Command
from_event_manual event = elim (content event) [
  | none ↦ none
  | some text ↦ elim (captures text) [
    | none ↦ none
    | some (cmd, profile) ↦ to_command event cmd profile
  ]
]

abbrev pub cfg_error_text : CfgError → Str
cfg_error_text config_not_found = str "config not found"
cfg_error_text (invalid_config reason) = str "invalid config: " ++ reason
cfg_error_text profile_not_found = str "profile not found"

module _ {F : Type 0} (env : Env F) where
  -- The first rule that matches; an error in a rule before it ends the search.
  unfoldable pub first_rule : List AutomationRule → List File → Result (Option AutomationRule)
  first_rule [] files = ok none
  first_rule (rule ∷ rules) files =
      let rest = first_rule rules files in
      elim (matches env rule files) [ err e ↦ err e | ok true ↦ ok (some rule) | ok false ↦ rest ]

  unfoldable pub automate : Repo → PullRequestEvent → Automation → M F (Option Command)
  automate r e automation =
      if not automation.enabled || is_empty automation.rules then pure none else do
        files ← get_pr_files env r e.pull_request.number
        found ← lift (first_rule automation.rules files)
        pure (
            Option.map (λ rule. create_vote (new_create_vote (some rule.profile) (pull_request e)))
              found)

  unfoldable pub automatic : PullRequestEvent → M F (Option Command)
  automatic e = do
    names ← split_full_name e.repository.full_name
    let r = repo_of (as_u64 e.installation.id) names
    cfg ← cfg_get env r
    elim cfg [
      | inl config_not_found ↦ pure none
      | inl e ↦ throw (other (cfg_error_text e))
      | inr cfg ↦ elim cfg.automation [
        | none ↦ pure none
        | some automation ↦ automate r e automation
      ]
    ]

  abbrev pub when_opened : PullRequestEventAction → PullRequestEvent → M F (Option Command)
  when_opened PullRequestEventAction.opened e = automatic e
  when_opened PullRequestEventAction.synchronize e = pure none
  when_opened PullRequestEventAction.other e = pure none

  unfoldable pub from_event_automatic : Event → M F (Option Command)
  from_event_automatic (issue e) = pure none
  from_event_automatic (issue_comment e) = pure none
  from_event_automatic (pull_request e) = when_opened e.action e

  abbrev pub or_none : Result (Option Command) → Option Command
  or_none (ok cmd) = cmd
  or_none (err e) = none

  -- Manual commands come first; an error in the automation counts as no command.
  unfoldable pub from_event : Event → M F (Option Command)
  from_event event = elim (from_event_manual event) [
    | some cmd ↦ pure (some cmd)
    | none ↦ do cmd ← attempt (from_event_automatic event); pure (or_none cmd)
  ]

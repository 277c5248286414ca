-- ===== src/Handlers.antt =====
-- src/handlers.rs: the handlers of the HTTP server.
pub mod Signature
pub mod Events
pub mod Pages
pub mod Own
pub mod Router
pub mod Routed
pub mod Enabled
use gitvote.Prelude.{
  not, ℕ, ◌⊎◌, inl, inr, Bool, true, false, Option, none, some, List, [], ◌∷◌, ◌++◌, Str, str,
  str_eq, ◌==◌, as_u64, if◌then◌else◌,
}
use gitvote.Cmd.{Command}
use gitvote.Cmd.FromEvent.{from_event, cfg_error_text}
use gitvote.Cmd.Parse.{strip_prefix}
use gitvote.CfgRepo.{Cfg, Audit, CfgError, config_not_found}
use gitvote.CfgRepo.Load.{cfg_get}
use gitvote.Db
use gitvote.Float.{Float}
use gitvote.Github.{
  Event, issue, issue_comment, pull_request, EventError, missing_header, unsupported_event,
  invalid_body, PullRequestEvent, PullRequestEventAction, CheckDetails, Error, other, Result, ok,
  err, is_not_found_error,
}
use gitvote.Github.Api.{get_repository_installation_id, is_check_required, create_check_run}
use gitvote.Github.Names.{split_full_name}
use gitvote.Processor.Workers.{enqueue}
use gitvote.Processor.{when}
use gitvote.Results.{Vote, VoteResults}
use gitvote.Results.Calculate.{calculate}
use gitvote.Tmpl
use gitvote.Tmpl.{Template}
use gitvote.Tmpl.Build.{new_audit}
use gitvote.World.{
  World, Env, Repo, repo_of, M, ◌>>=◌, ◌>>◌, pure, unit, throw, attempt, lift, done,
}

-- `Event::try_from`; the bodies are parsed by serde.
unfoldable pub try_from : {F : Type 0} → Env F → Option Str → Str → EventError ⊎ Event
unfolding str_eq
try_from env none body = inl missing_header
try_from env (some name) body =
    if name == str "issues"
    then elim (env.parse_issue_event body) [
      | inl e ↦ inl (invalid_body e)
      | inr event ↦ inr (issue event)
    ]
    else if name == str "issue_comment"
    then elim (env.parse_issue_comment_event body) [
      | inl e ↦ inl (invalid_body e)
      | inr event ↦ inr (issue_comment event)
    ]
    else if name == str "pull_request"
    then elim (env.parse_pull_request_event body) [
      | inl e ↦ inl (invalid_body e)
      | inr event ↦ inr (pull_request event)
    ]
    else inl unsupported_event

-- The bytes of a signature header `sha256=…`.
unfoldable pub signature_bytes : {F : Type 0} → Env F → Option Str → Option Str
signature_bytes env none = none
signature_bytes env (some header) = elim (strip_prefix (str "sha256=") header) [
  | none ↦ none
  | some digits ↦ env.hex_decode digits
]

-- `Mac::verify_slice`
unfoldable pub verifies : {F : Type 0} → Env F → Str → Str → Str → Bool
verifies env secret body signature = env.hmac_sha256 secret body == signature

unfoldable pub verify_fallback : {F : Type 0} → Env F → Option Str → Str → Str → Bool
verify_fallback env none body signature = false
verify_fallback env (some secret) body signature = verifies env secret body signature

-- `verify_signature`, true for `Ok`.
unfoldable pub verify_signature : {F : Type 0} → Env F → Option Str → Str → Option Str → Str → Bool
verify_signature env header secret secret_fallback body = elim (signature_bytes env header) [
  | none ↦ false
  | some signature ↦
      if verifies env secret body signature
      then true
      else verify_fallback env secret_fallback body signature
]

-- A response: its status and its body.
pub record Response : Type 0 where
  pub status : ℕ
  pub body : Str

abbrev pub respond : ℕ → Str → Response
respond status body = record { status = status; body = body }

abbrev pub not_found : Response
not_found = respond 404 []

abbrev pub internal_server_error : Response
internal_server_error = respond 500 []

abbrev pub bad_request : Str → Response
bad_request = respond 400

abbrev pub success_details : CheckDetails
success_details = record {
  status = str "completed";
  conclusion = some (str "success");
  summary = str "No vote found";
}

abbrev pub audit_enabled : Option Audit → Bool
audit_enabled none = false
audit_enabled (some audit) = audit.enabled

module _ {F : Type 0} (env : Env F) where
  abbrev pub create_if : Bool → Repo → PullRequestEvent → M F (Unit {0})
  create_if false r e = unit
  create_if true r e = create_check_run env r e.pull_request.number success_details

  unfoldable pub create_unless_voted : Repo → PullRequestEvent → Bool → M F (Unit {0})
  create_unless_voted r e false = unit
  create_unless_voted r e true = do
    voted ← Db.has_vote env e.repository.full_name e.pull_request.number
    create_if (not voted) r e

  unfoldable pub set_status : Repo → PullRequestEvent → PullRequestEventAction → M F (Unit {0})
  set_status r e PullRequestEventAction.opened = do
    required ← is_check_required env r e.pull_request.base.reference
    create_if required r e
  set_status r e PullRequestEventAction.synchronize = do
    required ← is_check_required env r e.pull_request.base.reference
    create_unless_voted r e required
  set_status r e PullRequestEventAction.other = unit

  unfoldable pub set_check_status : PullRequestEvent → M F (Unit {0})
  set_check_status e = do
    names ← split_full_name e.repository.full_name
    set_status (repo_of (as_u64 e.installation.id) names) e e.action

  abbrev status_response : Result (Unit {0}) → Response
  status_response (ok u) = respond 200 (str "no command detected")
  status_response (err e) = internal_server_error

  unfoldable pub without_command : Event → M F Response
  without_command (pull_request e) = do
    set ← attempt (set_check_status e)
    pure (status_response set)
  without_command (issue e) = pure (respond 200 (str "no command detected"))
  without_command (issue_comment e) = pure (respond 200 (str "no command detected"))

  unfoldable pub dispatch : Event → M F Response
  dispatch event = do
    cmd ← from_event env event
    elim cmd [
      | none ↦ without_command event
      | some cmd ↦ do enqueue env cmd; pure (respond 200 (str "command queued"))
    ]

  unfoldable pub respond_event : EventError ⊎ Event → M F Response
  respond_event (inl missing_header) = pure (bad_request (str "event header missing"))
  respond_event (inl (invalid_body e)) = pure (bad_request (str "invalid body: " ++ e))
  respond_event (inl unsupported_event) = pure (respond 200 (str "unsupported event"))
  respond_event (inr event) = dispatch event

  -- The handler of `/api/events`, with the two headers of the request.
  unfoldable pub event : Str → Option Str → Option Str → Option Str → Str → M F Response
  event webhook_secret webhook_secret_fallback signature event_name body =
      if verify_signature env signature webhook_secret webhook_secret_fallback body
      then respond_event (try_from env event_name body)
      else pure (bad_request (str "no valid signature found"))

  -- `RepoCfg::get` in `audit_is_enabled`
  abbrev pub audit_of : CfgError ⊎ Cfg F → M F Bool
  audit_of (inl config_not_found) = pure false
  audit_of (inl e) = throw (other (cfg_error_text e))
  audit_of (inr cfg) = pure (audit_enabled cfg.audit)

  unfoldable pub audit_of_installation : Str × Str → Result ℕ → M F Bool
  audit_of_installation names (ok inst_id) = do
    cfg ← cfg_get env (repo_of inst_id names)
    audit_of cfg
  audit_of_installation names (err e) = if is_not_found_error e then pure false else throw e

  -- The body of `audit_is_enabled`, which runs at a miss of its cache.
  unfoldable pub read_audit : Str → M F Bool
  read_audit repository_full_name = do
    names ← split_full_name repository_full_name
    inst_id ← attempt (get_repository_installation_id env names.0 names.1)
    audit_of_installation names inst_id

  abbrev pub unless_cached : Option Bool → M F Bool → M F Bool
  unless_cached (some enabled) body = pure enabled
  unless_cached none body = body

  -- The attribute `cached` keeps what the body returned, by the name of the repository, for 15 minutes.
  unfoldable pub audit_is_enabled : Str → M F Bool
  audit_is_enabled repository_full_name w =
      unless_cached (env.cached_audit w.trace repository_full_name)
        (read_audit repository_full_name) w

  abbrev pub html : Template F → Response
  html template = elim (env.render template) [
    | ok text ↦ respond 200 text
    | err e ↦ internal_server_error
  ]

  unfoldable pub index : M F Response
  index = pure (html Tmpl.index)

  -- A page that is only for repositories with the audit enabled.
  abbrev pub guarded : Result Bool → M F Response → M F Response
  guarded (err e) page = pure internal_server_error
  guarded (ok false) page = pure not_found
  guarded (ok true) page = page

  module _ ⦃num : Float F⦄ where
    abbrev audit_response : ℕ → Str → Result (List (Vote F)) → Response
    audit_response start name (err e) = internal_server_error
    audit_response start name (ok votes) = html (Tmpl.audit (new_audit env.year start name votes))

    unfoldable pub audit_page : ℕ → Str → M F Response
    audit_page start name = do
      votes ← attempt (Db.list_votes env name)
      pure (audit_response start name votes)

    -- The handler of `/audit/{owner}/{repo}`; participation is tracked from `start` on.
    unfoldable pub audit : ℕ → Str → Str → M F Response
    audit start owner repo = do
      let name = owner ++ (str "/" ++ repo)
      enabled ← attempt (audit_is_enabled name)
      guarded enabled (audit_page start name)

    abbrev details_response : Vote F → Result (VoteResults F) → Response
    details_response vote (err e) = internal_server_error
    details_response vote (ok results) = html (Tmpl.audit_vote_details results vote)

    unfoldable pub results_of_vote : Str × Str → Vote F → M F (VoteResults F)
    results_of_vote names vote = elim vote.results [
      | some results ↦ pure results
      | none ↦ calculate env names vote
    ]

    unfoldable pub show_vote : Str × Str → Vote F → M F Response
    show_vote names vote = do
      results ← attempt (results_of_vote names vote)
      pure (details_response vote results)

    unfoldable pub show_found : Str → Str × Str → Result (Option (Vote F)) → M F Response
    show_found name names (err e) = pure internal_server_error
    show_found name names (ok none) = pure not_found
    show_found name names (ok (some vote)) =
        if vote.repository_full_name == name then show_vote names vote else pure not_found

    unfoldable pub details_page : Str → Str × Str → ℕ → M F Response
    details_page name names vote_id = do
      found ← attempt (Db.get_vote env vote_id)
      show_found name names found

    -- The handler of `/audit/{owner}/{repo}/vote/{vote_id}`.
    unfoldable pub audit_vote_details : Str → Str → ℕ → M F Response
    audit_vote_details owner repo vote_id = do
      let name = owner ++ (str "/" ++ repo)
      enabled ← attempt (audit_is_enabled name)
      guarded enabled (details_page name (owner, repo) vote_id)

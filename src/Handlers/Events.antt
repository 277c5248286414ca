-- ===== src/Handlers/Events.antt =====
-- src/handlers.rs: what a request to `/api/events` does.
use gitvote.Processor.Workers.{enqueue}
use gitvote.Handlers.Signature.{verify_signature-true_iff, IsAuthentic}
use gitvote.CfgRepo.{Automation, Cfg, CfgError, config_not_found, invalid_config, profile_not_found}
use gitvote.Cmd.{Command}
use gitvote.Github.{
  missing_header, invalid_body, unsupported_event, EventError, other, pull_request, issue,
  issue_comment, Event, PullRequestEvent, PullRequestEventAction,
}
use gitvote.Github.Api.Quiet.{
  Quiet-get_pr_files, Quiet-cfg_get, Quiet-create_check_run, Quiet-split_full_name,
  Quiet-is_check_required,
}
use gitvote.Prelude.{
  ap, str, ◌≡◌, refl, Bool, true, false, not, Option, none, some, [], ◌∷◌, ◌++◌, Str, inl, inr, ◌⊎◌,
  Bool-cases, as_u64, ◌||◌, is_empty,
}
use gitvote.World.{
  ◌>>◌, World, Env, Repo, repo_of, M, Run, done, fail, panic, after, then_do, ◌>>=◌, pure, throw,
  attempt,
}
use gitvote.World.Quiet.{
  Same-refl, Same-trans, Same, Quiet, Quiet->>=, Quiet-pure, Quiet-attempt, Quiet-lift, Quiet-throw,
  Quiet-if,
}
use gitvote.Db.Effects.{Quiet-has_vote}
use gitvote.Cmd.FromEvent.{
  cfg_error_text, or_none, when_opened, automate, automatic, from_event_automatic, from_event,
  first_rule, from_event_manual,
}
use gitvote.Handlers.{
  respond, Response, bad_request, create_if, create_unless_voted, set_status, set_check_status,
  without_command, dispatch, respond_event, event, verify_signature, try_from,
}

module _ {F : Type 0} (env : Env F) where
  Quiet-automate :
      (r : Repo) (e : PullRequestEvent) (automation : Automation)
      → Quiet (automate env r e automation)
  unfolding automate
  Quiet-automate r e automation =
      Quiet-if (not automation.enabled || is_empty automation.rules) _ _ (Quiet-pure none) (
        Quiet->>= _ _ (Quiet-get_pr_files env r e.pull_request.number) λ files.
          Quiet->>= _ _ (Quiet-lift (first_rule env automation.rules files)) λ found. Quiet-pure _)

  automation_cases :
      (r : Repo) (e : PullRequestEvent) (o : Option Automation)
      → Quiet {F = F} {A = Option Command}
          (elim o [ none ↦ pure none | some automation ↦ automate env r e automation ])
  automation_cases r e none = Quiet-pure none
  automation_cases r e (some automation) = Quiet-automate r e automation

  cfg_cases :
      (r : Repo) (e : PullRequestEvent) (cfg : CfgError ⊎ Cfg F)
      → Quiet {F = F} {A = Option Command} (elim cfg [
        | inl config_not_found ↦ pure none
        | inl e ↦ throw (other (cfg_error_text e))
        | inr cfg ↦ elim cfg.automation [
          | none ↦ pure none
          | some automation ↦ automate env r e automation
        ]
      ])
  cfg_cases r e (inl config_not_found) = Quiet-pure none
  cfg_cases r e (inl (invalid_config reason)) = Quiet-throw _
  cfg_cases r e (inl profile_not_found) = Quiet-throw _
  cfg_cases r e (inr cfg) = automation_cases r e cfg.automation

  Quiet-automatic : (e : PullRequestEvent) → Quiet (automatic env e)
  unfolding automatic
  Quiet-automatic e = Quiet->>= _ _ (Quiet-split_full_name e.repository.full_name) λ names.
      let r = repo_of (as_u64 e.installation.id) names in
      Quiet->>= _ _ (Quiet-cfg_get env r) λ cfg. cfg_cases r e cfg

  opened_cases : (a : PullRequestEventAction) (e : PullRequestEvent) → Quiet (when_opened env a e)
  opened_cases PullRequestEventAction.opened e = Quiet-automatic e
  opened_cases PullRequestEventAction.synchronize e = Quiet-pure none
  opened_cases PullRequestEventAction.other e = Quiet-pure none

  Quiet-from_event_automatic : (event : Event) → Quiet (from_event_automatic env event)
  unfolding from_event_automatic
  Quiet-from_event_automatic (issue e) = Quiet-pure none
  Quiet-from_event_automatic (issue_comment e) = Quiet-pure none
  Quiet-from_event_automatic (pull_request e) = opened_cases e.action e

  manual_cases :
      (event : Event) (o : Option Command)
      → Quiet {F = F} {A = Option Command} (elim o [
        | some cmd ↦ pure (some cmd)
        | none ↦ do cmd ← attempt (from_event_automatic env event); pure (or_none env cmd)
      ])
  manual_cases event (some cmd) = Quiet-pure (some cmd)
  manual_cases event none =
      Quiet->>= _ _ (Quiet-attempt _ (Quiet-from_event_automatic event)) λ cmd. Quiet-pure _

  pub Quiet-from_event : (event : Event) → Quiet (from_event env event)
  unfolding from_event
  Quiet-from_event event = manual_cases event (from_event_manual event)

  create_if-Quiet : (b : Bool) (r : Repo) (e : PullRequestEvent) → Quiet (create_if env b r e)
  create_if-Quiet false r e = Quiet-pure tt
  create_if-Quiet true r e = Quiet-create_check_run env r e.pull_request.number _

  Quiet-create_unless_voted :
      (r : Repo) (e : PullRequestEvent) (b : Bool) → Quiet (create_unless_voted env r e b)
  unfolding create_unless_voted
  Quiet-create_unless_voted r e false = Quiet-pure tt
  Quiet-create_unless_voted r e true =
      Quiet->>= _ _ (Quiet-has_vote env e.repository.full_name e.pull_request.number)
        λ voted. create_if-Quiet (not voted) r e

  Quiet-set_status :
      (r : Repo) (e : PullRequestEvent) (a : PullRequestEventAction) → Quiet (set_status env r e a)
  unfolding set_status
  Quiet-set_status r e PullRequestEventAction.opened =
      Quiet->>= _ _ (Quiet-is_check_required env r e.pull_request.base.reference)
        λ required. create_if-Quiet required r e
  Quiet-set_status r e PullRequestEventAction.synchronize =
      Quiet->>= _ _ (Quiet-is_check_required env r e.pull_request.base.reference)
        (Quiet-create_unless_voted r e)
  Quiet-set_status r e PullRequestEventAction.other = Quiet-pure tt

  Quiet-set_check_status : (e : PullRequestEvent) → Quiet (set_check_status env e)
  unfolding set_check_status
  Quiet-set_check_status e =
      Quiet->>= _ _ (Quiet-split_full_name e.repository.full_name)
        λ names. Quiet-set_status (repo_of (as_u64 e.installation.id) names) e e.action

  pub Quiet-without_command : (event : Event) → Quiet (without_command env event)
  unfolding without_command
  Quiet-without_command (issue e) = Quiet-pure _
  Quiet-without_command (issue_comment e) = Quiet-pure _
  Quiet-without_command (pull_request e) =
      Quiet->>= _ _ (Quiet-attempt _ (Quiet-set_check_status e)) λ set. Quiet-pure _

  -- A request does nothing to the table, and it adds at most one command to the queue.
  pub data Queues (w v : World F) : Type 0 where
    nothing : Same w v → Queues w v
    queued : (cmd : Command) → v.table ≡ w.table → v.queue ≡ w.queue ++ cmd ∷ [] → Queues w v

  abbrev command_or_not : Event → Option Command → M F Response
  command_or_not event cmd = elim cmd [
    | none ↦ without_command env event
    | some cmd ↦ do enqueue env cmd; pure (respond 200 (str "command queued"))
  ]

  command_or_not-Queues :
      (event : Event) (w v : World F) (cmd : Option Command)
      → Same w v
      → Queues w (after (command_or_not event cmd v))
  command_or_not-Queues event w v none s =
      nothing (Same-trans s ((Quiet-without_command event).same v))
  command_or_not-Queues event w v (some cmd) s =
      queued cmd s.table (ap (λ q. q ++ cmd ∷ []) s.queue)

  dispatch_run :
      (event : Event) (w : World F) (r : Run F (Option Command))
      → Same w (after r)
      → Queues w (after (then_do r (command_or_not event)))
  dispatch_run event w (done cmd v) s = command_or_not-Queues event w v cmd s
  dispatch_run event w (fail e v) s = nothing s
  dispatch_run event w (panic v) s = nothing s

  dispatch-Queues : (event : Event) (w : World F) → Queues w (after (dispatch env event w))
  unfolding dispatch
  dispatch-Queues event w =
      dispatch_run event w (from_event env event w) ((Quiet-from_event event).same w)

  respond_event-Queues :
      (e : EventError ⊎ Event) (w : World F) → Queues w (after (respond_event env e w))
  unfolding respond_event
  respond_event-Queues (inl missing_header) w = nothing (Same-refl w)
  respond_event-Queues (inl (invalid_body e)) w = nothing (Same-refl w)
  respond_event-Queues (inl unsupported_event) w = nothing (Same-refl w)
  respond_event-Queues (inr e) w = dispatch-Queues e w

  -- A request to the events endpoint leaves the table of votes alone and adds at most one command to
  -- the queue. A request without the digest of its body is answered with status 400, and nothing at
  -- all is done: no call is made either.
  pub event-Queues :
      (secret : Str) (fallback header name : Option Str) (body : Str) (w : World F)
      → let r = event env secret fallback header name body w in
        Queues w (after r)
        × (¬ IsAuthentic env header secret fallback body
            → r ≡ done (bad_request (str "no valid signature found")) w)
  unfolding event
  event-Queues secret fallback header name body w =
      let iff = verify_signature-true_iff env header secret fallback body in
      elim (Bool-cases (verify_signature env header secret fallback body)) [
        | inl h ↦
            (rw h (respond_event-Queues (try_from env name body) w), λ n. absurd (n (iff.0 h)))
        | inr h ↦ (rw h (nothing (Same-refl w)), λ n. rw h refl)
      ]

-- ===== src/Handlers/Routed.antt =====
-- src/handlers.rs: what a request to the server may change, whatever its path.
use gitvote.CfgSvc.{GitHubApp}
use gitvote.Float.{Float}
use gitvote.Handlers.{event, index}
use gitvote.Handlers.Events.{Queues, nothing, event-Queues}
use gitvote.Handlers.Pages.{Quiet-audit, Quiet-audit_vote_details}
use gitvote.Handlers.Router.{
  Request, Route, Endpoint, index_page, events_hook, audit_page, vote_page, github_event_header,
  github_signature_header, accepts, serve, serve_if, answer, setup_router, routes,
}
use gitvote.Handlers.Signature.{IsAuthentic}
use gitvote.Prelude.{
  ℕ, Bool, true, false, Option, List, [], ◌∷◌, Str, sym, subst, Option-cases, inl, inr,
}
use gitvote.World.{World, Env, M, after}
use gitvote.World.Quiet.{Quiet-option, Same, Same-refl, Quiet, Quiet-pure}

module _ {F : Type 0} (env : Env F) (github : GitHubApp) (request : Request) where
  abbrev pub IsSigned : Type 0
  IsSigned =
      IsAuthentic env (request.headers github_signature_header) github.webhook_secret
        github.webhook_secret_fallback request.body

  -- The table stays as it is and at most one command is queued; without a valid signature nothing
  -- changes at all.
  pub record IsHarmless {A : Type 0} (m : M F A) : Type 0 where
    pub queues : (w : World F) → Queues env w (after (m w))
    pub unsigned : (w : World F) → ¬ IsSigned → Same w (after (m w))

  IsHarmless-Quiet : {A : Type 0} (m : M F A) → Quiet m → IsHarmless m
  IsHarmless-Quiet m q = record { queues = λ w. nothing (q.same w); unsigned = λ w n. q.same w }

module _ {F : Type 0} ⦃num : Float F⦄ (env : Env F) (matched : Str → Str → Option (List Str))
    (parse_uuid : Str → Option ℕ) (start : ℕ) (github : GitHubApp) (request : Request) where
  event-IsHarmless : IsHarmless env github request (
      event env github.webhook_secret github.webhook_secret_fallback
        (request.headers github_signature_header)
        (request.headers github_event_header)
        request.body)
  event-IsHarmless =
      let known =
        event-Queues env github.webhook_secret github.webhook_secret_fallback
          (request.headers github_signature_header) (request.headers github_event_header)
          request.body in
      record {
        queues = λ w. (known w).0;
        unsigned = λ w n. subst (λ r. Same w (after r)) (sym ((known w).1 n)) (Same-refl w);
      }

  serve-IsHarmless :
      (endpoint : Endpoint) (parts : List Str)
      → IsHarmless env github request
          (serve env matched parse_uuid start github endpoint parts request)
  unfolding index
  serve-IsHarmless index_page parts = IsHarmless-Quiet env github request _ (Quiet-pure _)
  serve-IsHarmless events_hook parts = event-IsHarmless
  serve-IsHarmless audit_page [] = IsHarmless-Quiet env github request _ (Quiet-pure _)
  serve-IsHarmless audit_page (a ∷ []) = IsHarmless-Quiet env github request _ (Quiet-pure _)
  serve-IsHarmless audit_page (a ∷ b ∷ []) =
      IsHarmless-Quiet env github request _ (Quiet-audit env start a b)
  serve-IsHarmless audit_page (a ∷ b ∷ c ∷ rest) =
      IsHarmless-Quiet env github request _ (Quiet-pure _)
  serve-IsHarmless vote_page [] = IsHarmless-Quiet env github request _ (Quiet-pure _)
  serve-IsHarmless vote_page (a ∷ []) = IsHarmless-Quiet env github request _ (Quiet-pure _)
  serve-IsHarmless vote_page (a ∷ b ∷ []) = IsHarmless-Quiet env github request _ (Quiet-pure _)
  serve-IsHarmless vote_page (a ∷ b ∷ c ∷ []) = IsHarmless-Quiet env github request _ (
      Quiet-option (parse_uuid c) _ _ (Quiet-pure _)
        λ vote_id. Quiet-audit_vote_details env a b vote_id)
  serve-IsHarmless vote_page (a ∷ b ∷ c ∷ d ∷ rest) =
      IsHarmless-Quiet env github request _ (Quiet-pure _)

  serve_if-IsHarmless :
      (b : Bool) (endpoint : Endpoint) (parts : List Str)
      → IsHarmless env github request
          (serve_if env matched parse_uuid start github b endpoint parts request)
  serve_if-IsHarmless true endpoint parts = serve-IsHarmless endpoint parts
  serve_if-IsHarmless false endpoint parts = IsHarmless-Quiet env github request _ (Quiet-pure _)

  answer-IsHarmless :
      (table : List Route)
      → IsHarmless env github request (answer env matched parse_uuid start github table request)
  unfolding answer
  answer-IsHarmless [] = IsHarmless-Quiet env github request _ (Quiet-pure _)
  answer-IsHarmless (r ∷ rest) = elim (Option-cases (matched r.pattern request.path)) [
    | inl e ↦ rw (e, answer) (answer-IsHarmless rest)
    | inr (parts, e) ↦
        rw (e, answer) (serve_if-IsHarmless (accepts r.method request.method) r.endpoint parts)
  ]

  -- A request to the server, to whatever path, leaves the table of votes alone and adds at most one
  -- command to the queue; without the digest of its body it changes neither.
  pub setup_router-Queues :
      (w : World F)
      → let v = after (setup_router env matched parse_uuid start github request w) in
        Queues env w v × (¬ IsSigned env github request → Same w v)
  unfolding setup_router
  setup_router-Queues w =
      let harmless = answer-IsHarmless routes in (harmless.queues w, harmless.unsigned w)

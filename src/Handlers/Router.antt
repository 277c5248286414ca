-- ===== src/Handlers/Router.antt =====
-- src/handlers.rs: `setup_router` and `RouterState`. How axum matches a path with a pattern and parses
-- a UUID are arguments; the texts of its own answers are left empty.
use gitvote.CfgSvc.{GitHubApp}
use gitvote.Float.{Float}
use gitvote.Handlers.{
  Response, respond, internal_server_error, not_found, event, index, audit, audit_vote_details,
}
use Prim.Native.String.{String}
use gitvote.Prelude.{ℕ, Bool, true, false, Option, none, some, List, [], ◌∷◌, Str, str}
use gitvote.World.{Env, M, pure}

abbrev pub github_event_header : Str
github_event_header = str "X-GitHub-Event"

abbrev pub github_signature_header : Str
github_signature_header = str "X-Hub-Signature-256"

pub data Method : Type 0 where
  get head post other_method : Method

pub record Request : Type 0 where
  pub method : Method
  pub path : Str
  pub headers : Str → Option Str
  pub body : Str

pub record RouterState : Type 0 where
  pub webhook_secret : Str
  pub webhook_secret_fallback : Option Str

abbrev pub state_of : GitHubApp → RouterState
state_of github = record {
  webhook_secret = github.webhook_secret;
  webhook_secret_fallback = github.webhook_secret_fallback;
}

pub data Endpoint : Type 0 where
  index_page events_hook audit_page vote_page : Endpoint

pub record Route : Type 0 where
  pub pattern : Str
  pub method : Method
  pub endpoint : Endpoint

abbrev route : String → Method → Endpoint → Route
route pattern method endpoint = record {
  pattern = str pattern;
  method = method;
  endpoint = endpoint;
}

unfoldable pub routes : List Route
routes =
    route "/" get index_page
    ∷ route "/api/events" post events_hook
    ∷ route "/audit/{owner}/{repo}" get audit_page
    ∷ route "/audit/{owner}/{repo}/vote/{vote_id}" get vote_page
    ∷ []

-- A route for GET answers HEAD too.
abbrev pub accepts : Method → Method → Bool
accepts get get = true
accepts get head = true
accepts post post = true
accepts _ _ = false

module _ {F : Type 0} ⦃num : Float F⦄ (env : Env F) (matched : Str → Str → Option (List Str))
    (parse_uuid : Str → Option ℕ) (start : ℕ) (github : GitHubApp) where
  abbrev vote_page_of : Str → Str → Option ℕ → M F Response
  vote_page_of owner repo none = pure (respond 400 [])
  vote_page_of owner repo (some vote_id) = audit_vote_details env owner repo vote_id

  -- The handler of an endpoint with the parts of the path; other numbers of parts do not occur.
  abbrev pub serve : Endpoint → List Str → Request → M F Response
  serve index_page parts request = index env
  serve events_hook parts request =
      let state = state_of github in
      event env state.webhook_secret state.webhook_secret_fallback
        (request.headers github_signature_header) (request.headers github_event_header) request.body
  serve audit_page (owner ∷ repo ∷ []) request = audit env start owner repo
  serve audit_page _ request = pure internal_server_error
  serve vote_page (owner ∷ repo ∷ id ∷ []) request = vote_page_of owner repo (parse_uuid id)
  serve vote_page _ request = pure internal_server_error

  abbrev pub serve_if : Bool → Endpoint → List Str → Request → M F Response
  serve_if true endpoint parts request = serve endpoint parts request
  serve_if false endpoint parts request = pure (respond 405 [])

  -- The first route whose pattern matches the path; without one the answer is 404.
  unfoldable pub answer : List Route → Request → M F Response
  answer [] request = pure not_found
  answer (r ∷ rest) request = elim (matched r.pattern request.path) [
    | none ↦ answer rest request
    | some parts ↦ serve_if (accepts r.method request.method) r.endpoint parts request
  ]

  unfoldable pub setup_router : Request → M F Response
  setup_router request = answer routes request

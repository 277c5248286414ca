-- ===== src/Tests/Server.antt =====
-- Examples of the server, its configuration and its workers.
use mathlib.Core.WellFounded.{Acc}
use gitvote.Cmd
use gitvote.CfgSvc.{
  Figment, Cfg, GitHubApp, Value, text, int, or_else, as_text, as_int, as_optional_text, pretty,
  load,
}
use gitvote.CfgSvc.Layers.{load-source, source}
use gitvote.Handlers.Events.{Queues}
use gitvote.Handlers.Routed.{IsSigned, setup_router-Queues}
use gitvote.Handlers.Router.{Request, post, setup_router}
use gitvote.Processor.Shutdown.{Turns-Acc, turn-breaks}
use gitvote.Processor.Tasks.{breaks, commands_handler, next_command, turn, Service, Turns, workers}
use gitvote.Prelude.{
  ℕ, ◌≡◌, refl, true, none, some, [], ◌∷◌, List, pos, str, Str, Option, str_eq, ◌==◌, if◌then◌else◌,
}
use gitvote.Tests.{empty, test_float, env, one_vote, input}
use gitvote.World.{done, after}
use gitvote.World.Quiet.{Same}

-- The workers as they are started; they were asked to stop with a command in its queue.
abbrev stopping : Service env
stopping = record {
  world = record { table = []; trace = []; queue = gitvote.Cmd.create_vote input ∷ [] };
  cancelled = true;
  running = workers;
}

left_lem : turn env commands_handler true empty ≡ done breaks empty
unfolding turn next_command
left_lem = refl

Turns-Acc_example : Acc (λ v u. Turns env u v) stopping
Turns-Acc_example = Turns-Acc env stopping refl

turn-breaks_example : (true ≡ true) × (empty.queue ≡ []) × (empty ≡ empty)
turn-breaks_example = turn-breaks env true empty empty left_lem

abbrev github : GitHubApp
github = record {
  app_id = pos 1;
  app_private_key = str "key";
  webhook_secret = str "secret";
  webhook_secret_fallback = none;
}

abbrev unsigned_request : Request
unsigned_request = record {
  method = post;
  path = str "/api/events";
  headers = λ name. none;
  body = [];
}

-- Patterns without variables.
abbrev same_path : Str → Str → Option (List Str)
same_path pattern path = if pattern == path then some [] else none

abbrev no_uuid : Str → Option ℕ
no_uuid id = none

setup_router-Queues_example :
    let v = after (setup_router env same_path no_uuid 0 github unsigned_request one_vote) in
    Queues env one_vote v × (¬ IsSigned env github unsigned_request → Same one_vote v)
setup_router-Queues_example =
    setup_router-Queues env same_path no_uuid 0 github unsigned_request one_vote

-- Layers as functions from keys to values.
abbrev Layer : Type 0
Layer = Str → Option Value

abbrev functions : Figment Layer Layer
functions = record {
  new = λ key. none;
  merge = λ fig layer key. or_else (layer key) (fig key);
  serialized_default = λ key value other. if key == other then some value else none;
  provides = λ layer key. layer key;
  find = λ fig key. fig key;
  find-new = λ key. refl;
  find-merge = λ fig layer key. refl;
  provides-serialized_default = λ key value other. refl;
}

abbrev file : Layer
file key =
    if key == str "github.appId"
    then some (int (pos 1234))
    else if key == str "github.appPrivateKey"
    then some (text (str "key"))
    else if key == str "github.webhookSecret"
    then some (text (str "secret"))
    else none

abbrev environment : Layer
environment key = if key == str "addr" then some (text (str "0.0.0.0:80")) else none

abbrev no_db : Layer → Option (Unit {0})
no_db layer = some tt

abbrev settings : Cfg (Unit {0})
settings = record {
  addr = str "0.0.0.0:80";
  db = tt;
  github = record {
    app_id = pos 1234;
    app_private_key = str "key";
    webhook_secret = str "secret";
    webhook_secret_fallback = none;
  };
  format = pretty;
}

settings_lem : load functions no_db file environment ≡ some settings
unfolding load gitvote.CfgSvc.extract gitvote.CfgSvc.layers str_eq gitvote.CfgSvc.extract_github
    gitvote.CfgSvc.parse_format
settings_lem = refl

load-source_example :
    (as_text (source functions no_db file environment (str "addr")) ≡ some settings.addr)
    × (as_int (source functions no_db file environment (str "github.appId"))
        ≡ some settings.github.app_id)
    × (as_text (source functions no_db file environment (str "github.webhookSecret"))
        ≡ some settings.github.webhook_secret)
    × (as_optional_text
          (source functions no_db file environment (str "github.webhookSecretFallback"))
        ≡ some settings.github.webhook_secret_fallback)
load-source_example = load-source functions no_db file environment settings settings_lem

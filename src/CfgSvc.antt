-- ===== src/CfgSvc.antt =====
-- src/cfg_svc.rs: the configuration of the server, from its defaults, a file and the environment. The
-- figment library, which merges the layers, is an argument.
pub mod Layers
use gitvote.Github.Names.{char_eq}
use gitvote.Prelude.{ℤ, Bool, Option, none, some, Str, str, str_eq, ◌==◌, ◌≡◌, if◌then◌else◌}

-- A value at the end of a path of keys.
pub data Value : Type 0 where
  text : Str → Value
  int : ℤ → Value

abbrev pub or_else : {A : Type 0} → Option A → Option A → Option A
or_else none b = b
or_else (some a) b = some a

-- What the code relies on of figment: a layer that is merged later wins where it has a value.
pub record Figment (Fig Provider : Type 0) : Type 0 where
  pub new : Fig
  pub merge : Fig → Provider → Fig
  pub serialized_default : Str → Value → Provider
  pub provides : Provider → Str → Option Value
  pub find : Fig → Str → Option Value
  pub find-new : (key : Str) → find new key ≡ none
  pub find-merge :
      (fig : Fig) (layer : Provider) (key : Str)
      → find (merge fig layer) key ≡ or_else (provides layer key) (find fig key)
  pub provides-serialized_default :
      (key : Str) (value : Value) (other : Str)
      → provides (serialized_default key value) other ≡ (if key == other then some value else none)

pub data LogFormat : Type 0 where
  json pretty : LogFormat

pub record GitHubApp : Type 0 where
  pub app_id : ℤ
  pub app_private_key : Str
  pub webhook_secret : Str
  pub webhook_secret_fallback : Option Str

pub record Cfg (Db : Type 0) : Type 0 where
  pub addr : Str
  pub db : Db
  pub github : GitHubApp
  pub format : LogFormat

-- Reading a field: it fails on a value of another type.
abbrev pub as_text : Option Value → Option Str
as_text none = none
as_text (some (text s)) = some s
as_text (some (int n)) = none

abbrev pub as_int : Option Value → Option ℤ
as_int none = none
as_int (some (text s)) = none
as_int (some (int n)) = some n

-- A field of type `Option<String>` may be missing.
abbrev pub as_optional_text : Option Value → Option (Option Str)
as_optional_text none = some none
as_optional_text (some (text s)) = some (some s)
as_optional_text (some (int n)) = none

-- The names of the formats, in lower case.
unfoldable pub parse_format : Str → Option LogFormat
unfolding str_eq
parse_format name =
    if name == str "json" then some json else if name == str "pretty" then some pretty else none

infixl 5 ◌>>=◌
abbrev pub ◌>>=◌ : {A B : Type 0} → Option A → (A → Option B) → Option B
none >>= f = none
some a >>= f = f a

module _ {Fig Provider Db : Type 0} (figment : Figment Fig Provider)
    (read_db : Fig → Option Db) where
  unfoldable pub extract_github : Fig → Option GitHubApp
  extract_github fig = do
    app_id ← as_int (figment.find fig (str "github.appId"))
    app_private_key ← as_text (figment.find fig (str "github.appPrivateKey"))
    webhook_secret ← as_text (figment.find fig (str "github.webhookSecret"))
    webhook_secret_fallback ←
        as_optional_text (figment.find fig (str "github.webhookSecretFallback"))
    some (record {
      app_id = app_id;
      app_private_key = app_private_key;
      webhook_secret = webhook_secret;
      webhook_secret_fallback = webhook_secret_fallback;
    })

  -- `extract`; a field that is missing or not valid is an error.
  unfoldable pub extract : Fig → Option (Cfg Db)
  extract fig = do
    addr ← as_text (figment.find fig (str "addr"))
    db ← read_db fig
    github ← extract_github fig
    name ← as_text (figment.find fig (str "log.format"))
    format ← parse_format name
    some (record { addr = addr; db = db; github = github; format = format })

  -- The layers, the weakest first.
  unfoldable pub layers : Provider → Provider → Fig
  layers file env =
      figment.merge
        (figment.merge
          (figment.merge
            (figment.merge figment.new
              (figment.serialized_default (str "addr") (text (str "127.0.0.1:9000"))))
            (figment.serialized_default (str "log.format") (text (str "pretty"))))
          file)
        env

  -- `Cfg::load`
  unfoldable pub load : Provider → Provider → Option (Cfg Db)
  load file env = extract (layers file env)

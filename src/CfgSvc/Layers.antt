-- ===== src/CfgSvc/Layers.antt =====
-- src/cfg_svc.rs: which layer a setting of the server comes from.
use gitvote.Prelude.{
  true, false, Bool, sym, ◌∙◌, ap, ◌≡◌, Option, Str, str, str_eq, ◌==◌, if◌then◌else◌, refl, none,
  some, arith,
}
use gitvote.CfgSvc.{
  Bool, Value, text, Figment, Cfg, or_else, as_int, as_text, as_optional_text, extract,
  extract_github, layers, load,
}

or_else-if :
    {A : Type 0} (b : Bool) (a : A) (o : Option A)
    → or_else (if b then some a else none) o ≡ (if b then some a else o)
or_else-if true a o = refl
or_else-if false a o = refl

module _ {Fig Provider Db : Type 0} (figment : Figment Fig Provider)
    (read_db : Fig → Option Db) where
  find-merge_default :
      (fig : Fig) (name : Str) (value : Value) (key : Str)
      → figment.find (figment.merge fig (figment.serialized_default name value)) key
        ≡ (if name == key then some value else figment.find fig key)
  find-merge_default fig name value key =
      figment.find-merge fig (figment.serialized_default name value) key
      ∙ ap (λ o. or_else o (figment.find fig key))
          (figment.provides-serialized_default name value key)
      ∙ or_else-if (name == key) value (figment.find fig key)

  extract-fields :
      (fig : Fig) (cfg : Cfg Db)
      → extract figment read_db fig ≡ some cfg
      → (as_text (figment.find fig (str "addr")) ≡ some cfg.addr)
        × (as_int (figment.find fig (str "github.appId")) ≡ some cfg.github.app_id)
        × (as_text (figment.find fig (str "github.webhookSecret")) ≡ some cfg.github.webhook_secret)
        × (as_optional_text (figment.find fig (str "github.webhookSecretFallback"))
            ≡ some cfg.github.webhook_secret_fallback)
  unfolding extract extract_github
  extract-fields fig cfg h = ground arith

module _ {Fig Provider Db : Type 0} (figment : Figment Fig Provider) (read_db : Fig → Option Db)
    (file env : Provider) where
  -- What holds where neither the file nor the environment has a value.
  abbrev pub default : Str → Option Value
  default key =
      if str "log.format" == key
      then some (text (str "pretty"))
      else if str "addr" == key
      then some (text (str "127.0.0.1:9000"))
      else none

  -- The value in the environment, or else in the file, or else by default.
  abbrev pub source : Str → Option Value
  source key =
      or_else (figment.provides env key) (or_else (figment.provides file key) (default key))

  layer_order : (key : Str) → figment.find (layers figment read_db file env) key ≡ source key
  unfolding layers
  layer_order key =
      let addr = figment.serialized_default (str "addr") (text (str "127.0.0.1:9000")) in
      let format = figment.serialized_default (str "log.format") (text (str "pretty")) in
      let first = figment.merge figment.new addr in
      let second = figment.merge first format in
      let none_yet = figment.find-new key in
      let defaults : figment.find second key ≡ default key =
        find-merge_default figment read_db first (str "log.format") (text (str "pretty")) key
        ∙ ap (λ o. if str "log.format" == key then some (text (str "pretty")) else o)
            (find-merge_default figment read_db figment.new (str "addr")
                (text (str "127.0.0.1:9000")) key
              ∙ ap (λ o. if str "addr" == key then some (text (str "127.0.0.1:9000")) else o)
                  none_yet) in
      figment.find-merge (figment.merge second file) env key
      ∙ ap (or_else (figment.provides env key))
          (figment.find-merge second file key ∙ ap (or_else (figment.provides file key)) defaults)

  -- In a configuration that is loaded, the address, the id of the application and the secrets of the webhook
  -- are those
  -- of the environment, or else of the file, or else the defaults.
  pub load-source :
      (cfg : Cfg Db)
      → load figment read_db file env ≡ some cfg
      → (as_text (source (str "addr")) ≡ some cfg.addr)
        × (as_int (source (str "github.appId")) ≡ some cfg.github.app_id)
        × (as_text (source (str "github.webhookSecret")) ≡ some cfg.github.webhook_secret)
        × (as_optional_text (source (str "github.webhookSecretFallback"))
            ≡ some cfg.github.webhook_secret_fallback)
  unfolding load
  load-source cfg h =
      let (addr, id, secret, fallback) =
        extract-fields figment read_db (layers figment read_db file env) cfg h in
      (
        ap as_text (sym (layer_order (str "addr"))) ∙ addr,
        ap as_int (sym (layer_order (str "github.appId"))) ∙ id,
        ap as_text (sym (layer_order (str "github.webhookSecret"))) ∙ secret,
        ap as_optional_text (sym (layer_order (str "github.webhookSecretFallback"))) ∙ fallback,
      )

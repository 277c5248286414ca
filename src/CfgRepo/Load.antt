-- ===== src/CfgRepo/Load.antt =====
-- src/cfg_repo.rs: reading the configuration, choosing and validating a profile, automation rules.
use gitvote.Prelude.{
  ◌⊎◌, inl, inr, Bool, false, not, ◌&&◌, Option, none, some, List, [], ◌∷◌, Str, str, str_eq, ◌==◌,
  any, is_empty, if◌then◌else◌,
}
use gitvote.Float.{Float}
use gitvote.Github.{Error, github, other, Result, ok, err, File}
use gitvote.Github.Api.{get_config_file}
use gitvote.CfgRepo.{
  Cfg, CfgProfile, AllowedVoters, AutomationRule, CfgError, config_not_found, invalid_config,
  profile_not_found,
}
use gitvote.World.{Repo, Env, M, ◌>>=◌, pure}

abbrev pub default_profile : Str
default_profile = str "default"

abbrev pub err_invalid_pass_threshold : Str
err_invalid_pass_threshold = str "pass threshold must be greater than 0 and not greater than 100"

abbrev pub err_teams_not_allowed : Str
err_teams_not_allowed = str "teams in allowed voters can only be used in organizations"

-- `err.to_string()`
abbrev pub error_text : Error → Str
error_text (github message) = message
error_text (other message) = message

-- `Cfg::get`
unfoldable pub cfg_get : {F : Type 0} → Env F → Repo → M F (CfgError ⊎ Cfg F)
cfg_get env r = do
  content ← get_config_file env r
  elim content [
    | none ↦ pure (inl config_not_found)
    | some text ↦ elim (env.parse_yaml text) [
      | inl e ↦ pure (inl (invalid_config e))
      | inr cfg ↦ pure (inr cfg)
    ]
  ]

-- The teams that a profile lists, if it lists any.
abbrev pub has_teams : Option AllowedVoters → Bool
has_teams none = false
has_teams (some voters) = elim voters.teams [ none ↦ false | some teams ↦ not (is_empty teams) ]

module _ {F : Type 0} ⦃num : Float F⦄ where
  unfoldable pub validate : CfgProfile F → Bool → Result (Unit {0})
  validate p is_org =
      if not (num.lt (num.of_ℕ 0) p.pass_threshold && num.le p.pass_threshold (num.of_ℕ 100))
      then err (other err_invalid_pass_threshold)
      else if not is_org && has_teams p.allowed_voters
      then err (other err_teams_not_allowed)
      else ok tt

-- `HashMap::remove`, of which only the value counts.
unfoldable pub find_profile : {F : Type 0} → Str → List (Str × CfgProfile F) → Option (CfgProfile F)
find_profile name [] = none
find_profile name ((key, p) ∷ profiles) = if key == name then some p else find_profile name profiles

abbrev pub name_or_default : Option Str → Str
name_or_default none = default_profile
name_or_default (some name) = name

module _ {F : Type 0} ⦃num : Float F⦄ where
  unfoldable pub choose_profile : Cfg F → Bool → Option Str → CfgError ⊎ CfgProfile F
  choose_profile cfg is_org profile_name =
      elim (find_profile (name_or_default profile_name) cfg.profiles) [
        | none ↦ inl profile_not_found
        | some p ↦ elim (validate p is_org) [
          | ok u ↦ inr p
          | err e ↦ inl (invalid_config (error_text e))
        ]
      ]

  -- `CfgProfile::get`
  unfoldable pub profile_get : Env F → Repo → Bool → Option Str → M F (CfgError ⊎ CfgProfile F)
  profile_get env r is_org profile_name = do
    cfg ← cfg_get env r
    elim cfg [ inl e ↦ pure (inl e) | inr cfg ↦ pure (choose_profile cfg is_org profile_name) ]

module _ {F : Type 0} (env : Env F) where
  unfoldable pub add_lines : List Str → Result (Unit {0})
  add_lines [] = ok tt
  add_lines (pattern_line ∷ patterns) =
      let rest = add_lines patterns in
      elim (env.gitignore_line pattern_line) [ ok u ↦ rest | err e ↦ err e ]

  -- `AutomationRule::matches`
  unfoldable pub matches : AutomationRule → List File → Result Bool
  unfolding add_lines
  matches rule files = elim (add_lines rule.patterns) [
    | err e ↦ err e
    | ok u ↦ elim (env.gitignore_build rule.patterns) [
      | err e ↦ err e
      | ok u ↦ ok (any (λ file. env.gitignore_matched rule.patterns file.filename) files)
    ]
  ]

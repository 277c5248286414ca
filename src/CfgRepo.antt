-- ===== src/CfgRepo.antt =====
-- src/cfg_repo.rs: the configuration of a repository. `F` is the type of `f64`.
pub mod Load
pub mod Valid
use gitvote.Prelude.{ℕ, Bool, Option, List, Str}

pub record Audit : Type 0 where
  pub enabled : Bool

pub record AutomationRule : Type 0 where
  pub patterns : List Str
  pub profile : Str

pub record Automation : Type 0 where
  pub enabled : Bool
  pub rules : List AutomationRule

pub record AllowedVoters : Type 0 where
  pub teams : Option (List Str)
  pub users : Option (List Str)
  pub exclude_team_maintainers : Option Bool

pub record DiscussionsAnnouncements : Type 0 where
  pub category : Str

pub record Announcements : Type 0 where
  pub discussions : Option DiscussionsAnnouncements

pub data PassThresholdBase : Type 0 where
  allowed_voters : PassThresholdBase
  votes_cast : Option Bool → PassThresholdBase

-- A duration is in nanoseconds.
pub record CfgProfile (F : Type 0) : Type 0 where
  pub duration : ℕ
  pub pass_threshold : F
  pub allowed_voters : Option AllowedVoters
  pub announcements : Option Announcements
  pub pass_threshold_base : Option PassThresholdBase
  pub periodic_status_check : Option Str
  pub close_on_passing : Option Bool
  pub close_on_passing_min_wait : Option Str

-- The profiles are a map without an order, of which an association list holds the first entry of
-- each key.
pub record Cfg (F : Type 0) : Type 0 where
  pub profiles : List (Str × CfgProfile F)
  pub audit : Option Audit
  pub automation : Option Automation

pub data CfgError : Type 0 where
  config_not_found : CfgError
  invalid_config : Str → CfgError
  profile_not_found : CfgError

-- ===== src/Tmpl.antt =====
-- src/tmpl.rs: the templates as data. Rendering them is the work of the template engine.
pub mod Build
pub mod Filter
pub mod Participation
use gitvote.Prelude.{ℕ, Bool, Option, List, Str, ℤ}
use gitvote.Prelude.Map.{Map}
use gitvote.Results.{Vote, VoteResults}

pub record AuditParticipationStatsUser (F : Type 0) : Type 0 where
  pub not_voted : ℕ
  pub participation_percentage : F
  pub votes_abstain : ℕ
  pub votes_against : ℕ
  pub votes_in_favor : ℕ

-- By year, in ascending order, and user.
abbrev pub AuditParticipationStats : Type 0 → Type 0
AuditParticipationStats F = List (ℕ × Map (AuditParticipationStatsUser F))

pub record Audit (F : Type 0) : Type 0 where
  pub participation_stats : AuditParticipationStats F
  pub repository_full_name : Str
  pub votes : List (Vote F)

pub record VoteCreated (F : Type 0) : Type 0 where
  pub creator : Str
  pub issue_title : Str
  pub issue_number : ℤ
  pub duration : ℕ
  pub pass_threshold : F
  pub pass_threshold_base_votes_cast : Bool
  pub exclude_abstentions : Bool
  pub org : Str
  pub teams : List Str
  pub users : List Str

pub data Template (F : Type 0) : Type 0 where
  audit : Audit F → Template F
  audit_vote_details : VoteResults F → Vote F → Template F
  config_not_found : Template F
  config_profile_not_found : Template F
  index : Template F
  invalid_config : Str → Template F
  no_vote_in_progress : Str → Bool → Template F
  vote_cancelled : Str → Bool → Template F
  vote_checked_recently : Template F
  vote_closed : VoteResults F → Template F
  vote_closed_announcement : ℤ → Str → VoteResults F → Template F
  vote_created : VoteCreated F → Template F
  vote_in_progress : Str → Bool → Template F
  vote_restricted : Str → Template F
  vote_status : VoteResults F → Template F

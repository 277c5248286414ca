-- ===== src/Results.antt =====
-- src/results.rs: votes and their results. Instants are nanoseconds since the earliest one, ids are
-- numbers, and counters are not negative.
pub mod Tally
pub mod Calculate
pub mod Ballots
pub mod Counts
pub mod Turnout
pub mod Tracked
pub mod Once
pub mod Calculated
pub mod Available
pub mod Bounds
pub mod Threshold
use gitvote.Prelude.{ℕ, Bool, Option, List, Str, ℤ}
use gitvote.Prelude.Map.{Map}
use gitvote.CfgRepo.{CfgProfile}

pub data VoteOption : Type 0 where
  in_favor : VoteOption
  against : VoteOption
  abstain : VoteOption

pub record UserVote : Type 0 where
  pub vote_option : VoteOption
  pub timestamp : ℕ
  pub binding : Bool

pub record VoteResults (F : Type 0) : Type 0 where
  pub passed : Bool
  pub in_favor_percentage : F
  pub pass_threshold : F
  pub in_favor : ℕ
  pub against : ℕ
  pub against_percentage : F
  pub abstain : ℕ
  pub not_voted : ℕ
  pub binding : ℕ
  pub non_binding : ℕ
  pub allowed_voters : ℕ
  pub votes : Map UserVote
  pub pending_voters : List Str

pub record Vote (F : Type 0) : Type 0 where
  pub vote_id : ℕ
  pub vote_comment_id : ℤ
  pub created_at : ℕ
  pub created_by : Str
  pub ends_at : ℕ
  pub closed : Bool
  pub closed_at : Option ℕ
  pub checked_at : Option ℕ
  pub cfg : CfgProfile F
  pub installation_id : ℤ
  pub issue_id : ℤ
  pub issue_number : ℤ
  pub issue_title : Option Str
  pub is_pull_request : Bool
  pub repository_full_name : Str
  pub organization : Option Str
  pub results : Option (VoteResults F)

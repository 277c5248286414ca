-- ===== src/Cmd.antt =====
-- src/cmd.rs: the commands, and the inputs that they take from an event.
pub mod Parse
pub mod Manual
pub mod Grammar
pub mod FromEvent
use gitvote.Prelude.{ℕ, Bool, Option, List, Str, ℤ}

pub record CreateVoteInput : Type 0 where
  pub profile_name : Option Str
  pub created_by : Str
  pub installation_id : ℤ
  pub issue_id : ℤ
  pub issue_number : ℤ
  pub issue_title : Str
  pub is_pull_request : Bool
  pub repository_full_name : Str
  pub organization : Option Str

pub record CancelVoteInput : Type 0 where
  pub cancelled_by : Str
  pub installation_id : ℤ
  pub issue_number : ℤ
  pub is_pull_request : Bool
  pub repository_full_name : Str

pub record CheckVoteInput : Type 0 where
  pub issue_number : ℤ
  pub repository_full_name : Str

pub data Command : Type 0 where
  create_vote : CreateVoteInput → Command
  cancel_vote : CancelVoteInput → Command
  check_vote : CheckVoteInput → Command

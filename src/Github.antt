-- ===== src/Github.antt =====
-- src/github.rs: the data of GitHub's events and answers, and the helpers on names and errors.
pub mod Names
pub mod Splits
pub mod Api
pub mod Voters
pub mod Distinct
pub mod Named
use gitvote.Prelude.{
  ◌≡◌, refl, ◌⊎◌, inl, inr, Bool, true, false, Option, List, [], ◌∷◌, Str, str, str_eq, ℤ, ◌==◌,
  if◌then◌else◌,
}

-- `anyhow::Error`, which is an error of GitHub's API with its message, or another.
pub data Error : Type 0 where
  github : Str → Error
  other : Str → Error

-- Rust's `Result` with that error.
pub data Result (A : Type 0) : Type 0 where
  ok : A → Result A
  err : Error → Result A

pub Result-cases :
    {A : Type 0} (r : Result A) → ((e : Error) × (r ≡ err e)) ⊎ ((a : A) × (r ≡ ok a))
Result-cases (ok a) = inr (a, refl)
Result-cases (err e) = inl (e, refl)

-- `is_not_found_error`
unfoldable pub is_not_found_error : Error → Bool
unfolding str_eq
is_not_found_error (github message) = message == str "Not Found"
is_not_found_error (other message) = false

pub record User : Type 0 where
  pub login : Str

pub record Installation : Type 0 where
  pub id : ℤ

pub record PullRequestInIssue : Type 0 where
  pub url : Str

pub record Issue : Type 0 where
  pub id : ℤ
  pub number : ℤ
  pub title : Str
  pub body : Option Str
  pub pull_request : Option PullRequestInIssue

pub record Repository : Type 0 where
  pub full_name : Str

pub record Organization : Type 0 where
  pub login : Str

pub record PullRequestBase : Type 0 where
  pub reference : Str

pub record PullRequest : Type 0 where
  pub id : ℤ
  pub number : ℤ
  pub title : Str
  pub body : Option Str
  pub base : PullRequestBase

pub record Comment : Type 0 where
  pub id : ℤ
  pub body : Option Str

pub data IssueEventAction : Type 0 where
  opened : IssueEventAction
  other : IssueEventAction

pub data IssueCommentEventAction : Type 0 where
  created : IssueCommentEventAction
  other : IssueCommentEventAction

pub data PullRequestEventAction : Type 0 where
  opened : PullRequestEventAction
  synchronize : PullRequestEventAction
  other : PullRequestEventAction

pub record IssueEvent : Type 0 where
  pub action : IssueEventAction
  pub installation : Installation
  pub issue : Issue
  pub repository : Repository
  pub organization : Option Organization
  pub sender : User

pub record IssueCommentEvent : Type 0 where
  pub action : IssueCommentEventAction
  pub comment : Comment
  pub installation : Installation
  pub issue : Issue
  pub repository : Repository
  pub organization : Option Organization
  pub sender : User

pub record PullRequestEvent : Type 0 where
  pub action : PullRequestEventAction
  pub installation : Installation
  pub pull_request : PullRequest
  pub repository : Repository
  pub organization : Option Organization
  pub sender : User

pub data Event : Type 0 where
  issue : IssueEvent → Event
  issue_comment : IssueCommentEvent → Event
  pull_request : PullRequestEvent → Event

pub data EventError : Type 0 where
  missing_header : EventError
  unsupported_event : EventError
  invalid_body : Str → EventError

pub record Reaction : Type 0 where
  pub user : User
  pub content : Str
  pub created_at : Str

pub record RequiredStatusCheck : Type 0 where
  pub contexts : List Str

pub record Protection : Type 0 where
  pub required_status_checks : Option RequiredStatusCheck

pub record Branch : Type 0 where
  pub name : Str
  pub protection : Option Protection

pub record File : Type 0 where
  pub filename : Str

pub record CheckDetails : Type 0 where
  pub status : Str
  pub conclusion : Option Str
  pub summary : Str

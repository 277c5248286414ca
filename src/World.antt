-- ===== src/World.antt =====
-- What the program runs in: GitHub's API, the database table, the queue of commands, the clock.
-- A handler is a `Run`: from a world it gives a value, an error (`Err`) or a panic, and the world
-- that it leaves. Each call to the outside is recorded in the trace, newest first, and the answer
-- of the outside may depend on all the calls before it.
pub mod Quiet
pub mod Steps
pub mod Returns
pub mod Queue
use gitvote.Prelude.{ℕ, ◌⊎◌, Bool, Option, List, ◌∷◌, Str, ℤ}
use gitvote.Github.{
  Error, Result, ok, err, User, Reaction, File, Branch, CheckDetails, IssueEvent, IssueCommentEvent,
  PullRequestEvent,
}
use gitvote.CfgRepo.{Cfg, CfgProfile}
use gitvote.Cmd.{Command}
use gitvote.Results.{VoteResults}
use gitvote.Tmpl.{Template}

-- An installation, the owner of a repository, and the repository.
pub record Repo : Type 0 where
  pub inst_id : ℕ
  pub owner : Str
  pub name : Str

abbrev pub repo_of : ℕ → Str × Str → Repo
repo_of inst_id (owner, name) = record { inst_id = inst_id; owner = owner; name = name }

pub data Query : Type 0 where
  cancel_vote close_finished_vote get_open_vote : Query
  get_open_votes_with_close_on_passing get_pending_status_checks get_vote : Query
  has_vote has_vote_open list_votes store_vote store_vote_results update_vote_ends_at
        update_vote_last_check :
      Query

pub data Call : Type 0 where
  add_labels : Repo → ℕ → List Str → Call
  get_pull : Repo → ℕ → Call
  create_check_run : Repo → Str → Str → CheckDetails → Call
  announcement_repo_query : Repo → Str → Call
  create_discussion : Repo → Str → Str → Str → Str → Call
  get_collaborators : Repo → Call
  get_comment_reactions : Repo → ℤ → Call
  get_content : Repo → Str → Call
  get_pr_files : Repo → ℤ → Call
  get_repository_installation : Str → Str → Call
  get_team_members : ℕ → Str → Str → Str → Call
  get_branch : Repo → Str → Call
  create_comment : Repo → ℕ → Str → Call
  remove_label : Repo → ℕ → Str → Call
  get_collaborator : Repo → Str → Call
  query : Query → Call

abbrev pub Trace : Type 0
Trace = List Call

-- The column `results` of the table, of type `jsonb`: no value, the JSON `null`, or JSON that serde
-- reads as these results.
pub data Column (F : Type 0) : Type 0 where
  sql_null : Column F
  json_null : Column F
  json : VoteResults F → Column F

-- A row of the table `vote`.
pub record Row (F : Type 0) : Type 0 where
  pub vote_id : ℕ
  pub vote_comment_id : ℤ
  pub created_at : ℕ
  pub created_by : Str
  pub ends_at : ℕ
  pub closed : Bool
  pub closed_at : Option ℕ
  pub checked_at : Option ℕ
  pub cfg : CfgProfile F
  pub installation_id : ℤ
  pub issue_id : ℤ
  pub issue_number : ℤ
  pub issue_title : Option Str
  pub is_pull_request : Bool
  pub repository_full_name : Str
  pub organization : Option Str
  pub results : Column F

pub record World (F : Type 0) : Type 0 where
  pub table : List (Row F)
  pub trace : Trace
  pub queue : List Command

-- The outside: the answers of GitHub and of PostgreSQL, the clock, and the libraries.
pub record Env (F : Type 0) : Type 0 where
  -- GitHub, by octocrab
  pub installation : ℕ → Result (Unit {0})
  pub ack : Trace → Call → Result (Unit {0})
  pub pull_head : Trace → Call → Result (Option Str)
  pub announcement_repo : Trace → Call → Result (Option (Str × Option Str))
  pub users : Trace → Call → Result (List User)
  pub reactions : Trace → Call → Result (List Reaction)
  pub content : Trace → Call → Result (List (Option Str))
  pub files : Trace → Call → Result (List File)
  pub installation_id : Trace → Call → Result ℕ
  pub branch : Trace → Call → Result Branch
  pub comment_id : Trace → Call → Result ℕ
  pub status : Trace → Call → Result ℕ
  -- PostgreSQL: a failure of the pool or of the query, the clock, ids, and `order by random()`
  pub db_error : Trace → Call → Option Error
  pub db_now : Trace → ℕ
  pub random_uuid : Trace → ℕ
  pub random_pick : Trace → ℕ
  pub interval : Str → Option ℕ
  -- the time, time formats, YAML, gitignore patterns and templates
  pub now : Trace → ℕ
  pub parse_rfc3339 : Str → Option ℕ
  pub year : ℕ → ℕ
  pub parse_yaml : Str → Str ⊎ Cfg F
  pub gitignore_line : Str → Result (Unit {0})
  pub gitignore_build : List Str → Result (Unit {0})
  pub gitignore_matched : List Str → Str → Bool
  pub parse_issue_event : Str → Str ⊎ IssueEvent
  pub parse_issue_comment_event : Str → Str ⊎ IssueCommentEvent
  pub parse_pull_request_event : Str → Str ⊎ PullRequestEvent
  pub hmac_sha256 : Str → Str → Str
  pub hex_decode : Str → Option Str
  pub render : Template F → Result Str
  -- what the cache of `audit_is_enabled` holds for the name of a repository, and is not too old
  pub cached_audit : Trace → Str → Option Bool
  -- the results that serde reads from the JSON that it has written for results
  pub reread : VoteResults F → VoteResults F

pub data Run (F A : Type 0) : Type 0 where
  done : A → World F → Run F A
  fail : Error → World F → Run F A
  panic : World F → Run F A

abbrev pub M : Type 0 → Type 0 → Type 0
M F A = World F → Run F A

-- `?`, which passes an error on.
abbrev pub then_do : {F A B : Type 0} → Run F A → (A → M F B) → Run F B
then_do (done a w) f = f a w
then_do (fail e w) f = fail e w
then_do (panic w) f = panic w

infixl 5 ◌>>=◌ ◌>>◌
abbrev pub ◌>>=◌ : {F A B : Type 0} → M F A → (A → M F B) → M F B
◌>>=◌ m f w = then_do (m w) f

abbrev pub ◌>>◌ : {F A B : Type 0} → M F A → M F B → M F B
◌>>◌ m k w = then_do (m w) (λ _. k)

abbrev pub pure : {F A : Type 0} → A → M F A
pure a w = done a w

abbrev pub unit : {F : Type 0} → M F (Unit {0})
unit w = done tt w

-- `Err(e)`
abbrev pub throw : {F A : Type 0} → Error → M F A
throw e w = fail e w

-- `unwrap` and `expect` on what is not there
abbrev pub crash : {F A : Type 0} → M F A
crash w = panic w

abbrev pub lift : {F A : Type 0} → Result A → M F A
lift (ok a) w = done a w
lift (err e) w = fail e w

-- The value or the error as a value, for a `match` on the result.
abbrev pub caught : {F A : Type 0} → Run F A → Run F (Result A)
caught (done a w) = done (ok a) w
caught (fail e w) = done (err e) w
caught (panic w) = panic w

abbrev pub attempt : {F A : Type 0} → M F A → M F (Result A)
attempt m w = caught (m w)

-- `_ = e`: the error is dropped.
abbrev pub ignore : {F A : Type 0} → M F A → M F (Unit {0})
ignore m = attempt m >> unit

-- The world that a run leaves.
abbrev pub after : {F A : Type 0} → Run F A → World F
after (done a w) = w
after (fail e w) = w
after (panic w) = w

-- One call to the outside, with its answer.
unfoldable pub call : {F A : Type 0} → (Trace → Call → Result A) → Call → M F A
call answer c w = lift (answer w.trace c) (record w { trace = c ∷ w.trace })

-- ===== src/Tests.antt =====
-- The data of the examples: an outside that answers each call, and a world to start from. Numbers in
-- hundredths stand for `f64`.
pub mod Votes
pub mod Service
pub mod Pages
pub mod System
pub mod Server
use gitvote.Float.{Float, hundredths}
use gitvote.Prelude.{
  inl, inr, ◌⊎◌, none, some, [], ◌∷◌, List, Str, str, pos, ℕ, Option, ℤ, false, true,
}
use gitvote.CfgRepo.{CfgProfile, Cfg, AllowedVoters}
use gitvote.Cmd.{CreateVoteInput, CancelVoteInput, CheckVoteInput}
use gitvote.Github.{User, Reaction, Result, ok, err, other}
use gitvote.Results.{Vote}
use gitvote.World.{World, Env, Row, sql_null}

instance abbrev pub test_float : Float ℕ
test_float = hundredths

abbrev pub user : Str → User
user login = record { login = login }

abbrev pub alice : Str
alice = str "alice"

abbrev pub bob : Str
bob = str "bob"

abbrev pub carol : Str
carol = str "carol"

abbrev pub react : Str → Str → Reaction
react login content = record { user = user login; content = content; created_at = str "now" }

-- Alice votes once, Bob twice, and Carol is not among the allowed voters.
abbrev pub reactions : List Reaction
reactions =
    react alice (str "+1")
    ∷ react bob (str "+1")
    ∷ react carol (str "-1")
    ∷ react bob (str "-1")
    ∷ react carol (str "heart")
    ∷ []

abbrev pub allowed : List Str
allowed = alice ∷ bob ∷ []

abbrev pub voters : AllowedVoters
voters = record { teams = none; users = some allowed; exclude_team_maintainers = none }

abbrev pub cfg : CfgProfile ℕ
cfg = record {
  duration = 3600;
  pass_threshold = 5000;
  allowed_voters = some voters;
  announcements = none;
  pass_threshold_base = none;
  periodic_status_check = none;
  close_on_passing = some true;
  close_on_passing_min_wait = none;
}

abbrev pub full_name : Str
full_name = str "org/repo"

abbrev pub input : CreateVoteInput
input = record {
  profile_name = none;
  created_by = alice;
  installation_id = pos 1;
  issue_id = pos 2;
  issue_number = pos 3;
  issue_title = str "Title";
  is_pull_request = false;
  repository_full_name = full_name;
  organization = none;
}

abbrev pub cancel_input : CancelVoteInput
cancel_input = record {
  cancelled_by = alice;
  installation_id = pos 1;
  issue_number = pos 3;
  is_pull_request = false;
  repository_full_name = full_name;
}

abbrev pub check_input : CheckVoteInput
check_input = record { issue_number = pos 3; repository_full_name = full_name }

abbrev pub row : Row ℕ
row = record {
  vote_id = 7;
  vote_comment_id = pos 11;
  created_at = 1000;
  created_by = alice;
  ends_at = 2000;
  closed = false;
  closed_at = none;
  checked_at = none;
  cfg = cfg;
  installation_id = pos 1;
  issue_id = pos 2;
  issue_number = pos 3;
  issue_title = some (str "Title");
  is_pull_request = false;
  repository_full_name = full_name;
  organization = none;
  results = sql_null;
}

abbrev pub vote : Vote ℕ
vote = record {
  vote_id = 7;
  vote_comment_id = pos 11;
  created_at = 1000;
  created_by = alice;
  ends_at = 2000;
  closed = false;
  closed_at = none;
  checked_at = none;
  cfg = cfg;
  installation_id = pos 1;
  issue_id = pos 2;
  issue_number = pos 3;
  issue_title = some (str "Title");
  is_pull_request = false;
  repository_full_name = full_name;
  organization = none;
  results = none;
}

abbrev pub env : Env ℕ
env = record {
  installation = λ id. ok tt;
  ack = λ trace call. ok tt;
  pull_head = λ trace call. ok (some (str "sha"));
  announcement_repo = λ trace call. ok none;
  users = λ trace call. ok (user alice ∷ []);
  reactions = λ trace call. ok reactions;
  content = λ trace call. ok (some (str "profiles") ∷ []);
  files = λ trace call. ok [];
  installation_id = λ trace call. ok 1;
  branch = λ trace call. ok (record { name = str "main"; protection = none });
  comment_id = λ trace call. ok 11;
  status = λ trace call. ok 204;
  db_error = λ trace call. none;
  db_now = λ trace. 5000;
  random_uuid = λ trace. 7;
  random_pick = λ trace. 0;
  interval = λ text. none;
  now = λ trace. 5000;
  parse_rfc3339 = λ text. some 42;
  year = λ time. 2025;
  parse_yaml = λ text.
      inr (record { profiles = (str "default", cfg) ∷ []; audit = none; automation = none });
  gitignore_line = λ line. ok tt;
  gitignore_build = λ patterns. ok tt;
  gitignore_matched = λ patterns name. false;
  parse_issue_event = λ body. inl (str "no event");
  parse_issue_comment_event = λ body. inl (str "no event");
  parse_pull_request_event = λ body. inl (str "no event");
  hmac_sha256 = λ secret body. secret;
  hex_decode = λ digits. some digits;
  render = λ template. ok (str "text");
  cached_audit = λ trace name. none;
  reread = λ results. results;
}

abbrev pub empty : World ℕ
empty = record { table = []; trace = []; queue = [] }

abbrev pub one_vote : World ℕ
one_vote = record { table = row ∷ []; trace = []; queue = [] }

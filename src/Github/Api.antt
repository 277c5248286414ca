-- ===== src/Github/Api.antt =====
-- src/github.rs: `GHApi`, the operations on GitHub's API. Each first gets the installation's client.
pub mod Quiet
use gitvote.Prelude.{
  ℕ, Bool, true, false, Option, none, some, List, [], ◌∷◌, map, Str, str, str_eq, ◌==◌, ℤ, as_u64,
  as_i64, any, if◌then◌else◌,
}
use gitvote.Github.{
  Error, github, other, Result, ok, err, User, Reaction, File, Branch, CheckDetails,
}
use gitvote.Github.Names.{char_eq}
use gitvote.World.{
  Repo, Call, Env, M, ◌>>=◌, ◌>>◌, pure, unit, throw, lift, attempt, call,
  add_labels as add_labels_call, get_pull, create_check_run as create_check_run_call,
  announcement_repo_query, create_discussion as create_discussion_call,
  get_collaborators as get_collaborators_call, get_comment_reactions as get_comment_reactions_call,
  get_content, get_pr_files as get_pr_files_call, get_repository_installation,
  get_team_members as get_team_members_call, get_branch, create_comment,
  remove_label as remove_label_call, get_collaborator,
}

abbrev pub config_file : Str
config_file = str ".gitvote.yml"

abbrev pub org_config_repo : Str
org_config_repo = str ".github"

abbrev pub gitvote_check_name : Str
gitvote_check_name = str "GitVote"

abbrev pub logins : List User → List Str
logins = map (λ u. u.login)

module _ {F : Type 0} (env : Env F) where
  unfoldable pub client : ℕ → M F (Unit {0})
  client inst_id = lift (env.installation inst_id)

  unfoldable pub add_labels : Repo → ℤ → List Str → M F (Unit {0})
  unfolding client call
  add_labels r issue_number labels = do
    client r.inst_id
    call env.ack (add_labels_call r (as_u64 issue_number) labels)

  unfoldable pub create_check_run : Repo → ℤ → CheckDetails → M F (Unit {0})
  unfolding client call
  create_check_run r issue_number details = do
    client r.inst_id
    head ← call env.pull_head (get_pull r (as_u64 issue_number))
    elim head [
      | none ↦ throw (other (str "pull request response missing head"))
      | some sha ↦ call env.ack (create_check_run_call r gitvote_check_name sha details)
    ]

  unfoldable pub create_discussion : Repo → Str → Str → Str → M F (Unit {0})
  unfolding client call
  create_discussion r category title body = do
    client r.inst_id
    response ← call env.announcement_repo (announcement_repo_query r category)
    elim response [
      | some (repository_id, some category_id) ↦
          call env.ack (create_discussion_call r repository_id category_id title body)
      | _ ↦
          throw
            (other (str "something went wrong while fetching repository details for announcement"))
    ]

  unfoldable pub get_collaborators : Repo → M F (List Str)
  unfolding client call
  get_collaborators r = do
    client r.inst_id
    users ← call env.users (get_collaborators_call r)
    pure (logins users)

  unfoldable pub get_comment_reactions : Repo → ℤ → M F (List Reaction)
  unfolding client call
  get_comment_reactions r comment_id = do
    client r.inst_id
    call env.reactions (get_comment_reactions_call r comment_id)

  -- The answer at a place, if it is one file.
  abbrev pub single : Result (List (Option Str)) → Option (Option Str)
  single (ok (item ∷ [])) = some item
  single (ok _) = none
  single (err e) = none

  unfoldable pub try_candidates : List (Repo × Str) → M F (Option Str)
  unfolding call
  try_candidates [] = pure none
  try_candidates ((r, path) ∷ candidates) = do
    resp ← attempt (call env.content (get_content r path))
    let rest = try_candidates candidates
    elim (single resp) [ none ↦ rest | some content ↦ pure content ]

  -- The places of the configuration file, in order of precedence.
  abbrev pub candidates : Repo → List (Repo × Str)
  candidates r =
      (r, config_file)
      ∷ (r, str ".github/.gitvote.yml")
      ∷ (record r { name = org_config_repo }, config_file)
      ∷ []

  unfoldable pub get_config_file : Repo → M F (Option Str)
  unfolding client try_candidates
  get_config_file r = do
    built ← attempt (client r.inst_id)
    elim built [ err e ↦ pure none | ok u ↦ try_candidates (candidates r) ]

  unfoldable pub get_pr_files : Repo → ℤ → M F (List File)
  unfolding client call
  get_pr_files r pr_number = do client r.inst_id; call env.files (get_pr_files_call r pr_number)

  unfoldable pub get_repository_installation_id : Str → Str → M F ℕ
  unfolding call
  get_repository_installation_id owner repo =
      call env.installation_id (get_repository_installation owner repo)

  unfoldable pub get_team_members : ℕ → Str → Str → Bool → M F (List Str)
  unfolding client call
  get_team_members inst_id org team exclude_maintainers = do
    client inst_id
    users ← call env.users (
        get_team_members_call inst_id org team
          (if exclude_maintainers then str "member" else str "all"))
    pure (logins users)

  -- Whether branch protection requires the check.
  abbrev pub requires_check : Branch → Bool
  requires_check branch = elim branch.protection [
    | none ↦ false
    | some protection ↦ elim protection.required_status_checks [
      | none ↦ false
      | some required ↦ any (λ context. context == gitvote_check_name) required.contexts
    ]
  ]

  unfoldable pub is_check_required : Repo → Str → M F Bool
  unfolding client call
  is_check_required r branch = do
    client r.inst_id
    found ← call env.branch (get_branch r branch)
    pure (requires_check found)

  unfoldable pub post_comment : Repo → ℤ → Str → M F ℤ
  unfolding client call
  post_comment r issue_number body = do
    client r.inst_id
    id ← call env.comment_id (create_comment r (as_u64 issue_number) body)
    pure (as_i64 id)

  -- A label that is not there counts as removed.
  abbrev removed : Result (Unit {0}) → M F (Unit {0})
  removed (ok u) = unit
  removed (err (github message)) =
      if message == str "Label does not exist" then unit else throw (github message)
  removed (err (other message)) = throw (other message)

  unfoldable pub remove_label : Repo → ℤ → Str → M F (Unit {0})
  unfolding client call
  remove_label r issue_number label = do
    client r.inst_id
    answer ← attempt (call env.ack (remove_label_call r (as_u64 issue_number) label))
    removed answer

  abbrev no_content : ℕ
  no_content = 204

  unfoldable pub user_is_collaborator : Repo → Str → M F Bool
  unfolding client call char_eq
  user_is_collaborator r user = do
    client r.inst_id
    status ← call env.status (get_collaborator r user)
    pure (status == no_content)

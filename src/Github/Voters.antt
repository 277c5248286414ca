-- ===== src/Github/Voters.antt =====
-- src/github.rs: `get_allowed_voters`.
use gitvote.Prelude.{
  Bool, false, Option, none, some, List, [], ◌∷◌, ◌++◌, Str, eq_ignore_ascii_case, any, is_empty,
  if◌then◌else◌,
}
use gitvote.CfgRepo.{CfgProfile, AllowedVoters}
use gitvote.Github.{Result, ok, err}
use gitvote.Github.Api.{get_team_members, get_collaborators}
use gitvote.World.{Repo, Env, M, ◌>>=◌, pure, attempt}

-- Whether a list names a user, in any case.
abbrev pub names : List Str → Str → Bool
names voters user = any (λ voter. eq_ignore_ascii_case voter user) voters

unfoldable pub add_voter : List Str → Str → List Str
add_voter voters user = if names voters user then voters else voters ++ user ∷ []

unfoldable pub add_voters : List Str → List Str → List Str
unfolding add_voter
add_voters voters [] = voters
add_voters voters (user ∷ users) = add_voters (add_voter voters user) users

-- A team whose members cannot be fetched adds nobody.
abbrev pub add_members : List Str → Result (List Str) → List Str
add_members voters (ok members) = add_voters voters members
add_members voters (err e) = voters

abbrev pub listed : Option (List Str) → List Str
listed none = []
listed (some users) = users

module _ {F : Type 0} (env : Env F) where
  unfoldable pub add_teams : Repo → Str → Bool → List Str → List Str → M F (List Str)
  unfolding add_voters
  add_teams r org exclude [] voters = pure voters
  add_teams r org exclude (team ∷ teams) voters = do
    members ← attempt (get_team_members env r.inst_id org team exclude)
    add_teams r org exclude teams (add_members voters members)

  unfoldable pub team_voters : Repo → AllowedVoters → Option Str → M F (List Str)
  unfolding add_teams
  team_voters r cfg none = pure []
  team_voters r cfg (some org) = elim cfg.teams [
    | none ↦ pure []
    | some teams ↦
        add_teams r org (elim cfg.exclude_team_maintainers [ none ↦ false | some b ↦ b ]) teams []
  ]

  unfoldable pub configured_voters : Repo → Option AllowedVoters → Option Str → M F (List Str)
  unfolding team_voters
  configured_voters r none org = pure []
  configured_voters r (some cfg) org = do
    voters ← team_voters r cfg org
    pure (add_voters voters (listed cfg.users))

  unfoldable pub get_allowed_voters : Repo → CfgProfile F → Option Str → M F (List Str)
  unfolding configured_voters
  get_allowed_voters r cfg org = do
    voters ← configured_voters r cfg.allowed_voters org
    if is_empty voters then get_collaborators env r else pure voters

-- ===== src/Results/Available.antt =====
-- src/results.rs: `calculate` with a GitHub that answers.
use gitvote.Prelude.{All, ℤ, ℕ, ◌≡◌, ◌≢◌, Option, none, some, List, [], ◌∷◌, Str, is_empty, Bool}
use gitvote.CfgRepo.{AllowedVoters, CfgProfile}
use gitvote.Float.{Float}
use gitvote.Github.Api.{client, get_collaborators, get_comment_reactions, get_team_members}
use gitvote.Github.Voters.{add_teams, team_voters, configured_voters, get_allowed_voters}
use gitvote.Github.{Reaction, ok, User}
use gitvote.Results.Ballots.{track_reactions-total}
use gitvote.Results.Calculate.{calculate}
use gitvote.Results.Tally.{untracked}
use gitvote.Results.{Vote}
use gitvote.World.{Env, Repo, Trace, Call}
use gitvote.World.Returns.{
  ReturnsSuch-call, ReturnsSuch-after, ReturnsSuch->>=, ReturnsSuch, Returns-option,
  Returns-attempt, Returns, Returns->>=, Returns-pure, Returns-lift, Returns-call, Returns-if,
}

-- The times of reactions are valid.
abbrev pub HasTimes : {F : Type 0} → Env F → List Reaction → Type 0
HasTimes env = All (λ r. env.parse_rfc3339 r.created_at ≢ none)

-- GitHub answers what `calculate` asks, and the times of the reactions that it answers with are valid.
pub record IsAvailable {F : Type 0} (env : Env F) : Type 0 where
  pub installation : (id : ℕ) → env.installation id ≡ ok tt
  pub users : (trace : Trace) (c : Call) → (found : List User) × (env.users trace c ≡ ok found)
  pub reactions :
      (trace : Trace) (c : Call)
      → (found : List Reaction) × (env.reactions trace c ≡ ok found) × HasTimes env found

module _ {F : Type 0} (env : Env F) (up : IsAvailable env) where
  Returns-client : (id : ℕ) → Returns (client env id)
  unfolding client
  Returns-client id = Returns-lift (env.installation id) tt (up.installation id)

  Returns-get_collaborators : (r : Repo) → Returns (get_collaborators env r)
  unfolding get_collaborators
  Returns-get_collaborators r = Returns->>= _ _ (Returns-client r.inst_id) λ u.
      Returns->>= _ _ (Returns-call env.users _ (λ trace. up.users trace _)) λ users. Returns-pure _

  get_comment_reactions-HasTimes :
      (r : Repo) (n : ℤ) → ReturnsSuch (HasTimes env) (get_comment_reactions env r n)
  unfolding get_comment_reactions
  get_comment_reactions-HasTimes r n =
      ReturnsSuch-after (HasTimes env) _ _ (Returns-client r.inst_id)
        λ u. ReturnsSuch-call (HasTimes env) env.reactions _ (λ trace. up.reactions trace _)

  Returns-get_team_members :
      (inst_id : ℕ) (org team : Str) (exclude : Bool)
      → Returns (get_team_members env inst_id org team exclude)
  unfolding get_team_members
  Returns-get_team_members inst_id org team exclude = Returns->>= _ _ (Returns-client inst_id) λ u.
      Returns->>= _ _ (Returns-call env.users _ (λ trace. up.users trace _)) λ users. Returns-pure _

  Returns-add_teams :
      (r : Repo) (org : Str) (exclude : Bool) (teams voters : List Str)
      → Returns (add_teams env r org exclude teams voters)
  unfolding add_teams
  Returns-add_teams r org exclude [] voters = Returns-pure voters
  Returns-add_teams r org exclude (team ∷ teams) voters =
      Returns->>= _ _ (Returns-attempt _ (Returns-get_team_members r.inst_id org team exclude))
        λ members. Returns-add_teams r org exclude teams _

  Returns-team_voters :
      (r : Repo) (cfg : AllowedVoters) (org : Option Str) → Returns (team_voters env r cfg org)
  unfolding team_voters
  Returns-team_voters r cfg none = Returns-pure []
  Returns-team_voters r cfg (some org) =
      Returns-option cfg.teams _ _ (Returns-pure []) λ teams. Returns-add_teams r org _ teams []

  Returns-configured_voters :
      (r : Repo) (cfg : Option AllowedVoters) (org : Option Str)
      → Returns (configured_voters env r cfg org)
  unfolding configured_voters
  Returns-configured_voters r none org = Returns-pure []
  Returns-configured_voters r (some cfg) org =
      Returns->>= _ _ (Returns-team_voters r cfg org) λ voters. Returns-pure _

  Returns-get_allowed_voters :
      (r : Repo) (cfg : CfgProfile F) (org : Option Str)
      → Returns (get_allowed_voters env r cfg org)
  unfolding get_allowed_voters
  Returns-get_allowed_voters r cfg org =
      Returns->>= _ _ (Returns-configured_voters r cfg.allowed_voters org) λ voters.
        Returns-if (is_empty voters) _ _ (Returns-get_collaborators r) (Returns-pure voters)

  -- If GitHub answers, and the times of the reactions in its answers are valid, `calculate` returns
  -- results, without an error or a panic.
  pub Returns-calculate :
      ⦃num : Float F⦄ (names : Str × Str) (vote : Vote F) → Returns (calculate env names vote)
  unfolding calculate
  Returns-calculate names vote =
      ReturnsSuch->>= (HasTimes env) _ _ (get_comment_reactions-HasTimes _ vote.vote_comment_id)
        λ reactions valid.
          Returns->>= _ _ (Returns-get_allowed_voters _ vote.cfg vote.organization) λ allowed.
            let (tracked, e) =
              track_reactions-total env.parse_rfc3339 allowed untracked reactions valid in
            rw e (Returns-pure _)

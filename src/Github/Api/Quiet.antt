-- ===== src/Github/Api/Quiet.antt =====
-- src/github.rs: what the operations on GitHub's API do to the table and the queue.
use gitvote.Prelude.{is_empty, List, [], ◌∷◌, Option, none, some, Bool, Str, ℤ, ℕ, arith}
use gitvote.Github.{CheckDetails}
use gitvote.Github.Api.{
  client, add_labels, create_check_run, create_discussion, get_collaborators, get_comment_reactions,
  try_candidates, get_config_file, get_pr_files, get_repository_installation_id, get_team_members,
  is_check_required, post_comment, remove_label, user_is_collaborator, candidates, single,
}
use gitvote.Github.Names.{split_full_name}
use gitvote.Github.Voters.{add_teams, team_voters, configured_voters, get_allowed_voters}
use gitvote.CfgRepo.{CfgProfile, AllowedVoters}
use gitvote.Float.{Float}
use gitvote.CfgRepo.Load.{cfg_get, profile_get}
use gitvote.Results.{Vote}
use gitvote.Results.Calculate.{calculate}
use gitvote.Results.Tally.{track_reactions, untracked}
use gitvote.World.{Repo, Env, get_content}
use gitvote.World.Quiet.{
  Quiet-option, Quiet-result, Quiet-sum, Quiet-if, Quiet, Quiet->>=, Quiet-pure, Quiet-attempt,
  Quiet-call, Quiet-crash, Quiet-lift,
}

pub Quiet-split_full_name : {F : Type 0} (name : Str) → Quiet {F = F} (split_full_name name)
unfolding split_full_name
Quiet-split_full_name name = record { same = λ w. ground arith }

module _ {F : Type 0} (env : Env F) (r : Repo) where
  pub Quiet-post_comment : (n : ℤ) (body : Str) → Quiet (post_comment env r n body)
  unfolding post_comment
  Quiet-post_comment n body = record { same = λ w. ground arith }

  pub Quiet-add_labels : (n : ℤ) (labels : List Str) → Quiet (add_labels env r n labels)
  unfolding add_labels
  Quiet-add_labels n labels = record { same = λ w. ground arith }

  pub Quiet-create_check_run : (n : ℤ) (d : CheckDetails) → Quiet (create_check_run env r n d)
  unfolding create_check_run
  Quiet-create_check_run n d = record { same = λ w. ground arith }

  pub Quiet-create_discussion :
      (category title body : Str) → Quiet (create_discussion env r category title body)
  unfolding create_discussion
  Quiet-create_discussion category title body = record { same = λ w. ground arith }

  pub Quiet-remove_label : (n : ℤ) (label : Str) → Quiet (remove_label env r n label)
  unfolding remove_label
  Quiet-remove_label n label = record { same = λ w. ground arith }

  pub Quiet-user_is_collaborator : (user : Str) → Quiet (user_is_collaborator env r user)
  unfolding user_is_collaborator
  Quiet-user_is_collaborator user = record { same = λ w. ground arith }

  pub Quiet-is_check_required : (branch : Str) → Quiet (is_check_required env r branch)
  unfolding is_check_required
  Quiet-is_check_required branch = record { same = λ w. ground arith }

  pub Quiet-get_pr_files : (n : ℤ) → Quiet (get_pr_files env r n)
  unfolding get_pr_files
  Quiet-get_pr_files n = record { same = λ w. ground arith }

  pub Quiet-get_comment_reactions : (n : ℤ) → Quiet (get_comment_reactions env r n)
  unfolding get_comment_reactions
  Quiet-get_comment_reactions n = record { same = λ w. ground arith }

  pub Quiet-get_collaborators : Quiet (get_collaborators env r)
  unfolding get_collaborators
  Quiet-get_collaborators = record { same = λ w. ground arith }

module _ {F : Type 0} (env : Env F) where
  Quiet-try_candidates : (places : List (Repo × Str)) → Quiet (try_candidates env places)
  unfolding try_candidates
  Quiet-try_candidates [] = Quiet-pure none
  Quiet-try_candidates ((r, path) ∷ places) =
      Quiet->>= _ _ (Quiet-attempt _ (Quiet-call env.content (get_content r path)))
        λ resp. Quiet-option (single env resp) _ _ (Quiet-try_candidates places) Quiet-pure

  pub Quiet-get_config_file : (r : Repo) → Quiet (get_config_file env r)
  unfolding get_config_file client
  Quiet-get_config_file r =
      Quiet->>= _ _ (Quiet-attempt _ (Quiet-lift (env.installation r.inst_id))) λ built.
        Quiet-result built _ _ (λ u. Quiet-try_candidates (candidates env r)) (λ e. Quiet-pure none)

  pub Quiet-get_repository_installation_id :
      (owner repo : Str) → Quiet (get_repository_installation_id env owner repo)
  unfolding get_repository_installation_id
  Quiet-get_repository_installation_id owner repo = record { same = λ w. ground arith }

  pub Quiet-get_team_members :
      (inst_id : ℕ) (org team : Str) (exclude : Bool)
      → Quiet (get_team_members env inst_id org team exclude)
  unfolding get_team_members
  Quiet-get_team_members inst_id org team exclude = record { same = λ w. ground arith }

  Quiet-add_teams :
      (r : Repo) (org : Str) (exclude : Bool) (teams voters : List Str)
      → Quiet (add_teams env r org exclude teams voters)
  unfolding add_teams
  Quiet-add_teams r org exclude [] voters = Quiet-pure voters
  Quiet-add_teams r org exclude (team ∷ teams) voters =
      Quiet->>= _ _ (Quiet-attempt _ (Quiet-get_team_members r.inst_id org team exclude))
        λ members. Quiet-add_teams r org exclude teams _

  Quiet-team_voters :
      (r : Repo) (cfg : AllowedVoters) (org : Option Str) → Quiet (team_voters env r cfg org)
  unfolding team_voters
  Quiet-team_voters r cfg none = Quiet-pure []
  Quiet-team_voters r cfg (some org) =
      Quiet-option cfg.teams _ _ (Quiet-pure []) λ teams. Quiet-add_teams r org _ teams []

  Quiet-configured_voters :
      (r : Repo) (cfg : Option AllowedVoters) (org : Option Str)
      → Quiet (configured_voters env r cfg org)
  unfolding configured_voters
  Quiet-configured_voters r none org = Quiet-pure []
  Quiet-configured_voters r (some cfg) org =
      Quiet->>= _ _ (Quiet-team_voters r cfg org) λ voters. Quiet-pure _

  pub Quiet-get_allowed_voters :
      (r : Repo) (cfg : CfgProfile F) (org : Option Str) → Quiet (get_allowed_voters env r cfg org)
  unfolding get_allowed_voters
  Quiet-get_allowed_voters r cfg org =
      Quiet->>= _ _ (Quiet-configured_voters r cfg.allowed_voters org)
        λ voters. Quiet-if (is_empty voters) _ _ (Quiet-get_collaborators env r) (Quiet-pure voters)

  pub Quiet-cfg_get : (r : Repo) → Quiet (cfg_get env r)
  unfolding cfg_get
  Quiet-cfg_get r = Quiet->>= _ _ (Quiet-get_config_file r) λ content.
      Quiet-option content _ _ (Quiet-pure _)
        λ text. Quiet-sum (env.parse_yaml text) _ _ (λ e. Quiet-pure _) (λ cfg. Quiet-pure _)

  module _ ⦃num : Float F⦄ where
    pub Quiet-profile_get :
        (r : Repo) (is_org : Bool) (name : Option Str) → Quiet (profile_get env r is_org name)
    unfolding profile_get
    Quiet-profile_get r is_org name =
        Quiet->>= _ _ (Quiet-cfg_get r)
          λ cfg. Quiet-sum cfg _ _ (λ e. Quiet-pure _) (λ cfg. Quiet-pure _)

    pub Quiet-calculate : (names : Str × Str) (vote : Vote F) → Quiet (calculate env names vote)
    unfolding calculate
    Quiet-calculate names vote =
        Quiet->>= _ _ (Quiet-get_comment_reactions env _ vote.vote_comment_id) λ reactions.
          Quiet->>= _ _ (Quiet-get_allowed_voters _ vote.cfg vote.organization) λ allowed.
            Quiet-option (track_reactions env.parse_rfc3339 allowed untracked reactions) _ _
              Quiet-crash (λ tracked. Quiet-pure _)

-- ===== src/Processor/Race.antt =====
-- src/processor.rs: `create_vote` in two phases, between which another worker may act on the table.
use gitvote.CfgRepo.Load.{profile_get}
use gitvote.CfgRepo.{CfgError, CfgProfile}
use gitvote.Cmd.FromEvent.{is_some}
use gitvote.Cmd.{CreateVoteInput}
use gitvote.Db
use gitvote.Float.{Float}
use gitvote.Github.Api.{user_is_collaborator}
use gitvote.Github.Names.{split_full_name}
use gitvote.Prelude.{
  ℤ, ◌≡◌, refl, sym, ◌∙◌, ◌⊎◌, inl, inr, Bool, true, false, Option, none, some, as_u64,
}
use gitvote.Processor.{
  post, create_if_collaborator, create_if_free, create_vote, create_vote_as, error_template,
  open_vote, refuse,
}
use gitvote.Tmpl
use gitvote.World.{
  World, Env, Repo, repo_of, Run, done, fail, panic, M, ◌>>=◌, ◌>>◌, then_do, pure, unit,
}

module _ {F : Type 0} (env : Env F) where
  -- The first phase answers with what the second one needs, or with nothing if no vote is to be
  -- created, and then it has told why.
  abbrev pub refused : Repo → ℤ → Tmpl.Template F → M F (Option (Repo × CfgProfile F))
  refused r issue_number template = do refuse env r issue_number template; pure none

  abbrev pub decide_if_free :
      Repo → CreateVoteInput → CfgProfile F → Bool → M F (Option (Repo × CfgProfile F))
  decide_if_free r i cfg true =
      refused r i.issue_number (Tmpl.vote_in_progress i.created_by i.is_pull_request)
  decide_if_free r i cfg false = pure (some (r, cfg))

  abbrev pub decide_if_collaborator :
      Repo → CreateVoteInput → CfgProfile F → Bool → M F (Option (Repo × CfgProfile F))
  decide_if_collaborator r i cfg false =
      refused r i.issue_number (Tmpl.vote_restricted i.created_by)
  decide_if_collaborator r i cfg true = do
    in_progress ← Db.has_vote_open env i.repository_full_name i.issue_number
    decide_if_free r i cfg in_progress

  abbrev pub decide_as :
      Repo → CreateVoteInput → CfgError ⊎ CfgProfile F → M F (Option (Repo × CfgProfile F))
  decide_as r i (inl e) = refused r i.issue_number (error_template e)
  decide_as r i (inr cfg) = do
    collaborator ← user_is_collaborator env r i.created_by
    decide_if_collaborator r i cfg collaborator

  -- The second phase posts and stores the vote.
  unfoldable pub open_decided : CreateVoteInput → Option (Repo × CfgProfile F) → M F (Unit {0})
  open_decided i none = unit
  open_decided i (some (r, cfg)) = open_vote env r i cfg

  module _ ⦃num : Float F⦄ where
    unfoldable pub decide : CreateVoteInput → M F (Option (Repo × CfgProfile F))
    decide i = do
      names ← split_full_name i.repository_full_name
      let r = repo_of (as_u64 i.installation_id) names
      cfg ← profile_get env r (is_some i.organization) i.profile_name
      decide_as r i cfg

module _ {F A B C : Type 0} where
  then_do_assoc :
      (r : Run F A) (f : A → M F B) (g : B → M F C)
      → then_do (then_do r f) g ≡ then_do r (λ a w. then_do (f a w) g)
  then_do_assoc (done a w) f g = refl
  then_do_assoc (fail e w) f g = refl
  then_do_assoc (panic w) f g = refl

module _ {F A B : Type 0} where
  then_do-cong :
      (r : Run F A) (f g : A → M F B)
      → ((a : A) (w : World F) → f a w ≡ g a w)
      → then_do r f ≡ then_do r g
  then_do-cong (done a w) f g h = h a w
  then_do-cong (fail e w) f g h = refl
  then_do-cong (panic w) f g h = refl

module _ {F A B C : Type 0} where
  -- A step in front of both sides.
  pub then_do-step :
      (r : Run F A) (f : A → M F C) (g : A → M F B) (k : B → M F C)
      → ((a : A) (w : World F) → f a w ≡ then_do (g a w) k)
      → then_do r f ≡ then_do (then_do r g) k
  then_do-step r f g k h = then_do-cong r f (λ a w. then_do (g a w) k) h ∙ sym (then_do_assoc r g k)

module _ {F : Type 0} (env : Env F) (i : CreateVoteInput) where
  told :
      {A : Type 0} (r : Run F A)
      → then_do r (λ id. unit)
        ≡ then_do (then_do (then_do r (λ id. unit)) (λ u. pure none)) (open_decided env i)
  unfolding open_decided
  told (done a w) = refl
  told (fail e w) = refl
  told (panic w) = refl

  free_phases :
      (r : Repo) (cfg : CfgProfile F) (b : Bool) (w : World F)
      → create_if_free env r i cfg b w
        ≡ then_do (decide_if_free env r i cfg b w) (open_decided env i)
  unfolding create_if_free open_decided
  free_phases r cfg true w = told (post env r i.issue_number _ w)
  free_phases r cfg false w = refl

  collaborator_phases :
      (r : Repo) (cfg : CfgProfile F) (b : Bool) (w : World F)
      → create_if_collaborator env r i cfg b w
        ≡ then_do (decide_if_collaborator env r i cfg b w) (open_decided env i)
  unfolding create_if_collaborator
  collaborator_phases r cfg false w = told (post env r i.issue_number _ w)
  collaborator_phases r cfg true w =
      then_do-step (Db.has_vote_open env i.repository_full_name i.issue_number w) _
        (decide_if_free env r i cfg) (open_decided env i) (free_phases r cfg)

  cfg_phases :
      (r : Repo) (cfg : CfgError ⊎ CfgProfile F) (w : World F)
      → let create : M F (Unit {0}) = elim cfg [
        | inl e ↦ refuse env r i.issue_number (error_template e)
        | inr cfg ↦ create_vote_as env r i cfg
      ] in
        create w ≡ then_do (decide_as env r i cfg w) (open_decided env i)
  unfolding create_vote_as
  cfg_phases r (inl e) w = told (post env r i.issue_number _ w)
  cfg_phases r (inr cfg) w =
      then_do-step (user_is_collaborator env r i.created_by w) _
        (decide_if_collaborator env r i cfg) (open_decided env i) (collaborator_phases r cfg)

  -- `create_vote` is its two phases, one after the other.
  pub create_vote-phases :
      ⦃num : Float F⦄ (w : World F) → create_vote env i w ≡ (decide env i >>= open_decided env i) w
  unfolding create_vote decide
  create_vote-phases w =
      then_do-step (split_full_name i.repository_full_name w) _ _ (open_decided env i) λ names v.
        let r = repo_of (as_u64 i.installation_id) names in
        then_do-step (profile_get env r (is_some i.organization) i.profile_name v) _
          (decide_as env r i) (open_decided env i) (cfg_phases r)

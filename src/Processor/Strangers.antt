-- ===== src/Processor/Strangers.antt =====
-- src/processor.rs: the commands of users who are no collaborators.
use gitvote.Github.Splits.{split_full_name-Steps}
use gitvote.Processor.Quiet.{Quiet-refuse}
use gitvote.Cmd.FromEvent.{is_some}
use gitvote.CfgRepo.{CfgProfile}
use gitvote.Github.Api.Quiet.{Quiet-profile_get}
use gitvote.Github.Names.{split_full_name, char_eq}
use gitvote.Cmd.{CreateVoteInput, CancelVoteInput}
use gitvote.Float.{Float}
use gitvote.Prelude.{◌∷◌, ℕ, ◌≡◌, ◌≢◌, refl, ap, Bool, true, false, Str, as_u64, arith, ◌==◌, ◌∙◌}
use gitvote.Github.{Result, ok, err}
use gitvote.Github.Api.{client, user_is_collaborator}
use gitvote.World.{done, lift, World, Env, Repo, repo_of, Call, Trace, M, ◌>>=◌, pure, after, call}
use gitvote.World
use gitvote.World.Quiet.{Quiet-lift}
use gitvote.World.Steps.{
  Table, Post, Steps, Steps->>=, Steps-quiet, Steps-after, Steps-weaken, Steps-sum,
}
use gitvote.Processor.{
  create_if_collaborator, create_vote_as, create_vote, cancel_if_collaborator, cancel_vote,
}

module _ {F : Type 0} (env : Env F) where
  -- GitHub never answers that the user is a collaborator of the repository, by the status 204.
  abbrev IsOutside : Repo → Str → Type 0
  IsOutside r user = (trace : Trace) → env.status trace (World.get_collaborator r user) ≢ ok 204

  -- So it is for the repository of that name, by that installation; the user may collaborate elsewhere.
  abbrev pub IsStranger : ℕ → Str → Str → Type 0
  IsStranger inst_id full_name user =
      (names : Str × Str)
      → ((w : World F) → split_full_name full_name w ≡ done names w)
      → IsOutside (repo_of inst_id names) user

  abbrev Refused : Table F → Bool → Table F → Type 0
  Refused t b u = (u ≡ t) × (b ≡ false)

  abbrev Split : Table F → Str → Str × Str → Table F → Type 0
  Split t full_name names u = (u ≡ t) × ((w : World F) → split_full_name full_name w ≡ done names w)

  module _ (r : Repo) (user : Str) (stranger : IsOutside r user) (t : Table F) where
    answered-Post :
        (w : World F)
        → w.table ≡ t
        → (answer : Result ℕ) → env.status w.trace (World.get_collaborator r user) ≡ answer
        → Post
            (λ status u. (u ≡ t) × (status ≢ 204))
            (λ u. u ≡ t)
            (lift answer (record w { trace = World.get_collaborator r user ∷ w.trace }))
    answered-Post w e (ok status) h = (e, λ k. stranger w.trace (h ∙ ap ok k))
    answered-Post w e (err x) h = e

    not_collaborator : (status : ℕ) → status ≢ 204 → (status == 204) ≡ false
    unfolding char_eq
    not_collaborator status h = ground arith

    pub user_is_collaborator-Refused :
        Steps (λ u. u ≡ t) (user_is_collaborator env r user) (Refused t) (λ u. u ≡ t)
    unfolding user_is_collaborator client call
    user_is_collaborator-Refused =
        Steps->>= (λ _ u. u ≡ t) _ _
          (Steps-quiet _ (λ u p. p) (Quiet-lift (env.installation r.inst_id)))
          λ done.
            Steps->>= {A = ℕ} (λ status u. (u ≡ t) × (status ≢ 204))
              (call env.status (World.get_collaborator r user)) _
              (record { run = λ w e. answered-Post w e _ refl })
              λ status. record { run = λ w p. (p.0, not_collaborator status p.1) }

  module _ (i : CancelVoteInput)
      (stranger : IsStranger (as_u64 i.installation_id) i.repository_full_name i.cancelled_by)
      (t : Table F) where
    Refused-cancel :
        (r : Repo) (b : Bool)
        → Steps (Refused t b) (cancel_if_collaborator env r i b) (λ _ u. u ≡ t) (λ u. u ≡ t)
    unfolding cancel_if_collaborator
    Refused-cancel r false = record { run = λ w p. p.0 }
    Refused-cancel r true = record { run = λ w p. absurd (ground arith) }

    cancel_vote-Steps : Steps (λ u. u ≡ t) (cancel_vote env i) (λ _ u. u ≡ t) (λ u. u ≡ t)
    unfolding cancel_vote
    cancel_vote-Steps =
        Steps->>= (Split t i.repository_full_name) _ _
          (split_full_name-Steps (λ u p. p) i.repository_full_name)
          λ names.
            let r = repo_of (as_u64 i.installation_id) names in
            record {
              run = λ w (p, s).
                  (Steps->>= (Refused t) _ _
                      (user_is_collaborator-Refused r i.cancelled_by (stranger names s) t)
                      (Refused-cancel r)).run
                    w p;
            }

  module _ ⦃num : Float F⦄ (i : CreateVoteInput)
      (stranger : IsStranger (as_u64 i.installation_id) i.repository_full_name i.created_by)
      (t : Table F) where
    Refused-create :
        (r : Repo) (cfg : CfgProfile F) (b : Bool)
        → Steps (Refused t b) (create_if_collaborator env r i cfg b) (λ _ u. u ≡ t) (λ u. u ≡ t)
    unfolding create_if_collaborator
    Refused-create r cfg false =
        Steps-weaken _ (λ u p. p.0) (λ a u p. p)
          (Steps-quiet _ (λ u p. p) (Quiet-refuse env r i.issue_number _))
    Refused-create r cfg true = record { run = λ w p. absurd (ground arith) }

    Refused-create_as :
        (r : Repo)
        → IsOutside r i.created_by
        → (cfg : CfgProfile F)
        → Steps (λ u. u ≡ t) (create_vote_as env r i cfg) (λ _ u. u ≡ t) (λ u. u ≡ t)
    unfolding create_vote_as
    Refused-create_as r outside cfg =
        Steps->>= (Refused t) _ _ (user_is_collaborator-Refused r i.created_by outside t)
          (Refused-create r cfg)

    create_vote-Steps : Steps (λ u. u ≡ t) (create_vote env i) (λ _ u. u ≡ t) (λ u. u ≡ t)
    unfolding create_vote
    create_vote-Steps =
        Steps->>= (Split t i.repository_full_name) _ _
          (split_full_name-Steps (λ u p. p) i.repository_full_name)
          λ names.
            let r = repo_of (as_u64 i.installation_id) names in
            record {
              run = λ w (p, s).
                  (Steps->>= (λ _ u. u ≡ t) _ _
                      (Steps-quiet _ (λ u p. p)
                        (Quiet-profile_get env r (is_some i.organization) i.profile_name))
                      λ cfg.
                        Steps-sum cfg _ _
                          (λ e. Steps-quiet _ (λ u p. p) (Quiet-refuse env r i.issue_number _))
                          (Refused-create_as r (stranger names s))).run
                    w p;
            }

  -- The commands of a user who is no collaborator of the repository that the command names neither open
  -- nor remove a vote, wherever else the user is a collaborator.
  pub table-strangers :
      ⦃num : Float F⦄ (i : CreateVoteInput) (j : CancelVoteInput) (w : World F)
      → IsStranger (as_u64 i.installation_id) i.repository_full_name i.created_by
      → IsStranger (as_u64 j.installation_id) j.repository_full_name j.cancelled_by
      → ((after (create_vote env i w)).table ≡ w.table)
        × ((after (cancel_vote env j w)).table ≡ w.table)
  table-strangers i j w h k = (
    Steps-after _ (create_vote-Steps i h w.table) w refl,
    Steps-after _ (cancel_vote-Steps j k w.table) w refl,
  )

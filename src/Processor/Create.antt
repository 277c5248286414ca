-- ===== src/Processor/Create.antt =====
-- src/processor.rs: what `create_vote` may do to the table.
use gitvote.Prelude.{
  any, ℕ, ◌≡◌, refl, ◌∙◌, subst, Bool, true, false, [], ◌∷◌, ◌++◌, ℤ, arith, count, as_u64,
}
use gitvote.CfgRepo.{CfgProfile}
use gitvote.Cmd.{CreateVoteInput}
use gitvote.Cmd.FromEvent.{is_some}
use gitvote.Db
use gitvote.Db.{has_id, open_of}
use gitvote.Db.Effects.{has_vote_open-free, store_vote-Steps, Quiet-has_vote_open}
use gitvote.Db.Update.{new_row, store_vote}
use gitvote.Float.{Float}
use gitvote.Github.Api.Quiet.{
  Quiet-split_full_name, Quiet-create_check_run, Quiet-user_is_collaborator, Quiet-profile_get,
}
use gitvote.Processor.{
  open_vote, create_if_free, create_if_collaborator, create_vote_as, create_vote,
}
use gitvote.Processor.Quiet.{Quiet-post, Quiet-refuse, Quiet-open_labels, Quiet-when}
use gitvote.World.{World, Env, Repo, repo_of, after, Run, done, fail, panic}
use gitvote.World.Quiet.{Same, Quiet->>=}
use gitvote.World.Steps.{
  Post, Table, Steps, Steps-quiet, Steps->>=, Steps-after, Steps-weaken, Steps-sum,
}

absurd_bool : {A : Type 0} → true ≡ false → A
absurd_bool e = grind arith

module _ {F : Type 0} (i : CreateVoteInput) where
  -- No vote is open on the issue.
  abbrev pub IsFree : Table F → Type 0
  IsFree t = count (open_of i.repository_full_name i.issue_number) t ≡ 0

  -- A table after `create_vote`: nothing changed, or one vote was opened on an issue with none open.
  pub data Opens (t u : Table F) : Type 0 where
    unchanged : u ≡ t → Opens t u
    opened :
        (vote_id now : ℕ) (comment : ℤ) (cfg : CfgProfile F)
        → IsFree t
        → any (has_id vote_id) t ≡ false
        → u ≡ t ++ new_row vote_id now comment i cfg ∷ []
        → Opens t u

  stored-Post :
      {A : Type 0} (t : Table F) (comment : ℤ) (cfg : CfgProfile F) (r : Run F A)
      → IsFree t
      → Post
          (λ a u.
            (vote_id now : ℕ) × (any (has_id vote_id) t ≡ false)
            × (u ≡ t ++ new_row vote_id now comment i cfg ∷ []))
          (λ u. u ≡ t)
          r
      → Post (λ _. Opens t) (Opens t) r
  stored-Post t comment cfg (done a w) free (vote_id, now, own, e) =
      opened vote_id now comment cfg free own e
  stored-Post t comment cfg (fail e w) free p = unchanged p
  stored-Post t comment cfg (panic w) free p = unchanged p

  store_run :
      (env : Env F) (cfg : CfgProfile F) (t : Table F) (comment : ℤ) (w : World F)
      → (w.table ≡ t) × IsFree t
      → Post (λ _. Opens t) (Opens t) (store_vote env comment i cfg w)
  store_run env cfg t comment w (e, free) =
      stored-Post t comment cfg _ free ((store_vote-Steps env comment i cfg t).run w e)

  -- What the answer to `has_vote_open` says.
  abbrev Answer : Table F → Bool → Table F → Type 0
  Answer t b u = (u ≡ t) × (b ≡ false → IsFree t)

  Answer-Post :
      (env : Env F) (t : Table F) (w : World F)
      → w.table ≡ t
      → (r : Run F Bool) → Db.has_vote_open env i.repository_full_name i.issue_number w ≡ r
      → Same w (after r)
      → Post (Answer t) (Opens t) r
  Answer-Post env t w e (done true v) h s = (s.table ∙ e, λ b. absurd_bool b)
  Answer-Post env t w e (done false v) h s =
      let free = has_vote_open-free env i.repository_full_name i.issue_number w v h in
      (s.table ∙ e, λ b. subst IsFree e free.1)
  Answer-Post env t w e (fail x v) h s = unchanged (s.table ∙ e)
  Answer-Post env t w e (panic v) h s = unchanged (s.table ∙ e)

  module _ (env : Env F) (r : Repo) (cfg : CfgProfile F) (t : Table F) where
    open_vote-Opens :
        Steps (λ u. (u ≡ t) × IsFree t) (open_vote env r i cfg) (λ _. Opens t) (Opens t)
    unfolding open_vote
    open_vote-Opens =
        Steps->>= (λ _ u. (u ≡ t) × IsFree t) _ _
          (Steps-quiet _ (λ u p. unchanged p.0) (Quiet-post env r i.issue_number _))
          λ comment.
            Steps->>= (λ _. Opens t) _ _ (record { run = store_run env cfg t comment })
              λ vote_id.
                Steps-quiet _ (λ u p. p)
                  (Quiet->>= _ _
                    (Quiet-when env i.is_pull_request _
                      (Quiet-create_check_run env r i.issue_number _))
                    λ u. Quiet-open_labels env r i.issue_number)

    create_if_free-Opens :
        (b : Bool) → Steps (Answer t b) (create_if_free env r i cfg b) (λ _. Opens t) (Opens t)
    unfolding create_if_free
    create_if_free-Opens true =
        Steps-weaken _ (λ u p. p) (λ a u p. unchanged p.0)
          (Steps-quiet _ (λ u p. unchanged p.0) (Quiet-refuse env r i.issue_number _))
    create_if_free-Opens false =
        Steps-weaken _ (λ u p. (p.0, p.1 refl)) (λ a u p. p) open_vote-Opens

    create_if_collaborator-Opens :
        (b : Bool)
        → Steps (λ u. u ≡ t) (create_if_collaborator env r i cfg b) (λ _. Opens t) (Opens t)
    unfolding create_if_collaborator
    create_if_collaborator-Opens false =
        Steps-weaken _ (λ u p. p) (λ a u p. unchanged p)
          (Steps-quiet _ (λ u p. unchanged p) (Quiet-refuse env r i.issue_number _))
    create_if_collaborator-Opens true =
        Steps->>= (Answer t) _ _
          (record {
            run = λ w e.
                Answer-Post env t w e _ refl
                  ((Quiet-has_vote_open env i.repository_full_name i.issue_number).same w);
          })
          create_if_free-Opens

    create_vote_as-Opens : Steps (λ u. u ≡ t) (create_vote_as env r i cfg) (λ _. Opens t) (Opens t)
    unfolding create_vote_as
    create_vote_as-Opens =
        Steps->>= (λ _ u. u ≡ t) _ _
          (Steps-quiet _ (λ u p. unchanged p) (Quiet-user_is_collaborator env r i.created_by))
          create_if_collaborator-Opens

  module _ ⦃num : Float F⦄ (env : Env F) where
    create_vote-Steps :
        (t : Table F) → Steps (λ u. u ≡ t) (create_vote env i) (λ _. Opens t) (Opens t)
    unfolding create_vote
    create_vote-Steps t =
        Steps->>= (λ _ u. u ≡ t) _ _
          (Steps-quiet _ (λ u p. unchanged p) (Quiet-split_full_name i.repository_full_name))
          λ names.
            let r = repo_of (as_u64 i.installation_id) names in
            Steps->>= (λ _ u. u ≡ t) _ _
              (Steps-quiet _ (λ u p. unchanged p)
                (Quiet-profile_get env r (is_some i.organization) i.profile_name))
              λ cfg.
                Steps-sum cfg _ _
                  (λ e.
                    Steps-weaken _ (λ u p. p) (λ a u p. unchanged p)
                      (Steps-quiet _ (λ u p. unchanged p) (Quiet-refuse env r i.issue_number _)))
                  λ cfg. create_vote_as-Opens env r cfg t

    -- `create_vote` leaves the table as it is, or it appends one open vote on the issue of the
    -- command, on which no vote was open, under an id that no row has.
    pub create_vote-Opens : (w : World F) → Opens w.table (after (create_vote env i w)).table
    create_vote-Opens w = Steps-after _ (create_vote-Steps w.table) w refl

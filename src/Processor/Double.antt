-- ===== src/Processor/Double.antt =====
-- src/processor.rs: two commands to create a vote for one issue that are handled at the same time.
use gitvote.World.Quiet.{Quiet-pure, Quiet, Same, Quiet->>=}
use gitvote.Cmd.FromEvent.{is_some}
use gitvote.Db.Update.{store_vote, new_row}
use gitvote.Db.Effects.{has_vote_open-free, store_vote-Steps, Quiet-has_vote_open}
use gitvote.Github.Api.Quiet.{
  Quiet-create_check_run, Quiet-user_is_collaborator, Quiet-profile_get, Quiet-split_full_name,
}
use gitvote.Prelude.{
  none, refl, ℕ, Bool, Option, ◌∙◌, to_ℕ, ap, true, arith, [], ◌∷◌, as_u64, suc, ◌++◌, count, inr,
  any, subst, inl, ℤ, false, some, ◌≡◌, ◌⊎◌, Str,
}
use gitvote.Float.{Float}
use gitvote.Processor.Create.{IsFree}
use gitvote.Processor.Race.{
  refused, decide, decide_as, decide_if_collaborator, decide_if_free, open_decided,
}
use gitvote.Processor.Quiet.{Quiet-post, Quiet-refuse, Quiet-open_labels, Quiet-when}
use gitvote.Processor.Single.{count-append}
use gitvote.Processor.{open_vote}
use gitvote.Db
use gitvote.Tmpl
use gitvote.CfgRepo.{CfgError, CfgProfile}
use gitvote.Cmd.{CreateVoteInput}
use gitvote.Db.{is_open, is_of_issue, has_id, open_of}
use gitvote.World.{World, Env, Repo, repo_of, Run, done, fail, panic, after}
use gitvote.World.Steps.{Table, Post, Steps, Steps->>=, Steps-quiet}

module _ {F : Type 0} (i : CreateVoteInput) (t : Table F) where
  IsAdded : Table F → Type 0
  IsAdded u =
      (vote_id now : ℕ) × (comment : ℤ) × (cfg : CfgProfile F) × (u
        ≡ t ++ new_row vote_id now comment i cfg ∷ [])

  -- What is true after the first phase, if it answers that a vote is to be created.
  abbrev Decided : Option (Repo × CfgProfile F) → Table F → Type 0
  Decided none u = u ≡ t
  Decided (some a) u = (u ≡ t) × IsFree i t

  abbrev Any : Table F → Type 0
  Any u = Unit

  module _ (env : Env F) where
    answer-Post :
        (w : World F) (r : Run F Bool)
        → w.table ≡ t
        → Db.has_vote_open env i.repository_full_name i.issue_number w ≡ r
        → Same w (after r)
        → Post (λ b u. (u ≡ t) × (b ≡ false → IsFree i t)) Any r
    answer-Post w (done true v) e h s = (s.table ∙ e, λ b. absurd (ground arith))
    answer-Post w (done false v) e h s = (
      s.table ∙ e,
      λ b.
          subst (IsFree i) e (has_vote_open-free env i.repository_full_name i.issue_number w v h).1,
    )
    answer-Post w (fail x v) e h s = tt
    answer-Post w (panic v) e h s = tt

    Quiet-refused :
        (r : Repo) (template : Tmpl.Template F) → Quiet (refused env r i.issue_number template)
    Quiet-refused r template =
        Quiet->>= _ _ (Quiet-refuse env r i.issue_number template) λ u. Quiet-pure none

    refused-Decided :
        (r : Repo) (template : Tmpl.Template F)
        → Steps (λ u. u ≡ t) (refused env r i.issue_number template) Decided Any
    refused-Decided r template =
        Steps->>= (λ _ u. u ≡ t) _ _
          (Steps-quiet _ (λ u p. tt) (Quiet-refuse env r i.issue_number template))
          λ u. record { run = λ w p. p }

    decide_if_free-Decided :
        (r : Repo) (cfg : CfgProfile F) (b : Bool)
        → Steps (λ u. (u ≡ t) × (b ≡ false → IsFree i t)) (decide_if_free env r i cfg b) Decided Any
    decide_if_free-Decided r cfg true = record { run = λ w (p, k). (refused-Decided r _).run w p }
    decide_if_free-Decided r cfg false = record { run = λ w (p, k). (p, k refl) }

    decide_if_collaborator-Decided :
        (r : Repo) (cfg : CfgProfile F) (b : Bool)
        → Steps (λ u. u ≡ t) (decide_if_collaborator env r i cfg b) Decided Any
    decide_if_collaborator-Decided r cfg false = refused-Decided r _
    decide_if_collaborator-Decided r cfg true =
        Steps->>= (λ b u. (u ≡ t) × (b ≡ false → IsFree i t)) _ _
          (record {
            run = λ w e.
                answer-Post w _ e refl
                  ((Quiet-has_vote_open env i.repository_full_name i.issue_number).same w);
          })
          (decide_if_free-Decided r cfg)

    decide_as-Decided :
        (r : Repo) (cfg : CfgError ⊎ CfgProfile F)
        → Steps (λ u. u ≡ t) (decide_as env r i cfg) Decided Any
    decide_as-Decided r (inl e) = refused-Decided r _
    decide_as-Decided r (inr cfg) =
        Steps->>= (λ _ u. u ≡ t) _ _
          (Steps-quiet _ (λ u p. tt) (Quiet-user_is_collaborator env r i.created_by))
          (decide_if_collaborator-Decided r cfg)

    decide-Decided : ⦃num : Float F⦄ → Steps (λ u. u ≡ t) (decide env i) Decided Any
    unfolding decide
    decide-Decided =
        Steps->>= (λ _ u. u ≡ t) _ _
          (Steps-quiet _ (λ u p. tt) (Quiet-split_full_name i.repository_full_name))
          λ names.
            Steps->>= (λ _ u. u ≡ t) _ _
              (Steps-quiet _ (λ u p. tt)
                (Quiet-profile_get env (repo_of (as_u64 i.installation_id) names)
                  (is_some i.organization) i.profile_name))
              (decide_as-Decided (repo_of (as_u64 i.installation_id) names))

    -- An opening that ends without an error has stored the vote.
    open_vote-IsAdded :
        (r : Repo) (cfg : CfgProfile F)
        → Steps (λ u. u ≡ t) (open_vote env r i cfg) (λ _. IsAdded) Any
    unfolding open_vote IsAdded
    open_vote-IsAdded r cfg =
        Steps->>= (λ _ u. u ≡ t) _ _ (Steps-quiet _ (λ u p. tt) (Quiet-post env r i.issue_number _))
          λ comment.
            Steps->>= (λ _. IsAdded) (store_vote env comment i cfg) _
              (record {
                run = λ w e. stored comment cfg _ ((store_vote-Steps env comment i cfg t).run w e);
              })
              λ vote_id.
                Steps-quiet _ (λ u p. tt)
                  (Quiet->>= _ _
                    (Quiet-when env i.is_pull_request _
                      (Quiet-create_check_run env r i.issue_number _))
                    λ u. Quiet-open_labels env r i.issue_number)
      where
        stored :
            {A : Type 0} (comment : ℤ) (cfg : CfgProfile F) (r : Run F A)
            → Post
                (λ a u.
                  (vote_id now : ℕ) × (any (has_id vote_id) t ≡ false)
                  × (u ≡ t ++ new_row vote_id now comment i cfg ∷ []))
                (λ u. u ≡ t)
                r
            → Post (λ _. IsAdded) Any r
        stored comment cfg (done a w) (vote_id, now, own, e) = (vote_id, now, comment, cfg, e)
        stored comment cfg (fail e w) p = tt
        stored comment cfg (panic w) p = tt

module _ (name : Str) (n : ℤ) (i : CreateVoteInput) where
  -- The command is for the issue `n` of the repository `name`.
  abbrev pub IsFor : Type 0
  IsFor = (i.repository_full_name ≡ name) × (i.issue_number ≡ n)

  module _ {F : Type 0} where
    new_row-counts :
        (vote_id now : ℕ) (comment : ℤ) (cfg : CfgProfile F)
        → IsFor
        → open_of name n (new_row vote_id now comment i cfg) ≡ true
    unfolding new_row is_of_issue is_open
    new_row-counts vote_id now comment cfg (e, e') = ground (arith, e, e')

    count-IsAdded :
        (t u : Table F)
        → IsFor
        → IsAdded i t u
        → count (open_of name n) u ≡ suc (count (open_of name n) t)
    unfolding IsAdded
    count-IsAdded t u h (vote_id, now, comment, cfg, e) = omega (
      arith,
      ap (count (open_of name n)) e,
      count-append (open_of name n) t (new_row vote_id now comment i cfg ∷ []),
      ap to_ℕ (new_row-counts vote_id now comment cfg h),
    )

    IsFree-IsFor : (t : Table F) → IsFor → IsFree i t → count (open_of name n) t ≡ 0
    IsFree-IsFor t (e, e') free =
        subst (λ m. count (open_of m n) t ≡ 0) e
          (subst (λ k. count (open_of i.repository_full_name k) t ≡ 0) e' free)

module _ {F : Type 0} ⦃num : Float F⦄ (env : Env F) where
  done-Post :
      {A : Type 0} (Q : A → Table F → Type 0) (R : Table F → Type 0) (r : Run F A) (a : A)
      (v : World F)
      → r ≡ done a v
      → Post Q R r
      → Q a v.table
  done-Post Q R r a v e p = subst (Post Q R) e p

  -- Two commands to create a vote for one issue are handled at the same time: both have decided to
  -- create it before either stores it. If both end without an error, the issue has two open votes.
  pub two_open_votes :
      (name : Str) (n : ℤ) (i j : CreateVoteInput) (a b : Repo × CfgProfile F)
      (w w1 w2 w3 w4 : World F)
      → IsFor name n i
      → IsFor name n j
      → decide env i w ≡ done (some a) w1
      → decide env j w1 ≡ done (some b) w2
      → open_decided env i (some a) w2 ≡ done tt w3
      → open_decided env j (some b) w3 ≡ done tt w4
      → count (open_of name n) w4.table ≡ 2
  unfolding open_decided
  two_open_votes name n i j a b w w1 w2 w3 w4 for_i for_j first second third fourth =
      let (same, free) =
        done-Post (Decided i w.table) (Any i w.table) _ (some a) w1 first
          ((decide-Decided i w.table env).run w refl) in
      let (same', free') =
        done-Post (Decided j w1.table) (Any j w1.table) _ (some b) w2 second
          ((decide-Decided j w1.table env).run w1 refl) in
      let one =
        done-Post (λ _. IsAdded i w2.table) (Any i w2.table) _ tt w3 third
          ((open_vote-IsAdded i w2.table env a.0 a.1).run w2 refl) in
      let two =
        done-Post (λ _. IsAdded j w3.table) (Any j w3.table) _ tt w4 fourth
          ((open_vote-IsAdded j w3.table env b.0 b.1).run w3 refl) in
      omega (
        arith,
        count-IsAdded name n i w2.table w3.table for_i one,
        count-IsAdded name n j w3.table w4.table for_j two,
        ap (count (open_of name n)) (same' ∙ same),
        IsFree-IsFor name n i w.table for_i free,
      )

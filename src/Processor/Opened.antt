-- ===== src/Processor/Opened.antt =====
-- src/processor.rs: a command to create a vote that does open one.
use gitvote.CfgRepo.Load.{profile_get}
use gitvote.CfgRepo.{CfgProfile}
use gitvote.Cmd.FromEvent.{is_some}
use gitvote.Cmd.{CreateVoteInput}
use gitvote.Db
use gitvote.Db.{has_id, open_of, rows, statement}
use gitvote.Db.Effects.{Quiet-statement}
use gitvote.Db.Update.{insert_if, insert_new, new_row, random_uuid, store_vote}
use gitvote.Float.{Float}
use gitvote.Github.Api.Quiet.{Quiet-create_check_run, Quiet-profile_get}
use gitvote.Github.Api.{client, post_comment, user_is_collaborator}
use gitvote.Github.Names.{char_eq, split_full_name}
use gitvote.Github.{ok}
use gitvote.Prelude.{
  ℕ_discrete, not, ℕ, ℤ, ◌≡◌, refl, ap, ◌∙◌, subst, inr, Bool, true, false, none, List, [], ◌∷◌,
  ◌++◌, Str, any, count, select, is_empty, as_u64, arith,
}
use gitvote.Processor.Create.{IsFree}
use gitvote.Processor.Quiet.{Quiet-open_labels, Quiet-post, Quiet-when}
use gitvote.Processor.{
  create_if_collaborator, create_if_free, create_vote, create_vote_as, open_vote, post,
}
use gitvote.Tmpl.{Template}
use gitvote.World.Quiet.{Same, Quiet-pure, Quiet->>=}
use gitvote.World.Returns.{
  Returns, Returns->>=, Returns-lift, Returns-call, Returns-pure, Steps-returns,
}
use gitvote.World.Steps.{Post, Steps, Steps->>=, Steps-after, Steps-quiet, Table}
use gitvote.World.{
  call, get_collaborator, pure, World, Env, Repo, repo_of, Query, query, Trace, Call, done, after,
}

-- GitHub posts comments, the templates render, and the database answers.
pub record Answers {F : Type 0} (env : Env F) : Type 0 where
  pub installation : (id : ℕ) → env.installation id ≡ ok tt
  pub comment : (trace : Trace) (c : Call) → (id : ℕ) × (env.comment_id trace c ≡ ok id)
  pub render : (template : Template F) → (text : Str) × (env.render template ≡ ok text)
  pub database : (trace : Trace) (c : Call) → env.db_error trace c ≡ none

none_found :
    {A : Type 0} (p : A → Bool) (xs : List A) → count p xs ≡ 0 → is_empty (select p xs) ≡ true
none_found p [] h = refl
none_found p (x ∷ xs) h = ground (arith, none_found p xs)

module _ {F : Type 0} (i : CreateVoteInput) (t : Table F) where
  -- The table has one row more, of the vote that the command asks for.
  abbrev pub Opened : CfgProfile F → Table F → Type 0
  Opened cfg u =
      (vote_id now : ℕ) × (comment : ℤ) × (u ≡ t ++ new_row vote_id now comment i cfg ∷ [])

module _ {F : Type 0} (env : Env F) (up : Answers env) (i : CreateVoteInput) (t : Table F)
    (free : IsFree i t)
    (fresh : (trace : Trace) → any (has_id (env.random_uuid trace)) t ≡ false) where
  Returns-statement : (q : Query) → Returns (statement env q)
  unfolding statement
  Returns-statement q = record { returns = λ w. rw (up.database w.trace (query q)) tt }

  Returns-client : (id : ℕ) → Returns (client env id)
  unfolding client
  Returns-client id = Returns-lift (env.installation id) tt (up.installation id)

  Returns-post : (r : Repo) (n : ℤ) (template : Template F) → Returns (post env r n template)
  unfolding post post_comment
  Returns-post r n template =
      let (text, e) = up.render template in
      Returns->>= _ _ (Returns-lift (env.render template) text e) λ body.
        Returns->>= _ _ (Returns-client r.inst_id) λ u.
          Returns->>= _ _ (Returns-call env.comment_id _ (λ trace. up.comment trace _))
            λ id. Returns-pure _

  module _ (cfg : CfgProfile F) where
    insert_if-Opened :
        (comment : ℤ) (vote_id now : ℕ) (w : World F) (b : Bool)
        → w.table ≡ t
        → b ≡ false
        → Post
            (λ u. Opened i t cfg)
            (Opened i t cfg)
            (insert_if env b (new_row vote_id now comment i cfg) w)
    insert_if-Opened comment vote_id now w true p h = absurd (ground arith)
    insert_if-Opened comment vote_id now w false p h =
        (vote_id, now, comment, ap (λ u. u ++ new_row vote_id now comment i cfg ∷ []) p)

    store_vote-Opened :
        (comment : ℤ)
        → Steps (λ u. u ≡ t) (store_vote env comment i cfg) (λ id. Opened i t cfg) (Opened i t cfg)
    unfolding store_vote insert_new new_row
    store_vote-Opened comment =
        Steps->>= (λ _ u. u ≡ t) _ _
          (Steps-returns _ (Quiet-statement env Query.store_vote)
            (Returns-statement Query.store_vote))
          λ done.
            Steps->>= (λ _ u. u ≡ t) (Db.db_now env) _ (record { run = λ w p. p })
              λ now.
                Steps->>= (λ id u. (u ≡ t) × (any (has_id id) t ≡ false)) (random_uuid env) _
                  (record { run = λ w p. (p, fresh w.trace) })
                  λ vote_id.
                    Steps->>= (λ _. Opened i t cfg)
                      (insert_new env (new_row vote_id now comment i cfg)) (λ u. pure vote_id)
                      (record {
                        run = λ w (p, f).
                            insert_if-Opened comment vote_id now w (any (has_id vote_id) w.table) p
                              (ap (any (has_id vote_id)) p ∙ f);
                      })
                      λ u. Steps-quiet _ (λ v p. p) (Quiet-pure vote_id)

    module _ (r : Repo) where
      open_vote-Opened :
          Steps (λ u. u ≡ t) (open_vote env r i cfg) (λ _. Opened i t cfg) (Opened i t cfg)
      unfolding open_vote
      open_vote-Opened =
          Steps->>= (λ _ u. u ≡ t) _ _
            (Steps-returns _ (Quiet-post env r i.issue_number _) (Returns-post r i.issue_number _))
            λ comment.
              Steps->>= (λ _. Opened i t cfg) _ _ (store_vote-Opened comment)
                λ vote_id.
                  Steps-quiet _ (λ u p. p)
                    (Quiet->>= _ _
                      (Quiet-when env i.is_pull_request _
                        (Quiet-create_check_run env r i.issue_number _))
                      λ u. Quiet-open_labels env r i.issue_number)

      has_vote_open-no :
          Steps
            (λ u. u ≡ t)
            (Db.has_vote_open env i.repository_full_name i.issue_number)
            (λ b u. (u ≡ t) × (b ≡ false))
            (Opened i t cfg)
      unfolding Db.has_vote_open
      has_vote_open-no =
          let mine = open_of i.repository_full_name i.issue_number in
          Steps->>= (λ _ u. u ≡ t) _ _
            (Steps-returns _ (Quiet-statement env Query.has_vote_open)
              (Returns-statement Query.has_vote_open))
            λ done.
              Steps->>= (λ found u. (u ≡ t) × (found ≡ select mine t)) (rows env mine)
                (λ found. pure (not (is_empty found)))
                (record { run = λ w p. (p, ap (select mine) p) })
                λ found. record {
                  run = λ w (p, e).
                      (p, ap (λ xs. not (is_empty xs)) e ∙ ap not (none_found mine t free));
                }

      create_if_free-Opened :
          (b : Bool)
          → Steps
              (λ u. (u ≡ t) × (b ≡ false))
              (create_if_free env r i cfg b)
              (λ _. Opened i t cfg)
              (Opened i t cfg)
      unfolding create_if_free
      create_if_free-Opened true = record { run = λ w (p, e). absurd (ground arith) }
      create_if_free-Opened false = record { run = λ w (p, e). open_vote-Opened.run w p }

      module _
          (member : (trace : Trace)
            → env.status trace (get_collaborator r i.created_by) ≡ ok 204) where
        create_if_collaborator-Opened :
            (b : Bool)
            → Steps
                (λ u. (u ≡ t) × (b ≡ true))
                (create_if_collaborator env r i cfg b)
                (λ _. Opened i t cfg)
                (Opened i t cfg)
        unfolding create_if_collaborator
        create_if_collaborator-Opened true = record {
          run = λ w (p, e).
              (Steps->>= {R = Opened i t cfg} (λ b u. (u ≡ t) × (b ≡ false)) _ _ has_vote_open-no
                  create_if_free-Opened).run
                w p;
        }
        create_if_collaborator-Opened false = record { run = λ w (p, e). absurd (ground arith) }

        user_is_collaborator-yes :
            Steps
              (λ u. u ≡ t)
              (user_is_collaborator env r i.created_by)
              (λ b u. (u ≡ t) × (b ≡ true))
              (Opened i t cfg)
        unfolding user_is_collaborator client call char_eq ℕ_discrete
        user_is_collaborator-yes = record {
          run = λ w p. rw (up.installation r.inst_id, member w.trace) (p, refl);
        }

        create_vote_as-Opened :
            Steps (λ u. u ≡ t) (create_vote_as env r i cfg) (λ _. Opened i t cfg) (Opened i t cfg)
        unfolding create_vote_as
        create_vote_as-Opened =
            Steps->>= (λ b u. (u ≡ t) × (b ≡ true)) _ _ user_is_collaborator-yes
              create_if_collaborator-Opened

-- A command of a collaborator to create a vote on an issue that has none open does open it, with the
-- profile that the configuration gives, if the database and GitHub answer and the new id is not in
-- use. What becomes of the check and the labels after that does not matter.
pub create_vote-Opened :
    {F : Type 0} ⦃num : Float F⦄ (env : Env F) (up : Answers env) (i : CreateVoteInput)
    (cfg : CfgProfile F) (names : Str × Str) (w u : World F)
    → IsFree i w.table
    → ((trace : Trace) → any (has_id (env.random_uuid trace)) w.table ≡ false)
    → split_full_name i.repository_full_name w ≡ done names w
    → profile_get env
        (repo_of (as_u64 i.installation_id) names)
        (is_some i.organization)
        i.profile_name
        w
      ≡ done (inr cfg) u
    → ((trace : Trace)
        → env.status trace
            (get_collaborator (repo_of (as_u64 i.installation_id) names) i.created_by)
          ≡ ok 204)
    → Opened i w.table cfg (after (create_vote env i w)).table
unfolding create_vote
create_vote-Opened env up i cfg names w u free fresh split profile member =
    let r = repo_of (as_u64 i.installation_id) names in
    let same =
      subst (λ x. Same w (after x)) profile
        ((Quiet-profile_get env r (is_some i.organization) i.profile_name).same w) in
    rw (split, profile)
      (Steps-after (create_vote_as env r i cfg)
        (create_vote_as-Opened env up i w.table free fresh cfg r member) u same.table)

-- ===== src/Processor/Queue.antt =====
-- src/processor.rs: the commands' handlers leave the queue of commands alone.
use gitvote.Cmd.FromEvent.{is_some}
use gitvote.Db.{has_id, update_where, modify, open_of}
use gitvote.System.Single.{after_ignored}
use gitvote.Processor.Commands.{Quiet-cancel_outcome}
use gitvote.World.Quiet.{Quiet-pure, Quiet->>=}
use gitvote.Db.Effects.{
  Quiet-query_opt, Quiet-rows, Quiet-now, Quiet-has_vote_open, Quiet-get_open_vote, Quiet-statement,
}
use gitvote.Github.Api.Quiet.{
  Quiet-calculate, Quiet-profile_get, Quiet-create_check_run, Quiet-user_is_collaborator,
  Quiet-split_full_name,
}
use gitvote.CfgRepo.{CfgProfile}
use gitvote.Results.{Vote}
use gitvote.Float.{Float}
use gitvote.Cmd.{CheckVoteInput, Command, CreateVoteInput, CancelVoteInput}
use gitvote.World.{Query, repo_of, Repo, Row, Env}
use gitvote.Prelude.{not, select, map, ◌∙◌, as_u64, ap, Bool, ℕ, ℤ, Str, refl, true, false}
use gitvote.Db
use gitvote.Db.Update.{
  check_row, new_row, random_uuid, insert_new, store_vote, insert_if, update_vote_last_check,
}
use gitvote.Processor.{
  open_vote, create_if_free, create_if_collaborator, create_vote_as, create_vote,
  cancel_if_collaborator, cancel_vote, check_unless_recent, check_open_vote, check_vote,
  checked_recently, clock,
}
use gitvote.Processor.Quiet.{Quiet-post, Quiet-refuse, Quiet-open_labels, Quiet-when}
use gitvote.Processor.Workers.{execute, handle}
use gitvote.World.Queue.{Unqueued, Unqueued-Quiet, Unqueued->>=, Unqueued-option, Unqueued-sum}
use gitvote.Cmd

module _ {F : Type 0} (env : Env F) where
  insert_if-Unqueued : (b : Bool) (row : Row F) → Unqueued (insert_if env b row)
  insert_if-Unqueued true row = record { queue = λ w. refl }
  insert_if-Unqueued false row = record { queue = λ w. refl }

  insert_new-Unqueued : (row : Row F) → Unqueued (insert_new env row)
  unfolding insert_new
  insert_new-Unqueued row = record { queue = λ w. (insert_if-Unqueued _ row).queue w }

  store_vote-Unqueued :
      (comment : ℤ) (i : CreateVoteInput) (cfg : CfgProfile F)
      → Unqueued (store_vote env comment i cfg)
  unfolding store_vote
  store_vote-Unqueued comment i cfg =
      Unqueued->>= _ _ (Unqueued-Quiet _ (Quiet-statement env Query.store_vote)) λ u.
        Unqueued->>= _ _ (Unqueued-Quiet _ (Quiet-now env)) λ now.
          Unqueued->>= (random_uuid env) _ (record { queue = λ w. refl })
            λ vote_id.
              Unqueued->>= _ _ (insert_new-Unqueued (new_row vote_id now comment i cfg))
                λ done. Unqueued-Quiet _ (Quiet-pure vote_id)

  update_vote_last_check-Unqueued : (vote_id : ℕ) → Unqueued (update_vote_last_check env vote_id)
  unfolding update_vote_last_check
  update_vote_last_check-Unqueued vote_id =
      Unqueued->>= _ _ (Unqueued-Quiet _ (Quiet-statement env Query.update_vote_last_check)) λ u.
        Unqueued->>= _ (λ now. modify env (update_where (has_id vote_id) (check_row now)))
          (Unqueued-Quiet _ (Quiet-now env)) λ now. record { queue = λ w. refl }

  delete-Unqueued : (name : Str) (n : ℤ) → Unqueued (Db.cancel_vote env name n)
  unfolding Db.cancel_vote
  delete-Unqueued name n =
      Unqueued->>= _ _ (Unqueued-Quiet _ (Quiet-statement env Query.cancel_vote)) λ u.
        Unqueued->>= _ _ (Unqueued-Quiet _ (Quiet-rows env (open_of name n))) λ deleted.
          Unqueued->>= (modify env (select (λ row. not (open_of name n row)))) _
            (record { queue = λ w. refl })
            λ u. Unqueued-Quiet _ (Quiet-query_opt (map (λ row. row.vote_id) deleted))

  module _ (i : CreateVoteInput) (r : Repo) (cfg : CfgProfile F) where
    open_vote-Unqueued : Unqueued (open_vote env r i cfg)
    unfolding open_vote
    open_vote-Unqueued =
        Unqueued->>= _ _ (Unqueued-Quiet _ (Quiet-post env r i.issue_number _)) λ comment.
          Unqueued->>= _ _ (store_vote-Unqueued comment i cfg) λ vote_id. Unqueued-Quiet _ (
            Quiet->>= _ _
              (Quiet-when env i.is_pull_request _ (Quiet-create_check_run env r i.issue_number _))
              λ u. Quiet-open_labels env r i.issue_number)

    create_if_free-Unqueued : (b : Bool) → Unqueued (create_if_free env r i cfg b)
    unfolding create_if_free
    create_if_free-Unqueued true = Unqueued-Quiet _ (Quiet-refuse env r i.issue_number _)
    create_if_free-Unqueued false = open_vote-Unqueued

    create_if_collaborator-Unqueued : (b : Bool) → Unqueued (create_if_collaborator env r i cfg b)
    unfolding create_if_collaborator
    create_if_collaborator-Unqueued false = Unqueued-Quiet _ (Quiet-refuse env r i.issue_number _)
    create_if_collaborator-Unqueued true =
        Unqueued->>= _ _
          (Unqueued-Quiet _ (Quiet-has_vote_open env i.repository_full_name i.issue_number))
          create_if_free-Unqueued

    create_vote_as-Unqueued : Unqueued (create_vote_as env r i cfg)
    unfolding create_vote_as
    create_vote_as-Unqueued =
        Unqueued->>= _ _ (Unqueued-Quiet _ (Quiet-user_is_collaborator env r i.created_by))
          create_if_collaborator-Unqueued

  module _ (i : CancelVoteInput) where
    cancel_if_collaborator-Unqueued :
        (r : Repo) (b : Bool) → Unqueued (cancel_if_collaborator env r i b)
    unfolding cancel_if_collaborator
    cancel_if_collaborator-Unqueued r false = Unqueued-Quiet _ (Quiet-pure tt)
    cancel_if_collaborator-Unqueued r true =
        Unqueued->>= _ _ (delete-Unqueued i.repository_full_name i.issue_number)
          λ id. Unqueued-Quiet _ (Quiet-cancel_outcome env i r id)

    cancel_vote-Unqueued : Unqueued (cancel_vote env i)
    unfolding cancel_vote
    cancel_vote-Unqueued =
        Unqueued->>= _ _ (Unqueued-Quiet _ (Quiet-split_full_name i.repository_full_name)) λ names.
          Unqueued->>= _ _ (Unqueued-Quiet _ (Quiet-user_is_collaborator env _ i.cancelled_by))
            λ b. cancel_if_collaborator-Unqueued _ b

  module _ ⦃num : Float F⦄ where
    create_vote-Unqueued : (i : CreateVoteInput) → Unqueued (create_vote env i)
    unfolding create_vote
    create_vote-Unqueued i =
        Unqueued->>= _ _ (Unqueued-Quiet _ (Quiet-split_full_name i.repository_full_name)) λ names.
          let r = repo_of (as_u64 i.installation_id) names in
          Unqueued->>= _ _
            (Unqueued-Quiet _ (Quiet-profile_get env r (is_some i.organization) i.profile_name))
            λ cfg.
              Unqueued-sum cfg _ _ (λ e. Unqueued-Quiet _ (Quiet-refuse env r i.issue_number _))
                λ cfg. create_vote_as-Unqueued i r cfg

    check_unless_recent-Unqueued :
        (names : Str × Str) (vote : Vote F) (b : Bool)
        → Unqueued (check_unless_recent env names vote b)
    unfolding check_unless_recent
    check_unless_recent-Unqueued names vote true =
        Unqueued-Quiet _
          (Quiet-refuse env (repo_of (as_u64 vote.installation_id) names) vote.issue_number _)
    check_unless_recent-Unqueued names vote false =
        Unqueued->>= _ _ (Unqueued-Quiet _ (Quiet-calculate env names vote)) λ results.
          Unqueued->>= _ _
            (Unqueued-Quiet _
              (Quiet-post env (repo_of (as_u64 vote.installation_id) names) vote.issue_number _))
            λ id. update_vote_last_check-Unqueued vote.vote_id

    check_open_vote-Unqueued : (vote : Vote F) → Unqueued (check_open_vote env vote)
    unfolding check_open_vote
    check_open_vote-Unqueued vote =
        Unqueued->>= _ _ (Unqueued-Quiet _ (Quiet-split_full_name vote.repository_full_name))
          λ names.
            Unqueued->>= (clock env) _ (record { queue = λ w. refl })
              λ now.
                check_unless_recent-Unqueued names vote (checked_recently env now vote.checked_at)

    check_vote-Unqueued : (i : CheckVoteInput) → Unqueued (check_vote env i)
    unfolding check_vote
    check_vote-Unqueued i =
        Unqueued->>= _ _
          (Unqueued-Quiet _ (Quiet-get_open_vote env i.repository_full_name i.issue_number))
          λ vote.
            Unqueued-option vote _ _ (Unqueued-Quiet _ (Quiet-pure tt)) check_open_vote-Unqueued

    execute-Unqueued : (cmd : Command) → Unqueued (execute env cmd)
    execute-Unqueued (Cmd.create_vote i) = create_vote-Unqueued i
    execute-Unqueued (Cmd.cancel_vote i) = cancel_vote-Unqueued i
    execute-Unqueued (Cmd.check_vote i) = check_vote-Unqueued i

    -- No command adds a command to the queue.
    pub handle-Unqueued : (cmd : Command) → Unqueued (handle env cmd)
    unfolding handle
    handle-Unqueued cmd = record {
      queue = λ w.
          ap (λ v. v.queue) (after_ignored (execute env cmd w)) ∙ (execute-Unqueued cmd).queue w;
    }

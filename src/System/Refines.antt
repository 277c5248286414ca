-- ===== src/System/Refines.antt =====
-- The running service refines the life cycle of the votes in Db/Moves.antt.
use gitvote.Db.Changes.{without_end}
use gitvote.Db.Edits.{Edits-Anything}
use gitvote.Cmd
use gitvote.Cmd.{Command, CreateVoteInput}
use gitvote.CfgRepo.{CfgProfile}
use gitvote.Db.Changes
use gitvote.Db.Closing
use gitvote.Db.Closing.{is_finished-is_open, Closes}
use gitvote.Db.Life.{Phase, ended, phase, IsUnique}
use gitvote.Db.Moves.{
  IsNew, Moves, rests, opens, cancels, checks, sets_end, closes, Advances, stays, starts,
  is_cancelled, ends, Moves-Advances,
}
use gitvote.Db.Sound.{IsWellFormed, Moves-IsWellFormed}
use gitvote.Db.Update.{new_row}
use gitvote.Db.{is_open, has_id}
use gitvote.Float.{Float}
use gitvote.Handlers.Events.{queued, nothing, Queues}
use gitvote.Handlers.Routed.{setup_router-Queues}
use gitvote.Prelude.{true, ℕ, ℤ, ◌≡◌, refl, sym, subst, false, Str, [], ◌∷◌, ◌++◌, any, arith}
use gitvote.Processor.Commands.{check_vote-Edits, cancel_vote-table}
use gitvote.Processor.Create.{IsFree, Opens, unchanged, opened, create_vote-Opens}
use gitvote.Processor.Rounds.{
  IsPassing, table-status_checker_round, auto_closer_round-Edits, votes_closer_round-Closes,
}
use gitvote.Processor.Workers.{execute, handle}
use gitvote.System.{Acts, serve, command, close, auto_close, check_status, Reaches, start, next}
use gitvote.System.Single.{after_ignored}
use gitvote.World.{World, Env, Row, after}
use gitvote.World.Steps.{Table}

module _ {F : Type 0} where
  module _ (vote_id now : ℕ) (comment : ℤ) (i : CreateVoteInput) (cfg : CfgProfile F) where
    new_row-IsNew : IsNew (new_row vote_id now comment i cfg)
    unfolding new_row
    new_row-IsNew = record { still_open = refl; not_closed = refl; no_results = refl }

    new_row-Moves :
        (t u : Table F)
        → IsFree i t
        → any (has_id vote_id) t ≡ false
        → u ≡ t ++ new_row vote_id now comment i cfg ∷ []
        → Moves t u
    unfolding new_row
    new_row-Moves t u free own e =
        opens (new_row vote_id now comment i cfg) new_row-IsNew own free e

  Opens-Moves : (i : CreateVoteInput) (t u : Table F) → Opens i t u → Moves t u
  Opens-Moves i t u (unchanged e) = rests e
  Opens-Moves i t u (opened vote_id now comment cfg free own e) =
      new_row-Moves vote_id now comment i cfg t u free own e

  Cancels-Moves :
      (env : Env F) (name : Str) (n : ℤ) (t u : Table F)
      → Changes.Cancels env name n t u
      → Moves t u
  Cancels-Moves env name n t u (Changes.kept e) = rests e
  Cancels-Moves env name n t u (Changes.cancelled e) = cancels name n e

  open_row : (row : Row F) → row.closed ≡ false → is_open row ≡ true
  unfolding is_open
  open_row row h = ground arith

  Closes-Moves : (env : Env F) (now : ℕ) (t u : Table F) → Closes env now t u → Moves t u
  Closes-Moves env now t u (Closing.kept e) = rests e
  Closes-Moves env now t u (Closing.closed row results m f o e) =
      closes row.vote_id now results
        (record { row = row; member = m; id = refl; still_open = open_row row o }) e

module _ {F : Type 0} ⦃num : Float F⦄ (env : Env F) where
  execute-Moves : (cmd : Command) (w : World F) → Moves w.table (after (execute env cmd w)).table
  execute-Moves (Cmd.create_vote i) w = Opens-Moves i w.table _ (create_vote-Opens i env w)
  execute-Moves (Cmd.cancel_vote i) w =
      Cancels-Moves env i.repository_full_name i.issue_number w.table _ (cancel_vote-table env i w)
  execute-Moves (Cmd.check_vote i) w = checks (check_vote-Edits env i w)

  handle-Moves : (cmd : Command) (w : World F) → Moves w.table (after (handle env cmd w)).table
  unfolding handle
  handle-Moves cmd w =
      subst (λ v. Moves w.table v.table) (sym (after_ignored (execute env cmd w)))
        (execute-Moves cmd w)

  Queues-Moves : (w v : World F) → Queues env w v → Moves w.table v.table
  Queues-Moves w v (nothing q) = rests q.table
  Queues-Moves w v (queued cmd t q) = rests t

  -- Each activity of the service makes one move in the table of votes, whatever the outside answers.
  pub Acts-Moves : {w v : World F} → Acts env w v → Moves w.table v.table
  Acts-Moves {w} {v} (serve matched parse_uuid since github request) =
      Queues-Moves w v (setup_router-Queues env matched parse_uuid since github request w).0
  Acts-Moves {w} {v} (command cmd rest e) = handle-Moves cmd (record w { queue = rest })
  Acts-Moves {w} {v} close = Closes-Moves env _ w.table _ (votes_closer_round-Closes env w)
  Acts-Moves {w} {v} auto_close =
      sets_end (
        Edits-Anything without_end (IsPassing env w.table) w.table _
          (auto_closer_round-Edits env w))
  Acts-Moves {w} {v} check_status = rests (table-status_checker_round env w)

  -- If the ids of the votes are distinct and each row is sound at the start, so it is in every world
  -- that the service gets to by activities one after another: a vote in progress has no closing time and
  -- its column of results is empty; a closed vote has a closing time, and its column has results or the
  -- JSON null of a vote that was closed without them.
  pub Reaches-IsWellFormed :
      {w v : World F} → Reaches env w v → IsWellFormed w.table → IsWellFormed v.table
  Reaches-IsWellFormed start good = good
  Reaches-IsWellFormed (next {v} {u} r a) good =
      Moves-IsWellFormed v.table u.table (Acts-Moves a) (Reaches-IsWellFormed r good)

  -- Each activity of the service lets every vote advance by at most one phase of its life: from no
  -- vote to a vote in progress, from there to a closed vote, or back by a cancel. The ids of the
  -- votes are distinct before it.
  pub Acts-Advances :
      {w v : World F} (vote_id : ℕ)
      → Acts env w v
      → IsUnique w.table
      → Advances (phase vote_id w.table) (phase vote_id v.table)
  Acts-Advances {w} {v} vote_id a unique =
      Moves-Advances vote_id w.table v.table unique (Acts-Moves a)

  ended_for_good : (row : Row F) (p q : Phase F) → p ≡ ended row → Advances p q → q ≡ ended row
  ended_for_good row p q e stays = e
  ended_for_good row p q e starts = absurd (ground arith)
  ended_for_good row p q e is_cancelled = absurd (ground arith)
  ended_for_good row p q e (ends now results h k l) = absurd (ground arith)

  -- A vote that is closed is never changed or removed by requests, queued commands and rounds of the
  -- workers that run one after another, each to its end. The ids of the votes are distinct and the rows
  -- sound at the start.
  pub Reaches-ended :
      {w v : World F} (vote_id : ℕ) (row : Row F)
      → Reaches env w v
      → IsWellFormed w.table
      → phase vote_id w.table ≡ ended row
      → phase vote_id v.table ≡ ended row
  Reaches-ended vote_id row start good e = e
  Reaches-ended vote_id row (next {v} {u} r a) good e =
      let (unique, sound) = Reaches-IsWellFormed r good in
      ended_for_good row _ _ (Reaches-ended vote_id row r good e) (Acts-Advances vote_id a unique)

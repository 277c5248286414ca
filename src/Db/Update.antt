-- ===== src/Db/Update.antt =====
-- src/db.rs: the operations of `PgDB` that insert or update rows.
use gitvote.Prelude.{
  any, str, ℕ, ◌%◌, true, false, Option, none, some, List, [], ◌∷◌, ◌++◌, ℤ, as_i64, ◌/◌, length,
  if◌then◌else◌, get_elem?,
}
use gitvote.CfgRepo.{CfgProfile}
use gitvote.Cmd.{CreateVoteInput}
use gitvote.Float.{Float}
use gitvote.Github.{Result, ok, err, is_not_found_error}
use gitvote.Github.Names.{split_full_name}
use gitvote.Results.{Vote, VoteResults}
use gitvote.Results.Calculate.{calculate}
use gitvote.Db.{
  other, Bool, from_row, to_column, second, add_seconds, has_id, update_where, statement, rows,
  db_now, modify, is_finished,
}
use gitvote.World.{Row, sql_null, Env, Query, M, ◌>>=◌, ◌>>◌, pure, throw, attempt, done}

-- The row that `insert` writes: open, with the defaults of the other columns.
unfoldable pub new_row : {F : Type 0} → ℕ → ℕ → ℤ → CreateVoteInput → CfgProfile F → Row F
new_row vote_id now vote_comment_id input cfg = record {
  vote_id = vote_id;
  vote_comment_id = vote_comment_id;
  created_at = now;
  created_by = input.created_by;
  ends_at = add_seconds now (as_i64 (cfg.duration / second));
  closed = false;
  closed_at = none;
  checked_at = none;
  cfg = cfg;
  installation_id = input.installation_id;
  issue_id = input.issue_id;
  issue_number = input.issue_number;
  issue_title = some input.issue_title;
  is_pull_request = input.is_pull_request;
  repository_full_name = input.repository_full_name;
  organization = input.organization;
  results = sql_null;
}

unfoldable pub close_row : {F : Type 0} → ℕ → Option (VoteResults F) → Row F → Row F
close_row now results row = record row {
  closed = true;
  closed_at = some now;
  results = to_column results;
}

unfoldable pub end_row : {F : Type 0} → ℕ → Row F → Row F
end_row now row = record row { ends_at = now }

unfoldable pub check_row : {F : Type 0} → ℕ → Row F → Row F
check_row now row = record row { checked_at = some now }

module _ {F : Type 0} (env : Env F) where
  abbrev pub random_uuid : M F ℕ
  random_uuid w = done (env.random_uuid w.trace) w

  -- The primary key of the table refuses an id that a row has.
  abbrev pub insert_if : Bool → Row F → M F (Unit {0})
  insert_if true row = throw (other (str "duplicate key value violates unique constraint"))
  insert_if false row = modify env (λ table. table ++ row ∷ [])

  unfoldable pub insert_new : Row F → M F (Unit {0})
  insert_new row w = insert_if (any (has_id row.vote_id) w.table) row w

  unfoldable pub store_vote : ℤ → CreateVoteInput → CfgProfile F → M F ℕ
  store_vote vote_comment_id input cfg = do
    statement env Query.store_vote
    now ← db_now env
    vote_id ← random_uuid
    insert_new (new_row vote_id now vote_comment_id input cfg)
    pure vote_id

  unfoldable pub update_vote_ends_at : ℕ → M F (Unit {0})
  update_vote_ends_at vote_id = do
    statement env Query.update_vote_ends_at
    now ← db_now env
    modify env (update_where (has_id vote_id) (end_row now))

  unfoldable pub update_vote_last_check : ℕ → M F (Unit {0})
  update_vote_last_check vote_id = do
    statement env Query.update_vote_last_check
    now ← db_now env
    modify env (update_where (has_id vote_id) (check_row now))

  -- `order by random() … limit 1`
  abbrev pub pick : List (Row F) → M F (Option (Row F))
  pick candidates w = done (get_elem? candidates (env.random_pick w.trace % length candidates)) w

  -- A vote whose comment is gone is closed without results; any other error ends the transaction.
  unfoldable pub closing_results : Result (VoteResults F) → M F (Option (VoteResults F))
  closing_results (ok results) = pure (some results)
  closing_results (err e) = if is_not_found_error e then pure none else throw e

  -- `Json(&results)`: what the row has is what serde reads from the JSON that it wrote.
  abbrev pub written : Option (VoteResults F) → Option (VoteResults F)
  written none = none
  written (some results) = some (env.reread results)

  unfoldable pub store_vote_results : ℕ → ℕ → Option (VoteResults F) → M F (Unit {0})
  store_vote_results now vote_id results = do
    statement env Query.store_vote_results
    modify env (update_where (has_id vote_id) (close_row now (written results)))

  module _ ⦃num : Float F⦄ where
    -- The transaction, from its start at `now`.
    unfoldable pub close_row_of : ℕ → Row F → M F (Vote F × Option (VoteResults F))
    close_row_of now row = do
      vote ← from_row row
      names ← split_full_name vote.repository_full_name
      calculated ← attempt (calculate env names vote)
      results ← closing_results calculated
      store_vote_results now vote.vote_id results
      pure (vote, results)

    -- Without a finished vote there is nothing to do.
    unfoldable pub close_picked :
        ℕ → Option (Row F) → M F (Option (Vote F × Option (VoteResults F)))
    close_picked now none = pure none
    close_picked now (some row) = do found ← close_row_of now row; pure (some found)

    unfoldable pub close_finished_vote : M F (Option (Vote F × Option (VoteResults F)))
    close_finished_vote = do
      statement env Query.close_finished_vote
      now ← db_now env
      candidates ← rows env (is_finished env now)
      picked ← pick candidates
      close_picked now picked

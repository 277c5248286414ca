-- ===== src/Db.antt =====
-- src/db.rs: `PgDB`, the operations on the table `vote`. A query is recorded, may fail before it
-- touches the table, and reads the database's clock.
pub mod Update
pub mod Effects
pub mod Closing
pub mod Panics
pub mod Changes
pub mod Edits
pub mod Life
pub mod Moves
pub mod Sound
use gitvote.Prelude.{
  is_empty, str, ℕ, suc, ◌+◌, ◌-◌, ◌*◌, ◌/◌, ◌%◌, ◌^◌, ◌≤◌, ◌<◌, Bool, true, false, not, ◌&&◌,
  Option, none, some, List, [], ◌∷◌, ◌++◌, map, Str, str_eq, ◌==◌, ℤ, int_eq, pos, negsuc, as_i64,
  any, select, length, ltb, leb, if◌then◌else◌,
}
use gitvote.CfgRepo.{CfgProfile}
use gitvote.Cmd.{CreateVoteInput, CheckVoteInput}
use gitvote.Float.{Float}
use gitvote.Github.{Error, other, Result, ok, err, is_not_found_error}
use gitvote.Github.Names.{split_full_name, char_eq}
use gitvote.Results.Tally.{is_true}
use gitvote.Results.{Vote, VoteResults}
use gitvote.Results.Calculate.{calculate}
use gitvote.World.{
  Row, Column, sql_null, json_null, json, World, Env, Repo, repo_of, Query, query, Call, Trace, M,
  ◌>>=◌, ◌>>◌, pure, unit, throw, crash, lift, attempt, Run, done, fail, panic,
}

-- Decoding the column as `Option<Json<VoteResults>>`; `none` means that it fails.
abbrev pub results_of : {F : Type 0} → Column F → Option (Option (VoteResults F))
results_of sql_null = some none
results_of json_null = none
results_of (json results) = some (some results)

-- `Vote::from(&row)`. Decoding the JSON `null` as results fails, and `Row::get` panics.
unfoldable pub from_row : {F : Type 0} → Row F → M F (Vote F)
from_row row = elim (results_of row.results) [
  | none ↦ crash
  | some results ↦ pure (record {
    vote_id = row.vote_id;
    vote_comment_id = row.vote_comment_id;
    created_at = row.created_at;
    created_by = row.created_by;
    ends_at = row.ends_at;
    closed = row.closed;
    closed_at = row.closed_at;
    checked_at = row.checked_at;
    cfg = row.cfg;
    installation_id = row.installation_id;
    issue_id = row.issue_id;
    issue_number = row.issue_number;
    issue_title = row.issue_title;
    is_pull_request = row.is_pull_request;
    repository_full_name = row.repository_full_name;
    organization = row.organization;
    results = results;
  })
]

-- The column of JSON that serde reads as `results`; for none of them `Json` writes `null`.
abbrev pub to_column : {F : Type 0} → Option (VoteResults F) → Column F
to_column none = json_null
to_column (some results) = json results

unfoldable pub from_rows : {F : Type 0} → List (Row F) → M F (List (Vote F))
from_rows [] = pure []
from_rows (row ∷ rows) = do vote ← from_row row; votes ← from_rows rows; pure (vote ∷ votes)

-- `query_opt`: no row, one row, or the error on more.
abbrev pub query_opt : {F A : Type 0} → List A → M F (Option A)
query_opt [] = pure none
query_opt (row ∷ []) = pure (some row)
query_opt (row ∷ row' ∷ rows) = throw (other (str "query returned an unexpected number of rows"))

abbrev pub optional_vote : {F : Type 0} → Option (Row F) → M F (Option (Vote F))
optional_vote none = pure none
optional_vote (some row) = do vote ← from_row row; pure (some vote)

abbrev pub second : ℕ
second = 10 ^ 9

abbrev pub hour : ℕ
hour = 3600 * second

abbrev pub day : ℕ
day = 24 * hour

-- `current_timestamp + (s || ' seconds')::interval`
abbrev pub add_seconds : ℕ → ℤ → ℕ
add_seconds now (pos s) = now + s * second
add_seconds now (negsuc s) = now - suc s * second

unfoldable pub is_open : {F : Type 0} → Row F → Bool
is_open row = not row.closed

unfoldable pub is_of_issue : {F : Type 0} → Str → ℤ → Row F → Bool
is_of_issue name number row = row.repository_full_name == name && row.issue_number == number

-- The open votes of an issue.
abbrev pub open_of : {F : Type 0} → Str → ℤ → Row F → Bool
open_of name number row = is_of_issue name number row && is_open row

unfoldable pub has_id : {F : Type 0} → ℕ → Row F → Bool
unfolding char_eq
has_id vote_id row = row.vote_id == vote_id

-- `update vote set … where vote_id = …`
unfoldable pub update_where :
    {F : Type 0} → (Row F → Bool) → (Row F → Row F) → List (Row F) → List (Row F)
update_where p f [] = []
update_where p f (row ∷ rows) = (if p row then f row else row) ∷ update_where p f rows

module _ {F : Type 0} (env : Env F) where
  abbrev pub run_query : Option Error → M F (Unit {0})
  run_query none w = done tt w
  run_query (some e) w = fail e w

  -- A connection of the pool and a statement: an error comes before any change.
  unfoldable pub statement : Query → M F (Unit {0})
  statement q w =
      run_query (env.db_error w.trace (query q)) (record w { trace = query q ∷ w.trace })

  abbrev pub rows : (Row F → Bool) → M F (List (Row F))
  rows p w = done (select p w.table) w

  abbrev pub db_now : M F ℕ
  db_now w = done (env.db_now w.trace) w

  abbrev pub set_table : List (Row F) → M F (Unit {0})
  set_table table w = done tt (record w { table = table })

  abbrev pub modify : (List (Row F) → List (Row F)) → M F (Unit {0})
  modify f w = done tt (record w { table = f w.table })

  -- `delete … returning`: the rows go even if there is more than one, and then an error comes back.
  unfoldable pub cancel_vote : Str → ℤ → M F (Option ℕ)
  cancel_vote name number = do
    statement Query.cancel_vote
    deleted ← rows (open_of name number)
    modify (select (λ row. not (open_of name number row)))
    query_opt (map (λ row. row.vote_id) deleted)

  unfoldable pub get_open_vote : Str → ℤ → M F (Option (Vote F))
  get_open_vote name number = do
    statement Query.get_open_vote
    found ← rows (open_of name number)
    row ← query_opt found
    optional_vote row

  unfoldable pub get_vote : ℕ → M F (Option (Vote F))
  get_vote vote_id = do
    statement Query.get_vote
    found ← rows (has_id vote_id)
    row ← query_opt found
    optional_vote row

  unfoldable pub has_vote : Str → ℤ → M F Bool
  has_vote name number = do
    statement Query.has_vote
    found ← rows (is_of_issue name number)
    pure (not (is_empty found))

  unfoldable pub has_vote_open : Str → ℤ → M F Bool
  has_vote_open name number = do
    statement Query.has_vote_open
    found ← rows (open_of name number)
    pure (not (is_empty found))

  -- `order by created_at desc`
  unfoldable pub insert_row : Row F → List (Row F) → List (Row F)
  insert_row row [] = row ∷ []
  insert_row row (r ∷ rs) =
      let rest = insert_row row rs in
      if leb r.created_at row.created_at then row ∷ r ∷ rs else r ∷ rest

  unfoldable pub sort_rows : List (Row F) → List (Row F)
  sort_rows [] = []
  sort_rows (row ∷ rs) = insert_row row (sort_rows rs)

  unfoldable pub list_votes : Str → M F (List (Vote F))
  list_votes name = do
    statement Query.list_votes
    found ← rows (λ row. row.repository_full_name == name)
    from_rows (sort_rows found)

  abbrev pub is_finished : ℕ → Row F → Bool
  is_finished now row = ltb row.ends_at now && is_open row

  -- Whether `close_on_passing` is set, and its minimal wait is over.
  abbrev waited : Row F → ℕ → Option ℕ → Bool
  waited row now none = true
  waited row now (some wait) = ltb (row.created_at + wait) now

  abbrev pub interval_of : Option Str → Option ℕ
  interval_of none = none
  interval_of (some text) = env.interval text

  unfoldable pub closes_on_passing : ℕ → Row F → Bool
  closes_on_passing now row =
      is_open row
      && (is_true row.cfg.close_on_passing
          && waited row now (interval_of row.cfg.close_on_passing_min_wait))

  unfoldable pub get_open_votes_with_close_on_passing : M F (List (Vote F))
  get_open_votes_with_close_on_passing = do
    statement Query.get_open_votes_with_close_on_passing
    now ← db_now
    found ← rows (closes_on_passing now)
    from_rows found

  abbrev checked_before : ℕ → ℕ → Option ℕ → Bool
  checked_before now period none = true
  checked_before now period (some checked_at) = ltb (checked_at + period) now

  abbrev check_period : Row F → ℕ → Option ℕ → Bool
  check_period row now none = false
  check_period row now (some period) =
      leb day period
      && (ltb (row.created_at + period) now
          && (checked_before now period row.checked_at && ltb (now + hour) row.ends_at))

  unfoldable pub needs_status_check : ℕ → Row F → Bool
  needs_status_check now row =
      is_open row && check_period row now (interval_of row.cfg.periodic_status_check)

  unfoldable pub get_pending_status_checks : M F (List CheckVoteInput)
  get_pending_status_checks = do
    statement Query.get_pending_status_checks
    now ← db_now
    found ← rows (needs_status_check now)
    pure (
        map
          (λ row. record {
            repository_full_name = row.repository_full_name;
            issue_number = row.issue_number;
          })
          found)

-- ===== src/Tests/Service.antt =====
-- Examples of the running service.
use gitvote.Processor.Limit.{check_vote-limit, IsChecked}
use gitvote.Github.Named.{get_allowed_voters-names}
use gitvote.Github.Voters.{get_allowed_voters, names}
use gitvote.Db.Update.{close_row}
use gitvote.Db.{list_votes}
use gitvote.Db.Panics.{lacks_results, list_votes-eq-panic_iff}
use gitvote.Prelude.{ap, any, str_eq, ◌==◌, ◌&&◌}
use gitvote.Processor.Strangers.{table-strangers}
use gitvote.CfgRepo.Valid.{validate-ok_iff, IsValid}
use gitvote.Db.Edits.{Edits}
use gitvote.Processor.Rounds.{IsPassing, auto_closer_round-Edits, votes_closer_round-Closes}
use gitvote.Processor.Commands.{cancel_vote-table, check_vote-Keeps}
use gitvote.Handlers.Signature.{verify_signature-true_iff, IsAuthentic}
use gitvote.Github.{Result, ok}
use gitvote.Handlers.Events.{event-Queues, Queues}
use gitvote.Processor.Single.{Single}
use gitvote.Github.Names.{char_eq, split_full_name-append, split_full_name}
use gitvote.Db.Changes.{without_check, without_end, Cancels, Keeps}
use gitvote.Processor.Workers.{auto_closer_round, votes_closer_round, handle}
use gitvote.Db.Closing.{Closes}
use gitvote.Handlers.{bad_request, verify_signature, event}
use gitvote.CfgRepo.Load.{validate}
use gitvote.Prelude.{sym, subst, Memᴰ, ◌≢◌, ℕ_discrete, false, true, ◌≡◌, refl, none, some, [], ◌∷◌}
use gitvote.Processor.Create.{Opens, create_vote-Opens}
use gitvote.Cmd
use gitvote.Prelude.{◌↔◌, ◌++◌, str, pos, contains, ℕ, arith}
use gitvote.World.{Repo, Env, World, done, panic}
use gitvote.Processor.{create_vote, cancel_vote, check_vote}
use gitvote.System.{next, start, command}
use gitvote.System.Single.{Reaches-Single}
use gitvote.World.{after}
use gitvote.Tests.{
  voters, bob, allowed, row, test_float, check_input, cancel_input, full_name, one_vote, cfg, env,
  input, empty,
}

create_vote-Opens_example : Opens input empty.table (after (create_vote env input empty)).table
create_vote-Opens_example = create_vote-Opens input env empty

empty-Single : Single empty.table
empty-Single name n = omega arith

abbrev queued_world : World ℕ
queued_world = record { table = []; trace = []; queue = gitvote.Cmd.create_vote input ∷ [] }

-- The only command of the queue is handled.
abbrev handled : World ℕ
handled = after (handle env (gitvote.Cmd.create_vote input) empty)

Reaches-Single_example : Single handled.table
Reaches-Single_example =
    Reaches-Single env {w = queued_world} {v = handled}
      (next start (command (gitvote.Cmd.create_vote input) [] refl)) empty-Single

event-Queues_example :
    let r = event env (str "secret") none (some (str "sha256=other")) none [] empty in
    Queues env empty (after r)
    × (¬ IsAuthentic env (some (str "sha256=other")) (str "secret") none []
        → r ≡ done (bad_request (str "no valid signature found")) empty)
event-Queues_example =
    event-Queues env (str "secret") none (some (str "sha256=other")) none [] empty

verify_signature-true_iff_example :
    (verify_signature env (some (str "sha256=secret")) (str "secret") none [] ≡ true)
    ↔ IsAuthentic env (some (str "sha256=secret")) (str "secret") none []
verify_signature-true_iff_example =
    verify_signature-true_iff env (some (str "sha256=secret")) (str "secret") none []

votes_closer_round-Closes_example :
    Closes env 5000 one_vote.table (after (votes_closer_round env one_vote)).table
votes_closer_round-Closes_example = votes_closer_round-Closes env one_vote

cancel_vote-table_example :
    Cancels env full_name
      (pos 3)
      one_vote.table
      (after (cancel_vote env cancel_input one_vote)).table
cancel_vote-table_example = cancel_vote-table env cancel_input one_vote

check_vote-Keeps_example :
    Keeps without_check one_vote.table (after (check_vote env check_input one_vote)).table
check_vote-Keeps_example = check_vote-Keeps env check_input one_vote

auto_closer_round-Edits_example :
    Edits without_end
      (IsPassing env one_vote.table)
      one_vote.table
      (after (auto_closer_round env one_vote)).table
auto_closer_round-Edits_example = auto_closer_round-Edits env one_vote

validate-ok_iff_example : (validate cfg false ≡ ok tt) ↔ IsValid cfg false
validate-ok_iff_example = validate-ok_iff cfg false

split_full_name-append_example :
    split_full_name (str "org" ++ b'/' ∷ str "repo") empty ≡ done (str "org", str "repo") empty
unfolding char_eq ℕ_discrete
split_full_name-append_example = split_full_name-append (str "org") (str "repo") empty refl refl

-- A vote that was closed without results.
abbrev lost_vote : World ℕ
lost_vote = record { table = close_row 5000 none row ∷ []; trace = []; queue = [] }

list_votes-eq-panic_iff_example :
    ((v : World ℕ) × (list_votes env full_name lost_vote ≡ panic v))
    ↔ (any (λ r. r.repository_full_name == full_name && lacks_results r) lost_vote.table ≡ true)
list_votes-eq-panic_iff_example = list_votes-eq-panic_iff env full_name lost_vote refl

-- An outside that knows no collaborators.
abbrev not_found_answer : Result ℕ
not_found_answer = ok 404

abbrev closed_env : Env ℕ
closed_env = record env { status = λ trace call. ok 404 }

refused : not_found_answer ≢ ok 204
refused h = ground arith

table-strangers_example :
    ((after (create_vote closed_env input one_vote)).table ≡ one_vote.table)
    × ((after (cancel_vote closed_env cancel_input one_vote)).table ≡ one_vote.table)
table-strangers_example =
    table-strangers closed_env input cancel_input one_vote (λ names s trace. refused)
      (λ names s trace. refused)

abbrev repo : Repo
repo = record { inst_id = 1; owner = str "org"; name = str "repo" }

allowed_lem : get_allowed_voters env repo cfg none empty ≡ done allowed empty
unfolding get_allowed_voters gitvote.Prelude.eq_ignore_ascii_case gitvote.Prelude.str_eq
allowed_lem = refl

get_allowed_voters-names_example : names allowed bob ≡ true
get_allowed_voters-names_example =
    get_allowed_voters-names env repo bob cfg voters allowed none empty empty allowed refl refl
      (Memᴰ.tail (Memᴰ.head refl)) allowed_lem

-- A vote that was checked just now.
abbrev checked_vote : World ℕ
checked_vote = record { table = record row { checked_at = some 5000 } ∷ []; trace = []; queue = [] }

checked-IsChecked : IsChecked env check_input checked_vote.table
checked-IsChecked r (Memᴰ.head e) o trace = (5000, ap (λ k. k.checked_at) e, ground arith)
checked-IsChecked r (Memᴰ.tail m) o trace = elim m [ ]

check_vote-limit_example :
    (after (check_vote env check_input checked_vote)).table ≡ checked_vote.table
check_vote-limit_example = check_vote-limit env check_input checked_vote checked-IsChecked

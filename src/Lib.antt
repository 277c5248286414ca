-- ===== src/Lib.antt =====
-- GitVote: a GitHub application that holds votes on issues and pull requests. A comment `/vote` opens a
-- vote, the reactions to the application's comment are the votes, and the vote is closed when its time
-- is over, with its results in a comment, a check and labels.
--
-- The parts of the program and the files that model them:
--   * Float.antt: `f64` as an abstract type with the laws of rounding that the thresholds rest on; an
--     instance in hundredths, on which the examples run.
--   * Github.antt, Github/Names, Github/Voters, Github/Api (src/github.rs): the events and answers, the
--     operations of `GHApi`, `get_allowed_voters`, `split_full_name`. Each call of the client library is
--     recorded in a trace, and its answer is a parameter (`Env`).
--   * CfgRepo.antt, CfgRepo/Load (src/cfg_repo.rs): the configuration of a repository, `Cfg::get`,
--     `CfgProfile::get`, `validate`, `AutomationRule::matches`.
--   * Cmd.antt, Cmd/Parse, Cmd/FromEvent (src/cmd.rs): the regular expression on comments, and
--     `Command::from_event` with the inputs that it takes from an event.
--   * Results.antt, Results/Tally, Results/Calculate (src/results.rs): the loop of `calculate` over the
--     reactions (`track_vote`, `track_reactions`), its counters (`count_votes`), the base of the
--     threshold, `threshold_reached`, `passes_with_all_allowed_voters`.
--   * Tmpl.antt, Tmpl/Build (src/tmpl.rs): the data of each template, the statistics of the audit page,
--     the filter `non_binding`.
--   * World.antt: what the program runs in. A handler is a function from a world (the table of votes,
--     the trace of calls, the queue of commands) to a value, an error or a panic, with the world that it
--     leaves. World/Quiet and World/Steps are the rules by which runs are reasoned about.
--     World/Returns is about runs that end with a value, World/Queue about those that leave the queue.
--   * Db.antt, Db/Update (src/db.rs): the operations of `PgDB` on the table, one step each. A failure of
--     the pool or of the server comes before any change. The primary key of the table refuses an id that
--     a row has (`insert_new`). Db/Life and Db/Moves are the abstract view: the phase of a vote (none, in
--     progress, closed) and the moves of the table; Db/Sound is the invariant of its rows.
--   * Processor.antt, Processor/Workers (src/processor.rs): `create_vote`, `cancel_vote`, `check_vote`,
--     and a round of each worker: the votes closer, the auto closer and the status checker.
--     Processor/Race: `create_vote` in two phases, the decision and the opening. Processor/Tasks: the
--     workers that `Processor::run` starts, and their loops, which a cancelled token ends.
--   * Handlers.antt (src/handlers.rs): `event`, `verify_signature`, `set_check_status`, `index`, `audit`,
--     `audit_vote_details`. Handlers/Router: `setup_router` with its routes.
--   * CfgSvc.antt (src/cfg_svc.rs): the settings of the server and the layers that they come from; the
--     library that merges the layers is a record of operations with their laws.
--   * System.antt: the service as a sequence of requests to the router, commands from the queue and
--     rounds. System/Refines shows it as moves of the abstract view of the table.
--   * Tests.antt and its children: examples.
--
-- How the parts interact: `event` makes a command of a request and puts it into the queue; the handlers
-- of the commands read the configuration, ask GitHub who may vote and write the table; the workers read
-- the table and close votes, of which `calculate` gives the results.
--
-- Numbers: ids, times and counters are natural numbers; times and durations are in nanoseconds. `i64` is
-- ℤ and `as u64` wraps around (`as_u64`); a counter grows by one for each vote, so that it does not
-- overflow. A string is the list of its Unicode scalars. No definition takes fuel but the one that writes
-- a number's digits, which is given more than the number has: all the other loops are structural.
--
-- Parameters: what YAML, JSON, gitignore patterns, time formats, HMAC, the matching of paths and the
-- templates do. What serde reads from the JSON that it wrote for results is `reread`, which need not be
-- the same results. What the cache of `audit_is_enabled` holds is `cached_audit`.
--
-- Not modelled: the entry point (src/main.rs), which wires the parts and waits for a signal, that requests
-- for one repository wait for each other at the cache (`sync_writes`), the headers of responses, the
-- tracing layer, logs, and the contexts that errors carry. What a worker sleeps is a result of its turn,
-- and no time passes by it. `Processor::run` spawns the workers at the same time, but System.antt and
-- Processor/Tasks.antt run each activity to its end before the next one; only Processor/Double.antt lets
-- two handlers overlap. So nothing here is about a write that comes late: `update_vote_ends_at` and
-- `update_vote_last_check` go by the id of a vote alone, after calls of GitHub, and a vote that another
-- worker closes during these calls is written all the same.
pub mod Prelude
pub mod Float
pub mod Github
pub mod CfgRepo
pub mod CfgSvc
pub mod Cmd
pub mod Results
pub mod Tmpl
pub mod World
pub mod Db
pub mod Processor
pub mod Handlers
pub mod System
pub mod Tests

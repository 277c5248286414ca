-- ===== src/Tests/System.antt =====
-- Examples of the life of votes in the running service.
use gitvote.Github.{Reaction}
use gitvote.Prelude.{
  ◌==◌, Str, if◌then◌else◌, Option, refl, [], none, some, ◌∷◌, ◌<◌, ◌+◌, ◌≤◌, ◌≡◌, false, true, ℕ,
  suc, any, All, str, pos, length, arith, count, List,
}
use gitvote.Prelude.{ℕ_discrete}
use gitvote.Db
use gitvote.Db.{open_of}
use gitvote.Db.Life
use gitvote.Db.Life.{phase, ended}
use gitvote.Db.Moves.{Advances}
use gitvote.Db.Sound.{IsWellFormed, IsSound, in_progress}
use gitvote.Db.Update.{close_row}
use gitvote.Github.Names.{char_eq}
use gitvote.Processor.Double.{two_open_votes}
use gitvote.Processor.Drains.{Busy-bound, idle, round, IsDue}
use gitvote.Processor.Progress.{open_count, IsReady}
use gitvote.Processor.Opened.{Answers, Opened, create_vote-Opened}
use gitvote.CfgRepo.Load.{profile_get}
use gitvote.Prelude.{inr}
use gitvote.Processor.Race.{decide, open_decided}
use gitvote.Processor.Workers.{votes_closer_round}
use gitvote.Results.Available.{HasTimes, IsAvailable, Returns-calculate}
use gitvote.Results.Calculate.{summarise}
use gitvote.System.Refines.{Reaches-IsWellFormed, Acts-Advances, Reaches-ended}
use gitvote.System.{start, next, close}
use gitvote.Tests.{
  Cfg, test_float, env, one_vote, row, empty, vote, allowed, reactions, input, full_name, cfg,
}
use gitvote.World.{World, Row, Repo, after, done, Env}
use gitvote.World.Returns.{Returns}

one_vote-IsWellFormed : IsWellFormed one_vote.table
one_vote-IsWellFormed = ((refl, tt), (in_progress refl refl refl, tt))

abbrev closed_world : World ℕ
closed_world = after (votes_closer_round env one_vote)

Reaches-IsWellFormed_example : IsWellFormed closed_world.table
Reaches-IsWellFormed_example =
    Reaches-IsWellFormed env {w = one_vote} {v = closed_world} (next start close)
      one_vote-IsWellFormed

Acts-Advances_example : Advances (phase 7 one_vote.table) (phase 7 closed_world.table)
Acts-Advances_example = Acts-Advances env {w = one_vote} {v = closed_world} 7 close (refl, tt)

-- A vote that was closed, in a table with one that is open.
abbrev old_row : Row ℕ
old_row = record row {
  vote_id = 6;
  closed = true;
  closed_at = some 1500;
  results = gitvote.World.json_null;
}

abbrev two_rows : World ℕ
two_rows = record { table = old_row ∷ row ∷ []; trace = []; queue = [] }

two_rows-IsWellFormed : IsWellFormed two_rows.table
unfolding gitvote.Db.has_id char_eq ℕ_discrete
two_rows-IsWellFormed = (
  (refl, (refl, tt)),
  (gitvote.Db.Sound.has_ended 1500 none refl refl refl, (in_progress refl refl refl, tt)),
)

old_row-ended : phase 6 two_rows.table ≡ ended old_row
unfolding phase gitvote.Db.Life.phase_of gitvote.Db.has_id char_eq ℕ_discrete
old_row-ended = refl

Reaches-ended_example : phase 6 (after (votes_closer_round env two_rows)).table ≡ ended old_row
Reaches-ended_example =
    Reaches-ended env {w = two_rows} {v = after (votes_closer_round env two_rows)} 6 old_row
      (next start close) two_rows-IsWellFormed old_row-ended

reactions-HasTimes : (rs : List Reaction) → HasTimes env rs
reactions-HasTimes [] = tt
reactions-HasTimes (r ∷ rs) = (λ h. ground arith, reactions-HasTimes rs)

env-IsAvailable : IsAvailable env
env-IsAvailable = record {
  installation = λ id. refl;
  users = λ trace c. (gitvote.Tests.user gitvote.Tests.alice ∷ [], refl);
  reactions = λ trace c. (reactions, refl, reactions-HasTimes reactions);
}

one_vote-IsReady : All IsReady one_vote.table
unfolding char_eq ℕ_discrete
one_vote-IsReady = ((in_progress refl refl refl, refl), tt)

one_vote-IsDue : IsDue env one_vote
unfolding gitvote.Db.is_open
one_vote-IsDue = refl

Busy-bound_example : 1 + open_count closed_world.table ≤ open_count one_vote.table
Busy-bound_example =
    Busy-bound env env-IsAvailable (λ trace c. refl) {w = one_vote} {n = 1} {v = closed_world}
      one_vote-IsReady (round idle one_vote-IsDue)

Returns-calculate_example :
    Returns (gitvote.Results.Calculate.calculate env (str "org", str "repo") vote)
Returns-calculate_example = Returns-calculate env env-IsAvailable (str "org", str "repo") vote

-- An outside that gives each row another id.
abbrev many_ids : Env ℕ
many_ids = record env { random_uuid = λ trace. length trace }

abbrev first_decided : World ℕ
first_decided = after (decide many_ids input empty)

abbrev second_decided : World ℕ
second_decided = after (decide many_ids input first_decided)

abbrev repo : Repo
repo = record { inst_id = 1; owner = str "org"; name = str "repo" }

abbrev first_opened : World ℕ
first_opened = after (open_decided many_ids input (some (repo, cfg)) second_decided)

abbrev second_opened : World ℕ
second_opened = after (open_decided many_ids input (some (repo, cfg)) first_opened)

first_decided_lem : decide many_ids input empty ≡ done (some (repo, cfg)) first_decided
unfolding decide gitvote.Github.Names.split_full_name ℕ_discrete gitvote.CfgRepo.Load.profile_get
    gitvote.CfgRepo.Load.cfg_get gitvote.Github.Api.get_config_file
    gitvote.CfgRepo.Load.choose_profile gitvote.CfgRepo.Load.find_profile gitvote.Prelude.str_eq
    gitvote.CfgRepo.Load.validate gitvote.Github.Api.user_is_collaborator gitvote.Db.has_vote_open
    gitvote.Db.statement gitvote.Prelude.as_u64
first_decided_lem = refl

second_decided_lem : decide many_ids input first_decided ≡ done (some (repo, cfg)) second_decided
unfolding decide gitvote.Github.Names.split_full_name ℕ_discrete gitvote.CfgRepo.Load.profile_get
    gitvote.CfgRepo.Load.cfg_get gitvote.Github.Api.get_config_file
    gitvote.CfgRepo.Load.choose_profile gitvote.CfgRepo.Load.find_profile gitvote.Prelude.str_eq
    gitvote.CfgRepo.Load.validate gitvote.Github.Api.user_is_collaborator gitvote.Db.has_vote_open
    gitvote.Db.statement gitvote.Prelude.as_u64
second_decided_lem = refl

first_opened_lem :
    open_decided many_ids input (some (repo, cfg)) second_decided ≡ done tt first_opened
unfolding open_decided gitvote.Processor.open_vote gitvote.Processor.post
    gitvote.Github.Api.post_comment gitvote.Db.Update.store_vote gitvote.Db.Update.insert_new
    gitvote.Db.Update.new_row gitvote.Db.has_id gitvote.Db.is_of_issue gitvote.Db.is_open
    gitvote.Github.Api.add_labels gitvote.Github.Api.client gitvote.Github.Api.create_check_run
    gitvote.Github.Api.remove_label gitvote.Github.Api.try_candidates char_eq
    gitvote.Github.Names.split_once gitvote.Prelude.as_i64 gitvote.Prelude.int_eq
    gitvote.Prelude.ℤ-discrete gitvote.Prelude.Str-discrete gitvote.Processor.open_labels
    gitvote.Tmpl.Build.new_vote_created gitvote.World.call decide
    gitvote.Github.Names.split_full_name ℕ_discrete gitvote.CfgRepo.Load.profile_get
    gitvote.CfgRepo.Load.cfg_get gitvote.Github.Api.get_config_file
    gitvote.CfgRepo.Load.choose_profile gitvote.CfgRepo.Load.find_profile gitvote.Prelude.str_eq
    gitvote.CfgRepo.Load.validate gitvote.Github.Api.user_is_collaborator gitvote.Db.has_vote_open
    gitvote.Db.statement gitvote.Prelude.as_u64
first_opened_lem = refl

second_opened_lem :
    open_decided many_ids input (some (repo, cfg)) first_opened ≡ done tt second_opened
unfolding open_decided gitvote.Processor.open_vote gitvote.Processor.post
    gitvote.Github.Api.post_comment gitvote.Db.Update.store_vote gitvote.Db.Update.insert_new
    gitvote.Db.Update.new_row gitvote.Db.has_id gitvote.Db.is_of_issue gitvote.Db.is_open
    gitvote.Github.Api.add_labels gitvote.Github.Api.client gitvote.Github.Api.create_check_run
    gitvote.Github.Api.remove_label gitvote.Github.Api.try_candidates char_eq
    gitvote.Github.Names.split_once gitvote.Prelude.as_i64 gitvote.Prelude.int_eq
    gitvote.Prelude.ℤ-discrete gitvote.Prelude.Str-discrete gitvote.Processor.open_labels
    gitvote.Tmpl.Build.new_vote_created gitvote.World.call decide
    gitvote.Github.Names.split_full_name ℕ_discrete gitvote.CfgRepo.Load.profile_get
    gitvote.CfgRepo.Load.cfg_get gitvote.Github.Api.get_config_file
    gitvote.CfgRepo.Load.choose_profile gitvote.CfgRepo.Load.find_profile gitvote.Prelude.str_eq
    gitvote.CfgRepo.Load.validate gitvote.Github.Api.user_is_collaborator gitvote.Db.has_vote_open
    gitvote.Db.statement gitvote.Prelude.as_u64
second_opened_lem = refl

two_open_votes_example : count (open_of full_name (pos 3)) second_opened.table ≡ 2
two_open_votes_example =
    two_open_votes many_ids full_name (pos 3) input input (repo, cfg) (repo, cfg) empty
      first_decided second_decided first_opened second_opened (refl, refl) (refl, refl)
      first_decided_lem second_decided_lem first_opened_lem second_opened_lem

env-Answers : Answers env
env-Answers = record {
  installation = λ id. refl;
  comment = λ trace c. (11, refl);
  render = λ template. (str "text", refl);
  database = λ trace c. refl;
}

split_lem :
    gitvote.Github.Names.split_full_name full_name empty ≡ done (str "org", str "repo") empty
unfolding gitvote.Github.Names.split_full_name gitvote.Github.Names.split_once char_eq ℕ_discrete
split_lem = refl

abbrev configured : World ℕ
configured = after (profile_get env repo false none empty)

profile_lem : profile_get env repo false none empty ≡ done (inr cfg) configured
unfolding profile_get gitvote.CfgRepo.Load.cfg_get gitvote.Github.Api.get_config_file
    gitvote.CfgRepo.Load.choose_profile gitvote.CfgRepo.Load.find_profile gitvote.Prelude.str_eq
    gitvote.CfgRepo.Load.validate
profile_lem = refl

create_vote-Opened_example :
    Opened input empty.table cfg (after (gitvote.Processor.create_vote env input empty)).table
unfolding gitvote.Prelude.as_u64
create_vote-Opened_example =
    create_vote-Opened env env-Answers input cfg (str "org", str "repo") empty configured refl
      (λ trace. refl) split_lem profile_lem (λ trace. refl)

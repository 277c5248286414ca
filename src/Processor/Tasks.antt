-- ===== src/Processor/Tasks.antt =====
-- src/processor.rs: `Processor::run` and the loops of its workers, which end when the token that they
-- are given is cancelled. The time that a worker sleeps is only a result.
use gitvote.Cmd.{Command}
use gitvote.Float.{Float}
use gitvote.Prelude.{ℕ, zero, suc, Bool, true, false, List, [], ◌∷◌, ◌++◌, ◌≡◌}
use gitvote.Processor.Workers.{handle, votes_closer_round, auto_closer_round, status_checker_round}
use gitvote.World.{World, Env, Run, done, fail, panic, M, ◌>>=◌, ◌>>◌, pure}

pub data Worker : Type 0 where
  commands_handler votes_closer status_checker votes_auto_closer : Worker

abbrev pub commands_handlers_workers : ℕ
commands_handlers_workers = 5

abbrev pub votes_closers_workers : ℕ
votes_closers_workers = 1

abbrev pub launch : ℕ → Worker → List Worker
launch zero worker = []
launch (suc n) worker = worker ∷ launch n worker

-- The workers that `Processor::run` starts.
unfoldable pub workers : List Worker
workers =
    launch commands_handlers_workers commands_handler
    ++ (launch votes_closers_workers votes_closer ++ status_checker ∷ votes_auto_closer ∷ [])

-- What comes after a turn of a loop: another one after a pause, or the end of the loop.
pub data Loop : Type 0 where
  goes_on : ℕ → Loop
  breaks : Loop

abbrev pub unless_cancelled : Bool → ℕ → Loop
unless_cancelled true pause = breaks
unless_cancelled false pause = goes_on pause

module _ {F : Type 0} ⦃num : Float F⦄ (env : Env F) where
  abbrev pub set_queue : List Command → M F (Unit {0})
  set_queue queue w = done tt (record w { queue = queue })

  abbrev pub from_queue : (List Command → M F Loop) → M F Loop
  from_queue f w = f w.queue w

  -- `select!` is biased: a command of the queue comes before the token.
  unfoldable pub next_command : Bool → List Command → M F Loop
  next_command cancelled [] = pure (unless_cancelled cancelled 0)
  next_command cancelled (cmd ∷ rest) = do set_queue rest; handle env cmd; pure (goes_on 0)

  -- A turn of a worker's loop, where the token is cancelled or not when the loop looks at it.
  unfoldable pub turn : Worker → Bool → M F Loop
  turn commands_handler cancelled = from_queue (next_command cancelled)
  turn votes_closer cancelled = do
    pause ← votes_closer_round env
    pure (unless_cancelled cancelled pause)
  turn status_checker cancelled = do
    pause ← status_checker_round env
    pure (unless_cancelled cancelled pause)
  turn votes_auto_closer cancelled = do
    pause ← auto_closer_round env
    pure (unless_cancelled cancelled pause)

  pub record Service : Type 0 where
    pub world : World F
    pub cancelled : Bool
    pub running : List Worker

  -- A worker that panics is gone, as one that leaves its loop is.
  abbrev pub settled : Bool → List Worker → Worker → List Worker → Run F Loop → Service
  settled cancelled before worker behind (done (goes_on pause) w) = record {
    world = w;
    cancelled = cancelled;
    running = before ++ worker ∷ behind;
  }
  settled cancelled before worker behind (done breaks w) = record {
    world = w;
    cancelled = cancelled;
    running = before ++ behind;
  }
  settled cancelled before worker behind (fail e w) = record {
    world = w;
    cancelled = cancelled;
    running = before ++ behind;
  }
  settled cancelled before worker behind (panic w) = record {
    world = w;
    cancelled = cancelled;
    running = before ++ behind;
  }

  -- A turn of one of the running workers.
  pub data Turns (s : Service) : Service → Type 0 where
    turn_of :
        (before : List Worker) (worker : Worker) (behind : List Worker)
        → s.running ≡ before ++ worker ∷ behind
        → Turns s (settled s.cancelled before worker behind (turn worker s.cancelled s.world))

-- ===== src/System.antt =====
-- The running service: the requests, the commands taken from the queue and the rounds of the workers,
-- one after another. A vote command that the queue hands out is handled to its end.
pub mod Single
pub mod Refines
use gitvote.Cmd.{Command}
use gitvote.Prelude.{◌∷◌, ◌≡◌, List, ℕ, Option, Str}
use gitvote.Float.{Float}
use gitvote.World.{World, Env, after}
use gitvote.Processor.Workers.{handle, votes_closer_round, auto_closer_round, status_checker_round}
use gitvote.CfgSvc.{GitHubApp}
use gitvote.Handlers.Router.{Request, setup_router}

module _ {F : Type 0} ⦃num : Float F⦄ (env : Env F) where
  -- One activity of the service.
  pub data Acts (w : World F) : World F → Type 0 where
    -- Under any configuration of the router.
    serve :
        (matched : Str → Str → Option (List Str)) (parse_uuid : Str → Option ℕ) (start : ℕ)
        (github : GitHubApp) (request : Request)
        → Acts w (after (setup_router env matched parse_uuid start github request w))
    command :
        (cmd : Command) (rest : List Command)
        → w.queue ≡ cmd ∷ rest
        → Acts w (after (handle env cmd (record w { queue = rest })))
    close : Acts w (after (votes_closer_round env w))
    auto_close : Acts w (after (auto_closer_round env w))
    check_status : Acts w (after (status_checker_round env w))

  -- The worlds that the service may get to.
  pub data Reaches (w : World F) : World F → Type 0 where
    start : Reaches w w
    next : {v u : World F} → Reaches w v → Acts v u → Reaches w u

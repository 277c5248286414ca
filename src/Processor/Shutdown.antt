-- ===== src/Processor/Shutdown.antt =====
-- src/processor.rs: the workers stop once the token is cancelled.
use gitvote.Processor.Workers.{auto_closer_round, status_checker_round, handle, votes_closer_round}
use gitvote.Cmd.{Command}
use gitvote.Float.{Float}
use mathlib.Core.WellFounded.{Acc}
use gitvote.Prelude.{
  length-append, sym, inr, subst, to_ℕ, inl, ap, ◌+◌, ◌≤◌, arith, ◌⊎◌, count, length, ◌++◌, ◌<◌, ℕ,
  ◌≡◌, Bool, List, refl, [], ◌∷◌, zero, suc, true, false,
}
use gitvote.World.{after, World, then_do, Run, Env, done, fail, panic}
use gitvote.Processor.Queue.{handle-Unqueued}
use gitvote.Processor.Single.{count-append}
use gitvote.Processor.Tasks.{
  Worker, commands_handler, votes_closer, status_checker, votes_auto_closer, Loop, goes_on, breaks,
  unless_cancelled, next_command, turn, Service, settled, Turns, turn_of,
}

abbrev is_other : Worker → Bool
is_other commands_handler = false
is_other votes_closer = true
is_other status_checker = true
is_other votes_auto_closer = true

gone_less :
    (running before : List Worker) (k : Worker) (behind : List Worker)
    → is_other k ≡ true
    → running ≡ before ++ k ∷ behind
    → count is_other (before ++ behind) < count is_other running
gone_less running before k behind o e = omega (
  arith,
  count-append is_other before behind,
  count-append is_other before (k ∷ behind),
  ap (count is_other) e,
  ap to_ℕ o,
)

module _ {F : Type 0} ⦃num : Float F⦄ (env : Env F) where
  -- The other workers that run, and what the handlers of commands may still do.
  others : Service env → ℕ
  others s = count is_other s.running

  left : Service env → ℕ
  left s = length s.world.queue + length s.running

  -- Fewer other workers, or as many and less to do.
  Less : Service env → Service env → Type 0
  Less v s = (others v < others s) ⊎ ((others v ≤ others s) × (left v < left s))

  after_round :
      (s : Service env) (before : List Worker) (k : Worker) (behind : List Worker)
      → is_other k ≡ true
      → s.running ≡ before ++ k ∷ behind
      → (r : Run F ℕ)
      → Less
          (settled env true before k behind
            (then_do r (λ pause w. done (unless_cancelled true pause) w)))
          s
  unfolding Less others
  after_round s before k behind o e (done pause w) = inl (gone_less s.running before k behind o e)
  after_round s before k behind o e (fail x w) = inl (gone_less s.running before k behind o e)
  after_round s before k behind o e (panic w) = inl (gone_less s.running before k behind o e)

  idle-Less :
      (s : Service env) (before : List Worker) (k : Worker) (behind : List Worker) (w : World F)
      → s.running ≡ before ++ k ∷ behind
      → length w.queue ≤ length s.world.queue
      → Less (record { world = w; cancelled = true; running = before ++ behind }) s
  unfolding Less others left
  idle-Less s before k behind w e q = inr (
    omega (
      arith,
      count-append is_other before behind,
      count-append is_other before (k ∷ behind),
      ap (count is_other) e,
    ),
    omega (arith, q, length-append before behind, length-append before (k ∷ behind), ap length e),
  )

  shorter-Less :
      (s : Service env) (running : List Worker) (w : World F)
      → s.running ≡ running
      → length w.queue < length s.world.queue
      → Less (record { world = w; cancelled = true; running = running }) s
  unfolding Less others left
  shorter-Less s running w e q =
      inr (omega (arith, ap (count is_other) e), omega (arith, q, ap length e))

  after_command :
      (s : Service env) (before : List Worker) (behind : List Worker) (cmd : Command)
      (rest : List Command)
      → s.running ≡ before ++ commands_handler ∷ behind
      → s.world.queue ≡ cmd ∷ rest
      → (r : Run F (Unit {0})) → (after r).queue ≡ rest
      → Less
          (settled env true before commands_handler behind (then_do r (λ u w. done (goes_on 0) w)))
          s
  after_command s before behind cmd rest e q (done u w) h =
      shorter-Less s (before ++ commands_handler ∷ behind) w e
        (omega (arith, ap length q, ap length h))
  after_command s before behind cmd rest e q (fail x w) h =
      idle-Less s before commands_handler behind w e (omega (arith, ap length q, ap length h))
  after_command s before behind cmd rest e q (panic w) h =
      idle-Less s before commands_handler behind w e (omega (arith, ap length q, ap length h))

  after_next :
      (s : Service env) (before : List Worker) (behind : List Worker) (queue : List Command)
      → s.running ≡ before ++ commands_handler ∷ behind
      → s.world.queue ≡ queue
      → Less
          (settled env true before commands_handler behind (next_command env true queue s.world))
          s
  unfolding next_command
  after_next s before behind [] e q =
      idle-Less s before commands_handler behind s.world e (omega arith)
  after_next s before behind (cmd ∷ rest) e q =
      after_command s before behind cmd rest e q (handle env cmd (record s.world { queue = rest }))
        ((handle-Unqueued env cmd).queue (record s.world { queue = rest }))

  after_turn :
      (s : Service env) (before : List Worker) (k : Worker) (behind : List Worker)
      → s.running ≡ before ++ k ∷ behind
      → Less (settled env true before k behind (turn env k true s.world)) s
  unfolding turn
  after_turn s before commands_handler behind e = after_next s before behind s.world.queue e refl
  after_turn s before votes_closer behind e =
      after_round s before votes_closer behind refl e (votes_closer_round env s.world)
  after_turn s before status_checker behind e =
      after_round s before status_checker behind refl e (status_checker_round env s.world)
  after_turn s before votes_auto_closer behind e =
      after_round s before votes_auto_closer behind refl e (auto_closer_round env s.world)

  still_cancelled :
      (c : Bool) (before : List Worker) (k : Worker) (behind : List Worker) (r : Run F Loop)
      → (settled env c before k behind r).cancelled ≡ c
  still_cancelled c before k behind (done (goes_on pause) w) = refl
  still_cancelled c before k behind (done breaks w) = refl
  still_cancelled c before k behind (fail x w) = refl
  still_cancelled c before k behind (panic w) = refl

  Turns-Less :
      (s v : Service env) → s.cancelled ≡ true → Turns env s v → Less v s × (v.cancelled ≡ true)
  Turns-Less s v c (turn_of before k behind e) =
      subst
        (λ b.
          let u = settled env b before k behind (turn env k b s.world) in
          Less u s × (u.cancelled ≡ true))
        (sym c) (after_turn s before k behind e, still_cancelled true before k behind _)

  stops_within :
      (n m : ℕ) (s : Service env)
      → others s < n
      → left s < m
      → s.cancelled ≡ true
      → Acc (λ v u. Turns env u v) s
  unfolding Less
  stops_within zero m s a b c = absurd (omega (arith, a))
  stops_within (suc n) zero s a b c = absurd (omega (arith, b))
  stops_within (suc n) (suc m) s a b c = Acc.intro s λ v t.
      let (less, c') = Turns-Less s v c t in
      elim less [
        | inl h ↦ stops_within n (suc (left v)) v (omega (arith, h, a)) (omega arith) c'
        | inr (h, k) ↦ stops_within (suc n) m v (omega (arith, h, a)) (omega (arith, k, b)) c'
      ]

  ran-breaks :
      (r : Run F (Unit {0})) (v : World F)
      → then_do r (λ u w. done (goes_on 0) w) ≡ done breaks v
      → ⊥
  ran-breaks (done u w) v h = ground arith
  ran-breaks (fail x w) v h = ground arith
  ran-breaks (panic w) v h = ground arith

  idle-breaks :
      (c : Bool) (w v : World F)
      → done (unless_cancelled c 0) w ≡ done breaks v
      → (c ≡ true) × (v ≡ w)
  idle-breaks true w v h = (refl, sym (same_world w v h))
    where
      same_world : (w v : World F) → done breaks w ≡ done breaks v → w ≡ v
      same_world w v h = cc
  idle-breaks false w v h = absurd (ground arith)

  next_command-breaks :
      (c : Bool) (queue : List Command) (w v : World F)
      → next_command env c queue w ≡ done breaks v
      → (c ≡ true) × (queue ≡ []) × (v ≡ w)
  unfolding next_command
  next_command-breaks c [] w v h = let (e, s) = idle-breaks c w v h in (e, refl, s)
  next_command-breaks c (cmd ∷ rest) w v h =
      absurd (ran-breaks (handle env cmd (record w { queue = rest })) v h)

  -- A handler of commands leaves its loop, other than by a panic, only if the token is cancelled and
  -- the queue is empty, and it changes nothing then: no command that is queued is dropped.
  pub turn-breaks :
      (cancelled : Bool) (w v : World F)
      → turn env commands_handler cancelled w ≡ done breaks v
      → (cancelled ≡ true) × (w.queue ≡ []) × (v ≡ w)
  unfolding turn
  turn-breaks cancelled w v h = next_command-breaks cancelled w.queue w v h

  -- Once the token is cancelled, the workers take only finitely many turns, in whatever order.
  pub Turns-Acc : (s : Service env) → s.cancelled ≡ true → Acc (λ v u. Turns env u v) s
  Turns-Acc s c = stops_within (suc (others s)) (suc (left s)) s (omega arith) (omega arith) c

-- ===== src/Processor/Drains.antt =====
-- src/processor.rs: the rounds of the votes closer, with a database and a GitHub that answer.
use gitvote.World.Quiet.{Quiet-pure}
use gitvote.Db.{has_id, is_finished}
use gitvote.Results.{VoteResults}
use gitvote.Results.Available.{IsAvailable}
use gitvote.Float.{Float}
use gitvote.World.{Row, after, Call, Trace, World, Env}
use gitvote.Prelude.{
  arith, ◌≤◌, ◌+◌, ◌<◌, true, none, ◌≡◌, sym, Memᴰ, any, suc, subst, All, Option, ℕ, List, [], ◌∷◌,
}
use gitvote.Db.Closing
use gitvote.Db.Closing.{Closes, closing_time}
use gitvote.Db.Sound.{update_where-All, close_row-IsSound}
use gitvote.Db.Update.{close_row}
use gitvote.Processor.Progress.{IsReady, open_count, close_finished_vote-Fewer}
use gitvote.Processor.Rounds.{attempt-Post, Quiet-report, votes_closer_round-Closes}
use gitvote.Processor.Workers.{report, closer_pause, close_finished_vote, votes_closer_round}
use gitvote.World.Steps.{Table, Steps-quiet, after_post, then_do-Post}

All-Memᴰ : {A : Type 0} (P : A → Type 0) (xs : List A) (x : A) → All P xs → Memᴰ x xs → P x
All-Memᴰ P [] x a m = elim m [ ]
All-Memᴰ P (y ∷ xs) x (p, a) (Memᴰ.head e) = subst P (sym e) p
All-Memᴰ P (y ∷ xs) x (p, a) (Memᴰ.tail m) = All-Memᴰ P xs x a m

module _ {F : Type 0} where
  close_row-IsReady :
      (now : ℕ) (results : Option (VoteResults F)) (row : Row F)
      → IsReady row
      → IsReady (close_row now results row)
  unfolding close_row
  close_row-IsReady now results row (sound, slash) = (close_row-IsSound now results row, slash)

  Closes-IsReady :
      (env : Env F) (now : ℕ) (t u : Table F) → Closes env now t u → All IsReady t → All IsReady u
  Closes-IsReady env now t u (Closing.kept e) a = subst (All IsReady) (sym e) a
  Closes-IsReady env now t u (Closing.closed row results m f o e) a = subst (All IsReady) (sym e) (
      update_where-All (has_id row.vote_id) (close_row now results) t
        (close_row-IsReady now results) a)

module _ {F : Type 0} ⦃num : Float F⦄ (env : Env F) where
  -- A vote is finished when the next round reads the clock.
  abbrev pub IsDue : World F → Type 0
  IsDue w = any (is_finished env (closing_time env w)) w.table ≡ true

  -- `n` rounds of the votes closer in a row, at the start of each of which a vote is finished.
  pub data Busy (w : World F) : ℕ → World F → Type 0 where
    idle : Busy w 0 w
    round :
        {n : ℕ} {v : World F}
        → Busy w n v
        → IsDue v
        → Busy w (suc n) (after (votes_closer_round env v))

  module _ (up : IsAvailable env)
      (answers : (trace : Trace) (c : Call) → env.db_error trace c ≡ none) where
    -- With such answers and rows, a round of the votes closer that finds a finished vote leaves fewer votes open,
    -- whatever becomes of its report.
    pub votes_closer_round-progress :
        (w : World F)
        → All IsReady w.table
        → IsDue w
        → open_count (after (votes_closer_round env w)).table < open_count w.table
    unfolding votes_closer_round close_finished_vote
    votes_closer_round-progress w ready due =
        let less : Table F → Type 0 = λ u. open_count u < open_count w.table in
        after_post less _ (
          then_do-Post (λ _. less) (λ _. less) less _
            (λ closed. Steps-quiet _ (λ u p. p) (Quiet-pure (closer_pause env closed))) _
            (attempt-Post less _ (
              then_do-Post (λ _. less) (λ _. less) less (report env)
                (λ found. Steps-quiet _ (λ u p. p) (Quiet-report env found)) _
                (close_finished_vote-Fewer env up answers w due
                  (λ row m. All-Memᴰ IsReady w.table row ready m)))))

    Busy-IsReady :
        {w : World F} {n : ℕ} {v : World F} → Busy w n v → All IsReady w.table → All IsReady v.table
    Busy-IsReady idle a = a
    Busy-IsReady (round {v = v} b due) a =
        Closes-IsReady env _ v.table _ (votes_closer_round-Closes env v) (Busy-IsReady b a)

    -- With a database that answers, a GitHub that answers with valid times in its reactions, and rows
    -- that are sound and name a repository with an owner, the rounds of the votes closer in a row that
    -- find a finished vote are at most as many as the votes that were open: after that many rounds no
    -- finished vote is left to close.
    pub Busy-bound :
        {w : World F} {n : ℕ} {v : World F}
        → All IsReady w.table
        → Busy w n v
        → n + open_count v.table ≤ open_count w.table
    Busy-bound ready idle = omega arith
    Busy-bound ready (round {v = v} b due) =
        omega (arith, Busy-bound ready b, votes_closer_round-progress v (Busy-IsReady b ready) due)

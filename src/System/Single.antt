-- ===== src/System/Single.antt =====
-- The number of open votes of an issue in the running service.
use gitvote.Processor.Commands.{check_vote-Keeps, cancel_vote-table}
use gitvote.Processor.Rounds.{
  table-status_checker_round, auto_closer_round-Keeps, votes_closer_round-Closes,
}
use gitvote.Handlers.Routed.{setup_router-Queues}
use gitvote.Handlers.Events.{queued, nothing, Queues}
use gitvote.Processor.Workers.{execute, handle}
use gitvote.Cmd.{Command}
use gitvote.Results.{VoteResults}
use gitvote.Float.{Float}
use gitvote.Cmd
use gitvote.Prelude.{
  ◌≡◌, refl, sym, subst, ap, Bool, false, not, Option, [], ◌∷◌, ◌≤◌, Str, ℤ, ℕ, count, select, map,
  arith,
}
use gitvote.World.{World, Env, Row, Run, done, fail, panic, after, then_do, caught}
use gitvote.World.Steps.{Table}
use gitvote.Db.{open_of, is_open, is_of_issue, update_where, has_id}
use gitvote.Db.Update.{close_row}
use gitvote.Db.Changes.{Keeps, without_end, without_check}
use gitvote.Db.Changes
use gitvote.Db.Closing
use gitvote.Processor.Single.{Single, create_vote-Single}
use gitvote.System.{Acts, serve, command, close, auto_close, check_status, Reaches, start, next}

module _ {F : Type 0} where
  -- No issue has more open votes than before.
  NoMore : Table F → Table F → Type 0
  NoMore t u = (name : Str) (n : ℤ) → count (open_of name n) u ≤ count (open_of name n) t

  NoMore-Single : (t u : Table F) → NoMore t u → Single t → Single u
  unfolding NoMore
  NoMore-Single t u h s name n = omega (arith, h name n, s name n)

  count-map :
      (p : Row F → Bool) (f : Row F → Row F) (t : Table F)
      → ((row : Row F) → p (f row) ≡ p row)
      → count p (map f t) ≡ count p t
  count-map p f [] h = refl
  count-map p f (row ∷ t) h = ground (arith, h row, count-map p f t h)

  Keeps-NoMore :
      (f : Row F → Row F) (t u : Table F)
      → ((name : Str) (n : ℤ) (row : Row F) → open_of name n (f row) ≡ open_of name n row)
      → Keeps f t u
      → NoMore t u
  unfolding NoMore
  Keeps-NoMore f t u h k name n = omega (
    arith,
    count-map (open_of name n) f t (h name n),
    count-map (open_of name n) f u (h name n),
    ap (count (open_of name n)) k,
  )

  open_of-without_end :
      (name : Str) (n : ℤ) (row : Row F) → open_of name n (without_end row) ≡ open_of name n row
  unfolding is_open is_of_issue
  open_of-without_end name n row = refl

  open_of-without_check :
      (name : Str) (n : ℤ) (row : Row F) → open_of name n (without_check row) ≡ open_of name n row
  unfolding is_open is_of_issue
  open_of-without_check name n row = refl

  select-le : (p q : Row F → Bool) (t : Table F) → count p (select q t) ≤ count p t
  select-le p q [] = omega arith
  select-le p q (row ∷ t) = ground (arith, select-le p q t)

  update_where-le :
      (p q : Row F → Bool) (f : Row F → Row F) (t : Table F)
      → ((row : Row F) → p (f row) ≡ false)
      → count p (update_where q f t) ≤ count p t
  unfolding update_where
  update_where-le p q f [] h = omega arith
  update_where-le p q f (row ∷ t) h = ground (arith, h row, update_where-le p q f t h)

  open_of-close_row :
      (name : Str) (n : ℤ) (now : ℕ) (results : Option (VoteResults F)) (row : Row F)
      → open_of name n (close_row now results row) ≡ false
  unfolding is_open close_row
  open_of-close_row name n now results row = ground arith

  Closes-NoMore : (env : Env F) (now : ℕ) (t u : Table F) → Closing.Closes env now t u → NoMore t u
  unfolding NoMore
  Closes-NoMore env now t u (Closing.kept e) name n = omega (arith, ap (count (open_of name n)) e)
  Closes-NoMore env now t u (Closing.closed row results m f o e) name n = omega (
    arith,
    ap (count (open_of name n)) e,
    update_where-le (open_of name n) (has_id row.vote_id) (close_row now results) t
        (open_of-close_row name n now results),
  )

  Cancels-NoMore :
      (env : Env F) (name : Str) (n : ℤ) (t u : Table F)
      → Changes.Cancels env name n t u
      → NoMore t u
  unfolding NoMore
  Cancels-NoMore env name n t u (Changes.kept e) m k = omega (arith, ap (count (open_of m k)) e)
  Cancels-NoMore env name n t u (Changes.cancelled e) m k = omega (
    arith,
    ap (count (open_of m k)) e,
    select-le (open_of m k) (λ row. not (open_of name n row)) t,
  )

pub after_ignored :
    {F A : Type 0} (r : Run F A) → after (then_do (caught r) (λ _ w. done tt w)) ≡ after r
after_ignored (done a w) = refl
after_ignored (fail e w) = refl
after_ignored (panic w) = refl

module _ {F : Type 0} ⦃num : Float F⦄ (env : Env F) where
  execute-Single :
      (cmd : Command) (w : World F) → Single w.table → Single (after (execute env cmd w)).table
  execute-Single (Cmd.create_vote i) w s = create_vote-Single env i w s
  execute-Single (Cmd.cancel_vote i) w s =
      NoMore-Single w.table _
        (Cancels-NoMore env i.repository_full_name i.issue_number w.table _
          (cancel_vote-table env i w))
        s
  execute-Single (Cmd.check_vote i) w s =
      NoMore-Single w.table _
        (Keeps-NoMore without_check w.table _ open_of-without_check (check_vote-Keeps env i w)) s

  handle-Single :
      (cmd : Command) (w : World F) → Single w.table → Single (after (handle env cmd w)).table
  unfolding handle
  handle-Single cmd w s =
      subst (λ v. Single v.table) (sym (after_ignored (execute env cmd w))) (execute-Single cmd w s)

  Queues-Single : (w v : World F) → Queues env w v → Single w.table → Single v.table
  Queues-Single w v (nothing q) s = subst Single (sym q.table) s
  Queues-Single w v (queued cmd t q) s = subst Single (sym t) s

  -- Each activity keeps it so that an issue has at most one open vote.
  pub Acts-Single : {w v : World F} → Acts env w v → Single w.table → Single v.table
  Acts-Single {w} {v} (serve matched parse_uuid since github request) s =
      Queues-Single w v (setup_router-Queues env matched parse_uuid since github request w).0 s
  Acts-Single {w} {v} (command cmd rest e) s = handle-Single cmd (record w { queue = rest }) s
  Acts-Single {w} {v} close s =
      NoMore-Single w.table _ (Closes-NoMore env _ w.table _ (votes_closer_round-Closes env w)) s
  Acts-Single {w} {v} auto_close s =
      NoMore-Single w.table _
        (Keeps-NoMore without_end w.table _ open_of-without_end (auto_closer_round-Keeps env w)) s
  Acts-Single {w} {v} check_status s = subst Single (sym (table-status_checker_round env w)) s

  -- If an issue has at most one open vote at the start, it does in every world that the service gets
  -- to by requests, queued commands and rounds of its workers, one after another.
  pub Reaches-Single : {w v : World F} → Reaches env w v → Single w.table → Single v.table
  Reaches-Single start s = s
  Reaches-Single (next r a) s = Acts-Single a (Reaches-Single r s)

-- ===== src/Db/Changes.antt =====
-- src/db.rs: what each writing query may have done to the table, however it ends.
use gitvote.Prelude.{◌≡◌, refl, ap, Bool, not, none, [], ◌∷◌, map, Str, ℕ, ℤ, select, arith}
use gitvote.World.{Row, Env, Query}
use gitvote.World.Quiet.{Quiet}
use gitvote.World.Steps.{Table, Steps, Steps->>=, Steps-quiet}
use gitvote.Db
use gitvote.Db.{open_of, has_id, update_where, modify, statement, rows, db_now, query_opt}
use gitvote.Db.Update.{end_row, check_row}
use gitvote.Db.Effects.{Quiet-statement, Quiet-rows, Quiet-query_opt}

module _ {F : Type 0} where
  -- Each row of the table is as before in all that `f` keeps of it.
  abbrev pub Keeps : (Row F → Row F) → Table F → Table F → Type 0
  Keeps f t u = map f u ≡ map f t

  -- A row without the time at which its vote ends, or was last checked.
  abbrev pub without_end : Row F → Row F
  without_end row = record row { ends_at = 0 }

  abbrev pub without_check : Row F → Row F
  without_check row = record row { checked_at = none }

  pub update_where-Keeps :
      (f g : Row F → Row F) (p : Row F → Bool) (t : Table F)
      → ((row : Row F) → f (g row) ≡ f row)
      → Keeps f t (update_where p g t)
  unfolding update_where
  update_where-Keeps f g p [] h = refl
  update_where-Keeps f g p (row ∷ t) h = ground (arith, h row, update_where-Keeps f g p t h)

  pub end_row-without_end :
      (now : ℕ) (row : Row F) → without_end (end_row now row) ≡ without_end row
  unfolding end_row
  end_row-without_end now row = refl

  pub check_row-without_check :
      (now : ℕ) (row : Row F) → without_check (check_row now row) ≡ without_check row
  unfolding check_row
  check_row-without_check now row = refl

module _ {F : Type 0} (env : Env F) where
  pub Quiet-db_now : Quiet (db_now env)
  Quiet-db_now = record { same = λ w. record { table = refl; queue = refl } }

  pub Steps-modify :
      {P R : Table F → Type 0} {Q : Table F → Type 0} (f : Table F → Table F)
      → ((u : Table F) → P u → Q (f u))
      → Steps P (modify env f) (λ _. Q) R
  Steps-modify f k = record { run = λ w p. k w.table p }

  module _ (name : Str) (n : ℤ) where
    -- Nothing changed, or the open votes of the issue are gone and no other row is.
    pub data Cancels (t u : Table F) : Type 0 where
      kept : u ≡ t → Cancels t u
      cancelled : u ≡ select (λ row. not (open_of name n row)) t → Cancels t u

    pub cancel_vote-Cancels :
        (t : Table F) → Steps (λ u. u ≡ t) (Db.cancel_vote env name n) (λ _. Cancels t) (Cancels t)
    unfolding Db.cancel_vote
    cancel_vote-Cancels t =
        Steps->>= (λ _ u. u ≡ t) _ _
          (Steps-quiet _ (λ u p. kept p) (Quiet-statement env Query.cancel_vote))
          λ done.
            Steps->>= (λ _ u. u ≡ t) _ _
              (Steps-quiet _ (λ u p. kept p) (Quiet-rows env (open_of name n)))
              λ deleted.
                Steps->>= (λ _. Cancels t) _ _
                  (Steps-modify _
                    λ u p. cancelled (ap (select (λ row. not (open_of name n row))) p))
                  λ changed.
                    Steps-quiet _ (λ u p. p) (Quiet-query_opt (map (λ row. row.vote_id) deleted))

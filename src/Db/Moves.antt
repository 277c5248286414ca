-- ===== src/Db/Moves.antt =====
-- src/db.rs: the moves of the table of votes, and what a move does to each vote.
use gitvote.Prelude.{
  ℕ, ℤ, Str, ◌≡◌, refl, sym, ap, ◌∙◌, subst, inl, inr, true, false, Bool-cases, not, Option, none,
  some, [], ◌∷◌, ◌++◌, any, select, count, ℕ_discrete, arith,
}
use gitvote.Results.{VoteResults}
use gitvote.World.{Row, sql_null}
use gitvote.World.Steps.{Table}
use gitvote.Db.{has_id, update_where, is_open, open_of, to_column}
use gitvote.Db.Update.{close_row}
use gitvote.Db.Changes.{without_end, without_check}
use gitvote.Db.Edits.{OpenId, Anything, Edits, untouched, edited}
use gitvote.Db.Life

module _ {F : Type 0} where
  -- A row of a vote that was just created.
  pub record IsNew (row : Row F) : Type 0 where
    pub still_open : row.closed ≡ false
    pub not_closed : row.closed_at ≡ none
    pub no_results : row.results ≡ sql_null

  -- One move: a vote is opened, the open votes of an issue are cancelled, open votes are updated,
  -- or an open vote is closed.
  pub data Moves (t u : Table F) : Type 0 where
    rests : u ≡ t → Moves t u
    opens :
        (row : Row F)
        → IsNew row
        → any (has_id row.vote_id) t ≡ false
        → count (open_of row.repository_full_name row.issue_number) t ≡ 0
        → u ≡ t ++ row ∷ []
        → Moves t u
    cancels : (name : Str) (n : ℤ) → u ≡ select (λ row. not (open_of name n row)) t → Moves t u
    checks : Edits without_check Anything t u → Moves t u
    sets_end : Edits without_end Anything t u → Moves t u
    closes :
        (vote_id now : ℕ) (results : Option (VoteResults F))
        → OpenId t vote_id
        → u ≡ update_where (has_id vote_id) (close_row now results) t
        → Moves t u

  -- What may become of a vote: once it has ended, nothing.
  pub data Advances : Life.Phase F → Life.Phase F → Type 0 where
    stays : {p : Life.Phase F} → Advances p p
    starts : Advances Life.absent Life.in_progress
    is_cancelled : Advances Life.in_progress Life.absent
    ends :
        {row : Row F} (now : ℕ) (results : Option (VoteResults F))
        → row.closed ≡ true
        → row.closed_at ≡ some now
        → row.results ≡ to_column results
        → Advances Life.in_progress (Life.ended row)

  stays_at : {p q : Life.Phase F} → q ≡ p → Advances p q
  stays_at {p} e = subst (Advances p) (sym e) stays

  phase_of-still : (row : Row F) → row.closed ≡ false → Life.phase_of row ≡ Life.in_progress
  unfolding Life.phase_of
  phase_of-still row h = ground arith

  edit_phase :
      (f g : Row F → Row F) (id vote_id : ℕ) (v : Table F)
      → ((row : Row F) → (f row).vote_id ≡ row.vote_id)
      → ((row : Row F) → (f row).closed ≡ row.closed)
      → ((row : Row F) → f (g row) ≡ f row)
      → Life.phase vote_id v ≡ Life.in_progress
      → Life.phase id (update_where (has_id vote_id) g v) ≡ Life.phase id v
  edit_phase f g id vote_id v keeps_id keeps_closed k o = elim (ℕ_discrete id vote_id) [
    | yes e ↦
        let (row, still, h) = Life.phase-updated vote_id g v ids o in
        subst (λ i. Life.phase i (update_where (has_id vote_id) g v) ≡ Life.phase i v) (sym e)
          (h ∙ phase_of-still (g row) (closed_same row ∙ still) ∙ sym o)
    | no n ↦ Life.phase-update_where id vote_id g v ids n
  ]
    where
      ids : (row : Row F) → (g row).vote_id ≡ row.vote_id
      ids row = sym (keeps_id (g row)) ∙ ap (λ r. r.vote_id) (k row) ∙ keeps_id row

      closed_same : (row : Row F) → (g row).closed ≡ row.closed
      closed_same row = sym (keeps_closed (g row)) ∙ ap (λ r. r.closed) (k row) ∙ keeps_closed row

  Edits-phase :
      (f : Row F → Row F) (t u : Table F) (id : ℕ)
      → ((row : Row F) → (f row).vote_id ≡ row.vote_id)
      → ((row : Row F) → (f row).closed ≡ row.closed)
      → Life.IsUnique t
      → Edits f Anything t u
      → Life.phase id u ≡ Life.phase id t
  Edits-phase f t u id ids opens_same unique (untouched e) = ap (Life.phase id) e
  Edits-phase f t u id ids opens_same unique (edited v vote_id g h m why k e) =
      let o =
        Edits-phase f t v vote_id ids opens_same unique h ∙ Life.phase-OpenId vote_id t unique m in
      ap (Life.phase id) e
      ∙ edit_phase f g id vote_id v ids opens_same k o
      ∙ Edits-phase f t v id ids opens_same unique h

  opened_phase :
      (id : ℕ) (t : Table F) (row : Row F)
      → IsNew row
      → any (has_id row.vote_id) t ≡ false
      → Advances (Life.phase id t) (Life.phase id (t ++ row ∷ []))
  opened_phase id t row new own = elim (Bool-cases (has_id id row)) [
    | inl h ↦
        let free = subst (λ i. any (has_id i) t ≡ false) (Life.has_id-eq id row h) own in
        subst (λ p. Advances p (Life.phase id (t ++ row ∷ []))) (sym (Life.phase-absent id t free))
          (subst (Advances Life.absent)
            (sym (Life.phase-appended id t row h free ∙ phase_of-still row new.still_open)) starts)
    | inr h ↦ stays_at (Life.phase-append id t row h)
  ]

  phase_of-closed :
      (now : ℕ) (results : Option (VoteResults F)) (row : Row F)
      → Advances Life.in_progress (Life.phase_of (close_row now results row))
  unfolding Life.phase_of close_row
  phase_of-closed now results row = ends now results refl refl refl

  close_row-vote_id :
      (now : ℕ) (results : Option (VoteResults F)) (row : Row F)
      → (close_row now results row).vote_id ≡ row.vote_id
  unfolding close_row
  close_row-vote_id now results row = refl

  closed_phase :
      (id vote_id now : ℕ) (results : Option (VoteResults F)) (t : Table F)
      → Life.phase vote_id t ≡ Life.in_progress
      → Advances
          (Life.phase id t)
          (Life.phase id (update_where (has_id vote_id) (close_row now results) t))
  closed_phase id vote_id now results t o = elim (ℕ_discrete id vote_id) [
    | yes e ↦
        let g = close_row now results in
        let (row, still, h) = Life.phase-updated vote_id g t (close_row-vote_id now results) o in
        subst (λ i. Advances (Life.phase i t) (Life.phase i (update_where (has_id vote_id) g t)))
          (sym e)
          (subst (λ p. Advances p (Life.phase vote_id (update_where (has_id vote_id) g t))) (sym o)
            (subst (Advances Life.in_progress) (sym h) (phase_of-closed now results row)))
    | no n ↦ stays_at (
        Life.phase-update_where id vote_id (close_row now results) t (close_row-vote_id now results)
          n)
  ]

  not_cancelled :
      (name : Str) (n : ℤ) (row : Row F) → not (open_of name n row) ≡ false → row.closed ≡ false
  unfolding is_open
  not_cancelled name n row h = ground arith

  cancelled_phase :
      (id : ℕ) (name : Str) (n : ℤ) (t : Table F)
      → Life.IsUnique t
      → Advances (Life.phase id t) (Life.phase id (select (λ row. not (open_of name n row)) t))
  cancelled_phase id name n t unique =
      elim (Life.phase-select id (λ row. not (open_of name n row)) t unique
        (not_cancelled name n)) [
          | inl e ↦ stays_at e
          | inr (e, e') ↦
              subst (λ p. Advances p (Life.phase id (select (λ row. not (open_of name n row)) t)))
                (sym e) (subst (Advances Life.in_progress) (sym e') is_cancelled)
        ]

  -- In a table whose ids are unique, a move lets every vote advance by at most one phase: from none
  -- to a vote in progress, and from there to a closed vote with its results, or back by a cancel.
  pub Moves-Advances :
      (id : ℕ) (t u : Table F)
      → Life.IsUnique t
      → Moves t u
      → Advances (Life.phase id t) (Life.phase id u)
  Moves-Advances id t u unique (rests e) = stays_at (ap (Life.phase id) e)
  Moves-Advances id t u unique (opens row new own free e) =
      subst (λ v. Advances (Life.phase id t) (Life.phase id v)) (sym e)
        (opened_phase id t row new own)
  Moves-Advances id t u unique (cancels name n e) =
      subst (λ v. Advances (Life.phase id t) (Life.phase id v)) (sym e)
        (cancelled_phase id name n t unique)
  Moves-Advances id t u unique (checks e) =
      stays_at (Edits-phase without_check t u id (λ row. refl) (λ row. refl) unique e)
  Moves-Advances id t u unique (sets_end e) =
      stays_at (Edits-phase without_end t u id (λ row. refl) (λ row. refl) unique e)
  Moves-Advances id t u unique (closes vote_id now results m e) =
      subst (λ v. Advances (Life.phase id t) (Life.phase id v)) (sym e)
        (closed_phase id vote_id now results t (Life.phase-OpenId vote_id t unique m))

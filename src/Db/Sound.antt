-- ===== src/Db/Sound.antt =====
-- src/db.rs: what holds of every row of the table of votes, and that a move keeps it.
use gitvote.Prelude.{
  ℕ, ◌≡◌, refl, sym, ap, ◌∙◌, subst, inl, inr, Bool, true, false, Bool-cases, Option, none, some,
  [], ◌∷◌, ◌++◌, any, select, All, if◌then◌else◌, arith,
}
use gitvote.Results.{VoteResults}
use gitvote.World.{Row, sql_null}
use gitvote.World.Steps.{Table}
use gitvote.Db.{has_id, update_where, to_column}
use gitvote.Db.Update.{close_row}
use gitvote.Db.Changes.{without_end, without_check}
use gitvote.Db.Edits.{Anything, Edits, untouched, edited}
use gitvote.Db.Life.{IsUnique, has_id-same, select-none}
use gitvote.Db.Moves.{Moves, rests, opens, cancels, checks, sets_end, closes}
use gitvote.Github.Names.{char_eq}

module _ {F : Type 0} where
  -- A vote in progress has no results and no closing time; a closed vote has a closing time and a
  -- value in the column of the results.
  pub data IsSound (row : Row F) : Type 0 where
    in_progress : row.closed ≡ false → row.closed_at ≡ none → row.results ≡ sql_null → IsSound row
    has_ended :
        (now : ℕ) (results : Option (VoteResults F))
        → row.closed ≡ true
        → row.closed_at ≡ some now
        → row.results ≡ to_column results
        → IsSound row

  -- The ids of the rows are distinct, and each row is sound.
  abbrev pub IsWellFormed : Table F → Type 0
  IsWellFormed t = IsUnique t × All IsSound t

  has_id_swap : (row row' : Row F) → has_id row.vote_id row' ≡ has_id row'.vote_id row
  unfolding has_id char_eq
  has_id_swap row row' = ground arith

  any-append :
      (p : Row F → Bool) (t : Table F) (row : Row F)
      → any p t ≡ false
      → p row ≡ false
      → any p (t ++ row ∷ []) ≡ false
  any-append p [] row h k = ground arith
  any-append p (row' ∷ t) row h k = ground (arith, any-append p t row)

  append-IsUnique :
      (t : Table F) (row : Row F)
      → IsUnique t
      → any (has_id row.vote_id) t ≡ false
      → IsUnique (t ++ row ∷ [])
  append-IsUnique [] row u h = (refl, tt)
  append-IsUnique (row' ∷ t) row (own, u) h = (
    any-append (has_id row'.vote_id) t row own (has_id_swap row' row ∙ ground arith),
    append-IsUnique t row u (ground arith),
  )

  select-IsUnique : (p : Row F → Bool) (t : Table F) → IsUnique t → IsUnique (select p t)
  select-IsUnique p [] u = tt
  select-IsUnique p (row ∷ t) (own, u) = elim (Bool-cases (p row)) [
    | inl h ↦ rw h (select-none row.vote_id p t own, select-IsUnique p t u)
    | inr h ↦ rw h (select-IsUnique p t u)
  ]

  if_same :
      (vote_id : ℕ) (b : Bool) (g : Row F → Row F) (row : Row F)
      → (g row).vote_id ≡ row.vote_id
      → (if b then g row else row).vote_id ≡ row.vote_id
  if_same vote_id true g row k = k
  if_same vote_id false g row k = refl

  module _ (p : Row F → Bool) (g : Row F → Row F) where
    any-update_where :
        (vote_id : ℕ) (t : Table F)
        → ((row : Row F) → (g row).vote_id ≡ row.vote_id)
        → any (has_id vote_id) (update_where p g t) ≡ any (has_id vote_id) t
    unfolding update_where
    any-update_where vote_id [] k = refl
    any-update_where vote_id (row ∷ t) k =
        ground (arith, has_id-same vote_id (g row) row (k row), any-update_where vote_id t k)

    update_where-IsUnique :
        (t : Table F)
        → ((row : Row F) → (g row).vote_id ≡ row.vote_id)
        → IsUnique t
        → IsUnique (update_where p g t)
    unfolding update_where
    update_where-IsUnique [] k u = tt
    update_where-IsUnique (row ∷ t) k (own, u) = (
      subst (λ i. any (has_id i) (update_where p g t) ≡ false)
          (sym (if_same row.vote_id (p row) g row (k row)))
          (any-update_where row.vote_id t k ∙ own),
      update_where-IsUnique t k u,
    )

  pub update_where-All :
      {P : Row F → Type 0} (p : Row F → Bool) (g : Row F → Row F) (t : Table F)
      → ((row : Row F) → P row → P (g row))
      → All P t
      → All P (update_where p g t)
  unfolding update_where
  update_where-All p g [] k s = tt
  update_where-All p g (row ∷ t) k (r, s) = (
    elim (Bool-cases (p row)) [ inl h ↦ rw h (k row r) | inr h ↦ rw h r ],
    update_where-All p g t k s,
  )

  append-IsSound :
      (t : Table F) (row : Row F) → All IsSound t → IsSound row → All IsSound (t ++ row ∷ [])
  append-IsSound [] row s r = (r, tt)
  append-IsSound (row' ∷ t) row (r', s) r = (r', append-IsSound t row s r)

  select-IsSound : (p : Row F → Bool) (t : Table F) → All IsSound t → All IsSound (select p t)
  select-IsSound p [] s = tt
  select-IsSound p (row ∷ t) (r, s) = elim (Bool-cases (p row)) [
    | inl h ↦ rw h (r, select-IsSound p t s)
    | inr h ↦ rw h (select-IsSound p t s)
  ]

  pub close_row-IsSound :
      (now : ℕ) (results : Option (VoteResults F)) (row : Row F)
      → IsSound (close_row now results row)
  unfolding close_row
  close_row-IsSound now results row = has_ended now results refl refl refl

  close_row-keeps_id :
      (now : ℕ) (results : Option (VoteResults F)) (row : Row F)
      → (close_row now results row).vote_id ≡ row.vote_id
  unfolding close_row
  close_row-keeps_id now results row = refl

  -- Two rows that agree in what soundness is about.
  IsSound-as :
      (row row' : Row F)
      → row'.closed ≡ row.closed
      → row'.closed_at ≡ row.closed_at
      → row'.results ≡ row.results
      → IsSound row
      → IsSound row'
  IsSound-as row row' c at r (in_progress h k l) = in_progress (c ∙ h) (at ∙ k) (r ∙ l)
  IsSound-as row row' c at r (has_ended now results h k l) =
      has_ended now results (c ∙ h) (at ∙ k) (r ∙ l)

  module _ (f : Row F → Row F) (ids : (row : Row F) → (f row).vote_id ≡ row.vote_id)
      (closeds : (row : Row F) → (f row).closed ≡ row.closed)
      (ats : (row : Row F) → (f row).closed_at ≡ row.closed_at)
      (columns : (row : Row F) → (f row).results ≡ row.results) where
    Edits-IsWellFormed : (t u : Table F) → Edits f Anything t u → IsWellFormed t → IsWellFormed u
    Edits-IsWellFormed t u (untouched e) good = subst IsWellFormed (sym e) good
    Edits-IsWellFormed t u (edited v vote_id g h m why k e) good =
        let (unique, sound) = Edits-IsWellFormed t v h good in
        subst IsWellFormed (sym e) (
          update_where-IsUnique (has_id vote_id) g v
              (λ row. sym (ids (g row)) ∙ ap (λ r. r.vote_id) (k row) ∙ ids row) unique,
          update_where-All (has_id vote_id) g v
              (λ row.
                IsSound-as row (g row)
                  (sym (closeds (g row)) ∙ ap (λ r. r.closed) (k row) ∙ closeds row)
                  (sym (ats (g row)) ∙ ap (λ r. r.closed_at) (k row) ∙ ats row)
                  (sym (columns (g row)) ∙ ap (λ r. r.results) (k row) ∙ columns row))
              sound,
        )

  -- A move keeps it so that the ids are distinct and each row is sound.
  pub Moves-IsWellFormed : (t u : Table F) → Moves t u → IsWellFormed t → IsWellFormed u
  Moves-IsWellFormed t u (rests e) good = subst IsWellFormed (sym e) good
  Moves-IsWellFormed t u (opens row new own free e) (unique, sound) = subst IsWellFormed (sym e) (
    append-IsUnique t row unique own,
    append-IsSound t row sound (in_progress new.still_open new.not_closed new.no_results),
  )
  Moves-IsWellFormed t u (cancels name n e) (unique, sound) =
      subst IsWellFormed (sym e) (select-IsUnique _ t unique, select-IsSound _ t sound)
  Moves-IsWellFormed t u (checks e) good =
      Edits-IsWellFormed without_check (λ row. refl) (λ row. refl) (λ row. refl) (λ row. refl) t u e
        good
  Moves-IsWellFormed t u (sets_end e) good =
      Edits-IsWellFormed without_end (λ row. refl) (λ row. refl) (λ row. refl) (λ row. refl) t u e
        good
  Moves-IsWellFormed t u (closes vote_id now results m e) (unique, sound) =
      subst IsWellFormed (sym e) (
        update_where-IsUnique (has_id vote_id) (close_row now results) t
            (close_row-keeps_id now results) unique,
        update_where-All (has_id vote_id) (close_row now results) t
            (λ row s. close_row-IsSound now results row) sound,
      )

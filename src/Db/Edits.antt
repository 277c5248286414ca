-- ===== src/Db/Edits.antt =====
-- src/db.rs: the rows that the queries on open votes return, and updates of open votes.
use gitvote.Prelude.{
  ℕ, ℤ, Str, ◌≡◌, refl, sym, ap, ◌∙◌, subst, Bool, true, Option, Option-cases, none, some, List, [],
  ◌∷◌, map, Memᴰ, All, select, inl, inr, arith,
}
use gitvote.Results.{Vote}
use gitvote.World.{done, World, Row, Env, Query}
use gitvote.World.Steps.{Table, Steps, Steps->>=, Steps-quiet, Steps-weaken}
use gitvote.Db
use gitvote.Db.{
  results_of, from_row, from_rows, query_opt, optional_vote, is_open, is_of_issue, open_of, has_id,
  update_where, statement, rows, closes_on_passing,
}
use gitvote.Db.Update.{end_row, check_row, update_vote_ends_at, update_vote_last_check}
use gitvote.Db.Effects.{Quiet-statement, Quiet-now}
use gitvote.Db.Changes.{
  Keeps, without_end, without_check, update_where-Keeps, end_row-without_end,
  check_row-without_check, Quiet-db_now, Steps-modify,
}
use gitvote.Db.Closing.{select-Memᴰ}

-- No reason is needed.
abbrev pub Anything : ℕ → Type 0
Anything vote_id = Unit

module _ {F : Type 0} where
  -- The table has an open vote with the id.
  pub record OpenId (t : Table F) (vote_id : ℕ) : Type 0 where
    pub row : Row F
    pub member : Memᴰ row t
    pub id : row.vote_id ≡ vote_id
    pub still_open : is_open row ≡ true

  -- A table after updates of votes that were open: `f` keeps nothing of what an update changes, and
  -- there was a reason for the update of a vote with that id.
  pub data Edits (f : Row F → Row F) (Why : ℕ → Type 0) (t : Table F) : Table F → Type 0 where
    untouched : {u : Table F} → u ≡ t → Edits f Why t u
    edited :
        {u : Table F} (v : Table F) (vote_id : ℕ) (g : Row F → Row F)
        → Edits f Why t v
        → OpenId t vote_id
        → Why vote_id
        → ((row : Row F) → f (g row) ≡ f row)
        → u ≡ update_where (has_id vote_id) g v
        → Edits f Why t u

  pub Edits-Anything :
      (f : Row F → Row F) (Why : ℕ → Type 0) (t u : Table F)
      → Edits f Why t u
      → Edits f Anything t u
  Edits-Anything f Why t u (untouched e) = untouched e
  Edits-Anything f Why t u (edited v vote_id g h m why k e) =
      edited v vote_id g (Edits-Anything f Why t v h) m tt k e

  -- What a row keeps is what the updates leave of it.
  pub Edits-Keeps : (f : Row F → Row F) (t u : Table F) → Edits f Anything t u → Keeps f t u
  Edits-Keeps f t u (untouched e) = ap (map f) e
  Edits-Keeps f t u (edited v vote_id g h m why k e) =
      ap (map f) e ∙ update_where-Keeps f g (has_id vote_id) v k ∙ Edits-Keeps f t v h

  -- The vote is what reading the row gives.
  pub record IsRead (row : Row F) (vote : Vote F) : Type 0 where
    pub id : vote.vote_id ≡ row.vote_id
    pub read : (w : World F) → from_row row w ≡ done vote w

  from_row-IsRead :
      {P R : Table F → Type 0} (row : Row F)
      → ((u : Table F) → P u → R u)
      → Steps P (from_row row) (λ vote u. P u × IsRead row vote) R
  unfolding from_row
  from_row-IsRead row k = elim (Option-cases (results_of row.results)) [
    | inl e ↦ rw (e, from_row) (record { run = λ w p. k w.table p })
    | inr (results, e) ↦
        rw (e, from_row)
          (record { run = λ w p. (p, record { id = refl; read = λ v. rw (e, from_row) refl }) })
  ]

  open_of-is_open :
      (name : Str) (n : ℤ) (row : Row F) → open_of name n row ≡ true → is_open row ≡ true
  open_of-is_open name n row h = ground arith

  abbrev OpenRow : Table F → Row F → Type 0
  OpenRow t row = Memᴰ row t × (is_open row ≡ true)

  select-OpenRow :
      (p : Row F → Bool) (t : Table F)
      → ((row : Row F) → p row ≡ true → is_open row ≡ true)
      → (row : Row F) → Memᴰ row (select p t)
      → OpenRow t row
  select-OpenRow p t h row m = let (n, e) = select-Memᴰ p t row m in (n, h row e)

  module _ (t : Table F) where
    -- The vote is read from a row of the table, which is open.
    pub record Reads (vote : Vote F) : Type 0 where
      pub row : Row F
      pub member : Memᴰ row t
      pub still_open : is_open row ≡ true
      pub of_row : IsRead row vote

    pub Reads-OpenId : (vote : Vote F) → Reads vote → OpenId t vote.vote_id
    Reads-OpenId vote m = record {
      row = m.row;
      member = m.member;
      id = sym m.of_row.id;
      still_open = m.still_open;
    }

    abbrev pub OptionReads : Option (Vote F) → Type 0
    OptionReads none = Unit
    OptionReads (some vote) = Reads vote

    abbrev RowReads : Option (Row F) → Type 0
    RowReads none = Unit
    RowReads (some row) = OpenRow t row

  module _ (t : Table F) {R : Table F → Type 0} (k : (u : Table F) → u ≡ t → R u) where
    from_row-Reads :
        (row : Row F)
        → OpenRow t row
        → Steps (λ u. u ≡ t) (from_row row) (λ vote u. (u ≡ t) × Reads t vote) R
    from_row-Reads row m =
        Steps-weaken _ (λ u p. p)
          (λ vote u (p, e). (p, record { row = row; member = m.0; still_open = m.1; of_row = e }))
          (from_row-IsRead row k)

    optional_vote-Reads :
        (o : Option (Row F))
        → Steps (λ u. (u ≡ t) × RowReads t o) (optional_vote o) (λ o u. (u ≡ t) × OptionReads t o) R
    optional_vote-Reads none = record { run = λ w p. p }
    optional_vote-Reads (some row) = record {
      run = λ w (p, m).
          (Steps->>= {R = R} (λ vote u. (u ≡ t) × Reads t vote) _ _ (from_row-Reads row m)
              λ vote. record { run = λ w p. p }).run
            w p;
    }

    query_opt-Reads :
        (found : List (Row F))
        → ((row : Row F) → Memᴰ row found → OpenRow t row)
        → Steps (λ u. u ≡ t) (query_opt found) (λ o u. (u ≡ t) × RowReads t o) R
    query_opt-Reads [] m = record { run = λ w p. (p, tt) }
    query_opt-Reads (row ∷ []) m = record { run = λ w p. (p, m row (Memᴰ.head refl)) }
    query_opt-Reads (row ∷ row' ∷ found) m = record { run = λ w p. k w.table p }

    from_rows-Reads :
        (found : List (Row F))
        → ((row : Row F) → Memᴰ row found → OpenRow t row)
        → Steps (λ u. u ≡ t) (from_rows found) (λ votes u. (u ≡ t) × All (Reads t) votes) R
    unfolding from_rows
    from_rows-Reads [] m = record { run = λ w p. (p, tt) }
    from_rows-Reads (row ∷ found) m =
        Steps->>= (λ vote u. (u ≡ t) × Reads t vote) _ _
          (from_row-Reads row (m row (Memᴰ.head refl)))
          λ vote. record {
            run = λ w (p, v).
                (Steps->>= {R = R} (λ votes u. (u ≡ t) × All (Reads t) votes) _ _
                    (from_rows-Reads found λ r h. m r (Memᴰ.tail h))
                    λ votes. record { run = λ w (q, vs). (q, (v, vs)) }).run
                  w p;
          }

module _ {F : Type 0} (env : Env F) (t : Table F) {R : Table F → Type 0}
    (k : (u : Table F) → u ≡ t → R u) where
  rows-Selected :
      (p : Row F → Bool)
      → Steps (λ u. u ≡ t) (rows env p) (λ found u. (u ≡ t) × (found ≡ select p t)) R
  rows-Selected p = record { run = λ w e. (e, ap (select p) e) }

  -- The vote that `get_open_vote` finds is open.
  pub get_open_vote-Reads :
      (name : Str) (n : ℤ)
      → Steps (λ u. u ≡ t) (Db.get_open_vote env name n) (λ o u. (u ≡ t) × OptionReads t o) R
  unfolding Db.get_open_vote
  get_open_vote-Reads name n =
      Steps->>= (λ _ u. u ≡ t) _ _ (Steps-quiet _ k (Quiet-statement env Query.get_open_vote))
        λ done.
          Steps->>= (λ found u. (u ≡ t) × (found ≡ select (open_of name n) t)) _ _
            (rows-Selected (open_of name n))
            λ found. record {
              run = λ w (p, e).
                  (Steps->>= {R = R} (λ o u. (u ≡ t) × RowReads t o) _ _
                      (query_opt-Reads t k found λ row m.
                        select-OpenRow (open_of name n) t (open_of-is_open name n) row
                          (subst (Memᴰ row) e m))
                      (optional_vote-Reads t k)).run
                    w p;
            }

  closes_on_passing-is_open :
      (now : ℕ) (row : Row F) → closes_on_passing env now row ≡ true → is_open row ≡ true
  unfolding closes_on_passing
  closes_on_passing-is_open now row h = ground arith

  -- The votes that `get_open_votes_with_close_on_passing` finds are open.
  pub get_open_votes_with_close_on_passing-Reads :
      Steps
        (λ u. u ≡ t)
        (Db.get_open_votes_with_close_on_passing env)
        (λ votes u. (u ≡ t) × All (Reads t) votes)
        R
  unfolding Db.get_open_votes_with_close_on_passing
  get_open_votes_with_close_on_passing-Reads =
      Steps->>= (λ _ u. u ≡ t) _ _
        (Steps-quiet _ k (Quiet-statement env Query.get_open_votes_with_close_on_passing))
        λ done.
          Steps->>= (λ _ u. u ≡ t) _ _ (Steps-quiet _ k (Quiet-now env))
            λ now.
              Steps->>= (λ found u. (u ≡ t) × (found ≡ select (closes_on_passing env now) t)) _ _
                (rows-Selected (closes_on_passing env now))
                λ found. record {
                  run = λ w (p, e).
                      (from_rows-Reads t k found λ row m.
                          select-OpenRow (closes_on_passing env now) t
                            (closes_on_passing-is_open now) row (subst (Memᴰ row) e m)).run
                        w p;
                }

module _ {F : Type 0} (env : Env F) (t : Table F) (vote_id : ℕ) (Why : ℕ → Type 0)
    (why : Why vote_id) where
  pub update_vote_ends_at-Edits :
      OpenId t vote_id
      → Steps
          (Edits without_end Why t)
          (update_vote_ends_at env vote_id)
          (λ _. Edits without_end Why t)
          (Edits without_end Why t)
  unfolding update_vote_ends_at
  update_vote_ends_at-Edits m =
      Steps->>= (λ _. Edits without_end Why t) _ _
        (Steps-quiet _ (λ u p. p) (Quiet-statement env Query.update_vote_ends_at))
        λ done.
          Steps->>= (λ _. Edits without_end Why t) _ _ (Steps-quiet _ (λ u p. p) (Quiet-db_now env))
            λ now.
              Steps-modify env _
                λ u p. edited u vote_id (end_row now) p m why (end_row-without_end now) refl

  pub update_vote_last_check-Edits :
      OpenId t vote_id
      → Steps
          (Edits without_check Why t)
          (update_vote_last_check env vote_id)
          (λ _. Edits without_check Why t)
          (Edits without_check Why t)
  unfolding update_vote_last_check
  update_vote_last_check-Edits m =
      Steps->>= (λ _. Edits without_check Why t) _ _
        (Steps-quiet _ (λ u p. p) (Quiet-statement env Query.update_vote_last_check))
        λ done.
          Steps->>= (λ _. Edits without_check Why t) _ _
            (Steps-quiet _ (λ u p. p) (Quiet-db_now env))
            λ now.
              Steps-modify env _
                λ u p. edited u vote_id (check_row now) p m why (check_row-without_check now) refl

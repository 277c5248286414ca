-- ===== src/Db/Closing.antt =====
-- src/db.rs: what `close_finished_vote` may have done to the table.
use gitvote.Github.Api.Quiet.{Quiet-calculate, Quiet-split_full_name}
use gitvote.Github.{Error, is_not_found_error, err, ok, Result}
use gitvote.Float.{Float}
use gitvote.Results.{Vote, VoteResults}
use gitvote.Prelude.{
  ◌<◌, if◌then◌else◌, ◌∙◌, Option-cases, ◌≡◌, refl, sym, subst, ap, Bool, true, Bool-cases, Option,
  none, some, List, [], ◌∷◌, Memᴰ, select, ℕ, zero, suc, get_elem?, arith, inl, inr,
}
use gitvote.World.{◌>>=◌, then_do, query, M, World, Row, Env, Query}
use gitvote.World.Quiet.{Quiet-throw, Quiet-if, Quiet, Quiet-pure, Quiet-attempt}
use gitvote.World.Steps.{Post, Table, Steps, Steps->>=, Steps-quiet, Steps-weaken}
use gitvote.Db.{
  run_query, false, statement, is_open, results_of, from_row, has_id, update_where, rows,
  is_finished,
}
use gitvote.Db.Update.{
  written, close_row, pick, closing_results, store_vote_results, close_row_of, close_picked,
  close_finished_vote,
}
use gitvote.Db.Effects.{Quiet-statement}
use gitvote.Db.Changes.{Steps-modify}

pub some_head : {A : Type 0} (x y : A) → some y ≡ some x → x ≡ y
some_head x y h = cc

pub get_elem?-Memᴰ :
    {A : Type 0} (xs : List A) (i : ℕ) (x : A) → get_elem? xs i ≡ some x → Memᴰ x xs
get_elem?-Memᴰ [] i x h = absurd (ground arith)
get_elem?-Memᴰ (y ∷ ys) zero x h = Memᴰ.head (some_head x y h)
get_elem?-Memᴰ (y ∷ ys) (suc i) x h = Memᴰ.tail (get_elem?-Memᴰ ys i x h)

pub select-Memᴰ :
    {A : Type 0} (p : A → Bool) (xs : List A) (x : A)
    → Memᴰ x (select p xs)
    → Memᴰ x xs × (p x ≡ true)
select-Memᴰ p [] x m = elim m [ ]
select-Memᴰ p (y ∷ ys) x m = elim (Bool-cases (p y)) [
  | inr h ↦
      let (n, k) =
        select-Memᴰ p ys x (subst (λ b. Memᴰ x (if b then y ∷ select p ys else select p ys)) h m) in
      (Memᴰ.tail n, k)
  | inl h ↦
      select_cons p y ys x h (subst (λ b. Memᴰ x (if b then y ∷ select p ys else select p ys)) h m)
        (select-Memᴰ p ys x)
]
  where
    select_cons :
        {A : Type 0} (p : A → Bool) (y : A) (ys : List A) (x : A)
        → p y ≡ true
        → Memᴰ x (y ∷ select p ys)
        → (Memᴰ x (select p ys) → Memᴰ x ys × (p x ≡ true))
        → Memᴰ x (y ∷ ys) × (p x ≡ true)
    select_cons p y ys x h (Memᴰ.head e) k = (Memᴰ.head e, ap p e ∙ h)
    select_cons p y ys x h (Memᴰ.tail m) k = (Memᴰ.tail (k m).0, (k m).1)

module _ {F : Type 0} where
  pub is_finished-is_open :
      (env : Env F) (now : ℕ) (row : Row F) → is_finished env now row ≡ true → is_open row ≡ true
  is_finished-is_open env now row h = ground arith

module _ {F A : Type 0} (env : Env F) where
  -- A statement that fails, and what comes after one that does not.
  answered :
      (Q : A → Table F → Type 0) (R : Table F → Type 0) (f : Unit {0} → M F A) (w : World F)
      (o : Option Error)
      → R w.table
      → Post Q R (f tt w)
      → Post Q R (then_do (run_query env o w) f)
  answered Q R f w none r p = p
  answered Q R f w (some e) r p = r

  then_statement :
      (q : Query) (f : Unit {0} → M F A) (Q : A → Table F → Type 0) (R : Table F → Type 0)
      (w : World F)
      → R w.table
      → Post Q R (f tt (record w { trace = query q ∷ w.trace }))
      → Post Q R ((statement env q >>= f) w)
  unfolding statement
  then_statement q f Q R w r p = answered Q R f _ (env.db_error w.trace (query q)) r p

module _ {F : Type 0} (env : Env F) where
  -- The time that the database has when it is asked for a finished vote.
  abbrev pub closing_time : World F → ℕ
  closing_time w = env.db_now (query Query.close_finished_vote ∷ w.trace)

  -- Nothing changed, or one row of an open vote whose time was over at `now` is closed at `now`, with
  -- some results or none.
  pub data Closes (now : ℕ) (t u : Table F) : Type 0 where
    kept : u ≡ t → Closes now t u
    closed :
        (row : Row F) (results : Option (VoteResults F))
        → Memᴰ row t
        → row.ends_at < now
        → row.closed ≡ false
        → u ≡ update_where (has_id row.vote_id) (close_row now results) t
        → Closes now t u

  is_finished-before :
      (now : ℕ) (row : Row F)
      → is_finished env now row ≡ true
      → (row.ends_at < now) × (row.closed ≡ false)
  unfolding is_open
  is_finished-before now row h = (ground arith, ground arith)

  abbrev Picked : Table F → ℕ → Option (Row F) → Table F → Type 0
  Picked t now o u =
      (u ≡ t) × ((row : Row F) → o ≡ some row → Memᴰ row t × (is_finished env now row ≡ true))

  rows_run :
      (now : ℕ) (t : Table F) (p : Row F → Bool)
      → Steps (λ u. u ≡ t) (rows env p) (λ found u. (u ≡ t) × (found ≡ select p t)) (Closes now t)
  rows_run now t p = record { run = λ w e. (e, ap (select p) e) }

  pick_run :
      (t : Table F) (now : ℕ) (candidates : List (Row F))
      → Steps
          (λ u. (u ≡ t) × (candidates ≡ select (is_finished env now) t))
          (pick env candidates)
          (Picked t now)
          (Closes now t)
  pick_run t now candidates = record {
    run = λ w (e, c). (
      e,
      λ row h.
          select-Memᴰ (is_finished env now) t row
            (subst (Memᴰ row) c (get_elem?-Memᴰ candidates _ row h)),
    );
  }

  Quiet-closing_results : (r : Result (VoteResults F)) → Quiet (closing_results env r)
  unfolding closing_results
  Quiet-closing_results (ok results) = Quiet-pure _
  Quiet-closing_results (err e) =
      Quiet-if (is_not_found_error e) _ _ (Quiet-pure none) (Quiet-throw e)

  module _ (t : Table F) (row : Row F) (now : ℕ) (m : Memᴰ row t)
      (f : is_finished env now row ≡ true) where
    store_vote_results-Closes :
        (results : Option (VoteResults F))
        → Steps
            (λ u. u ≡ t)
            (store_vote_results env now row.vote_id results)
            (λ _. Closes now t)
            (Closes now t)
    unfolding store_vote_results
    store_vote_results-Closes results =
        Steps->>= (λ _ u. u ≡ t) _ _
          (Steps-quiet _ (λ u p. kept p) (Quiet-statement env Query.store_vote_results))
          λ done. Steps-modify env _ λ u p.
            closed row (written env results) m (is_finished-before now row f).0
              (is_finished-before now row f).1
              (ap (update_where (has_id row.vote_id) (close_row now (written env results))) p)

  abbrev FromRow : Table F → Row F → Vote F → Table F → Type 0
  FromRow t row vote u = (u ≡ t) × (vote.vote_id ≡ row.vote_id)

  from_row_id :
      (now : ℕ) (t : Table F) (row : Row F)
      → Steps (λ u. u ≡ t) (from_row row) (FromRow t row) (Closes now t)
  unfolding from_row
  from_row_id now t row = elim (Option-cases (results_of row.results)) [
    | inl e ↦ rw (e, from_row) (record { run = λ w p. kept p })
    | inr (results, e) ↦ rw (e, from_row) (record { run = λ w p. (p, refl) })
  ]

  module _ ⦃num : Float F⦄ where
    close_row_of-Closes :
        (t : Table F) (row : Row F) (now : ℕ)
        → Memᴰ row t
        → is_finished env now row ≡ true
        → Steps (λ u. u ≡ t) (close_row_of env now row) (λ _. Closes now t) (Closes now t)
    unfolding close_row_of
    close_row_of-Closes t row now m f =
        Steps->>= (FromRow t row) _ _ (from_row_id now t row) λ vote.
          Steps->>= (λ _. FromRow t row vote) _ _
            (Steps-quiet _ (λ u p. kept p.0) (Quiet-split_full_name vote.repository_full_name))
            λ names.
              Steps->>= (λ _. FromRow t row vote) _ _
                (Steps-quiet _ (λ u p. kept p.0) (Quiet-attempt _ (Quiet-calculate env names vote)))
                λ calculated.
                  Steps->>= (λ _. FromRow t row vote) _ _
                    (Steps-quiet _ (λ u p. kept p.0) (Quiet-closing_results calculated))
                    λ results.
                      Steps->>= (λ _. Closes now t) _ _ (store_as t row now m f vote results)
                        λ stored. Steps-quiet _ (λ u p. p) (Quiet-pure (vote, results))
      where
        store_as :
            (t : Table F) (row : Row F) (now : ℕ)
            → Memᴰ row t
            → is_finished env now row ≡ true
            → (vote : Vote F) (results : Option (VoteResults F))
            → Steps
                (FromRow t row vote)
                (store_vote_results env now vote.vote_id results)
                (λ _. Closes now t)
                (Closes now t)
        store_as t row now m f vote results = record {
          run = λ w (p, e).
              subst
                (λ id.
                  Post (λ _. Closes now t) (Closes now t) (store_vote_results env now id results w))
                (sym e) ((store_vote_results-Closes t row now m f results).run w p);
        }

    close_picked-Closes :
        (t : Table F) (now : ℕ) (picked : Option (Row F))
        → Steps
            (Picked t now picked)
            (close_picked env now picked)
            (λ _. Closes now t)
            (Closes now t)
    unfolding close_picked
    close_picked-Closes t now none =
        Steps-weaken _ (λ u p. p) (λ a u p. kept p.0)
          (Steps-quiet _ (λ u p. kept p.0) (Quiet-pure none))
    close_picked-Closes t now (some row) = record {
      run = λ w (p, k).
          (Steps->>= (λ _. Closes now t) _ _
              (close_row_of-Closes t row now (k row refl).0 (k row refl).1)
              λ found. Steps-quiet _ (λ u p. p) (Quiet-pure (some found))).run
            w p;
    }

    -- `close_finished_vote` changes nothing, or it closes one open vote whose time is over by the
    -- database's clock and stores its results; no other row changes but those with the same id.
    pub close_finished_vote-Closes :
        (w : World F)
        → Post
            (λ _. Closes (closing_time w) w.table)
            (Closes (closing_time w) w.table)
            (close_finished_vote env w)
    unfolding close_finished_vote
    close_finished_vote-Closes w =
        let t = w.table in
        let now = closing_time w in
        then_statement env Query.close_finished_vote _ _ _ w (kept refl) (
          (Steps->>= (λ found u. (u ≡ t) × (found ≡ select (is_finished env now) t)) _ _
              (rows_run now t (is_finished env now))
              λ candidates.
                Steps->>= (Picked t now) _ _ (pick_run t now candidates)
                  (close_picked-Closes t now)).run
            _ refl)

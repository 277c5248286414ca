-- ===== src/Processor/Progress.antt =====
-- src/processor.rs and src/db.rs: with a database and a GitHub that answer, the votes closer gets on.
use gitvote.World.Quiet.{Quiet-pure}
use gitvote.Github.{err, ok, Result}
use gitvote.Float.{Float}
use gitvote.Db.Life.{has_id-of}
use gitvote.World.{World, ◌>>=◌, query, Query, Call, Trace, Env, Row}
use gitvote.Prelude.{Bool, zero, refl, [], none, ◌%◌}
use gitvote.Github.Names.{char_eq}
use gitvote.Prelude.{
  inr, ap, sym, suc, inl, any, some, subst, get_elem?, arith, ◌∷◌, Option-cases, select, ◌≤◌, false,
  true, Memᴰ, none, length, ◌≡◌, ◌<◌, Option, count, contains, List, ℕ, Str,
}
use native.Mathlib.Nat.{mod-lt}
use gitvote.World.Returns.{Returns, Returns-pure, Steps-returns, Steps-attempt-Returns, IsOk}
use gitvote.Results.Available.{IsAvailable, Returns-calculate}
use gitvote.Results.{Vote, VoteResults}
use gitvote.Db.Closing.{closing_time, is_finished-is_open, some_head, select-Memᴰ, get_elem?-Memᴰ}
use gitvote.Db.Sound.{IsSound, in_progress, has_ended}
use gitvote.Db.Update
use gitvote.Db.Update.{
  written, close_row, pick, closing_results, store_vote_results, close_row_of, close_picked,
}
use gitvote.Db.{from_row, has_id, update_where, rows, is_finished, is_open, statement}
use gitvote.Db.Effects.{Quiet-statement}
use gitvote.Db.Changes.{Steps-modify}
use gitvote.Github.Names.{split_full_name, split_once, split_once-none}
use gitvote.Github.Api.Quiet.{Quiet-calculate, Quiet-split_full_name}
use gitvote.World.Steps.{Table, Post, Steps, Steps->>=, Steps-quiet}

get_elem?-some :
    {A : Type 0} (xs : List A) (i : ℕ) → i < length xs → (x : A) × (get_elem? xs i ≡ some x)
get_elem?-some [] i h = absurd (omega (arith, h))
get_elem?-some (x ∷ xs) zero h = (x, refl)
get_elem?-some (x ∷ xs) (suc i) h = get_elem?-some xs i (omega (arith, h))

Returns-split_full_name :
    {F : Type 0} (name : Str) → contains name b'/' ≡ true → Returns {F = F} (split_full_name name)
unfolding split_full_name
Returns-split_full_name name h = elim (Option-cases (split_once name).1) [
  | inl e ↦ absurd (ground (arith, (split_once-none name).0 e))
  | inr (rest, e) ↦ rw (e, split_full_name) (Returns-pure _)
]

module _ {F : Type 0} where
  abbrev pub open_count : Table F → ℕ
  open_count t = count is_open t

  -- A vote in progress whose row `from_row` and `split_full_name` can read.
  abbrev pub IsReady : Row F → Type 0
  IsReady row = IsSound row × (contains row.repository_full_name b'/' ≡ true)

  close_row-counts :
      (now : ℕ) (results : Option (VoteResults F)) (row : Row F)
      → is_open (close_row now results row) ≡ false
  unfolding close_row is_open
  close_row-counts now results row = refl

  close-le :
      (vote_id now : ℕ) (results : Option (VoteResults F)) (t : Table F)
      → open_count (update_where (has_id vote_id) (close_row now results) t) ≤ open_count t
  unfolding update_where
  close-le vote_id now results [] = omega arith
  close-le vote_id now results (row ∷ t) =
      ground (arith, close-le vote_id now results t, close_row-counts now results row)

  -- Closing an open vote of the table leaves fewer open.
  close-lt :
      (now : ℕ) (results : Option (VoteResults F)) (t : Table F) (row : Row F)
      → Memᴰ row t
      → is_open row ≡ true
      → open_count (update_where (has_id row.vote_id) (close_row now results) t) < open_count t
  unfolding update_where
  close-lt now results [] row m o = elim m [ ]
  close-lt now results (row' ∷ t) row (Memᴰ.head e) o = ground (
    arith,
    close-le row.vote_id now results t,
    close_row-counts now results row',
    has_id-of row.vote_id row' (ap (λ r. r.vote_id) (sym e)),
    ap is_open e,
  )
  close-lt now results (row' ∷ t) row (Memᴰ.tail m) o =
      ground (arith, close-lt now results t row m o, close_row-counts now results row')

module _ {F : Type 0} (env : Env F) (up : IsAvailable env)
    (answers : (trace : Trace) (c : Call) → env.db_error trace c ≡ none) where
  Returns-statement : (q : Query) → Returns (statement env q)
  unfolding statement
  Returns-statement q = record { returns = λ w. rw (answers w.trace (query q)) tt }

  module _ (t : Table F) where
    abbrev Fewer : Table F → Type 0
    Fewer u = open_count u < open_count t

    abbrev FewerOf : {A : Type 0} → A → Table F → Type 0
    FewerOf a u = Fewer u

    store-Fewer :
        (now : ℕ) (row : Row F) (results : Option (VoteResults F))
        → Memᴰ row t
        → is_open row ≡ true
        → Steps (λ u. u ≡ t) (store_vote_results env now row.vote_id results) FewerOf Fewer
    unfolding store_vote_results
    store-Fewer now row results m o =
        Steps->>= (λ _ u. u ≡ t) _ _
          (Steps-returns _ (Quiet-statement env Query.store_vote_results)
            (Returns-statement Query.store_vote_results))
          λ u. Steps-modify env _ λ v p.
            subst
              (λ x.
                open_count
                  (update_where (has_id row.vote_id) (close_row now (written env results)) x)
                < open_count t)
              (sym p) (close-lt now (written env results) t row m o)

    abbrev PickedOne : ℕ → Option (Row F) → Table F → Type 0
    PickedOne now o u =
        (u ≡ t) × ((row : Row F) × (o ≡ some row) × Memᴰ row t × (is_finished env now row ≡ true))

    select-pos : (p : Row F → Bool) (xs : Table F) → any p xs ≡ true → 0 < length (select p xs)
    select-pos p [] h = absurd (ground arith)
    select-pos p (x ∷ xs) h = ground (arith, select-pos p xs)

    pick-Steps :
        (now : ℕ) (candidates : List (Row F))
        → any (is_finished env now) t ≡ true
        → Steps
            (λ u. (u ≡ t) × (candidates ≡ select (is_finished env now) t))
            (pick env candidates)
            (PickedOne now)
            Fewer
    pick-Steps now candidates h = record {
      run = λ w (p, e).
          let pos = subst (λ c. 0 < length c) (sym e) (select-pos (is_finished env now) t h) in
          let (row, found) =
            get_elem?-some candidates (env.random_pick w.trace % length candidates)
              (mod-lt (env.random_pick w.trace) pos) in
          let (m, f) =
            select-Memᴰ (is_finished env now) t row
              (subst (Memᴰ row) e (get_elem?-Memᴰ candidates _ row found)) in
          (p, (row, found, m, f));
    }

    abbrev ReadAs : Row F → Vote F → Table F → Type 0
    ReadAs row vote u =
        (u ≡ t)
        × (vote.vote_id ≡ row.vote_id)
        × (vote.repository_full_name ≡ row.repository_full_name)

    from_row-reads :
        (row : Row F)
        → IsSound row
        → is_open row ≡ true
        → Steps (λ u. u ≡ t) (from_row row) (ReadAs row) Fewer
    unfolding from_row is_open
    from_row-reads row (in_progress c at r) o =
        rw (r, from_row) (record { run = λ w p. (p, refl, refl) })
    from_row-reads row (has_ended now results c at r) o = absurd (ground arith)

    closing-IsOk :
        (row : Row F) (vote : Vote F) (calculated : Result (VoteResults F))
        → Steps
            (λ u. ReadAs row vote u × IsOk calculated)
            (closing_results env calculated)
            (λ results. ReadAs row vote)
            Fewer
    unfolding closing_results
    closing-IsOk row vote (ok results) = record { run = λ w p. p.0 }
    closing-IsOk row vote (err e) = record { run = λ w p. absurd p.1 }

    store_as-Fewer :
        (now : ℕ) (row : Row F) (vote : Vote F) (results : Option (VoteResults F))
        → Memᴰ row t
        → is_open row ≡ true
        → Steps (ReadAs row vote) (store_vote_results env now vote.vote_id results) FewerOf Fewer
    store_as-Fewer now row vote results m o = record {
      run = λ w (p, e, _).
          subst (λ id. Post FewerOf Fewer (store_vote_results env now id results w)) (sym e)
            ((store-Fewer now row results m o).run w p);
    }

    module _ ⦃num : Float F⦄ where
      close_row_of-Fewer :
          (now : ℕ) (row : Row F)
          → Memᴰ row t
          → is_open row ≡ true
          → IsReady row
          → Steps (λ u. u ≡ t) (close_row_of env now row) FewerOf Fewer
      unfolding close_row_of
      close_row_of-Fewer now row m o (sound, slash) =
          Steps->>= (ReadAs row) _ _ (from_row-reads row sound o) λ vote.
            Steps->>= (λ names. ReadAs row vote) _ _ (split_as row vote slash)
              λ names.
                Steps->>= (λ c u. ReadAs row vote u × IsOk c) _ _
                  (Steps-attempt-Returns _ (Quiet-calculate env names vote)
                    (Returns-calculate env up names vote))
                  λ calculated.
                    Steps->>= (λ results. ReadAs row vote) _ _ (closing-IsOk row vote calculated)
                      λ results.
                        Steps->>= FewerOf _ _ (store_as-Fewer now row vote results m o)
                          λ stored. Steps-quiet _ (λ u p. p) (Quiet-pure (vote, results))
        where
          split_as :
              (row : Row F) (vote : Vote F)
              → contains row.repository_full_name b'/' ≡ true
              → Steps
                  (ReadAs row vote)
                  (split_full_name vote.repository_full_name)
                  (λ names. ReadAs row vote)
                  Fewer
          split_as row vote slash = record {
            run = λ w p.
                let (_, _, same_name) = p in
                (Steps-returns _ (Quiet-split_full_name vote.repository_full_name) (
                    Returns-split_full_name vote.repository_full_name
                      (subst (λ n. contains n b'/' ≡ true) (sym same_name) slash))).run
                  w p;
          }

      close_picked-Fewer :
          (now : ℕ) (o : Option (Row F))
          → ((row : Row F) → Memᴰ row t → IsReady row)
          → Steps (PickedOne now o) (close_picked env now o) FewerOf Fewer
      unfolding close_picked
      close_picked-Fewer now none ready = record {
        run = λ w (p, (row, e, m, f)). absurd (ground arith);
      }
      close_picked-Fewer now (some row') ready = record {
        run = λ w (p, (row, e, m, f)).
            let same = some_head row row' e in
            let m' = subst (λ r. Memᴰ r t) same m in
            let f' = subst (λ r. is_finished env now r ≡ true) same f in
            (Steps->>= FewerOf _ _
                (close_row_of-Fewer now row' m' (is_finished-is_open env now row' f')
                  (ready row' m'))
                λ found. Steps-quiet _ (λ u p. p) (Quiet-pure (some found))).run
              w p;
      }

      close_from-Fewer :
          (now : ℕ)
          → any (is_finished env now) t ≡ true
          → ((row : Row F) → Memᴰ row t → IsReady row)
          → Steps
              (λ u. u ≡ t)
              (rows env (is_finished env now) >>= λ candidates.
                pick env candidates >>= close_picked env now)
              FewerOf
              Fewer
      close_from-Fewer now h ready =
          Steps->>= (λ found u. (u ≡ t) × (found ≡ select (is_finished env now) t))
            (rows env (is_finished env now)) _
            (record { run = λ w e. (e, ap (select (is_finished env now)) e) })
            λ candidates.
              Steps->>= (PickedOne now) (pick env candidates) _ (pick-Steps now candidates h)
                λ picked. close_picked-Fewer now picked ready

module _ {F : Type 0} ⦃num : Float F⦄ (env : Env F) (up : IsAvailable env)
    (answers : (trace : Trace) (c : Call) → env.db_error trace c ≡ none) where
  pub close_finished_vote-Fewer :
      (w : World F)
      → any (is_finished env (closing_time env w)) w.table ≡ true
      → ((row : Row F) → Memᴰ row w.table → IsReady row)
      → Post
          (λ _. Fewer env up answers w.table)
          (Fewer env up answers w.table)
          (Update.close_finished_vote env w)
  unfolding Update.close_finished_vote statement
  close_finished_vote-Fewer w h ready = rw (answers w.trace (query Query.close_finished_vote)) (
      (close_from-Fewer env up answers w.table (closing_time env w) h ready).run
        (record w { trace = query Query.close_finished_vote ∷ w.trace }) refl)

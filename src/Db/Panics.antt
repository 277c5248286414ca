-- ===== src/Db/Panics.antt =====
-- src/db.rs: when reading the votes of a repository panics.
use gitvote.Prelude.{
  ◌≢◌, Option-cases, ◌≡◌, ◌↔◌, refl, sym, ap, ◌∙◌, Bool, Bool-cases, true, false, ◌||◌, ◌&&◌, none,
  List, [], ◌∷◌, any, select, Str, ◌==◌, str_eq, inl, inr, arith,
}
use gitvote.Results.{Vote}
use gitvote.World.{Row, Column, sql_null, json_null, json, World, Env, Query, query, done, panic}
use gitvote.Db
use gitvote.Db.{from_row, from_rows, results_of, insert_row, sort_rows, statement}

module _ {F : Type 0} where
  abbrev pub is_null : Column F → Bool
  is_null sql_null = false
  is_null json_null = true
  is_null (json results) = false

  -- The vote was closed without results.
  abbrev pub lacks_results : Row F → Bool
  lacks_results row = is_null row.results

  from_row-panics :
      (row : Row F) (w : World F) → lacks_results row ≡ true → from_row row w ≡ panic w
  unfolding from_row
  from_row-panics row w h = ground arith

  from_row-reads :
      (row : Row F) (w : World F)
      → lacks_results row ≡ false
      → (vote : Vote F) × (from_row row w ≡ done vote w)
  unfolding from_row
  from_row-reads row w h = elim (Option-cases (results_of row.results)) [
    | inl e ↦ absurd (ground arith)
    | inr (results, e) ↦ rw (e, from_row) (_, refl)
  ]

  from_rows-panics :
      (rows : List (Row F)) (w : World F)
      → any lacks_results rows ≡ true
      → from_rows rows w ≡ panic w
  unfolding from_rows
  from_rows-panics [] w h = absurd (ground arith)
  from_rows-panics (row ∷ rows) w h = elim (Bool-cases (lacks_results row)) [
    | inl n ↦ rw (from_row-panics row w n) refl
    | inr n ↦
        let (vote, e) = from_row-reads row w n in
        rw (e, from_rows-panics rows w (ground arith)) refl
  ]

  from_rows-reads :
      (rows : List (Row F)) (w : World F)
      → any lacks_results rows ≡ false
      → (votes : List (Vote F)) × (from_rows rows w ≡ done votes w)
  unfolding from_rows
  from_rows-reads [] w h = ([], refl)
  from_rows-reads (row ∷ rows) w h =
      let (vote, e) = from_row-reads row w (ground arith) in
      let (votes, f) = from_rows-reads rows w (ground arith) in (vote ∷ votes, rw (e, f) refl)

module _ {F : Type 0} (env : Env F) where
  any-insert_row :
      (p : Row F → Bool) (row : Row F) (rs : List (Row F))
      → any p (insert_row env row rs) ≡ (p row || any p rs)
  unfolding insert_row
  any-insert_row p row [] = ground arith
  any-insert_row p row (r ∷ rs) = ground (arith, any-insert_row p row rs)

  any-sort_rows : (p : Row F → Bool) (rs : List (Row F)) → any p (sort_rows env rs) ≡ any p rs
  unfolding sort_rows
  any-sort_rows p [] = refl
  any-sort_rows p (r ∷ rs) =
      any-insert_row p r (sort_rows env rs) ∙ ap (λ b. p r || b) (any-sort_rows p rs)

  any-select :
      (p q : Row F → Bool) (t : List (Row F)) → any p (select q t) ≡ any (λ row. q row && p row) t
  any-select p q [] = refl
  any-select p q (row ∷ t) = ground (arith, any-select p q t)

  module _ (name : Str) (w : World F)
      (up : env.db_error w.trace (query Query.list_votes) ≡ none) where
    abbrev found : List (Row F)
    found = sort_rows env (select (λ row. row.repository_full_name == name) w.table)

    abbrev asked : World F
    asked = record w { trace = query Query.list_votes ∷ w.trace }

    list_votes-run : Db.list_votes env name w ≡ from_rows found asked
    unfolding Db.list_votes statement
    list_votes-run = rw up refl

    -- If the database answers, the list of the votes of a repository ends in a panic exactly if one
    -- of them was closed without results.
    pub list_votes-eq-panic_iff :
        ((v : World F) × (Db.list_votes env name w ≡ panic v))
        ↔ (any (λ row. row.repository_full_name == name && lacks_results row) w.table ≡ true)
    list_votes-eq-panic_iff =
        let same =
          any-sort_rows lacks_results (select (λ row. row.repository_full_name == name) w.table)
          ∙ any-select lacks_results (λ row. row.repository_full_name == name) w.table in
        elim (Bool-cases (any lacks_results found)) [
          | inl h ↦
              (λ _. sym same ∙ h, λ _. (asked, list_votes-run ∙ from_rows-panics found asked h))
          | inr h ↦
              let (votes, e) = from_rows-reads found asked h in
              (
                λ (v, k). absurd (no_panic votes v (sym (list_votes-run ∙ e) ∙ k)),
                λ k. absurd (ground (arith, sym same ∙ h, k)),
              )
        ]
      where
        no_panic : (votes : List (Vote F)) (v : World F) → done votes asked ≢ panic v
        no_panic votes v h = ground arith

-- ===== src/Db/Effects.antt =====
-- src/db.rs: what the queries do to the table, one by one.
use gitvote.World.Steps.{Steps-quiet, Steps->>=, Steps, Post, Table}
use gitvote.Prelude.{
  subst, any, ℕ, ◌≡◌, refl, Bool, true, false, not, Option, none, some, List, [], ◌∷◌, ◌++◌, Str, ℤ,
  arith, select, count, is_empty, map,
}
use gitvote.CfgRepo.{CfgProfile}
use gitvote.Cmd.{CreateVoteInput}
use gitvote.Db
use gitvote.Db.{
  has_id, query, statement, rows, open_of, from_row, from_rows, query_opt, optional_vote,
}
use gitvote.Db.Update.{random_uuid, insert_if, insert_new, new_row, store_vote}
use gitvote.World.{pure, Row, World, Env, Query, done}
use gitvote.World.Quiet.{Same-refl, Quiet, Quiet->>=, Quiet-pure, Quiet-throw}

count-select_empty :
    {A : Type 0} (p : A → Bool) (xs : List A) → is_empty (select p xs) ≡ true → count p xs ≡ 0
count-select_empty p [] h = refl
count-select_empty p (x ∷ xs) h = ground (arith, count-select_empty p xs)

module _ {F : Type 0} where
  pub Quiet-from_row : (row : Row F) → Quiet (from_row row)
  unfolding from_row
  Quiet-from_row row = record { same = λ w. ground arith }

  pub Quiet-query_opt : {A : Type 0} (found : List A) → Quiet {F = F} (query_opt found)
  Quiet-query_opt [] = Quiet-pure _
  Quiet-query_opt (row ∷ []) = Quiet-pure _
  Quiet-query_opt (row ∷ row' ∷ found) = Quiet-throw _

  pub Quiet-optional_vote : (o : Option (Row F)) → Quiet (optional_vote o)
  Quiet-optional_vote none = Quiet-pure _
  Quiet-optional_vote (some row) = Quiet->>= _ _ (Quiet-from_row row) λ vote. Quiet-pure _

  Quiet-from_rows : (found : List (Row F)) → Quiet (from_rows found)
  unfolding from_rows
  Quiet-from_rows [] = Quiet-pure _
  Quiet-from_rows (row ∷ found) =
      Quiet->>= _ _ (Quiet-from_row row)
        λ vote. Quiet->>= _ _ (Quiet-from_rows found) λ votes. Quiet-pure _

module _ {F : Type 0} (env : Env F) where
  pub Quiet-now : Quiet (Db.db_now env)
  Quiet-now = record { same = λ w. Same-refl w }

  pub Quiet-statement : (q : Query) → Quiet (statement env q)
  unfolding statement
  Quiet-statement q = record { same = λ w. ground arith }

  pub Quiet-rows : (p : Row F → Bool) → Quiet (rows env p)
  Quiet-rows p = record { same = λ w. record { table = refl; queue = refl } }

  pub Quiet-get_open_vote : (name : Str) (n : ℤ) → Quiet (Db.get_open_vote env name n)
  unfolding Db.get_open_vote
  Quiet-get_open_vote name n = Quiet->>= _ _ (Quiet-statement _) λ u.
      Quiet->>= _ _ (Quiet-rows _)
        λ found. Quiet->>= _ _ (Quiet-query_opt found) λ row. Quiet-optional_vote row

  pub Quiet-has_vote_open : (name : Str) (n : ℤ) → Quiet (Db.has_vote_open env name n)
  unfolding Db.has_vote_open
  Quiet-has_vote_open name n =
      Quiet->>= _ _ (Quiet-statement _)
        λ u. Quiet->>= _ _ (Quiet-rows (open_of name n)) λ found. Quiet-pure (not (is_empty found))

  pub Quiet-has_vote : (name : Str) (n : ℤ) → Quiet (Db.has_vote env name n)
  unfolding Db.has_vote
  Quiet-has_vote name n =
      Quiet->>= _ _ (Quiet-statement _)
        λ u. Quiet->>= _ _ (Quiet-rows _) λ found. Quiet-pure (not (is_empty found))

  pub Quiet-get_vote : (vote_id : ℕ) → Quiet (Db.get_vote env vote_id)
  unfolding Db.get_vote
  Quiet-get_vote vote_id = Quiet->>= _ _ (Quiet-statement _) λ u.
      Quiet->>= _ _ (Quiet-rows _)
        λ found. Quiet->>= _ _ (Quiet-query_opt found) λ row. Quiet-optional_vote row

  pub Quiet-list_votes : (name : Str) → Quiet (Db.list_votes env name)
  unfolding Db.list_votes
  Quiet-list_votes name =
      Quiet->>= _ _ (Quiet-statement _)
        λ u. Quiet->>= _ _ (Quiet-rows _) λ found. Quiet-from_rows (Db.sort_rows env found)

  pub Quiet-get_open_votes_with_close_on_passing :
      Quiet (Db.get_open_votes_with_close_on_passing env)
  unfolding Db.get_open_votes_with_close_on_passing
  Quiet-get_open_votes_with_close_on_passing = Quiet->>= _ _ (Quiet-statement _) λ done.
      Quiet->>= _ _ Quiet-now λ now.
        Quiet->>= _ _ (Quiet-rows (Db.closes_on_passing env now)) λ found. Quiet-from_rows found

  pub Quiet-get_pending_status_checks : Quiet (Db.get_pending_status_checks env)
  unfolding Db.get_pending_status_checks
  Quiet-get_pending_status_checks = Quiet->>= _ _ (Quiet-statement _) λ done.
      Quiet->>= _ _ Quiet-now λ now.
        Quiet->>= _ _ (Quiet-rows (Db.needs_status_check env now)) λ found. Quiet-pure (
          map
            (λ row. record {
              repository_full_name = row.repository_full_name;
              issue_number = row.issue_number;
            })
            found)

  -- An issue has no open vote if the query answers so.
  pub has_vote_open-free :
      (name : Str) (n : ℤ) (w v : World F)
      → Db.has_vote_open env name n w ≡ done false v
      → (v.table ≡ w.table) × (count (open_of name n) w.table ≡ 0)
  unfolding Db.has_vote_open statement
  has_vote_open-free name n w v h = ground (arith, count-select_empty (open_of name n) w.table)

  insert_if-Post :
      (b : Bool) (row : Row F) (w : World F)
      → any (has_id row.vote_id) w.table ≡ b
      → Post
          (λ u v. (any (has_id row.vote_id) w.table ≡ false) × (v ≡ w.table ++ row ∷ []))
          (λ v. v ≡ w.table)
          (insert_if env b row w)
  insert_if-Post true row w h = refl
  insert_if-Post false row w h = (h, refl)

  -- A row is added as the last one, with an id that no row has.
  insert_new-Steps :
      (t : Table F) (row : Row F)
      → Steps
          (λ u. u ≡ t)
          (insert_new env row)
          (λ u v. (any (has_id row.vote_id) t ≡ false) × (v ≡ t ++ row ∷ []))
          (λ u. u ≡ t)
  unfolding insert_new
  insert_new-Steps t row = record {
    run = λ w p.
        subst
          (λ u.
            Post (λ x v. (any (has_id row.vote_id) u ≡ false) × (v ≡ u ++ row ∷ [])) (λ v. v ≡ u)
              (insert_new env row w))
          p (insert_if-Post _ row w refl);
  }

  -- `store_vote` adds a row with an id that no row had, or it fails and adds none.
  pub store_vote-Steps :
      (comment : ℤ) (i : CreateVoteInput) (cfg : CfgProfile F) (t : Table F)
      → Steps
          (λ u. u ≡ t)
          (store_vote env comment i cfg)
          (λ a u.
            (vote_id now : ℕ) × (any (has_id vote_id) t ≡ false)
            × (u ≡ t ++ new_row vote_id now comment i cfg ∷ []))
          (λ u. u ≡ t)
  unfolding store_vote new_row
  store_vote-Steps comment i cfg t =
      Steps->>= (λ _ u. u ≡ t) _ _ (Steps-quiet _ (λ u p. p) (Quiet-statement Query.store_vote))
        λ done.
          Steps->>= (λ _ u. u ≡ t) _ _ (Steps-quiet _ (λ u p. p) Quiet-now)
            λ now.
              Steps->>= (λ _ u. u ≡ t) (random_uuid env) _ (record { run = λ w p. p })
                λ vote_id.
                  let row = new_row vote_id now comment i cfg in
                  Steps->>= (λ _ u. (any (has_id vote_id) t ≡ false) × (u ≡ t ++ row ∷ []))
                    (insert_new env row) (λ u. pure vote_id) (insert_new-Steps t row)
                    λ added. record { run = λ w (own, e). (vote_id, now, own, e) }

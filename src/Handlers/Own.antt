-- ===== src/Handlers/Own.antt =====
-- src/handlers.rs: whose votes the page of one vote shows.
use gitvote.Handlers.Pages.{Quiet-audit_is_enabled}
use gitvote.Float.{Float}
use gitvote.Github.Names.{char_eq}
use gitvote.Db.Effects.{Quiet-statement}
use gitvote.Results.{Vote}
use gitvote.Github.{ok, err, Result}
use gitvote.Prelude.{
  Option-cases, ◌≡◌, ◌≢◌, refl, subst, ap, Bool, true, false, inl, inr, Option, none, some, List,
  [], ◌∷◌, ◌++◌, Str, str, str_eq, ◌==◌, ℕ, Memᴰ, select, arith, if◌then◌else◌,
}
use gitvote.World.{caught, panic, fail, Query, Run, World, Env, Row, M, ◌>>=◌, pure, done}
use gitvote.World.Quiet.{Quiet-attempt}
use gitvote.World.Steps.{Table, Post, Steps, Steps->>=, Steps-quiet}
use gitvote.Db.{results_of, get_vote, has_id, query_opt, optional_vote, from_row, rows}
use gitvote.Db.Closing.{select-Memᴰ}
use gitvote.Handlers.{
  internal_server_error, not_found, respond, details_page, show_found, show_vote,
  audit_vote_details, guarded, Response,
}

not_found-ne : not_found.status ≢ 200
not_found-ne h = ground arith

server_error-ne : internal_server_error.status ≢ 200
server_error-ne h = ground arith

module _ {F : Type 0} ⦃num : Float F⦄ (env : Env F) (t : Table F) (vote_id : ℕ) where
  -- The table has the vote, in that repository.
  abbrev pub IsOwn : Str → Type 0
  IsOwn name =
      (row : Row F) × Memᴰ row t × (row.vote_id ≡ vote_id) × (row.repository_full_name ≡ name)

  abbrev Found : Option (Vote F) → Type 0
  Found none = Unit
  Found (some vote) = IsOwn vote.repository_full_name

  abbrev FoundRow : Option (Row F) → Type 0
  FoundRow none = Unit
  FoundRow (some row) = Memᴰ row t × (has_id vote_id row ≡ true)

  has_id-eq : (row : Row F) → has_id vote_id row ≡ true → row.vote_id ≡ vote_id
  unfolding has_id char_eq
  has_id-eq row h = ground arith

  query_opt-FoundRow :
      (found : List (Row F))
      → found ≡ select (has_id vote_id) t
      → Steps {F = F} (λ _. Unit) (query_opt found) (λ o _. FoundRow o) (λ _. Unit)
  query_opt-FoundRow [] h = record { run = λ w p. tt }
  query_opt-FoundRow (row ∷ []) h = record {
    run = λ w p. select-Memᴰ (has_id vote_id) t row (subst (Memᴰ row) h (Memᴰ.head refl));
  }
  query_opt-FoundRow (row ∷ row' ∷ found) h = record { run = λ w p. tt }

  read_row :
      (row : Row F)
      → FoundRow (some row)
      → Steps (λ _. Unit) (from_row row) (λ vote _. Found (some vote)) (λ _. Unit)
  unfolding from_row
  read_row row k = elim (Option-cases (results_of row.results)) [
    | inl e ↦ rw (e, from_row) (record { run = λ w p. tt })
    | inr (results, e) ↦
        rw (e, from_row) (record { run = λ w p. (row, k.0, has_id-eq row k.1, refl) })
  ]

  optional_vote-Found :
      (o : Option (Row F))
      → FoundRow o
      → Steps (λ _. Unit) (optional_vote o) (λ found _. Found found) (λ _. Unit)
  optional_vote-Found none k = record { run = λ w p. tt }
  optional_vote-Found (some row) k =
      Steps->>= (λ vote _. Found (some vote)) _ _ (read_row row k) λ vote. record { run = λ w p. p }

  Found-vote :
      (found : List (Row F))
      → found ≡ select (has_id vote_id) t
      → Steps {F = F} {A = Option (Vote F)}
          (λ _. Unit)
          (query_opt found >>= (λ row. optional_vote row))
          (λ o _. Found o)
          (λ _. Unit)
  Found-vote found h =
      Steps->>= (λ o _. FoundRow o) _ _ (query_opt-FoundRow found h)
        λ o. record { run = λ w k. (optional_vote-Found o k).run w tt }

  get_vote-Found : Steps (λ u. u ≡ t) (get_vote env vote_id) (λ found _. Found found) (λ _. Unit)
  unfolding get_vote
  get_vote-Found =
      Steps->>= (λ _ u. u ≡ t) _ _ (Steps-quiet _ (λ u p. tt) (Quiet-statement env Query.get_vote))
        λ done.
          Steps->>= {A = List (Row F)} (λ found _. found ≡ select (has_id vote_id) t)
            (rows env (has_id vote_id)) _ (record { run = λ w e. ap (select (has_id vote_id)) e })
            λ found. record { run = λ w h. (Found-vote found h).run w tt }

  -- A page with the status 200 is of a vote of its own repository.
  abbrev Shows : Str → Response → Type 0
  Shows name r = r.status ≡ 200 → IsOwn name

  abbrev ShowsPost : Str → M F Response → Type 0
  ShowsPost name m = Steps (λ _. Unit) m (λ r _. Shows name r) (λ _. Unit)

  not_shown :
      (name : Str) (status : ℕ) (body : Str)
      → status ≢ 200
      → ShowsPost name (pure (respond status body))
  not_shown name status body h = record { run = λ w p e. absurd (h e) }

  own_post : (name : Str) (m : M F Response) → IsOwn name → ShowsPost name m
  own_post name m own = record { run = λ w p. shown (m w) }
    where
      shown : (r : Run F Response) → Post (λ r _. Shows name r) (λ _. Unit) r
      shown (done r w) = λ e. own
      shown (fail e w) = tt
      shown (panic w) = tt

  abbrev FoundIn : Result (Option (Vote F)) → Type 0
  FoundIn (ok o) = Found o
  FoundIn (err e) = Unit

  own_or_not_found :
      (name : Str) (vote : Vote F) (m : M F Response) (b : Bool)
      → (b ≡ true → IsOwn name)
      → ShowsPost name (if b then m else pure not_found)
  own_or_not_found name vote m true k = own_post name m (k refl)
  own_or_not_found name vote m false k = not_shown name 404 [] not_found-ne

  same_name :
      (name : Str) (vote : Vote F)
      → IsOwn vote.repository_full_name
      → (vote.repository_full_name == name) ≡ true
      → IsOwn name
  same_name name vote own h =
      let e : vote.repository_full_name ≡ name = ground arith in subst IsOwn e own

  show_found-Shows :
      (name : Str) (names : Str × Str) (found : Result (Option (Vote F)))
      → FoundIn found
      → ShowsPost name (show_found env name names found)
  unfolding show_found
  show_found-Shows name names (err e) k = not_shown name 500 [] server_error-ne
  show_found-Shows name names (ok none) k = not_shown name 404 [] not_found-ne
  show_found-Shows name names (ok (some vote)) k =
      own_or_not_found name vote (show_vote env names vote) (vote.repository_full_name == name)
        (same_name name vote k)

  caught-Found :
      (r : Run F (Option (Vote F)))
      → Post (λ o _. Found o) (λ _. Unit) r
      → Post (λ found _. FoundIn found) (λ _. Unit) (caught r)
  caught-Found (done o w) p = p
  caught-Found (fail e w) p = tt
  caught-Found (panic w) p = tt

  details_page-Shows :
      (name : Str) (names : Str × Str)
      → Steps (λ u. u ≡ t) (details_page env name names vote_id) (λ r _. Shows name r) (λ _. Unit)
  unfolding details_page
  details_page-Shows name names =
      Steps->>= (λ found _. FoundIn found) _ _
        (record { run = λ w e. caught-Found (get_vote env vote_id w) (get_vote-Found.run w e) })
        λ found. record { run = λ w k. (show_found-Shows name names found k).run w tt }

  guarded-Shows :
      (name : Str) (names : Str × Str) (enabled : Result Bool)
      → Steps
          (λ u. u ≡ t)
          (guarded env enabled (details_page env name names vote_id))
          (λ r _. Shows name r)
          (λ _. Unit)
  guarded-Shows name names (err e) = record { run = λ w p h. absurd (server_error-ne h) }
  guarded-Shows name names (ok false) = record { run = λ w p h. absurd (not_found-ne h) }
  guarded-Shows name names (ok true) = details_page-Shows name names

  audit_vote_details-Shows :
      (owner repo : Str)
      → Steps
          (λ u. u ≡ t)
          (audit_vote_details env owner repo vote_id)
          (λ r _. Shows (owner ++ (str "/" ++ repo)) r)
          (λ _. Unit)
  unfolding audit_vote_details
  audit_vote_details-Shows owner repo =
      let name = owner ++ (str "/" ++ repo) in
      Steps->>= (λ _ u. u ≡ t) _ _
        (Steps-quiet _ (λ u p. tt) (Quiet-attempt _ (Quiet-audit_is_enabled env name)))
        (guarded-Shows name (owner, repo))

-- If the page of a vote in a repository is answered with the status 200, the table has that vote in
-- that repository: no page shows the vote of another repository.
pub audit_vote_details-IsOwn :
    {F : Type 0} ⦃num : Float F⦄ (env : Env F) (owner repo : Str) (vote_id : ℕ) (w v : World F)
    (r : Response)
    → audit_vote_details env owner repo vote_id w ≡ done r v
    → r.status ≡ 200
    → IsOwn env w.table vote_id (owner ++ (str "/" ++ repo))
audit_vote_details-IsOwn env owner repo vote_id w v r h =
    subst (Post (λ r _. Shows env w.table vote_id (owner ++ (str "/" ++ repo)) r) (λ _. Unit)) h
      ((audit_vote_details-Shows env w.table vote_id owner repo).run w refl)

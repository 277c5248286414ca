-- ===== src/Github/Distinct.antt =====
-- src/github.rs: repetitions in the list of `get_allowed_voters`.
use gitvote.Github.{err, ok, Result, User}
use gitvote.CfgRepo.{CfgProfile, AllowedVoters}
use gitvote.World
use gitvote.Prelude.{
  if◌then◌else◌, ◌≡◌, refl, Bool, true, false, Bool-cases, inl, inr, Option, none, some, List, [],
  ◌∷◌, ◌++◌, Str, eq_ignore_ascii_case, eq_ignore_ascii_case_sym, any, arith, is_empty,
}
use gitvote.Github.Voters.{
  names, add_voter, add_voters, add_members, listed, add_teams, team_voters, configured_voters,
  get_allowed_voters,
}
use gitvote.Github.Api.{client, logins, get_collaborators, get_team_members}
use gitvote.Results.Turnout.{Distinct}
use gitvote.World.{
  lift, World, Env, Repo, Call, Trace, M, Run, done, fail, panic, ◌>>=◌, pure, attempt, call,
}
use gitvote.World.Steps.{Post, Steps, Steps->>=}

any-append :
    (p : Str → Bool) (xs : List Str) (x : Str)
    → any p xs ≡ false
    → p x ≡ false
    → any p (xs ++ x ∷ []) ≡ false
any-append p [] x h k = ground arith
any-append p (y ∷ ys) x h k = ground (arith, any-append p ys x)

append-Distinct :
    (xs : List Str) (u : Str) → names xs u ≡ false → Distinct xs → Distinct (xs ++ u ∷ [])
append-Distinct [] u h d = (refl, tt)
append-Distinct (x ∷ xs) u h d = ground (
  arith,
  eq_ignore_ascii_case_sym u x,
  any-append (λ y. eq_ignore_ascii_case y x) xs u,
  append-Distinct xs u,
)

add_voter-Distinct : (xs : List Str) (u : Str) → Distinct xs → Distinct (add_voter xs u)
unfolding add_voter
add_voter-Distinct xs u d = elim (Bool-cases (names xs u)) [
  | inl h ↦ rw h d
  | inr h ↦ rw h (append-Distinct xs u h d)
]

pub add_voters-Distinct : (xs us : List Str) → Distinct xs → Distinct (add_voters xs us)
unfolding add_voters
add_voters-Distinct xs [] d = d
add_voters-Distinct xs (u ∷ us) d =
    add_voters-Distinct (add_voter xs u) us (add_voter-Distinct xs u d)

-- The value of a run has a property, whatever the table is.
abbrev pub Gives : {F A : Type 0} → M F A → (A → Type 0) → Type 0
Gives m Q = Steps (λ _. Unit) m (λ a _. Q a) (λ _. Unit)

module _ {F A : Type 0} where
  any-Post : (r : Run F A) → Post (λ _ _. Unit {0}) (λ _. Unit) r
  any-Post (done a w) = tt
  any-Post (fail e w) = tt
  any-Post (panic w) = tt

  pub Gives-any : (m : M F A) → Gives m (λ _. Unit)
  Gives-any m = record { run = λ w p. any-Post (m w) }

  pub Gives-pure : {Q : A → Type 0} (a : A) → Q a → Gives {F = F} (pure a) Q
  Gives-pure a q = record { run = λ w p. q }

module _ {F : Type 0} (env : Env F) where
  -- An answer of GitHub lists no user twice.
  abbrev pub ListsOnce : Type 0
  ListsOnce =
      (trace : Trace) (c : Call) (users : List User)
      → env.users trace c ≡ ok users
      → Distinct (logins users)

  add_members-Distinct :
      (voters : List Str) (r : Result (List Str))
      → Distinct voters
      → Distinct (add_members voters r)
  add_members-Distinct voters (ok members) d = add_voters-Distinct voters members d
  add_members-Distinct voters (err e) d = d

  add_teams-Distinct :
      (r : Repo) (org : Str) (exclude : Bool) (teams voters : List Str)
      → Distinct voters
      → Gives (add_teams env r org exclude teams voters) Distinct
  unfolding add_teams
  add_teams-Distinct r org exclude [] voters d = Gives-pure voters d
  add_teams-Distinct r org exclude (team ∷ teams) voters d =
      Steps->>= (λ _ _. Unit) _ _
        (Gives-any (attempt (get_team_members env r.inst_id org team exclude)))
        λ members. record {
          run = λ w p.
              (add_teams-Distinct r org exclude teams (add_members voters members)
                  (add_members-Distinct voters members d)).run
                w tt;
        }

  teams_cases :
      (r : Repo) (org : Str) (exclude : Bool) (o : Option (List Str))
      → Gives {F = F} {A = List Str}
          (elim o [ none ↦ pure [] | some teams ↦ add_teams env r org exclude teams [] ])
          Distinct
  teams_cases r org exclude none = Gives-pure [] tt
  teams_cases r org exclude (some teams) = add_teams-Distinct r org exclude teams [] tt

  team_voters-Distinct :
      (r : Repo) (cfg : AllowedVoters) (org : Option Str)
      → Gives (team_voters env r cfg org) Distinct
  unfolding team_voters
  team_voters-Distinct r cfg none = Gives-pure [] tt
  team_voters-Distinct r cfg (some org) = teams_cases r org _ cfg.teams

  configured_voters-Distinct :
      (r : Repo) (cfg : Option AllowedVoters) (org : Option Str)
      → Gives (configured_voters env r cfg org) Distinct
  unfolding configured_voters
  configured_voters-Distinct r none org = Gives-pure [] tt
  configured_voters-Distinct r (some cfg) org =
      Steps->>= (λ voters _. Distinct voters) _ _ (team_voters-Distinct r cfg org)
        λ voters. record { run = λ w d. add_voters-Distinct voters (listed cfg.users) d }

  module _ (once : ListsOnce) where
    answered :
        (c : Call) (w : World F) (answer : Result (List User))
        → env.users w.trace c ≡ answer
        → Post
            (λ users _. Distinct (logins users))
            (λ _. Unit)
            (lift answer (record w { trace = c ∷ w.trace }))
    answered c w (ok users) h = once w.trace c users h
    answered c w (err e) h = tt

    get_collaborators-Distinct : (r : Repo) → Gives (get_collaborators env r) Distinct
    unfolding get_collaborators client call
    get_collaborators-Distinct r =
        Steps->>= (λ _ _. Unit) _ _ (Gives-any (lift (env.installation r.inst_id)))
          λ done.
            Steps->>= {A = List User} (λ users _. Distinct (logins users))
              (call env.users (World.get_collaborators r)) _
              (record { run = λ w p. answered _ w _ refl }) λ users. record { run = λ w d. d }

    fallback :
        (r : Repo) (voters : List Str) (b : Bool)
        → Distinct voters
        → Gives (if b then get_collaborators env r else pure voters) Distinct
    fallback r voters true d = get_collaborators-Distinct r
    fallback r voters false d = Gives-pure voters d

    -- The list of allowed voters names no user twice, in any case of letters, if GitHub lists no
    -- collaborator twice.
    pub get_allowed_voters-Distinct :
        (r : Repo) (cfg : CfgProfile F) (org : Option Str)
        → Gives (get_allowed_voters env r cfg org) Distinct
    unfolding get_allowed_voters
    get_allowed_voters-Distinct r cfg org =
        Steps->>= (λ voters _. Distinct voters) _ _
          (configured_voters-Distinct r cfg.allowed_voters org)
          λ voters. record { run = λ w d. (fallback r voters (is_empty voters) d).run w tt }

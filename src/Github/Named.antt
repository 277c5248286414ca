-- ===== src/Github/Named.antt =====
-- src/github.rs: the configured users in the list of `get_allowed_voters`.
use gitvote.CfgRepo.{AllowedVoters, CfgProfile}
use gitvote.Github.Api.{get_collaborators}
use gitvote.Prelude.{
  ◌≡◌, refl, subst, sym, Bool, true, false, Option, some, List, [], ◌∷◌, ◌++◌, Str,
  eq_ignore_ascii_case_refl, arith, is_empty, Memᴰ, if◌then◌else◌,
}
use gitvote.Github.Voters.{
  names, add_voter, add_voters, listed, configured_voters, get_allowed_voters, team_voters,
}
use gitvote.Github.Distinct.{Gives, Gives-any, Gives-pure}
use gitvote.World.{World, Env, Repo, M, done, pure}
use gitvote.World.Steps.{Post, Steps->>=}

names-append : (xs ys : List Str) (u : Str) → names xs u ≡ true → names (xs ++ ys) u ≡ true
names-append [] ys u h = absurd (ground arith)
names-append (x ∷ xs) ys u h = ground (arith, names-append xs ys u)

names-append_last : (xs : List Str) (u : Str) → names (xs ++ u ∷ []) u ≡ true
names-append_last [] u = ground (arith, eq_ignore_ascii_case_refl u)
names-append_last (x ∷ xs) u = ground (arith, names-append_last xs u)

names-add_voter : (xs : List Str) (u v : Str) → names xs u ≡ true → names (add_voter xs v) u ≡ true
unfolding add_voter
names-add_voter xs u v h = ground (arith, names-append xs (v ∷ []) u)

names-add_voter_same : (xs : List Str) (u : Str) → names (add_voter xs u) u ≡ true
unfolding add_voter
names-add_voter_same xs u = ground (arith, names-append_last xs u)

names-add_voters :
    (xs us : List Str) (u : Str) → names xs u ≡ true → names (add_voters xs us) u ≡ true
unfolding add_voters
names-add_voters xs [] u h = h
names-add_voters xs (v ∷ us) u h = names-add_voters (add_voter xs v) us u (names-add_voter xs u v h)

Memᴰ-add_voters : (xs us : List Str) (u : Str) → Memᴰ u us → names (add_voters xs us) u ≡ true
unfolding add_voters
Memᴰ-add_voters xs [] u m = elim m [ ]
Memᴰ-add_voters xs (v ∷ us) u (Memᴰ.head e) =
    names-add_voters (add_voter xs v) us u
      (subst (λ k. names (add_voter xs k) u ≡ true) e (names-add_voter_same xs u))
Memᴰ-add_voters xs (v ∷ us) u (Memᴰ.tail m) = Memᴰ-add_voters (add_voter xs v) us u m

not_empty : (xs : List Str) (u : Str) → names xs u ≡ true → is_empty xs ≡ false
not_empty [] u h = absurd (ground arith)
not_empty (x ∷ xs) u h = refl

module _ {F : Type 0} (env : Env F) (r : Repo) (user : Str) where
  configured-names :
      (voters : AllowedVoters) (users : List Str) (org : Option Str)
      → voters.users ≡ some users
      → Memᴰ user users
      → Gives (configured_voters env r (some voters) org) (λ found. names found user ≡ true)
  unfolding configured_voters
  configured-names voters users org e m =
      Steps->>= (λ _ _. Unit) _ _ (Gives-any (team_voters env r voters org))
        λ found. record {
          run = λ w p.
              Memᴰ-add_voters found (listed voters.users) user
                (subst (λ o. Memᴰ user (listed o)) (sym e) m);
        }

  kept :
      (found : List Str) (m : M F (List Str)) (b : Bool)
      → b ≡ false
      → names found user ≡ true
      → Gives (if b then m else pure found) (λ all. names all user ≡ true)
  kept found m true h k = absurd (ground arith)
  kept found m false h k = Gives-pure found k

  get_allowed-names :
      (cfg : CfgProfile F) (voters : AllowedVoters) (users : List Str) (org : Option Str)
      → cfg.allowed_voters ≡ some voters
      → voters.users ≡ some users
      → Memᴰ user users
      → Gives (get_allowed_voters env r cfg org) (λ found. names found user ≡ true)
  unfolding get_allowed_voters
  get_allowed-names cfg voters users org c e m =
      Steps->>= (λ found _. names found user ≡ true) _ _
        (subst (λ o. Gives (configured_voters env r o org) (λ found. names found user ≡ true))
          (sym c) (configured-names voters users org e m))
        λ found. record {
          run = λ w h.
              (kept found (get_collaborators env r) (is_empty found) (not_empty found user h) h).run
                w tt;
        }

  -- Each user that a profile allows to vote is named by the list of allowed voters, if there is a
  -- list, whatever the teams of the profile are and whether GitHub knows them.
  pub get_allowed_voters-names :
      (cfg : CfgProfile F) (voters : AllowedVoters) (users : List Str) (org : Option Str)
      (w v : World F) (found : List Str)
      → cfg.allowed_voters ≡ some voters
      → voters.users ≡ some users
      → Memᴰ user users
      → get_allowed_voters env r cfg org w ≡ done found v
      → names found user ≡ true
  get_allowed_voters-names cfg voters users org w v found c e m h =
      subst (Post (λ all _. names all user ≡ true) (λ _. Unit)) h
        ((get_allowed-names cfg voters users org c e m).run w tt)

-- ===== src/Results/Calculated.antt =====
-- src/results.rs: what holds of the results that `calculate` returns.
use gitvote.Results.{Vote, VoteResults}
use gitvote.Github.{err, Result, ok, Reaction}
use gitvote.Float.{Float}
use gitvote.Prelude.{
  ℤ, ◌∷◌, ◌≡◌, refl, subst, Option, none, some, List, Str, ◌+◌, All, as_u64, eq_ignore_ascii_case,
  true,
}
use gitvote.Github.Distinct.{Gives, Gives-any, Gives-pure, ListsOnce, get_allowed_voters-Distinct}
use gitvote.Github.Api.{client, get_comment_reactions}
use gitvote.Results.Tally.{Tracked, untracked, track_reactions}
use gitvote.Results.Calculate.{summarise, calculate}
use gitvote.Results.Turnout.{Distinct}
use gitvote.Results.Tracked.{turnout-track_reactions}
use gitvote.World.{
  Repo, World, Env, Trace, Call, M, Run, done, ◌>>=◌, pure, crash, repo_of, lift, call,
}
use gitvote.World
use gitvote.World.Steps.{Post, Steps->>=}

module _ {F : Type 0} ⦃num : Float F⦄ (env : Env F) (IsLogin : Str → Type 0)
    (canonical : (a b : Str)
      → IsLogin a
      → IsLogin b
      → eq_ignore_ascii_case a b ≡ true
      → a ≡ b) where
  -- The reactions that GitHub answers are by users whose logins are spelled in one way.
  abbrev pub HasLogins : Type 0
  HasLogins =
      (trace : Trace) (c : Call) (rs : List Reaction)
      → env.reactions trace c ≡ ok rs
      → All (λ r. IsLogin r.user.login) rs

  abbrev AddsUp : VoteResults F → Type 0
  AddsUp r = r.binding + r.not_voted ≡ r.allowed_voters

  module _ (logins : HasLogins) (once : ListsOnce env) (vote : Vote F) where
    answered :
        (c : Call) (w : World F) (answer : Result (List Reaction))
        → env.reactions w.trace c ≡ answer
        → Post
            (λ rs _. All (λ r. IsLogin r.user.login) rs)
            (λ _. Unit)
            (lift answer (record w { trace = c ∷ w.trace }))
    answered c w (ok rs) h = logins w.trace c rs h
    answered c w (err e) h = tt

    reactions-HasLogins :
        (r : Repo) (id : ℤ)
        → Gives (get_comment_reactions env r id) (All (λ r. IsLogin r.user.login))
    unfolding get_comment_reactions client call
    reactions-HasLogins r id =
        Steps->>= (λ _ _. Unit) _ _ (Gives-any (lift (env.installation r.inst_id)))
          λ done. record { run = λ w p. answered (World.get_comment_reactions r id) w _ refl }

    tracked_cases :
        (allowed : List Str) (rs : List Reaction)
        → Distinct allowed
        → All (λ r. IsLogin r.user.login) rs
        → (o : Option Tracked) → track_reactions env.parse_rfc3339 allowed untracked rs ≡ o
        → Gives {F = F} {A = VoteResults F}
            (elim o [ none ↦ crash | some tracked ↦ pure (summarise vote allowed tracked.votes) ])
            AddsUp
    tracked_cases allowed rs d l none h = record { run = λ w p. tt }
    tracked_cases allowed rs d l (some t) h =
        Gives-pure _
          (turnout-track_reactions IsLogin canonical env.parse_rfc3339 allowed vote t rs l d h)

    calculate-Gives : (names : Str × Str) → Gives (calculate env names vote) AddsUp
    unfolding calculate
    calculate-Gives names =
        let r = repo_of (as_u64 vote.installation_id) names in
        Steps->>= (λ rs _. All (λ r. IsLogin r.user.login) rs) _ _
          (reactions-HasLogins r vote.vote_comment_id)
          λ rs. record {
            run = λ w l.
                (Steps->>= (λ allowed _. Distinct allowed) _ _
                    (get_allowed_voters-Distinct env once r vote.cfg vote.organization)
                    λ allowed. record {
                      run = λ v d.
                          (tracked_cases allowed rs d l
                              (track_reactions env.parse_rfc3339 allowed untracked rs) refl).run
                            v tt;
                    }).run
                  w tt;
          }

    -- In the results that `calculate` returns, the binding votes and the voters who have not voted
    -- add up to the allowed voters, if GitHub spells each login in one way and lists no user twice.
    pub calculate-adds_up :
        (names : Str × Str) (results : VoteResults F) (w v : World F)
        → calculate env names vote w ≡ done results v
        → results.binding + results.not_voted ≡ results.allowed_voters
    calculate-adds_up names results w v h =
        subst (Post (λ r _. AddsUp r) (λ _. Unit)) h ((calculate-Gives names).run w tt)

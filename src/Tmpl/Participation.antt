-- ===== src/Tmpl/Participation.antt =====
-- src/tmpl.rs: what the counters of the participation statistics hold.
use gitvote.Github.Names.{char_eq}
use gitvote.Prelude.{
  inr, inl, Option-cases, ◌≡◌, refl, ◌+◌, ℕ, ◌&&◌, none, some, List, [], ◌∷◌, Str, str_eq, ◌==◌,
  count, ltb, arith, if◌then◌else◌,
}
use gitvote.Prelude.Map.{Map, lookup, lookup-insert}
use gitvote.Results.{VoteOption, UserVote, Vote, VoteResults}
use gitvote.Tmpl.Build.{
  Participation, YearStats, update_user, add_option, add_not_voted, add_votes, add_pending,
  or_default, year_or_default, find_year, set_year, add_results, add_vote, aggregate, voted_count,
}

-- The counters of a user.
abbrev pub voted_of : Str → YearStats → ℕ
voted_of user stats = voted_count (or_default (lookup user stats))

abbrev pub not_voted_of : Str → YearStats → ℕ
not_voted_of user stats = (or_default (lookup user stats)).not_voted

lookup-update_user :
    (f : Participation → Participation) (u user : Str) (stats : YearStats)
    → or_default (lookup user (update_user f u stats))
      ≡ (if user == u then f (or_default (lookup user stats)) else or_default (lookup user stats))
unfolding update_user
lookup-update_user f u user stats =
    ground (arith, lookup-insert u user (f (or_default (lookup u stats))) stats)

voted-add_option :
    (o : VoteOption) (p : Participation) → voted_count (add_option o p) ≡ voted_count p + 1
voted-add_option o p = ground arith

not_voted-add_option :
    (o : VoteOption) (p : Participation) → (add_option o p).not_voted ≡ p.not_voted
not_voted-add_option o p = ground arith

-- The binding votes of a user, and how often a list names the user.
abbrev pub binding_of : Str → Map UserVote → ℕ
binding_of user = count (λ e. e.1.binding && user == e.0)

abbrev pub named_of : Str → List Str → ℕ
named_of user = count (λ u. user == u)

add_votes-counts :
    (user : Str) (votes : Map UserVote) (stats : YearStats)
    → (voted_of user (add_votes votes stats) ≡ voted_of user stats + binding_of user votes)
      × (not_voted_of user (add_votes votes stats) ≡ not_voted_of user stats)
unfolding add_votes
add_votes-counts user [] stats = (omega arith, refl)
add_votes-counts user ((u, v) ∷ votes) stats =
    let next = if v.binding then update_user (add_option v.vote_option) u stats else stats in
    let rest = add_votes-counts user votes next in
    ground (
      arith,
      rest,
      lookup-update_user (add_option v.vote_option) u user stats,
      voted-add_option v.vote_option (or_default (lookup user stats)),
      not_voted-add_option v.vote_option (or_default (lookup user stats)),
    )

add_pending-counts :
    (user : Str) (users : List Str) (stats : YearStats)
    → (voted_of user (add_pending users stats) ≡ voted_of user stats)
      × (not_voted_of user (add_pending users stats)
          ≡ not_voted_of user stats + named_of user users)
unfolding add_pending
add_pending-counts user [] stats = (refl, omega arith)
add_pending-counts user (u ∷ users) stats =
    let rest = add_pending-counts user users (update_user add_not_voted u stats) in
    ground (arith, rest, lookup-update_user add_not_voted u user stats)

find_year-set_year :
    (y year : ℕ) (stats : YearStats) (years : List (ℕ × YearStats))
    → find_year y (set_year year stats years)
      ≡ (if y == year then some stats else find_year y years)
unfolding find_year set_year char_eq
find_year-set_year y year stats [] = refl
find_year-set_year y year stats ((z, old) ∷ years) =
    ground (arith, find_year-set_year y year stats years)

abbrev pub year_stats : ℕ → List (ℕ × YearStats) → YearStats
year_stats y years = year_or_default (find_year y years)

module _ {F : Type 0} (year_of : ℕ → ℕ) (tracking_start : ℕ) where
  -- What the results of a vote add to a year: nothing for a vote before the start, without results or
  -- of another year.
  abbrev pub added : (VoteResults F → ℕ) → ℕ → Vote F → ℕ
  added f y vote = if ltb vote.created_at tracking_start then 0 else elim vote.results [
    | none ↦ 0
    | some results ↦ if y == year_of vote.created_at then f results else 0
  ]

  abbrev pub added_by : (VoteResults F → ℕ) → ℕ → List (Vote F) → ℕ
  added_by f y [] = 0
  added_by f y (vote ∷ votes) = added f y vote + added_by f y votes

  add_results-counts :
      (user : Str) (y year : ℕ) (results : VoteResults F) (years : List (ℕ × YearStats))
      → (voted_of user (year_stats y (add_results year_of tracking_start year results years))
          ≡ voted_of user (year_stats y years)
            + (if y == year then binding_of user results.votes else 0))
        × (not_voted_of user (year_stats y (add_results year_of tracking_start year results years))
            ≡ not_voted_of user (year_stats y years)
              + (if y == year then named_of user results.pending_voters else 0))
  unfolding add_results
  add_results-counts user y year results years =
      let stats = year_or_default (find_year year years) in
      let voted = add_votes results.votes stats in
      ground (
        arith,
        find_year-set_year y year (add_pending results.pending_voters voted) years,
        add_pending-counts user results.pending_voters voted,
        add_votes-counts user results.votes stats,
      )

  add_vote-counts :
      (user : Str) (y : ℕ) (vote : Vote F) (years : List (ℕ × YearStats))
      → (voted_of user (year_stats y (add_vote year_of tracking_start vote years))
          ≡ voted_of user (year_stats y years) + added (λ r. binding_of user r.votes) y vote)
        × (not_voted_of user (year_stats y (add_vote year_of tracking_start vote years))
            ≡ not_voted_of user (year_stats y years)
              + added (λ r. named_of user r.pending_voters) y vote)
  unfolding add_vote
  add_vote-counts user y vote years = elim (Option-cases vote.results) [
    | inl e ↦ ground arith
    | inr (results, e) ↦
        ground (arith, add_results-counts user y (year_of vote.created_at) results years)
  ]

  -- The statistics of a year count a user as having voted once more for each binding vote of the user,
  -- and as not having voted once more for each time the user is pending, in the results of the votes
  -- of that year; votes without results or from before the start count for nothing.
  pub aggregate-counts :
      (user : Str) (y : ℕ) (votes : List (Vote F)) (years : List (ℕ × YearStats))
      → (voted_of user (year_stats y (aggregate year_of tracking_start votes years))
          ≡ voted_of user (year_stats y years) + added_by (λ r. binding_of user r.votes) y votes)
        × (not_voted_of user (year_stats y (aggregate year_of tracking_start votes years))
            ≡ not_voted_of user (year_stats y years)
              + added_by (λ r. named_of user r.pending_voters) y votes)
  unfolding aggregate
  aggregate-counts user y [] years = (omega arith, omega arith)
  aggregate-counts user y (vote ∷ votes) years =
      let next = add_vote year_of tracking_start vote years in
      let step = add_vote-counts user y vote years in
      let rest = aggregate-counts user y votes next in omega (arith, step, rest)

-- ===== src/Results/Counts.antt =====
-- src/results.rs: what the counters of the results hold, and how they are related.
use gitvote.Prelude.{
  suc, ◌+◌, ◌≡◌, refl, ap, Bool, true, false, not, ◌&&◌, List, [], ◌∷◌, Str, length, count, arith,
}
use gitvote.Prelude.Map.{Map}
use gitvote.Float.{Float}
use gitvote.Results.{VoteOption, in_favor, against, abstain, UserVote, Vote}
use gitvote.Results.Tally.{Tally, no_votes, count_vote, count_votes}
use gitvote.Results.Calculate.{values, summarise}

abbrev pub is_in_favor : VoteOption → Bool
is_in_favor in_favor = true
is_in_favor against = false
is_in_favor abstain = false

abbrev pub is_against : VoteOption → Bool
is_against in_favor = false
is_against against = true
is_against abstain = false

abbrev pub is_abstain : VoteOption → Bool
is_abstain in_favor = false
is_abstain against = false
is_abstain abstain = true

-- The counters, started at `t`, are as many higher as there are votes of their kind.
record Counts (t : Tally) (vs : List UserVote) (s : Tally) : Type 0 where
  in_favor : s.in_favor ≡ t.in_favor + count (λ v. v.binding && is_in_favor v.vote_option) vs
  against : s.against ≡ t.against + count (λ v. v.binding && is_against v.vote_option) vs
  abstain : s.abstain ≡ t.abstain + count (λ v. v.binding && is_abstain v.vote_option) vs
  binding : s.binding ≡ t.binding + count (λ v. v.binding) vs
  non_binding : s.non_binding ≡ t.non_binding + count (λ v. not v.binding) vs

count_vote-Counts : (t : Tally) (v : UserVote) → Counts t (v ∷ []) (count_vote t v)
unfolding count_vote
count_vote-Counts t v = ground arith

count_votes-Counts : (t : Tally) (vs : List UserVote) → Counts t vs (count_votes t vs)
unfolding count_votes
count_votes-Counts t [] = omega arith
count_votes-Counts t (v ∷ vs) =
    let one = count_vote-Counts t v in
    let rest = count_votes-Counts (count_vote t v) vs in omega arith

length-values : (votes : Map UserVote) → length (values votes) ≡ length votes
length-values [] = refl
length-values (e ∷ votes) = ap suc (length-values votes)

count_options :
    (vs : List UserVote)
    → count (λ v. v.binding && is_in_favor v.vote_option) vs
        + count (λ v. v.binding && is_against v.vote_option) vs
        + count (λ v. v.binding && is_abstain v.vote_option) vs
      ≡ count (λ v. v.binding) vs
count_options [] = omega arith
count_options (v ∷ vs) = ground (arith, count_options vs)

count_both :
    (vs : List UserVote) → count (λ v. v.binding) vs + count (λ v. not v.binding) vs ≡ length vs
count_both [] = omega arith
count_both (v ∷ vs) = ground (arith, count_both vs)

module _ {F : Type 0} ⦃num : Float F⦄ (vote : Vote F) (allowed : List Str)
    (votes : Map UserVote) where
  pub in_favor-summarise :
      (summarise vote allowed votes).in_favor
      ≡ count (λ v. v.binding && is_in_favor v.vote_option) (values votes)
  unfolding summarise
  in_favor-summarise = omega (arith, count_votes-Counts no_votes (values votes))

  pub binding-summarise :
      (summarise vote allowed votes).binding ≡ count (λ v. v.binding) (values votes)
  unfolding summarise
  binding-summarise = omega (arith, count_votes-Counts no_votes (values votes))

  -- The binding votes are those for the three options, the binding and the other votes together are
  -- all the votes, and the number of allowed voters is the length of their list.
  pub summarise-totals :
      let r = summarise vote allowed votes in
      (r.in_favor + r.against + r.abstain ≡ r.binding)
      × (r.binding + r.non_binding ≡ length r.votes)
      × (r.allowed_voters ≡ length allowed)
  unfolding summarise
  summarise-totals =
      let vs = values votes in
      omega (
        arith,
        count_votes-Counts no_votes vs,
        count_options vs,
        count_both vs,
        length-values votes,
      )

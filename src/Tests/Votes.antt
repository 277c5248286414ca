-- ===== src/Tests/Votes.antt =====
-- Examples of the votes, their counts and the thresholds.
use gitvote.Results.Bounds.{summarise-bounds}
use gitvote.Results.Turnout.{IsMarked, Distinct}
use gitvote.Prelude.{
  Memᴰ, count, ◌≤◌, ℕ_discrete, str_eq, Str-discrete, str_compare, All, map, length, ◌+◌, ◌≢◌,
  eq_ignore_ascii_case, to_ascii_lowercase, Str, ◌≡◌, refl, true, false, none, some, [], ◌∷◌, ◌++◌,
  str, pos, ℕ, arith,
}
use gitvote.Prelude.Map.{insert, contains_key, Map, lookup, keys}
use gitvote.Results.{VoteOption, UserVote}
use gitvote.Results
use gitvote.Results.Tally.{
  count_vote, count_votes, Tracked, untracked, track_vote, track_reaction, track_reactions,
  passes_with_all_allowed_voters, threshold_reached, from_reaction,
}
use gitvote.Results.Calculate.{summarise}
use gitvote.Results.Ballots.{ballots, only_vote, lookup-track_reactions, track_reactions-total}
use gitvote.Results.Once.{votes_by, voted_once-track_reactions}
use gitvote.Results.Threshold.{
  same, more, IsPercentage, Extends, threshold_reached_mono, passes_with_all_allowed_voters-passed,
}
use gitvote.Results.Counts.{summarise-totals}
use gitvote.Tests.{test_float, env, reactions, allowed, alice, bob, carol, vote}

abbrev in_favor_vote : UserVote
in_favor_vote = record { vote_option = Results.in_favor; timestamp = 42; binding = true }

abbrev against_vote : UserVote
against_vote = record { vote_option = Results.against; timestamp = 42; binding = false }

abbrev pub tracked : Tracked
tracked = record {
  votes = (alice, in_favor_vote) ∷ (carol, against_vote) ∷ [];
  multiple_options_voters = bob ∷ [];
}

tracked_lem : track_reactions env.parse_rfc3339 allowed untracked reactions ≡ some tracked
unfolding track_reactions track_reaction from_reaction track_vote gitvote.Prelude.Map.contains_key
    gitvote.Prelude.Map.insert gitvote.Prelude.str_compare gitvote.Prelude.Map.remove
    gitvote.Prelude.eq_ignore_ascii_case
tracked_lem = refl

lookup-track_reactions_example :
    lookup bob tracked.votes ≡ only_vote env.parse_rfc3339 allowed (ballots bob reactions)
lookup-track_reactions_example =
    lookup-track_reactions env.parse_rfc3339 allowed bob tracked reactions tracked_lem

stamped : env.parse_rfc3339 (str "now") ≢ none
stamped h = ground arith

track_reactions-total_example :
    (t : Tracked) × (track_reactions env.parse_rfc3339 allowed untracked reactions ≡ some t)
track_reactions-total_example =
    track_reactions-total env.parse_rfc3339 allowed untracked reactions
      (stamped, (stamped, (stamped, (stamped, (stamped, tt)))))

-- In the examples a login is spelled in lower case letters.
abbrev pub IsLower : Str → Type 0
IsLower s = map to_ascii_lowercase s ≡ s

pub lower-canonical : (a b : Str) → IsLower a → IsLower b → eq_ignore_ascii_case a b ≡ true → a ≡ b
unfolding eq_ignore_ascii_case
lower-canonical a b la lb h = ground arith

pub IsLower-logins : All (λ r. IsLower r.user.login) reactions
unfolding to_ascii_lowercase
IsLower-logins = (refl, (refl, (refl, (refl, (refl, tt)))))

allowed-Distinct : Distinct allowed
unfolding eq_ignore_ascii_case to_ascii_lowercase Str-discrete str_eq ℕ_discrete
allowed-Distinct = (refl, (refl, tt))

voted_once-track_reactions_example :
    let r = summarise vote allowed tracked.votes in
    votes_by alice r.votes + count (λ p. eq_ignore_ascii_case p alice) r.pending_voters ≡ 1
voted_once-track_reactions_example =
    voted_once-track_reactions IsLower lower-canonical env.parse_rfc3339 allowed vote tracked
      reactions alice IsLower-logins allowed-Distinct tracked_lem (Memᴰ.head refl)

-- One of two votes in favor reaches a threshold of 50%.
fifty-IsPercentage : IsPercentage {F = ℕ} 5000
fifty-IsPercentage = (refl, refl)

half : threshold_reached {F = ℕ} 1 5000 2 ≡ true
unfolding threshold_reached
half = refl

threshold_reached_mono_example : threshold_reached {F = ℕ} 2 5000 2 ≡ true
threshold_reached_mono_example =
    threshold_reached_mono 5000 1 2 2 2 fifty-IsPercentage (omega arith) (omega arith) (omega arith)
      half

-- Alice's vote in favor, and then Bob's against.
abbrev first_vote : Map UserVote
first_vote = (alice, in_favor_vote) ∷ []

abbrev bob_vote : UserVote
bob_vote = record { vote_option = Results.against; timestamp = 50; binding = true }

extended : Extends first_vote (insert bob bob_vote first_vote)
unfolding contains_key Str-discrete str_eq ℕ_discrete
extended = more bob bob_vote refl same

later-Distinct : Distinct (keys (insert bob bob_vote first_vote))
unfolding insert str_compare eq_ignore_ascii_case to_ascii_lowercase Str-discrete str_eq ℕ_discrete
later-Distinct = (refl, (refl, tt))

later-IsMarked : IsMarked allowed (insert bob bob_vote first_vote)
unfolding insert str_compare eq_ignore_ascii_case to_ascii_lowercase Str-discrete str_eq ℕ_discrete
later-IsMarked = (refl, (refl, tt))

first_passes : passes_with_all_allowed_voters (summarise vote allowed first_vote) ≡ true
unfolding passes_with_all_allowed_voters summarise threshold_reached count_votes count_vote
first_passes = refl

passes_with_all_allowed_voters-passed_example :
    (summarise vote allowed (insert bob bob_vote first_vote)).passed ≡ true
passes_with_all_allowed_voters-passed_example =
    passes_with_all_allowed_voters-passed vote allowed first_vote (insert bob bob_vote first_vote)
      fifty-IsPercentage extended allowed-Distinct later-Distinct later-IsMarked first_passes

summarise-totals_example :
    let r = summarise vote allowed tracked.votes in
    (r.in_favor + r.against + r.abstain ≡ r.binding)
    × (r.binding + r.non_binding ≡ length r.votes)
    × (r.allowed_voters ≡ length allowed)
summarise-totals_example = summarise-totals vote allowed tracked.votes

summarise-bounds_example :
    let r = summarise vote allowed tracked.votes in
    (r.in_favor + r.against + r.abstain + r.non_binding ≤ length reactions)
    × (r.not_voted ≤ r.allowed_voters)
summarise-bounds_example =
    summarise-bounds env.parse_rfc3339 allowed vote tracked reactions tracked_lem

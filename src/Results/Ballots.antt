-- ===== src/Results/Ballots.antt =====
-- src/results.rs: the loop over the reactions against the list of a user's own reactions.
use gitvote.Prelude.{
  ℕ, ◌≡◌, refl, ◌≢◌, ◌∙◌, Bool, true, false, ◌||◌, Option, none, some, List, [], ◌∷◌, ◌++◌, Str,
  str_eq, ◌==◌, contains, if◌then◌else◌, arith, inl, inr, Option-cases, All,
}
use gitvote.Prelude.Map.{lookup, contains_key-lookup, lookup-insert, lookup-remove}
use gitvote.Github.{Result-cases, ok, err, Reaction}
use gitvote.Results.{VoteOption, UserVote}
use gitvote.Results.Tally.{
  from_reaction, Tracked, untracked, is_binding, track_vote, track_reaction, track_reactions,
}

-- What is known of a user from a part of the reactions: none that counts, one, or several.
data Ballot : Type 0 where
  nothing : Ballot
  one : UserVote → Ballot
  several : Ballot

abbrev is_several : Ballot → Bool
is_several nothing = false
is_several (one v) = false
is_several several = true

abbrev vote_of : Ballot → Option UserVote
vote_of nothing = none
vote_of (one v) = some v
vote_of several = none

abbrev stamp : List Str → Str → VoteOption → ℕ → UserVote
stamp allowed user vote_option timestamp = record {
  vote_option = vote_option;
  timestamp = timestamp;
  binding = is_binding allowed user;
}

abbrev stamped : List Str → Str → VoteOption → Option ℕ → Option UserVote
stamped allowed user vote_option none = none
stamped allowed user vote_option (some timestamp) = some (stamp allowed user vote_option timestamp)

module _ (parse : Str → Option ℕ) (allowed : List Str) where
  -- The vote that a reaction stands for, if it is one of the three and its time is valid.
  unfoldable pub user_vote : Reaction → Option UserVote
  user_vote r = elim (from_reaction r.content) [
    | err e ↦ none
    | ok vote_option ↦ stamped allowed r.user.login vote_option (parse r.created_at)
  ]

abbrev supported : Reaction → Bool
supported r = elim (from_reaction r.content) [ err e ↦ false | ok vote_option ↦ true ]

-- The reactions of a user that stand for a vote option, in order.
unfoldable pub ballots : Str → List Reaction → List Reaction
ballots user [] = []
ballots user (r ∷ rs) =
    let rest = ballots user rs in
    if user == r.user.login then (if supported r then r ∷ rest else rest) else rest

module _ (parse : Str → Option ℕ) (allowed : List Str) where
  -- The vote of a user who has one reaction; with several, or none, there is none.
  unfoldable pub only_vote : List Reaction → Option UserVote
  unfolding user_vote
  only_vote [] = none
  only_vote (r ∷ []) = user_vote parse allowed r
  only_vote (r ∷ s ∷ rs) = none

  join : Ballot → List Reaction → Option UserVote
  unfolding only_vote
  join nothing rs = only_vote rs
  join (one v) [] = some v
  join (one v) (r ∷ rs) = none
  join several rs = none

  record Knows (user : Str) (t : Tracked) (b : Ballot) : Type 0 where
    vote : lookup user t.votes ≡ vote_of b
    multiple : contains t.multiple_options_voters user ≡ is_several b

  contains-append :
      (xs : List Str) (x user : Str)
      → contains (xs ++ x ∷ []) user ≡ (contains xs user || x == user)
  contains-append [] x user = ground arith
  contains-append (y ∷ ys) x user = ground (arith, contains-append ys x user)

  abbrev advance : Ballot → Option UserVote → Ballot
  advance nothing none = several
  advance nothing (some v) = one v
  advance (one w) v = several
  advance several v = several

  -- A vote changes what is known of its user, and of nobody else.
  track_vote-Knows :
      (user : Str) (t t' : Tracked) (b : Ballot) (u at : Str) (o : VoteOption)
      → track_vote parse allowed t u at o ≡ some t'
      → Knows user t b
      → Knows user t' (if user == u then advance b (stamped allowed u o (parse at)) else b)
  unfolding track_vote
  track_vote-Knows user t t' b u at o h k = elim (Option-cases (parse at)) [
    | inl e ↦ ground (
      arith,
      contains_key-lookup u t.votes,
      lookup-remove u user t.votes,
      contains-append t.multiple_options_voters u user,
    )
    | inr (timestamp, e) ↦ ground (
      arith,
      contains_key-lookup u t.votes,
      lookup-remove u user t.votes,
      contains-append t.multiple_options_voters u user,
      lookup-insert u user (stamp allowed u o timestamp) t.votes,
    )
  ]

  track_reaction-Knows :
      (user : Str) (t t' : Tracked) (b : Ballot) (r : Reaction)
      → track_reaction parse allowed t r ≡ some t'
      → Knows user t b
      → Knows user t' (
          if user == r.user.login
          then (if supported r then advance b (user_vote parse allowed r) else b)
          else b)
  unfolding track_reaction user_vote
  track_reaction-Knows user t t' b r h k = elim (Result-cases (from_reaction r.content)) [
    | inl (e, rejected) ↦ ground arith
    | inr (o, accepted) ↦ ground (arith, track_vote-Knows user t t' b r.user.login r.created_at o)
  ]

  join-advance :
      (b : Ballot) (r : Reaction) (rs : List Reaction)
      → join b (r ∷ rs) ≡ join (advance b (user_vote parse allowed r)) rs
  unfolding join only_vote
  join-advance b r [] = ground arith
  join-advance b r (_ ∷ rs) = ground arith

  join-nil : (b : Ballot) → join b [] ≡ vote_of b
  unfolding join only_vote
  join-nil b = ground arith

  track_reactions-Knows :
      (user : Str) (t t' : Tracked) (b : Ballot) (rs : List Reaction)
      → track_reactions parse allowed t rs ≡ some t'
      → Knows user t b
      → lookup user t'.votes ≡ join b (ballots user rs)
  unfolding track_reactions ballots
  track_reactions-Knows user t t' b [] h k = ground (arith, join-nil b)
  track_reactions-Knows user t t' b (r ∷ rs) h k =
      elim (Option-cases (track_reaction parse allowed t r)) [
        | inl e ↦ absurd (ground arith)
        | inr (next, e) ↦ ground (
          arith,
          join-advance b r (ballots user rs),
          track_reactions-Knows user next t' _ rs (ground arith)
              (track_reaction-Knows user t next b r e k),
        )
      ]

  join-nothing : (rs : List Reaction) → join nothing rs ≡ only_vote rs
  unfolding join
  join-nothing rs = refl

  track_reaction-total :
      (t : Tracked) (r : Reaction)
      → parse r.created_at ≢ none
      → (t' : Tracked) × (track_reaction parse allowed t r ≡ some t')
  unfolding track_reaction track_vote
  track_reaction-total t r h = elim (Option-cases (track_reaction parse allowed t r)) [
    | inl e ↦ absurd (ground arith)
    | inr found ↦ found
  ]

  -- The vote recorded for a user is the one of their only supported reaction. A user with several
  -- supported reactions, also of the same kind, or with none has no vote recorded.
  pub lookup-track_reactions :
      (user : Str) (t : Tracked) (rs : List Reaction)
      → track_reactions parse allowed untracked rs ≡ some t
      → lookup user t.votes ≡ only_vote (ballots user rs)
  unfolding lookup
  lookup-track_reactions user t rs h =
      track_reactions-Knows user untracked t nothing rs h (record { vote = refl; multiple = refl })
      ∙ join-nothing (ballots user rs)

  -- The loop over the reactions gives a result, without a panic, if the time of each reaction is
  -- valid.
  pub track_reactions-total :
      (t : Tracked) (rs : List Reaction)
      → All (λ r. parse r.created_at ≢ none) rs
      → (t' : Tracked) × (track_reactions parse allowed t rs ≡ some t')
  unfolding track_reactions
  track_reactions-total t [] h = (t, refl)
  track_reactions-total t (r ∷ rs) h =
      let (next, e) = track_reaction-total t r h.0 in
      let (last, f) = track_reactions-total next rs h.1 in (last, rw (e, track_reactions) f)

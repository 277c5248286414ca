-- ===== src/Results/Bounds.antt =====
-- src/results.rs: how large the counters of the results may get.
use gitvote.Prelude.{
  eq_ignore_ascii_case, any, not, ℕ, suc, ◌+◌, ◌≤◌, ◌≡◌, Bool, Option, some, List, [], ◌∷◌, Str,
  length, arith, inl, inr, Option-cases, length-select, count-le-length,
}
use gitvote.Prelude.Map.{keys, Map, insert, remove}
use gitvote.Float.{Float}
use gitvote.Github.{Reaction}
use gitvote.Results.Calculate.{summarise}
use gitvote.Results.Counts.{summarise-totals}
use gitvote.Results.Tally.{
  is_binding, Tracked, untracked, track_vote, track_reaction, track_reactions, pending,
  from_reaction,
}
use gitvote.Results.{Vote, VoteOption, UserVote}
use gitvote.Github.{Result-cases}

length-insert : (k : Str) (v : UserVote) (m : Map UserVote) → length (insert k v m) ≤ suc (length m)
unfolding insert
length-insert k v [] = omega arith
length-insert k v ((j, w) ∷ m) = ground (arith, length-insert k v m)

length-remove : (k : Str) (m : Map UserVote) → length (remove k m) ≤ length m
unfolding remove
length-remove k [] = omega arith
length-remove k ((j, w) ∷ m) = ground (arith, length-remove k m)

module _ (parse : Str → Option ℕ) (allowed : List Str) where
  track_vote-length :
      (t t' : Tracked) (u at : Str) (o : VoteOption)
      → track_vote parse allowed t u at o ≡ some t'
      → length t'.votes ≤ suc (length t.votes)
  unfolding track_vote
  track_vote-length t t' u at o h = elim (Option-cases (parse at)) [
    | inl e ↦ ground (arith, length-remove u t.votes)
    | inr (timestamp, e) ↦ ground (
      arith,
      length-remove u t.votes,
      length-insert u
          (record { vote_option = o; timestamp = timestamp; binding = is_binding allowed u })
          t.votes,
    )
  ]

  track_reaction-length :
      (t t' : Tracked) (r : Reaction)
      → track_reaction parse allowed t r ≡ some t'
      → length t'.votes ≤ suc (length t.votes)
  unfolding track_reaction
  track_reaction-length t t' r h = elim (Result-cases (from_reaction r.content)) [
    | inl (e, rejected) ↦ ground arith
    | inr (o, accepted) ↦ ground (arith, track_vote-length t t' r.user.login r.created_at o)
  ]

  track_reactions-length :
      (t t' : Tracked) (rs : List Reaction)
      → track_reactions parse allowed t rs ≡ some t'
      → length t'.votes ≤ length t.votes + length rs
  unfolding track_reactions
  track_reactions-length t t' [] h = ground arith
  track_reactions-length t t' (r ∷ rs) h = elim (Option-cases (track_reaction parse allowed t r)) [
    | inl e ↦ absurd (ground arith)
    | inr (next, e) ↦
        let rest = track_reactions-length next t' rs (ground arith) in
        omega (arith, rest, track_reaction-length t next r e)
  ]

  -- The counters of the votes add up to at most the number of reactions, and those who have not
  -- voted are at most as many as the allowed voters: with fewer than 2^63 of both no `i64` of the
  -- results overflows.
  pub summarise-bounds :
      {F : Type 0} ⦃num : Float F⦄ (vote : Vote F) (t : Tracked) (rs : List Reaction)
      → track_reactions parse allowed untracked rs ≡ some t
      → let r = summarise vote allowed t.votes in
        (r.in_favor + r.against + r.abstain + r.non_binding ≤ length rs)
        × (r.not_voted ≤ r.allowed_voters)
  unfolding summarise pending
  summarise-bounds vote t rs h =
      let test : Str → Bool =
        λ user. not (any (λ voter. eq_ignore_ascii_case voter user) (keys t.votes)) in
      omega (
        arith,
        summarise-totals vote allowed t.votes,
        track_reactions-length untracked t rs h,
        length-select test allowed,
        count-le-length test allowed,
      )

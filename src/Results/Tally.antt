-- ===== src/Results/Tally.antt =====
-- src/results.rs: the reactions to a vote comment become votes, and the votes are counted.
use gitvote.Prelude.{
  ℕ, ◌+◌, Bool, false, not, ◌&&◌, Option, none, some, List, [], ◌∷◌, ◌++◌, Str, str, str_eq, ◌==◌,
  contains, eq_ignore_ascii_case, any, select, ltb, if◌then◌else◌,
}
use gitvote.Prelude.Map.{Map, keys, contains_key, insert, remove}
use gitvote.CfgRepo.{PassThresholdBase, allowed_voters, votes_cast}
use gitvote.Float.{Float}
use gitvote.Github.{Result, ok, err, other, Reaction}
use gitvote.Results.{VoteOption, in_favor, against, abstain, UserVote, VoteResults}

abbrev pub reaction_in_favor : Str
reaction_in_favor = str "+1"

abbrev pub reaction_against : Str
reaction_against = str "-1"

abbrev pub reaction_abstain : Str
reaction_abstain = str "eyes"

unfoldable pub from_reaction : Str → Result VoteOption
unfolding str_eq
from_reaction reaction =
    if reaction == reaction_in_favor
    then ok in_favor
    else if reaction == reaction_against
    then ok against
    else if reaction == reaction_abstain
    then ok abstain
    else err (other (str "reaction not supported"))

-- `impl Display for VoteOption`
unfoldable pub display : VoteOption → Str
display in_favor = str "In favor"
display against = str "Against"
display abstain = str "Abstain"

-- The two collections that the loop over the reactions fills.
pub record Tracked : Type 0 where
  pub votes : Map UserVote
  pub multiple_options_voters : List Str

abbrev pub untracked : Tracked
untracked = record { votes = []; multiple_options_voters = [] }

abbrev pub is_binding : List Str → Str → Bool
is_binding allowed username = any (λ voter. eq_ignore_ascii_case voter username) allowed

-- Rfc3339, by the `time` crate, and the allowed voters.
module _ (parse : Str → Option ℕ) (allowed : List Str) where
  -- A vote whose timestamp is not valid makes the program panic: `none`.
  unfoldable pub track_vote : Tracked → Str → Str → VoteOption → Option Tracked
  track_vote t username created_at vote_option =
      if contains t.multiple_options_voters username
      then some t
      else if contains_key username t.votes
      then some (record {
        votes = remove username t.votes;
        multiple_options_voters = t.multiple_options_voters ++ username ∷ [];
      })
      else elim (parse created_at) [
        | none ↦ none
        | some timestamp ↦ some (record t {
          votes =
              insert username
                (record {
                  vote_option = vote_option;
                  timestamp = timestamp;
                  binding = is_binding allowed username;
                })
                t.votes;
        })
      ]

  unfoldable pub track_reaction : Tracked → Reaction → Option Tracked
  track_reaction t reaction = elim (from_reaction reaction.content) [
    | err e ↦ some t
    | ok vote_option ↦ track_vote t reaction.user.login reaction.created_at vote_option
  ]

  unfoldable pub track_reactions : Tracked → List Reaction → Option Tracked
  track_reactions t [] = some t
  track_reactions t (reaction ∷ reactions) = elim (track_reaction t reaction) [
    | none ↦ none
    | some t' ↦ track_reactions t' reactions
  ]

pub record Tally : Type 0 where
  pub in_favor : ℕ
  pub against : ℕ
  pub abstain : ℕ
  pub binding : ℕ
  pub non_binding : ℕ

abbrev pub no_votes : Tally
no_votes = record { in_favor = 0; against = 0; abstain = 0; binding = 0; non_binding = 0 }

abbrev count_option : Tally → VoteOption → Tally
count_option t in_favor = record t { in_favor = t.in_favor + 1 }
count_option t against = record t { against = t.against + 1 }
count_option t abstain = record t { abstain = t.abstain + 1 }

abbrev count_binding : Tally → Tally
count_binding t = record t { binding = t.binding + 1 }

unfoldable pub count_vote : Tally → UserVote → Tally
count_vote t v =
    if v.binding
    then count_binding (count_option t v.vote_option)
    else record t { non_binding = t.non_binding + 1 }

unfoldable pub count_votes : Tally → List UserVote → Tally
count_votes t [] = t
count_votes t (v ∷ vs) = count_votes (count_vote t v) vs

abbrev pub base_or_default : Option PassThresholdBase → PassThresholdBase
base_or_default none = allowed_voters
base_or_default (some base) = base

abbrev pub is_true : Option Bool → Bool
is_true none = false
is_true (some b) = b

unfoldable pub threshold_base : PassThresholdBase → Tally → ℕ → ℕ
threshold_base allowed_voters t allowed_voters_count = allowed_voters_count
threshold_base (votes_cast exclude_abstentions) t allowed_voters_count =
    if is_true exclude_abstentions then t.in_favor + t.against else t.binding

-- The allowed voters who have not voted.
unfoldable pub pending : List Str → Map UserVote → List Str
pending allowed votes =
    select (λ user. not (any (λ voter. eq_ignore_ascii_case voter user) (keys votes))) allowed

module _ {F : Type 0} ⦃num : Float F⦄ where
  unfoldable pub threshold_reached : ℕ → F → ℕ → Bool
  threshold_reached votes pass_threshold base =
      ltb 0 base
      && num.le (num.mul pass_threshold (num.of_ℕ base)) (num.mul (num.of_ℕ votes) (num.of_ℕ 100))

  unfoldable pub percentage : ℕ → ℕ → F
  percentage votes base =
      if ltb 0 base
      then num.mul (num.div (num.of_ℕ votes) (num.of_ℕ base)) (num.of_ℕ 100)
      else num.of_ℕ 0

  unfoldable pub passes_with_all_allowed_voters : VoteResults F → Bool
  passes_with_all_allowed_voters r = threshold_reached r.in_favor r.pass_threshold r.allowed_voters

-- ===== src/Tmpl/Build.antt =====
-- src/tmpl.rs: the templates that are computed, and the filter on non-binding votes.
use gitvote.Prelude.{
  ℕ, ◌+◌, Bool, true, false, not, Option, none, some, List, [], ◌∷◌, map, Str, ltb, leb, select,
  take, ◌==◌, if◌then◌else◌,
}
use gitvote.Prelude.Map
use gitvote.Prelude.Map.{Map}
use gitvote.CfgRepo.{CfgProfile, AllowedVoters, PassThresholdBase, allowed_voters, votes_cast}
use gitvote.Cmd.{CreateVoteInput}
use gitvote.Float.{Float}
use gitvote.Github.Names.{char_eq}
use gitvote.Github.Voters.{listed}
use gitvote.Results.{VoteOption, in_favor, against, abstain, UserVote, Vote, VoteResults}
use gitvote.Results.Tally.{base_or_default, is_true}
use gitvote.Tmpl.{AuditParticipationStatsUser, AuditParticipationStats, Audit, VoteCreated}

-- The counters of a user in a year.
pub record Participation : Type 0 where
  pub not_voted : ℕ
  pub votes_abstain : ℕ
  pub votes_against : ℕ
  pub votes_in_favor : ℕ

abbrev pub no_participation : Participation
no_participation = record {
  not_voted = 0;
  votes_abstain = 0;
  votes_against = 0;
  votes_in_favor = 0;
}

abbrev pub or_default : Option Participation → Participation
or_default none = no_participation
or_default (some p) = p

abbrev pub YearStats : Type 0
YearStats = Map Participation

-- `entry(user).or_default()`, changed by `f`.
unfoldable pub update_user : (Participation → Participation) → Str → YearStats → YearStats
update_user f user stats = Map.insert user (f (or_default (Map.lookup user stats))) stats

abbrev pub add_option : VoteOption → Participation → Participation
add_option in_favor p = record p { votes_in_favor = p.votes_in_favor + 1 }
add_option against p = record p { votes_against = p.votes_against + 1 }
add_option abstain p = record p { votes_abstain = p.votes_abstain + 1 }

abbrev pub add_not_voted : Participation → Participation
add_not_voted p = record p { not_voted = p.not_voted + 1 }

unfoldable pub add_votes : Map UserVote → YearStats → YearStats
add_votes [] stats = stats
add_votes ((user, v) ∷ votes) stats =
    add_votes votes (if v.binding then update_user (add_option v.vote_option) user stats else stats)

unfoldable pub add_pending : List Str → YearStats → YearStats
add_pending [] stats = stats
add_pending (user ∷ users) stats = add_pending users (update_user add_not_voted user stats)

abbrev pub year_or_default : Option YearStats → YearStats
year_or_default none = []
year_or_default (some stats) = stats

-- The years in ascending order.
unfoldable pub find_year : ℕ → List (ℕ × YearStats) → Option YearStats
find_year year [] = none
find_year year ((y, stats) ∷ years) = if year == y then some stats else find_year year years

unfoldable pub set_year : ℕ → YearStats → List (ℕ × YearStats) → List (ℕ × YearStats)
set_year year stats [] = (year, stats) ∷ []
set_year year stats ((y, old) ∷ years) =
    let rest = set_year year stats years in
    if ltb year y
    then (year, stats) ∷ (y, old) ∷ years
    else if year == y
    then (year, stats) ∷ years
    else (y, old) ∷ rest

module _ {F : Type 0} (year_of : ℕ → ℕ) (tracking_start : ℕ) where
  unfoldable pub add_results : ℕ → VoteResults F → List (ℕ × YearStats) → List (ℕ × YearStats)
  add_results year results years =
      set_year year
        (add_pending results.pending_voters
          (add_votes results.votes (year_or_default (find_year year years))))
        years

  unfoldable pub add_vote : Vote F → List (ℕ × YearStats) → List (ℕ × YearStats)
  add_vote vote years = if ltb vote.created_at tracking_start then years else elim vote.results [
    | none ↦ years
    | some results ↦ add_results (year_of vote.created_at) results years
  ]

  unfoldable pub aggregate : List (Vote F) → List (ℕ × YearStats) → List (ℕ × YearStats)
  aggregate [] years = years
  aggregate (vote ∷ votes) years = aggregate votes (add_vote vote years)

abbrev pub voted_count : Participation → ℕ
voted_count p = p.votes_abstain + p.votes_against + p.votes_in_favor

module _ {F : Type 0} ⦃num : Float F⦄ where
  unfoldable pub participation_percentage : Participation → F
  unfolding char_eq
  participation_percentage p =
      let total = voted_count p + p.not_voted in
      if total == 0
      then num.of_ℕ 0
      else num.mul (num.div (num.of_ℕ (voted_count p)) (num.of_ℕ total)) (num.of_ℕ 100)

  unfoldable pub finish_user : Participation → AuditParticipationStatsUser F
  finish_user p = record {
    not_voted = p.not_voted;
    participation_percentage = participation_percentage p;
    votes_abstain = p.votes_abstain;
    votes_against = p.votes_against;
    votes_in_favor = p.votes_in_favor;
  }

  unfoldable pub finish_years : List (ℕ × YearStats) → AuditParticipationStats F
  finish_years = map (λ (year, stats). (year, map (λ (user, p). (user, finish_user p)) stats))

  unfoldable pub calculate_participation_stats :
      (ℕ → ℕ) → ℕ → List (Vote F) → AuditParticipationStats F
  calculate_participation_stats year_of tracking_start votes =
      finish_years (aggregate year_of tracking_start votes [])

  -- `Audit::new`
  unfoldable pub new_audit : (ℕ → ℕ) → ℕ → Str → List (Vote F) → Audit F
  new_audit year_of tracking_start repository_full_name votes = record {
    participation_stats = calculate_participation_stats year_of tracking_start votes;
    repository_full_name = repository_full_name;
    votes = votes;
  }

abbrev org_or_empty : Option Str → Str
org_or_empty none = []
org_or_empty (some org) = org

abbrev teams_of : Option AllowedVoters → List Str
teams_of none = []
teams_of (some voters) = listed voters.teams

abbrev users_of : Option AllowedVoters → List Str
users_of none = []
users_of (some voters) = listed voters.users

abbrev base_details : PassThresholdBase → Bool × Bool
base_details allowed_voters = (false, false)
base_details (votes_cast exclude_abstentions) = (true, is_true exclude_abstentions)

-- `VoteCreated::new`
unfoldable pub new_vote_created : {F : Type 0} → CreateVoteInput → CfgProfile F → VoteCreated F
new_vote_created input cfg = record {
  creator = input.created_by;
  issue_title = input.issue_title;
  issue_number = input.issue_number;
  duration = cfg.duration;
  pass_threshold = cfg.pass_threshold;
  pass_threshold_base_votes_cast = (base_details (base_or_default cfg.pass_threshold_base)).0;
  exclude_abstentions = (base_details (base_or_default cfg.pass_threshold_base)).1;
  org = org_or_empty input.organization;
  teams = teams_of cfg.allowed_voters;
  users = users_of cfg.allowed_voters;
}

-- `sort_by_key`, which is stable.
unfoldable pub insert_by_timestamp : Str × UserVote → Map UserVote → Map UserVote
insert_by_timestamp e [] = e ∷ []
insert_by_timestamp e (d ∷ votes) =
    let rest = insert_by_timestamp e votes in
    if leb e.1.timestamp d.1.timestamp then e ∷ d ∷ votes else d ∷ rest

unfoldable pub sort_by_timestamp : Map UserVote → Map UserVote
sort_by_timestamp [] = []
sort_by_timestamp (e ∷ votes) = insert_by_timestamp e (sort_by_timestamp votes)

-- The filter `non_binding`.
unfoldable pub non_binding : ℕ → Map UserVote → Map UserVote
non_binding max votes = take max (sort_by_timestamp (select (λ e. not e.1.binding) votes))

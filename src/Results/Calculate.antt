-- ===== src/Results/Calculate.antt =====
-- src/results.rs: `calculate`.
use gitvote.Prelude.{as_u64, none, some, List, map, length, Str}
use gitvote.Prelude.Map.{Map}
use gitvote.Float.{Float}
use gitvote.Github.Api.{get_comment_reactions}
use gitvote.Github.Voters.{get_allowed_voters}
use gitvote.Results.{Vote, VoteResults, UserVote}
use gitvote.Results.Tally.{
  untracked, track_reactions, no_votes, count_votes, base_or_default, threshold_base, pending,
  threshold_reached, percentage,
}
use gitvote.World.{repo_of, Env, M, ◌>>=◌, pure, crash}

abbrev pub values : Map UserVote → List UserVote
values = map (λ e. e.1)

module _ {F : Type 0} ⦃num : Float F⦄ where
  -- The counts and percentages, from the votes and the allowed voters.
  unfoldable pub summarise : Vote F → List Str → Map UserVote → VoteResults F
  summarise vote allowed votes =
      let tally = count_votes no_votes (values votes) in
      let base =
        threshold_base (base_or_default vote.cfg.pass_threshold_base) tally (length allowed) in
      let pending_voters = pending allowed votes in
      record {
        passed = threshold_reached tally.in_favor vote.cfg.pass_threshold base;
        in_favor_percentage = percentage tally.in_favor base;
        pass_threshold = vote.cfg.pass_threshold;
        in_favor = tally.in_favor;
        against = tally.against;
        against_percentage = percentage tally.against base;
        abstain = tally.abstain;
        not_voted = length pending_voters;
        binding = tally.binding;
        non_binding = tally.non_binding;
        allowed_voters = length allowed;
        votes = votes;
        pending_voters = pending_voters;
      }

  unfoldable pub calculate : Env F → Str × Str → Vote F → M F (VoteResults F)
  calculate env names vote = do
    let r = repo_of (as_u64 vote.installation_id) names
    reactions ← get_comment_reactions env r vote.vote_comment_id
    allowed ← get_allowed_voters env r vote.cfg vote.organization
    elim (track_reactions env.parse_rfc3339 allowed untracked reactions) [
      | none ↦ crash
      | some tracked ↦ pure (summarise vote allowed tracked.votes)
    ]

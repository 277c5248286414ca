-- ===== src/Tests/Pages.antt =====
-- Examples of the commands in comments, of the pages and of what they show.
use gitvote.Tmpl.Participation.{
  aggregate-counts, named_of, not_voted_of, binding_of, added_by, year_stats, voted_of,
}
use gitvote.Results.{Vote}
use gitvote.Cmd.FromEvent.{profile_name, new_create_vote, from_event}
use gitvote.Github.Api.{logins}
use gitvote.Results.Turnout.{Distinct}
use gitvote.Results.Calculate.{summarise, calculate}
use gitvote.Github.Names.{char_eq}
use gitvote.Github.Distinct.{ListsOnce}
use gitvote.Github.{issue_comment, ok, created, IssueCommentEvent, Reaction, User}
use gitvote.Cmd.FromEvent.{content}
use gitvote.Cmd.{create_vote}
use gitvote.Prelude.{
  Memᴰ, ◌≤◌, ◌+◌, ℕ_discrete, length, All, inr, ◌≡◌, refl, none, some, true, false, [], ◌∷◌, ◌++◌,
  str, ℕ, arith, pos, List, subst,
}
use gitvote.Tests.{
  test_float, env, cfg, full_name, one_vote, empty, vote, alice, reactions, allowed, user,
}
use gitvote.Tests.Votes.{tracked, IsLower, lower-canonical, IsLower-logins}
use gitvote.Cmd.Parse.{
  span_word, skip_dash, strip_prefix, match_profile, match_cmd, match_cmds, match_line,
  cmd_create_vote, cmd_cancel_vote, cmd_check_vote, cmds,
}
use gitvote.Cmd.Grammar.{IsLine, match_line-dashed, match_line-IsLine}
use gitvote.Cmd.Manual.{from_event-vote}
use gitvote.Tmpl.Build.{aggregate, non_binding}
use gitvote.Tmpl.Filter.{IsOldest, non_binding-IsOldest}
use gitvote.Handlers.{respond, audit_vote_details, Response}
use gitvote.Handlers.Enabled.{IsCache, IsAudited, audit-IsAudited}
use gitvote.Prelude.{inr}
use gitvote.Handlers.Own.{IsOwn, audit_vote_details-IsOwn}
use gitvote.Results.Calculated.{HasLogins, calculate-adds_up}
use gitvote.World.{World, Env, after, done}

non_binding-IsOldest_example : IsOldest 1 tracked.votes (non_binding 1 tracked.votes)
non_binding-IsOldest_example = non_binding-IsOldest 1 tracked.votes

match_line-dashed_example :
    (match_line (str "/vote-" ++ str "p1" ++ str " ") ≡ some (cmd_create_vote, str "p1"))
    × (match_line (str "/cancel-vote-" ++ str "p1" ++ str " ") ≡ some (cmd_cancel_vote, str "p1"))
    × (match_line (str "/check-vote-" ++ str "p1" ++ str " ") ≡ some (cmd_check_vote, str "p1"))
unfolding char_eq ℕ_discrete
match_line-dashed_example = match_line-dashed (str "p1") (str " ") refl refl

match_line-IsLine_example :
    Memᴰ cmd_create_vote cmds × IsLine cmd_create_vote (str "p1") (str "/vote-p1")
unfolding char_eq ℕ_discrete match_line match_cmds match_cmd match_profile strip_prefix skip_dash
    span_word
match_line-IsLine_example = match_line-IsLine (str "/vote-p1") cmd_create_vote (str "p1") refl

abbrev comment_event : IssueCommentEvent
comment_event = record {
  action = created;
  comment = record { id = pos 1; body = some (str "/vote-" ++ str "p1") };
  installation = record { id = pos 1 };
  issue = record {
    id = pos 2;
    number = pos 3;
    title = str "Title";
    body = none;
    pull_request = none;
  };
  repository = record { full_name = full_name };
  organization = none;
  sender = user alice;
}

from_event-vote_example :
    from_event env (issue_comment comment_event) empty
    ≡ done
        (some
          (create_vote (new_create_vote (profile_name (str "p1")) (issue_comment comment_event))))
        empty
unfolding char_eq ℕ_discrete content
from_event-vote_example =
    from_event-vote env (issue_comment comment_event) (str "p1") empty refl refl

ok_reactions : (a b : List Reaction) → ok a ≡ ok b → a ≡ b
ok_reactions a b h = cc

ok_users : (a b : List User) → ok a ≡ ok b → a ≡ b
ok_users a b h = cc

env-HasLogins : HasLogins env IsLower lower-canonical
env-HasLogins trace c rs h =
    subst (All (λ r. IsLower r.user.login)) (ok_reactions reactions rs h) IsLower-logins

env-ListsOnce : ListsOnce env
env-ListsOnce trace c users h =
    subst (λ us. Distinct (logins us)) (ok_users (user alice ∷ []) users h) (refl, tt)

calculated :
    (calculate env (str "org", str "repo") vote empty)
    ≡ done
        (summarise vote allowed tracked.votes)
        (after (calculate env (str "org", str "repo") vote empty))
unfolding calculate gitvote.Github.Api.get_comment_reactions
    gitvote.Github.Voters.get_allowed_voters gitvote.Prelude.eq_ignore_ascii_case
    gitvote.Prelude.str_eq gitvote.Results.Tally.track_reactions
    gitvote.Results.Tally.track_reaction gitvote.Results.Tally.from_reaction
    gitvote.Results.Tally.track_vote gitvote.Prelude.Map.contains_key gitvote.Prelude.Map.insert
    gitvote.Prelude.str_compare gitvote.Prelude.Map.remove
calculated = refl

calculate-adds_up_example :
    let r = summarise vote allowed tracked.votes in r.binding + r.not_voted ≡ r.allowed_voters
calculate-adds_up_example =
    calculate-adds_up env IsLower lower-canonical env-HasLogins env-ListsOnce vote
      (str "org", str "repo") (summarise vote allowed tracked.votes) empty
      (after (calculate env (str "org", str "repo") vote empty)) calculated

-- A repository that shows its audit.
abbrev audited : Env ℕ
audited = record env {
  parse_yaml = λ text. inr (record {
    profiles = (str "default", cfg) ∷ [];
    audit = some (record { enabled = true });
    automation = none;
  });
}

abbrev shown : World ℕ
shown = after (audit_vote_details audited (str "org") (str "repo") 7 one_vote)

details_shown :
    audit_vote_details audited (str "org") (str "repo") 7 one_vote
    ≡ done (respond 200 (str "text")) shown
unfolding audit_vote_details gitvote.Handlers.audit_is_enabled gitvote.Handlers.read_audit
    gitvote.Github.Names.split_full_name ℕ_discrete
    gitvote.Github.Api.get_repository_installation_id gitvote.Handlers.audit_of_installation
    gitvote.CfgRepo.Load.cfg_get gitvote.Github.Api.get_config_file gitvote.Handlers.details_page
    gitvote.Db.get_vote gitvote.Db.statement gitvote.Db.has_id gitvote.Db.from_row
    gitvote.Handlers.show_found gitvote.Handlers.show_vote gitvote.Handlers.results_of_vote
    calculate gitvote.Github.Api.get_comment_reactions gitvote.Github.Voters.get_allowed_voters
    gitvote.Prelude.eq_ignore_ascii_case gitvote.Prelude.str_eq
    gitvote.Results.Tally.track_reactions gitvote.Results.Tally.track_reaction
    gitvote.Results.Tally.from_reaction gitvote.Results.Tally.track_vote
    gitvote.Prelude.Map.contains_key gitvote.Prelude.Map.insert gitvote.Prelude.str_compare
    gitvote.Prelude.Map.remove
details_shown = refl

audit_vote_details-IsOwn_example :
    IsOwn audited one_vote.table 7 (str "org" ++ (str "/" ++ str "repo"))
audit_vote_details-IsOwn_example =
    audit_vote_details-IsOwn audited (str "org") (str "repo") 7 one_vote shown
      (respond 200 (str "text")) details_shown refl

audited-IsCache : IsCache audited (str "org" ++ (str "/" ++ str "repo"))
audited-IsCache trace h = absurd (ground arith)

audit-IsAudited_example : IsAudited audited (str "org" ++ (str "/" ++ str "repo")) one_vote
audit-IsAudited_example =
    audit-IsAudited audited 0 7 (str "org") (str "repo") one_vote shown (respond 200 (str "text"))
      (inr details_shown) refl audited-IsCache

abbrev closed_vote : Vote ℕ
closed_vote = record vote { results = some (summarise vote allowed tracked.votes) }

aggregate-counts_example :
    (voted_of alice (year_stats 2025 (aggregate (λ time. 2025) 10 (closed_vote ∷ []) []))
      ≡ voted_of alice (year_stats 2025 [])
        + added_by (λ time. 2025) 10 (λ r. binding_of alice r.votes) 2025 (closed_vote ∷ []))
    × (not_voted_of alice (year_stats 2025 (aggregate (λ time. 2025) 10 (closed_vote ∷ []) []))
        ≡ not_voted_of alice (year_stats 2025 [])
          + added_by
              (λ time. 2025)
              10
              (λ r. named_of alice r.pending_voters)
              2025
              (closed_vote ∷ []))
aggregate-counts_example = aggregate-counts (λ time. 2025) 10 alice 2025 (closed_vote ∷ []) []

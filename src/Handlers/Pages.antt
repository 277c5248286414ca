-- ===== src/Handlers/Pages.antt =====
-- src/handlers.rs: the pages of the audit.
use gitvote.Results.Calculate.{calculate}
use gitvote.Db.Effects.{Quiet-list_votes, Quiet-get_vote}
use gitvote.Results.{VoteResults, Vote}
use gitvote.Github.Api.Quiet.{
  Quiet-calculate, Quiet-cfg_get, Quiet-get_repository_installation_id, Quiet-split_full_name,
}
use gitvote.Github.{is_not_found_error, err, ok, Result}
use gitvote.Float.{Float}
use gitvote.CfgRepo.{Cfg, CfgError, config_not_found, invalid_config, profile_not_found}
use gitvote.Prelude.{
  str_eq, ◌⊎◌, ◌≢◌, ◌==◌, arith, ◌≡◌, Bool, true, false, Option, none, some, Str, ℕ, ◌++◌, str,
}
use gitvote.World.{done, World, Env, repo_of, M, pure}
use gitvote.World.Quiet.{Quiet, Quiet->>=, Quiet-pure, Quiet-throw, Quiet-attempt, Quiet-if}
use gitvote.Handlers.{
  unless_cached, read_audit, inr, inl, not_found, Response, audit_of, audit_of_installation,
  audit_is_enabled, guarded, audit_page, audit, results_of_vote, show_vote, show_found,
  details_page, audit_vote_details,
}

module _ {F : Type 0} (env : Env F) where
  Quiet-audit_of : (cfg : CfgError ⊎ Cfg F) → Quiet (audit_of env cfg)
  Quiet-audit_of (inl config_not_found) = Quiet-pure false
  Quiet-audit_of (inl (invalid_config reason)) = Quiet-throw _
  Quiet-audit_of (inl profile_not_found) = Quiet-throw _
  Quiet-audit_of (inr cfg) = Quiet-pure _

  Quiet-audit_of_installation :
      (names : Str × Str) (r : Result ℕ) → Quiet (audit_of_installation env names r)
  unfolding audit_of_installation
  Quiet-audit_of_installation names (ok inst_id) =
      Quiet->>= _ _ (Quiet-cfg_get env (repo_of inst_id names)) Quiet-audit_of
  Quiet-audit_of_installation names (err e) =
      Quiet-if (is_not_found_error e) _ _ (Quiet-pure false) (Quiet-throw e)

  Quiet-read_audit : (name : Str) → Quiet (read_audit env name)
  unfolding read_audit
  Quiet-read_audit name = Quiet->>= _ _ (Quiet-split_full_name name) λ names.
      Quiet->>= _ _ (Quiet-attempt _ (Quiet-get_repository_installation_id env names.0 names.1))
        (Quiet-audit_of_installation names)

  Quiet-unless_cached :
      (cached : Option Bool) (body : M F Bool) → Quiet body → Quiet (unless_cached env cached body)
  Quiet-unless_cached none body q = q
  Quiet-unless_cached (some enabled) body q = Quiet-pure enabled

  pub Quiet-audit_is_enabled : (name : Str) → Quiet (audit_is_enabled env name)
  unfolding audit_is_enabled
  Quiet-audit_is_enabled name = record {
    same =
        λ w. (Quiet-unless_cached (env.cached_audit w.trace name) _ (Quiet-read_audit name)).same w;
  }

  Quiet-guarded :
      (enabled : Result Bool) (page : M F Response) → Quiet page → Quiet (guarded env enabled page)
  Quiet-guarded (err e) page q = Quiet-pure _
  Quiet-guarded (ok false) page q = Quiet-pure _
  Quiet-guarded (ok true) page q = q

  module _ ⦃num : Float F⦄ where
    Quiet-audit_page : (start : ℕ) (name : Str) → Quiet (audit_page env start name)
    unfolding audit_page
    Quiet-audit_page start name =
        Quiet->>= _ _ (Quiet-attempt _ (Quiet-list_votes env name)) λ votes. Quiet-pure _

    -- The page of a repository's votes changes nothing but the record of the calls.
    pub Quiet-audit : (start : ℕ) (owner repo : Str) → Quiet (audit env start owner repo)
    unfolding audit
    Quiet-audit start owner repo =
        let name = owner ++ (str "/" ++ repo) in
        Quiet->>= _ _ (Quiet-attempt _ (Quiet-audit_is_enabled name))
          λ enabled. Quiet-guarded enabled _ (Quiet-audit_page start name)

    results_cases :
        (names : Str × Str) (vote : Vote F) (o : Option (VoteResults F))
        → Quiet {F = F} {A = VoteResults F}
            (elim o [ some results ↦ pure results | none ↦ calculate env names vote ])
    results_cases names vote (some results) = Quiet-pure results
    results_cases names vote none = Quiet-calculate env names vote

    Quiet-results_of_vote :
        (names : Str × Str) (vote : Vote F) → Quiet (results_of_vote env names vote)
    unfolding results_of_vote
    Quiet-results_of_vote names vote = results_cases names vote vote.results

    Quiet-show_vote : (names : Str × Str) (vote : Vote F) → Quiet (show_vote env names vote)
    unfolding show_vote
    Quiet-show_vote names vote =
        Quiet->>= _ _ (Quiet-attempt _ (Quiet-results_of_vote names vote)) λ results. Quiet-pure _

    Quiet-show_found :
        (name : Str) (names : Str × Str) (found : Result (Option (Vote F)))
        → Quiet (show_found env name names found)
    unfolding show_found
    Quiet-show_found name names (err e) = Quiet-pure _
    Quiet-show_found name names (ok none) = Quiet-pure _
    Quiet-show_found name names (ok (some vote)) =
        Quiet-if (vote.repository_full_name == name) _ _ (Quiet-show_vote names vote) (Quiet-pure _)

    Quiet-details_page :
        (name : Str) (names : Str × Str) (vote_id : ℕ) → Quiet (details_page env name names vote_id)
    unfolding details_page
    Quiet-details_page name names vote_id =
        Quiet->>= _ _ (Quiet-attempt _ (Quiet-get_vote env vote_id)) (Quiet-show_found name names)

    -- The page of one vote changes nothing but the record of the calls.
    pub Quiet-audit_vote_details :
        (owner repo : Str) (vote_id : ℕ) → Quiet (audit_vote_details env owner repo vote_id)
    unfolding audit_vote_details
    Quiet-audit_vote_details owner repo vote_id =
        let name = owner ++ (str "/" ++ repo) in
        Quiet->>= _ _ (Quiet-attempt _ (Quiet-audit_is_enabled name))
          λ enabled. Quiet-guarded enabled _ (Quiet-details_page name (owner, repo) vote_id)

    -- A page is shown only where the repository exists, and for a vote of that repository: of any
    -- other vote, or of none, the answer is the status 404, and nothing is calculated.
    show_found-other :
        (name : Str) (names : Str × Str) (vote : Vote F) (w : World F)
        → vote.repository_full_name ≢ name
        → show_found env name names (ok (some vote)) w ≡ done not_found w
    unfolding show_found
    show_found-other name names vote w h = ground arith

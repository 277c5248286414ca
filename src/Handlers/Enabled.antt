-- ===== src/Handlers/Enabled.antt =====
-- src/handlers.rs: the audit pages are for repositories that enable the audit in their configuration.
use gitvote.Db.{second}
use gitvote.CfgRepo.Load.{cfg_get}
use gitvote.CfgRepo.{Audit, Cfg, CfgError, config_not_found, invalid_config, profile_not_found}
use gitvote.Float.{Float}
use gitvote.Github.Api.{get_repository_installation_id}
use gitvote.Github.Names.{split_full_name}
use gitvote.Github.{Result, ok, err, is_not_found_error}
use gitvote.Handlers.{
  some, unless_cached, Option, read_audit, Response, audit, audit_vote_details, audit_is_enabled,
  audit_of_installation, audit_of, audit_enabled, guarded,
}
use gitvote.Prelude.{
  Option, none, some, ◌*◌, ◌*◌, ◌+◌, ◌+◌, ◌≤◌, ◌≤◌, ap, ◌∙◌, ◌∙◌, ℕ, Bool, Bool-cases, true, false,
  inl, inr, ◌≡◌, refl, ◌++◌, Str, str, ◌⊎◌, arith,
}
use gitvote.World.{Trace, World, Env, repo_of, M, Run, done, fail, panic, then_do, caught, attempt}

module _ {F A B : Type 0} where
  -- A sequence that ends with a value is one whose parts do.
  then_do-done :
      (r : Run F A) (f : A → M F B) (b : B) (v : World F)
      → then_do r f ≡ done b v
      → (a : A) × (u : World F) × (r ≡ done a u) × (f a u ≡ done b v)
  then_do-done (done a u) f b v h = (a, u, refl, h)
  then_do-done (fail e u) f b v h = absurd (ground arith)
  then_do-done (panic u) f b v h = absurd (ground arith)

module _ {F : Type 0} (env : Env F) where
  -- The body of `audit_is_enabled`, run for a name between two worlds, has found that the audit is
  -- enabled: GitHub knows an installation of the application for the repository, and the configuration
  -- that the repository has then enables the audit.
  pub record IsRead (name : Str) (before behind : World F) : Type 0 where
    pub names : Str × Str
    pub inst_id : ℕ
    pub cfg : Cfg F
    pub enabled_audit : Audit
    pub start : World F
    pub asked : World F
    pub split : split_full_name name before ≡ done names start
    pub installed :
        attempt (get_repository_installation_id env names.0 names.1) start ≡ done (ok inst_id) asked
    pub found : cfg_get env (repo_of inst_id names) asked ≡ done (inr cfg) behind
    pub audit : cfg.audit ≡ some enabled_audit
    pub enabled : enabled_audit.enabled ≡ true

  audit_enabled-some :
      (o : Option Audit) → audit_enabled o ≡ true → (a : Audit) × (o ≡ some a) × (a.enabled ≡ true)
  audit_enabled-some none h = absurd (ground arith)
  audit_enabled-some (some a) h = (a, refl, h)

  audit_of-true :
      (cfg : CfgError ⊎ Cfg F) (w v : World F)
      → audit_of env cfg w ≡ done true v
      → (c : Cfg F) × (cfg ≡ inr c) × (audit_enabled c.audit ≡ true) × (w ≡ v)
  audit_of-true (inl config_not_found) w v h = absurd (ground arith)
  audit_of-true (inl profile_not_found) w v h = absurd (ground arith)
  audit_of-true (inl (invalid_config reason)) w v h = absurd (ground arith)
  audit_of-true (inr cfg) w v h = (cfg, refl, done_true w v _ h, done_world w v _ true h)
    where
      done_true : (w v : World F) (b : Bool) → done b w ≡ done true v → b ≡ true
      done_true w v b h = cc

      done_world : (w v : World F) (b c : Bool) → done b w ≡ done c v → w ≡ v
      done_world w v b c h = cc

  audit_of_installation-true :
      (names : Str × Str) (inst_id : Result ℕ) (u v : World F)
      → audit_of_installation env names inst_id u ≡ done true v
      → (n : ℕ) × (c : Cfg F) × (inst_id ≡ ok n)
        × (cfg_get env (repo_of n names) u ≡ done (inr c) v)
        × (audit_enabled c.audit ≡ true)
  unfolding audit_of_installation
  audit_of_installation-true names (ok n) u v h =
      let (cfg, w, found, k) = then_do-done (cfg_get env (repo_of n names) u) _ true v h in
      let (c, e, enabled, same) = audit_of-true cfg w v k in
      (n, c, refl, found ∙ ap (λ x. done x w) e ∙ ap (done (inr c)) same, enabled)
  audit_of_installation-true names (err e) u v h = elim (Bool-cases (is_not_found_error e)) [
    | inl n ↦ absurd (ground arith)
    | inr n ↦ absurd (ground arith)
  ]

  read_audit-IsRead :
      (name : Str) (w v : World F) → read_audit env name w ≡ done true v → IsRead name w v
  unfolding read_audit
  read_audit-IsRead name w v h =
      let (names, u, split, k) = then_do-done (split_full_name name w) _ true v h in
      let (inst_id, u', answered, l) =
        then_do-done (attempt (get_repository_installation_id env names.0 names.1) u) _ true v k in
      let (n, cfg, e, found, enabled) = audit_of_installation-true names inst_id u' v l in
      let (a, has, on) = audit_enabled-some cfg.audit enabled in
      record {
        names = names;
        inst_id = n;
        cfg = cfg;
        enabled_audit = a;
        start = u;
        asked = u';
        split = split;
        installed = answered ∙ ap (λ x. done x u') e;
        found = found;
        audit = has;
        enabled = on;
      }

  -- The body has returned that the audit is enabled, at some time before and at most 15 minutes ago.
  pub record Remembers (trace : Trace) (name : Str) : Type 0 where
    pub before : World F
    pub behind : World F
    pub later : Trace
    pub returned : read_audit env name before ≡ done true behind
    pub earlier : trace ≡ later ++ behind.trace
    pub young : env.now trace ≤ env.now behind.trace + 900 * second

  -- What the cache holds is what the body returned for that name, not more than 15 minutes before.
  abbrev pub IsCache : Str → Type 0
  IsCache name = (trace : Trace) → env.cached_audit trace name ≡ some true → Remembers trace name

  -- The audit was found enabled by this request, or at most 15 minutes before it.
  pub data IsAudited (name : Str) (w : World F) : Type 0 where
    now : (behind : World F) → IsRead name w behind → IsAudited name w
    before :
        (before behind : World F) (later : Trace)
        → IsRead name before behind
        → w.trace ≡ later ++ behind.trace
        → env.now w.trace ≤ env.now behind.trace + 900 * second
        → IsAudited name w

  cached-IsAudited :
      (name : Str) (w v : World F) (cached : Option Bool)
      → IsCache name
      → env.cached_audit w.trace name ≡ cached
      → unless_cached env cached (read_audit env name) w ≡ done true v
      → IsAudited name w
  cached-IsAudited name w v none c e h = IsAudited.now v (read_audit-IsRead name w v h)
  cached-IsAudited name w v (some false) c e h = absurd (ground arith)
  cached-IsAudited name w v (some true) c e h =
      let m = c w.trace e in
      IsAudited.before m.before m.behind m.later
        (read_audit-IsRead name m.before m.behind m.returned) m.earlier m.young

  audit_is_enabled-IsAudited :
      (name : Str) (w v : World F)
      → IsCache name
      → audit_is_enabled env name w ≡ done true v
      → IsAudited name w
  unfolding audit_is_enabled
  audit_is_enabled-IsAudited name w v c h = cached-IsAudited name w v _ c refl h

  guarded-enabled :
      (r : Run F Bool) (page : M F Response) (response : Response) (v : World F)
      → then_do (caught r) (λ enabled. guarded env enabled page) ≡ done response v
      → response.status ≡ 200
      → (u : World F) × (r ≡ done true u)
  guarded-enabled (done true u) page response v h s = (u, refl)
  guarded-enabled (done false u) page response v h s = absurd (ground arith)
  guarded-enabled (fail e u) page response v h s = absurd (ground arith)
  guarded-enabled (panic u) page response v h s = absurd (ground arith)

  -- The page of a repository, or of a vote in it, is answered with the status 200 only if the
  -- configuration of the repository enables the audit, as it is read for this request or was read for
  -- an earlier one, at most 15 minutes before. What the cache holds was read so.
  pub audit-IsAudited :
      ⦃num : Float F⦄ (start vote_id : ℕ) (owner repo : Str) (w v : World F) (response : Response)
      → ((audit env start owner repo w ≡ done response v)
          ⊎ (audit_vote_details env owner repo vote_id w ≡ done response v))
      → response.status ≡ 200
      → IsCache (owner ++ (str "/" ++ repo))
      → IsAudited (owner ++ (str "/" ++ repo)) w
  unfolding audit audit_vote_details
  audit-IsAudited start vote_id owner repo w v response (inl h) s c =
      let name = owner ++ (str "/" ++ repo) in
      let (u, e) = guarded-enabled (audit_is_enabled env name w) _ response v h s in
      audit_is_enabled-IsAudited name w u c e
  audit-IsAudited start vote_id owner repo w v response (inr h) s c =
      let name = owner ++ (str "/" ++ repo) in
      let (u, e) = guarded-enabled (audit_is_enabled env name w) _ response v h s in
      audit_is_enabled-IsAudited name w u c e

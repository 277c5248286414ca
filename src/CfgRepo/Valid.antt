-- ===== src/CfgRepo/Valid.antt =====
-- src/cfg_repo.rs: which profiles `CfgProfile::get` gives back.
use gitvote.Prelude.{◌≡◌, ◌↔◌, Bool, true, arith}
use gitvote.Float.{Float}
use gitvote.CfgRepo.{CfgProfile}
use gitvote.Github.{ok}
use gitvote.Results.Threshold.{IsPercentage}
use gitvote.CfgRepo.Load.{validate, has_teams}

module _ {F : Type 0} ⦃num : Float F⦄ where
  -- A threshold over 0 and up to 100, and teams only in organizations.
  pub record IsValid (p : CfgProfile F) (is_org : Bool) : Type 0 where
    pub threshold : IsPercentage p.pass_threshold
    pub teams : has_teams p.allowed_voters ≡ true → is_org ≡ true

  -- `validate` accepts exactly the profiles with a threshold in (0, 100] and with teams only where
  -- the repository belongs to an organization.
  pub validate-ok_iff :
      (p : CfgProfile F) (is_org : Bool) → (validate p is_org ≡ ok tt) ↔ IsValid p is_org
  unfolding validate
  validate-ok_iff p is_org = ground arith

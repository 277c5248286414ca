-- ===== src/Processor/Quiet.antt =====
-- src/processor.rs: the parts of the handlers that only talk to GitHub.
use gitvote.Prelude.{Bool, true, false, ℤ, Str}
use gitvote.Github.Api.Quiet.{Quiet-post_comment, Quiet-add_labels, Quiet-remove_label}
use gitvote.Processor.{post, open_labels, refuse, when}
use gitvote.Tmpl.{Template}
use gitvote.World.{Env, Repo, M, ignore}
use gitvote.World.Quiet.{Quiet, Quiet->>=, Quiet-pure, Quiet-attempt, Quiet-lift}

module _ {F : Type 0} where
  pub Quiet-ignore : {A : Type 0} (m : M F A) → Quiet m → Quiet (ignore m)
  Quiet-ignore m q = Quiet->>= _ _ (Quiet-attempt m q) λ a. Quiet-pure tt

module _ {F : Type 0} (env : Env F) where
  pub Quiet-when : (b : Bool) (m : M F (Unit {0})) → Quiet m → Quiet (when env b m)
  Quiet-when true m q = q
  Quiet-when false m q = Quiet-pure tt

module _ {F : Type 0} (env : Env F) (r : Repo) (n : ℤ) where
  pub Quiet-post : (t : Template F) → Quiet (post env r n t)
  unfolding post
  Quiet-post t = Quiet->>= _ _ (Quiet-lift (env.render t)) λ body. Quiet-post_comment env r n body

  pub Quiet-refuse : (t : Template F) → Quiet (refuse env r n t)
  Quiet-refuse t = Quiet->>= _ _ (Quiet-post t) λ id. Quiet-pure tt

  pub Quiet-open_labels : Quiet (open_labels env r n)
  unfolding open_labels
  Quiet-open_labels =
      let gone = λ (label : Str). Quiet-ignore _ (Quiet-remove_label env r n label) in
      Quiet->>= _ _ (gone _)
        λ u. Quiet->>= _ _ (gone _) λ u. Quiet->>= _ _ (gone _) λ u. Quiet-add_labels env r n _

-- ===== src/World/Quiet.antt =====
-- Runs that leave the table and the queue alone, whether they succeed or not.
use gitvote.Prelude.{
  ◌⊎◌, inl, inr, if◌then◌else◌, ◌≡◌, refl, ◌∙◌, Option, none, some, Bool, true, false, arith,
}
use gitvote.Github.{Error, Result, ok, err}
use gitvote.World.{
  World, Call, Trace, Run, done, fail, panic, M, ◌>>=◌, then_do, pure, throw, crash, lift, attempt,
  caught, after, call,
}

-- The same table and queue, after any calls.
pub record Same {F : Type 0} (w v : World F) : Type 0 where
  pub table : v.table ≡ w.table
  pub queue : v.queue ≡ w.queue

pub Same-trans : {F : Type 0} {w v u : World F} → Same w v → Same v u → Same w u
Same-trans s t = record { table = t.table ∙ s.table; queue = t.queue ∙ s.queue }

pub Same-refl : {F : Type 0} (w : World F) → Same w w
Same-refl w = record { table = refl; queue = refl }

pub record Quiet {F A : Type 0} (m : M F A) : Type 0 where
  pub same : (w : World F) → Same w (after (m w))

module _ {F A B : Type 0} where
  then_do-Same :
      (w : World F) (r : Run F A) (f : A → M F B)
      → Same w (after r)
      → ((a : A) → Quiet (f a))
      → Same w (after (then_do r f))
  then_do-Same w (done a v) f s q = Same-trans s ((q a).same v)
  then_do-Same w (fail e v) f s q = s
  then_do-Same w (panic v) f s q = s

  pub Quiet->>= : (m : M F A) (f : A → M F B) → Quiet m → ((a : A) → Quiet (f a)) → Quiet (m >>= f)
  Quiet->>= m f qm qf = record { same = λ w. then_do-Same w (m w) f (qm.same w) qf }

module _ {F A : Type 0} where
  pub Quiet-pure : (a : A) → Quiet {F = F} (pure a)
  Quiet-pure a = record { same = λ w. Same-refl w }

  pub Quiet-throw : (e : Error) → Quiet {F = F} {A = A} (throw e)
  Quiet-throw e = record { same = λ w. Same-refl w }

  pub Quiet-crash : Quiet {F = F} {A = A} crash
  Quiet-crash = record { same = λ w. Same-refl w }

  lift-Same : (r : Result A) (w : World F) → Same w (after (lift r w))
  lift-Same (ok a) w = Same-refl w
  lift-Same (err e) w = Same-refl w

  pub Quiet-lift : (r : Result A) → Quiet {F = F} (lift r)
  Quiet-lift r = record { same = lift-Same r }

  caught-Same : (w : World F) (r : Run F A) → Same w (after r) → Same w (after (caught r))
  caught-Same w (done a v) s = s
  caught-Same w (fail e v) s = s
  caught-Same w (panic v) s = s

  pub Quiet-attempt : (m : M F A) → Quiet m → Quiet (attempt m)
  Quiet-attempt m q = record { same = λ w. caught-Same w (m w) (q.same w) }

  call-Same :
      (answer : Trace → Call → Result A) (c : Call) (w : World F) → Same w (after (call answer c w))
  unfolding call
  call-Same answer c w = ground arith

  pub Quiet-call : (answer : Trace → Call → Result A) (c : Call) → Quiet {F = F} (call answer c)
  Quiet-call answer c = record { same = call-Same answer c }

-- The branches of a run.
module _ {F A B : Type 0} where
  pub Quiet-option :
      (o : Option A) (m : M F B) (f : A → M F B)
      → Quiet m
      → ((a : A) → Quiet (f a))
      → Quiet (elim o [ none ↦ m | some a ↦ f a ])
  Quiet-option none m f qm qf = qm
  Quiet-option (some a) m f qm qf = qf a

  pub Quiet-result :
      (r : Result A) (f : A → M F B) (g : Error → M F B)
      → ((a : A) → Quiet (f a))
      → ((e : Error) → Quiet (g e))
      → Quiet (elim r [ ok a ↦ f a | err e ↦ g e ])
  Quiet-result (ok a) f g qf qg = qf a
  Quiet-result (err e) f g qf qg = qg e

  pub Quiet-sum :
      {C : Type 0} (s : A ⊎ C) (f : A → M F B) (g : C → M F B)
      → ((a : A) → Quiet (f a))
      → ((c : C) → Quiet (g c))
      → Quiet (elim s [ inl a ↦ f a | inr c ↦ g c ])
  Quiet-sum (inl a) f g qf qg = qf a
  Quiet-sum (inr c) f g qf qg = qg c

pub Quiet-if :
    {F A : Type 0} (b : Bool) (m n : M F A) → Quiet m → Quiet n → Quiet (if b then m else n)
Quiet-if true m n qm qn = qm
Quiet-if false m n qm qn = qn

-- ===== src/World/Returns.antt =====
-- Runs that end with a value in every world: no error and no panic.
use gitvote.Prelude.{◌≡◌, sym, subst, Option, none, some, Bool, true, false, arith, if◌then◌else◌}
use gitvote.Github.{Result, ok, err}
use gitvote.World.{
  World, Call, Trace, Run, done, fail, panic, M, ◌>>=◌, then_do, pure, lift, attempt, caught, after,
  call,
}
use gitvote.World.Quiet.{Same, Quiet}
use gitvote.World.Steps.{Table, Post, Steps}

module _ {F A : Type 0} where
  abbrev pub HasValue : Run F A → Type 0
  HasValue (done a w) = Unit
  HasValue (fail e w) = ⊥
  HasValue (panic w) = ⊥

  pub record Returns (m : M F A) : Type 0 where
    pub returns : (w : World F) → HasValue (m w)

  pub Returns-pure : (a : A) → Returns (pure a)
  Returns-pure a = record { returns = λ w. tt }

  pub Returns-lift : (r : Result A) (a : A) → r ≡ ok a → Returns (lift r)
  Returns-lift (ok b) a h = record { returns = λ w. tt }
  Returns-lift (err e) a h = absurd (ground arith)

  pub Returns-call :
      (answer : Trace → Call → Result A) (c : Call)
      → ((trace : Trace) → (a : A) × (answer trace c ≡ ok a))
      → Returns (call answer c)
  unfolding call
  Returns-call answer c h = record {
    returns = λ w. let (a, e) = h w.trace in (Returns-lift (answer w.trace c) a e).returns _;
  }

  value-Post :
      (P R : Table F → Type 0) (w : World F) (r : Run F A)
      → Same w (after r)
      → HasValue r
      → P w.table
      → Post (λ _. P) R r
  value-Post P R w (done a v) s h p = subst P (sym s.table) p
  value-Post P R w (fail e v) s h p = absurd h
  value-Post P R w (panic v) s h p = absurd h

  -- A run that leaves the table alone and returns keeps what holds of the table.
  pub Steps-returns :
      {P R : Table F → Type 0} (m : M F A) → Quiet m → Returns m → Steps P m (λ _. P) R
  Steps-returns {P} {R} m q r = record {
    run = λ w p. value-Post P R w (m w) (q.same w) (r.returns w) p;
  }

module _ {F A : Type 0} (P : A → Type 0) where
  abbrev pub HasSuch : Run F A → Type 0
  HasSuch (done a w) = P a
  HasSuch (fail e w) = ⊥
  HasSuch (panic w) = ⊥

  -- Runs that end with a value of which `P` holds, in every world.
  pub record ReturnsSuch (m : M F A) : Type 0 where
    pub such : (w : World F) → HasSuch (m w)

  lift-Such : (r : Result A) (a : A) → r ≡ ok a → P a → (w : World F) → HasSuch (lift r w)
  lift-Such (ok b) a h p w = subst P (same_ok a b h) p
    where
      same_ok : (a b : A) → ok b ≡ ok a → a ≡ b
      same_ok a b h = cc
  lift-Such (err e) a h p w = absurd (ground arith)

  pub ReturnsSuch-call :
      (answer : Trace → Call → Result A) (c : Call)
      → ((trace : Trace) → (a : A) × (answer trace c ≡ ok a) × P a)
      → ReturnsSuch (call answer c)
  unfolding call
  ReturnsSuch-call answer c h = record {
    such = λ w. let (a, e, p) = h w.trace in lift-Such (answer w.trace c) a e p _;
  }

module _ {F A B : Type 0} where
  such_after :
      (P : B → Type 0) (r : Run F A) (f : A → M F B)
      → HasValue r
      → ((a : A) → ReturnsSuch P (f a))
      → HasSuch P (then_do r f)
  such_after P (done a w) f h k = (k a).such w
  such_after P (fail e w) f h k = absurd h
  such_after P (panic w) f h k = absurd h

  pub ReturnsSuch-after :
      (P : B → Type 0) (m : M F A) (f : A → M F B)
      → Returns m
      → ((a : A) → ReturnsSuch P (f a))
      → ReturnsSuch P (m >>= f)
  ReturnsSuch-after P m f r k = record { such = λ w. such_after P (m w) f (r.returns w) k }

  then_do_such :
      (P : A → Type 0) (r : Run F A) (f : A → M F B)
      → HasSuch P r
      → ((a : A) → P a → Returns (f a))
      → HasValue (then_do r f)
  then_do_such P (done a w) f h k = (k a h).returns w
  then_do_such P (fail e w) f h k = h
  then_do_such P (panic w) f h k = h

  pub ReturnsSuch->>= :
      (P : A → Type 0) (m : M F A) (f : A → M F B)
      → ReturnsSuch P m
      → ((a : A) → P a → Returns (f a))
      → Returns (m >>= f)
  ReturnsSuch->>= P m f r k = record { returns = λ w. then_do_such P (m w) f (r.such w) k }

module _ {F A B : Type 0} where
  then_do_value :
      (r : Run F A) (f : A → M F B)
      → HasValue r
      → ((a : A) → Returns (f a))
      → HasValue (then_do r f)
  then_do_value (done a w) f h k = (k a).returns w
  then_do_value (fail e w) f h k = h
  then_do_value (panic w) f h k = h

  pub Returns->>= :
      (m : M F A) (f : A → M F B) → Returns m → ((a : A) → Returns (f a)) → Returns (m >>= f)
  Returns->>= m f r k = record { returns = λ w. then_do_value (m w) f (r.returns w) k }

pub Returns-if :
    {F A : Type 0} (b : Bool) (m n : M F A) → Returns m → Returns n → Returns (if b then m else n)
Returns-if true m n r s = r
Returns-if false m n r s = s

pub Returns-option :
    {F A B : Type 0} (o : Option A) (m : M F B) (f : A → M F B)
    → Returns m
    → ((a : A) → Returns (f a))
    → Returns (elim o [ none ↦ m | some a ↦ f a ])
Returns-option none m f r k = r
Returns-option (some a) m f r k = k a

-- What is caught from a run with a value is that value.
abbrev pub IsOk : {A : Type 0} → Result A → Type 0
IsOk (ok a) = Unit
IsOk (err e) = ⊥

module _ {F A : Type 0} where
  caught_value : (r : Run F A) → HasValue r → HasValue (caught r)
  caught_value (done a w) h = tt
  caught_value (fail e w) h = absurd h
  caught_value (panic w) h = absurd h

  pub Returns-attempt : (m : M F A) → Returns m → Returns (attempt m)
  Returns-attempt m r = record { returns = λ w. caught_value (m w) (r.returns w) }

  caught-IsOk :
      (P R : Table F → Type 0) (w : World F) (r : Run F A)
      → Same w (after r)
      → HasValue r
      → P w.table
      → Post (λ o u. P u × IsOk o) R (caught r)
  caught-IsOk P R w (done a v) s h p = (subst P (sym s.table) p, tt)
  caught-IsOk P R w (fail e v) s h p = absurd h
  caught-IsOk P R w (panic v) s h p = absurd h

  pub Steps-attempt-Returns :
      {P R : Table F → Type 0} (m : M F A)
      → Quiet m
      → Returns m
      → Steps P (attempt m) (λ o u. P u × IsOk o) R
  Steps-attempt-Returns {P} {R} m q r = record {
    run = λ w p. caught-IsOk P R w (m w) (q.same w) (r.returns w) p;
  }

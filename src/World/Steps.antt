-- ===== src/World/Steps.antt =====
-- What a run does to the table: a precondition, a postcondition for its value, and one for the table
-- that an error or a panic leaves.
use gitvote.Prelude.{sym, subst, List, Option, none, some, ◌⊎◌, inl, inr}
use gitvote.World.{Row, World, Run, done, fail, panic, M, ◌>>=◌, then_do, after}
use gitvote.World.Quiet.{Same, Quiet}

abbrev pub Table : Type 0 → Type 0
Table F = List (Row F)

module _ {F A : Type 0} where
  abbrev pub Post : (A → Table F → Type 0) → (Table F → Type 0) → Run F A → Type 0
  Post Q R (done a w) = Q a w.table
  Post Q R (fail e w) = R w.table
  Post Q R (panic w) = R w.table

  pub record Steps (P : Table F → Type 0) (m : M F A) (Q : A → Table F → Type 0)
      (R : Table F → Type 0) : Type 0 where
    pub run : (w : World F) → P w.table → Post Q R (m w)

  quiet-Post :
      (P R : Table F → Type 0)
      → ((t : Table F) → P t → R t)
      → (w : World F) (r : Run F A) → Same w (after r)
      → P w.table
      → Post (λ _. P) R r
  quiet-Post P R k w (done a v) s p = subst P (sym s.table) p
  quiet-Post P R k w (fail e v) s p = k v.table (subst P (sym s.table) p)
  quiet-Post P R k w (panic v) s p = k v.table (subst P (sym s.table) p)

  -- A run that leaves the table alone keeps what holds of it.
  pub Steps-quiet :
      {P R : Table F → Type 0} (m : M F A)
      → ((t : Table F) → P t → R t)
      → Quiet m
      → Steps P m (λ _. P) R
  Steps-quiet {P} {R} m k q = record { run = λ w p. quiet-Post P R k w (m w) (q.same w) p }

  -- The postcondition of both ends.
  pub after_post : (R : Table F → Type 0) (r : Run F A) → Post (λ _. R) R r → R (after r).table
  after_post R (done a w) p = p
  after_post R (fail e w) p = p
  after_post R (panic w) p = p

  pub Steps-after :
      {P R : Table F → Type 0} (m : M F A)
      → Steps P m (λ _. R) R
      → (w : World F) → P w.table
      → R (after (m w)).table
  Steps-after {R = R} m s w p = after_post R (m w) (s.run w p)

  weaken-Post :
      (Q Q' : A → Table F → Type 0) (R : Table F → Type 0)
      → ((a : A) (t : Table F) → Q a t → Q' a t)
      → (r : Run F A) → Post Q R r
      → Post Q' R r
  weaken-Post Q Q' R k (done a w) p = k a w.table p
  weaken-Post Q Q' R k (fail e w) p = p
  weaken-Post Q Q' R k (panic w) p = p

  pub Steps-weaken :
      {P P' R : Table F → Type 0} {Q Q' : A → Table F → Type 0} (m : M F A)
      → ((t : Table F) → P' t → P t)
      → ((a : A) (t : Table F) → Q a t → Q' a t)
      → Steps P m Q R
      → Steps P' m Q' R
  Steps-weaken {R = R} {Q = Q} {Q' = Q'} m f g s = record {
    run = λ w p. weaken-Post Q Q' R g (m w) (s.run w (f w.table p));
  }

module _ {F A B : Type 0} where
  pub then_do-Post :
      (Q : A → Table F → Type 0) (Q' : B → Table F → Type 0) (R : Table F → Type 0) (f : A → M F B)
      → ((a : A) → Steps (Q a) (f a) Q' R)
      → (r : Run F A) → Post Q R r
      → Post Q' R (then_do r f)
  then_do-Post Q Q' R f k (done a w) p = (k a).run w p
  then_do-Post Q Q' R f k (fail e w) p = p
  then_do-Post Q Q' R f k (panic w) p = p

  pub Steps->>= :
      {P R : Table F → Type 0} {Q' : B → Table F → Type 0} (Q : A → Table F → Type 0) (m : M F A)
      (f : A → M F B)
      → Steps P m Q R
      → ((a : A) → Steps (Q a) (f a) Q' R)
      → Steps P (m >>= f) Q' R
  Steps->>= {R = R} {Q' = Q'} Q m f s k = record {
    run = λ w p. then_do-Post Q Q' R f k (m w) (s.run w p);
  }

-- The branches of a run.
module _ {F A B : Type 0} {P R : Table F → Type 0} {Q : B → Table F → Type 0} where
  pub Steps-option :
      (o : Option A) (m : M F B) (f : A → M F B)
      → Steps P m Q R
      → ((a : A) → Steps P (f a) Q R)
      → Steps P (elim o [ none ↦ m | some a ↦ f a ]) Q R
  Steps-option none m f qm qf = qm
  Steps-option (some a) m f qm qf = qf a

  pub Steps-sum :
      {C : Type 0} (s : A ⊎ C) (f : A → M F B) (g : C → M F B)
      → ((a : A) → Steps P (f a) Q R)
      → ((c : C) → Steps P (g c) Q R)
      → Steps P (elim s [ inl a ↦ f a | inr c ↦ g c ]) Q R
  Steps-sum (inl a) f g qf qg = qf a
  Steps-sum (inr c) f g qf qg = qg c

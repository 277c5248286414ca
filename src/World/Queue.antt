-- ===== src/World/Queue.antt =====
-- Runs that leave the queue of commands alone.
use gitvote.Prelude.{◌⊎◌, inl, inr, ◌≡◌, ◌∙◌, Option, none, some}
use gitvote.World.{World, Run, done, fail, panic, M, ◌>>=◌, then_do, after}
use gitvote.World.Quiet.{Quiet}

pub record Unqueued {F A : Type 0} (m : M F A) : Type 0 where
  pub queue : (w : World F) → (after (m w)).queue ≡ w.queue

pub Unqueued-Quiet : {F A : Type 0} (m : M F A) → Quiet m → Unqueued m
Unqueued-Quiet m q = record { queue = λ w. (q.same w).queue }

module _ {F A B : Type 0} where
  then_do-queue :
      (w : World F) (r : Run F A) (f : A → M F B)
      → (after r).queue ≡ w.queue
      → ((a : A) → Unqueued (f a))
      → (after (then_do r f)).queue ≡ w.queue
  then_do-queue w (done a v) f e k = (k a).queue v ∙ e
  then_do-queue w (fail x v) f e k = e
  then_do-queue w (panic v) f e k = e

  pub Unqueued->>= :
      (m : M F A) (f : A → M F B) → Unqueued m → ((a : A) → Unqueued (f a)) → Unqueued (m >>= f)
  Unqueued->>= m f q k = record { queue = λ w. then_do-queue w (m w) f (q.queue w) k }

  pub Unqueued-option :
      (o : Option A) (m : M F B) (f : A → M F B)
      → Unqueued m
      → ((a : A) → Unqueued (f a))
      → Unqueued (elim o [ none ↦ m | some a ↦ f a ])
  Unqueued-option none m f q k = q
  Unqueued-option (some a) m f q k = k a

  pub Unqueued-sum :
      {C : Type 0} (s : A ⊎ C) (f : A → M F B) (g : C → M F B)
      → ((a : A) → Unqueued (f a))
      → ((c : C) → Unqueued (g c))
      → Unqueued (elim s [ inl a ↦ f a | inr c ↦ g c ])
  Unqueued-sum (inl a) f g k l = k a
  Unqueued-sum (inr c) f g k l = l c

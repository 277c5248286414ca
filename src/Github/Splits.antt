-- ===== src/Github/Splits.antt =====
-- src/github.rs: what the parts of a name are that a run has split.
use gitvote.Prelude.{inl, inr, ◌≡◌, refl, Option-cases, Str}
use gitvote.Github.Names.{split_once, split_full_name}
use gitvote.World.{World, done}
use gitvote.World.Steps.{Table, Steps}

pub split_full_name-Steps :
    {F : Type 0} {P R : Table F → Type 0}
    → ((u : Table F) → P u → R u)
    → (name : Str)
    → Steps P
        (split_full_name name)
        (λ names u. P u × ((w : World F) → split_full_name name w ≡ done names w))
        R
unfolding split_full_name
split_full_name-Steps k name = elim (Option-cases (split_once name).1) [
  | inl e ↦ rw (e, split_full_name) (record { run = λ w p. k w.table p })
  | inr (rest, e) ↦ rw (e, split_full_name) (record { run = λ w p. (p, λ v. refl) })
]

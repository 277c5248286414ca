-- ===== src/Github/Names.antt =====
-- src/github.rs: `split_full_name`.
use gitvote.Prelude.{
  ℕ, ◌≡◌, ◌↔◌, refl, false, Option, none, some, [], ◌∷◌, ◌++◌, Str, ◌==◌, contains, Eq,
  if◌then◌else◌, arith, ℕ_discrete,
}
use gitvote.World.{World, M, pure, crash, done, panic}

instance unfoldable pub char_eq : Eq ℕ
char_eq = record { dec = ℕ_discrete }

-- `split('/')`: the text up to the next slash, and the text behind it if there is one.
unfoldable pub split_once : Str → Str × Option Str
unfolding char_eq
split_once [] = ([], none)
split_once (c ∷ cs) =
    let (part, rest) = split_once cs in if c == b'/' then ([], some cs) else (c ∷ part, rest)

-- The second part ends at the next slash; without a slash there is none, and `unwrap` panics.
unfoldable pub split_full_name : {F : Type 0} → Str → M F (Str × Str)
unfolding split_once
split_full_name full_name = elim (split_once full_name).1 [
  | none ↦ crash
  | some rest ↦ pure ((split_once full_name).0, (split_once rest).0)
]

split_once-append : (s t : Str) → contains s b'/' ≡ false → split_once (s ++ b'/' ∷ t) ≡ (s, some t)
unfolding split_once
split_once-append [] t h = ground arith
split_once-append (c ∷ s) t h = ground (arith, split_once-append s t)

split_once_all : (s : Str) → contains s b'/' ≡ false → split_once s ≡ (s, none)
unfolding split_once
split_once_all [] h = refl
split_once_all (c ∷ s) h = ground (arith, split_once_all s)

pub split_once-none : (s : Str) → ((split_once s).1 ≡ none) ↔ (contains s b'/' ≡ false)
unfolding split_once
split_once-none [] = (λ _. refl, λ _. refl)
split_once-none (c ∷ s) = ground (arith, split_once-none s)

-- Splitting the name `owner/repo` of a repository gives its two parts back, if neither has a slash.
pub split_full_name-append :
    {F : Type 0} (owner repo : Str) (w : World F)
    → contains owner b'/' ≡ false
    → contains repo b'/' ≡ false
    → split_full_name (owner ++ b'/' ∷ repo) w ≡ done (owner, repo) w
unfolding split_full_name
split_full_name-append owner repo w h k =
    ground (arith, split_once-append owner repo h, split_once_all repo k)

-- Only a name with no slash panics.
pub split_full_name-eq-panic_iff :
    {F : Type 0} (full_name : Str) (w : World F)
    → (split_full_name full_name w ≡ panic w) ↔ (contains full_name b'/' ≡ false)
unfolding split_full_name
split_full_name-eq-panic_iff full_name w = ground (arith, split_once-none full_name)

-- ===== src/Cmd/Manual.antt =====
-- src/cmd.rs: `Command::from_event` on the text of a comment.
use gitvote.Github.{Event}
use gitvote.World.{done, World, Env}
use gitvote.Cmd.{create_vote}
use gitvote.Prelude.{
  ◌≡◌, refl, sym, ap, ◌∙◌, Bool, true, some, List, [], ◌∷◌, ◌++◌, Str, str, all, ℕ, ℕ_discrete,
  arith, str_eq, Str-discrete,
}
use gitvote.Github.Names.{char_eq}
use gitvote.Cmd.Parse.{is_word, lines, first_match, captures, match_line, cmd_create_vote}
use gitvote.Cmd.Grammar.{match_line-dashed}
use gitvote.Cmd.FromEvent.{
  from_event_manual, from_event, to_command, content, new_create_vote, profile_name,
}

all-append : (p : ℕ → Bool) (s t : Str) → all p s ≡ true → all p t ≡ true → all p (s ++ t) ≡ true
all-append p [] t h k = k
all-append p (c ∷ s) t h k = ground (arith, all-append p s t)

append_nil : (s : Str) → s ++ [] ≡ s
append_nil [] = refl
append_nil (c ∷ s) = ground (arith, append_nil s)

lines-word : (s : Str) → all is_word s ≡ true → lines s ≡ (s, [])
unfolding lines char_eq
lines-word [] h = refl
lines-word (c ∷ s) h = ground (arith, lines-word s)

lines-vote :
    (profile : Str)
    → all is_word profile ≡ true
    → lines (str "/vote-" ++ profile) ≡ (str "/vote-" ++ profile, [])
unfolding lines char_eq ℕ_discrete
lines-vote profile h =
    ap {A = Str × List Str} (λ (line, rest). (str "/vote-" ++ line, rest)) (lines-word profile h)

first_match-head :
    (line : Str) (captured : Str × Str)
    → match_line line ≡ some captured
    → first_match (line ∷ []) ≡ some captured
unfolding first_match
first_match-head line captured h = ground arith

captures-vote :
    (profile : Str)
    → all is_word profile ≡ true
    → captures (str "/vote-" ++ profile) ≡ some (cmd_create_vote, profile)
unfolding captures
captures-vote profile h =
    let text = str "/vote-" ++ profile in
    let read : match_line text ≡ some (cmd_create_vote, profile) =
      ap match_line (sym (append_nil text)) ∙ (match_line-dashed profile [] h refl).0 in
    ap {A = Str × List Str} (λ (line, rest). first_match (line ∷ rest)) (lines-vote profile h)
    ∙ first_match-head text (cmd_create_vote, profile) read

to_command-vote :
    (event : Event) (profile : Str)
    → to_command event cmd_create_vote profile
      ≡ some (create_vote (new_create_vote (profile_name profile) event))
unfolding to_command str_eq Str-discrete ℕ_discrete
to_command-vote event profile = refl

from_event_manual-vote :
    (event : Event) (profile : Str)
    → all is_word profile ≡ true
    → content event ≡ some (str "/vote-" ++ profile)
    → from_event_manual event ≡ some (create_vote (new_create_vote (profile_name profile) event))
unfolding from_event_manual
from_event_manual-vote event profile h e =
    rw (e, from_event_manual, captures-vote profile h) (to_command-vote event profile)

-- An event whose text is the command to vote with a profile becomes that command for that profile,
-- whatever the configuration says about automation, and nothing else is done.
pub from_event-vote :
    {F : Type 0} (env : Env F) (event : Event) (profile : Str) (w : World F)
    → all is_word profile ≡ true
    → content event ≡ some (str "/vote-" ++ profile)
    → from_event env event w
      ≡ done (some (create_vote (new_create_vote (profile_name profile) event))) w
unfolding from_event
from_event-vote env event profile w h e =
    rw (from_event_manual-vote event profile h e, from_event) refl

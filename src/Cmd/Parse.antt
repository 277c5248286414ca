-- ===== src/Cmd/Parse.antt =====
-- src/cmd.rs: the regular expression `(?m)^/(vote|cancel-vote|check-vote)-?([a-zA-Z0-9_-]*)\s*$`.
-- A match lies at the start of a line: what stands behind the profile up to the end of the line is
-- white space, since `\s*$` reaches a line's end exactly if it reaches the first one.
use gitvote.Prelude.{
  ℕ, Bool, ◌&&◌, ◌||◌, Option, none, some, List, [], ◌∷◌, Str, str, ◌==◌, all, leb, contains,
  if◌then◌else◌,
}
use gitvote.Github.Names.{char_eq}

abbrev pub cmd_create_vote : Str
cmd_create_vote = str "vote"

abbrev pub cmd_cancel_vote : Str
cmd_cancel_vote = str "cancel-vote"

abbrev pub cmd_check_vote : Str
cmd_check_vote = str "check-vote"

abbrev pub cmds : List Str
cmds = cmd_create_vote ∷ cmd_cancel_vote ∷ cmd_check_vote ∷ []

-- `[a-zA-Z0-9_-]`
abbrev pub is_word : ℕ → Bool
is_word c =
    (leb b'a' c && leb c b'z')
    || ((leb b'A' c && leb c b'Z') || ((leb b'0' c && leb c b'9') || (c == b'_' || c == b'-')))

-- `\s`
abbrev pub is_space : ℕ → Bool
is_space c =
    (leb 9 c && leb c 13)
    || (contains (0x20 ∷ 0x85 ∷ 0xA0 ∷ 0x1680 ∷ 0x2028 ∷ 0x2029 ∷ 0x202F ∷ 0x205F ∷ 0x3000 ∷ []) c
        || (leb 0x2000 c && leb c 0x200A))

unfoldable pub strip_prefix : Str → Str → Option Str
strip_prefix [] s = some s
strip_prefix (p ∷ ps) [] = none
strip_prefix (p ∷ ps) (c ∷ cs) = let rest = strip_prefix ps cs in if p == c then rest else none

-- `-?`
unfoldable pub skip_dash : Str → Str
skip_dash [] = []
skip_dash (c ∷ cs) = if c == b'-' then cs else c ∷ cs

-- The longest part in the class, and the rest.
unfoldable pub span_word : Str → Str × Str
span_word [] = ([], [])
span_word (c ∷ cs) =
    let (word, rest) = span_word cs in if is_word c then (c ∷ word, rest) else ([], c ∷ cs)

-- What stands behind the command: the profile, and white space.
unfoldable pub match_profile : Str → Option Str
unfolding skip_dash span_word
match_profile s =
    let (profile, rest) = span_word (skip_dash s) in
    if all is_space rest then some profile else none

unfoldable pub match_cmd : Str → Str → Option Str
unfolding strip_prefix
match_cmd cmd s = elim (strip_prefix cmd s) [ none ↦ none | some rest ↦ match_profile rest ]

unfoldable pub match_cmds : List Str → Str → Option (Str × Str)
match_cmds [] s = none
match_cmds (cmd ∷ rest) s =
    let others = match_cmds rest s in
    elim (match_cmd cmd s) [ some profile ↦ some (cmd, profile) | none ↦ others ]

unfoldable pub match_line : Str → Option (Str × Str)
match_line [] = none
match_line (c ∷ cs) = if c == b'/' then match_cmds cmds cs else none

-- The lines of a text.
unfoldable pub lines : Str → Str × List Str
lines [] = ([], [])
lines (c ∷ cs) =
    let (line, rest) = lines cs in if c == 10 then ([], line ∷ rest) else (c ∷ line, rest)

unfoldable pub first_match : List Str → Option (Str × Str)
first_match [] = none
first_match (line ∷ rest) =
    let others = first_match rest in
    elim (match_line line) [ some captured ↦ some captured | none ↦ others ]

-- `CMD.captures`, with the first two groups.
unfoldable pub captures : Str → Option (Str × Str)
unfolding lines
captures text = let (line, rest) = lines text in first_match (line ∷ rest)

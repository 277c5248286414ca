-- ===== src/Cmd/Grammar.antt =====
-- src/cmd.rs: the commands that the regular expression finds in a comment.
use gitvote.Prelude.{
  ◌⊎◌, subst, Option-cases, ◌≡◌, refl, sym, ap, ◌∙◌, true, false, Bool-cases, inl, inr, some, List,
  [], ◌∷◌, ◌++◌, Str, str, all, ℕ, ℕ_discrete, arith, ◌==◌, str_eq, Memᴰ,
}
use gitvote.Github.Names.{char_eq}
use gitvote.Cmd.Parse.{
  cmd_create_vote, cmd_cancel_vote, cmd_check_vote, cmds, is_word, is_space, strip_prefix,
  skip_dash, span_word, match_profile, match_cmd, match_cmds, match_line,
}

-- A line that starts with a command: a slash, its name, perhaps a dash, a profile and white space.
pub data IsLine (cmd profile : Str) : Str → Type 0 where
  plain :
      (ws : Str)
      → all is_word profile ≡ true
      → all is_space ws ≡ true
      → IsLine cmd profile (b'/' ∷ cmd ++ (profile ++ ws))
  dashed :
      (ws : Str)
      → all is_word profile ≡ true
      → all is_space ws ≡ true
      → IsLine cmd profile (b'/' ∷ cmd ++ (b'-' ∷ profile ++ ws))

space-not-word : (c : ℕ) → is_space c ≡ true → is_word c ≡ false
unfolding char_eq
space-not-word c h = ground arith

span_word-append :
    (profile ws : Str)
    → all is_word profile ≡ true
    → all is_space ws ≡ true
    → span_word (profile ++ ws) ≡ (profile, ws)
unfolding span_word
span_word-append [] [] h k = refl
span_word-append [] (c ∷ ws) h k = ground (arith, space-not-word c)
span_word-append (c ∷ profile) ws h k = ground (arith, span_word-append profile ws)

match_profile-dash :
    (profile ws : Str)
    → all is_word profile ≡ true
    → all is_space ws ≡ true
    → match_profile (b'-' ∷ profile ++ ws) ≡ some profile
unfolding match_profile skip_dash char_eq ℕ_discrete
match_profile-dash profile ws h k = ground (arith, span_word-append profile ws h k)

-- A line of a command with a dash, a profile and white space is read as that command with that
-- profile.
pub match_line-dashed :
    (profile ws : Str)
    → all is_word profile ≡ true
    → all is_space ws ≡ true
    → (match_line (str "/vote-" ++ profile ++ ws) ≡ some (cmd_create_vote, profile))
      × (match_line (str "/cancel-vote-" ++ profile ++ ws) ≡ some (cmd_cancel_vote, profile))
      × (match_line (str "/check-vote-" ++ profile ++ ws) ≡ some (cmd_check_vote, profile))
unfolding match_line match_cmds match_cmd strip_prefix char_eq ℕ_discrete match_profile
match_line-dashed profile ws h k =
    let e = match_profile-dash profile ws h k in (rw e refl, rw e refl, rw e refl)

strip_prefix-eq : (p s r : Str) → strip_prefix p s ≡ some r → s ≡ p ++ r
unfolding strip_prefix
strip_prefix-eq [] s r h = ground arith
strip_prefix-eq (c ∷ p) [] r h = absurd (ground arith)
strip_prefix-eq (c ∷ p) (d ∷ s) r h = ground (arith, strip_prefix-eq p s r)

span_word-eq :
    (s : Str) → ((span_word s).0 ++ (span_word s).1 ≡ s) × (all is_word (span_word s).0 ≡ true)
unfolding span_word
span_word-eq [] = (refl, refl)
span_word-eq (c ∷ s) = ground (arith, span_word-eq s)

-- What may stand behind the name of a command.
data IsTail (profile : Str) : Str → Type 0 where
  no_dash :
      (ws : Str)
      → all is_word profile ≡ true
      → all is_space ws ≡ true
      → IsTail profile (profile ++ ws)
  dash :
      (ws : Str)
      → all is_word profile ≡ true
      → all is_space ws ≡ true
      → IsTail profile (b'-' ∷ profile ++ ws)

skip_dash-cases : (s : Str) → (skip_dash s ≡ s) ⊎ (s ≡ b'-' ∷ skip_dash s)
unfolding skip_dash
skip_dash-cases [] = inl refl
skip_dash-cases (c ∷ s) = elim (Bool-cases (c == b'-')) [
  | inl h ↦ inr (ground arith)
  | inr h ↦ inl (ground arith)
]

match_profile-IsTail : (s profile : Str) → match_profile s ≡ some profile → IsTail profile s
unfolding match_profile
match_profile-IsTail s profile h =
    let t = skip_dash s in
    let e = span_word-eq t in
    elim (Bool-cases (all is_space (span_word t).1)) [
      | inr k ↦ absurd (ground arith)
      | inl k ↦
          let same : (span_word t).0 ≡ profile = ground arith in
          let split = sym (ap (λ p. p ++ (span_word t).1) same) ∙ e.0 in
          let words = sym (ap (all is_word) same) ∙ e.1 in
          elim (skip_dash-cases s) [
            | inl n ↦ subst (IsTail profile) (split ∙ n) (no_dash (span_word t).1 words k)
            | inr d ↦
                subst (IsTail profile) (ap (λ r. b'-' ∷ r) split ∙ sym d)
                  (dash (span_word t).1 words k)
          ]
    ]

IsTail-IsLine : (cmd profile r : Str) → IsTail profile r → IsLine cmd profile (b'/' ∷ cmd ++ r)
IsTail-IsLine cmd profile r (no_dash ws h k) = plain ws h k
IsTail-IsLine cmd profile r (dash ws h k) = dashed ws h k

match_cmd-IsLine :
    (cmd s profile : Str) → match_cmd cmd s ≡ some profile → IsLine cmd profile (b'/' ∷ s)
unfolding match_cmd
match_cmd-IsLine cmd s profile h = elim (Option-cases (strip_prefix cmd s)) [
  | inl e ↦ absurd (ground arith)
  | inr (r, e) ↦
      subst (λ t. IsLine cmd profile (b'/' ∷ t)) (sym (strip_prefix-eq cmd s r e))
        (IsTail-IsLine cmd profile r (match_profile-IsTail r profile (ground arith)))
]

match_cmds-IsLine :
    (candidates : List Str) (s cmd profile : Str)
    → match_cmds candidates s ≡ some (cmd, profile)
    → Memᴰ cmd candidates × IsLine cmd profile (b'/' ∷ s)
unfolding match_cmds
match_cmds-IsLine [] s cmd profile h = absurd (ground arith)
match_cmds-IsLine (c ∷ rest) s cmd profile h = elim (Option-cases (match_cmd c s)) [
  | inl e ↦ let (m, l) = match_cmds-IsLine rest s cmd profile (ground arith) in (Memᴰ.tail m, l)
  | inr (p, e) ↦
      let same : c ≡ cmd = ground arith in
      let read : match_cmd c s ≡ some profile = ground arith in
      (
        Memᴰ.head (sym same),
        subst (λ k. IsLine k profile (b'/' ∷ s)) same (match_cmd-IsLine c s profile read),
      )
]

-- A line that is read as a command is one: a slash, one of the three names, perhaps a dash, the
-- profile and white space.
pub match_line-IsLine :
    (s cmd profile : Str)
    → match_line s ≡ some (cmd, profile)
    → Memᴰ cmd cmds × IsLine cmd profile s
unfolding match_line
match_line-IsLine [] cmd profile h = absurd (ground arith)
match_line-IsLine (c ∷ s) cmd profile h = elim (Bool-cases (c == b'/')) [
  | inr e ↦ absurd (ground arith)
  | inl e ↦
      let same : b'/' ≡ c = ground arith in
      let (m, l) = match_cmds-IsLine cmds s cmd profile (ground arith) in
      (m, subst (λ d. IsLine cmd profile (d ∷ s)) same l)
]

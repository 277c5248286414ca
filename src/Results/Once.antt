-- ===== src/Results/Once.antt =====
-- src/results.rs: each allowed voter among the votes and the pending voters of the results.
use gitvote.Prelude.{
  if◌then◌else◌, some, ℕ, ◌+◌, ◌≡◌, refl, ap, Bool, Bool-cases, true, false, not, ◌&&◌, List, [],
  ◌∷◌, Str, any, count, select, Memᴰ, Option, inl, inr, eq_ignore_ascii_case,
  eq_ignore_ascii_case_refl, eq_ignore_ascii_case_sym, eq_ignore_ascii_case_trans, arith, to_ℕ, All,
}
use gitvote.Prelude.Map.{Map, keys}
use gitvote.Float.{Float}
use gitvote.Github.{Reaction}
use gitvote.Results.{UserVote, Vote}
use gitvote.Results.Tally.{pending, untracked, track_reactions, Tracked}
use gitvote.Results.Calculate.{summarise}
use gitvote.Results.Turnout.{Distinct, IsMarked, count-Distinct}
use gitvote.Results.Tracked.{tracked_all}

module _ (u : Str) where
  -- The user is listed, by any spelling.
  abbrev is_user : Str → Bool
  is_user y = eq_ignore_ascii_case y u

  any-user : (xs : List Str) → Memᴰ u xs → any is_user xs ≡ true
  any-user [] m = elim m [ ]
  any-user (x ∷ xs) (Memᴰ.head e) =
      ground (arith, eq_ignore_ascii_case_refl u, ap (λ y. eq_ignore_ascii_case y u) e)
  any-user (x ∷ xs) (Memᴰ.tail m) = ground (arith, any-user xs m)

  -- What holds of a user holds of each spelling.
  any-spelling :
      (x : Str) (xs : List Str)
      → is_user x ≡ true
      → any (λ y. eq_ignore_ascii_case y x) xs ≡ any is_user xs
  any-spelling x [] h = refl
  any-spelling x (y ∷ xs) h = ground (
    arith,
    any-spelling x xs h,
    eq_ignore_ascii_case_trans y x u,
    eq_ignore_ascii_case_sym x u,
    eq_ignore_ascii_case_trans y u x,
  )

  count-select :
      (q : Str → Bool) (b : Bool) (xs : List Str)
      → ((x : Str) → is_user x ≡ true → q x ≡ b)
      → count is_user (select q xs) ≡ (if b then count is_user xs else 0)
  count-select q true [] h = refl
  count-select q false [] h = refl
  count-select q true (x ∷ xs) h = ground (arith, h x, count-select q true xs h)
  count-select q false (x ∷ xs) h = ground (arith, h x, count-select q false xs h)

  -- The binding votes of the user.
  abbrev pub votes_by : Map UserVote → ℕ
  votes_by = count (λ e. e.1.binding && eq_ignore_ascii_case e.0 u)

  votes_by-keys :
      (allowed : List Str) (votes : Map UserVote)
      → Memᴰ u allowed
      → IsMarked allowed votes
      → votes_by votes ≡ count is_user (keys votes)
  votes_by-keys allowed [] m a = refl
  votes_by-keys allowed (e ∷ votes) m a =
      ground (
        arith,
        a.0,
        any-spelling e.0 allowed,
        any-user allowed m,
        votes_by-keys allowed votes m a.1,
      )

  voted_or_pending :
      (allowed : List Str) (votes : Map UserVote)
      → Memᴰ u allowed
      → Distinct allowed
      → Distinct (keys votes)
      → IsMarked allowed votes
      → votes_by votes + count is_user (pending allowed votes) ≡ 1
  unfolding pending
  voted_or_pending allowed votes m d e a =
      let q : Str → Bool =
        λ user. not (any (λ voter. eq_ignore_ascii_case voter user) (keys votes)) in
      elim (Bool-cases (any is_user (keys votes))) [
        | inl h ↦ omega (
          arith,
          votes_by-keys allowed votes m a,
          count-Distinct u (keys votes) e,
          ap to_ℕ h,
          count-select q false allowed (λ x k. ground (arith, any-spelling x (keys votes) k)),
        )
        | inr h ↦ omega (
          arith,
          votes_by-keys allowed votes m a,
          count-Distinct u (keys votes) e,
          ap to_ℕ h,
          count-select q true allowed (λ x k. ground (arith, any-spelling x (keys votes) k)),
          count-Distinct u allowed d,
          ap to_ℕ (any-user allowed m),
        )
      ]

-- Where logins are spelled in one way and no user is allowed twice, each allowed voter has one binding
-- vote in the results or is listed once as pending, never both and never neither.
pub voted_once-track_reactions :
    {F : Type 0} ⦃num : Float F⦄ (IsLogin : Str → Type 0)
    (canonical : (a b : Str) → IsLogin a → IsLogin b → eq_ignore_ascii_case a b ≡ true → a ≡ b)
    (parse : Str → Option ℕ) (allowed : List Str) (vote : Vote F) (t : Tracked) (rs : List Reaction)
    (u : Str)
    → All (λ r. IsLogin r.user.login) rs
    → Distinct allowed
    → track_reactions parse allowed untracked rs ≡ some t
    → Memᴰ u allowed
    → let r = summarise vote allowed t.votes in
      votes_by u r.votes + count (λ p. eq_ignore_ascii_case p u) r.pending_voters ≡ 1
unfolding summarise
voted_once-track_reactions IsLogin canonical parse allowed vote t rs u l d h m =
    let k = tracked_all IsLogin canonical parse allowed t rs l h in
    voted_or_pending u allowed t.votes m d k.distinct k.marked

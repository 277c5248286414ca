-- ===== src/Results/Tracked.antt =====
-- src/results.rs: the map of votes that the loop over the reactions builds: its marks and its keys.
use gitvote.Prelude.{
  contains, subst, ◌++◌, Bool-cases, ℕ, ◌+◌, ◌≡◌, refl, Bool, true, false, ◌||◌, Option, some, List,
  [], ◌∷◌, Str, str_eq, any, eq_ignore_ascii_case, eq_ignore_ascii_case_sym, arith, All,
  Option-cases, inl, inr, str_compare-eq,
}
use mathlib.Core.Option.{some-injective}
use gitvote.Prelude.Map.{Map, keys, contains_key, insert, remove}
use gitvote.Float.{Float}
use gitvote.Github.{Result-cases, Reaction}
use gitvote.Results.{UserVote, Vote, VoteOption}
use gitvote.Results.Tally.{
  from_reaction, is_binding, Tracked, untracked, track_vote, track_reaction, track_reactions,
}
use gitvote.Results.Calculate.{summarise}
use gitvote.Results.Turnout.{Distinct, IsMarked, turnout}

module _ (P : Str × UserVote → Type 0) where
  All-insert :
      (k : Str) (v : UserVote) (m : Map UserVote) → P (k, v) → All P m → All P (insert k v m)
  unfolding insert
  All-insert k v [] p a = (p, tt)
  All-insert k v ((j, w) ∷ m) p a = ground (arith, All-insert k v m p a.1)

  All-remove : (k : Str) (m : Map UserVote) → All P m → All P (remove k m)
  unfolding remove
  All-remove k [] a = tt
  All-remove k ((j, w) ∷ m) a = ground (arith, All-remove k m a.1)

any-insert :
    (p : Str → Bool) (k : Str) (v : UserVote) (m : Map UserVote)
    → contains_key k m ≡ false
    → any p (keys (insert k v m)) ≡ (p k || any p (keys m))
unfolding insert contains_key
any-insert p k v [] h = refl
any-insert p k v ((j, w) ∷ m) h = ground (arith, str_compare-eq k j, any-insert p k v m)

any-remove :
    (p : Str → Bool) (k : Str) (m : Map UserVote)
    → any p (keys m) ≡ false
    → any p (keys (remove k m)) ≡ false
unfolding remove
any-remove p k [] h = refl
any-remove p k ((j, w) ∷ m) h = ground (arith, any-remove p k m)

insert-Distinct :
    (k : Str) (v : UserVote) (m : Map UserVote)
    → any (λ y. eq_ignore_ascii_case y k) (keys m) ≡ false
    → contains_key k m ≡ false
    → Distinct (keys m)
    → Distinct (keys (insert k v m))
unfolding insert contains_key
insert-Distinct k v [] n h d = (refl, tt)
insert-Distinct k v ((j, w) ∷ m) n h d = ground (
  arith,
  str_compare-eq k j,
  eq_ignore_ascii_case_sym k j,
  any-insert (λ y. eq_ignore_ascii_case y j) k v m,
  insert-Distinct k v m,
)

remove-Distinct : (k : Str) (m : Map UserVote) → Distinct (keys m) → Distinct (keys (remove k m))
unfolding remove
remove-Distinct k [] d = tt
remove-Distinct k ((j, w) ∷ m) d =
    ground (arith, remove-Distinct k m d.1, any-remove (λ y. eq_ignore_ascii_case y j) k m d.0)

-- GitHub spells a login in one way: two spellings of one user are equal.
module _ (IsLogin : Str → Type 0)
    (canonical : (a b : Str) → IsLogin a → IsLogin b → eq_ignore_ascii_case a b ≡ true → a ≡ b)
    (parse : Str → Option ℕ) (allowed : List Str) where
  new_login :
      (k : Str) (m : Map UserVote)
      → All (λ e. IsLogin e.0) m
      → IsLogin k
      → contains_key k m ≡ false
      → any (λ y. eq_ignore_ascii_case y k) (keys m) ≡ false
  unfolding contains_key
  new_login k [] a l h = refl
  new_login k ((j, w) ∷ m) a l h = ground (arith, canonical j k a.0 l, new_login k m a.1 l)

  pub record IsTracked (t : Tracked) : Type 0 where
    pub marked : IsMarked allowed t.votes
    pub distinct : Distinct (keys t.votes)
    pub logins : All (λ e. IsLogin e.0) t.votes

  abbrev dropped : Tracked → Str → Tracked
  dropped t u = record {
    votes = remove u t.votes;
    multiple_options_voters = t.multiple_options_voters ++ u ∷ [];
  }

  dropped-IsTracked : (t : Tracked) (u : Str) → IsTracked t → IsTracked (dropped t u)
  dropped-IsTracked t u k = record {
    marked = All-remove (λ e. e.1.binding ≡ is_binding allowed e.0) u t.votes k.marked;
    distinct = remove-Distinct u t.votes k.distinct;
    logins = All-remove (λ e. IsLogin e.0) u t.votes k.logins;
  }

  inserted-IsTracked :
      (t : Tracked) (u : Str) (v : UserVote)
      → v.binding ≡ is_binding allowed u
      → IsLogin u
      → contains_key u t.votes ≡ false
      → IsTracked t
      → IsTracked (record t { votes = insert u v t.votes })
  inserted-IsTracked t u v b l h k = record {
    marked = All-insert (λ e. e.1.binding ≡ is_binding allowed e.0) u v t.votes b k.marked;
    distinct = insert-Distinct u v t.votes (new_login u t.votes k.logins l h) h k.distinct;
    logins = All-insert (λ e. IsLogin e.0) u v t.votes l k.logins;
  }

  -- The three ends of a vote: no change, a second vote, a first vote.
  track_vote-IsTracked :
      (t t' : Tracked) (u at : Str) (o : VoteOption)
      → IsLogin u
      → track_vote parse allowed t u at o ≡ some t'
      → IsTracked t
      → IsTracked t'
  unfolding track_vote
  track_vote-IsTracked t t' u at o l h k =
      elim (Bool-cases (contains t.multiple_options_voters u)) [
        | inl e ↦ subst IsTracked (some-injective _ _ (rw e at h)) k
        | inr e ↦ elim (Bool-cases (contains_key u t.votes)) [
          | inl f ↦ subst IsTracked (some-injective _ _ (rw (e, f) at h)) (dropped-IsTracked t u k)
          | inr f ↦ elim (Option-cases (parse at)) [
            | inl g ↦ absurd (ground arith)
            | inr (ts, g) ↦
                subst IsTracked (some-injective _ _ (rw (e, f, g) at h))
                  (inserted-IsTracked t u _ refl l f k)
          ]
        ]
      ]

  track_reaction-IsTracked :
      (t t' : Tracked) (r : Reaction)
      → IsLogin r.user.login
      → track_reaction parse allowed t r ≡ some t'
      → IsTracked t
      → IsTracked t'
  unfolding track_reaction
  track_reaction-IsTracked t t' r l h k = elim (Result-cases (from_reaction r.content)) [
    | inl (e, rejected) ↦
        subst IsTracked (some-injective _ _ (rw (rejected, track_reaction) at h)) k
    | inr (o, accepted) ↦
        track_vote-IsTracked t t' r.user.login r.created_at o l (rw (accepted, track_reaction) at h)
          k
  ]

  track_reactions-IsTracked :
      (t t' : Tracked) (rs : List Reaction)
      → All (λ r. IsLogin r.user.login) rs
      → track_reactions parse allowed t rs ≡ some t'
      → IsTracked t
      → IsTracked t'
  unfolding track_reactions
  track_reactions-IsTracked t t' [] l h k = subst IsTracked (some-injective _ _ h) k
  track_reactions-IsTracked t t' (r ∷ rs) l h k =
      elim (Option-cases (track_reaction parse allowed t r)) [
        | inl e ↦ absurd (ground arith)
        | inr (next, e) ↦
            track_reactions-IsTracked next t' rs l.1 (ground arith)
              (track_reaction-IsTracked t next r l.0 e k)
      ]

  pub tracked_all :
      (t : Tracked) (rs : List Reaction)
      → All (λ r. IsLogin r.user.login) rs
      → track_reactions parse allowed untracked rs ≡ some t
      → IsTracked t
  tracked_all t rs l h =
      track_reactions-IsTracked untracked t rs l h
        (record { marked = tt; distinct = tt; logins = tt })

  module _ {F : Type 0} ⦃num : Float F⦄ (vote : Vote F) where
    -- Where logins are spelled in one way and no user is allowed twice, the binding votes and the voters
    -- who have not voted add up to the allowed voters.
    pub turnout-track_reactions :
        (t : Tracked) (rs : List Reaction)
        → All (λ r. IsLogin r.user.login) rs
        → Distinct allowed
        → track_reactions parse allowed untracked rs ≡ some t
        → let r = summarise vote allowed t.votes in r.binding + r.not_voted ≡ r.allowed_voters
    turnout-track_reactions t rs l d h =
        let k = tracked_all t rs l h in turnout vote allowed t.votes d k.distinct k.marked

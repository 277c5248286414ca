-- ===== src/Results/Threshold.antt =====
-- src/results.rs: the pass threshold over the allowed voters and over the votes cast.
use gitvote.Prelude.{
  str_compare-eq, zero, suc, [], ◌∷◌, to_ℕ, ◌&&◌, count, ℕ, ◌+◌, ◌≤◌, ◌<◌, ◌≡◌, refl, Bool, true,
  false, List, Str, length, arith,
}
use gitvote.Prelude.Map.{insert, contains_key, Map, keys}
use gitvote.CfgRepo.{PassThresholdBase}
use gitvote.Float.{Float}
use gitvote.Results.{UserVote, Vote}
use gitvote.Results.Tally.{
  no_votes, count_votes, Tally, base_or_default, threshold_base, threshold_reached,
  passes_with_all_allowed_voters,
}
use gitvote.Results.Calculate.{values, summarise}
use gitvote.Results.Counts.{is_in_favor, in_favor-summarise, summarise-totals}
use gitvote.Results.Turnout.{Distinct, IsMarked, turnout}

module _ {F : Type 0} ⦃num : Float F⦄ where
  -- A percentage in the range that the configuration allows.
  abbrev pub IsPercentage : F → Type 0
  IsPercentage t = (num.lt (num.of_ℕ 0) t ≡ true) × (num.le t (num.of_ℕ 100) ≡ true)

  -- More votes in favor, or a smaller base that is not empty, reach the threshold too.
  pub threshold_reached_mono :
      (t : F) (votes votes' base base' : ℕ)
      → IsPercentage t
      → votes ≤ votes'
      → base' ≤ base
      → 0 < base'
      → threshold_reached votes t base ≡ true
      → threshold_reached votes' t base' ≡ true
  unfolding threshold_reached
  threshold_reached_mono t votes votes' base base' p h k pos r = ground (
    arith,
    num.mul-mono t base' base p.0 p.1 k,
    num.scale-mono votes votes' h,
    num.le_trans (num.mul t (num.of_ℕ base')) (num.mul t (num.of_ℕ base))
        (num.mul (num.of_ℕ votes) (num.of_ℕ 100)),
    num.le_trans (num.mul t (num.of_ℕ base')) (num.mul (num.of_ℕ votes) (num.of_ℕ 100))
        (num.mul (num.of_ℕ votes') (num.of_ℕ 100)),
  )

  -- A threshold is not reached without a vote in favor.
  pub threshold_reached-pos :
      (t : F) (votes base : ℕ) → IsPercentage t → threshold_reached votes t base ≡ true → 0 < votes
  unfolding threshold_reached
  threshold_reached-pos t zero base p r = absurd (ground (arith, num.mul-pos t base p.0 p.1))
  threshold_reached-pos t (suc votes) base p r = omega arith

-- No base is larger than the number of allowed voters if each binding vote is one of theirs.
threshold_base-le :
    (b : PassThresholdBase) (t : Tally) (n : ℕ)
    → t.in_favor + t.against ≤ t.binding
    → t.binding ≤ n
    → threshold_base b t n ≤ n
unfolding threshold_base
threshold_base-le b t n h k = ground arith

threshold_base-pos :
    (b : PassThresholdBase) (t : Tally) (n : ℕ)
    → t.in_favor + t.against ≤ t.binding
    → t.binding ≤ n
    → 0 < t.in_favor
    → 0 < threshold_base b t n
unfolding threshold_base
threshold_base-pos b t n h k pos = ground arith

-- Later votes: each is by a user who has none so far.
pub data Extends (votes : Map UserVote) : Map UserVote → Type 0 where
  same : Extends votes votes
  more :
      {m : Map UserVote} (k : Str) (v : UserVote)
      → contains_key k m ≡ false
      → Extends votes m
      → Extends votes (insert k v m)

count-insert :
    (p : UserVote → Bool) (k : Str) (v : UserVote) (m : Map UserVote)
    → contains_key k m ≡ false
    → count p (values (insert k v m)) ≡ to_ℕ (p v) + count p (values m)
unfolding insert contains_key
count-insert p k v [] h = refl
count-insert p k v ((j, w) ∷ m) h = ground (arith, str_compare-eq k j, count-insert p k v m)

Extends-count :
    (p : UserVote → Bool) {votes votes' : Map UserVote}
    → Extends votes votes'
    → count p (values votes) ≤ count p (values votes')
Extends-count p same = omega arith
Extends-count p (more {m = m} k v h e) = omega (arith, Extends-count p e, count-insert p k v m h)

module _ {F : Type 0} ⦃num : Float F⦄ (vote : Vote F) (allowed : List Str) where
  summarise-base :
      (votes : Map UserVote)
      → Distinct allowed
      → Distinct (keys votes)
      → IsMarked allowed votes
      → 0 < (summarise vote allowed votes).in_favor
      → (base : ℕ) × ((summarise vote allowed votes).passed
          ≡ threshold_reached (summarise vote allowed votes).in_favor vote.cfg.pass_threshold base)
        × (0 < base)
        × (base ≤ length allowed)
  unfolding summarise
  summarise-base votes d e m pos =
      let b = base_or_default vote.cfg.pass_threshold_base in
      let t = count_votes no_votes (values votes) in
      let totals = summarise-totals vote allowed votes in
      let all = turnout vote allowed votes d e m in
      (
        threshold_base b t (length allowed),
        refl,
        threshold_base-pos b t (length allowed) (omega arith) (omega arith) pos,
        threshold_base-le b t (length allowed) (omega arith) (omega arith),
      )

  -- Once the votes reach the threshold over all the allowed voters, the vote passes, and it still
  -- does after any further votes by users who have not voted, whatever base the profile selects.
  pub passes_with_all_allowed_voters-passed :
      (votes votes' : Map UserVote)
      → IsPercentage vote.cfg.pass_threshold
      → Extends votes votes'
      → Distinct allowed
      → Distinct (keys votes')
      → IsMarked allowed votes'
      → passes_with_all_allowed_voters (summarise vote allowed votes) ≡ true
      → (summarise vote allowed votes').passed ≡ true
  unfolding passes_with_all_allowed_voters summarise
  passes_with_all_allowed_voters-passed votes votes' p x d e m r =
      let t = vote.cfg.pass_threshold in
      let s = summarise vote allowed votes in
      let s' = summarise vote allowed votes' in
      let pos = threshold_reached-pos t s.in_favor s.allowed_voters p r in
      let le : s.in_favor ≤ s'.in_favor = omega (
        arith,
        in_favor-summarise vote allowed votes,
        in_favor-summarise vote allowed votes',
        Extends-count (λ v. v.binding && is_in_favor v.vote_option) x,
      ) in
      let (base, by, base_pos, base_le) = summarise-base votes' d e m (omega arith) in
      rw by (
        threshold_reached_mono t s.in_favor s'.in_favor s.allowed_voters base p le
          (omega (arith, summarise-totals vote allowed votes)) base_pos r)

-- ===== src/Db/Life.antt =====
-- src/db.rs: the life of a vote by its id, read off the table: no row, an open row, or a closed row.
use gitvote.Prelude.{
  ◌⊎◌, ℕ, ◌≡◌, ◌≢◌, refl, sym, ap, ◌∙◌, subst, Bool, true, false, Bool-cases, [], ◌∷◌, ◌++◌, Memᴰ,
  any, select, if◌then◌else◌, inl, inr, arith,
}
use gitvote.World.{Row}
use gitvote.World.Steps.{Table}
use gitvote.Db.{has_id, update_where, is_open}
use gitvote.Db.Edits.{OpenId}
use gitvote.Github.Names.{char_eq}

pub data Phase (F : Type 0) : Type 0 where
  absent : Phase F
  in_progress : Phase F
  ended : Row F → Phase F

module _ {F : Type 0} where
  unfoldable pub phase_of : Row F → Phase F
  phase_of row = if row.closed then ended row else in_progress

  -- By the first row with the id.
  unfoldable pub phase : ℕ → Table F → Phase F
  phase vote_id [] = absent
  phase vote_id (row ∷ t) =
      let rest = phase vote_id t in if has_id vote_id row then phase_of row else rest

  -- No two rows have the same id.
  abbrev pub IsUnique : Table F → Type 0
  IsUnique [] = Unit
  IsUnique (row ∷ t) = (any (has_id row.vote_id) t ≡ false) × IsUnique t

  pub has_id-eq : (vote_id : ℕ) (row : Row F) → has_id vote_id row ≡ true → row.vote_id ≡ vote_id
  unfolding has_id char_eq
  has_id-eq vote_id row h = ground arith

  pub has_id-of : (vote_id : ℕ) (row : Row F) → row.vote_id ≡ vote_id → has_id vote_id row ≡ true
  unfolding has_id char_eq
  has_id-of vote_id row h = ground arith

  pub has_id-same :
      (vote_id : ℕ) (row row' : Row F)
      → row.vote_id ≡ row'.vote_id
      → has_id vote_id row ≡ has_id vote_id row'
  unfolding has_id char_eq
  has_id-same vote_id row row' h = ground arith

  pub has_id-other :
      (vote_id id : ℕ) (row : Row F)
      → has_id vote_id row ≡ true
      → id ≢ vote_id
      → has_id id row ≡ false
  unfolding has_id char_eq
  has_id-other vote_id id row h k = ground arith

  pub phase-absent :
      (vote_id : ℕ) (t : Table F) → any (has_id vote_id) t ≡ false → phase vote_id t ≡ absent
  unfolding phase
  phase-absent vote_id [] h = refl
  phase-absent vote_id (row ∷ t) h = ground (arith, phase-absent vote_id t)

  pub phase-append :
      (vote_id : ℕ) (t : Table F) (row : Row F)
      → has_id vote_id row ≡ false
      → phase vote_id (t ++ row ∷ []) ≡ phase vote_id t
  unfolding phase
  phase-append vote_id [] row h = ground arith
  phase-append vote_id (row' ∷ t) row h = ground (arith, phase-append vote_id t row h)

  pub phase-appended :
      (vote_id : ℕ) (t : Table F) (row : Row F)
      → has_id vote_id row ≡ true
      → any (has_id vote_id) t ≡ false
      → phase vote_id (t ++ row ∷ []) ≡ phase_of row
  unfolding phase
  phase-appended vote_id [] row h k = ground arith
  phase-appended vote_id (row' ∷ t) row h k = ground (arith, phase-appended vote_id t row h)

  -- An update of the rows with another id changes nothing for this one.
  pub phase-update_where :
      (id vote_id : ℕ) (g : Row F → Row F) (t : Table F)
      → ((row : Row F) → (g row).vote_id ≡ row.vote_id)
      → id ≢ vote_id
      → phase id (update_where (has_id vote_id) g t) ≡ phase id t
  unfolding phase update_where
  phase-update_where id vote_id g [] k n = refl
  phase-update_where id vote_id g (row ∷ t) k n = elim (Bool-cases (has_id vote_id row)) [
    | inl h ↦ ground (
      arith,
      has_id-other vote_id id row h n,
      has_id-same id (g row) row (k row),
      phase-update_where id vote_id g t k n,
    )
    | inr h ↦ ground (arith, phase-update_where id vote_id g t k n)
  ]

  -- An update of the rows with the id of an open vote updates that vote.
  pub phase-updated :
      (vote_id : ℕ) (g : Row F → Row F) (t : Table F)
      → ((row : Row F) → (g row).vote_id ≡ row.vote_id)
      → phase vote_id t ≡ in_progress
      → (row : Row F) × (row.closed ≡ false)
        × (phase vote_id (update_where (has_id vote_id) g t) ≡ phase_of (g row))
  unfolding phase phase_of update_where
  phase-updated vote_id g [] k o = absurd (ground arith)
  phase-updated vote_id g (row ∷ t) k o = elim (Bool-cases (has_id vote_id row)) [
    | inl h ↦ (row, ground arith, ground (arith, has_id-same vote_id (g row) row (k row)))
    | inr h ↦
        let (found, still, e) = phase-updated vote_id g t k (ground arith) in
        (found, still, ground (arith, e))
  ]

  any-Memᴰ :
      (vote_id : ℕ) (t : Table F) (row : Row F)
      → Memᴰ row t
      → row.vote_id ≡ vote_id
      → any (has_id vote_id) t ≡ true
  any-Memᴰ vote_id [] row m e = elim m [ ]
  any-Memᴰ vote_id (row' ∷ t) row (Memᴰ.head h) e =
      ground (arith, has_id-of vote_id row' (ap (λ r. r.vote_id) (sym h) ∙ e))
  any-Memᴰ vote_id (row' ∷ t) row (Memᴰ.tail m) e = ground (arith, any-Memᴰ vote_id t row m e)

  phase-member :
      (vote_id : ℕ) (t : Table F) (row : Row F)
      → IsUnique t
      → Memᴰ row t
      → row.vote_id ≡ vote_id
      → is_open row ≡ true
      → phase vote_id t ≡ in_progress
  unfolding phase phase_of is_open
  phase-member vote_id [] row u m e o = elim m [ ]
  phase-member vote_id (row' ∷ t) row u (Memᴰ.head h) e o =
      ground (arith, has_id-of vote_id row' (ap (λ r. r.vote_id) (sym h) ∙ e), ap (λ r. r.closed) h)
  phase-member vote_id (row' ∷ t) row (own, u) (Memᴰ.tail m) e o =
      elim (Bool-cases (has_id vote_id row')) [
        | inl h ↦ absurd (
            ground (arith, own, any-Memᴰ row'.vote_id t row m (e ∙ sym (has_id-eq vote_id row' h))))
        | inr h ↦ ground (arith, phase-member vote_id t row u m e o)
      ]

  pub phase-OpenId :
      (vote_id : ℕ) (t : Table F) → IsUnique t → OpenId t vote_id → phase vote_id t ≡ in_progress
  phase-OpenId vote_id t u o = phase-member vote_id t o.row u o.member o.id o.still_open

  pub select-none :
      (vote_id : ℕ) (p : Row F → Bool) (t : Table F)
      → any (has_id vote_id) t ≡ false
      → any (has_id vote_id) (select p t) ≡ false
  select-none vote_id p [] h = refl
  select-none vote_id p (row ∷ t) h = ground (arith, select-none vote_id p t)

  -- Rows that are open are gone.
  pub phase-select :
      (vote_id : ℕ) (p : Row F → Bool) (t : Table F)
      → IsUnique t
      → ((row : Row F) → p row ≡ false → row.closed ≡ false)
      → phase vote_id (select p t) ≡ phase vote_id t
        ⊎ ((phase vote_id t ≡ in_progress) × (phase vote_id (select p t) ≡ absent))
  unfolding phase phase_of
  phase-select vote_id p [] u k = inl refl
  phase-select vote_id p (row ∷ t) (own, u) k = elim (Bool-cases (has_id vote_id row)) [
    | inl h ↦
        let none_left =
          select-none vote_id p t
            (subst (λ id. any (has_id id) t ≡ false) (has_id-eq vote_id row h) own) in
        ground (arith, k row, phase-absent vote_id (select p t) none_left)
    | inr h ↦ ground (arith, phase-select vote_id p t u k)
  ]

-- ===== src/Book/Lost.antt =====
-- The shared book structure: two levels that are put before the same one.
use low_latency_learn.Base.{
  ℕ, ◌≡◌, ◌≢◌, refl, ap, ◌∙◌, false, some, arith, ◌==◌, ok, if◌then◌else◌, ◌>>=◌, deref,
}
use low_latency_learn.Base.Int.{ltb_ℤ}
use low_latency_learn.Types.{Side}
use low_latency_learn.Book.{
  Book, level_at, insert_before, become_best, set_next_entry, set_prev_entry,
}
use low_latency_learn.Book.Levels.{next_level, prev_level}

module _ {K : Type 0} where
  -- The writes of `insert_before` for a level that is not the new best one.
  abbrev squeezed : Book K → (new target before : ℕ) → Book K
  squeezed b new target before =
      let b₁ : Book K = set_prev_entry b new (level_at b target).next_entry in
      set_next_entry (set_next_entry b₁ new (some target)) before (some new)

  module _ (b : Book K) (new target before : ℕ) where
    side-squeezed : (a : ℕ) → (level_at (squeezed b new target before) a).side ≡ (level_at b a).side
    side-squeezed a = ground arith

    price-squeezed :
        (a : ℕ) → (level_at (squeezed b new target before) a).price ≡ (level_at b a).price
    price-squeezed a = ground arith

    prev_level-squeezed :
        (a : ℕ) → a ≢ new → prev_level (squeezed b new target before) a ≡ prev_level b a
    prev_level-squeezed a h = ground arith

    next_level-squeezed :
        (a : ℕ)
        → next_level (squeezed b new target before) a
          ≡ (if before == a then some new else if new == a then some target else next_level b a)
    next_level-squeezed a = ground arith

  -- A level to sell that is not better than the best one.
  abbrev pub NotBetter : Book K → (new best : ℕ) → Type 0
  NotBetter b new best =
      ((level_at b new).side ≡ Side.sell)
      × (ltb_ℤ (level_at b new).price (level_at b best).price ≡ false)

  NotBetter-squeezed :
      (b : Book K) (new target before a best : ℕ)
      → NotBetter b a best
      → NotBetter (squeezed b new target before) a best
  NotBetter-squeezed b new target before a best h = (
    side-squeezed b new target before a ∙ h.0,
    rw (price-squeezed b new target before a, price-squeezed b new target before best) h.1,
  )

  become_best-NotBetter :
      (b : Book K) (new best target : ℕ) → NotBetter b new best → become_best b new best target ≡ b
  unfolding become_best
  become_best-NotBetter b new best target h = rw (h.0, h.1, become_best) refl

  insert_before-squeezed :
      (b : Book K) (new best target before : ℕ)
      → prev_level b target ≡ some before
      → target ≢ new
      → NotBetter b new best
      → insert_before b new best target ≡ ok (squeezed b new target before)
  unfolding insert_before
  insert_before-squeezed b new best target before link ne worse =
      let b₁ : Book K = set_prev_entry b new (level_at b target).next_entry in
      let b₂ : Book K = set_next_entry b₁ new (some target) in
      let still : prev_level b₂ target ≡ some before = ground arith in
      ap (λ o. deref o >>= λ p. ok (become_best (set_next_entry b₂ p (some new)) new best target))
        still
      ∙ ap ok (
          become_best-NotBetter (squeezed b new target before) new best target
            (NotBetter-squeezed b new target before new best worse))

  -- Where two levels to sell are put before the same level, one after the other, and neither is
  -- better than the best one, the first is lost: afterwards no level leads on to it, and the
  -- level that did leads on to the second.
  pub insert_before_twice :
      (b : Book K) (first second best target before : ℕ)
      → prev_level b target ≡ some before
      → target ≢ first
      → target ≢ second
      → first ≢ second
      → NotBetter b first best
      → NotBetter b second best
      → ((a : ℕ) → next_level b a ≢ some first)
      → (b₁ : Book K) × (b₂ : Book K) × (insert_before b first best target ≡ ok b₁)
        × (next_level b₁ before ≡ some first)
        × (insert_before b₁ second best target ≡ ok b₂)
        × (next_level b₂ before ≡ some second)
        × ((a : ℕ) → next_level b₂ a ≢ some first)
  insert_before_twice b first second best target before link t₁ t₂ ne w₁ w₂ unknown =
      let b₁ = squeezed b first target before in
      let b₂ = squeezed b₁ second target before in
      (
        b₁,
        b₂,
        insert_before-squeezed b first best target before link t₁ w₁,
        next_level-squeezed b first target before before ∙ ground arith,
        insert_before-squeezed b₁ second best target before
            (prev_level-squeezed b first target before target t₁ ∙ link) t₂
            (NotBetter-squeezed b first target before second best w₂),
        next_level-squeezed b₁ second target before before ∙ ground arith,
        λ a.
            lost a (next_level-squeezed b first target before a)
              (next_level-squeezed b₁ second target before a),
      )
    where
      lost :
          (a : ℕ)
          → next_level (squeezed b first target before) a ≡ (
              if before == a
              then some first
              else if first == a
              then some target
              else next_level b a)
          → next_level (squeezed (squeezed b first target before) second target before) a ≡ (
              if before == a
              then some second
              else if second == a
              then some target
              else next_level (squeezed b first target before) a)
          → next_level (squeezed (squeezed b first target before) second target before) a
            ≢ some first
      lost a h k = ground (arith, unknown a)

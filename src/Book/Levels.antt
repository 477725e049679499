-- ===== src/Book/Levels.antt =====
-- The shared book structure: the ring of the price levels of a side.
use mathlib.Core.Path.{subst}
use low_latency_learn.Base.{
  ℕ, zero, suc, ◌<◌, ◌≤◌, ◌≡◌, ◌≢◌, refl, sym, ap, ◌∙◌, true, false, Option, some, List, [], ◌∷◌,
  ◌++◌, arith, ◌==◌, update, update_self, length, ok, if◌then◌else◌, ◌>>=◌, deref,
}
use low_latency_learn.Base.Int.{eqb_ℤ, pos}
use low_latency_learn.Types.{Side}
use low_latency_learn.Book.{
  OrdersAtPrice, Book, level_at, goes_after, find_target, insert_behind, add_orders_at_price,
  place_level, get_orders_at_price, price_to_index, set_next_entry, set_prev_entry, best_by_price,
}
use low_latency_learn.Book.Ring.{
  has, has_ne, IsDistinct, IsDistinct-append, last, last-append, ne-last, Linked, Links,
  Links-append, Links-frame, Ring,
}

goes_after-buy :
    (new target : OrdersAtPrice)
    → new.side ≡ Side.buy
    → eqb_ℤ new.price (pos 0) ≡ false
    → goes_after new target ≡ true
unfolding goes_after
goes_after-buy new target h k = rw (h, k, goes_after) refl

module _ {K : Type 0} where
  abbrev pub next_level : Book K → ℕ → Option ℕ
  next_level b a = (level_at b a).next_entry

  abbrev pub prev_level : Book K → ℕ → Option ℕ
  prev_level b a = (level_at b a).prev_entry

  find_target-best :
      (fuel : ℕ) (b : Book K) (new : OrdersAtPrice) (best : ℕ)
      → find_target (suc fuel) b new best best true ≡ ok (best, true)
  unfolding find_target
  find_target-best fuel b new best =
      let same : (best == best) ≡ true = ground arith in rw (same, find_target) refl

  find_target-step :
      (fuel : ℕ) (b : Book K) (new : OrdersAtPrice) (best target t : ℕ)
      → (target == best) ≡ false
      → goes_after new (level_at b target) ≡ true
      → next_level b target ≡ some t
      → find_target (suc fuel) b new best target true ≡ find_target fuel b new best t true
  unfolding find_target
  find_target-step fuel b new best target t ne after link = rw (ne, after, link, find_target) refl

  -- A bid walks through all levels of the ring, and comes back to the best one.
  find_target-buy :
      (fuel : ℕ) (b : Book K) (new : OrdersAtPrice) (best t : ℕ) (ys : List ℕ)
      → new.side ≡ Side.buy
      → eqb_ℤ new.price (pos 0) ≡ false
      → Links (next_level b) (prev_level b) t ys
      → next_level b (last t ys) ≡ some best
      → has best (t ∷ ys) ≡ false
      → length (t ∷ ys) < fuel
      → find_target fuel b new best t true ≡ ok (best, true)
  find_target-buy zero b new best t ys hs hp links back out enough = absurd (omega arith)
  find_target-buy (suc zero) b new best t ys hs hp links back out enough = absurd (omega arith)
  find_target-buy (suc (suc fuel)) b new best t [] hs hp links back out enough =
      find_target-step (suc fuel) b new best t best (ground arith)
        (goes_after-buy new (level_at b t) hs hp) back
      ∙ find_target-best fuel b new best
  find_target-buy (suc (suc fuel)) b new best t (y ∷ ys) hs hp links back out enough =
      find_target-step (suc fuel) b new best t y (ground arith)
        (goes_after-buy new (level_at b t) hs hp) links.0.0
      ∙ find_target-buy (suc fuel) b new best y ys hs hp links.1 back (ground arith) (omega arith)

  -- The four writes that put `z` between `l` and `x`.
  abbrev joined : Book K → (x l z : ℕ) → Book K
  joined b x l z =
      let b₁ : Book K = set_prev_entry b z (some l) in
      let b₂ : Book K = set_prev_entry b₁ x (some z) in
      let b₃ : Book K = set_next_entry b₂ z (level_at b₂ l).next_entry in
      set_next_entry b₃ l (some z)

  module _ (b : Book K) (x l z : ℕ) (xz : z ≢ x) (lz : z ≢ l)
      (closing : Linked (next_level b) (prev_level b) l x) where
    next_level-joined :
        (next_level (joined b x l z) l ≡ some z) × (next_level (joined b x l z) z ≡ some x)
    next_level-joined = ground arith

    prev_level-joined :
        (prev_level (joined b x l z) x ≡ some z) × (prev_level (joined b x l z) z ≡ some l)
    prev_level-joined = ground arith

    next_level-joined_ne : (a : ℕ) → a ≢ l → a ≢ z → next_level (joined b x l z) a ≡ next_level b a
    next_level-joined_ne a al az = ground arith

    prev_level-joined_ne : (a : ℕ) → a ≢ x → a ≢ z → prev_level (joined b x l z) a ≡ prev_level b a
    prev_level-joined_ne a ax az = ground arith

    insert_behind-joined : insert_behind b z x x ≡ ok (joined b x l z)
    unfolding insert_behind
    insert_behind-joined =
        let same : (x == x) ≡ true = ground arith in
        let still : (level_at (set_prev_entry b z (some l)) l).next_entry ≡ some x = ground arith in
        let found : (if x == x then deref (level_at b x).prev_entry else ok x) ≡ ok l =
          rw (same, closing.1) refl in
        ap
          (λ m. m >>= λ t. deref (level_at (set_prev_entry b z (some t)) t).next_entry >>= λ after.
            let b₁ : Book K = set_prev_entry (set_prev_entry b z (some t)) after (some z) in
            ok (set_next_entry (set_next_entry b₁ z (level_at b₁ t).next_entry) t (some z)))
          found
        ∙ ap
            (λ o. deref o >>= λ after.
              let b₁ : Book K = set_prev_entry (set_prev_entry b z (some l)) after (some z) in
              ok (set_next_entry (set_next_entry b₁ z (level_at b₁ l).next_entry) l (some z)))
            still

  Ring-joined :
      (b : Book K) (x z : ℕ) (xs : List ℕ)
      → Ring (next_level b) (prev_level b) x xs
      → IsDistinct (x ∷ xs)
      → has z (x ∷ xs) ≡ false
      → Ring
          (next_level (joined b x (last x xs) z))
          (prev_level (joined b x (last x xs) z))
          x
          (xs ++ (z ∷ []))
  Ring-joined b x z xs (links, closing) d out =
      let l = last x xs in
      let xz : z ≢ x = ground arith in
      let lz = ne-last z x xs out in
      let b' = joined b x l z in
      let (n₁, n₂) = next_level-joined b x l z xz lz closing in
      let (p₁, p₂) = prev_level-joined b x l z xz lz closing in
      let kept =
        Links-frame x xs d
          (λ a i al. next_level-joined_ne b x l z xz lz closing a al (has_ne a z (x ∷ xs) i out))
          (λ a i.
            prev_level-joined_ne b x l z xz lz closing a (has_ne a x xs i d.0)
              (has_ne a z xs i (ground arith)))
          links in
      (
        Links-append (next_level b') (prev_level b') x xs z [] kept (n₁, p₂) tt,
        subst (λ y. Linked (next_level b') (prev_level b') y x) (sym (last-append x xs z []))
            (n₂, p₁),
      )

  place_level-behind :
      (b : Book K) (new best t : ℕ)
      → goes_after (level_at b new) (level_at b best) ≡ true
      → next_level b best ≡ some t
      → goes_after (level_at b new) (level_at b t) ≡ true
      → find_target (suc b.orders_at_price_pool.size) b (level_at b new) best t true
        ≡ ok (best, true)
      → place_level b new best ≡ insert_behind b new best best
  unfolding place_level
  place_level-behind b new best t first link second found =
      rw (first, link, second, found, place_level) refl

  place_level-buy :
      (b : Book K) (new best : ℕ) (xs : List ℕ)
      → (level_at b new).side ≡ Side.buy
      → eqb_ℤ (level_at b new).price (pos 0) ≡ false
      → Ring (next_level b) (prev_level b) best xs
      → IsDistinct (best ∷ xs)
      → has new (best ∷ xs) ≡ false
      → length xs ≤ b.orders_at_price_pool.size
      → place_level b new best ≡ ok (joined b best (last best xs) new)
  place_level-buy b new best [] hs hp ring d out short =
      place_level-behind b new best best (goes_after-buy _ _ hs hp) ring.1.0
        (goes_after-buy _ _ hs hp)
        (find_target-best b.orders_at_price_pool.size b (level_at b new) best)
      ∙ insert_behind-joined b best best new (ground arith) (ground arith) ring.1
  place_level-buy b new best (x ∷ ys) hs hp ring d out short =
      place_level-behind b new best x (goes_after-buy _ _ hs hp) ring.0.0.0
        (goes_after-buy _ _ hs hp)
        (find_target-buy (suc b.orders_at_price_pool.size) b (level_at b new) best x ys hs hp
          ring.0.1 ring.1.0 d.0 (omega arith))
      ∙ insert_behind-joined b best (last x ys) new (ground arith) (ne-last new best (x ∷ ys) out)
          ring.1

  -- A new price level of a bid, at any price but 0, goes to the end of the ring of the bids,
  -- whatever the prices there are; the walk round the ring ends within one round more than there
  -- are levels, and the best bid stays the level that was opened first.
  pub add_orders_at_price-buy :
      (b : Book K) (new best : ℕ) (xs : List ℕ)
      → (level_at b new).side ≡ Side.buy
      → eqb_ℤ (level_at b new).price (pos 0) ≡ false
      → b.bids_by_price ≡ some best
      → Ring (next_level b) (prev_level b) best xs
      → IsDistinct (best ∷ xs)
      → has new (best ∷ xs) ≡ false
      → length xs ≤ b.orders_at_price_pool.size
      → (b' : Book K) × (add_orders_at_price b new ≡ ok b')
        × (b'.bids_by_price ≡ some best)
        × Ring (next_level b') (prev_level b') best (xs ++ (new ∷ []))
        × IsDistinct (best ∷ (xs ++ (new ∷ [])))
        × (get_orders_at_price b' (level_at b new).price ≡ some new)
  unfolding add_orders_at_price get_orders_at_price
  add_orders_at_price-buy b new best xs hs hp hb ring d out short =
      let i = price_to_index (level_at b new).price in
      let b₀ : Book K = record b {
        price_orders_at_price = update b.price_orders_at_price i (some new);
      } in
      let is_best : best_by_price b₀ (level_at b new).side ≡ some best = rw hs hb in
      (
        joined b₀ best (last best xs) new,
        rw (is_best, add_orders_at_price) (place_level-buy b₀ new best xs hs hp ring d out short),
        hb,
        Ring-joined b₀ best new xs ring d out,
        IsDistinct-append (best ∷ xs) new d out,
        update_self b.price_orders_at_price i (some new),
      )

-- ===== src/Matcher/Printer/Lines.antt =====
-- exchange/matcher/me_order_book.cpp, `toString`: the line of a level.
use Prim.Native.String.{String, ◌++◌}
use low_latency_learn.Base.{
  ℕ, zero, suc, ◌+◌, ◌<◌, ◌≡◌, refl, Bool, true, false, Option, none, some, List, [], ◌∷◌, arith,
  length, ◌==◌, ok, ◌>>=◌,
}
use low_latency_learn.Base.Int.{ℤ}
use low_latency_learn.Types.{Side, Price, add32}
use low_latency_learn.Book.{Book, order_at, level_at}
use low_latency_learn.Book.Ring.{has, last, Links}
use low_latency_learn.Book.Blocks.{length-IsDistinct}
use low_latency_learn.Book.Queues.{Holds, next_of, prev_of}
use low_latency_learn.Book.Levels.{next_level, prev_level}
use low_latency_learn.Matcher.{MeOrderKey}
use low_latency_learn.Matcher.Printer.{
  next_price, count_orders, order_text, print_orders, print_level, print_levels, level_line,
}

-- The level holds orders in blocks of the pool.
pub record IsFilled (b : Book MeOrderKey) (level : ℕ) : Type 0 where
  pub oldest : ℕ
  pub rest : List ℕ
  pub queue : Holds b level oldest rest
  pub in_pool : (a : ℕ) → has a (oldest ∷ rest) ≡ true → a < b.order_pool.size

module _ (b : Book MeOrderKey) (x : ℕ) where
  count_orders-Links :
      (fuel p : ℕ) (ys : List ℕ) (qty n : ℕ)
      → Links (next_of b) (prev_of b) p ys
      → next_of b (last p ys) ≡ some x
      → has x ys ≡ false
      → length ys < fuel
      → (r : ℕ × ℕ) × (count_orders fuel b x p qty n ≡ ok r)
  unfolding count_orders
  count_orders-Links zero p ys qty n l e out hf = absurd (omega (arith, hf))
  count_orders-Links (suc fuel) p [] qty n l e out hf =
      let same : (x == x) ≡ true = ground arith in
      ((add32 qty (order_at b p).qty, n + 1), rw (e, same, count_orders) refl)
  count_orders-Links (suc fuel) p (y ∷ ys) qty n l e out hf =
      let other : (y == x) ≡ false = ground (arith, out) in
      let (r, done) =
        count_orders-Links fuel y ys (add32 qty (order_at b p).qty) (n + 1) l.1 e
          (ground (arith, out)) (omega (arith, hf)) in
      (r, rw (l.0.0, other, count_orders) done)

  print_orders-Links :
      (digits : ℤ → String) (padded : ℤ → String → String) (fuel : ℕ) (detailed : Bool) (p : ℕ)
      (ys : List ℕ)
      → Links (next_of b) (prev_of b) p ys
      → next_of b (last p ys) ≡ some x
      → has x ys ≡ false
      → length ys < fuel
      → (text : String) × (print_orders digits padded fuel b detailed x p ≡ ok text)
  unfolding print_orders
  print_orders-Links digits padded zero detailed p ys l e out hf = absurd (omega (arith, hf))
  print_orders-Links digits padded (suc fuel) detailed p [] l e out hf =
      let same : (x == x) ≡ true = ground arith in
      (order_text digits padded b detailed p, rw (e, same, print_orders) refl)
  print_orders-Links digits padded (suc fuel) detailed p (y ∷ ys) l e out hf =
      let other : (y == x) ≡ false = ground (arith, out) in
      let (behind, done) =
        print_orders-Links digits padded fuel detailed y ys l.1 e (ground (arith, out))
          (omega (arith, hf)) in
      (order_text digits padded b detailed p ++ behind, rw (l.0.0, other, done, print_orders) refl)

-- The line of a level can be printed, and then the check decides.
module _ (digits : ℤ → String) (padded : ℤ → String → String) (b : Book MeOrderKey)
    (detailed : Bool) where
  pub print_level-filled :
      (check : Bool) (side : Side) (last_price : Price) (level prev next : ℕ)
      → IsFilled b level
      → prev_level b level ≡ some prev
      → next_level b level ≡ some next
      → (text : String) × (print_level digits padded b detailed check side last_price level
          ≡ (next_price check side last_price (level_at b level).price >>= λ p. ok (text, p)))
  unfolding print_level
  print_level-filled check side last_price level prev next h back link =
      let x = h.oldest in
      let q = h.queue in
      let fits = length-IsDistinct b.order_pool.size (x ∷ h.rest) q.distinct h.in_pool in
      let short : length h.rest < suc b.order_pool.size = omega (arith, fits) in
      let (r, counted) =
        count_orders-Links b x (suc b.order_pool.size) x h.rest 0 0 q.ring.0 q.ring.1.0 q.distinct.0
          short in
      let (orders, printed) =
        print_orders-Links b x digits padded (suc b.order_pool.size) detailed x h.rest q.ring.0
          q.ring.1.0 q.distinct.0 short in
      (
        level_line digits padded b level prev next r.0 r.1 orders,
        rw (q.first, counted, back, link, printed, print_level) refl,
      )

  pub print_levels-end :
      (fuel : ℕ) (check : Bool) (side : Side) (name : String) (count : ℕ) (last_price : Price)
      (best : Option ℕ)
      → print_levels digits padded (suc fuel) b detailed check side name count last_price best none
        ≡ ok ""
  unfolding print_levels
  print_levels-end fuel check side name count last_price best = refl

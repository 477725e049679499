-- ===== src/MarketBook/Queue/Best.antt =====
-- trading/strategy/market_order_book.cpp, `updateBBO`: the quantity of the best level.
use mathlib.Core.List.{map}
use low_latency_learn.Base.{
  ℕ, zero, suc, ◌+◌, ◌<◌, ◌%◌, ◌^◌, ◌≡◌, refl, ap, ◌∙◌, true, false, some, List, [], ◌∷◌, arith,
  length, ◌==◌, ok,
}
use low_latency_learn.Types.{Price, add32}
use low_latency_learn.Book.{Book, order_at, level_at}
use low_latency_learn.Book.Ring.{has, last, Links, Linked}
use low_latency_learn.Book.Blocks.{length-IsDistinct}
use low_latency_learn.Book.Queues.{HoldsAll, next_of, prev_of}
use low_latency_learn.MarketBook.{add_qtys, best_of}
use low_latency_learn.MarketBook.Queue.{Quote, quote_of, IsShown, Shows}

-- The quantity of all orders of a queue.
abbrev pub quantity : List Quote → ℕ
quantity [] = 0
quantity ((k, n) ∷ q) = n + quantity q

abbrev head_or : ℕ → List ℕ → ℕ
head_or x [] = x
head_or x (y ∷ ys) = y

next_of-Links :
    (b : Book ℕ) (p x : ℕ) (ys : List ℕ)
    → Links (next_of b) (prev_of b) p ys
    → Linked (next_of b) (prev_of b) (last p ys) x
    → next_of b p ≡ some (head_or x ys)
next_of-Links b p x [] l e = e.0
next_of-Links b p x (y ∷ ys) l e = l.0.0

module _ (b : Book ℕ) (x : ℕ) where
  add_qtys-end : (fuel n : ℕ) → add_qtys (suc fuel) b x x n ≡ ok n
  unfolding add_qtys
  add_qtys-end fuel n = let same : (x == x) ≡ true = ground arith in rw (same, add_qtys) refl

  add_qtys-next :
      (fuel y z n : ℕ)
      → (x == y) ≡ false
      → next_of b y ≡ some z
      → add_qtys (suc fuel) b x y n ≡ add_qtys fuel b x z (add32 n (order_at b y).qty)
  unfolding add_qtys
  add_qtys-next fuel y z n ne next =
      let other : (y == x) ≡ false = ground arith in rw (other, next, add_qtys) refl

  -- The loop adds the quantities of the orders behind `p` and ends at the first order.
  add_qtys-Links :
      (fuel p : ℕ) (ys : List ℕ) (n : ℕ)
      → Links (next_of b) (prev_of b) p ys
      → Linked (next_of b) (prev_of b) (last p ys) x
      → has x ys ≡ false
      → n < 2 ^ 32
      → length ys < fuel
      → add_qtys fuel b x (head_or x ys) n ≡ ok ((n + quantity (map (quote_of b) ys)) % 2 ^ 32)
  add_qtys-Links zero p ys n l e out small hf = absurd (omega (arith, hf))
  add_qtys-Links (suc fuel) p [] n l e out small hf =
      let whole : n ≡ (n + 0) % 2 ^ 32 = omega (arith, small) in add_qtys-end fuel n ∙ ap ok whole
  add_qtys-Links (suc fuel) p (y ∷ ys) n l e out small hf =
      let m = (order_at b y).qty in
      let s = quantity (map (quote_of b) ys) in
      let whole : (add32 n m + s) % 2 ^ 32 ≡ (n + (m + s)) % 2 ^ 32 = omega arith in
      add_qtys-next fuel y (head_or x ys) n (ground (arith, out)) (next_of-Links b y x ys l.1 e)
      ∙ add_qtys-Links fuel y ys (add32 n m) l.1 e (ground (arith, out)) (omega arith)
          (omega (arith, hf))
      ∙ ap ok whole

best_of-blocks :
    (b : Book ℕ) (price : Price) (level : ℕ) (xs : List ℕ)
    → HoldsAll b level xs
    → ((a : ℕ) → has a xs ≡ true → IsShown b price a)
    → (level_at b level).price ≡ price
    → best_of b (some level) ≡ ok (price, quantity (map (quote_of b) xs) % 2 ^ 32)
unfolding best_of
best_of-blocks b price level [] h s e = absurd h
best_of-blocks b price level (x ∷ rest) h s e =
    let fits = length-IsDistinct b.order_pool.size (x ∷ rest) h.distinct (λ a i. (s a i).in_pool) in
    let first = s x (ground arith) in
    let added =
      add_qtys-Links b x (suc b.order_pool.size) x rest (order_at b x).qty h.ring.0 h.ring.1
        h.distinct.0 first.small (omega (arith, fits)) in
    rw (h.first, next_of-Links b x x rest h.ring.0 h.ring.1, added, e, best_of) refl

-- The best level of a side that shows a queue gives its price and the quantity of the queue, as a
-- 32-bit word.
pub best_of-Shows :
    (b : Book ℕ) (price : Price) (level : ℕ) (q : List Quote)
    → Shows b price level q
    → best_of b (some level) ≡ ok (price, quantity q % 2 ^ 32)
best_of-Shows b price level q h =
    best_of-blocks b price level h.blocks h.queue h.orders h.level_price
    ∙ ap (λ r. ok (price, quantity r % 2 ^ 32)) h.quotes

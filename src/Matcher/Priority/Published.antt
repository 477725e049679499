-- ===== src/Matcher/Priority/Published.antt =====
-- exchange/matcher/me_order_book.cpp, `match`: the market updates of the trades with a queue, and the
-- queue as those who read the updates know it.
use mathlib.Core.List.{map}
use low_latency_learn.Base.{
  ℕ, ◌-◌, ◌≡◌, ◌≢◌, refl, ap, ap₂, ◌∙◌, false, List, [], ◌∷◌, ◌++◌, arith, ltb, ◌==◌, if◌then◌else◌,
}
use low_latency_learn.Types.{Side}
use low_latency_learn.Messages.{MeMarketUpdate}
use low_latency_learn.Book.{Order, Book, order_at}
use low_latency_learn.Book.Ring.{has}
use low_latency_learn.Matcher.{MeOrderBook, MeOrderKey, trade_update, filled_update, modify_update}
use low_latency_learn.Matcher.Priority.{Beside, queue_after}

-- The updates of a trade with the whole of an order, and with a part of it.
abbrev pub fills : (ticker_id : ℕ) → Side → Order MeOrderKey → List MeMarketUpdate
fills ticker_id side o = trade_update ticker_id side o.price o.qty ∷ filled_update ticker_id o ∷ []

abbrev pub part_fill :
    (ticker_id : ℕ) → Side → Order MeOrderKey → (leaves : ℕ) → List MeMarketUpdate
part_fill ticker_id side o leaves =
    trade_update ticker_id side o.price leaves ∷ modify_update ticker_id o (o.qty - leaves) ∷ []

-- The updates of a trade of `leaves` with a queue.
abbrev pub published :
    (ticker_id : ℕ) → Side → Book MeOrderKey → (leaves : ℕ) → List ℕ → List MeMarketUpdate
published ticker_id side b leaves [] = []
published ticker_id side b leaves (x ∷ xs) =
    let o : Order MeOrderKey = order_at b x in
    let rest = published ticker_id side b (leaves - o.qty) xs in
    if leaves == 0
    then []
    else if ltb leaves o.qty
    then part_fill ticker_id side o leaves
    else fills ticker_id side o ++ rest

-- The market order id of an order and its quantity.
abbrev pub quote_in : Book MeOrderKey → ℕ → ℕ × ℕ
quote_in b a = ((order_at b a).key.market_order_id, (order_at b a).qty)

-- What a trade of `leaves` leaves of a queue of ids and quantities.
abbrev pub left_quotes : (leaves : ℕ) → List (ℕ × ℕ) → List (ℕ × ℕ)
left_quotes leaves [] = []
left_quotes leaves ((k, n) ∷ q) =
    let rest = left_quotes (leaves - n) q in if ltb leaves n then (k, n - leaves) ∷ q else rest

-- The updates of the trades follow what has been sent before, and the queue that is left has the ids
-- and quantities that they leave.
pub record IsPublished (ticker_id : ℕ) (side : Side) (b b' : MeOrderBook) (qty : ℕ → ℕ) (leaves : ℕ)
    (q : List ℕ) : Type 0 where
  pub sent : b'.market_updates ≡ b.market_updates ++ published ticker_id side b.book leaves q
  pub quotes :
      map (quote_in b'.book) (queue_after qty leaves q)
      ≡ left_quotes leaves (map (quote_in b.book) q)

module _ (ticker_id : ℕ) (side : Side) where
  part_fill-data :
      (o o' : Order MeOrderKey) (leaves : ℕ)
      → o'.key ≡ o.key
      → o'.side ≡ o.side
      → o'.price ≡ o.price
      → o'.qty ≡ o.qty
      → o'.priority ≡ o.priority
      → part_fill ticker_id side o' leaves ≡ part_fill ticker_id side o leaves
  part_fill-data o o' leaves k s p q r = rw (k, s, p, q, r) refl

  fills-data :
      (o o' : Order MeOrderKey)
      → o'.key ≡ o.key
      → o'.side ≡ o.side
      → o'.price ≡ o.price
      → o'.qty ≡ o.qty
      → fills ticker_id side o' ≡ fills ticker_id side o
  fills-data o o' k s p q = rw (k, s, p, q) refl

  -- Neither depends on the orders outside of the queue.
  pub published-Beside :
      (x : ℕ) (b b' : Book MeOrderKey) (leaves : ℕ) (xs : List ℕ)
      → Beside x b b'
      → has x xs ≡ false
      → published ticker_id side b' leaves xs ≡ published ticker_id side b leaves xs
  published-Beside x b b' leaves [] k out = refl
  published-Beside x b b' leaves (y ∷ ys) k out =
      let ne : y ≢ x = ground (arith, out) in
      let o = order_at b y in
      let o' = order_at b' y in
      let part =
        part_fill-data o o' leaves (k.keys y ne) (k.sides y ne) (k.prices y ne) (k.qtys y ne)
          (k.priorities y ne) in
      let all = fills-data o o' (k.keys y ne) (k.sides y ne) (k.prices y ne) (k.qtys y ne) in
      let rest =
        published-Beside x b b' (leaves - o'.qty) ys k (ground (arith, out))
        ∙ ap (λ n. published ticker_id side b (leaves - n) ys) (k.qtys y ne) in
      ap₂ (λ l r. if leaves == 0 then [] else if ltb leaves o'.qty then l else r) part
        (ap₂ (λ l r. l ++ r) all rest)
      ∙ ap
          (λ n.
            if leaves == 0
            then []
            else if ltb leaves n
            then part_fill ticker_id side o leaves
            else fills ticker_id side o ++ published ticker_id side b (leaves - o.qty) ys)
          (k.qtys y ne)

pub quotes-Beside :
    (x : ℕ) (b b' : Book MeOrderKey) (xs : List ℕ)
    → Beside x b b'
    → has x xs ≡ false
    → map (quote_in b') xs ≡ map (quote_in b) xs
quotes-Beside x b b' [] k out = refl
quotes-Beside x b b' (y ∷ ys) k out =
    let ne : y ≢ x = ground (arith, out) in
    ap₂ (λ p l. p ∷ l) (ap₂ (λ key n. (key.market_order_id, n)) (k.keys y ne) (k.qtys y ne))
      (quotes-Beside x b b' ys k (ground (arith, out)))

-- ===== src/MarketBook/Mirror.antt =====
-- The trading side's book (trading/strategy/market_order_book.cpp) that reads the market updates of the
-- matching engine's (exchange/matcher/me_order_book.cpp): the best asks of the one mirror those of
-- the other. Trades has the updates of `checkForMatch`, and
-- Adds and Cancels those of an order that joins or leaves them.
pub mod Trades
pub mod Adds
pub mod Cancels
use mathlib.Core.List.{map}
use low_latency_learn.Base.{
  ℕ, ◌-◌, ◌≤◌, ◌<◌, ◌^◌, ◌%◌, ◌≡◌, ◌≢◌, refl, sym, ap, ap₂, ◌∙◌, inl, inr, Bool, true, false, none,
  some, List, [], ◌∷◌, ◌++◌, arith, length, ltb, ◌==◌, if◌then◌else◌, Bool-cases, All, Outcome, ok,
  ◌>>=◌,
}
use mathlib.Core.Path.{subst}
use low_latency_learn.Base.Int.{ltb_ℤ}
use low_latency_learn.Types.{Side, Price}
use low_latency_learn.Messages.{MeMarketUpdate, MarketUpdateType}
use low_latency_learn.Book.{Order, Book, order_at, get_orders_at_price, best_by_price}
use low_latency_learn.Book.Ring.{has, IsDistinct}
use low_latency_learn.Book.Queues.{Holds, HoldsAll}
use low_latency_learn.Matcher.{
  MeOrderBook, MeOrderKey, filled_update, modify_update, check_for_match,
}
use low_latency_learn.Matcher.Priority.{total, qty_in, IsResting, queue_after, IsTraded}
use low_latency_learn.Matcher.Priority.Published.{
  fills, part_fill, published, quote_in, left_quotes, IsPublished,
}
use low_latency_learn.Matcher.Priority.Loop.{check_for_match-Trades}
use low_latency_learn.MarketBook.{MarketOrderBook, is_trade, update_book}
use low_latency_learn.MarketBook.Queue.{
  Quote, IsShown, quote_of, has_id, requote, unquote, after, Shows, AllowedAs, has_id-quotes,
  filed-same,
}
use low_latency_learn.MarketBook.Queue.Changes.{HoldsAll-IsDistinct}
use low_latency_learn.MarketBook.Queue.Best.{quantity}
use low_latency_learn.MarketBook.Queue.Updates.{update_book-IsUpdated, IsUpdated}
use low_latency_learn.MarketBook.Queue.Sides.{with_best}

-- The updates are read one after the other, each up to the call of the trade engine.
abbrev pub read_updates : MarketOrderBook → List MeMarketUpdate → Outcome MarketOrderBook
read_updates m [] = ok m
read_updates m (u ∷ us) = update_book m u >>= λ m'. read_updates m' us

-- The best asks are at this price and show this queue, and the best offer is theirs.
pub record Mirrors (m : MarketOrderBook) (price : Price) (level : ℕ) (q : List Quote) : Type 0 where
  pub shows : Shows m.book price level q
  pub best : m.book.asks_by_price ≡ some level
  pub ask_price : m.bbo.ask_price ≡ price
  pub ask_qty : m.bbo.ask_qty ≡ quantity q % 2 ^ 32

pub Mirrors-update :
    (m : MarketOrderBook) (u : MeMarketUpdate) (price : Price) (level : ℕ) (q : List Quote)
    → Mirrors m price level q
    → u.price ≡ price
    → u.side ≡ Side.sell
    → is_trade u.type ≡ false
    → u.qty < 2 ^ 32
    → AllowedAs u.type m.book u.order_id q
    → (m' : MarketOrderBook) × (update_book m u ≡ ok m') × Mirrors m' price level (after u q)
Mirrors-update m u price level q h here side quiet small a =
    let shows = subst (λ p. Shows m.book p level q) (sym here) h.shows in
    let (m', done, k) =
      update_book-IsUpdated m u level q shows (rw side h.best) (inr side) quiet small a in
    (
      m',
      done,
      record {
        shows = subst (λ p. Shows m'.book p level (after u q)) here k.shows;
        best = ap (λ s. best_by_price m'.book s) (sym side) ∙ k.best;
        ask_price =
            ap (λ b. b.ask_price) k.bbo
            ∙ ap (λ s. (with_best m.bbo s u.price (quantity (after u q) % 2 ^ 32)).ask_price) side
            ∙ here;
        ask_qty =
            ap (λ b. b.ask_qty) k.bbo
            ∙ ap (λ s. (with_best m.bbo s u.price (quantity (after u q) % 2 ^ 32)).ask_qty) side;
      },
    )

pub Mirrors-trade :
    (m : MarketOrderBook) (u : MeMarketUpdate) (price : Price) (level : ℕ) (q : List Quote)
    → Mirrors m price level q
    → is_trade u.type ≡ true
    → (m' : MarketOrderBook) × (update_book m u ≡ ok m') × Mirrors m' price level q
unfolding update_book
Mirrors-trade m u price level q h trade = (m, rw (trade, update_book) refl, h)

-- The ids of a queue differ.
abbrev pub IsOnce : List Quote → Type 0
IsOnce [] = Unit
IsOnce ((k, n) ∷ q) = (has_id k q ≡ false) × IsOnce q

IsOnce-blocks :
    (b : Book ℕ) (price : Price) (xs : List ℕ)
    → IsDistinct xs
    → ((a : ℕ) → has a xs ≡ true → IsShown b price a)
    → IsOnce (map (quote_of b) xs)
IsOnce-blocks b price [] d s = tt
IsOnce-blocks b price (x ∷ xs) d s = (
  elim (Bool-cases (has_id (order_at b x).key (map (quote_of b) xs))) [
    | inr out ↦ out
    | inl i ↦
        let k = (order_at b x).key in
        let (a, inside, same) = has_id-quotes b k xs i in
        let meant = filed-same b price k x a (s x (ground arith)) refl (s a (ground arith)) in
        let one : (x == a) ≡ true = sym meant ∙ ground (arith, same) in ground (arith, one, d.0)
  ],
  IsOnce-blocks b price xs d.1 (λ a i. s a (ground arith)),
)

pub IsOnce-Shows :
    (b : Book ℕ) (price : Price) (level : ℕ) (q : List Quote) → Shows b price level q → IsOnce q
IsOnce-Shows b price level q h =
    subst IsOnce h.quotes
      (IsOnce-blocks b price h.blocks (HoldsAll-IsDistinct b level h.blocks h.queue) h.orders)

pub has_id-map :
    (f : ℕ → Quote) (a : ℕ) (xs : List ℕ) → has a xs ≡ true → has_id (f a).0 (map f xs) ≡ true
has_id-map f a [] h = cc
has_id-map f a (x ∷ xs) h = elim (Bool-cases (a == x)) [
  | inl e ↦
      let same : a ≡ x = ground arith in let ids = ap (λ z. (f z).0) same in ground (arith, ids)
  | inr e ↦ ground (arith, has_id-map f a xs)
]

-- Two nodes of one id are one.
pub IsOnce-same :
    (f : ℕ → Quote) (p a : ℕ) (xs : List ℕ)
    → IsOnce (map f xs)
    → has p xs ≡ true
    → has a xs ≡ true
    → ((f p).0 == (f a).0) ≡ (p == a)
IsOnce-same f p a [] once hp ha = cc
IsOnce-same f p a (x ∷ xs) once hp ha = elim (Bool-cases (p == a)) [
  | inl e ↦
      let same : p ≡ a = ground arith in let ids = ap (λ z. (f z).0) same in ground (arith, ids)
  | inr e ↦ elim (Bool-cases (p == x)) [
    | inl first ↦
        let same : p ≡ x = ground arith in
        let ids = ap (λ z. (f z).0) same in
        let later : has a xs ≡ true = ground (arith, same) in
        ground (arith, ids, has_id-map f a xs later, once.0)
    | inr other ↦ elim (Bool-cases (a == x)) [
      | inl last ↦
          let same : a ≡ x = ground arith in
          let ids = ap (λ z. (f z).0) same in
          let later : has p xs ≡ true = ground (arith, other) in
          ground (arith, ids, has_id-map f p xs later, once.0)
      | inr neither ↦ IsOnce-same f p a xs once.1 (ground arith) (ground arith)
    ]
  ]
]

pub requote-none : (id qty : ℕ) (q : List Quote) → has_id id q ≡ false → requote id qty q ≡ q
requote-none id qty [] h = refl
requote-none id qty ((k, n) ∷ q) h =
    let other : (id == k) ≡ false = ground arith in
    rw other (ap (λ l. (k, n) ∷ l) (requote-none id qty q (ground arith)))

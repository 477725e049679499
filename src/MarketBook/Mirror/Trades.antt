-- ===== src/MarketBook/Mirror/Trades.antt =====
-- The updates that `checkForMatch` (exchange/matcher/me_order_book.cpp) sends for a buy, read by the
-- trading side's book (trading/strategy/market_order_book.cpp).
use mathlib.Core.List.{map}
use low_latency_learn.Base.{
  ℕ, ◌+◌, ◌-◌, ◌≤◌, ◌<◌, ◌^◌, ◌≡◌, refl, sym, ap, ap₂, ◌∙◌, inl, inr, true, false, some, List, [],
  ◌∷◌, ◌++◌, arith, length, ltb, ◌==◌, Bool-cases, All, ok,
}
use mathlib.Core.Path.{subst}
use low_latency_learn.Base.Int.{ltb_ℤ}
use low_latency_learn.Types.{Side, Price}
use low_latency_learn.Messages.{MeMarketUpdate}
use low_latency_learn.Book.{Order, Book, order_at, get_orders_at_price}
use low_latency_learn.Book.Queues.{Holds}
use low_latency_learn.Matcher.{
  MeOrderBook, MeOrderKey, trade_update, filled_update, modify_update, check_for_match,
}
use low_latency_learn.Matcher.Priority.{total, qty_in, IsResting, queue_after}
use low_latency_learn.Matcher.Priority.Published.{
  fills, part_fill, published, quote_in, left_quotes,
}
use low_latency_learn.Matcher.Priority.Loop.{check_for_match-Trades}
use low_latency_learn.MarketBook.{MarketOrderBook}
use low_latency_learn.MarketBook.Queue.{Quote, requote, unquote}
use low_latency_learn.MarketBook.Mirror.{
  Mirrors, read_updates, Mirrors-update, Mirrors-trade, IsOnce-Shows, requote-none,
}

-- What the updates of a queue tell of each of its orders.
pub record IsAsk (price : Price) (o : Order MeOrderKey) : Type 0 where
  pub at_price : o.price ≡ price
  pub on_side : o.side ≡ Side.sell
  pub positive : 0 < o.qty
  pub small : o.qty < 2 ^ 32

-- The updates lead a mirror of the one queue to a mirror of the other.
abbrev Leads : MarketOrderBook → List MeMarketUpdate → Price → (level : ℕ) → List Quote → Type 0
Leads m us price level q =
    (m' : MarketOrderBook) × (read_updates m us ≡ ok m') × Mirrors m' price level q

module _ (ticker_id : ℕ) (side : Side) (price : Price) (level : ℕ) (o : Order MeOrderKey)
    (ask : IsAsk price o) where
  abbrev quote : ℕ → Quote
  quote n = (o.key.market_order_id, n)

  Leads-part :
      (m : MarketOrderBook) (leaves : ℕ) (q : List Quote)
      → Mirrors m price level (quote o.qty ∷ q)
      → Leads m (part_fill ticker_id side o leaves) price level (quote (o.qty - leaves) ∷ q)
  Leads-part m leaves q h =
      let id = o.key.market_order_id in
      let left = o.qty - leaves in
      let (m₁, one, h₁) =
        Mirrors-trade m (trade_update ticker_id side o.price leaves) price level (quote o.qty ∷ q) h
          refl in
      let (m₂, two, h₂) =
        Mirrors-update m₁ (modify_update ticker_id o left) price level (quote o.qty ∷ q) h₁
          ask.at_price ask.on_side refl (omega (arith, ask.small)) (ground arith) in
      let self : (id == id) ≡ true = ground arith in
      let same =
        requote-none id left q (IsOnce-Shows m.book price level (quote o.qty ∷ q) h.shows).0 in
      let queue : requote id left (quote o.qty ∷ q) ≡ quote left ∷ q =
        rw self (ap (λ l. quote left ∷ l) same) in
      (m₂, rw (one, two) refl, subst (Mirrors m₂ price level) queue h₂)

  Leads-fills :
      (m : MarketOrderBook) (us : List MeMarketUpdate) (p : Quote) (q q' : List Quote)
      → Mirrors m price level (quote o.qty ∷ p ∷ q)
      → ((m' : MarketOrderBook) → Mirrors m' price level (p ∷ q) → Leads m' us price level q')
      → Leads m (fills ticker_id side o ++ us) price level q'
  Leads-fills m us p q q' h next =
      let id = o.key.market_order_id in
      let self : (id == id) ≡ true = ground arith in
      let gone : unquote id (quote o.qty ∷ p ∷ q) ≡ p ∷ q = rw self refl in
      let (m₁, one, h₁) =
        Mirrors-trade m (trade_update ticker_id side o.price o.qty) price level
          (quote o.qty ∷ p ∷ q) h refl in
      let (m₂, two, h₂) =
        Mirrors-update m₁ (filled_update ticker_id o) price level (quote o.qty ∷ p ∷ q) h₁
          ask.at_price ask.on_side refl ask.small
          (ground arith, λ e. let bad : (p ∷ q) ≡ [] = sym gone ∙ e in cc) in
      let (m₃, three, h₃) = next m₂ (subst (Mirrors m₂ price level) gone h₂) in
      (m₃, rw (one, two) three, h₃)

module _ (ticker_id : ℕ) (side : Side) (price : Price) (level : ℕ) (b : Book MeOrderKey) where
  Leads-last :
      (m : MarketOrderBook) (leaves x : ℕ) (xs : List ℕ)
      → IsAsk price (order_at b x)
      → ltb leaves (qty_in b x) ≡ true
      → Mirrors m price level (map (quote_in b) (x ∷ xs))
      → Leads m
          (published ticker_id side b leaves (x ∷ xs))
          price
          level
          (left_quotes leaves (map (quote_in b) (x ∷ xs)))
  Leads-last m leaves x xs ask less h = elim (Bool-cases (leaves == 0)) [
    | inl over ↦
        let whole : qty_in b x ≡ qty_in b x - leaves = ground (arith, over) in
        let id = (order_at b x).key.market_order_id in
        rw (over, less)
          (m, refl, subst (λ n. Mirrors m price level ((id, n) ∷ map (quote_in b) xs)) whole h)
    | inr some_left ↦
        rw (some_left, less)
          (Leads-part ticker_id side price level (order_at b x) ask m leaves (map (quote_in b) xs)
            h)
  ]

  Leads-published :
      (m : MarketOrderBook) (leaves : ℕ) (xs : List ℕ)
      → All (λ a. IsAsk price (order_at b a)) xs
      → leaves < total (qty_in b) xs
      → Mirrors m price level (map (quote_in b) xs)
      → Leads m
          (published ticker_id side b leaves xs)
          price
          level
          (left_quotes leaves (map (quote_in b) xs))
  Leads-published m leaves [] asks few h = absurd (omega (arith, few))
  Leads-published m leaves (x ∷ []) asks few h =
      let less : ltb leaves (qty_in b x) ≡ true = ground (arith, few) in
      Leads-last m leaves x [] asks.0 less h
  Leads-published m leaves (x ∷ y ∷ ys) asks few h = elim (Bool-cases (ltb leaves (qty_in b x))) [
    | inl less ↦ Leads-last m leaves x (y ∷ ys) asks.0 less h
    | inr enough ↦
        let some_left : (leaves == 0) ≡ false = ground (arith, enough, asks.0.positive) in
        let o = order_at b x in
        rw (some_left, enough)
          (Leads-fills ticker_id side price level o asks.0 m
            (published ticker_id side b (leaves - qty_in b x) (y ∷ ys)) (quote_in b y)
            (map (quote_in b) ys) (left_quotes (leaves - qty_in b x) (map (quote_in b) (y ∷ ys))) h
            (λ m' h'.
              Leads-published m' (leaves - qty_in b x) (y ∷ ys) asks.1 (ground (arith, few, enough))
                h'))
  ]

-- The books of both sides after a buy at the best ask's price or above, of less than what rests
-- there: the exchange fills it completely, and where a trading book mirrored the queue of the asks
-- before, with its ids and quantities, and reads the updates that the exchange has sent for it, in
-- their order, it mirrors the queue that is left, and its best offer is the price and the quantity
-- of that queue as a 32-bit word. The asks rest at one price, in blocks of the pool, of which there
-- are as many as orders at least, and under places of the array of orders; all quantities are 32-bit
-- words, and those that rest are above 0. Reading is `onMarketUpdate` up to the call of the trade
-- engine, so that the trading book needs no engine.
pub check_for_match-Mirrors :
    (b : MeOrderBook) (m : MarketOrderBook) (client_id client_order_id ticker_id : ℕ)
    (limit price : Price) (qty : ℕ → ℕ) (leaves id level shown x : ℕ) (rest : List ℕ)
    → b.book.asks_by_price ≡ some level
    → get_orders_at_price b.book price ≡ some level
    → ltb_ℤ limit price ≡ false
    → Holds b.book level x rest
    → All (IsResting b.book price qty) (x ∷ rest)
    → All (λ a. (order_at b.book a).side ≡ Side.sell) (x ∷ rest)
    → length (x ∷ rest) ≤ b.book.order_pool.size
    → leaves < 2 ^ 32
    → leaves < total qty (x ∷ rest)
    → Mirrors m price shown (map (quote_in b.book) (x ∷ rest))
    → (b' : MeOrderBook) × (us : List MeMarketUpdate) × (m' : MarketOrderBook) × (check_for_match b
          client_id client_order_id ticker_id Side.buy limit leaves id
        ≡ ok (0, b'))
      × (b'.market_updates ≡ b.market_updates ++ us)
      × (read_updates m us ≡ ok m')
      × Mirrors m' price shown (map (quote_in b'.book) (queue_after qty leaves (x ∷ rest)))
check_for_match-Mirrors b m client_id client_order_id ticker_id limit price qty leaves id level
      shown x rest best at near h r sides fits small few mirror =
    let (b', done, traded, p) =
      check_for_match-Trades b client_id client_order_id ticker_id limit price qty leaves id level x
        rest best at near h r fits small few in
    let (m', read, k) =
      Leads-published ticker_id Side.buy price shown b.book m leaves (x ∷ rest)
        (asks (x ∷ rest) r sides) (subst (λ n. leaves < n) (same_total (x ∷ rest) r) few) mirror in
    (
      b',
      published ticker_id Side.buy b.book leaves (x ∷ rest),
      m',
      done,
      p.sent,
      read,
      subst (Mirrors m' price shown) (sym p.quotes) k,
    )
  where
    asks :
        (xs : List ℕ)
        → All (IsResting b.book price qty) xs
        → All (λ a. (order_at b.book a).side ≡ Side.sell) xs
        → All (λ a. IsAsk price (order_at b.book a)) xs
    asks [] r s = tt
    asks (y ∷ ys) r s = (
      record {
        at_price = r.0.at_price;
        on_side = s.0;
        positive = omega (arith, r.0.quantity, r.0.positive);
        small = omega (arith, r.0.quantity, r.0.small);
      },
      asks ys r.1 s.1,
    )

    same_total :
        (xs : List ℕ)
        → All (IsResting b.book price qty) xs
        → total qty xs ≡ total (qty_in b.book) xs
    same_total [] r = refl
    same_total (y ∷ ys) r = ap₂ (λ n k. n + k) (sym r.0.quantity) (same_total ys r.1)

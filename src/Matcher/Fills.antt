-- ===== src/Matcher/Fills.antt =====
-- exchange/matcher/me_order_book.cpp, `match` and `checkForMatch`: what an incoming order trades.
use mathlib.Core.List.{append_assoc, append-nil}
use low_latency_learn.Base.{
  ℕ, zero, suc, ◌+◌, ◌%◌, ◌^◌, ◌<◌, ◌≡◌, ◌≢◌, refl, sym, ◌⊎◌, inl, inr, true, false, Option, none,
  some, List, [], ◌∷◌, ◌++◌, ◌==◌, min, arith, ok, failed, out_of_fuel, ◌>>=◌, Bool-cases,
  Option-cases, All, All-append, Ends, Ends-bind, Ends-mono,
}
use low_latency_learn.Base.Int.{ltb_ℤ, ◌≤ℤ◌}
use low_latency_learn.Types.{Side, Price, sub32}
use low_latency_learn.Messages.{MeMarketUpdate, MarketUpdateType}
use low_latency_learn.MemPool.Used.{used, used-le-size}
use low_latency_learn.Book.{Book, Order, order_at, level_at, put_order, remove_order}
use low_latency_learn.Book.Pools.{remove_order-Ends}
use low_latency_learn.Matcher.{
  MeOrderBook, MeOrderKey, slot, order_index, match_order, match_loop, check_for_match,
  trade_update, modify_update, filled_update,
}

-- The quantity that the TRADE updates of a list report.
pub traded : List MeMarketUpdate → ℕ
traded [] = 0
traded (u ∷ us) = elim u.type [ MarketUpdateType.trade ↦ u.qty + traded us | _ ↦ traded us ]

-- An update other than a trade, or a trade at `price` or below.
abbrev pub NotAbove : Price → MeMarketUpdate → Type 0
NotAbove price u = elim u.type [ MarketUpdateType.trade ↦ u.price ≤ℤ price | _ ↦ Unit ]

traded-append : (us vs : List MeMarketUpdate) → traded (us ++ vs) ≡ traded us + traded vs
unfolding traded
traded-append [] vs = omega arith
traded-append (u ∷ us) vs = ground (arith, traded-append us vs)

-- What one call of `match` does to the outgoing updates and to the pool.
record Step (b b' : MeOrderBook) (itr leaves leaves' : ℕ) : Type 0 where
  sent : List MeMarketUpdate
  appended : b'.market_updates ≡ b.market_updates ++ sent
  fill : traded sent + leaves' ≡ leaves
  priced : All (NotAbove (order_at b.book itr).price) sent
  falls : (leaves' ≡ 0) ⊎ (used b'.book.order_pool + 1 ≡ used b.book.order_pool)

abbrev StepTo : MeOrderBook → (itr leaves : ℕ) → ℕ × MeOrderBook → Type 0
StepTo b itr leaves r = Step b r.1 itr leaves r.0

pub slot-ne_out_of_fuel : (k : MeOrderKey) → slot k ≢ failed out_of_fuel
unfolding order_index
slot-ne_out_of_fuel k = ground arith

match_order-Ends :
    (b : MeOrderBook) (ticker_id client_id : ℕ) (side : Side) (client_order_id id itr leaves : ℕ)
    → leaves < 2 ^ 32
    → Ends
        (StepTo b itr leaves)
        (match_order b ticker_id client_id side client_order_id id itr leaves)
unfolding match_order traded
match_order-Ends b ticker_id client_id side client_order_id id itr leaves small =
    let o : Order MeOrderKey = order_at b.book itr in
    let fill = min leaves o.qty in
    let left = sub32 o.qty fill in
    let trade : MeMarketUpdate = trade_update ticker_id side o.price fill in
    let book : Book MeOrderKey = put_order b.book itr (record o { qty = left }) in
    elim (Bool-cases (left == 0)) [
      | inr more ↦
          let change : MeMarketUpdate = modify_update ticker_id o left in
          rw more (record {
            sent = trade ∷ change ∷ [];
            appended = append_assoc b.market_updates (trade ∷ []) (change ∷ []);
            fill = ground arith;
            priced = (omega arith, (tt, tt));
            falls = inl (ground arith);
          })
      | inl gone ↦
          let over : MeMarketUpdate = filled_update ticker_id o in
          rw gone (
            Ends-bind _ (StepTo b itr leaves) (remove_order slot book itr) _
              (remove_order-Ends slot book itr slot-ne_out_of_fuel)
              (λ book' e. record {
                sent = trade ∷ over ∷ [];
                appended = append_assoc b.market_updates (trade ∷ []) (over ∷ []);
                fill = ground arith;
                priced = (omega arith, (tt, tt));
                falls = inr e.0;
              }))
    ]

NotAbove-weaken : (p q : Price) (u : MeMarketUpdate) → p ≤ℤ q → NotAbove p u → NotAbove q u
NotAbove-weaken p q u h a = go u.type a
  where
    Bound : Price → MarketUpdateType → Type 0
    Bound r t = elim t [ MarketUpdateType.trade ↦ u.price ≤ℤ r | _ ↦ Unit ]

    go : (t : MarketUpdateType) → Bound p t → Bound q t
    go MarketUpdateType.trade k = omega arith
    go _ k = tt

All-weaken :
    (p q : Price) (us : List MeMarketUpdate) → p ≤ℤ q → All (NotAbove p) us → All (NotAbove q) us
All-weaken p q [] h a = tt
All-weaken p q (u ∷ us) h a = (NotAbove-weaken p q u h a.0, All-weaken p q us h a.1)

-- Why the loop over the opposite side stopped: nothing is left to fill, the side is empty, or the
-- first order of its best level has a price above the limit.
abbrev pub Stopped : (Book MeOrderKey → Option ℕ) → Price → Book MeOrderKey → ℕ → Type 0
Stopped opposite price b leaves =
    (leaves ≡ 0)
    ⊎ (opposite b ≡ none)
    ⊎ ((level : ℕ) × (first : ℕ) × (opposite b ≡ some level)
        × ((level_at b level).first_order ≡ some first)
        × (ltb_ℤ price (order_at b first).price ≡ true))

-- `leaves` of `qty` are left, the rest was traded at prices not above the limit, and the loop had a
-- reason to stop.
pub record Matched (opposite : Book MeOrderKey → Option ℕ) (price : Price) (qty : ℕ)
    (b : MeOrderBook) (leaves : ℕ) (b' : MeOrderBook) : Type 0 where
  pub sent : List MeMarketUpdate
  pub appended : b'.market_updates ≡ b.market_updates ++ sent
  pub filled : traded sent + leaves ≡ qty
  pub priced : All (NotAbove price) sent
  pub stopped : Stopped opposite price b'.book leaves

abbrev MatchedTo : (Book MeOrderKey → Option ℕ) → Price → ℕ → MeOrderBook → ℕ × MeOrderBook → Type 0
MatchedTo opposite price qty b r = Matched opposite price qty b r.0 r.1

module _ (opposite : Book MeOrderKey → Option ℕ) (price : Price) (b : MeOrderBook) where
  halted : (qty : ℕ) → Stopped opposite price b.book qty → Matched opposite price qty b qty b
  unfolding traded
  halted qty why = record {
    sent = [];
    appended = sym (append-nil b.market_updates);
    filled = omega arith;
    priced = tt;
    stopped = why;
  }

  -- A round before the others.
  prepend :
      (itr qty leaves : ℕ) (b' : MeOrderBook) (r : ℕ × MeOrderBook)
      → ltb_ℤ price (order_at b.book itr).price ≡ false
      → Step b b' itr qty leaves
      → MatchedTo opposite price leaves b' r
      → MatchedTo opposite price qty b r
  prepend itr qty leaves b' r within s m = record {
    sent = s.sent ++ m.sent;
    appended = ground (arith, s.appended, m.appended, append_assoc b.market_updates s.sent m.sent);
    filled = omega (arith, traded-append s.sent m.sent, s.fill, m.filled);
    priced =
        All-append (NotAbove price) s.sent m.sent
          (All-weaken (order_at b.book itr).price price s.sent (ground arith) s.priced) m.priced;
    stopped = m.stopped;
  }

module _ (opposite : Book MeOrderKey → Option ℕ) (client_id client_order_id ticker_id : ℕ)
    (side : Side) (price : Price) (id : ℕ) where
  match_loop-Ends :
      (fuel : ℕ) (b : MeOrderBook) (qty : ℕ)
      → qty < 2 ^ 32
      → ((qty ≡ 0) × (0 < fuel)) ⊎ (used b.book.order_pool + 1 < fuel)
      → Ends
          (MatchedTo opposite price qty b)
          (match_loop fuel b opposite client_id client_order_id ticker_id side price qty id)
  unfolding match_loop
  match_loop-Ends zero b qty small enough = absurd (omega arith)
  match_loop-Ends (suc fuel) b qty small enough = elim (Option-cases (opposite b.book)) [
    | inl empty ↦ rw (stop (inr (inl empty))) (halted opposite price b qty (inr (inl empty)))
    | inr (level, found) ↦ elim (Bool-cases (qty == 0)) [
      | inl filled ↦ let why = inl (ground arith) in rw (stop why) (halted opposite price b qty why)
      | inr more ↦ elim (Option-cases (level_at b.book level).first_order) [
        | inl null ↦ rw (found, more, null, match_loop) (λ e. cc)
        | inr (itr, first) ↦ elim (Bool-cases (ltb_ℤ price (order_at b.book itr).price)) [
          | inl above ↦
              let why = inr (inr (level, itr, found, first, above)) in
              rw (stop why) (halted opposite price b qty why)
          | inr within ↦
              let one = match_order b ticker_id client_id side client_order_id id itr qty in
              let more_rounds = λ (r : ℕ × MeOrderBook).
                match_loop fuel r.1 opposite client_id client_order_id ticker_id side price r.0
                  id in
              let round : match_loop (suc fuel) b opposite client_id client_order_id ticker_id side
                    price qty id
                  ≡ (one >>= more_rounds) =
                rw (found, more, first, within, match_loop) in
              rw round (
                Ends-bind _ (MatchedTo opposite price qty b) one more_rounds
                  (match_order-Ends b ticker_id client_id side client_order_id id itr qty small)
                  (λ r s.
                    Ends-mono (MatchedTo opposite price r.0 r.1) _ (more_rounds r)
                      (λ r' m. prepend opposite price b itr qty r.0 r.1 r' within s m)
                      (match_loop-Ends fuel r.1 r.0 (omega (arith, s.fill))
                        (ground (arith, s.falls)))))
        ]
      ]
    ]
  ]
    where
      stop :
          Stopped opposite price b.book qty
          → match_loop (suc fuel) b opposite client_id client_order_id ticker_id side price qty id
            ≡ ok (qty, b)
      stop why = ground arith

-- The side that an incoming order is matched against.
abbrev pub opposite : Side → Book MeOrderKey → Option ℕ
opposite Side.buy b = b.asks_by_price
opposite Side.sell b = b.bids_by_price
opposite Side.invalid b = none

-- `checkForMatch` comes to an end: the fuel of the model is never used up. Where it returns, the
-- quantity of the trades it reports and what is left add up to the quantity of the order, no trade
-- is priced above the limit, and it stopped because nothing was left to fill, because the opposite
-- side was empty, or at a first order priced above the limit. All this holds of a buy and a sell.
pub check_for_match-Ends :
    (b : MeOrderBook) (client_id client_order_id ticker_id : ℕ) (side : Side) (price : Price)
    (qty id : ℕ)
    → qty < 2 ^ 32
    → Ends
        (λ r. Matched (opposite side) price qty b r.0 r.1)
        (check_for_match b client_id client_order_id ticker_id side price qty id)
unfolding check_for_match
check_for_match-Ends b client_id client_order_id ticker_id Side.buy price qty id small =
    match_loop-Ends _ client_id client_order_id ticker_id Side.buy price (id % 2 ^ 32) _ b qty small
      (omega (arith, used-le-size b.book.order_pool))
check_for_match-Ends b client_id client_order_id ticker_id Side.sell price qty id small =
    match_loop-Ends _ client_id client_order_id ticker_id Side.sell price (id % 2 ^ 32) _ b qty
      small (omega (arith, used-le-size b.book.order_pool))
check_for_match-Ends b client_id client_order_id ticker_id Side.invalid price qty id small =
    halted (opposite Side.invalid) price b qty (inr (inl refl))

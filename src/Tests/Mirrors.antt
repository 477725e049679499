-- ===== src/Tests/Mirrors.antt =====
-- Tests of the trading side's book (trading/strategy/market_order_book.cpp).
use mathlib.Core.List.{map}
use low_latency_learn.Base.{
  ℕ, ◌*◌, ◌+◌, ◌-◌, ◌*◌, ◌≡◌, refl, inr, none, some, false, List, [], ◌∷◌, ◌==◌, ltb, not, arith,
  if◌then◌else◌, ok,
}
use low_latency_learn.Base.Int.{pos}
use low_latency_learn.Types.{Side, me_max_order_ids}
use low_latency_learn.Messages.{MeMarketUpdate, MarketUpdateType}
use low_latency_learn.MemPool.{mem_pool}
use low_latency_learn.Book.{Order, Book, get_orders_at_price}
use low_latency_learn.Matcher.{
  MeOrderBook, check_for_match, rest_order, order_index, cancel, find_order,
}
use low_latency_learn.Matcher.Priority.Published.{quote_in}
use low_latency_learn.Positions.{bbo_default}
use low_latency_learn.MarketBook.{MarketOrderBook, notify, notice_of, update_book, on_market_update}
use low_latency_learn.MarketBook.First.{IsOnlyBid, on_market_update-IsOnlyBid}
use low_latency_learn.MarketBook.Queue.{Shows}
use low_latency_learn.MarketBook.Queue.Updates.{IsUpdated, on_market_update-IsUpdated}
use low_latency_learn.MarketBook.Mirror.{Mirrors, read_updates}
use low_latency_learn.MarketBook.Mirror.Trades.{check_for_match-Mirrors}
use low_latency_learn.MarketBook.Mirror.Adds.{rest_order-Mirrors}
use low_latency_learn.MarketBook.Mirror.Cancels.{cancel-Mirrors}
use low_latency_learn.Book.Queues.{HoldsAll}
use low_latency_learn.Tests.Rings.{level, book, two_orders-Holds, two_orders-IsResting}

-- The mirror of two orders to sell 5 each at 100, with the ids 1 and 2.
abbrev shown : ℕ → Order ℕ
shown a = record {
  key = a + 1;
  side = Side.sell;
  price = pos 100;
  qty = 5;
  priority = a + 1;
  prev_order = some (if a == 0 then 1 else 0);
  next_order = some (if a == 0 then 1 else 0);
}

abbrev pub shown_book : Book ℕ
shown_book = record {
  slot_to_order = λ id. some (id - 1);
  orders_at_price_pool = record {
    size = 8;
    object = level Side.sell;
    is_free = λ a. not (a == 0);
    next_free_index = 1;
  };
  bids_by_price = none;
  asks_by_price = some 0;
  price_orders_at_price = λ _. some 0;
  order_pool = record {
    size = 8;
    object = shown;
    is_free = λ a. not (ltb a 2);
    next_free_index = 2;
  };
}

abbrev pub mirror : MarketOrderBook
mirror = record {
  ticker_id = 2;
  has_trade_engine = false;
  book = shown_book;
  bbo = record bbo_default { ask_price = pos 100; ask_qty = 10 };
  notices = [];
}

pub shown_book-Shows : Shows shown_book (pos 100) 0 ((1, 5) ∷ (2, 5) ∷ [])
unfolding get_orders_at_price
shown_book-Shows = record {
  blocks = 0 ∷ 1 ∷ [];
  queue = record {
    first = refl;
    ring = (((refl, refl), tt), (refl, refl));
    distinct = (refl, (refl, tt));
  };
  quotes = refl;
  orders = λ a i. record {
    at_price = refl;
    has_place = ground (arith, i);
    filed = ground (arith, i);
    small = omega arith;
    in_use = ground (arith, i);
    in_pool = ground (arith, i);
  };
  found = refl;
  level_price = refl;
  valid = record { in_store = omega arith; next_is_free = refl };
}

mirror-Mirrors : Mirrors mirror (pos 100) 0 (map (quote_in book.book) (0 ∷ 1 ∷ []))
mirror-Mirrors = record { shows = shown_book-Shows; best = refl; ask_price = refl; ask_qty = refl }

check_for_match-Mirrors_example :
    (b' : MeOrderBook) × (us : List MeMarketUpdate) × (m' : MarketOrderBook) × (check_for_match book
        4 1 2 Side.buy
        (pos 101)
        7
        3
      ≡ ok (0, b'))
    × (b'.market_updates ≡ us)
    × (read_updates mirror us ≡ ok m')
    × Mirrors m' (pos 100) 0 (map (quote_in b'.book) (1 ∷ []))
unfolding get_orders_at_price
check_for_match-Mirrors_example =
    check_for_match-Mirrors book mirror 4 1 2 (pos 101) (pos 100) (λ _. 5) 7 3 0 0 0 (1 ∷ []) refl
      refl refl two_orders-Holds two_orders-IsResting (refl, (refl, tt)) (omega arith) (omega arith)
      (omega arith) mirror-Mirrors

rest_order-Mirrors_example :
    (b' : MeOrderBook) × (u : MeMarketUpdate) × (m' : MarketOrderBook) × (rest_order book 1 7 2
        Side.sell
        (pos 100)
        4
        3
      ≡ ok b')
    × (b'.market_updates ≡ u ∷ [])
    × (update_book mirror u ≡ ok m')
    × Mirrors m' (pos 100) 0 (map (quote_in b'.book) (0 ∷ 1 ∷ 2 ∷ []))
unfolding get_orders_at_price order_index
rest_order-Mirrors_example =
    rest_order-Mirrors book mirror 1 7 2 (pos 100) 4 3 2_134_023 3 0 0 0 (1 ∷ [])
      (record { in_store = omega arith; next_is_free = refl }) (omega arith) (omega arith) refl refl
      two_orders-Holds refl (omega arith, tt) (omega arith) refl (omega arith) refl refl
      (record {
        valid = record { in_store = omega arith; next_is_free = refl };
        second = 3;
        in_store = omega arith;
        other = omega arith;
        is_free = refl;
      })
      mirror-Mirrors

-- Client 2 cancels its first order.
abbrev filed : MeOrderBook
filed = record book { book = record (book.book) { slot_to_order = λ i. some 0 } }

cancel-Mirrors_example :
    (b' : MeOrderBook) × (u : MeMarketUpdate) × (m' : MarketOrderBook) × (cancel filed 2 0 2
      ≡ ok b')
    × (b'.market_updates ≡ u ∷ [])
    × (update_book mirror u ≡ ok m')
    × HoldsAll b'.book 0 (1 ∷ [])
    × Mirrors m' (pos 100) 0 (map (quote_in b'.book) (1 ∷ []))
unfolding get_orders_at_price order_index find_order
cancel-Mirrors_example =
    cancel-Mirrors filed mirror 2 0 2 0 (2 * me_max_order_ids) (pos 100) 0 0 (0 ∷ 1 ∷ []) refl refl
      (record {
        first = refl;
        ring = (((refl, refl), tt), (refl, refl));
        distinct = (refl, (refl, tt));
      })
      refl (λ e. cc) refl refl (record { place = refl; in_use = refl; in_pool = omega arith })
      mirror-Mirrors

-- The second order of the mirror leaves.
abbrev pub leaving : MeMarketUpdate
leaving = record {
  type = MarketUpdateType.cancel;
  order_id = 2;
  ticker_id = 2;
  side = Side.sell;
  price = pos 100;
  qty = 0;
  priority = 2;
}

on_market_update-IsUpdated_example :
    (b' : MarketOrderBook) × (update_book mirror leaving ≡ ok b')
    × IsUpdated mirror b' leaving 0 ((1, 5) ∷ [])
    × (on_market_update mirror leaving ≡ notify b' (notice_of leaving))
on_market_update-IsUpdated_example =
    on_market_update-IsUpdated mirror leaving 0 ((1, 5) ∷ (2, 5) ∷ []) shown_book-Shows refl
      (inr refl) refl (omega arith) (refl, λ e. cc)

-- The first bid of an empty book.
abbrev empty_book : MarketOrderBook
empty_book = record mirror {
  book = record shown_book {
    slot_to_order = λ _. none;
    asks_by_price = none;
    price_orders_at_price = λ _. none;
    order_pool = mem_pool 8 (shown 0);
    orders_at_price_pool = mem_pool 8 (level Side.buy 0);
  };
  bbo = bbo_default;
}

abbrev first_bid : MeMarketUpdate
first_bid = record leaving { type = MarketUpdateType.add; side = Side.buy; qty = 4 }

on_market_update-IsOnlyBid_example :
    (b' : MarketOrderBook) × (update_book empty_book first_bid ≡ ok b')
    × IsOnlyBid b'.book first_bid 0 0
    × (b'.bbo ≡ bbo_default)
    × (on_market_update empty_book first_bid ≡ notify b' (notice_of first_bid))
unfolding get_orders_at_price
on_market_update-IsOnlyBid_example =
    on_market_update-IsOnlyBid empty_book first_bid refl refl refl refl refl
      (record {
        valid = record { in_store = omega arith; next_is_free = refl };
        second = 1;
        in_store = omega arith;
        other = omega arith;
        is_free = refl;
      })
      (record {
        valid = record { in_store = omega arith; next_is_free = refl };
        second = 1;
        in_store = omega arith;
        other = omega arith;
        is_free = refl;
      })

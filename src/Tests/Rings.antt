-- ===== src/Tests/Rings.antt =====
-- Tests of the rings of orders and levels of exchange/matcher.
use low_latency_learn.Base.{
  ℕ, ◌+◌, ◌*◌, ◌≡◌, ◌≢◌, refl, none, some, [], ◌∷◌, All, ◌==◌, ltb, not, arith, if◌then◌else◌, ok,
}
use low_latency_learn.Base.Int.{pos}
use low_latency_learn.Types.{Side, me_max_order_ids}
use low_latency_learn.Book.{
  Order, OrdersAtPrice, Book, order_at, add_orders_at_price, insert_before, get_orders_at_price,
}
use low_latency_learn.Book.Ring.{Ring, IsDistinct}
use low_latency_learn.Book.Queues.{Holds}
use low_latency_learn.Book.Levels.{next_level, prev_level, add_orders_at_price-buy}
use low_latency_learn.Book.Lost.{insert_before_twice}
use low_latency_learn.Matcher.{MeOrderBook, MeOrderKey, rest_order, order_index, check_for_match}
use low_latency_learn.Matcher.Priority.{IsTraded, IsResting}
use low_latency_learn.Matcher.Priority.Published.{IsPublished}
use low_latency_learn.Matcher.Priority.Loop.{check_for_match-Trades}
use low_latency_learn.Matcher.Resting.{Joined, add_update, rest_order-Joined}

-- Two orders to sell at 100, in the blocks 0 and 1, the second one behind the first.
abbrev queued : ℕ → Order MeOrderKey
queued a = record {
  key = record { client_id = 2; ticker_id = 1; client_order_id = a; market_order_id = a + 1 };
  side = Side.sell;
  price = pos 100;
  qty = 5;
  priority = a + 1;
  prev_order = some (if a == 0 then 1 else 0);
  next_order = some (if a == 0 then 1 else 0);
}

-- Levels in the block 0, and free ones that come after it.
abbrev pub level : Side → ℕ → OrdersAtPrice
level side a = record {
  side = side;
  price = pos (if a == 0 then 100 else 110);
  first_order = some 0;
  prev_entry = some 0;
  next_entry = some 0;
}

abbrev pub two_orders : Side → Book MeOrderKey
two_orders side = record {
  slot_to_order = λ _. none;
  orders_at_price_pool = record {
    size = 8;
    object = level side;
    is_free = λ a. not (a == 0);
    next_free_index = 1;
  };
  bids_by_price = some 0;
  asks_by_price = some 0;
  price_orders_at_price = λ _. some 0;
  order_pool = record {
    size = 8;
    object = queued;
    is_free = λ a. not (ltb a 2);
    next_free_index = 2;
  };
}

abbrev pub book : MeOrderBook
book = record {
  ticker_id = 2;
  book = two_orders Side.sell;
  next_market_order_id = 3;
  client_responses = [];
  market_updates = [];
}

pub two_orders-Holds : Holds (two_orders Side.sell) 0 0 (1 ∷ [])
two_orders-Holds = record {
  first = refl;
  ring = (((refl, refl), tt), (refl, refl));
  distinct = (refl, (refl, tt));
}

pub two_orders-IsResting : All (IsResting (two_orders Side.sell) (pos 100) (λ _. 5)) (0 ∷ 1 ∷ [])
unfolding order_index
two_orders-IsResting = (
  record {
    at_price = refl;
    quantity = refl;
    positive = omega arith;
    small = omega arith;
    in_use = refl;
    in_pool = omega arith;
    place = 2 * me_max_order_ids;
    has_place = refl;
  },
  (
    record {
      at_price = refl;
      quantity = refl;
      positive = omega arith;
      small = omega arith;
      in_use = refl;
      in_pool = omega arith;
      place = 2 * me_max_order_ids + 1;
      has_place = refl;
    },
    tt,
  ),
)

rest_order-Joined_example :
    (b' : MeOrderBook) × (rest_order book 1 7 2 Side.sell (pos 100) 4 3 ≡ ok b')
    × Joined (two_orders Side.sell) b'.book 0 0 (1 ∷ []) 2 Side.sell (pos 100) 4
    × ((order_at b'.book 2).key.market_order_id ≡ 3)
    × (b'.market_updates ≡ add_update 3 2 Side.sell (pos 100) 4 3 ∷ [])
unfolding get_orders_at_price order_index
rest_order-Joined_example =
    rest_order-Joined book 1 7 2 Side.sell (pos 100) 4 3 2_134_023 3 0 0 (1 ∷ [])
      (record { in_store = omega arith; next_is_free = refl }) (omega arith) (omega arith) refl refl
      two_orders-Holds refl (omega arith, tt) (omega arith) refl

-- The level at 110 goes behind the better one at 100 only because it is the newer one.
add_orders_at_price-buy_example :
    (b' : Book MeOrderKey) × (add_orders_at_price (two_orders Side.buy) 1 ≡ ok b')
    × (b'.bids_by_price ≡ some 0)
    × Ring (next_level b') (prev_level b') 0 (1 ∷ [])
    × IsDistinct (0 ∷ 1 ∷ [])
    × (get_orders_at_price b' (pos 110) ≡ some 1)
add_orders_at_price-buy_example =
    add_orders_at_price-buy (two_orders Side.buy) 1 0 [] refl refl refl (tt, (refl, refl))
      (refl, tt) refl (omega arith)

insert_before_twice_example :
    (b₁ : Book MeOrderKey) × (b₂ : Book MeOrderKey) × (insert_before (two_orders Side.sell) 1 0 0
      ≡ ok b₁)
    × (next_level b₁ 0 ≡ some 1)
    × (insert_before b₁ 2 0 0 ≡ ok b₂)
    × (next_level b₂ 0 ≡ some 2)
    × ((a : ℕ) → next_level b₂ a ≢ some 1)
insert_before_twice_example =
    insert_before_twice (two_orders Side.sell) 1 2 0 0 0 refl (omega arith) (omega arith)
      (omega arith) (refl, refl) (refl, refl) (λ a. ground arith)

-- A buy of 7 takes the 5 of the first order and 2 of the second.
check_for_match-Trades_example :
    (b' : MeOrderBook) × (check_for_match book 4 1 2 Side.buy (pos 101) 7 3 ≡ ok (0, b'))
    × IsTraded b'.book 0 (λ _. 5) 7 (0 ∷ 1 ∷ [])
    × IsPublished 2 Side.buy book b' (λ _. 5) 7 (0 ∷ 1 ∷ [])
unfolding get_orders_at_price
check_for_match-Trades_example =
    check_for_match-Trades book 4 1 2 (pos 101) (pos 100) (λ _. 5) 7 3 0 0 (1 ∷ []) refl refl refl
      two_orders-Holds two_orders-IsResting (omega arith) (omega arith) (omega arith)

-- ===== src/Tests/Printing.antt =====
-- Tests of the text of a book of exchange/matcher/me_order_book.cpp.
use Prim.Native.String.{String}
use low_latency_learn.Base.{
  ℕ, ◌+◌, ◌-◌, ◌≡◌, refl, none, some, [], ◌∷◌, ◌==◌, ltb, not, arith, if◌then◌else◌, failed, false,
  true, exit_failure,
}
use low_latency_learn.Base.Int.{ℤ, pos}
use low_latency_learn.Types.{Side}
use low_latency_learn.Book.{Order, OrdersAtPrice}
use low_latency_learn.Matcher.{MeOrderBook, MeOrderKey}
use low_latency_learn.Matcher.Printer.{me_order_book_to_string}
use low_latency_learn.Matcher.Printer.Sorted.{HoldsSide, me_order_book_to_string-Checks}

-- Two bids, at 100 and, behind it, at 110.
abbrev alone : ℕ → Order MeOrderKey
alone a = record {
  key = record { client_id = 2; ticker_id = 1; client_order_id = a; market_order_id = a + 1 };
  side = Side.buy;
  price = pos (if a == 0 then 100 else 110);
  qty = 5;
  priority = 1;
  prev_order = some a;
  next_order = some a;
}

abbrev levels : ℕ → OrdersAtPrice
levels a = record {
  side = Side.buy;
  price = pos (if a == 0 then 100 else 110);
  first_order = some a;
  prev_entry = some (1 - a);
  next_entry = some (1 - a);
}

abbrev unsorted : MeOrderBook
unsorted = record {
  ticker_id = 2;
  book = record {
    slot_to_order = λ _. none;
    orders_at_price_pool = record {
      size = 8;
      object = levels;
      is_free = λ a. not (ltb a 2);
      next_free_index = 2;
    };
    bids_by_price = some 0;
    asks_by_price = none;
    price_orders_at_price = λ _. none;
    order_pool = record {
      size = 8;
      object = alone;
      is_free = λ a. not (ltb a 2);
      next_free_index = 2;
    };
  };
  next_market_order_id = 3;
  client_responses = [];
  market_updates = [];
}

abbrev shown : ℤ → String
shown n = "1"

abbrev widened : ℤ → String → String
widened width text = text

-- The second bid is above the first one.
me_order_book_to_string-Checks_example :
    me_order_book_to_string shown widened unsorted false true ≡ failed exit_failure
me_order_book_to_string-Checks_example =
    me_order_book_to_string-Checks shown widened unsorted false [] (0 ∷ 1 ∷ []) HoldsSide.empty (
      HoldsSide.ring 0 (1 ∷ []) (((refl, refl), tt), (refl, refl)) (refl, (refl, tt))
        (λ a h. ground (arith, h))
        (
          record {
            oldest = 0;
            rest = [];
            queue = record { first = refl; ring = (tt, (refl, refl)); distinct = (refl, tt) };
            in_pool = λ a h. ground (arith, h);
          },
          (
            record {
              oldest = 1;
              rest = [];
              queue = record { first = refl; ring = (tt, (refl, refl)); distinct = (refl, tt) };
              in_pool = λ a h. ground (arith, h);
            },
            tt,
          ),
        ))

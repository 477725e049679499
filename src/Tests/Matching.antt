-- ===== src/Tests/Matching.antt =====
-- Tests of exchange/matcher.
use low_latency_learn.Base.{
  ◌+◌, ◌*◌, ◌≡◌, refl, none, some, [], ◌++◌, arith, update, length, Outcome, ok, failed,
  exit_failure, Ends,
}
use low_latency_learn.Base.Int.{pos}
use low_latency_learn.Types.{Side, price_invalid}
use low_latency_learn.MemPool.{mem_pool, allocate, deallocate, update_next_free_index, find_free}
use low_latency_learn.LfQueue.{lf_queue, get_next_to_read}
use low_latency_learn.LfQueue.Contents.{contents, HasRoom}
use low_latency_learn.Messages.{
  ClientRequestType, me_client_request_default, me_client_response_default,
  me_market_update_default,
}
use low_latency_learn.Book.{
  Order, OrdersAtPrice, add_order, remove_order, link_order, unlink_order, add_orders_at_price,
  remove_orders_at_price, insert_behind, insert_before, place_level, become_best, find_target,
  goes_after, get_orders_at_price, price_to_index,
}
use low_latency_learn.Matcher.{
  MeOrderBook, MeOrderKey, add, cancel, check_for_match, send_client_response, find_order,
  match_loop, match_order, rest_order, get_next_priority, order_index,
}
use low_latency_learn.Matcher.Engine.{MatchingEngine, run_round, run_book}
use low_latency_learn.Matcher.Fills.{check_for_match-Ends, Matched, opposite}
use low_latency_learn.Matcher.Cancels.{cancel-add, cancel-Ends, cancel_rejected, Answered}
use low_latency_learn.Matcher.Requests.{run_round-cancel, run_book-sends}

abbrev no_order : Order MeOrderKey
no_order = record {
  key = record { client_id = 0; ticker_id = 0; client_order_id = 0; market_order_id = 0 };
  side = Side.invalid;
  price = price_invalid;
  qty = 0;
  priority = 0;
  prev_order = none;
  next_order = none;
}

abbrev no_level : OrdersAtPrice
no_level = record {
  side = Side.invalid;
  price = price_invalid;
  first_order = none;
  prev_entry = none;
  next_entry = none;
}

-- A book with small pools.
abbrev empty : MeOrderBook
empty = record {
  ticker_id = 2;
  book = record {
    slot_to_order = λ _. none;
    orders_at_price_pool = mem_pool 8 no_level;
    bids_by_price = none;
    asks_by_price = none;
    price_orders_at_price = λ _. none;
    order_pool = mem_pool 8 no_order;
  };
  next_market_order_id = 1;
  client_responses = [];
  market_updates = [];
}

abbrev or_empty : Outcome MeOrderBook → MeOrderBook
or_empty (ok b) = b
or_empty (failed e) = empty

-- Client 1 sells 5 at 100 in instrument 2.
resting : MeOrderBook
unfolding add check_for_match match_loop match_order rest_order get_next_priority order_index
    add_order remove_order link_order unlink_order add_orders_at_price remove_orders_at_price
    insert_behind insert_before place_level become_best find_target goes_after get_orders_at_price
    price_to_index allocate deallocate update_next_free_index find_free
resting = or_empty (add empty 1 7 2 Side.sell (pos 100) 5)

resting_returns : add empty 1 7 2 Side.sell (pos 100) 5 ≡ ok resting
unfolding resting
resting_returns = refl

check_for_match-Ends_example :
    Ends
      (λ r. Matched (opposite Side.buy) (pos 101) 3 resting r.0 r.1)
      (check_for_match resting 4 1 2 Side.buy (pos 101) 3 2)
check_for_match-Ends_example =
    check_for_match-Ends resting 4 1 2 Side.buy (pos 101) 3 2 (omega arith)

-- A buy of 3 against the 5 that rest is filled, and leaves 2.
buy_filled :
    elim (check_for_match resting 4 1 2 Side.buy (pos 101) 3 2) [
      | ok r ↦ r.0 + 10 * (r.1.book.order_pool.object 0).qty
      | failed e ↦ 9
    ]
    ≡ 20
unfolding resting
buy_filled = refl

-- The owner of the resting order cannot cancel it: it is filed under the number of the instrument.
cancel-add_example :
    cancel resting 1 7 2 ≡ ok (send_client_response resting (cancel_rejected 1 7 2))
unfolding order_index
cancel-add_example =
    cancel-add empty 1 7 2 Side.sell (pos 100) 5 {i = 1_067_015} refl (omega arith) (omega arith)
      refl refl resting_returns

-- The client whose number is that of the instrument can.
cancel-Ends_example : Ends (Answered resting 2 7 2) (cancel resting 2 7 2)
cancel-Ends_example = cancel-Ends resting 2 7 2

cancel_by_ticker :
    elim (cancel resting 2 7 2) [ ok b ↦ b.book.asks_by_price | failed e ↦ some 9 ] ≡ none
unfolding resting cancel find_order
cancel_by_ticker = refl

abbrev engine : MatchingEngine
engine = record {
  ticker_order_book = λ _. empty;
  incoming_requests = lf_queue 4 me_client_request_default;
  outgoing_ogw_responses = lf_queue 8 me_client_response_default;
  outgoing_md_updates = lf_queue 8 me_market_update_default;
}

-- The order that rests is cancelled by the client whose number is that of the instrument.
abbrev asked : MatchingEngine
asked = record engine {
  ticker_order_book = λ _. resting;
  incoming_requests = record (lf_queue 4 me_client_request_default) {
    store = λ _. record me_client_request_default {
      type = ClientRequestType.cancel;
      client_id = 2;
      ticker_id = 2;
      order_id = 7;
    };
    next_write_index = 1;
    num_elements = 1;
  };
}

run_round-cancel_example : run_round asked ≡ failed exit_failure
unfolding resting cancel find_order order_index get_next_to_read
run_round-cancel_example = run_round-cancel asked 0 _ refl refl refl (omega arith) refl

run_book-sends_example :
    (e' : MatchingEngine) × (run_book engine 2 (λ b. add b 1 7 2 Side.sell (pos 100) 5) ≡ ok e')
    × (contents e'.outgoing_ogw_responses ≡ [] ++ resting.client_responses)
    × (contents e'.outgoing_md_updates ≡ [] ++ resting.market_updates)
    × (e'.ticker_order_book ≡ update engine.ticker_order_book 2 resting)
    × (e'.incoming_requests ≡ engine.incoming_requests)
unfolding resting
run_book-sends_example =
    run_book-sends engine 2 (λ b. add b 1 7 2 Side.sell (pos 100) 5) resting_returns responses_fit
      updates_fit
  where
    responses_fit : HasRoom engine.outgoing_ogw_responses (length resting.client_responses)
    responses_fit = omega arith

    updates_fit : HasRoom engine.outgoing_md_updates (length resting.market_updates)
    updates_fit = omega arith

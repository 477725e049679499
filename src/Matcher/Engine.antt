-- ===== src/Matcher/Engine.antt =====
-- exchange/matcher/matching_engine.cpp: the engine takes requests from its queue, hands each to the
-- book of its instrument, and writes what the book sends to two outgoing queues.
use low_latency_learn.Base.{
  ℕ, List, [], ◌∷◌, none, some, update, ltb, Outcome, ok, in_range, fatal, ◌>>=◌, ◌>>◌,
}
use low_latency_learn.Types.{me_max_tickers}
use low_latency_learn.Messages.{
  MeClientRequest, ClientRequestType, MeClientResponse, MeMarketUpdate,
}
use low_latency_learn.LfQueue.{LfQueue, write, get_next_to_read, update_read_index}
use low_latency_learn.Matcher.{MeOrderBook, add, cancel}

pub record MatchingEngine : Type 0 where
  pub ticker_order_book : ℕ → MeOrderBook
  pub incoming_requests : LfQueue MeClientRequest
  pub outgoing_ogw_responses : LfQueue MeClientResponse
  pub outgoing_md_updates : LfQueue MeMarketUpdate

-- `sendClientResponse` and `sendMarketUpdate`.
unfoldable pub send_client_response : MatchingEngine → MeClientResponse → MatchingEngine
send_client_response e r = record e { outgoing_ogw_responses = write e.outgoing_ogw_responses r }

unfoldable pub send_market_update : MatchingEngine → MeMarketUpdate → MatchingEngine
send_market_update e u = record e { outgoing_md_updates = write e.outgoing_md_updates u }

-- The calls that a book made, in their order. Responses and updates go to different queues, so
-- that the order between the two kinds makes no difference.
unfoldable pub send_client_responses : MatchingEngine → List MeClientResponse → MatchingEngine
send_client_responses e [] = e
send_client_responses e (r ∷ rs) = send_client_responses (send_client_response e r) rs

unfoldable pub send_market_updates : MatchingEngine → List MeMarketUpdate → MatchingEngine
send_market_updates e [] = e
send_market_updates e (u ∷ us) = send_market_updates (send_market_update e u) us

-- A call of a book, and the messages that it sends.
unfoldable pub run_book :
    MatchingEngine → ℕ → (MeOrderBook → Outcome MeOrderBook) → Outcome MatchingEngine
run_book e ticker_id call = do
  let book : MeOrderBook = e.ticker_order_book ticker_id
  book' ← call (record book { client_responses = []; market_updates = [] })
  let e : MatchingEngine = record e {
    ticker_order_book = update e.ticker_order_book ticker_id book';
  }
  ok (send_market_updates (send_client_responses e book'.client_responses) book'.market_updates)

-- The index of `m_ticker_order_book[...]` is not checked in the source; outside the array its
-- behaviour is undefined, here a failure. The case CANCEL has no `break` and runs on into the FATAL
-- of the default case.
unfoldable pub process_client_request : MatchingEngine → MeClientRequest → Outcome MatchingEngine
process_client_request e r = do
  in_range (ltb r.ticker_id me_max_tickers)
  elim r.type [
    | ClientRequestType.new ↦
        run_book e r.ticker_id (λ b. add b r.client_id r.order_id r.ticker_id r.side r.price r.qty)
    | ClientRequestType.cancel ↦ do
      e' ← run_book e r.ticker_id (λ b. cancel b r.client_id r.order_id r.ticker_id)
      fatal
    | ClientRequestType.invalid ↦ fatal
  ]

-- One round of the loop of `run`.
unfoldable pub run_round : MatchingEngine → Outcome MatchingEngine
run_round e = elim (get_next_to_read e.incoming_requests) [
  | none ↦ ok e
  | some p ↦ do
    e ← process_client_request e (e.incoming_requests.store p)
    q ← update_read_index e.incoming_requests
    ok (record e { incoming_requests = q })
]

-- ===== src/Matcher/Requests.antt =====
-- exchange/matcher/matching_engine.cpp: what becomes of a request, and where its messages go.
use low_latency_learn.Base.{
  ℕ, ◌<◌, ◌≡◌, ◌≢◌, refl, ap, ◌∙◌, true, some, List, [], ◌∷◌, ◌++◌, arith, ltb, lt→ltb, Outcome, ok,
  failed, exit_failure, update, length,
}
use low_latency_learn.Messages.{
  MeClientRequest, ClientRequestType, MeClientResponse, MeMarketUpdate,
}
use low_latency_learn.LfQueue.Contents.{contents, HasRoom, write_all, write_all-append}
use low_latency_learn.Base.Errors.{Failure}
use low_latency_learn.Types.{me_max_tickers}
use low_latency_learn.LfQueue.{get_next_to_read}
use low_latency_learn.Matcher.{MeOrderBook, cancel}
use low_latency_learn.Matcher.Engine.{
  MatchingEngine, process_client_request, run_round, run_book, send_client_responses,
  send_market_updates, send_client_response, send_market_update,
}

returns_only_new :
    (e : MatchingEngine) (r : MeClientRequest) {e' : MatchingEngine}
    → process_client_request e r ≡ ok e'
    → r.type ≡ ClientRequestType.new
unfolding process_client_request
returns_only_new e r h = ground arith

-- A request that is not NEW never brings the engine back to its loop, whatever the state of the
-- books.
pub process_client_request-not_new :
    (e : MatchingEngine) (r : MeClientRequest)
    → r.type ≢ ClientRequestType.new
    → (x : Failure) × (process_client_request e r ≡ failed x)
process_client_request-not_new e r h = go (process_client_request e r) refl
  where
    go :
        (o : Outcome MatchingEngine)
        → process_client_request e r ≡ o
        → (x : Failure) × (process_client_request e r ≡ failed x)
    go (failed x) q = (x, q)
    go (ok e') q = absurd (h (returns_only_new e r q))

run_book-ok :
    (e : MatchingEngine) (ticker_id : ℕ) (call : MeOrderBook → Outcome MeOrderBook)
    {book' : MeOrderBook}
    → call (record (e.ticker_order_book ticker_id) { client_responses = []; market_updates = [] })
      ≡ ok book'
    → (e' : MatchingEngine) × (run_book e ticker_id call ≡ ok e')
unfolding run_book
run_book-ok e ticker_id call {book'} h = (
  send_market_updates
      (send_client_responses
        (record e { ticker_order_book = update e.ticker_order_book ticker_id book' })
        book'.client_responses)
      book'.market_updates,
  rw (h, run_book) refl,
)

process_client_request-cancel :
    (e : MatchingEngine) (r : MeClientRequest) {e' : MatchingEngine}
    → ltb r.ticker_id me_max_tickers ≡ true
    → r.type ≡ ClientRequestType.cancel
    → run_book e r.ticker_id (λ b. cancel b r.client_id r.order_id r.ticker_id) ≡ ok e'
    → process_client_request e r ≡ failed exit_failure
unfolding process_client_request
process_client_request-cancel e r known type done =
    rw (known, type, done, process_client_request) refl

run_round-failed :
    (e : MatchingEngine) (p : ℕ)
    → get_next_to_read e.incoming_requests ≡ some p
    → process_client_request e (e.incoming_requests.store p) ≡ failed exit_failure
    → run_round e ≡ failed exit_failure
unfolding run_round
run_round-failed e p next done = rw (next, done, run_round) refl

-- The next request of the queue is a CANCEL for a known instrument, which the book of this
-- instrument carries out or answers with a rejection, so that the call of the book returns. Then the
-- round of the loop of the engine ends the whole process as a FATAL does, whatever else waits in its
-- queues.
pub run_round-cancel :
    (e : MatchingEngine) (p : ℕ) (r : MeClientRequest) {book' : MeOrderBook}
    → get_next_to_read e.incoming_requests ≡ some p
    → e.incoming_requests.store p ≡ r
    → r.type ≡ ClientRequestType.cancel
    → r.ticker_id < me_max_tickers
    → cancel
        (record (e.ticker_order_book r.ticker_id) { client_responses = []; market_updates = [] })
        r.client_id
        r.order_id
        r.ticker_id
      ≡ ok book'
    → run_round e ≡ failed exit_failure
run_round-cancel e p r next at type inside done =
    let known = lt→ltb r.ticker_id me_max_tickers inside in
    let (e', ran) =
      run_book-ok e r.ticker_id (λ b. cancel b r.client_id r.order_id r.ticker_id) done in
    run_round-failed e p next
      (ap (process_client_request e) at ∙ process_client_request-cancel e r known type ran)

responses_written :
    (e : MatchingEngine) (rs : List MeClientResponse)
    → send_client_responses e rs
      ≡ record e { outgoing_ogw_responses = write_all e.outgoing_ogw_responses rs }
unfolding send_client_responses send_client_response write_all
responses_written e [] = refl
responses_written e (r ∷ rs) = responses_written (send_client_response e r) rs

updates_written :
    (e : MatchingEngine) (us : List MeMarketUpdate)
    → send_market_updates e us
      ≡ record e { outgoing_md_updates = write_all e.outgoing_md_updates us }
unfolding send_market_updates send_market_update write_all
updates_written e [] = refl
updates_written e (u ∷ us) = updates_written (send_market_update e u) us

-- A call of a book that returns, with room in both queues for what the book sends, leaves each of
-- its messages once, in the order of the calls, behind those that waited; the other books and the
-- incoming queue stay as they were.
pub run_book-sends :
    (e : MatchingEngine) (ticker_id : ℕ) (call : MeOrderBook → Outcome MeOrderBook)
    {book' : MeOrderBook}
    → call (record (e.ticker_order_book ticker_id) { client_responses = []; market_updates = [] })
      ≡ ok book'
    → HasRoom e.outgoing_ogw_responses (length book'.client_responses)
    → HasRoom e.outgoing_md_updates (length book'.market_updates)
    → (e' : MatchingEngine) × (run_book e ticker_id call ≡ ok e')
      × (contents e'.outgoing_ogw_responses
          ≡ contents e.outgoing_ogw_responses ++ book'.client_responses)
      × (contents e'.outgoing_md_updates ≡ contents e.outgoing_md_updates ++ book'.market_updates)
      × (e'.ticker_order_book ≡ update e.ticker_order_book ticker_id book')
      × (e'.incoming_requests ≡ e.incoming_requests)
unfolding run_book
run_book-sends e ticker_id call {book'} h hr hu = (
  record e {
    ticker_order_book = update e.ticker_order_book ticker_id book';
    outgoing_ogw_responses = write_all e.outgoing_ogw_responses book'.client_responses;
    outgoing_md_updates = write_all e.outgoing_md_updates book'.market_updates;
  },
  rw (h, responses_written, updates_written),
  (write_all-append e.outgoing_ogw_responses book'.client_responses hr).1,
  (write_all-append e.outgoing_md_updates book'.market_updates hu).1,
  refl,
  refl,
)

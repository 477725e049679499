-- ===== src/Lib.antt =====
-- A verification library for the low latency exchange and trading system of this repository.
--
-- The exchange takes client requests over TCP, sequences them by receive time, matches them in one
-- order book for each instrument, answers the clients and publishes market data. The parts hand
-- messages to one another through lock-free queues, and take their objects from memory pools.
--
-- Files and what they model:
--   Base        shared names, tests on numbers, lists, integers, and the outcomes of a run: ASSERT
--               and FATAL of common/macros.hpp end a run, as do a null pointer that is followed and
--               an index out of range.
--   Types       common/types.hpp. Strings has the identifiers as text.
--   MemPool     common/mem_pool.hpp. A pointer is the index of a block. Search has the walk round
--               the store, Blocks the calls, Used the number of blocks in use.
--   LfQueue     common/lf_queue.hpp. Contents has the queue as a list; Race the interleavings of
--               the writer and the reader, one atomic access a step.
--   Messages    exchange/order_server/client_request.hpp, client_response.hpp and
--               exchange/market_data/market_update.hpp. Strings has their toString.
--   Sequencer   exchange/order_server/fifo_sequencer.hpp; std::sort is a parameter.
--   Book        the rings of price levels and orders, which exchange/matcher/me_order_book.cpp and
--               trading/strategy/market_order_book.cpp have in common. Ring and Queues have the orders of
--               a level as a queue, Blocks lists of blocks, Levels the ring of the bids, Lost what
--               happens to the asks.
--   Matcher     exchange/matcher: the order book (Fills: matching; Cancels: cancelling; Resting: what
--               is left of an order in its queue; Priority: which orders a buy fills, and the updates
--               that tell of it; Strings and Printer: the book as text) and the engine (Engine,
--               Requests).
--   Sockets     common/tcp_socket.cpp (Tcp), mcast_socket.cpp (Mcast), tcp_server.cpp (Server) and
--               socket_utils.hpp (Create, Addresses); Framing has the loops of the recvCallbacks over the bytes
--               of a stream, and Callbacks joins them to the callbacks on whole messages.
--   Logger      common/logging.hpp (Format: what a message is made of; Flush: what reaches the file).
--   OrderServer, OrderGateway
--               exchange/order_server/order_server.cpp and trading/order_gw/order_gateway.cpp, the
--               two ends of the TCP connection of a client (Session: a stream of messages; Requests and
--               Responses: the two ends together).
--   Publisher, Snapshot
--               exchange/market_data: market_data_publisher.cpp and snapshot_sythesizer.cpp.
--   Consumer    trading/market_data/market_data_consumer.cpp. Silent has the loop of run from the
--               constructor on; Recovery has the way back from a gap by a snapshot, if one came, and
--               Snapshots the same for a snapshot as it is published.
--   MarketBook, Positions, Risk, OrderManager
--               trading/strategy: market_order_book.cpp, position_keeper.hpp, risk_manager.cpp and
--               order_manager.cpp. Doubles are a parameter. MarketBook has a level as a queue of ids and
--               quantities (Queue), the first order of a side (First), and the book as it reads what
--               the matching engine's book sends (Mirror); OrderManager the orders over many calls
--               (Runs). No book of the program ever has a trade engine: update_book is the part of
--               onMarketUpdate before the call of the engine, and on_market_update the whole, which
--               then follows a null pointer.
--   Strategies  trading/strategy/feature_engine.hpp, market_maker.cpp and liquidity_taker.cpp (Taker).
--   TradeEngine trading/strategy/trade_engine.cpp. Responses has the loop over the responses, Quotes
--               the call that a book makes, Start the constructor.
--   Tests       the theorems at concrete inputs, and runs by evaluation.
--
-- Numbers: identifiers, quantities and priorities are unsigned words, kept as numbers with their
-- wrap-around written out; a price is an int64_t, kept as an integer.
-- Fuel: the walk over a pool has one round for each block; the loop of checkForMatch has two rounds
-- more than the pool of orders has blocks, since each round but the last frees a block; the search
-- for the place of a level has one round more than the pool of levels has blocks.
-- A loop over a queue has one round for each element and one more; a walk round a ring of orders or
-- levels has one round more than its pool has blocks; the text of a book goes round its levels with
-- two rounds more, the last of them for the end.
-- The loop that sends has two rounds, since a call that takes only a part ends the process; the loops
-- over received bytes have one round more than there are bytes.
-- Positions: the pointer m_bbo is what it pointed to at the last updateBBO; it is only printed.
-- Parameters: the system calls of the sockets and their results, the reading of a message from its
-- bytes, doubles, std::sort, the printing of numbers, and the padding of sprintf.
-- Not modelled: threads, time and the start and end of the programs; the bytes of network addresses;
-- the byte layout of the packed messages, and the executables.
pub mod Base
pub mod Types
pub mod MemPool
pub mod LfQueue
pub mod Messages
pub mod Sequencer
pub mod Book
pub mod Matcher
pub mod Consumer
pub mod Logger
pub mod MarketBook
pub mod OrderGateway
pub mod OrderManager
pub mod OrderServer
pub mod Positions
pub mod Publisher
pub mod Risk
pub mod Snapshot
pub mod Sockets
pub mod Strategies
pub mod TradeEngine
pub mod Tests

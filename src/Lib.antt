-- ===== src/Lib.antt =====
-- bintrade, a C++ client library of the Binance spot exchange, modelled by shallow embedding: pure
-- functions are functions, a call that changes an object takes and returns its state, a call that
-- may throw returns a `Result`, and threads and coroutines are step relations over explicit state.
--
-- The program has three layers. At the bottom are the enumerations, the error codes, the clock and
-- the SPSC queue (include/bintrade/core, src/core). Above them are two transports: the HTTPS client
-- with its connection pool (src/rest/detail/http_client.cpp), and the WebSocket connection with its
-- I/O thread (src/ws/detail/websocket_client.cpp). On top, typed REST clients sign requests, send
-- them over the HTTP transport and parse the answers, by blocking calls and by coroutines; the market
-- stream opens a WebSocket, and the user stream gets a listen key over HTTP first; both hand parsed
-- messages to callbacks, on the I/O thread or through a queue on a consumer thread of their own, and
-- the typed streams hand them to the methods of a handler.
--
-- Files, and what they model:
--   Prelude            shared helpers: Boolean tests, lists, bytes, integers, searching, masks
--   Core/Error         include/bintrade/core/error.hpp, src/core/error.cpp
--   Core/Types         include/bintrade/core/types.hpp, src/core/types.cpp; WireNames has the proofs
--   Core/Clock         src/core/platform/clock.hpp: `ticks_to_ns` and `monotonic_now_ns` in int64_t;
--                      Exact and Monotonic have the proofs
--   Core/Config        include/bintrade/core/config.hpp
--   Core/Logger        src/core/logger.cpp over an interface of spdlog; Calls runs sequences of calls
--   Core/Affinity      src/core/platform/thread_affinity.cpp
--   Core/Spsc          include/bintrade/core/spsc_queue.hpp: `try_push`, `try_pop`, `size_approx`.
--                      Fifo and Trace compare it with a list; Threads runs a producer and a consumer
--                      one atomic access at a time
--   Json, Models       what is used of nlohmann::json and of `double`; include/bintrade/models
--   Auth/Credentials, Auth/Signer   src/auth
--   Rest/Url, Rest/Query            the two URL parsers and `build_query_string`
--   Rest/Pool          the pool of src/rest/detail/http_client.cpp: `acquire_connection`,
--                      `release_connection`; Ownership lets coroutines interleave at every wait;
--                      Request is the retry loop of `execute`
--   Rest/Http          the rest of that file: targets, the fields of requests and responses, and the
--                      cache of TLS sessions in `do_connect`.
--                      Transport is the client as a whole over a network, behind the interface that
--                      the REST clients use; Agrees compares it with the simpler client of Sequential
--   Rest/Parse         src/rest/detail/json_parse.hpp; Orders has the orders and the account
--   Rest/Client        src/rest/client.cpp: `sign_params`, `update_rate_limits`, the four helpers;
--                      Async has the coroutines, each a request and what follows its answer:
--                      Blocking runs one alone, Coroutines gives the six one type, and
--                      Interleaved runs many beside one another
--   Rest/Trading, Rest/Account, Rest/Market   the typed clients above it, with their coroutines
--                      in the child Async
--   Ws/Parse           include/bintrade/ws/detail/ws_parse.hpp
--   Ws/Socket          src/ws/detail/websocket_client.cpp: the handlers of the I/O thread; Reuse is
--                      about a second connection of one client, Backoff and Attempts are about the
--                      reconnects, and Paths is about the stream that each connection asks for
--   Ws/Client          src/ws/client.cpp
--   Ws/User            src/ws/user_stream.cpp; Lifecycle is about `start` and `stop`, KeepAlive about
--                      the renewals of the listen key, and ListenKey follows the key from the
--                      HTTP client to the connection
--   Ws/Market          src/ws/market_stream.cpp
--   Ws/Typed           include/bintrade/ws/typed_market_stream.hpp, typed_user_stream.hpp and
--                      handler_traits.hpp
--   Ws/Queue           the queue of the two streams in front of their consumer thread
--   Ws/Consumer        the I/O thread, the consumer thread and the stop signal, one access at a time
--   Tests              the theorems applied to concrete inputs
--
-- Bounds. The queue's capacity is 2^k with k < 64, as its static_assert and `size_t` demand; its
-- counters wrap at 2^64. `int64_t` results that do not fit are `none`. `execute` has at most two
-- rounds, as the loop in the code. The loop that drains a queue runs on a number of turns, and one
-- more than there are messages is enough; the consumer thread takes a number of steps, and 4099 are
-- enough behind its stop signal; all other loops are structural. The delays and attempts of a reconnect
-- are natural numbers.
--
-- Parameters. The JSON library, `double`, HMAC-SHA256, `std::stoi`, `std::to_string`, the clock, the
-- network, the fields of a Beast message with their laws of lookup, `std::unordered_map` with the two
-- laws of lookup after an assignment, the loggers of spdlog with the laws of their level and sinks, the
-- `double` arithmetic of the jitter with its two bounds for whole seconds, and the calls of the operating
-- system are arguments: none of them is code of the repository.
--
-- `terminated` is the error of a call that ends the program by `std::terminate`, as an assignment to
-- a joinable `std::thread` does.
--
-- A coroutine of the pool reads a reference into the vector of slots again behind its wait; the
-- interleavings are those in which no slot is added or removed meanwhile. The coroutines of a REST
-- client run on one thread. Handlers of the WebSocket run one at a time; only `disconnect` may fall into
-- a reconnect handler.
--
-- Not modelled: which lines are logged, the bytes of TLS, HTTP and the WebSocket protocol, timeouts,
-- the move operations, and the settings of sockets.
pub mod Prelude
pub mod Core
pub mod Json
pub mod Models
pub mod Auth
pub mod Rest
pub mod Ws
pub mod Tests

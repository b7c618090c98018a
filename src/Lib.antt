-- ===== src/Lib.antt =====
-- Verification library of tntpp, a client library for the database Tarantool (C++, Boost.Asio).
--
-- The program. A `Connector` owns a `Connection`, which owns a socket under an `IprotoFraming`. A
-- request is packed by a `RequestPacker`, registered under its id with a completion handler, and
-- written through a double buffer of requests that wait while a write is under way. A receive loop
-- reads messages off the socket through a `MutableBuffer`, gives each to the handler of its id,
-- and resets and reconnects when a read fails. `Box` builds the requests of the data operations.
--
-- Files, with the code they model (under include/tarantool_connector/):
--   Buffer      detail/tntpp_mutable_buffer.h: SharedBuffer, FrozenBuffer, MutableBuffer. The
--               objects behind `shared_ptr` are cells of a heap, so that frozen buffers alias the
--               buffer they were cut from. Children: State (well-formedness, what stays readable),
--               Prepare, Transfer (making room, reading and writing), Run, Refine (whole histories).
--   Queue       detail/tntpp_queue.h: DBQueue.
--   Request     detail/tntpp_request.h: RequestPacker. Child Frame: the bytes of a request.
--   Iproto      detail/iproto_typedefs.h: request types and fields (Types), the header of a message
--               (Header, RoundTrip), the error codes and their texts (Errors).
--   Framing     detail/tntpp_iproto_framing.h: IprotoFraming. Children: Room, Ready, Transfer,
--               Length, Message, Says (the operations against the stream of bytes), Bytes, Bounds,
--               Survives (any stream of bytes), Keeps, Frozen (the frames handed out before).
--   Connection  connection.h: sending (Connection, child Send), connecting (child Connect), and
--               connects and receives one after another on the same buffer (child Session).
--   Connector   tarantool_connector.hpp: requests under way, reset, the receive loop (Loop,
--               Reconnect, Shutdown), the loop on the stream of its connection against a connector
--               that is given its messages whole (Listen), requests (Requests, with their bytes,
--               their receipt and the way through the send queue), the calls of handlers over
--               histories of events (Balance, Asks, Answers, Live), the order of the map of requests
--               (Order), and the static `connect` with the authentication (Establish), from a
--               configuration on (Establish/Open).
--   Response    detail/tntpp_iproto_framing.h: what the client reads off an IprotoFrame (Entries), and
--               from the bytes of the server on (Received).
--   Crypto      detail/tntpp_crypto.h: ScramblePassword, against the check of the server (Accepted).
--   Config      tntpp_config.h: the options and their setters, against the last choices (Chosen).
--   Logger      tntpp_logger.h, tntpp_cout_logger.h: the levels, the test of TNTPP_LOG, the logger to
--               the standard output, and the name of the source file in a line (BaseName).
--   Box         box/tntpp_box.h: SelectBuilder and the data operations.
--   Errc, Coroutine, Transport, Msgpack, Common: error codes and completions, coroutines, the two
--               third-party libraries as parameters, and the shared notation and lemmas.
-- Tests modules hold runs on small inputs and an instance of each theorem of the list.
--
-- How it is modelled. An operation is a function on the state; a failed `assert` is `none` or
-- `abort`; a completion with an error code is `fail`; a coroutine is a function from the state to
-- its completion and the next state, `co_await` being its sequencing. All handlers of a connection
-- run on one strand, so what happens to it is a list of events in any order, and theorems hold for
-- all lists. Integers are natural numbers with the wrap-around of their width written out. There
-- is no fuel: every loop is a recursion on a list, the receive loop on the list of the rounds that
-- the outside decides. Bounds on sizes (a buffer of at most 2^40 bytes, a default length of at
-- most 2^32, messages below 2^32 bytes) keep sums within `size_t`; the protocol and memory imply
-- them.
--
-- Assumptions. Boost.Asio: a successful `async_read` gives the next bytes of the peer, at least
-- those asked for and no more than fit (Transport.IsStream; Transport/Tape.antt meets it); `close`
-- closes a socket, `async_connect` opens it and leaves it open if it fails, and setting an option,
-- which may throw, neither opens nor closes it (Connect.IsNetwork; Connection/Connect/Line.antt
-- meets it). That a read does not fail while the bytes that it asks for are still to come
-- (Transport.IsUnbroken) is assumed only where a result says that the connection is not
-- interrupted. msgpack reads back the maps of integers that it packed (Msgpack.ReadsBack;
-- Msgpack/Small.antt meets it); its `type_error` is a `bad_cast`, its unpack errors are not. SHA-1
-- (detail/sha1.h, a copy of a public-domain library) absorbs what it is given and its digest is a
-- function of that, of 20 bytes (Crypto.IsSha1; Crypto/Small.antt meets it); what Boost's `trim`
-- and its base64 iterators give for the salt is a hypothesis where it is used. An `error_code` is
-- false as a condition exactly if its value is 0, which is what Boost documents for a category that
-- does not override it. Calling an empty completion handler throws. A handler of a caller returns,
-- and sends no request before it returns: a request sent from a handler is an event of its own,
-- after the call. The one exception is the reset of Connector/Live, in which any handlers may
-- throw; all other results that speak of a reset or of a broken connection rest on handlers that
-- return. Memory never runs out. An `unordered_map` is the list of its entries, in the order in
-- which it is iterated; Order shows what depends on that order.
--
-- Not modelled: detail/sha1.h, third-party code; the formatting of log messages (fmt) and the
-- printers, and what TNTPP_LOG writes in the other parts; of the arguments that it evaluates there
-- `get_error_string` and `remote_endpoint` can throw, and these two calls are modelled (Establish,
-- Connection/Connect). Further not modelled: the executor and the strand, which the lists of events
-- stand for; the unfinished picodata and schema classes, the overloads of Box::select without a
-- body, and Box::remove with an index, which cannot be instantiated; type aliases and macros; the
-- benchmark, the tests and the build.
pub mod Common
pub mod Errc
pub mod Msgpack
pub mod Iproto
pub mod Buffer
pub mod Request
pub mod Coroutine
pub mod Transport
pub mod Framing
pub mod Queue
pub mod Connection
pub mod Connector
pub mod Box
pub mod Response
pub mod Crypto
pub mod Config
pub mod Logger

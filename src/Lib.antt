-- ===== src/Lib.antt =====
-- muse-rpc: remote procedure calls over UDP. A client cuts a serialized request into pieces, the server
-- acknowledges and reassembles them, runs the request on a thread pool, and sends the response back in
-- pieces in the same way. This library models the wire protocol, the state of requests and responses,
-- the reactors that serve the clients, the client's call, the serializer, a remote call from its arguments
-- to its value, the thread pool, and the two timers.
--
-- Parts, and the files that model them:
--   * Common: shared names, Boolean tests, lists, bits, and `Outcome`, what a C++ call does: return,
--     throw, or behave in an undefined way. Memory: bytes behind a pointer, and the byte order of a
--     machine (include/serializer/util.cpp).
--   * Protocol: every function of include/rpc/protocol/protocol.cpp over raw memory. Protocol.Header has
--     the enumerations and the header; Wire, Parse, Accept and Portable relate the bytes to the header;
--     Pieces has the arithmetic of cutting a message.
--   * Packets: the datagrams that include/rpc/server/sub_reactor.cpp and include/rpc/client/invoker.cpp
--     send, and Packets.Parsed, what the other side reads.
--   * Server.PieceState, Server.Servlet, Server.Request and Server.Response: include/rpc/server/
--     request.cpp, reqeust.hpp and response.cpp. `std::map` and `std::unordered_map` are lists of entries.
--     Server.Request.Receipt and Reassembly follow the pieces of one message into its buffer.
--   * Server.Reactor: include/rpc/server/sub_reactor.cpp. The record SubReactor is the state of the class;
--     a connection is its index in `connections`. `handle_datagram` is one event of `loop`, Accept is
--     `dealWithNewConnection`, Slots the search for a free place, Timers the callbacks of the timers, and
--     Responses and Freed the life of a response.
--   * Server.MainReactor: a datagram in the loop of include/rpc/server/reactor.cpp, and the table of the clients
--     that have a connection.
--   * Client.ResponseData: include/rpc/client/response_data.cpp. Client.Invoker: `Invoker::request` of
--     include/rpc/client/invoker.cpp, in the order of its text. What each `recvfrom` gives is the next of a
--     list of events, `none` for a timeout; every datagram sent is kept in `sent`. Turns has the rules for
--     its two loops, Ends counts its rounds,
--     Collect keeps one piece, Arrival and Answer follow the response, Safety the whole call, and Patience
--     the timeouts of the second phase.
--   * Serializer: `input` and `output` of include/serializer/binarySerializer.cpp and binarySerializer.h.
--     Shape is the type of what is written, which C++ resolves by overloading and templates; Number has the
--     bytes of a machine, Writer and Reader the two directions, Wire the format apart from any machine;
--     Takes, RoundTrip and Portable relate them, and Short is about streams that end too early.
--   * Transfer: the two sides of a request with a network between them, as a step relation over the functions
--     above, its invariant in Behind, and the abstract view that it implements.
--   * ThreadPool: include/thread_pool/pool.cpp. The record ThreadPool has the fields of the class and, for each
--     worker, the manager and the thread in `close`, its place in the code; `Step` lets any of them go on, one
--     access to the shared state at a time. Invariant has what holds in every state, Account the tasks, Safety
--     the lock, Commit the commit of many tasks at once, and Closing and Hanging how `close` ends or does not.
--   * Rpc: a remote call. Rpc.Header is the header of an answer (include/rpc/server/rpc_response_header.hpp),
--     Registry the methods by name (registry.hpp), Route the service that runs them (route_service.cpp), Caller
--     the client's side (include/rpc/client/client.hpp), Middleware the chain of services
--     (middleware_channel.cpp) and Zlib the compression (zlib_service.cpp). Trigger is `triggerTask` of
--     sub_reactor.cpp up to its answer: the chain, the route, and the client's address and port that methods named
--     @context/ are given, which Context follows. Calls, Through and Refusals follow a call from the arguments to
--     the outcome.
--   * Timer.Tree and Timer.Wheel: include/timer/timer_tree.cpp and timer_wheel.cpp.
--     Keeps, Turn and Late follow a task of the wheel through its rounds.
--
-- How they interact: the reactor parses a datagram with Protocol, keeps its piece with Server.Request,
-- answers with Packets, and sets its timers in a Timer.Tree, whose callbacks are the constructors of
-- `TimerEvent`. System calls and the hand-over to the thread pool are `Effect`s in the order in which they
-- happen. What a handler finds outside, such as the clock, fresh memory, the machine's byte order, and
-- whether the pool or epoll accept, is the record `Environment`.
--
-- Numbers of w bits keep their wrap-around. The receive buffer has 549 bytes, and a copy beyond it or
-- beyond the data of a request is `undefined`. `TimerTree::runTaskLoop` runs on fuel; one unit for each
-- timer that it fires, and one more, is enough. The loops of the reactor run over its table or its queue.
-- The rounds of a call's first phase run on fuel, four units for each event and five more, which is
-- enough; the second phase runs over the events.
--
-- Not modelled: the epoll loops themselves and the locks of the reactors; each handler runs alone. The
-- counter of vacant threads of the pool may have any value, and a task is a number. The client's
-- transmitter, that of the server and the concurrent pool are left out, as are the locks of the registry
-- of synchronous methods. Of the serializer, files and the read-only view are left out; a stream's position
-- never passes its end, and a set or map is the list that its iterator gives or that is inserted. For the
-- invoker the middleware is two functions, which give a size below 4 GB. The task of the pool and the timer that hands its answer on are two functions,
-- `trigger_task` and `finish_task`. The logging, compression and test
-- libraries are other projects' code; what zlib promises is the record IsCompression.
pub mod Common
pub mod Memory
pub mod Protocol
pub mod Server
pub mod Packets
pub mod Client
pub mod Serializer
pub mod Transfer
pub mod Timer
pub mod ThreadPool
pub mod Rpc

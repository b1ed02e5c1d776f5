-- ===== src/Lib.antt =====
-- Synergy4: a ring of nodes (p2pmd), a tuple space daemon (tsd) that uses it, and the daemon's
-- clients.
--
-- The parts, and the files that model them:
--
-- - src/p2pm_node_info.c, the successor list of a node: Ring/NodeInfo. The buffer of r_max slots of 256
--   bytes is a list of strings, where a slot that begins with '\0' is the empty string. A slot's length is
--   not bounded by the model; what is copied into one as 256 bytes is cut there. r_max is below 2^24, so that its product with 256 fits an unsigned.
-- - src/p2pmd/p2pmd_server.c, the requests of the server socket (_GET_REQ_handler and the others, and the
--   switch of p2pm_loop_server as `dispatch`): Ring/Server, with Ring/Server/Joins and
--   Ring/Server/Maintenance. src/p2pmd/p2pmd_onering.c is `form_one_ring`.
-- - src/p2pmd/p2pmd_server.c, p2pm_loop_server with _successor_socket_handler and
--   _predecessor_socket_handler: Ring/Loop, with Ring/Loop/Successor and Ring/Loop/Predecessor.
-- - src/tuple_utils.h, the comparison of names: Space/Glob (_match) and Space/Compare (tplcmp,
--   blckcmp_str).
-- - src/tsd/tsd.c: Space/Matching (the responses and the loop of match_blocking_requests), Space/Store
--   (match_blocking_requests and named_queue_write_handler), Space/Named (the handlers that read),
--   Space/Connect (TsConnect, TsTerm and the tokens), Space/Peers (the exchanges between daemons),
--   Space/Dispatch (handler and token_handler over the table of the spaces), Space/Element (the structures,
--   and the names in tokens), over Space/Types for src/sng_common.h and src/p2pm_types.h's counterpart Ring/Types.
--
-- - src/shared_memory/shared_memory.h, the pipe between a daemon and a local client: Pipe/Segment (one
--   write, one read), Pipe/Semaphores (writes and reads that overlap) and Pipe/Transfer (send_item and
--   recv_item as the two ends of a run).
-- - src/ts/ts.c, the client: Client/Requests (what it sends), Client/Replies (how it reads its answers) and
--   Client/Opening (ts_open), with Client/Transport for what ZeroMQ does between it and its daemon.
-- - src/parser/sng_parser.c: Config/File (sng_parse_config), Config/Ring (the section p2pmd),
--   Config/Tsd (the section tsd) and Config/Spaces (the section spaces), over Config.
--
-- How they interact: a node's pass serves one request, then its timer, its successor and its
-- predecessor; the requests and the timers share the node's record and trigger each other through
-- server_triggered_actions. A tsd passes tokens to the ring (`pass`), and the ring's tokens open and
-- close its spaces. A writer of a tuple meets the requests that readers left in the space's queues. A
-- client's messages are what handler receives, and the parts that a handler sends to its id are what
-- the client reads; a local client's tuples go through the pipe.
--
-- How the code is modelled. What a call receives is an argument of the handler (Incoming,
-- SuccessorInput, Pass, Args), and what it sends, connects or closes is a list of effects in their
-- order, in which a part is marked as followed by another or as the last of its message. A handler
-- reads the clock once, and again in each call of itself. `none` as the result of a ring's handler
-- says that it does not return; `aborted` says that the daemon reads NULL or fails an assertion,
-- `broken` that too or a read past a buffer, `unfinished` and `endless` that a loop still runs.
-- Unsigned numbers wrap at 2^32. The fuel of the predecessor's handler is the number of its calls
-- inside itself and one more, and how many there are depends on the clock; the loops over a queue have
-- one more than its items, proved enough below. What is sent for an r above r_max goes on in
-- behind_list, the memory behind the list. An address of more than 255 bytes that JOIN_REQ or
-- STABILIZE_REQ bring overflows a buffer of the source; what that overwrites is not modelled, and
-- theorems on these requests have the bound among their conditions. The list of a token's buf2 is its
-- len2 bytes. Logging, memory that is freed or not to be had, and the lifetime of strings are not
-- modelled.
--
-- ZeroMQ's sockets, the queues of CZMQ and regular expressions are not part of the repository. The
-- queues are the interface Space/Zlistx, whose laws are their documentation; that the comparator's
-- first argument is the list's element is the assumption that src/tuple_utils.h states at blckcmp_str.
-- Regular expressions are a parameter, a test of an expression and a name, and so is strtoul. The
-- table of libchash is the interface SpaceTable of Space/Dispatch. The fields that libbson's iterators
-- yield are a list; bson_iter_find goes on from where the iterator stands, and bson_iter_utf8 gives
-- NULL and the length 0 for what is no string. A message of ZeroMQ arrives as a whole, once its last
-- part is sent.
--
-- Not modelled: the join of a client in src/p2pmd/p2pmd_class.c and src/p2pmd/p2pmd_join_actor.c, the
-- byte order of src/p2pm_utilities.c, the set up and the polling of src/tsd/tsd.c, deposit_token_next
-- behind its assertion (which fails for each token that token_handler gives it), the end of
-- bcast_queue_write_handler (it stores the bytes of a library function), and contrib, which holds
-- copies of zlog and libchash.
pub mod Base
pub mod Ring
pub mod Space
pub mod Tests
pub mod Pipe
pub mod Client
pub mod Config

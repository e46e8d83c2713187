-- ===== src/Lib.antt =====
-- The CometVisu backend for knxd as a FastCGI program (src/): a model of its components and the
-- theorems that make them correct.
--
-- Telegrams come from knxd over a socket as eibd messages. The cache reader process parses their
-- APDUs and pushes the values into a table in shared memory. Worker processes serve HTTP requests:
-- /l creates a session, /w sends group telegrams to knxd, and /r answers from the table, if need be
-- after a wait. A client passes the index that it got with its last answer, which is a position in
-- the sequence of pushes.
--
-- Byte strings (std::string, std::string_view, std::vector<uint8_t>) are lists of numbers; where a
-- theorem needs them to be bytes it says so. Machine integers are natural numbers with the
-- wrap-around written out. Loops recur on the list or the text that they traverse, or on the number
-- of rounds that is left, except those that end when the world outside says so: the reads and writes
-- of the knxd client, the poll loop of /r, and the loops of the cache reader, of the server and of
-- the supervisor take fuel, and `none` is a run that has used it up. read_message needs 65538 rounds
-- at most, since every round adds a byte to a buffer that holds no whole message; write_all one for
-- each byte and each interruption, and read_message_deadline one for each byte and each round that
-- gives nothing; the poll loop one for each return of the wait until its time is over, and one more.
-- Readings of a clock, random numbers, and the results of taking a lock and of system calls are
-- arguments.
--
-- Util.Hex is util/hex.cpp: hex_decode, hex_encode and hex_byte; the lambda nibble and the table
-- kHexChars are definitions of their own. Util.QueryString is util/query_string.cpp: url_decode, the
-- constructor QueryString as query_string, get, get_all and has. The unread text stands for the
-- position in the raw string, and the hash map is an association list. Util.JsonBuilder is
-- util/json_builder.cpp, each operation a function on the builder.
--
-- Knxd.Address is KnxGroupAddress and KnxAddress of knxd/knxd_protocol.cpp, the static default
-- namespace being an argument. Knxd.Message is the framing of eibd messages of the same file:
-- build_eibd_message, parse_eibd_message, try_extract_message and the two builders on top of them.
-- The message numbers of knxd's <eibtypes.h> are the parameter EibTypes. Knxd.Apdu is parse_apdu.
-- Knxd.CacheReader is drain_telegrams of knxd/cache_reader.cpp; the telegrams that the client yields
-- are a list.
--
-- Knxd.Client is knxd/knxd_client.cpp. The system calls are the parameter Os over a world W of which
-- nothing is known; a theorem names the laws that it needs (bytes come and go in order, a call that
-- returns bytes returns at least one, sleep lasts as long as asked). A Link is the client's state
-- (KnxdClient::Impl) with the world, and the operations are functions on it: Reading has read_some,
-- read_message and read_message_deadline, Writing has write_all, Connection has connect, disconnect,
-- reconnect, open_group_socket and wait_for_activity, and Telegrams has send_group_packet and
-- poll_group_telegram. Operations in several steps are do blocks of Prelude.Program. The recursive
-- mutex makes each operation one step. Interface is KnxdClientInterface, which the client implements
-- and Knxd.CacheReader.Running (run_cache_reader and sleep_interruptible) and Knxd.Connector
-- (knxd/knxd_connector.cpp) use.
--
-- The products of int that can overflow, the milliseconds of a wait in Handlers.Read and the doubled
-- delay in Knxd.CacheReader.Running, wrap (Prelude.Overflow); an overflow is undefined in C++, and a
-- theorem that needs the true product has a bound as a hypothesis. Other sizes and counts that a
-- theorem bounds say so there.
--
-- State.Position is the arithmetic on positions that state/group_cache.cpp and
-- state/shared_group_cache.cpp share. State.GroupCache is the cache of one process, and
-- State.GroupCache.History describes it by the list of the telegrams pushed to it.
-- State.SharedGroupCache is the table with open addressing in shared memory, as long as the list of
-- its entries (kSharedCacheCapacity in the region that create makes). Every operation runs under the
-- mutex, so it is one step on the region. Waiting is wait_for_new_data, on the list of the returns
-- of pthread_cond_timedwait; the mapping of the memory is not modelled. Refinement relates the table
-- to the cache of one process. Address 0 (0/0/0) is left out there, since the table takes it as the
-- mark of a free slot.
--
-- State.SessionStore is state/session_store.cpp. The list of sessions is in the order in which the
-- hash map is traversed, which only decides between sessions of the same age when one is evicted.
--
-- Handlers.Write is the endpoint /w, handlers/write_handler.cpp. It returns the packets that the
-- code passes to send_group_packet, whose results are an argument. Handlers.Login is the endpoint
-- /l, handlers/login_handler.cpp, with the version texts and LOGIN_EXTRA_CONFIG as arguments.
--
-- Handlers.Read is the endpoint /r, handlers/read_handler.cpp, with its parameters in
-- Handlers.Read.Parameters. Each look at the cache and each round of the poll loop finds what
-- Surroundings says, so other processes may push between any two of them. The member order of the
-- unordered_map of a delta is an argument too. Router is router/router.cpp over the three handlers,
-- and Router.Session follows a login and a write in its session.
--
-- Fcgi.Request is FcgiRequest::path of fcgi/fcgi_request.cpp. Fcgi.Server is fcgi/fcgi_server.cpp:
-- the semaphores that limit the requests to /r, read_request with an environment, invoke_handler and
-- the text of a response. Holding has what a request takes and
-- gives back of them. Fcgi.Server.Running is the class FcgiServer with listen, close_listen_socket, run in both
-- modes, the read_request that uses getenv, write_response and shutdown. libfcgi, the sockets and
-- the handler are the parameter Library over a world W. A loop takes fuel for one more round than
-- there are requests to come. A request takes both tokens in one step, holds them until its round
-- ends, as one that is refused does, and gives them back in one step. Fcgi.Server.Capacity follows
-- any number of workers in any order of their steps, which are the functions of Running.
--
-- Main.Supervisor is the part of src/main.cpp that starts the cache reader and the workers, starts
-- again those that die, each after a delay that grows, and stops them all (run_pool). `fork`,
-- `wait`, `kill`, the clock, the semaphores and the flag that SIGTERM sets are the parameter
-- Processes; what a child does is no part of its parent. The loops take fuel, and need more rounds
-- than children end and signals come. Main.Settings is the command line, parse_env_int and the
-- settings. The check of the knxd connection at the start changes nothing of what follows and is
-- left out.
--
-- Util.DebugLog is util/debug_log.cpp: each call is the text that it writes to stderr. The
-- components do not call it in the model, since no result depends on it.
--
-- Not modelled: the installation of signal handlers, resource limits, the mapping of shared memory
-- and the creation and removal of the semaphores (calls of the system), the log lines other than
-- those of the debug log, and the version texts, which the build sets.
pub mod Prelude
pub mod Util
pub mod Knxd
pub mod State
pub mod Handlers
pub mod Fcgi
pub mod Tests
pub mod Router
pub mod Main

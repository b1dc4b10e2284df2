-- ===== src/Lib.antt =====
-- DNS security dataplane.
--
-- The program listens for DNS queries, decides by a policy whether a name is blocked, and answers a
-- query itself (NXDOMAIN, REFUSED, a sinkhole address), from its cache, or by way of an upstream
-- resolver. A second thread replaces the policy.
--
-- - Wire: dataplane/include/dns/protocol.h. Name and Parser: `DnsParser` of dataplane/src/dns/parser.cpp.
--   A packet is the list of its bytes, and a read outside it is the result `fault` of Base/Results,
--   which also has `ErrorCode` and `Result` of dataplane/include/common; Errors has the classes
--   themselves. The `while (true)` of `decode_name` is `loop` of Base/Loop, which goes on by
--   accessibility, since each pass moves on in the packet or takes one of at most eight pointers; no
--   fuel is needed. Name/Spelling is the wire form with compression pointers, as a relation.
-- - Response: `ResponseBuilder` of dataplane/src/dns/response.cpp.
-- - Trie: `DomainSuffixTrie` of dataplane/src/engine/suffix_trie.cpp. The node and its map of children
--   are a pair of data types; Trie/Matches states which rule is found, on lists of rules, and
--   Trie/Labels what the labels of a name are.
-- - Policy: dataplane/include/engine/decision.h, and `PolicySnapshot` of
--   dataplane/include/runtime/atomic_snapshot.h.
-- - Snapshot: `SnapshotManager` of dataplane/src/runtime/atomic_snapshot.cpp; Snapshot/Race has its
--   atomic loads and stores as steps of two threads.
-- - Cache: `DnsCache` of dataplane/src/engine/cache.cpp. A node of the list has a number, its
--   iterator; the use of an iterator whose node is gone is `fault`. Cache/Lru is its specification, a
--   list in the order of use, which Cache/Questions keeps by question. Text has `std::to_string`.
--   Cache/Lifetime and Cache/Under have the lifetime and the key that an insertion is to give.
-- - Forwarder: `UpstreamForwarder` of dataplane/src/dns/forwarder.cpp. The numbers that the generator
--   draws are a list, and the loop that draws goes through it; 2048 distinct numbers are enough.
-- - Ipc: dataplane/src/runtime/ipc_server.cpp, the search for the fields of a request and the command
--   that replaces the policy. The loop over the strings of a field runs on fuel, the length of the
--   request, and each of its rounds moves on by one byte at least.
-- - ControlPlane: controlplane/main.go, the checks of a posted policy and the request that carries it
--   to the control socket. `json.Marshal` writes a string by a parameter. ControlPlane/Blocking goes
--   on to the decision on a name.
-- - AhoCorasick: dataplane/src/engine/aho_corasick.cpp, a matcher that the event loop does not use.
--   Its loops over the failure links and over the queue of `build` run on fuel, the number of nodes:
--   a link leads to a shorter word, and a node enters the queue once.
-- - Dataplane: dataplane/src/main.cpp, the seed policy and the handler of each socket. A handler takes
--   the bytes that came in and leaves the state and the bytes that go out; it calls the parts above
--   in the order of the source. Dataplane/Loop has the loop over `poll`.
-- - Startup: dataplane/src/main.cpp, `UpstreamForwarder::init` and `IpcServer::start` and `stop`, by what
--   the system calls return, with a record of the calls that open and close. Startup/Arguments is the
--   command line.
-- - Entropy: dataplane/include/detection/entropy.h, over any arithmetic in place of `double`. The event
--   loop only logs what it returns, so the handlers do not have it.
-- - Packets and Examples: concrete packets and states.
--
-- A map (`std::unordered_map`) is an association list, a set a list (Base/Map, Base/Set). Numbers are
-- natural numbers: bytes and words are below 2 ^ 8 and 2 ^ 16 as they are read, and each cast to a
-- byte is written out; offsets, counters, and the clock in nanoseconds have no bound. A method
-- under a mutex is one step. The clock, the random draws and the outcome of `sendto` are arguments.
--
-- Not modelled: what the system calls do, the arithmetic of `double`, and the log; HTTP and the
-- counters of the control plane, and the tools in other languages.
pub mod Base
pub mod Wire
pub mod Name
pub mod Parser
pub mod Response
pub mod Trie
pub mod AhoCorasick
pub mod Policy
pub mod Text
pub mod Snapshot
pub mod Cache
pub mod Forwarder
pub mod Ipc
pub mod ControlPlane
pub mod Dataplane
pub mod Entropy
pub mod Errors
pub mod Startup
pub mod Packets
pub mod Examples

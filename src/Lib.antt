-- ===== src/Lib.antt =====
-- Verification of the key-value cache: the store with its eviction policies, the HTTP server in
-- front of it, the client, and the programs that measure it.
--
-- How the parts interact. A cache (cache.hh, cache_lib.cc) maps keys to byte strings within a bound
-- on their memory. It tells an evictor (evictor.hh) of each key that is set or got, and asks it for
-- keys to drop when there is no room; the two evictors are a queue (fifo_evictor.cc) and a doubly
-- linked list with a hash table (lru_evictor.cc). The server (cache_server.cc) reads requests on a
-- connection and answers them from the cache. The client (cache_client.cc) has the cache's interface
-- and sends the requests. Two programs measure a cache through that interface (statistics.cc and
-- benchmark.cc), with requests, keys and values of a generator (workload_generator.cc).
--
-- How the theorems fit together. `Cache` is the interface, Cache/Contract what it promises, and
-- Cache/Bounded a specification that runs: a map within a bound, with an order in which keys leave.
-- CacheLib/Agrees holds the store against it, operation by operation; Library/Exact and Library/Lru
-- the library, Server/Exact the requests of the server, and Session/Many a server with any number
-- of sessions and one thread, which is the default: a handler ends before another begins. What more
-- threads can do is in Library/Threads, by calls of the cache, and in Server/Race. The specification
-- has the failures too; the contract says less, and of more caches: it is about values that fit.
-- A session closes after the first request that it carries out, which Client/OverSession is about.
-- So Client/Anew has a new client and a session of its own for every call, and holds it against the
-- library and the contract, by way of Client/Exact and Client/Implements, which have no sessions.
-- Library/Implements holds the library against the contract. The theorems on the two programs that
-- measure are about any cache that keeps it, as the client does with a session for each call, and
-- not with the one connection that the programs keep; Requests/Generated is about the requests of
-- the generator.
--
-- Which file models which part. The children of a module hold its lemmas.
--   Shared      numbers, texts, lists and tables; `Result` has the ways in which the program stops:
--               a failed assert, a fault, signed overflow, an exception that nobody catches
--   Memory      objects at addresses: `new`, `delete` and pointers
--   Evictor     evictor.hh: `Evictor` is the class, `IsPolicy` what a cache relies on: an order of
--               keys in which they will be evicted, and what a touch does to it
--   Fifo        fifo_evictor.hh, fifo_evictor.cc; Fifo/Order fills `IsPolicy`
--   Lru         lru_evictor.hh, lru_evictor.cc: `touch_key` with its branches touch_new,
--               move_head and move_middle, and `evict`; Lru/Segment has doubly linked segments,
--               Lru/Policy fills `IsPolicy`
--   CacheLib    cache_lib.cc: `Cache::Impl`, one definition for each of set, get, del, reset and
--               free; admit, make_room and store are the parts of set
--   Cache       cache.hh: the member functions as a record, and sequences of calls; Cache/Bounded
--               is a specification, and models no code
--   Library     cache_lib.cc: the member functions of `Cache`, with the mutex; Library/Threads has
--               them under several threads, which move in any order
--   Server      cache_server.cc: `handle_request`, with a definition for each method;
--               Server/Commands is a specification: what a request asks for, and its answer
--   Session     cache_server.cc: `session`, as a state machine with a step relation; Session/Many
--               has any number of sessions on one cache, whose completions come in any order
--   Listener    cache_server.cc: `listener`
--   Arguments   cache_server.cc: is_number, is_ip, to_number and set_params
--   Main        cache_server.cc: `main`; Main/Service has its try block
--   Client      cache_client.cc: the client's `Cache::Impl`; Client/Connection has the connection
--               and the member functions of `Cache`, Client/OverSession a session at its other end,
--               Client/Anew a session for each call
--   Workload    workload_generator.cc: keys and values; Workload/Generator has the distributions,
--               the state, the constructor and the member functions
--   Requests    statistics.cc and benchmark.cc: one request, which both make in the same way
--   Statistics  statistics.cc: the loop with its counters, the exported file and `main`
--   Benchmark   benchmark.cc: threaded_performance, the threads as a step relation, and `main`;
--               Benchmark/Thread has the loop of one thread, Benchmark/Sorted is about `std::sort`
--   Examples    tests at small inputs, and an instance of each theorem
--
-- State and errors. An operation takes the state and gives a `Result` with the new one. A call of the
-- cache holds the mutex: it is one step, but in Library/Threads, where threads take the mutex, work
-- and give it back, and the mutex of the LRU evictor inside of it. The one access outside the mutex,
-- through the pointer that `get` has handed out, is a step of its own (Server/Race).
--
-- Bounds. `uint32_t` sums wrap at 2^32, an `int` result out of range stops the model. The invariant
-- of the store has a maximum below 2^30, so that no sum of two sizes overflows; the default is
-- 300000. The loops that make room, empty the table and drain the evictor take a number of rounds;
-- each of them shortens the evictor's order or the table, so one more than their length is enough,
-- and the theorems ask for no more. Library/Lru reads that number off the state. With a policy whose
-- order gets longer by one key at most when a key is touched, as both do, the number of requests is
-- a bound (Server/Growth). A hash table is an association list: the program does not depend on its
-- order, but for the order in which `reset` frees, which no result depends on.
--
-- Parameters: `new` gives an address that is not in use; Boost.Beast's version, its `need_eof` and
-- the text of a header; the JSON text of a key and a value; `getopt`; `atoi`; `rand`, the
-- engine and its distributions; floating-point numbers; the clock; `std::sort`; name resolution and
-- the socket of the client; the service that runs until it is stopped. What is used of them is a
-- named hypothesis, and an instance of each is in Examples.
--
-- Not modelled: what is inside sockets, timeouts and threads; output to the terminal, but for the
-- refused value, which is read as a C string; the hash functions; the block of cache_server.cc
-- that is commented out; the constructor of the library for a client, which leaves the pointer
-- empty; catch.hpp, a copy of a test framework; graph.py, a plotting script.
pub mod Shared
pub mod Memory
pub mod Evictor
pub mod Fifo
pub mod Lru
pub mod CacheLib
pub mod Cache
pub mod Library
pub mod Server
pub mod Client
pub mod Arguments
pub mod Session
pub mod Listener
pub mod Main
pub mod Workload
pub mod Requests
pub mod Statistics
pub mod Benchmark
mod Examples

-- ===== src/Lib.antt =====
-- sonnet-pro: the Go modules sonnet-web, sonnet-rpc-v2, sonnet-cache, sonnet-cache-v2
-- and sonnet-orm.
--
-- Each folder below follows a Go module of the repository; paths are from the repository's root.
--
-- Web: a small HTTP framework. `Web.Trie` is sonnet-web/trie.go (`insert`, `search`, `travel`),
-- `Web.Router` is sonnet-web/router.go (`parsePattern`, `addRoute`, `getRoute`, `handle`),
-- `Web.Context` is the handler chain of sonnet-web/context.go (`Next`, `Fail`), and `Web.Engine` is
-- sonnet-web/sonnet.go (groups, middlewares, `ServeHTTP`). A request goes from the engine, which
-- gathers middlewares, to the router, which adds one handler, to the chain, which runs them.
--
-- Rpc: the parts of sonnet-rpc-v2/internal that a call passes through. `Rpc.Limiter` is
-- limiter/token_bucket.go, `Rpc.Balance` is load_balance, `Rpc.Breaker` is breaker/breaker.go,
-- `Rpc.Pool` is transport/tcp_connection_pool.go, `Rpc.Protocol` is protocol/message.go with
-- codec/compress.go, and `Rpc.Packets` is the buffer of transport/tcp_connection.go.
--
-- Cache: sonnet-cache. `Cache.Ring` is consistent_hash/consistent_hash.go, and `Cache.Lru` is
-- lru/lru.go.
--
-- CacheV2: sonnet-cache-v2. `CacheV2.Lru` is store/lru.go. `CacheV2.Lru2` is one level of
-- store/lru2.go (`put`, `get`, `del`, `walk`, `adjust`), whose arrays of indices form a linked
-- list, and `CacheV2.Levels` is the store over pairs of levels. `CacheV2` is cache.go over the
-- interface of its stores, `CacheV2.Group` is group.go over a cache, its peers and its getter,
-- with the global map of groups in `CacheV2.Group.Registry`. `CacheV2.Ring` is consistent_hash/consistent_hash.go with its balancer.
--
-- Flight: `Flight` is single_flight/single_flight.go of both cache modules, as step relations over
-- any number of callers. A step is what happens under one lock, or one operation of `sync.Map`.
--
-- Orm: `Orm.Clause` is sonnet-orm/clause (the generators, `Set` and `Build`), and `Orm.Session` is
-- sonnet-orm/session (raw.go and record.go), which makes a statement of the clauses, gives it to
-- the database and clears itself. `Orm.Transaction` is `Transaction` and `difference` of
-- sonnet-orm/sonnet_orm.go.
--
-- Conventions. A Go string or byte slice is the list of its bytes; a map is an association list; a
-- pointer to a shared object is an index or an identity; a run-time panic is a constructor or
-- `none`. A mutex makes a method one step, so a method is a function from a state to a state and a
-- result. Machine integers are natural numbers or integers with the wrap-around written where it
-- can occur: `uint32` lengths of a frame, the `uint64` counter of round robin, the `int32` hash
-- and the `uint16` sizes of the two-level store, whose arrays panic (`none`) outside their length;
-- its `expireAt` counts as 0 where the sum of `int64` overflows to a negative number. Floats are parameters.
--
-- Fuel. `Web.Context.loop` needs one round more than there are handlers. `Rpc.Packets.drain` needs
-- the length of the buffer, since each packet has ten bytes or more. `Rpc.Pool.scan` needs the
-- number of connections, `Cache.Lru.evict` one round more than entries, and
-- `Cache.Ring.sort_search` the width of its interval. `CacheV2.Lru.shrink` needs the length of the
-- list, and `CacheV2.Lru2.walk` the number of entries.
--
-- Parameters. The hash function of a ring, the float arithmetic of its balancer, the JSON codec
-- and gzip (`Rpc.Protocol.Codecs`, with the hypotheses `IsLawful`), the random generator,
-- dialling, the database and the float test of the breaker are arguments; the clock is an argument
-- of each call. So are the peers and the getter of a group (`CacheV2.Group.World`) and what the
-- function of a single flight returns. A store below the cache is a record of operations.
-- The JSON codec restores a header only if its strings are valid UTF-8 (`IsText`).
--
-- Not modelled: sonnet-ai and its front end (calls of databases, brokers and model services),
-- sonnet-rpc, the groups and peers of sonnet-cache, the peers, server and client of
-- sonnet-cache-v2, the client and server of sonnet-rpc-v2, the schema and dialects of sonnet-orm,
-- generated protobuf code, examples and benchmarks, and the parts of the modules above that only
-- call net/http, sockets, etcd or database/sql. Tickers and the goroutines that wait for them are
-- left out; what they run at a tick is an operation. The function of a single flight returns: a panic
-- of it, after which a recovering caller leaves the key in the map and the waiters waiting, is left out.
pub mod Cache
pub mod CacheV2
pub mod Flight
pub mod Orm
pub mod Prelude
pub mod Rpc
pub mod Tests
pub mod Web

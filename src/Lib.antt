-- ===== src/Lib.antt =====
-- gocache: a cache server in Go that speaks the Redis protocol, alone or as a cluster with a
-- consistent hash ring, leaders and followers. This library models its core and proves what makes
-- it correct. Each file opens with the source that it is about.
--
-- The parts and how they work together:
-- - Lru (internal/lru/lru.go): the doubly linked list, on a heap of nodes whose addresses stand for
--   Go's pointers. A nil dereference is a panic.
-- - Cache (internal/cache/cache.go, enumeration.go): the map of items, the memory count, the metric
--   calls and the mutex around Lru. A call that waits for a mutex its own goroutine holds is
--   `blocked`. Set, Get, Delete and CleanupExpired are `set`, `get_value`, `delete_key` and
--   `cleanup_expired`; SetInternal, GetInternal and DeleteInternal are the `_internal` functions that
--   they call under the lock. Cache.Spec is the abstract cache: a bounded list of entries, most
--   recently used first.
-- - Resp (pkg/protocol/parser.go) and Resp.Encoder, Resp.Redirect (encoder.go): the reader and the
--   writers of the protocol. The server, the followers and the clients all use them.
-- - Ring (internal/cluster/hash.go) and Ring.Migration (migration.go): the positions of the shards, the
--   owner of a key and the plan of what moves when a node joins or leaves. Its key ranges are those of
--   Cache.Enumeration, which lists the keys to move.
-- - PubSub (internal/pubsub/pubsub.go): channels and their subscribers, whose queues Publish fills
--   (PubSub.Delivery) and whose Go channels are closed when the last subscription goes.
-- - Health (internal/cluster/health.go): the failure detector of the nodes; Health.Runs is about
--   sequences of its calls.
-- - Replication.Protocol and Replication.Decoder (internal/replication/protocol.go): the messages between
--   leader and follower, over Resp. Replication.Leader (leader.go) numbers the writes and sends them;
--   Replication.Follower (follower.go) reads them in the sync and in the stream and applies them to its
--   cache; Replication.Writes and Replication.Stream join the two.
-- - Persistence (internal/persistence/aof.go, snapshot.go, recovery.go): the append-only file and the
--   snapshot as lists of bytes, with Append, the rewrite and CreateSnapshot in Persistence,
--   ReadOperations in Persistence.Reading, LoadSnapshot and RecoverAOF in Persistence.Recovery.
-- - Config (internal/config/config.go) and Server.State (internal/server/state.go): the settings, the
--   role of a node and the routing of a key.
-- - Server (internal/server/handler.go): Server.Session has the state of a connection with all that its
--   commands change, and queues the commands of a transaction; Server.Exec is EXEC and the functions
--   execute...Command; Server.Handlers has handleSet and its like; Server.Connection is the loop of
--   handleConnection, whose writes go to Cache, Replication.Leader and Persistence. A session is one
--   connection with the node to itself. The other files of Server are about what the commands do.
-- - Migrator (internal/cluster/migrator.go) and Migrator.Transfer (transfer.go): the moves of keys when
--   a node joins or leaves, over Cache, Ring and Ring.Migration.
-- - Prelude: what the parts share. Go maps are association lists with one entry for each key
--   (Prelude.Maps); the order of a list stands for the order, unspecified in Go, in which `range`
--   visits the map. Prelude.Decimal is strconv's Itoa and Atoi for 64 bits; Prelude.Results has the
--   outcomes done, panic and blocked.
--
-- Choices:
-- - Strings are lists of bytes. A time is a natural number of nanoseconds, read from the clock once
--   for each call, or for each item where a loop reads it, and passed in; a zero time.Time is `none`.
-- - The memory count is an int64 and is kept modulo 2^64. Lengths of lists and maps are natural
--   numbers: that memory runs out, and that make() refuses a huge length, is not modelled.
-- - `parse` has fuel for the nesting of arrays; more fuel than bytes is enough (Resp.Fuel). The
--   binary search of the ring has one unit of fuel more than the list has values, and Ring.Search
--   shows that it finds its place.
-- - The loops that read a connection or a file have one unit of fuel for each round, and each round
--   takes a byte: one more than the bytes is enough.
-- - A clock is a function from the rounds of a loop to times. int64(d.Seconds()), which goes through a
--   float64, is the parameter `whole` with the facts IsWhole, and the comparison of the growth of the
--   append-only file, a division of floats, is the parameter `exceeds`, of which nothing is assumed.
-- - A connection is the list of the bytes still to be read and the list of those written. Files can
--   always be written. The trigger of Append only sets the flag that a rewrite was launched; the
--   goroutine behind it is `run_launched_rewrite`, a step of its own, and Server.Logs runs it at the end
--   of the connection: a rewrite in the midst of a connection's appends is not covered. Locks of a
--   record whose calls do not wait for one another are left out.
-- - The hash function (SHA-256, cut to 32 bits) is a parameter, and nothing is assumed of it but, for
--   the walk round the ring in Cache.Enumeration, that its values are below 2^32.
-- - A ping of the health checker is a parameter too: whether the address answers. So are, for a
--   migration, the network and the nodes behind it: `dial` and `ask` on any type of their states.
-- - Log lines are left out. Metric calls are listed in the cache's `calls`.
--
-- Not modelled: cluster_commands.go, server.go, the elections and the connections of follower.go, the
-- goroutine that empties a subscriber's queue, tickers and file errors, connections that run at the same time, flags and YAML, metrics and the
-- clients: I/O, goroutines and wiring around the parts above.
pub mod Cache
pub mod Config
pub mod Health
pub mod Lru
pub mod Migrator
pub mod Persistence
pub mod Prelude
pub mod PubSub
pub mod Replication
pub mod Resp
pub mod Ring
pub mod Server

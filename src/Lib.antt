-- ===== src/Lib.antt =====
-- Shardlands is a game back end in Go. The development models the parts that agree, count and move
-- goods: consensus, locks, clocks and counters, protection of calls, placement by hash,
-- inventories, trades, the outbox, and the storage engine.
--
-- Modules and the code they model, with paths from the repository's root:
--
--   Prelude     Boolean tests, lists and maps, integers: what the other modules share
--   Counts      the maps of counts that pkg/crdt and pkg/clock keep
--   Raft        pkg/raft/raft.go, storage.go, node.go
--   Dlock       pkg/dlock/dlock.go
--   Resilience  pkg/resilience/breaker.go, bulkhead.go
--   Crdt        pkg/crdt/gcounter.go, pncounter.go
--   Clock       pkg/clock/clock.go
--   Hashring    pkg/hashring/hashring.go
--   Es          pkg/es/es.go
--   Inventory   services/inventory/events.go, ops.go
--   Trade       services/trade/trade.go, steps.go, orchestrator.go
--   Outbox      services/outbox/outbox.go, consume.go
--   Storage     pkg/storage: memtable.go, codec.go, wal.go, bloom.go, sstable.go, merge.go, db.go
--
-- How they interact. A lock manager proposes commands to a Raft node, and each replica applies what
-- its node delivers: Dlock.Manager calls Raft.Replication.propose, and Dlock.Replica has the state
-- machine. A trade calls the inventory: Trade.Orchestrator calls Inventory.Ops, which appends to an
-- event store. To the inventory the store is an interface, a record of operations and laws in
-- Inventory.Ops; Inventory.EventStream fills it with Append and ReadStream of Es.Store.
--
-- Raft. Node is the struct, with what it has saved in its storage beside it. Each handler is one
-- step, as the source holds its mutex from the first line to the last: HandleRequestVote and
-- HandleAppendEntries, the ticker's rounds, startElection, the answers to votes and appends,
-- Propose, the applier. NewNode is a start from the storage. The clock's reading and the random
-- timeout are arguments. The log of a node starts at index 1, as in the source. Raft.Run has runs
-- of one node, crashes included.
--
-- Dlock. Commands are decoded by JSON, a parameter. The clock of a command is the reading that the
-- leader put into it. Times are milliseconds.
--
-- Resilience. Times are readings of the clock; a select's choice is an argument.
--
-- Clock and Crdt. uint64 additions wrap. A Go map is an association list in which no key stands
-- twice; the order of a range over a map is the list's.
--
-- Hashring. CRC-32 is a parameter. sort.Search is the first index that passes, as it is on a sorted
-- ring; sort.Slice is an insertion sort. itoa has as much fuel as its number, which has fewer
-- digits.
--
-- Es. The storage engine is the map that Storage shows it to be, from the first number of a batch
-- to the batch; whether a Put goes through is an argument. Each operation holds its mutex where it
-- matters, and is one step. Open scans the batches in the order of their numbers. Not modelled
-- there: times, ReadAll and the subscriptions.
--
-- Inventory and Trade. JSON's decoders and encoders are parameters, with the round trip of the
-- moves in question as a hypothesis. Amounts are unbounded integers. Other goroutines may append to
-- the store between any two calls. Reserve's loop runs over its 8 attempts.
--
-- Outbox. A round of the relay has what ReadAll returned, and what became of each publication and
-- of the save of the checkpoint, as arguments; its messages are events with their numbers. The bus
-- gives the consumer's handler one message at a time; the read model is a parameter.
--
-- Storage. Db is the engine: a write goes to the log (Wal), then to the memtable (Memtable), which
-- a flush writes as a table (Table, with its filter in Bloom); a compaction merges the tables
-- (Merge). Log and tables hold the frames of Codec. Files are lists of bytes. CRC-32 and the
-- filter's number of probes, which comes from floating point, are parameters. A filter whose bits
-- wrap to 0 in uint32, where the source divides by it and panics, gives no table. What the system
-- makes of a write, and the step of a flush or compaction that fails, are arguments, each removal
-- of an old file apart; a crash is a new Open of what is on the disk. The locks make each operation
-- one step. The skip list's random draws are a list. A loop over bytes has one round more than
-- there are bytes, and each round takes at least one; a merge has one round more than there are
-- records. In a table's file the records are bytes, and the index and the filter are values. Not
-- modelled there: I/O errors of Open, the text of the manifest, and the footer of a table.
--
-- Not modelled: the network and the goroutines of Raft, actors, sockets, the arena's simulation and
-- the rate limiter, which compute in floating point, and glue to Kubernetes, NATS and the secrets
-- service.
pub mod Prelude
pub mod Clock
pub mod Counts
pub mod Crdt
pub mod Dlock
pub mod Es
pub mod Hashring
pub mod Inventory
pub mod Outbox
pub mod Raft
pub mod Resilience
pub mod Storage
pub mod Trade

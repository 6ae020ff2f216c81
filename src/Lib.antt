-- ===== src/Lib.antt =====
-- InfoCrate: a distributed key-value store shown in the browser. The program under src/ simulates a
-- cluster of two shards with three replicas each: every node has an LSM engine with a write-ahead
-- log, a memtable and two levels of sorted tables, every shard elects a leader, a router sends each
-- query to the shard of its key, and the views let a user query, break and watch the cluster.
--
-- The parts and their modules:
--   Text, Sort, Dict: the values of the language that the program stands on: strings of UTF-16 code
--     units with `===`, `<`, `trim` and `TextEncoder`, `Array.sort`, and `Map` with string keys.
--   Hash: src/engine/crc32.ts, crc32IEEE, fnv1a64 and murmur3_64. Each mask of the source is a
--     remainder by a power of two.
--   Wal: the frames of put and delete of src/engine/storageEngine.ts, byte by byte; Wal.Recover is
--     the reader of the same format, WAL.Recover of go/pkg/lsm/wal.go.
--   SsTable: createSSTable, checkBloomFilter and the search of a table.
--   Lsm: the class SimulatedLsmEngine. A method takes the engine's state and returns the new one;
--     Lsm.Lookup is get. put, delete and the constructor call rotateAndFlush, which calls
--     triggerCompaction, as in the source.
--   Cluster: the class ClusterSimulator of src/engine/clusterSimulator.ts on the records of
--     src/types/infocrate.ts. Cluster.Boot is its start, Cluster.Election the timer's heartbeat,
--     Cluster.Query with Cluster.Query.Apply executeQuery, Cluster.Control the switches, and
--     Cluster.Reach puts them together as the steps of a running program. The engines are a map
--     from node ids, as in the source; a node shows a copy of its engine's tables, which syncState
--     renews.
--   Console, Chaos, Dashboard: the handlers of src/components/QueryConsole.tsx and ChaosLab.tsx, and
--     what MetricsDashboard.tsx, Header.tsx, ClusterTopology.tsx and LsmInspector.tsx compute.
--   App: the state of src/App.tsx and its subscription.
--   Views: what each component of src/components renders, as the texts and the controls in the
--     order of the document, and what its controls do. Views.Session puts the page of src/App.tsx
--     together: the component of the active tab with its state, over one cluster.
--   Server: the storage of the server under go/pkg. Server.Log is lsm/wal.go, Server.Memtable the
--     skip list of lsm/skiplist.go, Server.Bloom lsm/bloom.go, Server.Table the writer and, in
--     Server.Table.Reader, the reader of lsm/sstable.go, Server.Merge the merge of
--     lsm/compaction.go, Server.Router shard/router.go. Server.Engine is lsm/engine.go on top of
--     them: the calls, in Server.Engine.Background the flush worker and the compaction, and in
--     Server.Engine.Opening what OpenEngine makes of the files. A file is the list of its bytes; each
--     part of the engine under its lock is one step, so that a run is an order of steps. Server.Raft
--     is raft/node.go with raft/log.go, one node whose goroutines and timers are steps in any order.
--   Tests: concrete runs.
--
-- What the platform decides is an argument: the clock and the time stamps, Math.random (the coin
-- tosses of a skip list's height, ids), and localeCompare, whose agreement with `<` on the stored
-- keys is a named assumption (Lsm.Range.Collation) where a theorem needs it. An exception, which the
-- source throws where it uses a shard or an engine that is not there, is `none`.
--
-- Loops are structural recursion. The fuel of build_blocks is the number of entries, and each round
-- takes at least one; that of recover is the number of frames or, in Server.Log, of bytes, of which a
-- frame has twenty at least, and the round trips are stated for it; the loops over the blocks and the
-- index of a table have the number of bytes for fuel, and every entry takes fifteen or more;
-- that of digits_in is the number plus one, which has more digits in no base.
--
-- Numbers are natural numbers; latencies are hundredths of a millisecond. The titles and the
-- descriptions of a query's steps are kept as the values that they show.
--
-- Not modelled: the classes, icons and nesting of the rendered elements and the source texts that
-- CodeExplorer.tsx shows; the entry point src/main.tsx; of the server in Go the transport, the
-- metrics, the commands and the deployment files. The calls of a Raft node to its peers, which are
-- stubs in the source, do nothing here either. Of the skip list, the array of predecessors and the
-- splice of a new node on each level are not modelled: its links above level 0 are taken to be those
-- that the heights of the nodes give. Of the server's storage, hash/fnv, murmur3, the sizes of a
-- Bloom filter by floating-point formulas and the heights of the skip list are parameters or
-- arguments. An int64 time is an integer in the entries of the log and is kept as its 64 bits
-- elsewhere, which compare as the times do where no time is negative. Table files are written
-- without an error, and the counters of Stats, which nothing reads, are kept but not reported.
pub mod Common
pub mod Text
pub mod Sort
pub mod Hash
pub mod Wal
pub mod SsTable
pub mod Dict
pub mod Lsm
pub mod Cluster
pub mod Console
pub mod Dashboard
pub mod App
pub mod Chaos
pub mod Tests
pub mod Server
pub mod Views

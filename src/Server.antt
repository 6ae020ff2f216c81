-- ===== src/Server.antt =====
-- The Go server under go/pkg.
pub mod Log
pub mod Memtable
pub mod Merge
pub mod Bloom
pub mod Table
pub mod Engine
pub mod Router
pub mod Raft

-- ===== src/Storage.antt =====
-- The storage engine, pkg/storage: an LSM tree of a memtable, a log and sorted tables.
mod Examples
pub mod Bytes
pub mod Memtable
pub mod Records
pub mod Merge
pub mod Codec
pub mod Wal
pub mod Bloom
pub mod Table
pub mod Db

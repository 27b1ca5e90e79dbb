-- ===== src/Storage.antt =====
-- hotstuff/block_storage: the cache of blocks and its garbage collector.
pub mod GarbageCollector
pub mod BlockStore
pub mod Index
pub mod Files

-- ===== src/Database.antt =====
-- database: the entities of a game and the writes of them, which a shard's executor gathers.
pub mod Executor
pub mod Shards
pub mod Indexes
pub mod Manager

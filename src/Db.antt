-- ===== src/Db.antt =====
-- The package db: the orders of the database, and the operations of the indexer on them.
pub mod Order
pub mod Indexer
pub mod Consumers
pub mod Exchange
pub mod Pairs
pub mod Samples
mod Tests

-- ===== src/Blocks.antt =====
-- monitor/blocks: the block monitor and its ring of recent blocks.
pub mod Ring
pub mod Monitor
mod Tests

-- ===== src/Types.antt =====
-- The package types: 0x orders, their asset data, signatures and texts.
pub mod Text
pub mod AssetData
pub mod Signature
pub mod Order
mod Tests
pub mod Samples

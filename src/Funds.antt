-- ===== src/Funds.antt =====
-- The package funds: can the maker of an order still fill it, and has it been filled or cancelled?
pub mod OrderValidate
pub mod Consumers
mod Tests

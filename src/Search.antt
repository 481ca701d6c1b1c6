-- ===== src/Search.antt =====
-- search/: the queries of clients on the table of orders, and the pages that answer them.
pub mod Query
pub mod Pages
pub mod Handlers
pub mod Book
mod Tests

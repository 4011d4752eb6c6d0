-- ===== src/Expenses.antt =====
-- The parts of src/modules/expenses: lists in pages and their cursors, the tables, the feed, the
-- comments, and the writes with the balances.
pub mod Paging
pub mod Cursor
pub mod Store
pub mod Feed
pub mod Comments
pub mod Payload
pub mod Snapshot
pub mod Ledger
mod Tests

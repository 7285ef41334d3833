-- ===== src/Transfer.antt =====
-- Transfers of units between franchises (app/services/transfer.py). A call that raises leaves the
-- tables alone: what it wrote stands in a nested transaction, which is rolled back.
pub mod Rows
pub mod Moves
pub mod Outbound
pub mod Inbound
pub mod Completion
pub mod Creation
mod Tests

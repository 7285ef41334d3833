-- ===== src/Sync.antt =====
-- Synchronisation with Master (app/services/master_sync.py).
pub mod Like
pub mod Json
pub mod Codes
pub mod Rows
pub mod Reply
pub mod Outbox
pub mod Enqueue
pub mod Partition
pub mod Snapshot
pub mod Inbox
mod Tests

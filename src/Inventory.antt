-- ===== src/Inventory.antt =====
-- Batches of scanned serials (app/services/inventory.py).
pub mod Errors
pub mod Rules
pub mod Loaded
pub mod Shelf
pub mod Submit
pub mod Returns
pub mod Edits
pub mod Fefo
pub mod Assignment
pub mod Scan
mod Tests

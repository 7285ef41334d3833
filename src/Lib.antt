-- ===== src/Lib.antt =====
-- Setuora Lite is the stock application of one franchise. It keeps a table of units, each with its own
-- serial number; moves them through their statuses by batches (purchase, sale, damage, audit and others)
-- and by transfers between franchises; and reports each change as an event to the head office, Master.
--
-- The parts, and the code that each models:
--   Base, Int       lists, tables keyed by a number or a text, equality, ASCII texts, integers
--   Model           the rows and the enumerations of app/models.py
--   Inventory       app/services/inventory.py and app/services/shelf_verification.py: which batch takes a
--                   serial (Inventory.Rules: serial_allowed_for_batch, and the targets of
--                   apply_batch_statuses), the shelf checks (Inventory.Shelf), the submission of a batch
--                   (Inventory.Submit: apply_batch_statuses), the edits of a draft (Inventory.Edits), and
--                   app/services/sale_returns.py (Inventory.Returns); the scans into a draft and the
--                   picking by expiry (Inventory.Scan),
--                   the order of expiry of app/services/expiry.py (Inventory.Fefo), and the timed audits
--                   of app/services/audit.py (Inventory.Assignment)
--   Transfer        app/services/transfer.py: drafts and their reservations and the dispatch
--                   (Transfer.Outbound), the scans and the receipt (Transfer.Inbound), the loop that both
--                   share (Transfer.Moves), the creation of a draft (Transfer.Creation), and the receipt
--                   that Master reports (Transfer.Completion: apply_transfer_receipt_command)
--   Sync            app/services/master_sync.py: the franchise code (Sync.Codes), queueing an event
--                   (Sync.Enqueue: enqueue_outbox_event), the baseline of the stock (Sync.Partition:
--                   _partition_initial_inventory_items; Sync.Snapshot:
--                   enqueue_initial_inventory_snapshot), the delivery of the outbox (Sync.Outbox:
--                   push_pending_events) with the reading of Master's answers (Sync.Reply), and the
--                   commands of Master (Sync.Inbox: apply_master_command, poll_master_commands)
--   Receipts        app/services/receipts.py: create_receipt and apply_receipt_review_command,
--                   and its place behind the inbox (Receipts.Commands)
--   Voucher         app/services/voucher.py, and group_batch_items of app/services/inventory.py
--   Access          app/services/access_control.py: the access table (Access.Table), its configuration
--                   (Access.Config: normalize_role_access_config), and the page where a user lands
--                   (Access.Landing: landing_path_for)
--   Samples         rows that the tests share
--
-- A batch and a transfer change the same column, the status of a serial, and both change it by a
-- conditional UPDATE that names the status expected; the models keep that UPDATE with its row count. A
-- batch is loaded before it is submitted, and its rows in the tables can differ from what was loaded. The
-- events that the transfers queue join the outbox that Sync delivers. A receipt queues its event by the
-- same enqueue_outbox_event, and Master's review of it comes back as a command.
--
-- How the code is written here:
--   - A service is a function from the tables to the tables. A call that raises is a value of a result
--     type. The inventory services and create_receipt work on a session with the committed tables next
--     to the current ones: what a failing call has written is in the session until db.rollback(). A
--     transfer runs in a nested transaction, so a call that raises
--     returns no tables.
--   - Ids, dates and times are natural numbers, and what the clock and the database give (the time, the
--     id of a new row) are arguments. Prices and rates are integers of millionths of their unit.
--   - Texts are lists of character codes; str.strip, str.upper and str.split act on ASCII. The
--     startswith of a column is the LIKE of SQLite (Sync.Like).
--   - Hashing, JSON and the answers of the network are parameters: the fields of Sync.Reply.Env,
--     Sync.Enqueue.Host and Sync.Inbox.Platform. Whether enqueue_outbox_event takes an event is an
--     argument of the transfers that queue one. What each kind of command does is a parameter of the
--     inbox (Sync.Inbox.Handlers), of which Receipts.Commands fills the reviews.
--   - Amounts of a voucher are natural numbers of paise, and a quotient is rounded from its exact
--     value; the code rounds a Decimal of 28 digits.
--   - Every loop is a recursion on its list, but push_pending_events: it recurs on what is left of its
--     limit, limit - sent_count, which each turn that goes on makes smaller by one, so no fuel is
--     needed beyond the code's own bound.
--
-- Not modelled: the wording of messages and notes, the columns that no modelled service reads, the
-- command that announces a transfer and the decoding of the others, the creation of batches and of
-- serials, the event of a submitted batch, the check of the enrolment, the reconciliation of audits,
-- Tally, reports, web pages, the saving of the access table, authentication and deployment.
pub mod Base
pub mod Int
pub mod Model
pub mod Samples
pub mod Inventory
pub mod Sync
pub mod Transfer
pub mod Voucher
pub mod Receipts
pub mod Access

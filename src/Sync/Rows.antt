-- ===== src/Sync/Rows.antt =====
-- The rows that the synchronisation reads and writes (app/models.py): outbox events, and of a
-- batch and a receipt the columns of their delivery.
use setuora_lite.Base.{ℕ, Text, Option, List}
use setuora_lite.Model.{OutboxStatus, BatchStatus}

-- The text of `last_error`, by the place that writes it. The wording, with the key redacted and
-- the length cut, is not modelled.
pub data SyncMessage : Type 0 where
  recovered integrity_failed connection_failed unexpected : SyncMessage
  http_summary : ℕ → Text → SyncMessage
  bad_acknowledgement : SyncMessage

-- `aggregate_type`: the two types that the delivery looks at, and any other.
pub data AggregateType : Type 0 where
  batch receipt initial_inventory : AggregateType
  other : Text → AggregateType

-- The rows stand in the order of their ids, which is the order in which they were inserted.
pub record Event : Type 0 where
  pub id : ℕ
  pub event_id : Text
  pub event_type : Text
  pub schema_version : ℕ
  pub aggregate_type : AggregateType
  pub aggregate_id : Text
  pub batch_id : Option ℕ
  pub payload_json : Text
  pub payload_sha256 : Text
  pub status : OutboxStatus
  pub attempts : ℕ
  pub next_attempt_at : Option ℕ
  pub last_error : Option SyncMessage
  pub sending_at : Option ℕ
  pub sent_at : Option ℕ

pub record BatchDelivery : Type 0 where
  pub id : ℕ
  pub status : BatchStatus
  pub last_error : Option SyncMessage
  pub synced_at : Option ℕ

pub record ReceiptDelivery : Type 0 where
  pub receipt_uuid : Text
  pub synced_at : Option ℕ

pub record Outbox : Type 0 where
  pub events : List Event
  pub batches : List BatchDelivery
  pub receipts : List ReceiptDelivery

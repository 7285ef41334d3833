-- ===== src/Receipts/Tests.antt =====
-- A receipt that is created, denied, and denied again.
use setuora_lite.Sync.Like.{column_starts_with}
use setuora_lite.Sync.Inbox.Apply.{process_commands}
use setuora_lite.Receipts.Commands.{HasStatus, with_receipts, process_commands-final}
use setuora_lite.Receipts.Decisions.{apply_receipt_review_command_idem}
use setuora_lite.Receipts.Creation.{create_receipt-refused, create_receipt-effect}
use setuora_lite.Receipts.Reasons.{HasReason, apply_receipt_review_command-HasReason}
use setuora_lite.Sync.Enqueue.{
  enqueue_outbox_event, utf8_size, frozen_event_json, guard_baseline, validate_frozen_event_request,
  item_count, new_event, require_initial_inventory_queued, initial_inventory_is_queued, is_baseline,
}
use setuora_lite.Receipts.Review.{apply_receipt_review_command, decision_of, is_decided_otherwise}
use setuora_lite.Sync.Json.{as_int, Fields, is_truthy, get, items_length, cons, nil}
use setuora_lite.Receipts.{
  normalized_utr, Json, Submission, Receipt, Settings, Host, Fresh, Books, create_receipt, field,
  ImageType, gives, receipt_request, end, ReceiptError, max_proof_image_bytes, detected_image_type,
  BookSession, SyncError, validate_proof_image, new_receipt, fails,
}
use setuora_lite.Base.{
  strip_upper, strip, squeeze, upper, is_space, Text-discrete, [], ◌∷◌, nat_eq, text_eq, Text, All,
  codes, ◌≡◌, Option, some, named, false, none, inr, ◌≤◌, inl, ℕ, refl, length, ◌++◌, List, true,
  ◌⊎◌, ◌<◌,
}
use setuora_lite.Model.{ReceiptStatus, OutboxStatus}
use setuora_lite.Sync.Codes.{configured_franchise_code, normalize_franchise_code}
use setuora_lite.Sync.Rows.{Event, AggregateType}
use setuora_lite.Sync.Inbox.{Platform, Handlers, World}

abbrev str_of : Json → Text
str_of (Json.str s) = s
str_of _ = []

abbrev platform : Platform
platform = record { str = str_of; int = as_int; dumps = λ j. []; sha256 = λ s. s }

abbrev parse : Text → Option ℕ
parse s = some 70

abbrev review : Fields
review = field (codes "receipt_id") (Json.str (codes "R1")) (
    field (codes "status") (Json.str (codes "denied")) (
      field (codes "rejection_remarks") (Json.str (codes "too dark"))
        (field (codes "reviewed_by") (Json.str (codes "master")) end)))

abbrev submission : Submission
submission = record {
  user_id = 1;
  username = codes "clerk";
  receipt_uuid = codes "R1";
  receipt_date = 9;
  proof_image = 255 ∷ 216 ∷ 255 ∷ 0 ∷ [];
  proof_content_type = some (codes "image/jpeg; q=1");
  utr_number = codes "ab 12";
}

abbrev waiting : Receipt
waiting = record {
  receipt_uuid = codes "R1";
  receipt_date = 9;
  proof_image = 255 ∷ 216 ∷ 255 ∷ 0 ∷ [];
  proof_content_type = ImageType.jpeg;
  utr_number = some (codes "AB12");
  status = ReceiptStatus.pending;
  rejection_remarks = none;
  reviewed_by = none;
  reviewed_at = none;
  created_by_id = 1;
}

abbrev denied : Receipt
denied = record waiting {
  status = ReceiptStatus.denied;
  rejection_remarks = some (codes "too dark");
  reviewed_by = some (codes "master");
  reviewed_at = some 70;
}

review_runs :
    apply_receipt_review_command platform parse review (waiting ∷ []) ≡ gives (denied, denied ∷ [])
unfolding apply_receipt_review_command strip is_truthy get Text-discrete decision_of strip_upper
    squeeze is_decided_otherwise
review_runs = refl

apply_receipt_review_command_idem_example :
    apply_receipt_review_command platform parse review (denied ∷ []) ≡ gives (denied, denied ∷ [])
apply_receipt_review_command_idem_example =
    apply_receipt_review_command_idem platform parse review (waiting ∷ []) (denied ∷ []) denied
      review_runs

found_denied : named (λ (r : Receipt). r.receipt_uuid) (codes "R1") (denied ∷ []) ≡ some denied
unfolding Text-discrete
found_denied = refl

-- Nothing but reviews is carried out.
abbrev others : Handlers ℕ
others = record { handle = λ kind payload id count. none }

abbrev approval : Fields
approval = field (codes "command_id") (Json.str (codes "C7")) (
    field (codes "command_type") (Json.str (codes "RECEIPT_REVIEWED")) (
      field (codes "payload")
        (Json.obj (
          field (codes "receipt_id") (Json.str (codes "R1"))
            (field (codes "status") (Json.str (codes "APPROVED")) end)))
        end))

abbrev world : World (ℕ × List Receipt)
world = record { inbox = []; business = (0, denied ∷ []) }

process_commands-final_example :
    HasStatus others platform parse
      (codes "R1")
      ReceiptStatus.denied
      (process_commands
        (with_receipts others platform parse)
        platform
        (λ n. true)
        (λ n. 80)
        5
        0
        (cons (Json.obj approval) nil)
        world).1.business
process_commands-final_example =
    process_commands-final others platform parse (λ n. true) (λ n. 80) 5 0
      (cons (Json.obj approval) nil) world (codes "R1") ReceiptStatus.denied refl
      (denied, found_denied, refl)

apply_receipt_review_command-HasReason_example : All HasReason (denied ∷ []) × HasReason denied
apply_receipt_review_command-HasReason_example =
    apply_receipt_review_command-HasReason platform parse review (waiting ∷ []) (denied ∷ []) denied
      (refl, tt) review_runs

abbrev settings : Settings
settings = record {
  franchise_code = codes "F1";
  master_sync_enabled = false;
  master_url = [];
  master_api_key = [];
}

abbrev host : Host
host = record {
  dumps = λ j. b'x' ∷ [];
  sha256 = λ s. s;
  iso = λ n. n ∷ [];
  day = λ n. n ∷ [];
  show = λ n. n ∷ [];
  float = λ z. Json.int z;
}

abbrev fresh : Fresh
fresh = record { sequence = 2; event_id = codes "E2"; now = 50 }

abbrev baseline : Event
baseline = record {
  id = 1;
  event_id = codes "E1";
  event_type = codes "HEARTBEAT";
  schema_version = 1;
  aggregate_type = AggregateType.initial_inventory;
  aggregate_id = codes "F1:INITIAL-INVENTORY:EMPTY";
  batch_id = none;
  payload_json = [];
  payload_sha256 = [];
  status = OutboxStatus.sent;
  attempts = 1;
  next_attempt_at = none;
  last_error = none;
  sending_at = none;
  sent_at = some 10;
}

abbrev books : Books
books = record { receipts = []; events = baseline ∷ [] }

abbrev row : Event
row = new_event host (receipt_request host (λ s. s) submission waiting) fresh

abbrev session : BookSession
session = record { current = books; committed = books }

abbrev books_after : Books
books_after = record { receipts = waiting ∷ []; events = baseline ∷ row ∷ [] }

abbrev session_after : BookSession
session_after = record { current = books_after; committed = books_after }

create_runs :
    create_receipt settings host (λ s. s) fresh submission session ≡ (inr waiting, session_after)
unfolding create_receipt enqueue_outbox_event configured_franchise_code normalize_franchise_code
    strip_upper Text-discrete utf8_size frozen_event_json guard_baseline
    validate_frozen_event_request item_count get new_event require_initial_inventory_queued
    initial_inventory_is_queued is_baseline column_starts_with strip upper is_space items_length
create_runs = refl

create_receipt-effect_example :
    (waiting.status ≡ ReceiptStatus.pending)
    × (1 ≤ length submission.proof_image)
    × (length submission.proof_image ≤ max_proof_image_bytes)
    × (detected_image_type submission.proof_image ≡ some waiting.proof_content_type)
    × (length (normalized_utr submission.utr_number) ≤ 80)
    × (books_after ≡ books_after)
    × (waiting ∷ [] ≡ waiting ∷ [])
    × ((row' : Event) × (books_after.events ≡ books.events ++ row' ∷ [])
        × (row'.aggregate_type ≡ AggregateType.receipt)
        × (row'.aggregate_id ≡ waiting.receipt_uuid)
        × (row'.status ≡ OutboxStatus.pending))
create_receipt-effect_example =
    create_receipt-effect settings host (λ s. s) fresh submission session session_after waiting
      create_runs

-- No baseline is queued, so the receipt is flushed and its event refused.
abbrev bare : BookSession
bare = record {
  current = record { receipts = []; events = [] };
  committed = record { receipts = []; events = [] };
}

bare_runs :
    create_receipt settings host (λ s. s) fresh submission bare
    ≡ (inl (ReceiptError.not_queued SyncError.not_initialized), bare)
unfolding create_receipt enqueue_outbox_event configured_franchise_code normalize_franchise_code
    strip_upper Text-discrete guard_baseline require_initial_inventory_queued
    initial_inventory_is_queued strip upper is_space
bare_runs = refl

create_receipt-refused_example :
    (((validate_proof_image submission.proof_image submission.proof_content_type
          ≡ inl (ReceiptError.not_queued SyncError.not_initialized))
        ⊎ ((ReceiptError.not_queued SyncError.not_initialized ≡ ReceiptError.long_utr)
            × (80 < length (normalized_utr submission.utr_number))))
      × (bare ≡ bare))
    ⊎ ((error : SyncError) × (ReceiptError.not_queued SyncError.not_initialized
          ≡ ReceiptError.not_queued error)
        × ((t : ImageType) × (enqueue_outbox_event settings host
                (receipt_request host (λ s. s) submission (new_receipt submission t))
                fresh
                []
              ≡ fails error))
        × (bare.current ≡ bare.committed)
        × (bare.committed ≡ bare.committed))
create_receipt-refused_example =
    create_receipt-refused settings host (λ s. s) fresh submission bare bare
      (ReceiptError.not_queued SyncError.not_initialized) bare_runs

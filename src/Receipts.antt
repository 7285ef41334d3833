-- ===== src/Receipts.antt =====
-- Payment receipts (app/services/receipts.py): the check of the proof image, a new receipt with its
-- event, and the review that Master sends back.
pub mod Review
pub mod Decisions
pub mod Reasons
pub mod Commands
pub mod Creation
mod Tests
use setuora_lite.Sync.Json.{Json, field, Items, end}
use setuora_lite.Sync.Enqueue.{
  Host, EventRequest, Fresh, enqueue_outbox_event, events_after_failure,
}
use setuora_lite.Base.{
  [], ◌∷◌, zero, suc, nat_eq, text_eq, ℕ, Text, List, Option, if◌then◌else◌, ◌*◌, codes, ◌==◌, map,
  Bool, ◌⊎◌, upper, is_empty, some, leb, strip, inl, select, none, length, ◌&&◌, or_else, ltb, not,
  inr, take, ◌+◌, ◌||◌, is_space, one_of, false, ◌++◌, true,
}
use setuora_lite.Model.{ReceiptStatus}
use setuora_lite.Sync.Json
use setuora_lite.Sync.Codes.{◌>>=◌, SyncError, Settings, fails, gives}
use setuora_lite.Sync.Rows.{Event, AggregateType}
use setuora_lite.Sync.Enqueue
use setuora_lite.Sync.Inbox.{or_json, Platform, from_option}

abbrev pub max_proof_image_bytes : ℕ
max_proof_image_bytes = 3 * 1024 * 1024

pub data ImageType : Type 0 where
  jpeg png webp : ImageType

unfoldable pub image_type_text : ImageType → Text
image_type_text ImageType.jpeg = codes "image/jpeg"
image_type_text ImageType.png = codes "image/png"
image_type_text ImageType.webp = codes "image/webp"

-- `data[n:]`
abbrev pub skip {ℓ} : {A : Type ℓ} → ℕ → List A → List A
skip zero xs = xs
skip (suc n) [] = []
skip (suc n) (x ∷ xs) = skip n xs

-- `data.startswith(prefix)`
unfoldable pub starts_with : Text → Text → Bool
starts_with [] s = true
starts_with (c ∷ prefix) [] = false
starts_with (c ∷ prefix) (d ∷ s) = let rest = starts_with prefix s in c == d && rest

-- The bytes of a file, as numbers.
unfoldable pub detected_image_type : List ℕ → Option ImageType
unfolding starts_with
detected_image_type data_bytes =
    if starts_with (255 ∷ 216 ∷ 255 ∷ []) data_bytes
    then some ImageType.jpeg
    else if starts_with (137 ∷ 80 ∷ 78 ∷ 71 ∷ 13 ∷ 10 ∷ 26 ∷ 10 ∷ []) data_bytes
    then some ImageType.png
    else if leb 12 (length data_bytes)
        && take 4 data_bytes == codes "RIFF"
        && take 4 (skip 8 data_bytes) == codes "WEBP"
    then some ImageType.webp
    else none

pub data ReceiptError : Type 0 where
  no_image large_image bad_image long_utr : ReceiptError
  not_queued : SyncError → ReceiptError

-- `s.split(";", 1)[0]`, and `lower()` on the letters A to Z
unfoldable pub before_semicolon : Text → Text
before_semicolon [] = []
before_semicolon (c ∷ s) = let rest = before_semicolon s in if c == b';' then [] else c ∷ rest

unfoldable pub lower : Text → Text
lower = map (λ c. if leb b'A' c && leb c b'Z' then c + 32 else c)

-- The supplied type is none, or one of the allowed ones.
unfoldable pub is_allowed_type : Option Text → Bool
unfolding before_semicolon lower
is_allowed_type supplied_content_type =
    let supplied = lower (strip (before_semicolon (or_else supplied_content_type []))) in
    is_empty supplied
    || one_of supplied (codes "image/jpeg" ∷ codes "image/png" ∷ codes "image/webp" ∷ [])

unfoldable pub validate_proof_image : List ℕ → Option Text → ReceiptError ⊎ ImageType
unfolding detected_image_type is_allowed_type
validate_proof_image data_bytes supplied_content_type =
    if is_empty data_bytes
    then inl ReceiptError.no_image
    else if ltb max_proof_image_bytes (length data_bytes)
    then inl ReceiptError.large_image
    else elim (detected_image_type data_bytes) [
      | none ↦ inl ReceiptError.bad_image
      | some detected ↦
          if is_allowed_type supplied_content_type then inr detected else inl ReceiptError.bad_image
    ]

pub record Receipt : Type 0 where
  pub receipt_uuid : Text
  pub receipt_date : ℕ
  pub proof_image : List ℕ
  pub proof_content_type : ImageType
  pub utr_number : Option Text
  pub status : ReceiptStatus
  pub rejection_remarks : Option Text
  pub reviewed_by : Option Text
  pub reviewed_at : Option ℕ
  pub created_by_id : ℕ

-- The receipts and the outbox.
pub record Books : Type 0 where
  pub receipts : List Receipt
  pub events : List Event

-- The arguments of `create_receipt`, with the user's id and name and the fresh id of the row.
pub record Submission : Type 0 where
  pub user_id : ℕ
  pub username : Text
  pub receipt_uuid : Text
  pub receipt_date : ℕ
  pub proof_image : List ℕ
  pub proof_content_type : Option Text
  pub utr_number : Text

-- `"".join(utr_number.split()).upper()`
unfoldable pub normalized_utr : Text → Text
normalized_utr utr_number = upper (select (λ c. not (is_space c)) utr_number)

unfoldable pub new_receipt : Submission → ImageType → Receipt
unfolding normalized_utr
new_receipt submission content_type =
    let utr = normalized_utr submission.utr_number in
    record {
      receipt_uuid = submission.receipt_uuid;
      receipt_date = submission.receipt_date;
      proof_image = submission.proof_image;
      proof_content_type = content_type;
      utr_number = if is_empty utr then none else some utr;
      status = ReceiptStatus.pending;
      rejection_remarks = none;
      reviewed_by = none;
      reviewed_at = none;
      created_by_id = submission.user_id;
    }

abbrev pub utr_json : Option Text → Json
utr_json none = Json.null
utr_json (some s) = Json.str s

-- The event of a receipt. `base64` is `base64.b64encode`.
unfoldable pub receipt_request : Host → (List ℕ → Text) → Submission → Receipt → EventRequest
unfolding image_type_text
receipt_request host base64 submission receipt = record {
  event_type = codes "RECEIPT_SUBMITTED";
  aggregate_type = AggregateType.receipt;
  aggregate_id = receipt.receipt_uuid;
  payload = field (codes "receipt_id") (Json.str receipt.receipt_uuid) (
      field (codes "receipt_date") (Json.str (host.day receipt.receipt_date)) (
        field (codes "proof_content_type") (Json.str (image_type_text receipt.proof_content_type)) (
          field (codes "proof_image_base64") (Json.str (base64 submission.proof_image)) (
            field (codes "utr_number") (utr_json receipt.utr_number) (
              field (codes "actor") (Json.str submission.username)
                (field (codes "items") (Json.arr Items.nil) end))))));
  occurred_at = none;
  schema_version = 1;
  batch_id = none;
  initial_inventory = false;
}

-- The session: the books as its transaction sees them, and as they were last committed.
pub record BookSession : Type 0 where
  pub current : Books
  pub committed : Books

abbrev pub commit_books : BookSession → BookSession
commit_books s = record s { committed = s.current }

abbrev pub rollback_books : BookSession → BookSession
rollback_books s = record s { current = s.committed }

-- The receipt or the error, and the session. The receipt is flushed before its event is queued: if
-- that raises, the session holds the receipt, and the placeholder of the event if it came so far,
-- until `db.rollback()`.
unfoldable pub create_receipt :
    Settings
    → Host
    → (List ℕ → Text)
    → Fresh
    → Submission
    → BookSession
    → (ReceiptError ⊎ Receipt) × BookSession
unfolding validate_proof_image new_receipt receipt_request
create_receipt settings host base64 fresh submission s =
    elim (validate_proof_image submission.proof_image submission.proof_content_type) [
      | inl e ↦ (inl e, s)
      | inr content_type ↦
          let receipt = new_receipt submission content_type in
          let request = receipt_request host base64 submission receipt in
          let receipts = s.current.receipts ++ receipt ∷ [] in
          if ltb 80 (length (normalized_utr submission.utr_number))
          then (inl ReceiptError.long_utr, s)
          else elim (enqueue_outbox_event settings host request fresh s.current.events) [
            | fails e ↦
                let events = events_after_failure settings request fresh s.current.events in
                let flushed : Books = record { receipts = receipts; events = events } in
                (inl (ReceiptError.not_queued e), rollback_books (record s { current = flushed }))
            | gives (row, events) ↦
                let flushed : Books = record { receipts = receipts; events = events } in
                (inr receipt, commit_books (record s { current = flushed }))
          ]
    ]

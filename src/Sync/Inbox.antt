-- ===== src/Sync/Inbox.antt =====
-- The commands of Master: applying one (`apply_master_command`), remembering a failure, and the
-- poll (`poll_master_commands`).
pub mod Apply
pub mod Search
pub mod Keeps
pub mod Once
pub mod Business
mod Tests
use setuora_lite.Sync.Codes.{SyncError, Attempt, fails, gives, fail_if, ◌>>=◌}
use setuora_lite.Sync.Json.{Json, Fields, has_key, is_truthy, get, end}
use setuora_lite.Model.{InboxStatus}
use setuora_lite.Base.{
  nat_eq, text_eq, Text, List, Option, Bool, none, ℕ, if◌then◌else◌, some, ◌==◌, find, update_where,
  true, one_of, false, ◌&&◌, codes, [], ◌∷◌, strip, strip_upper, is_empty, named, save_named,
}
use setuora_lite.Base.{[], ◌∷◌, zero, suc, nat_eq, text_eq}
use setuora_lite.Int.{negsuc, ℤ, pos}
use setuora_lite.Sync.Json
use setuora_lite.Sync.Codes.{◌>>=◌}
use setuora_lite.Sync.Rows.{Event}
use setuora_lite.Sync.Enqueue.{require_initial_inventory_queued}

-- A row of `master_inbox_commands`; the wording of `last_error` is not modelled.
pub record InboxRow : Type 0 where
  pub command_id : Text
  pub command_type : Text
  pub schema_version : ℤ
  pub payload_json : Text
  pub payload_sha256 : Text
  pub status : InboxStatus
  pub attempts : ℕ
  pub last_error : Option SyncError
  pub applied_at : Option ℕ

-- What the code uses of Python: `str`, `int` (`none` if it raises), the canonical JSON, SHA-256.
pub record Platform : Type 0 where
  pub str : Json → Text
  pub int : Json → Option ℤ
  pub dumps : Json → Text
  pub sha256 : Text → Text

-- The branches on the type of a command.
pub data CommandKind : Type 0 where
  transfer_available transfer_receipt receipt_reviewed : CommandKind
  qr_allocated qr_replace product_upsert : CommandKind

unfoldable pub kind_of : Text → Option CommandKind
kind_of command_type =
    if one_of command_type (codes "TRANSFER_AVAILABLE" ∷ codes "TRANSFER_INCOMING" ∷ [])
    then some CommandKind.transfer_available
    else if one_of command_type (codes "TRANSFER_RECEIPT" ∷ codes "TRANSFER_RECEIPT_STATUS" ∷ [])
    then some CommandKind.transfer_receipt
    else if command_type == codes "RECEIPT_REVIEWED"
    then some CommandKind.receipt_reviewed
    else if command_type == codes "QR_ALLOCATED"
    then some CommandKind.qr_allocated
    else if command_type == codes "QR_REPLACE"
    then some CommandKind.qr_replace
    else if command_type == codes "PRODUCT_UPSERT"
    then some CommandKind.product_upsert
    else none

-- The tables of the business, and what each kind of command does to them: `none` if it raises.
pub record Handlers {ℓ} (S : Type ℓ) : Type ℓ where
  pub handle : CommandKind → Fields → Text → S → Option S

pub record World {ℓ} (S : Type ℓ) : Type ℓ where
  pub inbox : List InboxRow
  pub business : S

pub record CommandParts : Type 0 where
  pub command_id : Text
  pub command_type : Text
  pub schema_version : ℤ
  pub payload : Fields

-- `d.get(key, default)`
unfoldable pub get_or : Text → Json → Fields → Json
get_or key default d = if has_key key d then get key d else default

-- `a or b`
abbrev pub or_json : Json → Json → Json
or_json a b = if is_truthy a then a else b

abbrev pub as_fields : Json → Option Fields
as_fields (Json.obj d) = some d
as_fields _ = none

abbrev pub from_option {ℓ} : {T : Type ℓ} → Option T → SyncError → Attempt T
from_option none e = fails e
from_option (some value) e = gives value

unfoldable pub command_parts : Platform → Fields → Attempt CommandParts
unfolding get_or
command_parts platform command =
    let text = λ (a b : Text).
      platform.str (or_json (get a command) (or_json (get b command) (Json.str []))) in
    let command_id = strip (text (codes "command_id") (codes "id")) in
    let command_type = strip_upper (text (codes "command_type") (codes "type")) in
    fail_if (is_empty command_id) SyncError.no_command_id >>= λ _.
    fail_if (is_empty command_type) SyncError.no_command_type >>= λ _.
    from_option (platform.int (get_or (codes "schema_version") (Json.int (pos 1)) command))
      SyncError.bad_version
    >>= λ version.
        from_option
          (as_fields
            (get_or (codes "payload") (get_or (codes "data") (Json.obj end) command) command))
          SyncError.bad_payload
        >>= λ payload. gives (record {
          command_id = command_id;
          command_type = command_type;
          schema_version = version;
          payload = payload;
        })

-- `schema_version == COMMAND_SCHEMA_VERSION`
unfoldable pub is_version_1 : ℤ → Bool
is_version_1 (pos n) = n == 1
is_version_1 _ = false

unfoldable pub same_version : ℤ → ℤ → Bool
same_version (pos m) (pos n) = m == n
same_version (negsuc m) (negsuc n) = m == n
same_version _ _ = false

abbrev pub row_of : Text → List InboxRow → Option InboxRow
row_of command_id inbox = named (λ (r : InboxRow). r.command_id) command_id inbox

-- The flush of a row that the session holds.
abbrev pub save_row : InboxRow → List InboxRow → List InboxRow
save_row row inbox = save_named (λ (r : InboxRow). r.command_id) row inbox

unfoldable pub new_row : Platform → CommandParts → InboxRow
new_row platform parts =
    let frozen_payload = platform.dumps (Json.obj parts.payload) in
    record {
      command_id = parts.command_id;
      command_type = parts.command_type;
      schema_version = parts.schema_version;
      payload_json = frozen_payload;
      payload_sha256 = platform.sha256 frozen_payload;
      status = InboxStatus.received;
      attempts = 0;
      last_error = none;
      applied_at = none;
    }

-- The row is of the same command.
unfoldable pub is_same_command : InboxRow → InboxRow → Bool
unfolding same_version
is_same_command row fresh =
    row.payload_sha256 == fresh.payload_sha256
    && row.command_type == fresh.command_type
    && same_version row.schema_version fresh.schema_version

abbrev pub is_applied : InboxRow → Bool
is_applied row = elim row.status [ InboxStatus.applied ↦ true | _ ↦ false ]

-- ===== src/Sync/Inbox/Tests.antt =====
-- A command that is delivered twice, with a poll in between.
use setuora_lite.Sync.Inbox.Once.{apply_master_command_once}
use setuora_lite.Sync.Inbox.Apply.{apply_master_command, process_commands}
use setuora_lite.Sync.Json.{is_truthy, get, has_key, Items, as_int, cons, field, nil}
use setuora_lite.Sync.Inbox.{
  is_version_1, new_row, is_same_command, kind_of, Json, Platform, Handlers, World, Fields,
  command_parts, InboxRow, end, pos, InboxStatus,
}
use setuora_lite.Base.{
  [], ◌∷◌, nat_eq, text_eq, Text, ℕ, true, codes, some, strip_upper, ◌+◌, Text-discrete, ◌≡◌, none,
  refl,
}
use setuora_lite.Sync.Codes.{gives}

abbrev str_of : Json → Text
str_of (Json.str s) = s
str_of _ = []

abbrev platform : Platform
platform = record { str = str_of; int = as_int; dumps = λ j. codes "{}"; sha256 = λ s. s }

-- The business counts the commands that reach it.
abbrev handlers : Handlers ℕ
handlers = record { handle = λ kind payload id count. some (count + 1) }

abbrev command_of : Text → Fields
command_of id = field (codes "command_id") (Json.str id) (
    field (codes "command_type") (Json.str (codes "qr_allocated"))
      (field (codes "payload") (Json.obj end) end))

abbrev world : World ℕ
world = record { inbox = []; business = 0 }

abbrev applied_row : Text → ℕ → InboxRow
applied_row id now = record {
  command_id = id;
  command_type = codes "QR_ALLOCATED";
  schema_version = pos 1;
  payload_json = codes "{}";
  payload_sha256 = codes "{}";
  status = InboxStatus.applied;
  attempts = 1;
  last_error = none;
  applied_at = some now;
}

abbrev after : World ℕ
after = record { inbox = applied_row (codes "C1") 10 ∷ []; business = 1 }

-- The poll delivers the first command again and then another.
abbrev delivered : Items
delivered =
    cons (Json.obj (command_of (codes "C1"))) (cons (Json.obj (command_of (codes "C2"))) nil)

apply_runs :
    apply_master_command handlers platform 10 (command_of (codes "C1")) world
    ≡ gives (applied_row (codes "C1") 10, after)
unfolding apply_master_command command_parts strip_upper Text-discrete is_truthy get as_int has_key
    is_version_1 new_row kind_of
apply_runs = refl

poll_runs : process_commands handlers platform (λ n. true) (λ n. 20) 100 0 delivered after ≡ (
  gives 2,
  record { inbox = applied_row (codes "C1") 10 ∷ applied_row (codes "C2") 20 ∷ []; business = 2 },
)
unfolding process_commands command_parts strip_upper Text-discrete is_truthy get as_int has_key
    is_version_1 new_row is_same_command kind_of
poll_runs = refl

apply_master_command_once_example :
    let polled =
      (process_commands handlers platform (λ n. true) (λ n. 20) 100 0 delivered after).1 in
    apply_master_command handlers platform 30 (command_of (codes "C1")) polled
    ≡ gives (applied_row (codes "C1") 10, polled)
apply_master_command_once_example =
    apply_master_command_once handlers platform 10 30 (command_of (codes "C1"))
      (applied_row (codes "C1") 10) world after (λ n. true) (λ n. 20) 100 0 delivered apply_runs

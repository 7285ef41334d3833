-- ===== src/Sync/Inbox/Apply.antt =====
-- Applying the commands: `apply_master_command`, `_persist_failed_command` and the loop of
-- `poll_master_commands`.
use setuora_lite.Sync.Json.{Items}
use setuora_lite.Sync.Codes.{
  ◌>>=◌, Settings, Attempt, SyncError, gives, configured_franchise_code, fails, fail_if,
}
use setuora_lite.Sync.Inbox.{
  InboxRow, Handlers, Json, Platform, row_of, CommandParts, Fields, kind_of, World, command_parts,
  get, from_option, new_row, is_same_command, InboxStatus, is_version_1, as_fields, save_row,
  is_applied,
}
use setuora_lite.Base.{
  zero, suc, [], nat_eq, text_eq, ℕ, Text, List, Option, ◌∷◌, Bool, if◌then◌else◌, strip, none,
  some, ◌==◌, ◌++◌, ◌&&◌, true, not, ◌+◌, codes, is_empty, ◌||◌, ltb,
}
use setuora_lite.Sync.Rows.{Event}
use setuora_lite.Sync.Enqueue.{require_initial_inventory_queued}

-- The row of the command: the one of an earlier delivery, which must be of the same command, or a
-- new one.
unfoldable pub claim_row : InboxRow → List InboxRow → Attempt (InboxRow × List InboxRow)
claim_row fresh inbox = elim (row_of fresh.command_id inbox) [
  | none ↦ gives (fresh, inbox ++ fresh ∷ [])
  | some row ↦ fail_if (not (is_same_command row fresh)) SyncError.command_conflict >>= λ _.
      gives (row, inbox)
]

-- `attempts`, `status`, `last_error` and `applied_at` of a row whose command was applied
abbrev pub mark_applied : ℕ → InboxRow → InboxRow
mark_applied now row = record row {
  attempts = row.attempts + 1;
  last_error = none;
  status = InboxStatus.applied;
  applied_at = some now;
}

abbrev pub mark_failed : SyncError → InboxRow → InboxRow
mark_failed e row = record row {
  status = InboxStatus.failed;
  attempts = row.attempts + 1;
  last_error = some e;
}

module _ {ℓ} {S : Type ℓ} (handlers : Handlers S) (platform : Platform) where
  -- The branches on the type of the command.
  unfoldable pub dispatch : CommandParts → S → Attempt S
  dispatch parts business = elim (kind_of parts.command_type) [
    | none ↦ fails SyncError.unknown_command
    | some kind ↦
        from_option (handlers.handle kind parts.payload parts.command_id business)
          SyncError.handler_failed
  ]

  -- `now` is `utc_now()`. The call raises with the row marked as failed; its caller rolls back.
  unfoldable pub run_command : ℕ → CommandParts → InboxRow → World S → Attempt (InboxRow × World S)
  unfolding dispatch
  run_command now parts row world = dispatch parts world.business >>= λ business. gives (
    mark_applied now row,
    record { inbox = save_row (mark_applied now row) world.inbox; business = business },
  )

  unfoldable pub apply_master_command : ℕ → Fields → World S → Attempt (InboxRow × World S)
  unfolding claim_row run_command
  apply_master_command now command world = command_parts platform command >>= λ parts.
      fail_if (not (is_version_1 parts.schema_version)) SyncError.other_version >>= λ _.
      claim_row (new_row platform parts) world.inbox >>= λ (row, inbox).
      let claimed : World S = record world { inbox = inbox } in
      if is_applied row then gives (row, claimed) else run_command now parts row claimed

  -- After the rollback; an applied row is left alone.
  unfoldable pub persist_failed_command : Fields → SyncError → World S → Attempt (World S)
  persist_failed_command command e world = command_parts platform command >>= λ parts.
      let fresh = new_row platform parts in
      gives (elim (row_of parts.command_id world.inbox) [
        | none ↦ record world { inbox = world.inbox ++ mark_failed e fresh ∷ [] }
        | some row ↦
            if is_applied row
            then world
            else record world { inbox = save_row (mark_failed e row) world.inbox }
      ])

  -- The loop over the commands: the count or what it raises, and what is committed. `acknowledge n`
  -- says whether Master took the acknowledgement of the n-th command, `now n` is its moment.
  unfoldable pub process_commands :
      (ℕ → Bool) → (ℕ → ℕ) → ℕ → ℕ → Items → World S → Attempt ℕ × World S
  unfolding apply_master_command persist_failed_command
  process_commands acknowledge now zero n commands world = (gives n, world)
  process_commands acknowledge now (suc limit) n Items.nil world = (gives n, world)
  process_commands acknowledge now (suc limit) n (Items.cons value rest) world =
      elim (as_fields value) [
        | none ↦ (fails SyncError.malformed_command, world)
        | some command ↦ elim (apply_master_command (now n) command world) [
          | gives (row, world') ↦
              let more = process_commands acknowledge now limit (n + 1) rest world' in
              if acknowledge n then more else (fails SyncError.connection_failed, world')
          | fails e ↦ elim (persist_failed_command command e world) [
            | fails e' ↦ (fails e', world)
            | gives world' ↦ (gives n, world')
          ]
        ]
      ]

-- The list of commands in a decoded answer, which is null for an empty body.
unfoldable pub as_items : Json → Option Items
as_items (Json.arr items) = some items
as_items _ = none

unfoldable pub commands_of : Json → Attempt Items
unfolding as_items
commands_of Json.null = gives Items.nil
commands_of (Json.arr items) = gives items
commands_of (Json.obj d) = elim (as_items (get (codes "commands") d)) [
  | some items ↦ gives items
  | none ↦ elim (as_fields (get (codes "data") d)) [
    | some inner ↦ from_option (as_items (get (codes "commands") inner)) SyncError.no_commands
    | none ↦ fails SyncError.no_commands
  ]
]
commands_of _ = fails SyncError.no_commands

-- `rstrip("/")`
unfoldable pub strip_slashes : Text → Text
strip_slashes [] = []
strip_slashes (c ∷ s) =
    let rest = strip_slashes s in if c == b'/' && is_empty rest then [] else c ∷ rest

unfoldable pub master_credentials : Settings → Attempt (Text × Text)
unfolding strip_slashes
master_credentials settings =
    let master_url = strip_slashes (strip settings.master_url) in
    let api_key = strip settings.master_api_key in
    configured_franchise_code settings (some true) >>= λ _.
    fail_if (is_empty master_url) SyncError.no_url >>= λ _.
    fail_if (is_empty api_key) SyncError.no_key >>= λ _. gives (master_url, api_key)

-- `fetch` is the request for the commands, with the decoding of its answer.
unfoldable pub poll_master_commands {ℓ} :
    {S : Type ℓ}
    → Handlers S
    → Platform
    → Settings
    → (Text × Text → ℕ → Attempt Json)
    → (ℕ → Bool)
    → (ℕ → ℕ)
    → ℕ
    → List Event
    → World S
    → Attempt ℕ × World S
poll_master_commands handlers platform settings fetch acknowledge now limit events world =
    if not settings.master_sync_enabled || ltb limit 1
    then (gives 0, world)
    else elim (require_initial_inventory_queued settings events >>= λ _.
        master_credentials settings >>= λ credentials.
        fetch credentials limit >>= λ decoded. commands_of decoded) [
          | fails e ↦ (fails e, world)
          | gives commands ↦
              process_commands handlers platform acknowledge now limit 0 commands world
        ]

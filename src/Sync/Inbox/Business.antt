-- ===== src/Sync/Inbox/Business.antt =====
-- What a poll does to the tables of the business.
use setuora_lite.Sync.Inbox.Apply.{
  dispatch, apply_master_command, persist_failed_command, process_commands, run_command, claim_row,
}
use setuora_lite.Sync.Inbox.{
  Handlers, CommandKind, Platform, CommandParts, InboxRow, World, kind_of, command_parts, as_fields,
  new_row, is_applied,
}
use setuora_lite.Base.{
  zero, suc, nat_eq, text_eq, Text, ◌≡◌, ℕ, some, Bool, Option-cases, arith, inl, inr, ◌+◌,
  Bool-cases,
}
use setuora_lite.Sync.Json.{Fields, Items}
use setuora_lite.Sync.Codes.{SyncError, gives, Attempt-cases}

-- Each command that a handler carries out keeps the property.
abbrev pub IsKeptBy {ℓ} : {S : Type ℓ} → Handlers S → (S → Type 0) → Type ℓ
IsKeptBy {S = S} handlers P =
    (kind : CommandKind) (payload : Fields) (id : Text) (s s' : S)
    → handlers.handle kind payload id s ≡ some s'
    → P s
    → P s'

module _ {ℓ} {S : Type ℓ} (handlers : Handlers S) (platform : Platform) (P : S → Type 0)
    (kept : IsKeptBy handlers P) where
  dispatch_keeps :
      (parts : CommandParts) (s s' : S) → P s → dispatch handlers platform parts s ≡ gives s' → P s'
  unfolding dispatch
  dispatch_keeps parts s s' h e = elim (Option-cases (kind_of parts.command_type)) [
    | inl unknown ↦ absurd (ground arith)
    | inr (kind, known) ↦
        elim (Option-cases (handlers.handle kind parts.payload parts.command_id s)) [
          | inl failed ↦ absurd (ground arith)
          | inr (t, done) ↦
              let same : s' ≡ t = ground arith in
              rw same (kept kind parts.payload parts.command_id s t done h)
        ]
  ]

  apply_keeps_business :
      (now : ℕ) (command : Fields) (row : InboxRow) (world after : World S)
      → P world.business
      → apply_master_command handlers platform now command world ≡ gives (row, after)
      → P after.business
  unfolding apply_master_command run_command
  apply_keeps_business now command row world after h e =
      elim (Attempt-cases (command_parts platform command)) [
        | inl (error, failed) ↦ absurd (ground arith)
        | inr (parts, read) ↦
            elim (Attempt-cases (claim_row (new_row platform parts) world.inbox)) [
              | inl (error, failed) ↦ absurd (ground arith)
              | inr ((claimed, inbox), took) ↦ elim (Bool-cases (is_applied claimed)) [
                | inl applied ↦
                    let same : after.business ≡ world.business = ground arith in rw same h
                | inr pending ↦
                    elim (Attempt-cases (dispatch handlers platform parts world.business)) [
                      | inl (error, failed) ↦ absurd (ground arith)
                      | inr (business, worked) ↦
                          let same : after.business ≡ business = ground arith in
                          rw same (dispatch_keeps parts world.business business h worked)
                    ]
              ]
            ]
      ]

  persist_keeps_business :
      (command : Fields) (e : SyncError) (world after : World S)
      → persist_failed_command handlers platform command e world ≡ gives after
      → after.business ≡ world.business
  unfolding persist_failed_command
  persist_keeps_business command e world after p = ground arith

  -- A poll keeps what each handler keeps.
  pub process_keeps_business :
      (acknowledge : ℕ → Bool) (now : ℕ → ℕ) (limit n : ℕ) (commands : Items) (world : World S)
      → P world.business
      → P (process_commands handlers platform acknowledge now limit n commands world).1.business
  unfolding process_commands
  process_keeps_business acknowledge now zero n commands world h = h
  process_keeps_business acknowledge now (suc limit) n Items.nil world h = h
  process_keeps_business acknowledge now (suc limit) n (Items.cons value rest) world h =
      elim (Option-cases (as_fields value)) [
        | inl malformed ↦ rw (malformed, process_commands) h
        | inr (command, object) ↦
            elim (Attempt-cases (apply_master_command handlers platform (now n) command world)) [
              | inl (e, failed) ↦
                  elim (Attempt-cases (persist_failed_command handlers platform command e world)) [
                    | inl (e', lost) ↦ rw (object, failed, lost, process_commands) h
                    | inr (after, noted) ↦
                        rw (object, failed, noted, process_commands)
                          (rw (persist_keeps_business command e world after noted) h)
                  ]
              | inr ((r, after), done) ↦
                  let still = apply_keeps_business (now n) command r world after h done in
                  let later =
                    process_keeps_business acknowledge now limit (n + 1) rest after still in
                  elim (Bool-cases (acknowledge n)) [
                    | inl taken ↦ rw (object, done, taken, process_commands) later
                    | inr missed ↦ rw (object, done, missed, process_commands) still
                  ]
            ]
      ]

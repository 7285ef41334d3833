-- ===== src/Sync/Inbox/Once.antt =====
-- Commands that are delivered again (`apply_master_command`).
use setuora_lite.Sync.Inbox.Keeps.{process_keeps}
use setuora_lite.Sync.Inbox.Search.{claim_row_lem, claim_known}
use setuora_lite.Sync.Inbox.Apply.{
  apply_master_command, run_command, claim_row, dispatch, mark_applied, process_commands,
}
use setuora_lite.Sync.Inbox.{
  Handlers, Platform, InboxRow, CommandParts, World, command_parts, is_version_1, row_of, new_row,
  is_same_command, is_applied, save_row,
}
use setuora_lite.Base.{
  nat_eq, text_eq, List, ℕ, ◌≡◌, true, some, inl, arith, inr, Bool-cases, refl, Bool, named_saved,
}
use setuora_lite.Sync.Json.{Fields, Items}
use setuora_lite.Sync.Codes.{gives, Attempt-cases}

module _ {ℓ} {S : Type ℓ} (handlers : Handlers S) (platform : Platform) where
  -- The command was applied, and its row is the proof.
  pub record Handled (command : Fields) (row : InboxRow) (inbox : List InboxRow) : Type 0 where
    pub parts : CommandParts
    pub read : command_parts platform command ≡ gives parts
    pub version : is_version_1 parts.schema_version ≡ true
    pub found : row_of parts.command_id inbox ≡ some row
    pub same : is_same_command row (new_row platform parts) ≡ true
    pub applied : is_applied row ≡ true

  redelivered :
      (now : ℕ) (command : Fields) (row : InboxRow) (world : World S)
      → Handled command row world.inbox
      → apply_master_command handlers platform now command world ≡ gives (row, world)
  unfolding apply_master_command
  redelivered now command row world h =
      let claimed =
        claim_known h.parts.command_id (new_row platform h.parts) row world.inbox
          (unfold new_row in refl) h.found h.same in
      rw (h.read, h.version, claimed, h.applied) refl

  run_command-Handled :
      (now : ℕ) (command : Fields) (parts : CommandParts) (row done : InboxRow)
      (world after : World S)
      → command_parts platform command ≡ gives parts
      → is_version_1 parts.schema_version ≡ true
      → row_of parts.command_id world.inbox ≡ some row
      → is_same_command row (new_row platform parts) ≡ true
      → row.command_id ≡ parts.command_id
      → run_command handlers platform now parts row world ≡ gives (done, after)
      → Handled command done after.inbox
  unfolding run_command
  run_command-Handled now command parts row done world after read version found same id e =
      elim (Attempt-cases (dispatch handlers platform parts world.business)) [
        | inl (error, failed) ↦ absurd (ground arith)
        | inr (business, worked) ↦
            let marked : done ≡ mark_applied now row = ground arith in
            let saved : after.inbox ≡ save_row (mark_applied now row) world.inbox = ground arith in
            record {
              parts = parts;
              read = read;
              version = version;
              found =
                  rw (saved, marked)
                    (named_saved (λ (r : InboxRow). r.command_id) parts.command_id
                      (mark_applied now row) world.inbox {x = row} id found);
              same = rw marked (unfold is_same_command in same);
              applied = rw marked refl;
            }
      ]

  -- Applying a command makes it handled.
  apply-Handled :
      (now : ℕ) (command : Fields) (row : InboxRow) (world after : World S)
      → apply_master_command handlers platform now command world ≡ gives (row, after)
      → Handled command row after.inbox
  unfolding apply_master_command
  apply-Handled now command row world after e =
      elim (Attempt-cases (command_parts platform command)) [
        | inl (error, failed) ↦ absurd (ground arith)
        | inr (parts, read) ↦
            elim (Attempt-cases (claim_row (new_row platform parts) world.inbox)) [
              | inl (error, failed) ↦ absurd (ground arith)
              | inr ((claimed, inbox), took) ↦
                  let version : is_version_1 parts.schema_version ≡ true = ground arith in
                  let (found, same, id) =
                    claim_row_lem (new_row platform parts) claimed world.inbox inbox took in
                  elim (Bool-cases (is_applied claimed)) [
                    | inl applied ↦
                        let same_row : row ≡ claimed = ground arith in
                        let whole : after.inbox ≡ inbox = ground arith in
                        record {
                          parts = parts;
                          read = read;
                          version = version;
                          found = rw (same_row, whole) (unfold new_row in found);
                          same = rw same_row same;
                          applied = rw same_row applied;
                        }
                    | inr pending ↦
                        run_command-Handled now command parts claimed row
                          (record world { inbox = inbox }) after read version
                          (unfold new_row in found) same (unfold new_row in id) (ground arith)
                  ]
            ]
      ]

  -- After a command is applied, and after any poll that follows, delivering it again gives back its
  -- row and changes neither the inbox nor the business.
  pub apply_master_command_once :
      (now later : ℕ) (command : Fields) (row : InboxRow) (world after : World S)
      (acknowledge : ℕ → Bool) (clock : ℕ → ℕ) (limit n : ℕ) (commands : Items)
      → apply_master_command handlers platform now command world ≡ gives (row, after)
      → let polled =
          (process_commands handlers platform acknowledge clock limit n commands after).1 in
        apply_master_command handlers platform later command polled ≡ gives (row, polled)
  apply_master_command_once now later command row world after acknowledge clock limit n commands e =
      let h = apply-Handled now command row world after e in
      let polled =
        (process_commands handlers platform acknowledge clock limit n commands after).1 in
      let kept =
        process_keeps handlers platform h.parts.command_id row acknowledge clock limit n commands
          after (h.found, h.applied) in
      redelivered later command row polled (record {
        parts = h.parts;
        read = h.read;
        version = h.version;
        found = kept.0;
        same = h.same;
        applied = h.applied;
      })

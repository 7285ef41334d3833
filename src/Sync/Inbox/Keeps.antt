-- ===== src/Sync/Inbox/Keeps.antt =====
-- The applied rows of the inbox under applying, refusing and polling.
use setuora_lite.Sync.Inbox.Search.{claim_row_lem, save_row_keeps}
use setuora_lite.Sync.Inbox.Apply.{
  claim_row, apply_master_command, persist_failed_command, run_command, dispatch, mark_applied,
  mark_failed, process_commands,
}
use setuora_lite.Sync.Inbox.{
  Handlers, Platform, InboxRow, row_of, World, is_applied, command_parts, new_row, save_row,
  as_fields,
}
use setuora_lite.Base.{
  refl, [], ◌∷◌, zero, suc, nat_eq, text_eq, Text, List, ℕ, ◌≡◌, some, Option-cases, true, inl,
  ◌++◌, arith, inr, Bool-cases, ap, ◌∙◌, Bool, ◌+◌, named_kept, named_key,
}
use setuora_lite.Sync.Json.{Fields, Items}
use setuora_lite.Sync.Codes.{SyncError, gives, Attempt-cases}

module _ {ℓ} {S : Type ℓ} (handlers : Handlers S) (platform : Platform) where
  -- An applied row of the inbox.
  abbrev pub IsAppliedAt : Text → InboxRow → List InboxRow → Type 0
  IsAppliedAt id row inbox = (row_of id inbox ≡ some row) × (is_applied row ≡ true)

  claim_row_keeps :
      (id : Text) (row fresh r : InboxRow) (inbox inbox' : List InboxRow)
      → IsAppliedAt id row inbox
      → claim_row fresh inbox ≡ gives (r, inbox')
      → IsAppliedAt id row inbox'
  unfolding claim_row
  claim_row_keeps id row fresh r inbox inbox' h e =
      elim (Option-cases (row_of fresh.command_id inbox)) [
        | inl new ↦
            let grown : inbox' ≡ inbox ++ fresh ∷ [] = ground arith in
            (
              rw grown
                  (named_kept (λ (r : InboxRow). r.command_id) id inbox (fresh ∷ []) {x = row} h.0),
              h.1,
            )
        | inr (known, found) ↦ let kept : inbox' ≡ inbox = ground arith in rw kept h
      ]

  apply_keeps :
      (id : Text) (row r : InboxRow) (now : ℕ) (command : Fields) (world after : World S)
      → IsAppliedAt id row world.inbox
      → apply_master_command handlers platform now command world ≡ gives (r, after)
      → IsAppliedAt id row after.inbox
  unfolding apply_master_command run_command
  apply_keeps id row r now command world after h e =
      elim (Attempt-cases (command_parts platform command)) [
        | inl (error, failed) ↦ absurd (ground arith)
        | inr (parts, read) ↦
            elim (Attempt-cases (claim_row (new_row platform parts) world.inbox)) [
              | inl (error, failed) ↦ absurd (ground arith)
              | inr ((claimed, inbox), took) ↦
                  let (found, same, id_of) =
                    claim_row_lem (new_row platform parts) claimed world.inbox inbox took in
                  let kept =
                    claim_row_keeps id row (new_row platform parts) claimed world.inbox inbox h
                      took in
                  elim (Bool-cases (is_applied claimed)) [
                    | inl applied ↦ let whole : after.inbox ≡ inbox = ground arith in rw whole kept
                    | inr pending ↦
                        elim (Attempt-cases (dispatch handlers platform parts world.business)) [
                          | inl (error, failed) ↦ absurd (ground arith)
                          | inr (business, worked) ↦
                              let whole : after.inbox ≡ save_row (mark_applied now claimed) inbox =
                                ground arith in
                              let here : row_of claimed.command_id inbox ≡ some claimed =
                                ap (λ i. row_of i inbox) id_of ∙ found in
                              (
                                rw whole (
                                    save_row_keeps id row (mark_applied now claimed) claimed inbox
                                      kept.0 kept.1 here pending),
                                h.1,
                              )
                        ]
                  ]
            ]
      ]

  persist_keeps :
      (id : Text) (row : InboxRow) (command : Fields) (e : SyncError) (world after : World S)
      → IsAppliedAt id row world.inbox
      → persist_failed_command handlers platform command e world ≡ gives after
      → IsAppliedAt id row after.inbox × (after.business ≡ world.business)
  unfolding persist_failed_command
  persist_keeps id row command e world after h p =
      elim (Attempt-cases (command_parts platform command)) [
        | inl (error, failed) ↦ absurd (ground arith)
        | inr (parts, read) ↦ elim (Option-cases (row_of parts.command_id world.inbox)) [
          | inl new ↦
              let last = mark_failed e (new_row platform parts) in
              let grown : after.inbox ≡ world.inbox ++ last ∷ [] = ground arith in
              (
                (
                  rw grown (
                      named_kept (λ (r : InboxRow). r.command_id) id world.inbox (last ∷ [])
                        {x = row} h.0),
                  h.1,
                ),
                ground arith,
              )
          | inr (r, found) ↦ elim (Bool-cases (is_applied r)) [
            | inl applied ↦ let same : after ≡ world = ground arith in rw same (h, refl)
            | inr pending ↦
                let saved : after.inbox ≡ save_row (mark_failed e r) world.inbox = ground arith in
                let id_of : r.command_id ≡ parts.command_id =
                  named_key (λ (r : InboxRow). r.command_id) parts.command_id world.inbox found in
                let here : row_of r.command_id world.inbox ≡ some r =
                  ap (λ i. row_of i world.inbox) id_of ∙ found in
                (
                  (
                    rw saved (
                        save_row_keeps id row (mark_failed e r) r world.inbox h.0 h.1 here pending),
                    h.1,
                  ),
                  ground arith,
                )
          ]
        ]
      ]

  -- Polling leaves an applied row as it is.
  pub process_keeps :
      (id : Text) (row : InboxRow) (acknowledge : ℕ → Bool) (now : ℕ → ℕ) (limit n : ℕ)
      (commands : Items) (world : World S)
      → IsAppliedAt id row world.inbox
      → IsAppliedAt id row
          (process_commands handlers platform acknowledge now limit n commands world).1.inbox
  unfolding process_commands
  process_keeps id row acknowledge now zero n commands world h = h
  process_keeps id row acknowledge now (suc limit) n Items.nil world h = h
  process_keeps id row acknowledge now (suc limit) n (Items.cons value rest) world h =
      elim (Option-cases (as_fields value)) [
        | inl malformed ↦ rw (malformed, process_commands) h
        | inr (command, object) ↦
            elim (Attempt-cases (apply_master_command handlers platform (now n) command world)) [
              | inl (e, failed) ↦
                  elim (Attempt-cases (persist_failed_command handlers platform command e world)) [
                    | inl (e', lost) ↦ rw (object, failed, lost, process_commands) h
                    | inr (after, kept) ↦
                        rw (object, failed, kept, process_commands)
                          (persist_keeps id row command e world after h kept).0
                  ]
              | inr ((r, after), done) ↦
                  let still = apply_keeps id row r (now n) command world after h done in
                  let later = process_keeps id row acknowledge now limit (n + 1) rest after still in
                  elim (Bool-cases (acknowledge n)) [
                    | inl taken ↦ rw (object, done, taken, process_commands) later
                    | inr missed ↦ rw (object, done, missed, process_commands) still
                  ]
            ]
      ]

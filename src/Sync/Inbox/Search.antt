-- ===== src/Sync/Inbox/Search.antt =====
-- The search of the inbox by command id.
use setuora_lite.Base.{
  nat_eq, text_eq, Text, ◌≡◌, List, true, some, ◌==◌, ==_refl, arith, false, ◌++◌, refl,
  Option-cases, ◌∷◌, inl, Bool-cases, [], inr, eq_of_==, ap, ◌∙◌, sym, named_new, named_other,
  named_key,
}
use setuora_lite.Sync.Inbox.Apply.{claim_row}
use setuora_lite.Sync.Inbox.{row_of, same_version, is_same_command, save_row, InboxRow, is_applied}
use setuora_lite.Base.{[], ◌∷◌, nat_eq, text_eq}
use setuora_lite.Int.{ℤ, pos, negsuc}
use setuora_lite.Sync.Codes.{gives}

same_version_refl : (v : ℤ) → same_version v v ≡ true
unfolding same_version
same_version_refl (pos n) = ==_refl n
same_version_refl (negsuc n) = ==_refl n

same_command_refl : (row : InboxRow) → is_same_command row row ≡ true
unfolding is_same_command
same_command_refl row =
    rw (==_refl row.payload_sha256, ==_refl row.command_type, same_version_refl row.schema_version)
      refl

-- The row that a command works on is the one found by its id, and is of the same command.
pub claim_row_lem :
    (fresh row : InboxRow) (inbox inbox' : List InboxRow)
    → claim_row fresh inbox ≡ gives (row, inbox')
    → (row_of fresh.command_id inbox' ≡ some row)
      × (is_same_command row fresh ≡ true)
      × (row.command_id ≡ fresh.command_id)
unfolding claim_row
claim_row_lem fresh row inbox inbox' e = elim (Option-cases (row_of fresh.command_id inbox)) [
  | inl new ↦
      let same : row ≡ fresh = ground arith in
      let grown : inbox' ≡ inbox ++ fresh ∷ [] = ground arith in
      rw (same, grown)
        (named_new (λ (r : InboxRow). r.command_id) fresh inbox new, same_command_refl fresh, refl)
  | inr (r, found) ↦
      let known : is_same_command r fresh ≡ true = ground arith in
      let same : row ≡ r = ground arith in
      let kept : inbox' ≡ inbox = ground arith in
      (
        rw (same, kept) found,
        rw same known,
        rw same (named_key (λ (r : InboxRow). r.command_id) fresh.command_id inbox found),
      )
]

pub claim_known :
    (id : Text) (fresh row : InboxRow) (inbox : List InboxRow)
    → fresh.command_id ≡ id
    → row_of id inbox ≡ some row
    → is_same_command row fresh ≡ true
    → claim_row fresh inbox ≡ gives (row, inbox)
unfolding claim_row
claim_known id fresh row inbox e found same =
    let here : row_of fresh.command_id inbox ≡ some row = ap (λ i. row_of i inbox) e ∙ found in
    rw (here, same, claim_row) refl

-- Saving over a row that was not applied leaves the applied rows alone.
pub save_row_keeps :
    (id : Text) (row x r : InboxRow) (inbox : List InboxRow)
    → row_of id inbox ≡ some row
    → is_applied row ≡ true
    → row_of x.command_id inbox ≡ some r
    → is_applied r ≡ false
    → row_of id (save_row x inbox) ≡ some row
save_row_keeps id row x r inbox found applied here pending =
    elim (Bool-cases (x.command_id == id)) [
      | inl same ↦
          let e = eq_of_== x.command_id id same in
          let both : some r ≡ some row = sym here ∙ ap (λ i. row_of i inbox) e ∙ found in
          absurd (ground arith)
      | inr other ↦ named_other (λ (r : InboxRow). r.command_id) id x inbox other ∙ found
    ]

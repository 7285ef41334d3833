-- ===== src/Receipts/Review.antt =====
-- The review of a receipt that Master sends back (`apply_receipt_review_command`).
use setuora_lite.Sync.Json.{Fields, get}
use setuora_lite.Receipts.{Receipt, SyncError, gives}
use setuora_lite.Base.{
  [], ◌∷◌, nat_eq, text_eq, Text, Bool, Option, true, false, List, ℕ, if◌then◌else◌, ◌==◌, not,
  none, some, codes, strip, squeeze, is_empty, strip_upper, ◌&&◌, ltb, length, take, named,
  save_named,
}
use setuora_lite.Model.{ReceiptStatus}
use setuora_lite.Sync.Json
use setuora_lite.Sync.Codes.{◌>>=◌, Attempt, fail_if}
use setuora_lite.Sync.Inbox.{or_json, Platform, from_option}

-- `{ReceiptStatus.APPROVED.value, ReceiptStatus.DENIED.value}`
unfoldable pub decision_of : Text → Option ReceiptStatus
decision_of status =
    if status == codes "APPROVED"
    then some ReceiptStatus.approved
    else if status == codes "DENIED"
    then some ReceiptStatus.denied
    else none

abbrev pub is_denied : ReceiptStatus → Bool
is_denied ReceiptStatus.denied = true
is_denied _ = false

-- The receipt is not pending, and its status is another one.
unfoldable pub is_decided_otherwise : ReceiptStatus → Receipt → Bool
is_decided_otherwise status receipt = elim receipt.status [
  | ReceiptStatus.pending ↦ false
  | ReceiptStatus.approved ↦ is_denied status
  | ReceiptStatus.denied ↦ not (is_denied status)
]

-- `s or None`
abbrev pub filled : Text → Option Text
filled [] = none
filled (c ∷ s) = some (c ∷ s)

abbrev pub receipt_of : Text → List Receipt → Option Receipt
receipt_of receipt_id receipts = named (λ (r : Receipt). r.receipt_uuid) receipt_id receipts

-- The flush of a receipt that the session holds.
abbrev pub save_receipt : Receipt → List Receipt → List Receipt
save_receipt receipt receipts = save_named (λ (r : Receipt). r.receipt_uuid) receipt receipts

-- What a review writes.
pub record Decision : Type 0 where
  pub status : ReceiptStatus
  pub remarks : Text
  pub reviewed_by : Text
  pub reviewed_at : ℕ

unfoldable pub decide : Decision → Receipt → Receipt
decide d receipt = record receipt {
  status = d.status;
  rejection_remarks = if is_denied d.status then some d.remarks else none;
  reviewed_by = filled d.reviewed_by;
  reviewed_at = some d.reviewed_at;
}

-- `platform.str` is `str`, `parse` is `datetime.fromisoformat`, `none` where it raises. The call
-- raises before it writes.
module _ (platform : Platform) (parse : Text → Option ℕ) (payload : Fields) where
  abbrev pub payload_text : Text → Text
  payload_text key = platform.str (or_json (get key payload) (Json.str []))

  abbrev pub payload_receipt_id : Text
  payload_receipt_id = strip (payload_text (codes "receipt_id"))

  abbrev pub payload_remarks : Text
  payload_remarks = squeeze (payload_text (codes "rejection_remarks"))

  abbrev pub decision : ReceiptStatus → ℕ → Decision
  decision status moment = record {
    status = status;
    remarks = payload_remarks;
    reviewed_by = take 120 (strip (payload_text (codes "reviewed_by")));
    reviewed_at = moment;
  }

  unfoldable pub apply_receipt_review_command : List Receipt → Attempt (Receipt × List Receipt)
  unfolding decide
  apply_receipt_review_command receipts =
      fail_if (is_empty payload_receipt_id) SyncError.no_receipt_id >>= λ _.
      from_option (decision_of (strip_upper (payload_text (codes "status")))) SyncError.bad_decision
      >>= λ status.
          fail_if (is_denied status && is_empty payload_remarks) SyncError.no_remarks >>= λ _.
          fail_if (ltb 1000 (length payload_remarks)) SyncError.long_remarks >>= λ _.
          from_option (receipt_of payload_receipt_id receipts) SyncError.no_receipt >>= λ receipt.
          fail_if (is_decided_otherwise status receipt) SyncError.other_decision >>= λ _.
          from_option (parse (platform.str (get (codes "reviewed_at") payload)))
            SyncError.bad_reviewed_at
          >>= λ moment.
              let reviewed = decide (decision status moment) receipt in
              gives (reviewed, save_receipt reviewed receipts)

-- ===== src/Receipts/Reasons.antt =====
-- The remarks of the receipts under reviews.
use setuora_lite.Receipts.Decisions.{is_pending, review-Reviewed, decision_of-decided}
use setuora_lite.Receipts.Review.{
  decide, save_receipt, apply_receipt_review_command, is_denied, payload_remarks, decision,
}
use setuora_lite.Sync.Json.{Fields}
use setuora_lite.Receipts.{Receipt, gives}
use setuora_lite.Base.{
  [], ◌∷◌, nat_eq, text_eq, Text, ◌≡◌, Option, some, ℕ, ◌≤◌, length, List, none, All, false,
  Bool-cases, ◌==◌, ◌&&◌, inl, is_empty, inr, ltb, arith, length_of_filled, refl,
}
use setuora_lite.Model.{ReceiptStatus}
use setuora_lite.Sync.Inbox.{Platform}

-- A denied receipt has remarks of 1 to 1000 characters, and no other receipt has any.
abbrev pub HasReason : Receipt → Type 0
HasReason receipt = elim receipt.status [
  | ReceiptStatus.denied ↦
      (remarks : Text) × (receipt.rejection_remarks ≡ some remarks)
      × (1 ≤ length remarks)
      × (length remarks ≤ 1000)
  | _ ↦ receipt.rejection_remarks ≡ none
]

module _ (platform : Platform) (parse : Text → Option ℕ) (payload : Fields) where
  save_receipt-HasReason :
      (receipts : List Receipt) (x : Receipt)
      → All HasReason receipts
      → HasReason x
      → All HasReason (save_receipt x receipts)
  save_receipt-HasReason [] x h k = tt
  save_receipt-HasReason (r ∷ receipts) x h k =
      elim (Bool-cases (r.receipt_uuid == x.receipt_uuid)) [
        | inl same ↦ rw same (k, save_receipt-HasReason receipts x h.1 k)
        | inr other ↦ rw other (h.0, save_receipt-HasReason receipts x h.1 k)
      ]

  decide-HasReason :
      (status : ReceiptStatus) (moment : ℕ) (receipt : Receipt)
      → is_pending status ≡ false
      → (is_denied status && is_empty (payload_remarks platform parse payload)) ≡ false
      → ltb 1000 (length (payload_remarks platform parse payload)) ≡ false
      → HasReason (decide (decision platform parse payload status moment) receipt)
  unfolding decide
  decide-HasReason ReceiptStatus.pending moment receipt decided reason short = absurd (ground arith)
  decide-HasReason ReceiptStatus.approved moment receipt decided reason short = refl
  decide-HasReason ReceiptStatus.denied moment receipt decided reason short =
      let remarks = payload_remarks platform parse payload in
      (remarks, refl, length_of_filled remarks reason, ground arith)

  -- If each denied receipt has remarks of 1 to 1000 characters and no other has any, that is so after
  -- a review that returns, also for its receipt.
  pub apply_receipt_review_command-HasReason :
      (receipts receipts' : List Receipt) (after : Receipt)
      → All HasReason receipts
      → apply_receipt_review_command platform parse payload receipts ≡ gives (after, receipts')
      → All HasReason receipts' × HasReason after
  apply_receipt_review_command-HasReason receipts receipts' after h e =
      let r = review-Reviewed platform parse payload receipts receipts' after e in
      let reasoned : HasReason after = rw r.result (
        decide-HasReason r.status r.moment r.receipt (decision_of-decided _ r.status r.read)
          r.reason r.short) in
      (rw r.saved (save_receipt-HasReason receipts after h reasoned), reasoned)

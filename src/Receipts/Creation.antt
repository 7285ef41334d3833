-- ===== src/Receipts/Creation.antt =====
-- What the creation of a receipt does on every branch.
use setuora_lite.Sync.Enqueue.{new_event}
use setuora_lite.Receipts.{
  create_receipt, validate_proof_image, Settings, Host, Fresh, ImageType, Submission, ReceiptError,
  Receipt, max_proof_image_bytes, detected_image_type, normalized_utr, new_receipt, receipt_request,
  enqueue_outbox_event, BookSession, SyncError, fails,
}
use setuora_lite.Base.{
  [], ◌∷◌, nat_eq, text_eq, List, ℕ, Text, Option, ◌≡◌, inr, ◌≤◌, inl, length, arith, some,
  is_empty, false, ◌++◌, length_of_filled, ◌⊎◌, refl, ltb, ◌∙◌, ◌<◌, Bool-cases,
}
use setuora_lite.Model.{ReceiptStatus, OutboxStatus}
use setuora_lite.Sync.Rows.{Event, AggregateType}
use setuora_lite.Sync.Codes.{Attempt-cases}
use setuora_lite.Sync.Enqueue.Queue.{enqueue_returns}

Sum-cases {ℓ κ} :
    {A : Type ℓ} {B : Type κ} (x : A ⊎ B) → ((a : A) × (x ≡ inl a)) ⊎ ((b : B) × (x ≡ inr b))
Sum-cases (inl a) = inl (a, refl)
Sum-cases (inr b) = inr (b, refl)

accepted_image :
    (bytes : List ℕ) (supplied : Option Text) (t : ImageType)
    → validate_proof_image bytes supplied ≡ inr t
    → (1 ≤ length bytes)
      × (length bytes ≤ max_proof_image_bytes)
      × (detected_image_type bytes ≡ some t)
unfolding validate_proof_image
accepted_image bytes supplied t h =
    let filled : is_empty bytes ≡ false = ground arith in
    (length_of_filled bytes filled, ground arith, ground arith)

-- A creation that raises either failed a check of the image or of the length of the UTR number, and
-- leaves the session as it was; or the event was not queued, with that error, and the session's
-- receipts and outbox are those last committed: neither the receipt nor a placeholder stays.
pub create_receipt-refused :
    (settings : Settings) (host : Host) (base64 : List ℕ → Text) (fresh : Fresh)
    (submission : Submission) (s s' : BookSession) (e : ReceiptError)
    → create_receipt settings host base64 fresh submission s ≡ (inl e, s')
    → (((validate_proof_image submission.proof_image submission.proof_content_type ≡ inl e)
          ⊎ ((e ≡ ReceiptError.long_utr) × (80 < length (normalized_utr submission.utr_number))))
        × (s' ≡ s))
      ⊎ ((error : SyncError) × (e ≡ ReceiptError.not_queued error)
          × ((t : ImageType) × (enqueue_outbox_event settings host
                  (receipt_request host base64 submission (new_receipt submission t))
                  fresh
                  s.current.events
                ≡ fails error))
          × (s'.current ≡ s.committed)
          × (s'.committed ≡ s.committed))
unfolding create_receipt
create_receipt-refused settings host base64 fresh submission s s' e h =
    elim (Sum-cases (validate_proof_image submission.proof_image submission.proof_content_type)) [
      | inl (e1, refused) ↦ inl (inl (ground arith), ground arith)
      | inr (t, passed) ↦
          let request = receipt_request host base64 submission (new_receipt submission t) in
          elim (Bool-cases (ltb 80 (length (normalized_utr submission.utr_number)))) [
            | inl long ↦ inl (inr (ground arith, ground arith), ground arith)
            | inr short ↦
                elim (Attempt-cases
                  (enqueue_outbox_event settings host request fresh s.current.events)) [
                    | inl (error, failed) ↦
                        inr (error, ground arith, (t, failed), ground arith, ground arith)
                    | inr ((row, events), queued) ↦ absurd (ground arith)
                  ]
          ]
    ]

-- A receipt that is created is pending, with an image of a known kind and of 3 MB at most; its one
-- event waits at the end of the outbox and names it, and both are committed.
pub create_receipt-effect :
    (settings : Settings) (host : Host) (base64 : List ℕ → Text) (fresh : Fresh)
    (submission : Submission) (s s' : BookSession) (receipt : Receipt)
    → create_receipt settings host base64 fresh submission s ≡ (inr receipt, s')
    → (receipt.status ≡ ReceiptStatus.pending)
      × (1 ≤ length submission.proof_image)
      × (length submission.proof_image ≤ max_proof_image_bytes)
      × (detected_image_type submission.proof_image ≡ some receipt.proof_content_type)
      × (length (normalized_utr submission.utr_number) ≤ 80)
      × (s'.current ≡ s'.committed)
      × (s'.committed.receipts ≡ s.current.receipts ++ receipt ∷ [])
      × ((row : Event) × (s'.committed.events ≡ s.current.events ++ row ∷ [])
          × (row.aggregate_type ≡ AggregateType.receipt)
          × (row.aggregate_id ≡ receipt.receipt_uuid)
          × (row.status ≡ OutboxStatus.pending))
unfolding create_receipt
create_receipt-effect settings host base64 fresh submission s s' receipt h =
    elim (Sum-cases (validate_proof_image submission.proof_image submission.proof_content_type)) [
      | inl (e, refused) ↦ absurd (ground arith)
      | inr (t, passed) ↦
          let made = new_receipt submission t in
          let request = receipt_request host base64 submission made in
          elim (Attempt-cases (enqueue_outbox_event settings host request fresh s.current.events)) [
            | inl (e, failed) ↦ absurd (ground arith)
            | inr ((row, events), queued) ↦
                let (filled, small, known) =
                  accepted_image submission.proof_image submission.proof_content_type t passed in
                let (guard, event, whole, few, light) =
                  enqueue_returns settings host request fresh s.current.events row events queued in
                let short : ltb 80 (length (normalized_utr submission.utr_number)) ≡ false =
                  ground arith in
                let same : receipt ≡ made = ground arith in
                let kept : s'.committed.receipts ≡ s.current.receipts ++ receipt ∷ [] =
                  ground arith in
                let grown : s'.committed.events ≡ events = ground arith in
                (
                  rw same refl,
                  filled,
                  small,
                  rw same known,
                  ground arith,
                  ground arith,
                  kept,
                  (
                    row,
                    grown ∙ whole,
                    rw event (unfold new_event in refl),
                    rw (event, same) (unfold new_event in refl),
                    rw event (unfold new_event in refl),
                  ),
                )
          ]
    ]

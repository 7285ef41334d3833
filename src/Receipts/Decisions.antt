-- ===== src/Receipts/Decisions.antt =====
-- What a review reads and decides, and its replay.
use setuora_lite.Receipts.{Receipt, gives}
use setuora_lite.Receipts.Review.{
  apply_receipt_review_command, receipt_of, is_decided_otherwise, decide, decision_of, save_receipt,
  is_denied, payload_text, payload_receipt_id, payload_remarks, decision,
}
use setuora_lite.Sync.Json.{Fields, get}
use setuora_lite.Base.{
  nat_eq, text_eq, Bool, Text, true, Option, false, ℕ, List, ◌≡◌, some, Option-cases, strip_upper,
  ◌&&◌, codes, is_empty, inl, length, arith, inr, ltb, named_key, named_saved, save_named_idem,
  refl, named, Bool-cases, ◌==◌, eq_of_==, sym, ◌∙◌, ap, named_other,
}
use setuora_lite.Model.{ReceiptStatus}
use setuora_lite.Sync.Inbox.{Platform}

abbrev pub is_pending : ReceiptStatus → Bool
is_pending ReceiptStatus.pending = true
is_pending _ = false

agrees_with_itself :
    (status : ReceiptStatus) (receipt : Receipt)
    → receipt.status ≡ status
    → is_decided_otherwise status receipt ≡ false
unfolding is_decided_otherwise
agrees_with_itself ReceiptStatus.pending receipt e = rw e refl
agrees_with_itself ReceiptStatus.approved receipt e = rw e refl
agrees_with_itself ReceiptStatus.denied receipt e = rw e refl

decided_same :
    (status : ReceiptStatus) (receipt : Receipt)
    → is_pending status ≡ false
    → is_pending receipt.status ≡ false
    → is_decided_otherwise status receipt ≡ false
    → status ≡ receipt.status
unfolding is_decided_otherwise
decided_same status receipt h k e = ground arith

pub decision_of-decided :
    (text : Text) (status : ReceiptStatus)
    → decision_of text ≡ some status
    → is_pending status ≡ false
unfolding decision_of
decision_of-decided text status e = ground arith

module _ (platform : Platform) (parse : Text → Option ℕ) (payload : Fields) where
  -- What a review that returns has read, and that nothing of it was refused.
  pub record Reviewed (receipts : List Receipt) (after : Receipt) (receipts' : List Receipt)
      : Type 0 where
    pub status : ReceiptStatus
    pub receipt : Receipt
    pub moment : ℕ
    pub named : is_empty (payload_receipt_id platform parse payload) ≡ false
    pub read :
        decision_of (strip_upper (payload_text platform parse payload (codes "status")))
        ≡ some status
    pub reason : (is_denied status && is_empty (payload_remarks platform parse payload)) ≡ false
    pub short : ltb 1000 (length (payload_remarks platform parse payload)) ≡ false
    pub found : receipt_of (payload_receipt_id platform parse payload) receipts ≡ some receipt
    pub agrees : is_decided_otherwise status receipt ≡ false
    pub timed : parse (platform.str (get (codes "reviewed_at") payload)) ≡ some moment
    pub result : after ≡ decide (decision platform parse payload status moment) receipt
    pub saved : receipts' ≡ save_receipt after receipts

  pub review-Reviewed :
      (receipts receipts' : List Receipt) (after : Receipt)
      → apply_receipt_review_command platform parse payload receipts ≡ gives (after, receipts')
      → Reviewed receipts after receipts'
  unfolding apply_receipt_review_command
  review-Reviewed receipts receipts' after e =
      elim (Option-cases
        (decision_of (strip_upper (payload_text platform parse payload (codes "status"))))) [
          | inl bad ↦ absurd (ground arith)
          | inr (status, read) ↦
              elim (Option-cases
                (receipt_of (payload_receipt_id platform parse payload) receipts)) [
                  | inl lost ↦ absurd (ground arith)
                  | inr (receipt, found) ↦
                      elim (Option-cases
                        (parse (platform.str (get (codes "reviewed_at") payload)))) [
                          | inl bad ↦ absurd (ground arith)
                          | inr (moment, timed) ↦ record {
                            status = status;
                            receipt = receipt;
                            moment = moment;
                            named = ground arith;
                            read = read;
                            reason = ground arith;
                            short = ground arith;
                            found = found;
                            agrees = ground arith;
                            timed = timed;
                            result = ground arith;
                            saved = ground arith;
                          }
                        ]
                ]
        ]

  -- A review that was applied and is delivered again gives the same receipt and changes nothing.
  pub apply_receipt_review_command_idem :
      (receipts receipts' : List Receipt) (after : Receipt)
      → apply_receipt_review_command platform parse payload receipts ≡ gives (after, receipts')
      → apply_receipt_review_command platform parse payload receipts' ≡ gives (after, receipts')
  unfolding apply_receipt_review_command
  apply_receipt_review_command_idem receipts receipts' after e =
      let r = review-Reviewed receipts receipts' after e in
      let d = decision platform parse payload r.status r.moment in
      let id = payload_receipt_id platform parse payload in
      let uuid : after.receipt_uuid ≡ id =
        rw r.result
          (unfold decide in named_key (λ (r : Receipt). r.receipt_uuid) id receipts r.found) in
      let found : receipt_of id receipts' ≡ some after = rw r.saved (
        named_saved (λ (r : Receipt). r.receipt_uuid) id after receipts {x = r.receipt} uuid
          r.found) in
      let agrees : is_decided_otherwise r.status after ≡ false =
        agrees_with_itself r.status after (rw r.result (unfold decide in refl)) in
      let again : decide d after ≡ after = rw r.result (unfold decide in refl) in
      let stays : save_receipt after receipts' ≡ receipts' =
        rw r.saved (save_named_idem (λ (r : Receipt). r.receipt_uuid) after receipts) in
      rw (r.named, r.read, r.reason, r.short, found, agrees, r.timed, again, stays) refl

  -- A receipt that was approved or denied keeps that status in every review that returns.
  pub apply_receipt_review_command-final :
      (receipts receipts' : List Receipt) (after : Receipt) (k : Text) (x : Receipt)
      → apply_receipt_review_command platform parse payload receipts ≡ gives (after, receipts')
      → named (λ (r : Receipt). r.receipt_uuid) k receipts ≡ some x
      → is_pending x.status ≡ false
      → (y : Receipt) × (named (λ (r : Receipt). r.receipt_uuid) k receipts' ≡ some y)
        × (y.status ≡ x.status)
  apply_receipt_review_command-final receipts receipts' after k x e known decided =
      let r = review-Reviewed receipts receipts' after e in
      let id = payload_receipt_id platform parse payload in
      let uuid : after.receipt_uuid ≡ id =
        rw r.result
          (unfold decide in named_key (λ (r : Receipt). r.receipt_uuid) id receipts r.found) in
      elim (Bool-cases (after.receipt_uuid == k)) [
        | inl same ↦
            let here : after.receipt_uuid ≡ k = eq_of_== after.receipt_uuid k same in
            let both : some r.receipt ≡ some x =
              sym r.found
              ∙ ap (λ i. named (λ (r : Receipt). r.receipt_uuid) i receipts) (sym uuid ∙ here)
              ∙ known in
            let one : r.receipt ≡ x = ground arith in
            let status : after.status ≡ r.status = rw r.result (unfold decide in refl) in
            (
              after,
              rw r.saved (
                  named_saved (λ (r : Receipt). r.receipt_uuid) k after receipts {x = x} here
                    known),
              status
                  ∙ decided_same r.status x (decision_of-decided _ r.status r.read) decided
                      (rw one at r.agrees),
            )
        | inr other ↦ (
          x,
          rw r.saved (named_other (λ (r : Receipt). r.receipt_uuid) k after receipts other ∙ known),
          refl,
        )
      ]

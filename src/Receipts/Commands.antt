-- ===== src/Receipts/Commands.antt =====
-- The receipts behind the inbox: the reviews that a poll brings.
use setuora_lite.Receipts.Review.{apply_receipt_review_command}
use setuora_lite.Receipts.Decisions.{is_pending, apply_receipt_review_command-final}
use setuora_lite.Sync.Inbox.{Handlers, CommandKind, World}
use setuora_lite.Receipts.{Platform, Receipt, fails, gives}
use setuora_lite.Base.{
  nat_eq, text_eq, Text, Option, ℕ, List, ◌≡◌, none, named, false, some, Option-cases, inl, arith,
  inr, ◌∙◌, Bool,
}
use setuora_lite.Model.{ReceiptStatus}
use setuora_lite.Sync.Json.{Fields, Items}
use setuora_lite.Sync.Codes.{Attempt-cases}
use setuora_lite.Sync.Inbox.Apply.{process_commands}
use setuora_lite.Sync.Inbox.Business.{IsKeptBy, process_keeps_business}

-- The branch RECEIPT_REVIEWED beside the other handlers, which work on the other tables.
abbrev pub review_receipts :
    Platform → (Text → Option ℕ) → Fields → List Receipt → Option (List Receipt)
review_receipts platform parse payload receipts =
    elim (apply_receipt_review_command platform parse payload receipts) [
      | fails e ↦ none
      | gives (receipt, receipts') ↦ some receipts'
    ]

abbrev pub beside_receipts {ℓ} : {T : Type ℓ} → Option T → List Receipt → Option (T × List Receipt)
beside_receipts none receipts = none
beside_receipts (some t) receipts = some (t, receipts)

unfoldable pub handle_with_receipts {ℓ} :
    {T : Type ℓ}
    → Handlers T
    → Platform
    → (Text → Option ℕ)
    → CommandKind
    → Fields
    → Text
    → T × List Receipt
    → Option (T × List Receipt)
handle_with_receipts others platform parse CommandKind.receipt_reviewed payload id (t, receipts) =
    elim (review_receipts platform parse payload receipts) [
      | none ↦ none
      | some receipts' ↦ some (t, receipts')
    ]
handle_with_receipts others platform parse kind payload id (t, receipts) =
    beside_receipts (others.handle kind payload id t) receipts

abbrev pub with_receipts {ℓ} :
    {T : Type ℓ} → Handlers T → Platform → (Text → Option ℕ) → Handlers (T × List Receipt)
with_receipts others platform parse = record { handle = handle_with_receipts others platform parse }

module _ {ℓ} {T : Type ℓ} (others : Handlers T) (platform : Platform)
    (parse : Text → Option ℕ) where
  -- The receipt with the id has the status.
  abbrev pub HasStatus : Text → ReceiptStatus → T × List Receipt → Type 0
  HasStatus k status s =
      (y : Receipt) × (named (λ (r : Receipt). r.receipt_uuid) k s.1 ≡ some y) × (y.status ≡ status)

  review_keeps_status :
      (k : Text) (status : ReceiptStatus) (payload : Fields) (receipts receipts' : List Receipt)
      (t : T)
      → is_pending status ≡ false
      → review_receipts platform parse payload receipts ≡ some receipts'
      → HasStatus k status (t, receipts)
      → HasStatus k status (t, receipts')
  review_keeps_status k status payload receipts receipts' t decided e (x, found, same) =
      elim (Attempt-cases (apply_receipt_review_command platform parse payload receipts)) [
        | inl (error, failed) ↦ absurd (ground arith)
        | inr ((after, saved), done) ↦
            let whole : receipts' ≡ saved = ground arith in
            let (y, there, kept) =
              apply_receipt_review_command-final platform parse payload receipts saved after k x
                done found (rw same decided) in
            (y, rw whole there, kept ∙ same)
      ]

  beside_keeps :
      (o : Option T) (receipts : List Receipt) (s' : T × List Receipt)
      → beside_receipts o receipts ≡ some s'
      → s'.1 ≡ receipts
  beside_keeps none receipts s' e = absurd (ground arith)
  beside_keeps (some t) receipts s' e = ground arith

  other_keeps_status :
      (k : Text) (status : ReceiptStatus) (o : Option T) (s s' : T × List Receipt)
      → beside_receipts o s.1 ≡ some s'
      → HasStatus k status s
      → HasStatus k status s'
  other_keeps_status k status o s s' e (y, there, same) =
      (y, rw (beside_keeps o s.1 s' e) there, same)

  handlers_keep_status :
      (k : Text) (status : ReceiptStatus)
      → is_pending status ≡ false
      → IsKeptBy (with_receipts others platform parse) (HasStatus k status)
  unfolding handle_with_receipts
  handlers_keep_status k status decided CommandKind.receipt_reviewed payload id s s' e h =
      elim (Option-cases (review_receipts platform parse payload s.1)) [
        | inl failed ↦ absurd (ground arith)
        | inr (receipts', done) ↦
            let whole : s'.1 ≡ receipts' = ground arith in
            let (y, there, kept) =
              review_keeps_status k status payload s.1 receipts' s.0 decided done h in
            (y, rw whole there, kept)
      ]
  handlers_keep_status k status decided CommandKind.transfer_available payload id s s' e h =
      other_keeps_status k status (others.handle CommandKind.transfer_available payload id s.0) s s'
        e h
  handlers_keep_status k status decided CommandKind.transfer_receipt payload id s s' e h =
      other_keeps_status k status (others.handle CommandKind.transfer_receipt payload id s.0) s s' e
        h
  handlers_keep_status k status decided CommandKind.qr_allocated payload id s s' e h =
      other_keeps_status k status (others.handle CommandKind.qr_allocated payload id s.0) s s' e h
  handlers_keep_status k status decided CommandKind.qr_replace payload id s s' e h =
      other_keeps_status k status (others.handle CommandKind.qr_replace payload id s.0) s s' e h
  handlers_keep_status k status decided CommandKind.product_upsert payload id s s' e h =
      other_keeps_status k status (others.handle CommandKind.product_upsert payload id s.0) s s' e h

  -- A receipt that was approved or denied has that status after any poll, whatever commands it brings
  -- and whatever the handlers of the others do.
  pub process_commands-final :
      (acknowledge : ℕ → Bool) (now : ℕ → ℕ) (limit n : ℕ) (commands : Items)
      (world : World (T × List Receipt)) (k : Text) (status : ReceiptStatus)
      → is_pending status ≡ false
      → HasStatus k status world.business
      → HasStatus k status
          (process_commands
            (with_receipts others platform parse)
            platform
            acknowledge
            now
            limit
            n
            commands
            world).1.business
  process_commands-final acknowledge now limit n commands world k status decided h =
      process_keeps_business (with_receipts others platform parse) platform (HasStatus k status)
        (handlers_keep_status k status decided) acknowledge now limit n commands world h

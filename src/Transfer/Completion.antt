-- ===== src/Transfer/Completion.antt =====
-- The receipt that another franchise reports through Master (`apply_transfer_receipt_command`). The
-- numbers and the flag `complete` are what `_received_serials_from_payload` reads from the command.
pub mod Effects
use setuora_lite.Base.{
  ℕ, [], ◌∷◌, refl, List, nat_eq, text_eq, none, some, Bool, Text, if◌then◌else◌, false, ◌&&◌, not,
  true, Option, ◌==◌, length, one_of, or_else, update_where, count_where, ◌||◌, ltb, all, find,
}
use setuora_lite.Model.{Serial, TransferDirection, TransferStatus, transfer_status_eq, direction_eq}
use setuora_lite.Transfer.Rows.{
  TransferItem, raises, returns, save_transfer, items_of, Stock, Transfer, Outcome, TransferError,
  raise_when, ◌>>=◌,
}

-- `transfer.items` contains the number.
unfoldable pub in_manifest : List TransferItem → Text → Bool
in_manifest [] number = false
in_manifest (i ∷ items) number = i.manifest_serial_number == number || in_manifest items number

abbrev pub numbers_of : List TransferItem → List Text
numbers_of [] = []
numbers_of (i ∷ items) = i.manifest_serial_number ∷ numbers_of items

-- `received_serials`, after the case of a complete receipt that names no serial.
unfoldable pub confirmed_numbers : List Text → Bool → List TransferItem → List Text
confirmed_numbers received complete items =
    if complete && length received == 0 then numbers_of items else received

unfoldable pub is_skipped : List Text → TransferItem → Bool
is_skipped received item = not (one_of item.manifest_serial_number received) || item.received

abbrev pub confirm : ℕ → TransferItem → TransferItem
confirm now item = record item {
  scanned = true;
  scanned_at = some (or_else item.scanned_at now);
  received = true;
  received_at = some now;
}

-- `item.serial.active = False`: the status stays IN_TRANSIT.
unfoldable pub retire : Option ℕ → List Serial → List Serial
retire none rows = rows
retire (some k) rows = update_where (λ r. r.id == k) (λ r. record r { active = false }) rows

unfoldable pub confirm_item : ℕ → List Text → TransferItem → Stock → Stock
confirm_item now received item st = if is_skipped received item then st else record st {
  items = update_where (λ i. i.id == item.id) (confirm now) st.items;
  serials = retire item.serial_id st.serials;
}

unfoldable pub confirm_items : ℕ → List Text → List TransferItem → Stock → Stock
confirm_items now received [] st = st
confirm_items now received (item ∷ items) st =
    confirm_items now received items (confirm_item now received item st)

abbrev pub is_received : TransferItem → Bool
is_received i = i.received

unfoldable pub completed_transfer : ℕ → List TransferItem → Transfer → Transfer
completed_transfer now items t =
    if count_where is_received items == length items
    then record t { status = TransferStatus.received; received_at = some now }
    else if ltb 0 (count_where is_received items)
    then record t { status = TransferStatus.partially_received }
    else t

unfoldable pub complete_transfer :
    List Text → Bool → ℕ → Transfer → Stock → Outcome (Transfer × Stock)
complete_transfer received complete now t st =
    let numbers = confirmed_numbers received complete (items_of t.id st.items) in
    let st' = confirm_items now numbers (items_of t.id st.items) st in
    let t' = completed_transfer now (items_of t.id st'.items) t in
    if all (in_manifest (items_of t.id st.items)) numbers
    then returns (t', save_transfer t' st')
    else raises TransferError.unknown_serials

unfoldable pub apply_transfer_receipt_command :
    Text → List Text → Bool → ℕ → Stock → Outcome (Transfer × Stock)
apply_transfer_receipt_command uuid received complete now st =
    elim (find (λ (t : Transfer). t.transfer_uuid == uuid) st.transfers) [
      | none ↦ raises TransferError.outbound_not_found
      | some t ↦
          raise_when (not (t.direction == TransferDirection.outbound))
            TransferError.outbound_not_found
          >>= λ _.
              raise_when (t.status == TransferStatus.draft) TransferError.draft_receipt >>= λ _.
              complete_transfer received complete now t st
    ]

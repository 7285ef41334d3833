-- ===== src/Transfer/Completion/Effects.antt =====
-- What a reported receipt does to the serials.
use mathlib.Core.Option.{Option}
use mathlib.Core.Option
use setuora_lite.Base.{
  ℕ, [], ◌∷◌, refl, List, arith, nat_eq, none, some, inl, inr, row-update_where, ◌≢◌, false, Text,
  ◌≡◌, Bool, row, if◌then◌else◌, not, ◌==◌, Option-cases, find, ◌&&◌, ◌||◌, Bool-cases, all, true,
  text_eq, one_of,
}
use setuora_lite.Model.{direction_eq, transfer_status_eq, Serial, TransferDirection, TransferStatus}
use setuora_lite.Transfer.Rows.{TransferItem, Stock, returns, names, items_of, save_transfer}
use setuora_lite.Transfer.Moves.Effects.{serial_row}
use setuora_lite.Transfer.Completion.{
  apply_transfer_receipt_command, in_manifest, retire, confirm_item, confirm_items,
  complete_transfer, Transfer, is_skipped, confirmed_numbers,
}

abbrev pub inactive : Serial → Serial
inactive r = record r { active = false }

-- An item whose number is confirmed, and that was not received before, names the serial.
abbrev pub is_retired : ℕ → List Text → List TransferItem → Bool
is_retired k received [] = false
is_retired k received (i ∷ items) =
    (one_of i.manifest_serial_number received && not i.received && names k i)
    || is_retired k received items

map-same : (o : Option Serial) → Option.map (λ r. r) o ≡ o
map-same none = refl
map-same (some r) = refl

row-retire :
    (named : Option ℕ) (k : ℕ) (rows : List Serial)
    → row (λ (r : Serial). r.id) k (retire named rows)
      ≡ Option.map
          (λ r. if (elim named [ none ↦ false | some j ↦ r.id == j ]) then inactive r else r)
          (row (λ (r : Serial). r.id) k rows)
unfolding retire
row-retire none k rows = rw (map-same (row (λ (r : Serial). r.id) k rows)) refl
row-retire (some j) k rows =
    row-update_where (λ (r : Serial). r.id) (λ r. r.id == j) inactive (λ r. refl) k rows

row-confirm_item :
    (now : ℕ) (received : List Text) (item : TransferItem) (st : Stock) (k : ℕ)
    → serial_row k (confirm_item now received item st)
      ≡ Option.map
          (λ r.
            if one_of item.manifest_serial_number received && not item.received && names r.id item
            then inactive r
            else r)
          (serial_row k st)
unfolding confirm_item is_skipped
row-confirm_item now received item st k =
    elim (Bool-cases (one_of item.manifest_serial_number received)) [
      | inr missing ↦ rw (missing, map-same (serial_row k st)) refl
      | inl named ↦ elim (Bool-cases item.received) [
        | inl before ↦ rw (named, before, map-same (serial_row k st)) refl
        | inr first ↦ rw (named, first) (row-retire item.serial_id k st.serials)
      ]
    ]

row-confirm_items :
    (now : ℕ) (received : List Text) (items : List TransferItem) (st : Stock) (k : ℕ)
    → serial_row k (confirm_items now received items st)
      ≡ Option.map (λ r. if is_retired r.id received items then inactive r else r) (serial_row k st)
unfolding confirm_items
row-confirm_items now received [] st k = rw (map-same (serial_row k st)) refl
row-confirm_items now received (item ∷ items) st k = elim (Option-cases (serial_row k st)) [
  | inl absent ↦
      rw
        (
          row-confirm_items now received items (confirm_item now received item st) k,
          row-confirm_item now received item st k,
          absent,
        )
        refl
  | inr (r, e) ↦
      rw
        (
          row-confirm_items now received items (confirm_item now received item st) k,
          row-confirm_item now received item st k,
          e,
        )
        (ground arith)
]

-- A reported receipt that returns is for an outbound transfer that is no draft, and names serials of
-- its manifest only. The serials of the confirmed items that were not received before become
-- inactive, with their status kept; no other serial changes.
pub receipt_command-retires :
    (uuid : Text) (received : List Text) (complete : Bool) (now : ℕ) (st : Stock) (t' : Transfer)
    (st' : Stock)
    → apply_transfer_receipt_command uuid received complete now st ≡ returns (t', st')
    → (t : Transfer) × (find (λ (t : Transfer). t.transfer_uuid == uuid) st.transfers ≡ some t)
      × (t.direction ≡ TransferDirection.outbound)
      × (t.status ≢ TransferStatus.draft)
      × (let items = items_of t.id st.items in
          let numbers = confirmed_numbers received complete items in
          (all (in_manifest items) numbers ≡ true)
          × ((k : ℕ)
              → serial_row k st'
                ≡ Option.map
                    (λ r. if is_retired r.id numbers items then inactive r else r)
                    (serial_row k st)))
unfolding apply_transfer_receipt_command complete_transfer save_transfer
receipt_command-retires uuid received complete now st t' st' h =
    elim (Option-cases (find (λ (t : Transfer). t.transfer_uuid == uuid) st.transfers)) [
      | inl absent ↦ absurd (ground arith)
      | inr (t, found) ↦
          let items = items_of t.id st.items in
          let numbers = confirmed_numbers received complete items in
          (
            t,
            found,
            ground (arith, direction_eq.same_iff t.direction TransferDirection.outbound),
            λ draft.
                let test = (transfer_status_eq.same_iff t.status TransferStatus.draft).1 draft in
                ground (arith, test),
            (ground arith, λ k. ground (arith, row-confirm_items now numbers items st k)),
          )
    ]

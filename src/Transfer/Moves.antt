-- ===== src/Transfer/Moves.antt =====
-- The loop that dispatch and receipt share: each item's serial is claimed by its id, its status and
-- its active flag, moved to the next status, and logged.
pub mod Effects
use setuora_lite.Base.{
  ℕ, [], ◌∷◌, refl, List, Bool, update_where, Option, ◌==◌, ◌&&◌, true, none, some, nat_eq,
  if◌then◌else◌, count_where, ◌++◌,
}
use setuora_lite.Model.{
  Serial, SerialStatus, status_eq, TransactionType, User, InventoryTransaction,
}
use setuora_lite.Transfer.Rows.{
  TransferItem, TransferError, Stock, Transfer, Outcome, raises, returns, serial_by_id,
}

-- What the two loops differ in. `stamp` is the time that a receipt writes to the item.
pub record Move : Type 0 where
  pub source : SerialStatus
  pub target : SerialStatus
  pub kind : TransactionType
  pub refusal : TransferError
  pub stamp : Option ℕ

-- `log_inventory_transaction` for a serial that moves outside of a batch.
unfoldable pub transfer_log : Move → User → Transfer → Serial → InventoryTransaction
transfer_log move user transfer serial = record {
  transaction_type = move.kind;
  serial_id = some serial.id;
  product_id = some serial.product_id;
  batch_id = none;
  user_id = user.id;
  serial_number = some serial.serial_number;
  status_from = some move.source;
  status_to = some move.target;
  reason_code = none;
  tally_reference = none;
  reference_number = some transfer.transfer_uuid;
}

-- `UPDATE serials SET status = target WHERE id = … AND status = source AND active`
abbrev pub takes : Move → ℕ → Serial → Bool
takes move k r = r.id == k && (r.status == move.source && r.active)

-- `item.received = True; item.received_at = …`
unfoldable pub mark_received : ℕ → TransferItem → List TransferItem → List TransferItem
mark_received now item =
    update_where (λ i. i.id == item.id) (λ i. record i { received = true; received_at = some now })

unfoldable pub item_serial : TransferItem → Stock → Option Serial
item_serial item st = elim item.serial_id [ none ↦ none | some k ↦ serial_by_id k st ]

unfoldable pub move_item : Move → User → Transfer → TransferItem → Stock → Outcome Stock
unfolding item_serial
move_item move user transfer item st = elim (item_serial item st) [
  | none ↦ raises TransferError.missing_serial
  | some serial ↦
      if count_where (takes move serial.id) st.serials == 1
      then returns (record st {
        serials =
            update_where (takes move serial.id) (λ r. record r { status = move.target }) st.serials;
        items = elim move.stamp [ none ↦ st.items | some now ↦ mark_received now item st.items ];
        transactions = st.transactions ++ transfer_log move user transfer serial ∷ [];
      })
      else raises move.refusal
]

unfoldable pub move_items : Move → User → Transfer → List TransferItem → Stock → Outcome Stock
move_items move user transfer [] st = returns st
move_items move user transfer (item ∷ items) st = elim (move_item move user transfer item st) [
  | raises e ↦ raises e
  | returns st' ↦ move_items move user transfer items st'
]

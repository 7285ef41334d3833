-- ===== src/Transfer/Rows.antt =====
-- The rows of transfers, the tables that the service works on, and its errors.
use setuora_lite.Base.{
  refl, inl, inr, ◌≡◌, ◌⊎◌, ℕ, nat_eq, text_eq, Text, Option, List, Bool, row, select, update_where,
  ◌==◌, some, find, none, if◌then◌else◌, false,
}
use setuora_lite.Model.{
  Serial, direction_eq, TransferDirection, Product, SerialStatus, TransferStatus,
  InventoryTransaction,
}

pub record Transfer : Type 0 where
  pub id : ℕ
  pub transfer_uuid : Text
  pub direction : TransferDirection
  pub status : TransferStatus
  pub local_franchise_code : Option Text
  pub peer_code : Text
  pub created_by_id : Option ℕ
  pub dispatched_at : Option ℕ
  pub received_at : Option ℕ

pub record TransferItem : Type 0 where
  pub id : ℕ
  pub transfer_id : ℕ
  pub serial_id : Option ℕ
  pub manifest_serial_number : Text
  pub product_code : Text
  pub product_name : Text
  pub scanned : Bool
  pub received : Bool
  pub scanned_at : Option ℕ
  pub received_at : Option ℕ

-- The item of a network event: the serial as it stands, with its product, and the status to report.
pub record NetworkItem : Type 0 where
  pub serial : Serial
  pub product : Option Product
  pub status : SerialStatus

pub data EventKind : Type 0 where
  transfer_dispatched transfer_received : EventKind

-- An event handed to `enqueue_outbox_event`.
pub record OutEvent : Type 0 where
  pub event_type : EventKind
  pub aggregate_id : Text
  pub actor : Text
  pub destination : Option Text
  pub items : List NetworkItem
  pub occurred_at : ℕ

pub record Stock : Type 0 where
  pub serials : List Serial
  pub products : List Product
  pub transfers : List Transfer
  pub items : List TransferItem
  pub transactions : List InventoryTransaction
  pub outbox : List OutEvent

pub data TransferError : Type 0 where
  transfer_not_found wrong_direction not_a_draft not_registered not_in_stock : TransferError
  already_in_transfer already_reserved item_not_found nothing_to_dispatch too_many_items :
      TransferError
  missing_serial no_longer_available master_sync not_receivable not_in_manifest : TransferError
  already_received already_scanned nothing_scanned cannot_receive : TransferError
  outbound_not_found draft_receipt unknown_serials no_product refused_by_outbox no_destination
        long_destination same_franchise :
      TransferError

pub data Outcome {ℓ} (T : Type ℓ) : Type ℓ where
  returns : T → Outcome T
  raises : TransferError → Outcome T

infixl 5 ◌>>=◌
abbrev pub ◌>>=◌ {ℓ κ} : {T : Type ℓ} {U : Type κ} → Outcome T → (T → Outcome U) → Outcome U
call >>= next = elim call [ returns value ↦ next value | raises e ↦ raises e ]

-- The rows under a number, a text and a table.
abbrev pub serial_by_id : ℕ → Stock → Option Serial
serial_by_id k st = row (λ (r : Serial). r.id) k st.serials

abbrev pub transfer_by_id : ℕ → Stock → Option Transfer
transfer_by_id k st = row (λ (t : Transfer). t.id) k st.transfers

-- `transfer.items`
unfoldable pub items_of : ℕ → List TransferItem → List TransferItem
items_of transfer_id = select (λ i. i.transfer_id == transfer_id)

-- How the caller names a transfer: the object, its id, or its uuid.
pub data TransferRef : Type 0 where
  of_object : Transfer → TransferRef
  of_id : ℕ → TransferRef
  of_uuid : Text → TransferRef

-- `_resolve_transfer`
unfoldable pub resolve_transfer : TransferRef → Option TransferDirection → Stock → Outcome Transfer
resolve_transfer ref direction st =
    let found : Option Transfer = elim ref [
      | of_object t ↦ some t
      | of_id k ↦ transfer_by_id k st
      | of_uuid u ↦ find (λ t. t.transfer_uuid == u) st.transfers
    ] in
    elim found [
      | none ↦ raises transfer_not_found
      | some t ↦ elim direction [
        | none ↦ returns t
        | some d ↦ if t.direction == d then returns t else raises wrong_direction
      ]
    ]

unfoldable pub save_transfer : Transfer → Stock → Stock
save_transfer t st = record st {
  transfers = update_where (λ r. r.id == t.id) (λ _. t) st.transfers;
}

-- `network_event_item(item.serial, status=…)`
unfoldable pub network_event_item : SerialStatus → Stock → Serial → NetworkItem
network_event_item status st serial = record {
  serial = serial;
  product = row (λ (p : Product). p.id) serial.product_id st.products;
  status = status;
}

-- A condition that raises, as an early return.
abbrev pub raise_when : Bool → TransferError → Outcome (Unit {0})
raise_when test e = if test then raises e else returns tt

-- `item.serial_id == k` in a query: a null matches nothing.
abbrev pub names : ℕ → TransferItem → Bool
names k item = elim item.serial_id [ none ↦ false | some j ↦ k == j ]

pub Outcome-cases {ℓ} :
    {T : Type ℓ} (o : Outcome T)
    → ((value : T) × (o ≡ returns value)) ⊎ ((e : TransferError) × (o ≡ raises e))
Outcome-cases (returns value) = inl (value, refl)
Outcome-cases (raises e) = inr (e, refl)

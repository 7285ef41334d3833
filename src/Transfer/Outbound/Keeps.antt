-- ===== src/Transfer/Outbound/Keeps.antt =====
-- The reservation of a serial said without the code's query, and that the query finds it.
use setuora_lite.Base.{
  ℕ, [], ◌∷◌, refl, inl, inr, none, some, Bool, List, count_where, ◌≡◌, one_of, ◌≤◌, not,
  Option-cases, ◌&&◌, row, false, ◌==◌, count_same,
}
use setuora_lite.Model.{TransferDirection, direction_eq, TransferStatus, transfer_status_eq}
use setuora_lite.Model.Enums.{TransferStatus-discrete}
use setuora_lite.Transfer.Rows.{TransferItem, Stock}
use setuora_lite.Transfer.Outbound.{is_reserving, is_open, Transfer, names}

-- An outbound transfer is finished when it is received or has failed; no outbound transfer awaits
-- its receipt.
abbrev pub is_finished : TransferStatus → Bool
is_finished status =
    one_of status
      (TransferStatus.received ∷ TransferStatus.failed ∷ TransferStatus.awaiting_receipt ∷ [])

-- The item keeps the serial for an outbound transfer that is not finished.
abbrev pub keeps : List Transfer → ℕ → TransferItem → Bool
keeps transfers k item =
    names k item && elim (row (λ (t : Transfer). t.id) item.transfer_id transfers) [
      | none ↦ false
      | some t ↦ t.direction == TransferDirection.outbound && not (is_finished t.status)
    ]

abbrev pub HasOneReservation : Stock → Type 0
HasOneReservation st = (k : ℕ) → count_where (keeps st.transfers k) st.items ≤ 1

is_open-finished : (status : TransferStatus) → is_open status ≡ not (is_finished status)
unfolding is_open TransferStatus-discrete
is_open-finished TransferStatus.draft = refl
is_open-finished TransferStatus.pending_master = refl
is_open-finished TransferStatus.dispatched = refl
is_open-finished TransferStatus.awaiting_receipt = refl
is_open-finished TransferStatus.partially_received = refl
is_open-finished TransferStatus.received = refl
is_open-finished TransferStatus.failed = refl

reserving-keeps :
    (transfers : List Transfer) (k : ℕ) (item : TransferItem)
    → is_reserving transfers k item ≡ keeps transfers k item
unfolding is_reserving
reserving-keeps transfers k item =
    elim (Option-cases (row (λ (t : Transfer). t.id) item.transfer_id transfers)) [
      | inl absent ↦ rw absent refl
      | inr (t, e) ↦ rw (e, is_open-finished t.status) refl
    ]

pub reserving-keeps-count :
    (st : Stock) (k : ℕ)
    → count_where (is_reserving st.transfers k) st.items
      ≡ count_where (keeps st.transfers k) st.items
reserving-keeps-count st k =
    count_same (is_reserving st.transfers k) (keeps st.transfers k) st.items
      (reserving-keeps st.transfers k)

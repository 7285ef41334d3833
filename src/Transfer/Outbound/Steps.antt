-- ===== src/Transfer/Outbound/Steps.antt =====
-- The life of outbound transfers as a sequence of calls, and what every sequence keeps.
use mathlib.Core.Option
use setuora_lite.Base.{
  ℕ, [], ◌∷◌, refl, List, arith, nat_eq, some, inl, inr, update_where, Bool, ◌≡◌, Text, row, ◌==◌,
  if◌then◌else◌, Option-cases, row_key, Bool-cases, nat_beq, sym, count_same,
}
use setuora_lite.Model.{TransferDirection, TransferStatus, transfer_status_eq, User}
use setuora_lite.Transfer.Rows.{
  resolve_transfer, TransferItem, Stock, returns, save_transfer, transfer_by_id,
}
use setuora_lite.Transfer.Outbound.Keeps.{HasOneReservation, reserving-keeps-count}
use setuora_lite.Transfer.Outbound.{
  dispatch_outbound_transfer, TransferRef, OutEvent, Transfer, is_reserving, is_open,
  add_outbound_serial, remove_outbound_serial, resolve_transfer, send_dispatch, dispatch_move,
  items_of,
}
use setuora_lite.Transfer.Outbound.Dispatch.{dispatch_returns, move_items-tables}
use setuora_lite.Transfer.Outbound.Reserve.{
  HasOneReserving, add-HasOneReserving, remove-HasOneReserving,
}

-- A call that returns. The transfer is named by its id, which reads the table.
pub data Call (accepts : OutEvent → Bool) : Stock → Stock → Type 0 where
  adds :
      (transfer_id : ℕ) (serial_number : Text) (next_id : ℕ) (item : TransferItem) (st st' : Stock)
      → add_outbound_serial (TransferRef.of_id transfer_id) serial_number next_id st
        ≡ returns (item, st')
      → Call accepts st st'
  removes :
      (transfer_id item_id : ℕ) (st st' : Stock)
      → remove_outbound_serial (TransferRef.of_id transfer_id) item_id st ≡ returns st'
      → Call accepts st st'
  dispatches :
      (transfer_id : ℕ) (user : User) (now : ℕ) (t' : Transfer) (st st' : Stock)
      → dispatch_outbound_transfer accepts (TransferRef.of_id transfer_id) user now st
        ≡ returns (t', st')
      → Call accepts st st'

pub data Calls (accepts : OutEvent → Bool) : Stock → Stock → Type 0 where
  done : (st : Stock) → Calls accepts st st
  call :
      (st st' st'' : Stock) → Call accepts st st' → Calls accepts st' st'' → Calls accepts st st''

row-saved :
    (t t' : Transfer) (k : ℕ) (rows : List Transfer)
    → t'.id ≡ t.id
    → row (λ (t : Transfer). t.id) k (update_where (λ r. r.id == t.id) (λ _. t') rows)
      ≡ Option.map (λ r. if r.id == t.id then t' else r) (row (λ (t : Transfer). t.id) k rows)
row-saved t t' k [] same = refl
row-saved t t' k (x ∷ rows) same = ground (arith, row-saved t t' k rows same)

abbrev as_dispatched : ℕ → Transfer → Transfer
as_dispatched now t = record t { status = TransferStatus.dispatched; dispatched_at = some now }

-- The dispatch of a draft changes no reservation: a draft and a dispatched transfer both hold one.
reserving-dispatched :
    (t : Transfer) (now : ℕ) (rows : List Transfer) (k : ℕ) (item : TransferItem)
    → row (λ (t : Transfer). t.id) t.id rows ≡ some t
    → t.status ≡ TransferStatus.draft
    → is_reserving (update_where (λ r. r.id == t.id) (λ _. as_dispatched now t) rows) k item
      ≡ is_reserving rows k item
unfolding is_reserving is_open
reserving-dispatched t now rows k item found draft =
    let after = row-saved t (as_dispatched now t) item.transfer_id rows refl in
    elim (Option-cases (row (λ (t : Transfer). t.id) item.transfer_id rows)) [
      | inl absent ↦ rw (after, absent) refl
      | inr (r, e) ↦
          let key : r.id ≡ item.transfer_id =
            row_key (λ (t : Transfer). t.id) item.transfer_id rows e in
          elim (Bool-cases (nat_beq r.id t.id)) [
            | inr other ↦ rw (after, e, other) refl
            | inl same ↦
                let own : item.transfer_id ≡ t.id = ground (arith, key) in
                let e' = rw own at e in
                let whole : r ≡ t = ground (arith, e', found) in
                rw (after, e, same, whole, draft) refl
          ]
    ]

resolved_by_id :
    (transfer_id : ℕ) (st : Stock) (t : Transfer)
    → resolve_transfer (TransferRef.of_id transfer_id) (some TransferDirection.outbound) st
      ≡ returns t
    → transfer_by_id transfer_id st ≡ some t
unfolding resolve_transfer
resolved_by_id transfer_id st t h = elim (Option-cases (transfer_by_id transfer_id st)) [
  | inl absent ↦ absurd (ground arith)
  | inr (r, e) ↦ ground arith
]

dispatch-HasOneReserving :
    (accepts : OutEvent → Bool) (transfer_id : ℕ) (user : User) (now : ℕ) (st : Stock)
    {t' : Transfer} {st' : Stock}
    → HasOneReserving st
    → dispatch_outbound_transfer accepts (TransferRef.of_id transfer_id) user now st
      ≡ returns (t', st')
    → HasOneReserving st'
unfolding send_dispatch save_transfer
dispatch-HasOneReserving accepts transfer_id user now st {t' = t'} {st' = st'} one h =
    let ((t, st1), resolved, draft, least, most, moves, sent) =
      dispatch_returns accepts (TransferRef.of_id transfer_id) user now st {t' = t'} {st' = st'}
        h in
    let (transfers, outbox, items) =
      move_items-tables dispatch_move user t (items_of t.id st.items) st {st' = st1} moves in
    let in_table : transfer_by_id transfer_id st ≡ some t =
      resolved_by_id transfer_id st t resolved in
    let key : t.id ≡ transfer_id =
      row_key (λ (t : Transfer). t.id) transfer_id st.transfers in_table in
    let in_table' : transfer_by_id t.id st ≡ some t = rw (sym key) at in_table in
    let was_draft = (transfer_status_eq.same_iff t.status TransferStatus.draft).0 draft in
    let saved : st'.transfers
        ≡ update_where (λ r. r.id == t.id) (λ _. as_dispatched now t) st.transfers =
      ground (arith, transfers) in
    let kept : st'.items ≡ st.items = ground (arith, items refl) in
    λ k.
      rw
        (
          saved,
          kept,
          count_same
              (is_reserving
                (update_where (λ r. r.id == t.id) (λ _. as_dispatched now t) st.transfers) k)
              (is_reserving st.transfers k) st.items
              (λ item. reserving-dispatched t now st.transfers k item in_table' was_draft),
        )
        (one k)

Call-HasOneReserving :
    (accepts : OutEvent → Bool) (st st' : Stock)
    → Call accepts st st'
    → HasOneReserving st
    → HasOneReserving st'
Call-HasOneReserving accepts _ _ (Call.adds k number next_id item st st' h) one =
    (add-HasOneReserving (TransferRef.of_id k) number next_id st item st' one h).1
Call-HasOneReserving accepts _ _ (Call.removes k item_id st st' h) one =
    remove-HasOneReserving (TransferRef.of_id k) item_id st {st' = st'} one h
Call-HasOneReserving accepts _ _ (Call.dispatches k user now t' st st' h) one =
    dispatch-HasOneReserving accepts k user now st {t' = t'} {st' = st'} one h

Calls-HasOneReserving :
    (accepts : OutEvent → Bool) (st st' : Stock)
    → Calls accepts st st'
    → HasOneReserving st
    → HasOneReserving st'
Calls-HasOneReserving accepts _ _ (Calls.done st) one = one
Calls-HasOneReserving accepts _ _ (Calls.call st mid st' first rest) one =
    Calls-HasOneReserving accepts mid st' rest (Call-HasOneReserving accepts st mid first one)

-- Whatever calls are made to add serials to drafts, to remove them and to dispatch transfers, each
-- serial stands in at most one unfinished outbound transfer, if that was so before.
pub Calls-HasOneReservation :
    (accepts : OutEvent → Bool) (st st' : Stock)
    → Calls accepts st st'
    → HasOneReservation st
    → HasOneReservation st'
Calls-HasOneReservation accepts st st' calls one =
    let before : HasOneReserving st = λ k. rw (reserving-keeps-count st k) (one k) in
    λ k. rw⁻¹ (reserving-keeps-count st' k) (Calls-HasOneReserving accepts st st' calls before k)

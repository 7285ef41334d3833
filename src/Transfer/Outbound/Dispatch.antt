-- ===== src/Transfer/Outbound/Dispatch.antt =====
-- The dispatch of a draft: its guards, its effect on the serials, and its event.
use mathlib.Core.Option.{Option}
use mathlib.Core.Option
use setuora_lite.Base.{
  update_where, ℕ, [], ◌∷◌, refl, List, arith, nat_eq, none, some, inl, inr, Bool, ◌≡◌,
  Option-cases, ◌≤◌, ◌∙◌, length, true, All, ◌==◌, ◌++◌,
}
use setuora_lite.Model.{SerialStatus, TransferDirection, TransferStatus, User, transfer_status_eq}
use setuora_lite.Transfer.Rows.{save_transfer, TransferItem, Stock, returns, Outcome-cases}
use setuora_lite.Transfer.Moves.{move_items, move_item, Move, item_serial}
use setuora_lite.Transfer.Moves.Effects.{move_items-effect, IsHeld, serial_row, moved, IsKeyedStock}
use setuora_lite.Transfer.Outbound.{
  dispatch_outbound_transfer, OutEvent, send_dispatch, Transfer, dispatch_event, TransferRef,
  save_transfer, resolve_transfer, is_draft_transfer, items_of, max_items, dispatch_move,
}

-- The loop leaves the other tables alone, and a dispatch the items too.
move_item-tables :
    (move : Move) (user : User) (t : Transfer) (item : TransferItem) (st : Stock) {st' : Stock}
    → move_item move user t item st ≡ returns st'
    → (st'.transfers ≡ st.transfers)
      × (st'.outbox ≡ st.outbox)
      × (move.stamp ≡ none → st'.items ≡ st.items)
unfolding move_item
move_item-tables move user t item st h = elim (Option-cases (item_serial item st)) [
  | inl absent ↦ absurd (ground arith)
  | inr (serial, found) ↦ (ground arith, ground arith, λ unstamped. ground arith)
]

pub move_items-tables :
    (move : Move) (user : User) (t : Transfer) (items : List TransferItem) (st : Stock)
    {st' : Stock}
    → move_items move user t items st ≡ returns st'
    → (st'.transfers ≡ st.transfers)
      × (st'.outbox ≡ st.outbox)
      × (move.stamp ≡ none → st'.items ≡ st.items)
unfolding move_items
move_items-tables move user t [] st h = (ground arith, ground arith, λ unstamped. ground arith)
move_items-tables move user t (x ∷ xs) st {st' = st'} h =
    elim (Outcome-cases (move_item move user t x st)) [
      | inr (e, failed) ↦ absurd (ground arith)
      | inl (st1, one) ↦
          let (a, b, c) = move_item-tables move user t x st {st' = st1} one in
          let rest : move_items move user t xs st1 ≡ returns st' = ground arith in
          let (a', b', c') = move_items-tables move user t xs st1 {st' = st'} rest in
          (a' ∙ a, b' ∙ b, λ unstamped. c' unstamped ∙ c unstamped)
    ]

-- What a dispatch that returns has done to the transfer `t` that it resolved.
pub record Dispatched (user : User) (now : ℕ) (t : Transfer) (st : Stock) (t' : Transfer)
    (st' : Stock) : Type 0 where
  pub was_draft : t.status ≡ TransferStatus.draft
  pub some_items : 1 ≤ length (items_of t.id st.items)
  pub few_items : length (items_of t.id st.items) ≤ max_items
  pub held : All (IsHeld SerialStatus.in_stock st) (items_of t.id st.items)
  pub rows :
      (k : ℕ)
      → serial_row k st'
        ≡ Option.map (moved dispatch_move (items_of t.id st.items)) (serial_row k st)
  pub result : t' ≡ record t { status = TransferStatus.dispatched; dispatched_at = some now }
  pub saved : st'.transfers ≡ update_where (λ r. r.id == t.id) (λ _. t') st.transfers
  pub kept : st'.items ≡ st.items
  pub event : OutEvent
  pub named : event.aggregate_id ≡ t.transfer_uuid
  pub sent_to : event.destination ≡ some t.peer_code
  pub queued : st'.outbox ≡ st.outbox ++ event ∷ []

pub dispatch_returns :
    (accepts : OutEvent → Bool) (ref : TransferRef) (user : User) (now : ℕ) (st : Stock)
    {t' : Transfer} {st' : Stock}
    → dispatch_outbound_transfer accepts ref user now st ≡ returns (t', st')
    → (y : Transfer × Stock) × (resolve_transfer ref (some TransferDirection.outbound) st
        ≡ returns y.0)
      × (is_draft_transfer y.0 ≡ true)
      × (1 ≤ length (items_of y.0.id st.items))
      × (length (items_of y.0.id st.items) ≤ max_items)
      × (move_items dispatch_move user y.0 (items_of y.0.id st.items) st ≡ returns y.1)
      × (send_dispatch accepts user now y.0 (items_of y.0.id st.items) y.1 ≡ returns (t', st'))
unfolding dispatch_outbound_transfer
dispatch_returns accepts ref user now st {t' = t'} {st' = st'} h =
    elim (Outcome-cases (resolve_transfer ref (some TransferDirection.outbound) st)) [
      | inr (e, failed) ↦ absurd (ground arith)
      | inl (t, resolved) ↦
          elim (Outcome-cases (move_items dispatch_move user t (items_of t.id st.items) st)) [
            | inr (e, failed) ↦ absurd (ground arith)
            | inl (st1, done) ↦
                ((t, st1), resolved, ground arith, ground arith, ground arith, done, ground arith)
          ]
    ]

-- A dispatch that returns took a draft of one to 5000 items, each naming a serial that was in
-- stock and active; it moved exactly their serials to IN_TRANSIT, saved the transfer as dispatched, and
-- queued one event that names the transfer and its destination.
pub dispatch-Dispatched :
    (accepts : OutEvent → Bool) (ref : TransferRef) (user : User) (now : ℕ) (st : Stock)
    (t' : Transfer) (st' : Stock)
    → IsKeyedStock st
    → dispatch_outbound_transfer accepts ref user now st ≡ returns (t', st')
    → (t : Transfer) × (resolve_transfer ref (some TransferDirection.outbound) st ≡ returns t)
      × Dispatched user now t st t' st'
unfolding send_dispatch dispatch_event save_transfer
dispatch-Dispatched accepts ref user now st t' st' keyed h =
    let ((t, st1), resolved, draft, least, most, done, sent) =
      dispatch_returns accepts ref user now st {t' = t'} {st' = st'} h in
    let (held, rows) =
      move_items-effect dispatch_move user t (items_of t.id st.items) st {st' = st1}
        (λ e. ground (arith, e)) keyed done in
    let (transfers, outbox, items) =
      move_items-tables dispatch_move user t (items_of t.id st.items) st {st' = st1} done in
    (
      t,
      resolved,
      record {
        was_draft = ground (arith, transfer_status_eq.same_iff t.status TransferStatus.draft);
        some_items = least;
        few_items = most;
        held = held;
        rows = λ k. ground (arith, rows k);
        result = ground arith;
        saved = ground (arith, transfers);
        kept = ground (arith, items refl);
        event =
            dispatch_event
              (record t { status = TransferStatus.dispatched; dispatched_at = some now }) user now
              (items_of t.id st.items) st1;
        named = refl;
        sent_to = refl;
        queued = ground (arith, outbox);
      },
    )

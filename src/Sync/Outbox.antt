-- ===== src/Sync/Outbox.antt =====
-- Delivery of outbox events to Master: `push_pending_events` and its helpers.
pub mod Order
pub mod Push
pub mod Delivery
pub mod Sent
pub mod Drain
use setuora_lite.Base.{
  zero, suc, ℕ, Bool, List, ◌+◌, true, Option, update_where, none, some, false, find, ◌==◌,
  if◌then◌else◌, max, ltb, not, nat_eq, ◌*◌, text_eq,
}
use setuora_lite.Model.{OutboxStatus, BatchStatus}
use setuora_lite.Sync.Rows.{Event, BatchDelivery, Outbox, AggregateType, SyncMessage}
use setuora_lite.Sync.Reply.{Env, retry_delay, verdict, Round, Verdict}

-- `_oldest_unsent_event`
abbrev pub is_sent : Event → Bool
is_sent e = elim e.status [ OutboxStatus.sent ↦ true | _ ↦ false ]

unfoldable pub oldest_unsent_event : List Event → Option Event
oldest_unsent_event events = find (λ e. not (is_sent e)) events

-- The flush of an event.
unfoldable pub save_event : Event → List Event → List Event
save_event event = update_where (λ e. e.id == event.id) (λ _. event)

-- The update of the batch of a BATCH event.
unfoldable pub update_batch :
    Event → (BatchDelivery → BatchDelivery) → List BatchDelivery → List BatchDelivery
update_batch event f batches = elim event.aggregate_type [
  | AggregateType.batch ↦ elim event.batch_id [
    | none ↦ batches
    | some k ↦ update_where (λ b. b.id == k) f batches
  ]
  | _ ↦ batches
]

-- `_fail_outbox_event`
unfoldable pub fail_outbox_event : ℕ → Event → SyncMessage → Bool → Outbox → Outbox
unfolding retry_delay save_event update_batch
fail_outbox_event now event message retryable box =
    let event' : Event = record event {
      status = OutboxStatus.failed;
      last_error = some message;
      sending_at = none;
      next_attempt_at = if retryable then some (now + retry_delay event.attempts) else none;
    } in
    record box {
      events = save_event event' box.events;
      batches =
          update_batch event
            (λ b. record b { status = BatchStatus.failed; last_error = some message }) box.batches;
    }

-- How one turn of the loop ends: `break`, or an event sent.
pub data Turn : Type 0 where
  stopped delivered : Outbox → Turn

-- A SENDING event that is stale becomes a FAILED one that is due now; `none` breaks the loop.
unfoldable pub recover : Env → ℕ → Event → Outbox → Option (Event × Outbox)
recover env now event box =
    let event' : Event = record event {
      status = OutboxStatus.failed;
      last_error = some SyncMessage.recovered;
      next_attempt_at = some now;
      sending_at = none;
    } in
    let stale_after = max 60 (max 1 env.request_timeout * 2) in
    elim event.status [
      | OutboxStatus.sending ↦
          if elim event.sending_at [ none ↦ false | some t ↦ ltb now (t + stale_after) ]
          then none
          else some (event', record box { events = save_event event' box.events })
      | _ ↦ some (event, box)
    ]

-- `next_attempt_at is None or next_attempt_at > now` for a FAILED event
unfoldable pub must_wait : ℕ → Event → Bool
must_wait now event = elim event.status [
  | OutboxStatus.failed ↦ elim event.next_attempt_at [ none ↦ true | some t ↦ ltb now t ]
  | _ ↦ false
]

unfoldable pub begin_sending : ℕ → Event → Event
begin_sending now event = record event {
  status = OutboxStatus.sending;
  attempts = event.attempts + 1;
  sending_at = some now;
  next_attempt_at = none;
  last_error = none;
}

unfoldable pub save_sending : Event → Outbox → Outbox
unfolding save_event update_batch
save_sending event box = record box {
  events = save_event event box.events;
  batches =
      update_batch event (λ b. record b { status = BatchStatus.syncing; last_error = none })
        box.batches;
}

unfoldable pub save_sent : ℕ → Event → Outbox → Outbox
unfolding save_event update_batch
save_sent now event box =
    let event' : Event = record event {
      status = OutboxStatus.sent;
      sent_at = some now;
      sending_at = none;
      next_attempt_at = none;
      last_error = none;
    } in
    record {
      events = save_event event' box.events;
      batches =
          update_batch event
            (λ b. record b { status = BatchStatus.synced; synced_at = some now; last_error = none })
            box.batches;
      receipts = elim event.aggregate_type [
        | AggregateType.receipt ↦
            update_where (λ r. r.receipt_uuid == event.aggregate_id)
              (λ r. record r { synced_at = some now }) box.receipts
        | _ ↦ box.receipts
      ];
    }

-- What follows the answer to the request for an event that is being sent.
unfoldable pub conclude : Round → Event → Outbox → Verdict → Turn
unfolding save_sent fail_outbox_event
conclude round event box Verdict.accepted = Turn.delivered (save_sent round.sent_at event box)
conclude round event box (Verdict.refused message retryable) =
    Turn.stopped (fail_outbox_event round.failed_at event message retryable box)

-- The turn once the event is known to be due and whole.
unfoldable pub send : Env → Round → Event → Outbox → Turn
unfolding begin_sending save_sending conclude
send env round event box =
    let sending = begin_sending round.now event in
    conclude round sending (save_sending sending box) (verdict env sending round.reply)

-- The turn once an interrupted delivery has been recovered.
unfoldable pub attempt : Env → Round → Event → Outbox → Turn
unfolding must_wait fail_outbox_event send
attempt env round event box =
    if must_wait round.now event
    then Turn.stopped box
    else if not (env.sha256 event.payload_json == event.payload_sha256)
    then Turn.stopped
        (fail_outbox_event round.failed_at event SyncMessage.integrity_failed false box)
    else send env round event box

unfoldable pub turn : Env → Round → Outbox → Turn
unfolding oldest_unsent_event recover attempt
turn env round box = elim (oldest_unsent_event box.events) [
  | none ↦ Turn.stopped box
  | some event ↦ elim (recover env round.now event box) [
    | none ↦ Turn.stopped box
    | some (event', box') ↦ attempt env round event' box'
  ]
]

-- `while sent_count < limit`, with `limit - sent_count` turns left. Every turn that does not break
-- sends one event.
unfoldable pub push_loop : Env → ℕ → ℕ → Outbox → ℕ × Outbox
unfolding turn
push_loop env zero sent_count box = (sent_count, box)
push_loop env (suc left) sent_count box = elim (turn env (env.round sent_count) box) [
  | Turn.stopped box' ↦ (sent_count, box')
  | Turn.delivered box' ↦ push_loop env left (sent_count + 1) box'
]

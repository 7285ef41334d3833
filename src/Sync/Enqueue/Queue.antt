-- ===== src/Sync/Enqueue/Queue.antt =====
-- What queueing does to the outbox.
use setuora_lite.Sync.Enqueue.{
  enqueue_outbox_event, new_event, Event, validate_frozen_event_request, Host, Settings,
  EventRequest, Fresh, gives, guard_baseline, item_count, event_max_items, utf8_size,
  event_max_body, is_baseline_type, require_initial_inventory_queued, initial_inventory_is_queued,
}
use setuora_lite.Base.{
  ℕ, List, All, ◌++◌, row, ◌<◌, ◌∷◌, ◌≡◌, [], none, refl, arith, false, ◌≤◌, nat_beq, All-append,
  true,
}
use setuora_lite.Sync.Outbox.Order.{InOrder, IsKeyedEvents, IsWaiting}
use mathlib.Core.List.{append_assoc}

-- The database's counter has gone past every id of the outbox.
abbrev pub IsNext : ℕ → List Event → Type 0
IsNext n events = All (λ (e : Event). e.id < n) events

-- What a call that returned has checked and done.
pub enqueue_returns :
    (settings : Settings) (host : Host) (request : EventRequest) (fresh : Fresh)
    (events : List Event) (row : Event) (after : List Event)
    → enqueue_outbox_event settings host request fresh events ≡ gives (row, after)
    → (guard_baseline settings request events ≡ gives tt)
      × (row ≡ new_event host request fresh)
      × (after ≡ events ++ row ∷ [])
      × (item_count request.payload ≤ event_max_items)
      × (utf8_size row.payload_json ≤ event_max_body)
unfolding enqueue_outbox_event validate_frozen_event_request
enqueue_returns settings host request fresh events row after h = ground arith

row_snoc :
    (n : ℕ) (events : List Event) (e : Event)
    → row (λ (e : Event). e.id) n events ≡ none
    → nat_beq e.id n ≡ false
    → row (λ (e : Event). e.id) n (events ++ e ∷ []) ≡ none
row_snoc n [] e h k = ground arith
row_snoc n (x ∷ events) e h k = ground (arith, row_snoc n events e)

snoc-IsKeyed :
    (events : List Event) (e : Event)
    → IsNext e.id events
    → IsKeyedEvents events
    → IsKeyedEvents (events ++ e ∷ [])
snoc-IsKeyed [] e next keyed = (refl, tt)
snoc-IsKeyed (x ∷ events) e next keyed =
    (ground (arith, row_snoc x.id events e), snoc-IsKeyed events e next.1 keyed.1)

snoc-InOrder :
    (events : List Event) (e : Event) → IsWaiting e → InOrder events → InOrder (events ++ e ∷ [])
snoc-InOrder events e waiting order = record {
  done = order.done;
  waiting = order.waiting ++ e ∷ [];
  whole = rw order.whole (append_assoc order.done order.waiting (e ∷ []));
  all_sent = order.all_sent;
  none_sent = All-append IsWaiting order.waiting (e ∷ []) order.none_sent (waiting, tt);
}

new_event-IsWaiting :
    (host : Host) (request : EventRequest) (fresh : Fresh)
    → IsWaiting (new_event host request fresh)
unfolding new_event
new_event-IsWaiting host request fresh = refl

-- Queueing an event whose number is past every id of an outbox that is keyed and in the order of
-- delivery, if the call returns, adds one event at the end and keeps the order and the keys; the event
-- has the hash of its text, at most 5000 items and at most 5 MiB.
pub enqueue_outbox_event-InOrder :
    (settings : Settings) (host : Host) (request : EventRequest) (fresh : Fresh)
    (events : List Event) (row : Event) (after : List Event)
    → IsKeyedEvents events
    → IsNext fresh.sequence events
    → InOrder events
    → enqueue_outbox_event settings host request fresh events ≡ gives (row, after)
    → InOrder after
      × IsKeyedEvents after
      × (after ≡ events ++ row ∷ [])
      × (row.payload_sha256 ≡ host.sha256 row.payload_json)
      × (item_count request.payload ≤ event_max_items)
      × (utf8_size row.payload_json ≤ event_max_body)
enqueue_outbox_event-InOrder settings host request fresh events row after keyed next order h =
    let (guard, made, whole, few, small) =
      enqueue_returns settings host request fresh events row after h in
    (
      rw whole (snoc-InOrder events row (rw made (new_event-IsWaiting host request fresh)) order),
      rw whole (snoc-IsKeyed events row (rw made (unfold new_event in next)) keyed),
      whole,
      rw made (unfold new_event in refl),
      few,
      small,
    )

-- The outbox is empty, or its first event is of the baseline.
abbrev pub StartsWithBaseline : List Event → Type 0
StartsWithBaseline [] = Unit
StartsWithBaseline (e ∷ events) = is_baseline_type e.aggregate_type ≡ true

guard_on_empty :
    (settings : Settings) (request : EventRequest)
    → guard_baseline settings request [] ≡ gives tt
    → is_baseline_type request.aggregate_type ≡ true
unfolding guard_baseline require_initial_inventory_queued initial_inventory_is_queued
guard_on_empty settings request h = ground arith

-- If the outbox is empty or starts with an event of the baseline, it does so after a call that
-- returns.
pub enqueue_outbox_event-StartsWithBaseline :
    (settings : Settings) (host : Host) (request : EventRequest) (fresh : Fresh)
    (events : List Event) (row : Event) (after : List Event)
    → StartsWithBaseline events
    → enqueue_outbox_event settings host request fresh events ≡ gives (row, after)
    → StartsWithBaseline after
enqueue_outbox_event-StartsWithBaseline settings host request fresh [] row after h e =
    let (guard, made, whole, few, small) =
      enqueue_returns settings host request fresh [] row after e in
    rw (whole, made) (unfold new_event in guard_on_empty settings request guard)
enqueue_outbox_event-StartsWithBaseline settings host request fresh (x ∷ events) row after h e =
    let (guard, made, whole, few, small) =
      enqueue_returns settings host request fresh (x ∷ events) row after e in
    rw whole h

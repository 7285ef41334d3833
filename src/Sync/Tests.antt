-- ===== src/Sync/Tests.antt =====
-- Runs of the synchronisation on small data, and the theorems at concrete inputs.
use setuora_lite.Int.{pos}
use setuora_lite.Base.{Text-discrete, ℕ, ◌∷◌, some, ◌≡◌, [], codes, refl, none, All, arith}
use setuora_lite.Model.{OutboxStatus, BatchStatus}
use setuora_lite.Sync.Rows.{Event, Outbox, AggregateType}
use setuora_lite.Sync.Reply.{Env, Reply, verdict, acknowledges}
use setuora_lite.Sync.Json.{
  Json, field, cons, end, nil, get, as_int, equals_int, is_number, is_at_least, text_of, is_truthy,
}
use setuora_lite.Sync.Outbox.{begin_sending, push_loop, turn, Turn}
use setuora_lite.Sync.Outbox.Order.{InOrder, IsSent}
use setuora_lite.Sync.Outbox.Push.{push_loop-Pushed, Pushed}
use setuora_lite.Sync.Outbox.Drain.{IsAccepted, push_loop_drains}
use setuora_lite.Sync.Outbox.Sent.{push_loop-IsProgress, IsProgress}

abbrev event_at : ℕ → OutboxStatus → Event
event_at k status = record {
  id = k;
  event_id = k ∷ [];
  event_type = [];
  schema_version = 1;
  aggregate_type = AggregateType.batch;
  aggregate_id = [];
  batch_id = some k;
  payload_json = 7 ∷ k ∷ [];
  payload_sha256 = 7 ∷ k ∷ [];
  status = status;
  attempts = 0;
  next_attempt_at = none;
  last_error = none;
  sending_at = none;
  sent_at = none;
}

-- Event 1 was sent, event 2 waits.
abbrev box : Outbox
box = record {
  events = event_at 1 OutboxStatus.sent ∷ event_at 2 OutboxStatus.pending ∷ [];
  batches =
      record { id = 2; status = BatchStatus.pending_sync; last_error = none; synced_at = none }
      ∷ [];
  receipts = [];
}

-- The body of the acknowledgement of event 2.
abbrev ack_json : Json
ack_json = Json.obj (
    field (codes "data")
      (Json.obj (
        field (codes "last_sequence") (Json.int (pos 2)) (
          field (codes "acknowledgements")
            (Json.arr (
              cons
                (Json.obj (
                  field (codes "event_id") (Json.str (2 ∷ []))
                    (field (codes "sequence") (Json.int (pos 2)) end)))
                nil))
            end)))
      end)

-- The digest is the payload itself, every body decodes to the acknowledgement, and Master answers
-- 200 each time.
abbrev env : Env
env = record {
  sha256 = λ s. s;
  loads = λ s. some ack_json;
  show = λ j. [];
  request_timeout = 15;
  round =
      λ n. record { now = 100; failed_at = 101; sent_at = 102; reply = Reply.answer 200 (1 ∷ []) };
}

push_sends_event_2 : (push_loop env 5 0 box).0 ≡ 1
unfolding push_loop verdict acknowledges get as_int equals_int is_number is_at_least text_of
    is_truthy Text-discrete
push_sends_event_2 = refl

box-InOrder : InOrder box.events
box-InOrder = record {
  done = event_at 1 OutboxStatus.sent ∷ [];
  waiting = event_at 2 OutboxStatus.pending ∷ [];
  whole = refl;
  all_sent = (refl, tt);
  none_sent = (refl, tt);
}

push_loop-Pushed_example : Pushed 0 box (push_loop env 5 0 box)
push_loop-Pushed_example = push_loop-Pushed env 5 0 box (refl, (refl, tt)) box-InOrder

abbrev box_after : Outbox
box_after = record {
  events =
      event_at 1 OutboxStatus.sent
      ∷ (record (event_at 2 OutboxStatus.sent) { attempts = 1; sent_at = some 102 })
      ∷ [];
  batches =
      record { id = 2; status = BatchStatus.synced; last_error = none; synced_at = some 102 } ∷ [];
  receipts = [];
}

turn_delivers : turn env (env.round 0) box ≡ Turn.delivered box_after
unfolding turn verdict acknowledges get as_int equals_int is_number is_at_least text_of is_truthy
    Text-discrete
turn_delivers = refl

push_loop-IsProgress_example :
    let r = push_loop env 5 0 box in IsProgress env 0 r.0 box.events r.1.events
push_loop-IsProgress_example = push_loop-IsProgress env 5 0 box (refl, (refl, tt)) box-InOrder

event_2-IsAccepted : IsAccepted env 0 (event_at 2 OutboxStatus.pending ∷ [])
unfolding verdict acknowledges get as_int equals_int is_number is_at_least text_of is_truthy
    Text-discrete begin_sending
event_2-IsAccepted = (refl, refl, refl, tt)

push_loop_drains_example : let r = push_loop env 5 0 box in (r.0 ≡ 1) × All IsSent r.1.events
push_loop_drains_example =
    push_loop_drains env 5 box (event_at 1 OutboxStatus.sent ∷ [])
      (event_at 2 OutboxStatus.pending ∷ []) (refl, (refl, tt)) refl (refl, tt) event_2-IsAccepted
      (omega arith)

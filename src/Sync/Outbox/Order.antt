-- ===== src/Sync/Outbox/Order.antt =====
-- Strict sequence: one turn of `push_pending_events` works on the oldest unsent event alone.
use mathlib.Core.List.{append-nil}
use setuora_lite.Base.{
  ℕ, [], ◌∷◌, List, Text, ◌≡◌, IsKeyed, All, true, false, ◌++◌, map, if◌then◌else◌, arith, refl,
  ◌∙◌, ap, Bool-cases, update_middle, Bool, some, replace-IsKeyed, none, inl, ◌+◌, inr, ◌==◌,
  text_eq, Option-cases, ◌⊎◌, sym,
}
use setuora_lite.Model.{OutboxStatus}
use setuora_lite.Sync.Rows.{Event}
use setuora_lite.Sync.Reply.{Env}
use setuora_lite.Sync.Outbox.{
  is_sent, oldest_unsent_event, Round, turn, Turn, Outbox, save_event, fail_outbox_event, conclude,
  send, attempt, SyncMessage, Verdict, begin_sending, save_sending, must_wait, verdict, save_sent,
  retry_delay, recover,
}

abbrev pub IsSent : Event → Type 0
IsSent e = is_sent e ≡ true

abbrev pub IsWaiting : Event → Type 0
IsWaiting e = is_sent e ≡ false

-- The outbox as a queue: the events that were sent, and then those that were not.
pub record InOrder (events : List Event) : Type 0 where
  pub done : List Event
  pub waiting : List Event
  pub whole : events ≡ done ++ waiting
  pub all_sent : All IsSent done
  pub none_sent : All IsWaiting waiting

abbrev pub IsKeyedEvents : List Event → Type 0
IsKeyedEvents = IsKeyed (λ (e : Event). e.id)

-- What is frozen when an event is made.
pub record Envelope : Type 0 where
  pub sequence : ℕ
  pub event_id : Text
  pub event_type : Text
  pub payload_json : Text
  pub payload_sha256 : Text

unfoldable pub envelope : Event → Envelope
envelope e = record {
  sequence = e.id;
  event_id = e.event_id;
  event_type = e.event_type;
  payload_json = e.payload_json;
  payload_sha256 = e.payload_sha256;
}

pub oldest-append :
    (done waiting : List Event)
    → All IsSent done
    → oldest_unsent_event (done ++ waiting) ≡ oldest_unsent_event waiting
unfolding oldest_unsent_event
oldest-append [] waiting h = refl
oldest-append (e ∷ done) waiting h = ground (arith, oldest-append done waiting h.1)

pub map-replace :
    (done : List Event) (e e' : Event) (rest : List Event)
    → envelope e' ≡ envelope e
    → map envelope (done ++ e' ∷ rest) ≡ map envelope (done ++ e ∷ rest)
map-replace [] e e' rest h = rw h
map-replace (d ∷ done) e e' rest h = rw (map-replace done e e' rest h)

-- How a turn at the event `e` ends, with `done` before it and `rest` behind it: `e` becomes `after`
-- with the same envelope, nothing else changes, and the turn is a delivery exactly if `after` is sent.
pub record Worked (done : List Event) (e : Event) (rest : List Event) (t : Turn) : Type 0 where
  pub after : Event
  pub box : Outbox
  pub same : envelope after ≡ envelope e
  pub result : t ≡ (if is_sent after then Turn.delivered box else Turn.stopped box)
  pub events : box.events ≡ done ++ after ∷ rest

pub envelope-id : (x e : Event) → envelope x ≡ envelope e → x.id ≡ e.id
unfolding envelope
envelope-id x e h = ap (λ (v : Envelope). v.sequence) h

-- A recovery keeps the event, or writes it back due and unsent.
pub recover_lem :
    (env : Env) (now : ℕ) (e e' : Event) (box box' : Outbox)
    → IsWaiting e
    → recover env now e box ≡ some (e', box')
    → (envelope e' ≡ envelope e)
      × IsWaiting e'
      × ((box'.events ≡ save_event e' box.events) ⊎ ((e' ≡ e) × (box' ≡ box)))
unfolding recover envelope
recover_lem env now e e' box box' waiting h = ground arith

module _ (done rest : List Event) where
  save_middle :
      (e x : Event) (events : List Event)
      → envelope x ≡ envelope e
      → IsKeyedEvents (done ++ e ∷ rest)
      → events ≡ done ++ e ∷ rest
      → (save_event x events ≡ done ++ x ∷ rest) × IsKeyedEvents (done ++ x ∷ rest)
  unfolding save_event
  save_middle e x events same keyed whole =
      let id = envelope-id x e same in
      (
        rw whole (update_middle (λ (e : Event). e.id) done e x rest id keyed),
        replace-IsKeyed (λ (e : Event). e.id) done e x rest id keyed,
      )

  Worked-from :
      (e x : Event) {t : Turn}
      → envelope x ≡ envelope e
      → Worked done x rest t
      → Worked done e rest t
  Worked-from e x same w = record {
    after = w.after;
    box = w.box;
    same = w.same ∙ same;
    result = w.result;
    events = w.events;
  }

  fail-Worked :
      (now : ℕ) (e : Event) (m : SyncMessage) (r : Bool) (box : Outbox)
      → IsKeyedEvents (done ++ e ∷ rest)
      → box.events ≡ done ++ e ∷ rest
      → Worked done e rest (Turn.stopped (fail_outbox_event now e m r box))
  unfolding fail_outbox_event
  fail-Worked now e m r box keyed whole = record {
    after = failed_event;
    box = fail_outbox_event now e m r box;
    same = unfold envelope in refl;
    result = refl;
    events = (save_middle e failed_event box.events (unfold envelope in refl) keyed whole).0;
  }
    where
      failed_event : Event
      failed_event = record e {
        status = OutboxStatus.failed;
        last_error = some m;
        sending_at = none;
        next_attempt_at = if r then some (now + retry_delay e.attempts) else none;
      }

  conclude-Worked :
      (round : Round) (e : Event) (box : Outbox) (v : Verdict)
      → IsKeyedEvents (done ++ e ∷ rest)
      → box.events ≡ done ++ e ∷ rest
      → Worked done e rest (conclude round e box v)
  unfolding conclude
  conclude-Worked round e box Verdict.accepted keyed whole = record {
    after = sent_event;
    box = save_sent round.sent_at e box;
    same = unfold envelope in refl;
    result = refl;
    events =
        unfold save_sent in
        (save_middle e sent_event box.events (unfold envelope in refl) keyed whole).0;
  }
    where
      sent_event : Event
      sent_event = record e {
        status = OutboxStatus.sent;
        sent_at = some round.sent_at;
        sending_at = none;
        next_attempt_at = none;
        last_error = none;
      }
  conclude-Worked round e box (Verdict.refused m r) keyed whole =
      fail-Worked round.failed_at e m r box keyed whole

  send-Worked :
      (env : Env) (round : Round) (e : Event) (box : Outbox)
      → IsKeyedEvents (done ++ e ∷ rest)
      → box.events ≡ done ++ e ∷ rest
      → Worked done e rest (send env round e box)
  unfolding send
  send-Worked env round e box keyed whole =
      let sending = begin_sending round.now e in
      let same : envelope sending ≡ envelope e = unfold envelope in refl in
      let saved = save_middle e sending box.events same keyed whole in
      Worked-from e sending same (
        conclude-Worked round sending (save_sending sending box) (verdict env sending round.reply)
          saved.1 saved.0)

  attempt-Worked :
      (env : Env) (round : Round) (e : Event) (box : Outbox)
      → IsKeyedEvents (done ++ e ∷ rest)
      → IsWaiting e
      → box.events ≡ done ++ e ∷ rest
      → Worked done e rest (attempt env round e box)
  unfolding attempt
  attempt-Worked env round e box keyed waiting whole = elim (Bool-cases (must_wait round.now e)) [
    | inl wait ↦
        rw wait
          (record { after = e; box = box; same = refl; result = rw waiting refl; events = whole })
    | inr due ↦ rw due (elim (Bool-cases (env.sha256 e.payload_json == e.payload_sha256)) [
      | inl intact ↦ rw intact (send-Worked env round e box keyed whole)
      | inr broken ↦
          rw broken
            (fail-Worked round.failed_at e SyncMessage.integrity_failed false box keyed whole)
    ])
  ]

  recover-Worked :
      (env : Env) (round : Round) (e : Event) (box : Outbox)
      → IsKeyedEvents (done ++ e ∷ rest)
      → IsWaiting e
      → box.events ≡ done ++ e ∷ rest
      → Worked done e rest (elim (recover env round.now e box) [
        | none ↦ Turn.stopped box
        | some (e', box') ↦ attempt env round e' box'
      ])
  recover-Worked env round e box keyed waiting whole =
      elim (Option-cases (recover env round.now e box)) [
        | inl early ↦
            rw early (record {
              after = e;
              box = box;
              same = refl;
              result = rw waiting refl;
              events = whole;
            })
        | inr ((e', box'), found) ↦ rw found (
            let (same, waiting', written) = recover_lem env round.now e e' box box' waiting found in
            elim written [
              | inl saved ↦
                  let middle = save_middle e e' box.events same keyed whole in
                  Worked-from e e' same
                    (attempt-Worked env round e' box' middle.1 waiting' (saved ∙ middle.0))
              | inr (kept, unchanged) ↦
                  rw (kept, unchanged) (attempt-Worked env round e box keyed waiting whole)
            ])
      ]

-- One turn changes one event, the oldest that was not sent, and keeps its envelope; it counts as a
-- delivery exactly if that event is now sent.
pub turn-Worked :
    (env : Env) (round : Round) (box : Outbox) (done : List Event) (e : Event) (rest : List Event)
    → IsKeyedEvents (done ++ e ∷ rest)
    → All IsSent done
    → IsWaiting e
    → box.events ≡ done ++ e ∷ rest
    → Worked done e rest (turn env round box)
unfolding turn
turn-Worked env round box done e rest keyed sent waiting whole =
    let oldest : oldest_unsent_event box.events ≡ some e =
      rw whole
        (oldest-append done (e ∷ rest) sent ∙ (unfold oldest_unsent_event in rw waiting refl)) in
    rw (oldest, turn) (recover-Worked done rest env round e box keyed waiting whole)

-- With nothing left to send the turn stops at once.
pub turn_empty :
    (env : Env) (round : Round) (box : Outbox)
    → All IsSent box.events
    → turn env round box ≡ Turn.stopped box
unfolding turn
turn_empty env round box sent =
    let nothing : oldest_unsent_event box.events ≡ none =
      rw (sym (append-nil box.events)) (oldest-append box.events [] sent) in
    rw (nothing, turn) refl

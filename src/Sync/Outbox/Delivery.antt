-- ===== src/Sync/Outbox/Delivery.antt =====
-- When an event counts as delivered.
use setuora_lite.Base.{
  ℕ, Text, ◌≡◌, ◌≤◌, ◌<◌, arith, refl, true, Bool-cases, inl, some, inr, ◌==◌, Option-cases,
  eq_of_==, text_eq, List, ap, find-test, sym, not, ◌∙◌,
}
use setuora_lite.Sync.Rows.{Event}
use setuora_lite.Sync.Reply.{Env, verdict, Reply, acknowledges}
use setuora_lite.Sync.Outbox.{
  conclude, attempt, Round, Verdict, Outbox, Turn, begin_sending, turn, must_wait,
  oldest_unsent_event, recover, save_sending, is_sent,
}
use setuora_lite.Sync.Outbox.Order.{envelope, recover_lem, IsWaiting, Envelope}

-- The answer that the code takes for a success.
pub record IsAcknowledged (env : Env) (event : Event) (r : Reply) : Type 0 where
  pub status : ℕ
  pub body : Text
  pub answered : r ≡ Reply.answer status body
  pub success : (200 ≤ status) × (status < 300)
  pub acknowledged : acknowledges env body event ≡ true

verdict-IsAcknowledged :
    (env : Env) (event : Event) (r : Reply)
    → verdict env event r ≡ Verdict.accepted
    → IsAcknowledged env event r
unfolding verdict
verdict-IsAcknowledged env event (Reply.http_error status body) h = absurd (ground arith)
verdict-IsAcknowledged env event Reply.network_error h = absurd (ground arith)
verdict-IsAcknowledged env event Reply.other_error h = absurd (ground arith)
verdict-IsAcknowledged env event (Reply.answer status body) h = record {
  status = status;
  body = body;
  answered = refl;
  success = ground arith;
  acknowledged = ground arith;
}

conclude-accepted :
    (round : Round) (e : Event) (box : Outbox) (v : Verdict) {box' : Outbox}
    → conclude round e box v ≡ Turn.delivered box'
    → v ≡ Verdict.accepted
unfolding conclude
conclude-accepted round e box Verdict.accepted h = refl
conclude-accepted round e box (Verdict.refused m r) h = absurd (ground arith)

attempt-delivered :
    (env : Env) (round : Round) (e : Event) (box : Outbox) {box' : Outbox}
    → attempt env round e box ≡ Turn.delivered box'
    → (env.sha256 e.payload_json ≡ e.payload_sha256)
      × IsAcknowledged env (begin_sending round.now e) round.reply
unfolding attempt
attempt-delivered env round e box h = elim (Bool-cases (must_wait round.now e)) [
  | inl wait ↦ absurd (ground arith)
  | inr due ↦ elim (Bool-cases (env.sha256 e.payload_json == e.payload_sha256)) [
    | inl intact ↦
        let sending = begin_sending round.now e in
        let sent = rw (due, intact) at h in
        (
          eq_of_== (env.sha256 e.payload_json) e.payload_sha256 intact,
          verdict-IsAcknowledged env sending round.reply (
              conclude-accepted round sending (save_sending sending box)
                (verdict env sending round.reply) sent),
        )
    | inr broken ↦ absurd (ground arith)
  ]
]

oldest-IsWaiting :
    (events : List Event) (e : Event) → oldest_unsent_event events ≡ some e → IsWaiting e
unfolding oldest_unsent_event
oldest-IsWaiting events e h = let test = find-test (λ e. not (is_sent e)) events h in ground arith

intact_of :
    (env : Env) (e e' : Event)
    → envelope e' ≡ envelope e
    → env.sha256 e'.payload_json ≡ e'.payload_sha256
    → env.sha256 e.payload_json ≡ e.payload_sha256
unfolding envelope
intact_of env e e' same h =
    let json : e'.payload_json ≡ e.payload_json = ap (λ (v : Envelope). v.payload_json) same in
    let hash : e'.payload_sha256 ≡ e.payload_sha256 =
      ap (λ (v : Envelope). v.payload_sha256) same in
    ap env.sha256 (sym json) ∙ h ∙ hash

same_sending :
    (now : ℕ) (e e' : Event)
    → envelope e' ≡ envelope e
    → envelope (begin_sending now e') ≡ envelope e
unfolding envelope begin_sending
same_sending now e e' same = same

-- An event counts as delivered only after an answer of 200 to 299 whose body acknowledges this very
-- event and sequence, and only while its payload still has the recorded digest.
pub delivered_only-IsAcknowledged :
    (env : Env) (round : Round) (box : Outbox) {box' : Outbox}
    → turn env round box ≡ Turn.delivered box'
    → (e : Event) × (oldest_unsent_event box.events ≡ some e)
      × (env.sha256 e.payload_json ≡ e.payload_sha256)
      × ((x : Event) × (envelope x ≡ envelope e) × IsAcknowledged env x round.reply)
unfolding turn
delivered_only-IsAcknowledged env round box h =
    elim (Option-cases (oldest_unsent_event box.events)) [
      | inl nothing ↦ absurd (ground arith)
      | inr (e, found) ↦ elim (Option-cases (recover env round.now e box)) [
        | inl early ↦ absurd (ground arith)
        | inr ((e', box'), recovered) ↦
            let (intact, acked) =
              attempt-delivered env round e' box' (rw (found, recovered, turn) at h) in
            let waiting = oldest-IsWaiting box.events e found in
            let (same, _, _) = recover_lem env round.now e e' box box' waiting recovered in
            (
              e,
              found,
              intact_of env e e' same intact,
              (begin_sending round.now e', same_sending round.now e e' same, acked),
            )
      ]
    ]

-- ===== src/Sync/Outbox/Drain.antt =====
-- The run of the loop against a Master that acknowledges each event.
use mathlib.Core.List.{append-nil, append_assoc, List}
use setuora_lite.Base.{
  [], ◌∷◌, zero, suc, ℕ, ◌≡◌, All, length, ◌+◌, some, false, ◌++◌, Bool-cases, ◌≤◌, refl, ◌==◌, inl,
  arith, true, ◌∙◌, inr, ==_refl, replace-IsKeyed, sym, All-append, text_eq,
}
use setuora_lite.Model.{OutboxStatus}
use setuora_lite.Sync.Reply.{Env, verdict, Verdict}
use setuora_lite.Sync.Outbox.Order.{
  IsKeyedEvents, IsSent, IsWaiting, Worked, turn-Worked, envelope-id, turn_empty, oldest-append,
}
use setuora_lite.Sync.Outbox.{
  push_loop, Outbox, is_sent, turn, Turn, begin_sending, attempt, recover, must_wait, send, Event,
  conclude, Round, oldest_unsent_event, save_sent, save_sending,
}

-- From round `n` on, each event is pending with the recorded digest of its payload, and the answer of
-- its round is taken for a success.
abbrev pub IsAccepted : Env → ℕ → List Event → Type 0
IsAccepted env n [] = Unit
IsAccepted env n (e ∷ rest) =
    (e.status ≡ OutboxStatus.pending)
    × (env.sha256 e.payload_json ≡ e.payload_sha256)
    × (verdict env (begin_sending (env.round n).now e) (env.round n).reply ≡ Verdict.accepted)
    × IsAccepted env (n + 1) rest

recover_pending :
    (env : Env) (now : ℕ) (e : Event) (box : Outbox)
    → e.status ≡ OutboxStatus.pending
    → recover env now e box ≡ some (e, box)
unfolding recover
recover_pending env now e box pending = rw pending refl

must_wait_pending :
    (now : ℕ) (e : Event) → e.status ≡ OutboxStatus.pending → must_wait now e ≡ false
unfolding must_wait
must_wait_pending now e pending = rw pending refl

attempt_delivers :
    (env : Env) (round : Round) (e : Event) (box : Outbox)
    → e.status ≡ OutboxStatus.pending
    → env.sha256 e.payload_json ≡ e.payload_sha256
    → verdict env (begin_sending round.now e) round.reply ≡ Verdict.accepted
    → (box' : Outbox) × (attempt env round e box ≡ Turn.delivered box')
unfolding attempt send conclude
attempt_delivers env round e box pending intact accepted =
    let test : (env.sha256 e.payload_json == e.payload_sha256) ≡ true =
      rw intact (==_refl e.payload_sha256) in
    (
      save_sent round.sent_at (begin_sending round.now e)
          (save_sending (begin_sending round.now e) box),
      rw (must_wait_pending round.now e pending, test, accepted) refl,
    )

turn_delivers :
    (env : Env) (n : ℕ) (box : Outbox) (done : List Event) (e : Event) (rest : List Event)
    → All IsSent done
    → IsWaiting e
    → box.events ≡ done ++ e ∷ rest
    → IsAccepted env n (e ∷ rest)
    → (box' : Outbox) × (turn env (env.round n) box ≡ Turn.delivered box')
unfolding turn
turn_delivers env n box done e rest sent waiting whole (pending, intact, accepted, later) =
    let oldest : oldest_unsent_event box.events ≡ some e =
      rw whole
        (oldest-append done (e ∷ rest) sent ∙ (unfold oldest_unsent_event in rw waiting refl)) in
    let (box', end) = attempt_delivers env (env.round n) e box pending intact accepted in
    (box', rw (oldest, recover_pending env (env.round n).now e box pending, turn) end)

delivered-IsSent :
    (done : List Event) (e : Event) (rest : List Event) (t : Turn) {box' : Outbox}
    → (w : Worked done e rest t) → t ≡ Turn.delivered box'
    → IsSent w.after
delivered-IsSent done e rest t w end = elim (Bool-cases (is_sent w.after)) [
  | inl now ↦ now
  | inr still ↦
      let stopped : t ≡ Turn.stopped w.box = w.result ∙ rw still refl in
      absurd (ground (arith, stopped, end))
]

drain_from :
    (env : Env) (waiting : List Event) (left n : ℕ) (box : Outbox) (done : List Event)
    → IsKeyedEvents box.events
    → All IsSent done
    → All IsWaiting waiting
    → box.events ≡ done ++ waiting
    → IsAccepted env n waiting
    → length waiting ≤ left
    → let r = push_loop env left n box in (r.0 ≡ n + length waiting) × All IsSent r.1.events
unfolding push_loop
drain_from env [] zero n box done keyed sent waiting whole accepted room =
    (omega arith, rw (whole ∙ append-nil done) sent)
drain_from env [] (suc left) n box done keyed sent waiting whole accepted room =
    let all : All IsSent box.events = rw (whole ∙ append-nil done) sent in
    rw (turn_empty env (env.round n) box all, push_loop) (omega arith, all)
drain_from env (e ∷ rest) zero n box done keyed sent waiting whole accepted room =
    absurd (omega (arith, room))
drain_from env (e ∷ rest) (suc left) n box done keyed sent (waits, later) whole accepted room =
    let keyed' : IsKeyedEvents (done ++ e ∷ rest) = rw whole at keyed in
    let w = turn-Worked env (env.round n) box done e rest keyed' sent waits whole in
    let (box', end) = turn_delivers env n box done e rest sent waits whole accepted in
    let now = delivered-IsSent done e rest (turn env (env.round n) box) w end in
    let goes_on : turn env (env.round n) box ≡ Turn.delivered w.box = w.result ∙ rw now refl in
    let keyed1 : IsKeyedEvents w.box.events = rw w.events (
      replace-IsKeyed (λ (e : Event). e.id) done e w.after rest (envelope-id w.after e w.same)
        keyed') in
    let whole1 : w.box.events ≡ (done ++ w.after ∷ []) ++ rest =
      w.events ∙ sym (append_assoc done (w.after ∷ []) rest) in
    let (count, all) =
      drain_from env rest left (n + 1) w.box (done ++ w.after ∷ []) keyed1
        (All-append IsSent done (w.after ∷ []) sent (now, tt)) later whole1 accepted.3
        (omega (arith, room)) in
    rw (goes_on, push_loop) (omega (arith, count), all)

IsAccepted-IsWaiting :
    (env : Env) (n : ℕ) (waiting : List Event) → IsAccepted env n waiting → All IsWaiting waiting
IsAccepted-IsWaiting env n [] h = tt
IsAccepted-IsWaiting env n (e ∷ rest) (pending, intact, accepted, later) =
    (rw pending refl, IsAccepted-IsWaiting env (n + 1) rest later)

-- If the outbox holds sent events and behind them others, under distinct ids, where each of the others
-- is pending with the recorded digest of its payload and is acknowledged in its round, and the limit is
-- at least their number, then the loop sends them all: it returns their number, and every event is
-- SENT.
pub push_loop_drains :
    (env : Env) (limit : ℕ) (box : Outbox) (done waiting : List Event)
    → IsKeyedEvents box.events
    → box.events ≡ done ++ waiting
    → All IsSent done
    → IsAccepted env 0 waiting
    → length waiting ≤ limit
    → let r = push_loop env limit 0 box in (r.0 ≡ length waiting) × All IsSent r.1.events
push_loop_drains env limit box done waiting keyed whole sent accepted room =
    let (count, all) =
      drain_from env waiting limit 0 box done keyed sent
        (IsAccepted-IsWaiting env 0 waiting accepted) whole accepted room in
    (omega (arith, count), all)

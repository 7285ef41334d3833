-- ===== src/Sync/Outbox/Sent.antt =====
-- Which events the loop of `push_pending_events` marks as SENT.
use setuora_lite.Base.{
  [], ◌∷◌, zero, suc, ◌≡◌, ℕ, ◌⊎◌, inl, ◌≤◌, suc, ◌<◌, ◌∷◌, ap, ◌++◌, inr, arith, All, ◌+◌, refl,
  replace-IsKeyed, ◌∙◌, sym, some, Bool-cases,
}
use mathlib.Core.List.{append-nil, List}
use setuora_lite.Sync.Outbox.Delivery.{IsAcknowledged, delivered_only-IsAcknowledged}
use setuora_lite.Sync.Outbox.Push.{after_delivery}
use setuora_lite.Sync.Outbox.Order.{
  InOrder, IsKeyedEvents, envelope, IsSent, IsWaiting, Worked, turn-Worked, envelope-id, turn_empty,
  Envelope, oldest-append,
}
use setuora_lite.Sync.Outbox.{
  push_loop, Outbox, is_sent, turn, Turn, Env, Event, oldest_unsent_event,
}

-- In a round from `n` on and before `m`, with the recorded digest for its payload, Master answered
-- with a success that acknowledges the event: its sequence and its `event_id`.
pub record IsConfirmed (env : Env) (n m : ℕ) (x : Event) : Type 0 where
  pub k : ℕ
  pub from_start : n ≤ k
  pub before_end : k < m
  pub intact : env.sha256 x.payload_json ≡ x.payload_sha256
  pub request : Event
  pub same : envelope request ≡ envelope x
  pub reply : IsAcknowledged env request (env.round k).reply

-- What the rounds make of the outbox, event by event: each keeps its place and its envelope, and is
-- SENT only if it was before or is confirmed.
abbrev pub IsProgress : Env → ℕ → ℕ → List Event → List Event → Type 0
IsProgress env n m [] [] = Unit
IsProgress env n m [] (_ ∷ _) = ⊥
IsProgress env n m (_ ∷ _) [] = ⊥
IsProgress env n m (e ∷ es) (x ∷ xs) =
    (envelope x ≡ envelope e)
    × (IsSent x → IsSent e ⊎ IsConfirmed env n m x)
    × IsProgress env n m es xs

IsProgress-refl : (env : Env) (n m : ℕ) (es : List Event) → IsProgress env n m es es
IsProgress-refl env n m [] = tt
IsProgress-refl env n m (e ∷ es) = (refl, λ sent. inl sent, IsProgress-refl env n m es)

IsConfirmed-of :
    (env : Env) (n m : ℕ) (x y : Event)
    → envelope y ≡ envelope x
    → IsConfirmed env n m x
    → IsConfirmed env n m y
unfolding envelope
IsConfirmed-of env n m x y same c = record {
  k = c.k;
  from_start = c.from_start;
  before_end = c.before_end;
  intact =
      ap (λ (v : Envelope). env.sha256 v.payload_json) same
      ∙ c.intact
      ∙ ap (λ (v : Envelope). v.payload_sha256) (sym same);
  request = c.request;
  same = c.same ∙ sym same;
  reply = c.reply;
}

IsProgress-trans :
    (env : Env) (n m : ℕ) (es xs ys : List Event)
    → IsProgress env n m es xs
    → IsProgress env n m xs ys
    → IsProgress env n m es ys
IsProgress-trans env n m [] [] [] p q = tt
IsProgress-trans env n m [] [] (y ∷ ys) p q = absurd q
IsProgress-trans env n m [] (x ∷ xs) ys p q = absurd p
IsProgress-trans env n m (e ∷ es) [] ys p q = absurd p
IsProgress-trans env n m (e ∷ es) (x ∷ xs) [] p q = absurd q
IsProgress-trans env n m (e ∷ es) (x ∷ xs) (y ∷ ys) (same, sent, p) (same', sent', q) = (
  same' ∙ same,
  λ now. elim (sent' now) [
    | inr confirmed ↦ inr confirmed
    | inl before ↦ elim (sent before) [
      | inl at_start ↦ inl at_start
      | inr confirmed ↦ inr (IsConfirmed-of env n m x y same' confirmed)
    ]
  ],
  IsProgress-trans env n m es xs ys p q,
)

IsProgress-widen :
    (env : Env) (n n' m : ℕ) (es xs : List Event)
    → n ≤ n'
    → IsProgress env n' m es xs
    → IsProgress env n m es xs
IsProgress-widen env n n' m [] [] le p = tt
IsProgress-widen env n n' m [] (x ∷ xs) le p = absurd p
IsProgress-widen env n n' m (e ∷ es) [] le p = absurd p
IsProgress-widen env n n' m (e ∷ es) (x ∷ xs) le (same, sent, p) = (
  same,
  λ now. elim (sent now) [
    | inl before ↦ inl before
    | inr c ↦ inr (record {
      k = c.k;
      from_start = omega (arith, c.from_start, le);
      before_end = c.before_end;
      intact = c.intact;
      request = c.request;
      same = c.same;
      reply = c.reply;
    })
  ],
  IsProgress-widen env n n' m es xs le p,
)

-- One event in the middle.
IsProgress-middle :
    (env : Env) (n m : ℕ) (done : List Event) (e x : Event) (rest : List Event)
    → envelope x ≡ envelope e
    → (IsSent x → IsConfirmed env n m x)
    → IsProgress env n m (done ++ e ∷ rest) (done ++ x ∷ rest)
IsProgress-middle env n m [] e x rest same confirmed =
    (same, λ sent. inr (confirmed sent), IsProgress-refl env n m rest)
IsProgress-middle env n m (d ∷ done) e x rest same confirmed =
    (refl, λ sent. inl sent, IsProgress-middle env n m done e x rest same confirmed)

between :
    (env : Env) (n m : ℕ) {es es' xs xs' : List Event}
    → es ≡ es'
    → xs ≡ xs'
    → IsProgress env n m es' xs'
    → IsProgress env n m es xs
between env n m left right p = rw (left, right) p

-- The event that a delivering turn has worked on is confirmed in its round.
delivered-IsConfirmed :
    (env : Env) (n m : ℕ) (box : Outbox) (e x : Event) {box' : Outbox}
    → n < m
    → oldest_unsent_event box.events ≡ some e
    → envelope x ≡ envelope e
    → turn env (env.round n) box ≡ Turn.delivered box'
    → IsConfirmed env n m x
delivered-IsConfirmed env n m box e x lt oldest same end =
    let (e0, found, intact, (y, same_y, reply)) =
      delivered_only-IsAcknowledged env (env.round n) box end in
    let one : e0 ≡ e = ground (arith, found, oldest) in
    IsConfirmed-of env n m e x same (record {
      k = n;
      from_start = omega arith;
      before_end = lt;
      intact = rw one at intact;
      request = y;
      same = rw one at same_y;
      reply = reply;
    })

turn-cases :
    (t : Turn)
    → ((box : Outbox) × (t ≡ Turn.stopped box)) ⊎ ((box : Outbox) × (t ≡ Turn.delivered box))
turn-cases (Turn.stopped box) = inl (box, refl)
turn-cases (Turn.delivered box) = inr (box, refl)

push_loop-count : (env : Env) (left n : ℕ) (box : Outbox) → n ≤ (push_loop env left n box).0
unfolding push_loop
push_loop-count env zero n box = unfold push_loop in omega arith
push_loop-count env (suc left) n box = elim (turn-cases (turn env (env.round n) box)) [
  | inl (box', end) ↦ rw (end, push_loop) (omega arith)
  | inr (box', end) ↦ rw (end, push_loop) (omega (arith, push_loop-count env left (n + 1) box'))
]

module _ (env : Env) (left n : ℕ) (box : Outbox) (done : List Event) (sent : All IsSent done)
    (ih : (b : Outbox)
      → IsKeyedEvents b.events
      → InOrder b.events
      → let r = push_loop env left (n + 1) b in
        IsProgress env (n + 1) r.0 b.events r.1.events) where
  loop_after :
      (e : Event) (rest : List Event)
      → IsKeyedEvents (done ++ e ∷ rest)
      → box.events ≡ done ++ e ∷ rest
      → IsWaiting e
      → All IsWaiting rest
      → Worked done e rest (turn env (env.round n) box)
      → let r = push_loop env (suc left) n box in IsProgress env n r.0 box.events r.1.events
  unfolding push_loop
  loop_after e rest keyed whole waiting later w =
      let keyed' : IsKeyedEvents w.box.events = rw w.events (
        replace-IsKeyed (λ (e : Event). e.id) done e w.after rest (envelope-id w.after e w.same)
          keyed) in
      elim (Bool-cases (is_sent w.after)) [
        | inr still ↦
            let end : turn env (env.round n) box ≡ Turn.stopped w.box = w.result ∙ rw still refl in
            rw (end, push_loop, whole, w.events)
              (IsProgress-middle env n n done e w.after rest w.same
                (λ now. absurd (ground (arith, still, now))))
        | inl now ↦
            let end : turn env (env.round n) box ≡ Turn.delivered w.box = w.result ∙ rw now refl in
            let oldest : oldest_unsent_event box.events ≡ some e = rw whole (
              oldest-append done (e ∷ rest) sent
              ∙ (unfold oldest_unsent_event in rw waiting refl)) in
            let r = push_loop env left (n + 1) w.box in
            let more : n + 1 ≤ r.0 = push_loop-count env left (n + 1) w.box in
            let here = IsProgress-middle env n r.0 done e w.after rest w.same (λ s.
              delivered-IsConfirmed env n r.0 box e w.after (omega arith) oldest w.same end) in
            let there =
              IsProgress-widen env n (n + 1) r.0 w.box.events r.1.events (omega arith)
                (ih w.box keyed' (after_delivery done w.after rest w.events sent now later)) in
            let here' = between env n r.0 whole w.events here in
            rw (end, push_loop)
              (IsProgress-trans env n r.0 box.events w.box.events r.1.events here' there)
      ]

  loop_from :
      (waiting : List Event)
      → IsKeyedEvents box.events
      → box.events ≡ done ++ waiting
      → All IsWaiting waiting
      → let r = push_loop env (suc left) n box in IsProgress env n r.0 box.events r.1.events
  unfolding push_loop
  loop_from [] keyed whole later =
      let all : All IsSent box.events = rw (whole ∙ append-nil done) sent in
      rw (turn_empty env (env.round n) box all, push_loop) (IsProgress-refl env n n box.events)
  loop_from (e ∷ rest) keyed whole (waiting, later) =
      let keyed' : IsKeyedEvents (done ++ e ∷ rest) = rw whole at keyed in
      loop_after e rest keyed' whole waiting later
        (turn-Worked env (env.round n) box done e rest keyed' sent waiting whole)

-- From an outbox with the sent events before the unsent ones, under distinct ids, and whatever Master
-- answers: each event keeps its place and its envelope, and its status is SENT after the loop only if
-- it was SENT before, or if the payload has its recorded digest and Master answered in one of the
-- rounds that the loop counted with a status of 200 to 299 and a body that acknowledges this event
-- and sequence.
pub push_loop-IsProgress :
    (env : Env) (left n : ℕ) (box : Outbox)
    → IsKeyedEvents box.events
    → InOrder box.events
    → let r = push_loop env left n box in IsProgress env n r.0 box.events r.1.events
push_loop-IsProgress env zero n box keyed order =
    unfold push_loop in IsProgress-refl env n n box.events
push_loop-IsProgress env (suc left) n box keyed order =
    loop_from env left n box order.done order.all_sent (push_loop-IsProgress env left (n + 1))
      order.waiting keyed order.whole order.none_sent

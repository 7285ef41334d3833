-- ===== src/Sync/Outbox/Push.antt =====
-- The whole loop of `push_pending_events`: order, frozen envelopes, and the number returned.
use mathlib.Core.List.{append-nil, append_assoc, List}
use setuora_lite.Base.{
  zero, suc, ℕ, [], ◌∷◌, count_where, ◌≡◌, ◌++◌, ◌+◌, map, All, arith, if◌then◌else◌, refl, ◌∙◌,
  sym, All-append, replace-IsKeyed, Bool-cases, inl, inr, count_where-append,
}
use setuora_lite.Sync.Rows.{Event}
use setuora_lite.Sync.Reply.{Env}
use setuora_lite.Sync.Outbox.{push_loop, Outbox, is_sent, turn, Turn}
use setuora_lite.Sync.Outbox.Order.{
  InOrder, IsKeyedEvents, envelope, IsSent, IsWaiting, Worked, turn-Worked, envelope-id,
  map-replace, turn_empty,
}

unfoldable pub sent_count_of : List Event → ℕ
sent_count_of = count_where is_sent

-- What a run of the loop, which began with `n` events already counted, has done.
pub record Pushed (n : ℕ) (box : Outbox) (r : ℕ × Outbox) : Type 0 where
  pub order : InOrder r.1.events
  pub keyed : IsKeyedEvents r.1.events
  pub frozen : map envelope r.1.events ≡ map envelope box.events
  pub counted : sent_count_of r.1.events + n ≡ sent_count_of box.events + r.0

-- The queue after a turn at its first waiting event.
abbrev after_stop :
    {events : List Event} (done : List Event) (e : Event) (rest : List Event)
    → events ≡ done ++ e ∷ rest
    → All IsSent done
    → IsWaiting e
    → All IsWaiting rest
    → InOrder events
after_stop done e rest whole sent waiting later = record {
  done = done;
  waiting = e ∷ rest;
  whole = whole;
  all_sent = sent;
  none_sent = (waiting, later);
}

pub after_delivery :
    {events : List Event} (done : List Event) (e : Event) (rest : List Event)
    → events ≡ done ++ e ∷ rest
    → All IsSent done
    → IsSent e
    → All IsWaiting rest
    → InOrder events
after_delivery done e rest whole sent now later = record {
  done = done ++ e ∷ [];
  waiting = rest;
  whole = whole ∙ sym (append_assoc done (e ∷ []) rest);
  all_sent = All-append IsSent done (e ∷ []) sent (now, tt);
  none_sent = later;
}

-- `sent_count_of` at the worked event.
sent_count-middle :
    (done : List Event) (e : Event) (rest : List Event)
    → sent_count_of (done ++ e ∷ rest)
      ≡ sent_count_of done + (if is_sent e then 1 else 0) + sent_count_of rest
unfolding sent_count_of
sent_count-middle done e rest = omega (arith, count_where-append is_sent done (e ∷ rest))

module _ (env : Env) (left n : ℕ) (box : Outbox) (done : List Event) (sent : All IsSent done)
    (ih : (b : Outbox)
      → IsKeyedEvents b.events
      → InOrder b.events
      → Pushed (n + 1) b (push_loop env left (n + 1) b)) where
  -- After a turn at `e`, by how it ended.
  push_after :
      (e : Event) (rest : List Event)
      → IsKeyedEvents (done ++ e ∷ rest)
      → box.events ≡ done ++ e ∷ rest
      → IsWaiting e
      → All IsWaiting rest
      → Worked done e rest (turn env (env.round n) box)
      → Pushed n box (push_loop env (suc left) n box)
  unfolding push_loop
  push_after e rest keyed whole waiting later w =
      let keyed' : IsKeyedEvents w.box.events = rw w.events (
        replace-IsKeyed (λ (e : Event). e.id) done e w.after rest (envelope-id w.after e w.same)
          keyed) in
      let frozen : map envelope w.box.events ≡ map envelope box.events =
        rw (w.events, whole) (map-replace done e w.after rest w.same) in
      let before : sent_count_of box.events ≡ sent_count_of done + 0 + sent_count_of rest =
        rw (whole, sent_count-middle done e rest, waiting) refl in
      elim (Bool-cases (is_sent w.after)) [
        | inl now ↦
            let moved : sent_count_of w.box.events ≡ sent_count_of done + 1 + sent_count_of rest =
              rw (w.events, sent_count-middle done w.after rest, now) refl in
            let p = ih w.box keyed' (after_delivery done w.after rest w.events sent now later) in
            let end : turn env (env.round n) box ≡ Turn.delivered w.box = w.result ∙ rw now refl in
            rw (end, push_loop)
              (record {
                order = p.order;
                keyed = p.keyed;
                frozen = p.frozen ∙ frozen;
                counted = omega (arith, p.counted, before, moved);
              })
        | inr still ↦
            let moved : sent_count_of w.box.events ≡ sent_count_of done + 0 + sent_count_of rest =
              rw (w.events, sent_count-middle done w.after rest, still) refl in
            let end : turn env (env.round n) box ≡ Turn.stopped w.box = w.result ∙ rw still refl in
            rw (end, push_loop)
              (record {
                order = after_stop done w.after rest w.events sent still later;
                keyed = keyed';
                frozen = frozen;
                counted = omega (arith, before, moved);
              })
      ]

  push_from :
      (waiting : List Event)
      → IsKeyedEvents box.events
      → box.events ≡ done ++ waiting
      → All IsWaiting waiting
      → Pushed n box (push_loop env (suc left) n box)
  unfolding push_loop
  push_from [] keyed whole later =
      let whole' : box.events ≡ done = whole ∙ append-nil done in
      let all : All IsSent box.events = rw whole' sent in
      rw (turn_empty env (env.round n) box all, push_loop)
        (record {
          order = record {
            done = done;
            waiting = [];
            whole = whole;
            all_sent = sent;
            none_sent = tt;
          };
          keyed = keyed;
          frozen = refl;
          counted = refl;
        })
  push_from (e ∷ rest) keyed whole (waiting, later) =
      let keyed' : IsKeyedEvents (done ++ e ∷ rest) = rw whole at keyed in
      push_after e rest keyed' whole waiting later
        (turn-Worked env (env.round n) box done e rest keyed' sent waiting whole)

-- The loop keeps the sent events before the unsent ones and every envelope as it was made, and
-- returns the number of events that it has marked as sent.
pub push_loop-Pushed :
    (env : Env) (left n : ℕ) (box : Outbox)
    → IsKeyedEvents box.events
    → InOrder box.events
    → Pushed n box (push_loop env left n box)
unfolding push_loop
push_loop-Pushed env zero n box keyed order = record {
  order = order;
  keyed = keyed;
  frozen = refl;
  counted = refl;
}
push_loop-Pushed env (suc left) n box keyed order =
    push_from env left n box order.done order.all_sent (push_loop-Pushed env left (n + 1))
      order.waiting keyed order.whole order.none_sent

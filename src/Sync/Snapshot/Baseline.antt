-- ===== src/Sync/Snapshot/Baseline.antt =====
-- The outbox after the baseline.
use setuora_lite.Sync.Partition.{
  part_request, initial_inventory_reference, partition_initial_inventory_items,
}
use setuora_lite.Sync.Snapshot.{
  enqueue_parts, enqueue_initial_inventory_snapshot, available_serials, empty_request, event_item,
}
use setuora_lite.Sync.Codes.{
  Settings, gives, Attempt-cases, configured_franchise_code, fails, SyncError,
}
use setuora_lite.Sync.Enqueue.{
  new_event, is_baseline, Host, EventRequest, Fresh, reference_prefix, enqueue_outbox_event,
  initial_inventory_is_queued, require_initial_inventory_queued,
}
use setuora_lite.Base.{
  [], ◌∷◌, ◌++◌, Text, ◌≡◌, ℕ, true, All, length, ◌+◌, arith, refl, is_empty, false, some, inl, ◌≤◌,
  inr, codes, Bool-cases, All-append, ap, length-snoc, none, length_of_empty, is_empty-map, ◌∙◌,
  length_of_filled,
}
use mathlib.Core.List.{List, map}
use setuora_lite.Sync.Like.{column_starts_with-append}
use setuora_lite.Sync.Rows.{Event, AggregateType}
use setuora_lite.Sync.Json.{Json, Fields}
use setuora_lite.Sync.Enqueue.Queue.{enqueue_returns}
use setuora_lite.Sync.Partition.Chunks.{partition_initial_inventory_items_lem, concat}
use setuora_lite.Model.{Serial, Product}

-- The event is a marker of the code: its reference starts with the code's own prefix.
abbrev pub IsBaseline : Text → Event → Type 0
IsBaseline code e =
    (e.aggregate_type ≡ AggregateType.initial_inventory)
    × ((s : Text) × (e.aggregate_id ≡ reference_prefix code ++ s))

-- The query finds it.
IsBaseline-found : (code : Text) (e : Event) → IsBaseline code e → is_baseline code e ≡ true
unfolding is_baseline
IsBaseline-found code e (type, (s, reference)) =
    rw (type, reference) (column_starts_with-append (reference_prefix code) s)

new_event-IsBaseline :
    (host : Host) (request : EventRequest) (fresh : Fresh) (code s : Text)
    → request.aggregate_type ≡ AggregateType.initial_inventory
    → request.aggregate_id ≡ reference_prefix code ++ s
    → IsBaseline code (new_event host request fresh)
unfolding new_event
new_event-IsBaseline host request fresh code s type reference = (type, (s, reference))

module _ (settings : Settings) (host : Host) (code : Text) (actor : Json) (now : ℕ)
    (fresh : ℕ → Fresh) where
  enqueue_parts_lem :
      (n : ℕ) (chunks : List (List Fields)) (events after : List Event)
      → All (IsBaseline code) events
      → enqueue_parts settings host code actor now fresh n chunks events ≡ gives after
      → All (IsBaseline code) after × (length after ≡ length events + length chunks)
  unfolding enqueue_parts
  enqueue_parts_lem n [] events after h e =
      let same : after ≡ events = ground arith in (rw same h, rw same (omega arith))
  enqueue_parts_lem n (chunk ∷ chunks) events after h e =
      let request = part_request (initial_inventory_reference host code n) actor now chunk in
      elim (Attempt-cases (enqueue_outbox_event settings host request (fresh n) events)) [
        | inl (error, failed) ↦ absurd (ground arith)
        | inr ((row, events'), done) ↦
            let (guard, made, whole, few, small) =
              enqueue_returns settings host request (fresh n) events row events' done in
            let baseline : IsBaseline code row = rw made (
              new_event-IsBaseline host request (fresh n) code (codes "PART-" ++ host.show n) refl
                (unfold initial_inventory_reference in refl)) in
            let grown : All (IsBaseline code) events' =
              rw whole (All-append (IsBaseline code) events (row ∷ []) h (baseline, tt)) in
            let (rest, count) =
              enqueue_parts_lem (n + 1) chunks events' after grown (rw done at e) in
            (rest, omega (arith, ap length whole, length-snoc events row, count))
      ]

filled_of_append {ℓ} :
    {A : Type ℓ} (xss : List (List A)) → is_empty (concat xss) ≡ false → is_empty xss ≡ false
filled_of_append [] h = h
filled_of_append (xs ∷ xss) h = refl

pub snapshot_returns :
    (settings : Settings) (host : Host) (actor : Json) (now : ℕ) (fresh : ℕ → Fresh)
    (stock : List (Serial × Product)) (events after : List Event) (code : Text)
    (events_count serials_count : ℕ)
    → configured_franchise_code settings (some true) ≡ gives code
    → enqueue_initial_inventory_snapshot settings host actor now fresh stock events
      ≡ gives ((events_count, serials_count), after)
    → (is_empty events ≡ true)
      × All (IsBaseline code) after
      × (length after ≡ events_count)
      × (1 ≤ events_count)
      × (serials_count ≡ length (available_serials stock))
unfolding enqueue_initial_inventory_snapshot
snapshot_returns settings host actor now fresh stock [] after code n k configured e =
    elim (Bool-cases (is_empty (available_serials stock))) [
      | inl nothing ↦
          let request = empty_request code actor now in
          elim (Attempt-cases (enqueue_outbox_event settings host request (fresh 1) [])) [
            | inl (error, failed) ↦ absurd (ground arith)
            | inr ((row, events'), done) ↦
                let (guard, made, whole, few, small) =
                  enqueue_returns settings host request (fresh 1) [] row events' done in
                let same : after ≡ row ∷ [] = ground arith in
                let one : n ≡ 1 = ground arith in
                let baseline : IsBaseline code row = rw made (
                  new_event-IsBaseline host request (fresh 1) code (codes "EMPTY")
                    (unfold empty_request in refl) (unfold empty_request in refl)) in
                (
                  refl,
                  rw same (baseline, tt),
                  rw (same, one) refl,
                  omega (arith, one),
                  ground (arith, length_of_empty (available_serials stock) nothing),
                )
          ]
      | inr serials ↦
          let items =
            map (λ (entry : Serial × Product). event_item host entry none none none)
              (available_serials stock) in
          elim (Attempt-cases (partition_initial_inventory_items host code actor now items)) [
            | inl (error, failed) ↦ absurd (ground arith)
            | inr (chunks, cut) ↦
                elim (Attempt-cases
                  (enqueue_parts settings host code actor now fresh 1 chunks [])) [
                    | inl (error, failed) ↦ absurd (ground arith)
                    | inr (events', done) ↦
                        let (rest, count) =
                          enqueue_parts_lem settings host code actor now fresh 1 chunks [] events'
                            tt done in
                        let same : after ≡ events' = ground arith in
                        let total : n ≡ length chunks = ground arith in
                        let whole =
                          (partition_initial_inventory_items_lem host code actor now items chunks
                            cut).0 in
                        let filled : is_empty (concat chunks) ≡ false = rw whole (
                          is_empty-map (λ entry. event_item host entry none none none)
                            (available_serials stock)
                          ∙ serials) in
                        let some_chunk = length_of_filled chunks (filled_of_append chunks filled) in
                        (
                          refl,
                          rw same rest,
                          rw (same, total) (omega (arith, count)),
                          omega (arith, total, some_chunk),
                          ground arith,
                        )
                  ]
          ]
    ]
snapshot_returns settings host actor now fresh stock (x ∷ events) after code n k configured e =
    absurd (ground arith)

-- A baseline that was queued is found again.
queued_of_All :
    (code : Text) (events : List Event)
    → is_empty events ≡ false
    → All (IsBaseline code) events
    → initial_inventory_is_queued code events ≡ true
unfolding initial_inventory_is_queued
queued_of_All code [] filled h = absurd (ground arith)
queued_of_All code (e ∷ events) filled h = rw (IsBaseline-found code e h.0) refl

-- After a call that returns, with a franchise code configured, every event is of the baseline, and
-- there are as many as it reports. Events of the business are then let in, and a second call is
-- refused.
pub enqueue_initial_inventory_snapshot_lem :
    (settings : Settings) (host : Host) (actor : Json) (now : ℕ) (fresh : ℕ → Fresh)
    (stock : List (Serial × Product)) (events after : List Event) (code : Text) (n k : ℕ)
    (later : ℕ) (fresh' : ℕ → Fresh) (stock' : List (Serial × Product))
    → configured_franchise_code settings (some true) ≡ gives code
    → enqueue_initial_inventory_snapshot settings host actor now fresh stock events
      ≡ gives ((n, k), after)
    → All (IsBaseline code) after
      × (length after ≡ n)
      × (k ≡ length (available_serials stock))
      × (require_initial_inventory_queued settings after ≡ gives code)
      × (enqueue_initial_inventory_snapshot settings host actor later fresh' stock' after
          ≡ fails SyncError.not_first)
unfolding require_initial_inventory_queued enqueue_initial_inventory_snapshot
enqueue_initial_inventory_snapshot_lem settings host actor now fresh stock events after code n k
      later fresh' stock' configured e =
    let (was_empty, baseline, count, positive, serials) =
      snapshot_returns settings host actor now fresh stock events after code n k configured e in
    let filled : is_empty after ≡ false = elim (Bool-cases (is_empty after)) [
      | inl nothing ↦ absurd (omega (arith, length_of_empty after nothing, count, positive))
      | inr filled ↦ filled
    ] in
    (
      baseline,
      count,
      serials,
      rw (configured, queued_of_All code after filled baseline) refl,
      rw filled refl,
    )

-- ===== src/Transfer/Moves/Effects.antt =====
-- What the loop does to the table of serials: all items or none, and nothing to other serials.
use mathlib.Core.Option.{Option}
use mathlib.Core.Option
use setuora_lite.Base.{
  none, some, sym, option_eq, nat_eq, Option-cases, inl, inr, Bool-cases, row_of_count_one, ◌==◌,
  count_where, nat_beq, All, row-update_where, update_where-IsKeyed, ℕ, [], ◌∷◌, refl, List,
  IsKeyed, row_key, arith, ◌≡◌, Bool, if◌then◌else◌, false, update_where, true, ◌||◌, ◌&&◌, ◌≢◌,
  ◌∙◌, ==_refl,
}
use setuora_lite.Model.{Serial, SerialStatus, status_eq, User}
use setuora_lite.Transfer.Rows.{TransferItem, Stock, returns, names, Outcome-cases}
use setuora_lite.Transfer.Moves.{
  Move, move_items, serial_by_id, move_item, item_serial, takes, Transfer,
}

abbrev pub serial_row : ℕ → Stock → Option Serial
serial_row k st = serial_by_id k st

abbrev pub IsKeyedStock : Stock → Type 0
IsKeyedStock st = IsKeyed (λ (r : Serial). r.id) st.serials

-- The item names a serial that is in the table, active and in the given status.
pub record IsHeld (status : SerialStatus) (st : Stock) (item : TransferItem) : Type 0 where
  pub serial : Serial
  pub named : item.serial_id ≡ some serial.id
  pub found : serial_by_id serial.id st ≡ some serial
  pub in_status : serial.status ≡ status
  pub is_active : serial.active ≡ true

abbrev pub is_named : ℕ → List TransferItem → Bool
is_named k [] = false
is_named k (i ∷ items) = names k i || is_named k items

-- The row of a serial after the loop.
unfoldable pub moved : Move → List TransferItem → Serial → Serial
moved move items r = if is_named r.id items then record r { status = move.target } else r

record Step (move : Move) (item : TransferItem) (st st' : Stock) : Type 0 where
  held : IsHeld move.source st item
  rows :
      st'.serials
      ≡ update_where (takes move held.serial.id) (λ r. record r { status = move.target }) st.serials

move_item-Step :
    (move : Move) (user : User) (t : Transfer) (item : TransferItem) (st : Stock) {st' : Stock}
    → IsKeyedStock st
    → move_item move user t item st ≡ returns st'
    → Step move item st st'
unfolding move_item item_serial
move_item-Step move user t item st keyed h = elim (Option-cases item.serial_id) [
  | inl unnamed ↦ absurd (ground arith)
  | inr (k, named) ↦ elim (Option-cases (serial_by_id k st)) [
    | inl absent ↦ absurd (ground arith)
    | inr (serial, found) ↦
        let key : serial.id ≡ k = row_key (λ (r : Serial). r.id) k st.serials found in
        elim (Bool-cases (count_where (takes move serial.id) st.serials == 1)) [
          | inr refused ↦ absurd (ground arith)
          | inl claimed ↦
              let (r, same_row, test) =
                row_of_count_one (λ (r : Serial). r.id) serial.id
                  (λ r. r.status == move.source && r.active) st.serials keyed (ground arith) in
              let found' : serial_by_id serial.id st ≡ some serial = rw (sym key) at found in
              let same : r ≡ serial = ground (arith, same_row, found') in
              record {
                held = record {
                  serial = serial;
                  named = rw key named;
                  found = found';
                  in_status = ground (arith, status_eq.same_iff serial.status move.source);
                  is_active = ground arith;
                };
                rows = ground arith;
              }
        ]
  ]
]

-- What one step does to the row of any serial.
Step-row :
    (move : Move) (item : TransferItem) (st st' : Stock) (step : Step move item st st') (n : ℕ)
    → serial_row n st'
      ≡ Option.map
          (λ r. if takes move step.held.serial.id r then record r { status = move.target } else r)
          (serial_row n st)
Step-row move item st st' step n = rw step.rows (
    row-update_where (λ (r : Serial). r.id) (takes move step.held.serial.id)
      (λ r. record r { status = move.target }) (λ r. refl) n st.serials)

Step-IsKeyedStock :
    (move : Move) (item : TransferItem) (st st' : Stock)
    → Step move item st st'
    → IsKeyedStock st
    → IsKeyedStock st'
Step-IsKeyedStock move item st st' step keyed = rw step.rows (
    update_where-IsKeyed (λ (r : Serial). r.id) (takes move step.held.serial.id)
      (λ r. record r { status = move.target }) (λ r. refl) st.serials keyed)

-- What is held after a step was held before it: the step's own serial has left the status.
IsHeld-before :
    (move : Move) (x y : TransferItem) (st st' : Stock)
    → move.source ≢ move.target
    → Step move x st st'
    → IsHeld move.source st' y
    → IsHeld move.source st y
IsHeld-before move x y st st' differ step held =
    let after = Step-row move x st st' step held.serial.id in
    elim (Option-cases (serial_row held.serial.id st)) [
      | inl absent ↦ absurd (ground (arith, after, held.found))
      | inr (r, e) ↦ elim (Bool-cases (takes move step.held.serial.id r)) [
        | inl changed ↦ absurd (ground (arith, after, held.found, held.in_status, differ))
        | inr kept ↦
            let same : r ≡ held.serial = ground (arith, after, held.found) in
            record {
              serial = held.serial;
              named = held.named;
              found = e ∙ rw same refl;
              in_status = held.in_status;
              is_active = held.is_active;
            }
      ]
    ]

All-IsHeld-before :
    (move : Move) (x : TransferItem) (ys : List TransferItem) (st st' : Stock)
    → move.source ≢ move.target
    → Step move x st st'
    → All (IsHeld move.source st') ys
    → All (IsHeld move.source st) ys
All-IsHeld-before move x [] st st' differ step h = tt
All-IsHeld-before move x (y ∷ ys) st st' differ step h = (
  IsHeld-before move x y st st' differ step h.0,
  All-IsHeld-before move x ys st st' differ step h.1,
)

-- A held item's claim is for its own serial.
takes-names :
    (move : Move) (x : TransferItem) (st : Stock) (held : IsHeld move.source st x) (k : ℕ)
    (r : Serial)
    → serial_row k st ≡ some r
    → takes move held.serial.id r ≡ names r.id x
takes-names move x st held k r e =
    let key : r.id ≡ k = row_key (λ (r : Serial). r.id) k st.serials e in
    elim (Bool-cases (nat_beq r.id held.serial.id)) [
      | inr other ↦ rw (held.named, other) refl
      | inl same ↦
          let own : k ≡ held.serial.id = ground (arith, key) in
          let found : serial_row k st ≡ some held.serial = rw own held.found in
          let whole : r ≡ held.serial = ground (arith, e, found) in
          rw (held.named, same, whole, held.in_status, held.is_active)
            (rw (==_refl move.source) refl)
    ]

-- One step, seen from the row of any serial.
moved-cons :
    (move : Move) (x : TransferItem) (xs : List TransferItem) (st : Stock)
    (held : IsHeld move.source st x) (k : ℕ)
    → Option.map (moved move xs) (
        Option.map
          (λ r. if takes move held.serial.id r then record r { status = move.target } else r)
          (serial_row k st))
      ≡ Option.map (moved move (x ∷ xs)) (serial_row k st)
unfolding moved
moved-cons move x xs st held k = elim (Option-cases (serial_row k st)) [
  | inl absent ↦ rw absent refl
  | inr (r, e) ↦
      let same = takes-names move x st held k r e in
      rw (e, same)
        (elim (Bool-cases (names r.id x)) [
          | inl named ↦ ground (arith, named)
          | inr other ↦ rw other refl
        ])
]

map-moved-nil : (move : Move) (o : Option Serial) → Option.map (moved move []) o ≡ o
unfolding moved
map-moved-nil move none = refl
map-moved-nil move (some r) = refl

-- The loop moves every item or none: each item's serial was active and in the source status, each
-- is in the target status afterwards, and no other serial has changed.
pub move_items-effect :
    (move : Move) (user : User) (t : Transfer) (items : List TransferItem) (st : Stock)
    {st' : Stock}
    → move.source ≢ move.target
    → IsKeyedStock st
    → move_items move user t items st ≡ returns st'
    → All (IsHeld move.source st) items
      × ((k : ℕ) → serial_row k st' ≡ Option.map (moved move items) (serial_row k st))
unfolding move_items
move_items-effect move user t [] st {st' = st'} differ keyed h =
    let same : st' ≡ st = ground arith in (tt, λ k. rw (same, map-moved-nil) refl)
move_items-effect move user t (x ∷ xs) st {st' = st'} differ keyed h =
    elim (Outcome-cases (move_item move user t x st)) [
      | inr (e, failed) ↦ absurd (ground arith)
      | inl (st1, one) ↦
          let step = move_item-Step move user t x st {st' = st1} keyed one in
          let rest : move_items move user t xs st1 ≡ returns st' = ground arith in
          let (held, rows) =
            move_items-effect move user t xs st1 {st' = st'} differ
              (Step-IsKeyedStock move x st st1 step keyed) rest in
          (
            (step.held, All-IsHeld-before move x xs st st1 differ step held),
            λ k. rw (rows k, Step-row move x st st1 step k) (moved-cons move x xs st step.held k),
          )
    ]

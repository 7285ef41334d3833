-- ===== src/Inventory/Submit/Claims.antt =====
-- What a submission does to the table of serials, against rows that another session may have
-- changed since the batch was loaded.
use mathlib.Core.Option.{Option}
use mathlib.Core.Option
use setuora_lite.Base.{
  refl, row_key, nat_eq, ℕ, List, ◌≡◌, row, some, IsKeyed, if◌then◌else◌, true, row_of_count_one,
  ◌==◌, row-update_where, ◌&&◌, arith, none, false, ◌∷◌, Option-cases, inl, inr, Bool-cases,
  nat_beq,
}
use setuora_lite.Model.{Serial, status_eq}
use setuora_lite.Inventory.Loaded.{LoadedItem, save_item}
use setuora_lite.Inventory.Submit.{
  claim, SerialStatus, claims, Batch, submit_item, batch_targets, is_damage, User, is_audit,
  Session, ok,
}

abbrev pub serial_row : ℕ → List Serial → Option Serial
serial_row = row (λ (r : Serial). r.id)

-- The serial's row is as the session loaded it: the same status, and active.
pub record IsFresh (rows : List Serial) (loaded : Serial) : Type 0 where
  pub current : Serial
  pub found : serial_row loaded.id rows ≡ some current
  pub same_status : current.status ≡ loaded.status
  pub still_active : current.active ≡ true

pub claimed-IsFresh :
    (loaded : Serial) (target : SerialStatus) (rows : List Serial)
    → IsKeyed (λ (r : Serial). r.id) rows
    → (claim loaded target rows).0 ≡ 1
    → IsFresh rows loaded
unfolding claim
claimed-IsFresh loaded target rows keyed e =
    let (r, found, test) =
      row_of_count_one (λ (r : Serial). r.id) loaded.id (λ r. r.status == loaded.status && r.active)
        rows keyed e in
    record { current = r; found = found; same_status = ground arith; still_active = ground arith }

pub row-claim :
    (loaded : Serial) (target : SerialStatus) (rows : List Serial) (k : ℕ)
    → serial_row k (claim loaded target rows).1
      ≡ Option.map
          (λ r. if claims loaded r then record r { status = target } else r)
          (serial_row k rows)
unfolding claim
row-claim loaded target rows k =
    row-update_where (λ (r : Serial). r.id) (claims loaded) (λ r. record r { status = target })
      (λ r. refl) k rows

-- The status that the batch gives to a serial it was loaded with.
abbrev pub target_of : Batch → LoadedItem → SerialStatus
target_of batch x = (batch_targets batch.batch_type (is_damage batch.reason_code) x.serial.status).0

-- The row of a serial after the batch: its target if the batch holds the serial, and no change if not.
unfoldable pub retarget : Batch → List LoadedItem → Serial → Serial
retarget batch items r = elim (row (λ (x : LoadedItem). x.serial.id) r.id items) [
  | none ↦ r
  | some x ↦ record r { status = target_of batch x }
]

pub submit_item-claim :
    (batch : Batch) (user : User) (x x' : LoadedItem) (s s' : Session)
    → is_audit batch.batch_type ≡ false
    → submit_item batch user x s ≡ (ok x', s')
    → ((claim x.serial (target_of batch x) s.db.serials).0 ≡ 1)
      × (s'.db.serials ≡ (claim x.serial (target_of batch x) s.db.serials).1)
unfolding submit_item save_item
submit_item-claim batch user x x' s s' a h = (ground arith, ground arith)

abbrev pub IsKeyedSerials : List Serial → Type 0
IsKeyedSerials = IsKeyed (λ (r : Serial). r.id)

abbrev pub HasDistinctSerials : List LoadedItem → Type 0
HasDistinctSerials = IsKeyed (λ (x : LoadedItem). x.serial.id)

pub fresh-claims :
    (x : Serial) (rows : List Serial) (k : ℕ) (r : Serial)
    → IsFresh rows x
    → serial_row k rows ≡ some r
    → x.id ≡ r.id
    → claims x r ≡ true
fresh-claims x rows k r fresh e same =
    let key : r.id ≡ k = row_key (λ (r : Serial). r.id) k rows e in
    let k' : x.id ≡ k = omega arith in
    let found : serial_row k rows ≡ some fresh.current = rw k' at fresh.found in
    ground (arith, key, found, status_eq.same_iff r.status x.status)

-- One step seen from the row of any serial.
pub retarget-cons :
    (batch : Batch) (x : LoadedItem) (xs : List LoadedItem) (rows : List Serial) (k : ℕ)
    → HasDistinctSerials (x ∷ xs)
    → IsFresh rows x.serial
    → Option.map (retarget batch xs) (
        Option.map
          (λ r. if claims x.serial r then record r { status = target_of batch x } else r)
          (serial_row k rows))
      ≡ Option.map (retarget batch (x ∷ xs)) (serial_row k rows)
unfolding retarget
retarget-cons batch x xs rows k distinct fresh = elim (Option-cases (serial_row k rows)) [
  | inl absent ↦ rw absent refl
  | inr (r, e) ↦ rw e (elim (Bool-cases (nat_beq x.serial.id r.id)) [
    | inl same ↦ ground (
      arith,
      fresh-claims x.serial rows k r fresh e,
      distinct.0,
      (nat_eq.same_iff x.serial.id r.id).0 same,
    )
    | inr other ↦ ground arith
  ])
]

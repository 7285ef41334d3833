-- ===== src/Inventory/Submit/Effects.antt =====
-- The submission of a batch as a whole: its effect, its failures, and when it succeeds.
use mathlib.Core.Option.{Option}
use mathlib.Core.Option
use setuora_lite.Base.{
  [], ◌∷◌, ℕ, List, nat_beq, row, ◌≡◌, false, none, All, Option-cases, some, inl, inr, arith,
  row_key, update_where-IsKeyed, refl, ◌⊎◌, ◌∙◌, ap, sym,
}
use setuora_lite.Model.{Serial, status_eq}
use setuora_lite.Inventory.Loaded.{LoadedItem, save_batch, Loaded}
use setuora_lite.Inventory.Errors.{ok, err, InventoryError, Result, Result-cases}
use setuora_lite.Inventory.Submit.{
  submit_items, apply_batch_statuses, SerialStatus, Batch, User, is_audit, claim, submit_item,
  claims, Session, BatchStatus, validate_batch, rollback,
}
use setuora_lite.Inventory.Submit.Claims.{
  IsFresh, IsKeyedSerials, HasDistinctSerials, serial_row, retarget, row-claim, submit_item-claim,
  claimed-IsFresh, target_of, retarget-cons,
}

-- A row that another serial's claim leaves alone is as fresh as before.
IsFresh-after_claim :
    (x : LoadedItem) (t : SerialStatus) (rows : List Serial) (y : Serial)
    → nat_beq x.serial.id y.id ≡ false
    → IsFresh (claim x.serial t rows).1 y
    → IsFresh rows y
IsFresh-after_claim x t rows y ne fresh =
    let moved = (row-claim x.serial t rows y.id) in
    elim (Option-cases (serial_row y.id rows)) [
      | inl absent ↦ absurd (ground (arith, moved, fresh.found))
      | inr (r, e) ↦
          let key : r.id ≡ y.id = row_key (λ (r : Serial). r.id) y.id rows e in
          let same : some r ≡ some fresh.current = ground (arith, moved, fresh.found) in
          record {
            current = r;
            found = e;
            same_status = ground (arith, fresh.same_status);
            still_active = ground (arith, fresh.still_active);
          }
    ]

All-IsFresh-after_claim :
    (x : LoadedItem) (t : SerialStatus) (rows : List Serial) (xs : List LoadedItem)
    → row (λ (y : LoadedItem). y.serial.id) x.serial.id xs ≡ none
    → All (λ y. IsFresh (claim x.serial t rows).1 y.serial) xs
    → All (λ y. IsFresh rows y.serial) xs
All-IsFresh-after_claim x t rows [] absent h = tt
All-IsFresh-after_claim x t rows (y ∷ ys) absent h =
    let ne : nat_beq x.serial.id y.serial.id ≡ false = ground arith in
    (
      IsFresh-after_claim x t rows y.serial ne h.0,
      All-IsFresh-after_claim x t rows ys (ground arith) h.1,
    )

pub claim-IsKeyedSerials :
    (x : LoadedItem) (t : SerialStatus) (rows : List Serial)
    → IsKeyedSerials rows
    → IsKeyedSerials (claim x.serial t rows).1
unfolding claim
claim-IsKeyedSerials x t rows keyed =
    update_where-IsKeyed (λ (r : Serial). r.id) (claims x.serial) (λ r. record r { status = t })
      (λ r. refl) rows keyed

map-retarget-nil : (batch : Batch) (o : Option Serial) → Option.map (retarget batch []) o ≡ o
unfolding retarget
map-retarget-nil batch none = refl
map-retarget-nil batch (some r) = refl

pub call-cases :
    {T : Type 0} (call : Result T × Session)
    → ((y : InventoryError × Session) × (call ≡ (err y.0, y.1)))
      ⊎ ((y : T × Session) × (call ≡ (ok y.0, y.1)))
call-cases (err e, s) = inl ((e, s), refl)
call-cases (ok value, s) = inr ((value, s), refl)

-- The submission of the first item, and then of the rest.
pub submit_items-cons :
    (batch : Batch) (user : User) (x : LoadedItem) (xs : List LoadedItem) {xs' : List LoadedItem}
    (s : Session) {s' : Session}
    → submit_items batch user (x ∷ xs) s ≡ (ok xs', s')
    → (y : LoadedItem × Session × List LoadedItem) × (submit_item batch user x s ≡ (ok y.0, y.1))
      × (submit_items batch user xs y.1 ≡ (ok y.2, s'))
unfolding submit_items
submit_items-cons batch user x xs s h = elim (call-cases (submit_item batch user x s)) [
  | inl failed ↦ absurd (ground arith)
  | inr ((x', s1), e) ↦ elim (call-cases (submit_items batch user xs s1)) [
    | inl failed ↦ absurd (ground arith)
    | inr ((xs'', s2), e2) ↦ ((x', s1, xs''), e, ground arith)
  ]
]

submit_item-committed :
    (batch : Batch) (user : User) (x : LoadedItem) (s : Session)
    → (submit_item batch user x s).1.committed ≡ s.committed
unfolding submit_item
submit_item-committed batch user x s = ground arith

-- An item that fails has taken its own writes back.
submit_item-failed :
    (batch : Batch) (user : User) (x : LoadedItem) (s : Session) {e : InventoryError} {s' : Session}
    → submit_item batch user x s ≡ (err e, s')
    → (e ≡ InventoryError.no_longer_available) × (s' ≡ rollback s)
unfolding submit_item
submit_item-failed batch user x s h = (ground arith, ground arith)

submit_items-committed :
    (batch : Batch) (user : User) (xs : List LoadedItem) (s : Session) {xs' : List LoadedItem}
    {s' : Session}
    → submit_items batch user xs s ≡ (ok xs', s')
    → s'.committed ≡ s.committed
submit_items-committed batch user [] s h = unfold submit_items in ground arith
submit_items-committed batch user (x ∷ xs) s h =
    let ((x', s1, xs''), one, rest) = submit_items-cons batch user x xs s h in
    submit_items-committed batch user xs s1 rest
    ∙ ap (λ y. y.1.committed) (sym one)
    ∙ submit_item-committed batch user x s

-- An item that fails has taken the writes of the items before it back.
submit_items-failed :
    (batch : Batch) (user : User) (xs : List LoadedItem) (s : Session) {e : InventoryError}
    {s' : Session}
    → submit_items batch user xs s ≡ (err e, s')
    → (e ≡ InventoryError.no_longer_available) × (s' ≡ rollback s)
unfolding submit_items
submit_items-failed batch user [] s h = absurd (ground arith)
submit_items-failed batch user (x ∷ xs) s h = elim (call-cases (submit_item batch user x s)) [
  | inl ((e1, s1), one) ↦
      let (kind, back) = submit_item-failed batch user x s one in (ground arith, ground arith)
  | inr ((x', s1), one) ↦ elim (call-cases (submit_items batch user xs s1)) [
    | inl ((e2, s2), rest) ↦
        let (kind, back) = submit_items-failed batch user xs s1 rest in
        let same : s1.committed ≡ s.committed =
          ap (λ y. y.1.committed) (sym one) ∙ submit_item-committed batch user x s in
        (ground arith, ground arith)
    | inr ((xs'', s2), rest) ↦ absurd (ground arith)
  ]
]

pub submit_items-effect :
    (batch : Batch) (user : User) (xs : List LoadedItem) {xs' : List LoadedItem} (s : Session)
    {s' : Session}
    → is_audit batch.batch_type ≡ false
    → IsKeyedSerials s.db.serials
    → HasDistinctSerials xs
    → submit_items batch user xs s ≡ (ok xs', s')
    → All (λ x. IsFresh s.db.serials x.serial) xs
      × ((k : ℕ)
          → serial_row k s'.db.serials ≡ Option.map (retarget batch xs) (serial_row k s.db.serials))
unfolding submit_items
submit_items-effect batch user [] s {s' = s'} a keyed distinct h =
    let same : s' ≡ s = ground arith in (tt, λ k. rw (same, map-retarget-nil) refl)
submit_items-effect batch user (x ∷ xs) s {s' = s'} a keyed distinct h =
    let ((x', s1, xs''), one, rest) = submit_items-cons batch user x xs s h in
    let (count, moved) = submit_item-claim batch user x x' s s1 a one in
    let fresh = claimed-IsFresh x.serial (target_of batch x) s.db.serials keyed count in
    let keyed1 : IsKeyedSerials s1.db.serials =
      rw moved (claim-IsKeyedSerials x (target_of batch x) s.db.serials keyed) in
    let (later, rows) =
      submit_items-effect batch user xs {xs' = xs''} s1 {s' = s'} a keyed1 distinct.1 rest in
    let later' = rw moved at later in
    (
      (fresh, All-IsFresh-after_claim x (target_of batch x) s.db.serials xs distinct.0 later'),
      λ k.
          rw (rows k, moved, row-claim x.serial (target_of batch x) s.db.serials k)
            (retarget-cons batch x xs s.db.serials k distinct fresh),
    )

abbrev pub finished : ℕ → Batch → Batch
finished now batch = record batch { status = BatchStatus.submitted; submitted_at = some now }

-- Inversion of a submission that returns.
pub apply_returns :
    (user : User) (now : ℕ) (b b' : Loaded) (s : Session)
    → (apply_batch_statuses user now b s).0 ≡ ok b'
    → (y : List LoadedItem × Session) × (validate_batch b ≡ ok tt)
      × (submit_items b.batch user b.items s ≡ (ok y.0, y.1))
      × (b' ≡ record { batch = finished now b.batch; items = y.0 })
      × ((apply_batch_statuses user now b s).1
          ≡ record (y.1) { db = save_batch (finished now b.batch) y.1.db })
unfolding apply_batch_statuses
apply_returns user now b b' s h = elim (call-cases (submit_items b.batch user b.items s)) [
  | inl failed ↦ absurd (ground arith)
  | inr ((items, s'), e) ↦ ((items, s'), ground arith, e, ground arith, ground arith)
]

-- A submission that is not an audit, of distinct serials in a table keyed by their ids, and that
-- returns: every serial of the batch still had, in the table, the status that it was loaded with and
-- was active; afterwards each of them has the target status of the
-- batch, and every other serial's row is as it was. Nothing is committed yet.
pub apply-effect :
    (user : User) (now : ℕ) (b b' : Loaded) (s : Session)
    → is_audit b.batch.batch_type ≡ false
    → IsKeyedSerials s.db.serials
    → HasDistinctSerials b.items
    → (apply_batch_statuses user now b s).0 ≡ ok b'
    → let s' = (apply_batch_statuses user now b s).1 in
      All (λ x. IsFresh s.db.serials x.serial) b.items
      × ((k : ℕ)
          → serial_row k s'.db.serials
            ≡ Option.map (retarget b.batch b.items) (serial_row k s.db.serials))
      × (b'.batch.status ≡ BatchStatus.submitted)
      × (s'.committed ≡ s.committed)
unfolding save_batch
apply-effect user now b b' s a keyed distinct h =
    let ((items, s1), valid, done, same, after) = apply_returns user now b b' s h in
    let (fresh, rows) =
      submit_items-effect b.batch user b.items s {s' = s1} a keyed distinct done in
    rw (same, after) (fresh, rows, refl, submit_items-committed b.batch user b.items s done)

-- A submission that raises either failed a check of `validate_batch`, with that check's error, and
-- leaves the session as it was; or it passed the checks and found a serial taken: the error says so,
-- and the session's tables are those last committed, without any write of this call.
pub apply_failure :
    (user : User) (now : ℕ) (b : Loaded) (s : Session) (e : InventoryError)
    → (apply_batch_statuses user now b s).0 ≡ err e
    → let s' = (apply_batch_statuses user now b s).1 in
      ((validate_batch b ≡ err e) × (s' ≡ s))
      ⊎ ((validate_batch b ≡ ok tt)
          × (e ≡ InventoryError.no_longer_available)
          × (s'.db ≡ s.committed)
          × (s'.committed ≡ s.committed))
unfolding apply_batch_statuses
apply_failure user now b s e h = elim (Result-cases (validate_batch b)) [
  | inl (e1, refused) ↦ inl (ground arith, ground arith)
  | inr (u, valid) ↦ elim (call-cases (submit_items b.batch user b.items s)) [
    | inl ((e2, s2), failed) ↦
        let (kind, back) = submit_items-failed b.batch user b.items s failed in
        inr (valid, ground arith, ground arith, ground arith)
    | inr ((items, s2), done) ↦ absurd (ground arith)
  ]
]

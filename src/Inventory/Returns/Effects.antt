-- ===== src/Inventory/Returns/Effects.antt =====
-- What a return does: the sale waits for one shelf scan, which clears the wait and moves the units.
use mathlib.Core.Option.{Option}
use mathlib.Core.Option
use setuora_lite.Base.{
  ℕ, [], ◌∷◌, List, arith, refl, nat_eq, none, some, true, false, inl, inr, ◌≢◌, select,
  update_where, row-update_where, Bool, ◌++◌, ◌≡◌, ◌==◌, row, Bool-cases, Option-cases, ◌||◌,
  if◌then◌else◌, Text, length, ◌≤◌, find, ==_refl, strip_upper, ◌&&◌, text_eq,
}
use setuora_lite.Model.{ScanAction, ScanStatus, Batch, Serial}
use setuora_lite.Inventory.Errors.{ok, err, InventoryError}
use setuora_lite.Inventory.Returns.{
  scan_sale_return_product, verify_sale_return_on_shelf, ScanLog, is_pending_return, Session,
  StorageLocation, put_on_shelf, is_pending_status, put_all_on_shelf, ensure_sale_scan_allowed,
  validate_sale_returns_complete, User, pending_sale_return_logs, return_serial, take_back,
  ensure_draft_sale, settle_returns, reject_return, return_log, is_sale, BatchItem,
  is_return_action,
}

abbrev settled : ScanLog → ScanLog
settled l = record l { status = ScanStatus.shelf_verified }

settled-not_pending : (k : ℕ) (l : ScanLog) → is_pending_return k (settled l) ≡ false
unfolding is_pending_return is_pending_status
settled-not_pending k l = ground arith

select-append {ℓ} :
    {A : Type ℓ} (p : A → Bool) (xs ys : List A) → select p (xs ++ ys) ≡ select p xs ++ select p ys
select-append p [] ys = refl
select-append p (x ∷ xs) ys = ground (arith, select-append p xs ys)

select-settled :
    (b : ℕ) (logs : List ScanLog)
    → select (is_pending_return b) (update_where (is_pending_return b) settled logs) ≡ []
select-settled b [] = refl
select-settled b (l ∷ logs) = elim (Bool-cases (is_pending_return b l)) [
  | inl y ↦ rw (y, settled-not_pending b l) (select-settled b logs)
  | inr n ↦ rw (n, n) (select-settled b logs)
]

pending_of_one :
    (b k : ℕ) (l : ScanLog) → is_pending_return b l ≡ true → k ≢ b → is_pending_return k l ≡ false
unfolding is_pending_return
pending_of_one b k l h other = elim (Option-cases l.batch_id) [
  | inl unset ↦ ground arith
  | inr (j, e) ↦ ground (arith, other)
]

select-other :
    (b k : ℕ) (logs : List ScanLog)
    → k ≢ b
    → select (is_pending_return k) (update_where (is_pending_return b) settled logs)
      ≡ select (is_pending_return k) logs
select-other b k [] other = refl
select-other b k (l ∷ logs) other = elim (Bool-cases (is_pending_return b l)) [
  | inl y ↦
      rw (y, settled-not_pending k l, pending_of_one b k l y other) (select-other b k logs other)
  | inr n ↦ rw (n, select-other b k logs other) refl
]

abbrev pub serial_at : ℕ → Session → Option Serial
serial_at k s = row (λ (r : Serial). r.id) k s.db.serials

abbrev pub shelved : StorageLocation → Serial → Serial
shelved location r = record r {
  location_id = some location.id;
  warehouse = location.warehouse;
  warehouse_level = location.warehouse_level;
}

abbrev pub names_serial : ℕ → ScanLog → Bool
names_serial k l = elim l.serial_id [ none ↦ false | some j ↦ k == j ]

-- A log of the list names the serial.
abbrev pub is_logged : ℕ → List ScanLog → Bool
is_logged k [] = false
is_logged k (l ∷ logs) = names_serial k l || is_logged k logs

map-same : (o : Option Serial) → Option.map (λ r. r) o ≡ o
map-same Option.none = refl
map-same (Option.some r) = refl

row-put_on_shelf :
    (location : StorageLocation) (log : ScanLog) (k : ℕ) (rows : List Serial)
    → row (λ (r : Serial). r.id) k (put_on_shelf location log rows)
      ≡ Option.map
          (λ r. if names_serial r.id log then shelved location r else r)
          (row (λ (r : Serial). r.id) k rows)
unfolding put_on_shelf
row-put_on_shelf location log k rows = elim (Option-cases log.serial_id) [
  | inl unset ↦ rw (unset, put_on_shelf, map-same (row (λ (r : Serial). r.id) k rows)) refl
  | inr (j, e) ↦
      rw (e, put_on_shelf)
        (row-update_where (λ (r : Serial). r.id) (λ r. r.id == j) (shelved location) (λ r. refl) k
          rows)
]

row-put_all_on_shelf :
    (location : StorageLocation) (logs : List ScanLog) (k : ℕ) (rows : List Serial)
    → row (λ (r : Serial). r.id) k (put_all_on_shelf location logs rows)
      ≡ Option.map
          (λ r. if is_logged r.id logs then shelved location r else r)
          (row (λ (r : Serial). r.id) k rows)
unfolding put_all_on_shelf
row-put_all_on_shelf location [] k rows = rw (map-same (row (λ (r : Serial). r.id) k rows)) refl
row-put_all_on_shelf location (log ∷ logs) k rows =
    elim (Option-cases (row (λ (r : Serial). r.id) k rows)) [
      | inl absent ↦
          rw
            (
              row-put_all_on_shelf location logs k (put_on_shelf location log rows),
              row-put_on_shelf location log k rows,
              absent,
            )
            refl
      | inr (r, e) ↦
          rw
            (
              row-put_all_on_shelf location logs k (put_on_shelf location log rows),
              row-put_on_shelf location log k rows,
              e,
            )
            (ground arith)
    ]

scan_returns :
    (batch : Batch) (user : User) (number : Text) (s : Session) (serial : Serial)
    → (scan_sale_return_product batch user number s).0 ≡ ok serial
    → (y : Serial × BatchItem) × (ensure_draft_sale batch ≡ ok tt)
      × (pending_sale_return_logs batch.id s.db ≡ [])
      × ((scan_sale_return_product batch user number s).1 ≡ (take_back batch user y.0 y.1 s).1)
unfolding scan_sale_return_product return_serial reject_return
scan_returns batch user number s serial h =
    elim (Option-cases
      (find (λ (r : Serial). r.serial_number == strip_upper number) s.db.serials)) [
        | inl absent ↦ absurd (ground arith)
        | inr (found, e) ↦
            elim (Option-cases (
              find (λ (i : BatchItem). i.batch_id == batch.id && i.serial_id == found.id)
                s.db.items)) [
                  | inl absent ↦ absurd (ground arith)
                  | inr (item, e') ↦ ((found, item), ground arith, ground arith, ground arith)
                ]
      ]

take_back-waits :
    (batch : Batch) (user : User) (serial : Serial) (item : BatchItem) (s : Session)
    → pending_sale_return_logs batch.id s.db ≡ []
    → length (pending_sale_return_logs batch.id (take_back batch user serial item s).1.db) ≡ 1
unfolding take_back return_log is_pending_return is_return_action is_pending_status
take_back-waits batch user serial item s none_before =
    rw
      (
        select-append (is_pending_return batch.id) s.db.scan_logs (
            return_log batch user (some serial.id) serial.serial_number ScanStatus.pending_shelf
            ∷ []),
        none_before,
        ==_refl batch.id,
      )
      refl

draft_is_sale : (batch : Batch) → ensure_draft_sale batch ≡ ok tt → is_sale batch.batch_type ≡ true
unfolding ensure_draft_sale
draft_is_sale batch h = ground arith

take_back-kept :
    (batch : Batch) (user : User) (serial : Serial) (item : BatchItem) (s : Session)
    → let s' = (take_back batch user serial item s).1 in
      (s'.db.serials ≡ s.db.serials) × (s'.committed ≡ s'.db)
unfolding take_back
take_back-kept batch user serial item s = (refl, refl)

one_waits-refuses :
    (batch : Batch) (user : User) (number : Text) (s : Session) (serial : Serial)
    → length (pending_sale_return_logs batch.id s.db) ≡ 1
    → (scan_sale_return_product batch user number s).0 ≢ ok serial
one_waits-refuses batch user number s serial waits h =
    let (x, sale, none_now, taken) = scan_returns batch user number s serial h in
    absurd (ground (arith, waits, none_now))

-- A scan of a returned unit that returns: the sale was an open draft with no unit waiting, and now
-- exactly one waits. On the session that it leaves, the guard of the scans
-- (`ensure_sale_scan_allowed`) asks for the shelf, the check before a submission
-- (`validate_sale_returns_complete`) refuses, and no scan of another returned unit returns. The
-- serials are as before, and all is committed.
pub scan_return-waits :
    (batch : Batch) (user : User) (number : Text) (s : Session) (serial : Serial)
    → (scan_sale_return_product batch user number s).0 ≡ ok serial
    → let s' = (scan_sale_return_product batch user number s).1 in
      (pending_sale_return_logs batch.id s.db ≡ [])
      × (length (pending_sale_return_logs batch.id s'.db) ≡ 1)
      × (ensure_sale_scan_allowed batch s'.db ≡ err InventoryError.shelf_scan_first)
      × (validate_sale_returns_complete batch s'.db ≡ err InventoryError.sale_return_incomplete)
      × ((user' : User) (number' : Text) (serial' : Serial)
          → (scan_sale_return_product batch user' number' s').0 ≢ ok serial')
      × (s'.db.serials ≡ s.db.serials)
      × (s'.committed ≡ s'.db)
unfolding ensure_sale_scan_allowed validate_sale_returns_complete
scan_return-waits batch user number s serial h =
    let ((found, item), sale, none_before, taken) = scan_returns batch user number s serial h in
    let one = take_back-waits batch user found item s none_before in
    let (same, committed) = take_back-kept batch user found item s in
    let s' = (scan_sale_return_product batch user number s).1 in
    let waits : length (pending_sale_return_logs batch.id s'.db) ≡ 1 = rw (taken, one) refl in
    (
      none_before,
      waits,
      rw (taken, one, draft_is_sale batch sale) refl,
      rw (taken, one, draft_is_sale batch sale) refl,
      λ user' number' serial' h'. one_waits-refuses batch user' number' s' serial' waits h',
      rw taken same,
      rw taken committed,
    )

verify_returns :
    (batch : Batch) (location : StorageLocation) (user : User) (s : Session) (n : ℕ)
    → (verify_sale_return_on_shelf batch location user s).0 ≡ ok n
    → let pending = pending_sale_return_logs batch.id s.db in
      (ensure_draft_sale batch ≡ ok tt)
      × (n ≡ length pending)
      × (1 ≤ n)
      × ((verify_sale_return_on_shelf batch location user s).1
          ≡ settle_returns batch location user pending s)
unfolding verify_sale_return_on_shelf
verify_returns batch location user s n h = (ground arith, ground arith, ground arith, ground arith)

shelf_log-not_pending :
    (k : ℕ) (l : ScanLog) → l.action ≡ ScanAction.sale_return_shelf → is_pending_return k l ≡ false
unfolding is_pending_return is_return_action
shelf_log-not_pending k l e = rw e (elim (Option-cases l.batch_id) [
  | inl unset ↦ rw unset refl
  | inr (j, e') ↦ rw e' (elim (Bool-cases (j == k)) [ inl y ↦ rw y refl | inr n ↦ rw n refl ])
])

select-snoc {ℓ} :
    {A : Type ℓ} (p : A → Bool) (xs : List A) (x : A)
    → p x ≡ false
    → select p (xs ++ x ∷ []) ≡ select p xs
select-snoc p [] x h = rw h refl
select-snoc p (y ∷ ys) x h = ground (arith, select-snoc p ys x h)

-- After the settlement: a batch's waiting units, by its number.
settle-pending :
    (batch : Batch) (location : StorageLocation) (user : User) (pending : List ScanLog)
    (s : Session) (k : ℕ)
    → pending_sale_return_logs k (settle_returns batch location user pending s).db
      ≡ select
          (is_pending_return k)
          (update_where (is_pending_return batch.id) settled s.db.scan_logs)
unfolding settle_returns
settle-pending batch location user pending s k =
    select-snoc (is_pending_return k)
      (update_where (is_pending_return batch.id) settled s.db.scan_logs) _
      (shelf_log-not_pending k _ refl)

settle-serial :
    (batch : Batch) (location : StorageLocation) (user : User) (pending : List ScanLog)
    (s : Session) (k : ℕ)
    → serial_at k (settle_returns batch location user pending s)
      ≡ Option.map (λ r. if is_logged r.id pending then shelved location r else r) (serial_at k s)
unfolding settle_returns
settle-serial batch location user pending s k = row-put_all_on_shelf location pending k s.db.serials

-- A scan of the shelf that returns: it counts the units that waited, at least one, and none waits
-- any more, so the sale can be submitted; units that wait for other sales still wait. The units
-- that waited, and no others, are on the shelf.
pub verify_return-clears :
    (batch : Batch) (location : StorageLocation) (user : User) (s : Session) (n : ℕ)
    → (verify_sale_return_on_shelf batch location user s).0 ≡ ok n
    → let s' = (verify_sale_return_on_shelf batch location user s).1 in
      let pending = pending_sale_return_logs batch.id s.db in
      (n ≡ length pending)
      × (1 ≤ n)
      × (pending_sale_return_logs batch.id s'.db ≡ [])
      × (validate_sale_returns_complete batch s'.db ≡ ok tt)
      × ((k : ℕ)
          → k ≢ batch.id
          → pending_sale_return_logs k s'.db ≡ pending_sale_return_logs k s.db)
      × ((k : ℕ)
          → serial_at k s'
            ≡ Option.map
                (λ r. if is_logged r.id pending then shelved location r else r)
                (serial_at k s))
unfolding validate_sale_returns_complete
verify_return-clears batch location user s n h =
    let (sale, counted, least, after) = verify_returns batch location user s n h in
    let pending = pending_sale_return_logs batch.id s.db in
    let cleared : pending_sale_return_logs batch.id
          (settle_returns batch location user pending s).db
        ≡ [] =
      rw (settle-pending batch location user pending s batch.id)
        (select-settled batch.id s.db.scan_logs) in
    rw (after, cleared, draft_is_sale batch sale)
      (
        counted,
        least,
        refl,
        refl,
        λ k other.
            rw (settle-pending batch location user pending s k)
              (select-other batch.id k s.db.scan_logs other),
        λ k. settle-serial batch location user pending s k,
      )

-- ===== src/Inventory/Scan/Drafts.antt =====
-- The drafts that hold a unit, under scans and removals.
use setuora_lite.Base.{
  ℕ, [], ◌∷◌, none, some, true, false, Bool, Option, arith, refl, inl, inr, Bool-cases, ◌++◌,
  count_where, Option-cases, ◌≤◌, ◌≡◌, ◌==◌, row, find, ◌&&◌, nat_eq, count_covered, count-snoc,
  Text, strip_upper, text_eq,
}
use setuora_lite.Model.{batch_status_eq, Serial, Db, BatchStatus-discrete, BatchStatus}
use setuora_lite.Inventory.Errors.{ok, Result-cases}
use setuora_lite.Inventory.Fefo.{is_draft_item, validate_fefo_scan}
use setuora_lite.Inventory.Scan.{
  add_serial_to_batch, check_scan, commit_scan, new_item, record_rejected_scan, is_in_other_draft,
  is_item_of, BatchItem, is_draft, Batch, Assignment, User, serial_allowed_for_batch, Session,
  Moment,
}

-- The item holds the unit for a batch whose row says DRAFT.
abbrev pub holds : Db → ℕ → BatchItem → Bool
holds db k i = i.serial_id == k && (elim (row (λ (b : Batch). b.id) i.batch_id db.batches) [
  | none ↦ false
  | some b ↦ b.status == BatchStatus.draft
])

abbrev pub HasOneDraft : Db → Type 0
HasOneDraft db = (k : ℕ) → count_where (holds db k) db.items ≤ 1

draft_status : (status : BatchStatus) → is_draft status ≡ (status == BatchStatus.draft)
unfolding BatchStatus-discrete
draft_status BatchStatus.draft = refl
draft_status BatchStatus.submitted = refl
draft_status BatchStatus.syncing = refl
draft_status BatchStatus.synced = refl
draft_status BatchStatus.pending_sync = refl
draft_status BatchStatus.failed = refl
draft_status BatchStatus.closed = refl

pub draft_item-holds : (db : Db) (k : ℕ) (i : BatchItem) → is_draft_item db k i ≡ holds db k i
unfolding is_draft_item
draft_item-holds db k i = elim (Option-cases (row (λ (b : Batch). b.id) i.batch_id db.batches)) [
  | inl absent ↦ rw absent refl
  | inr (b, e) ↦ rw (e, draft_status b.status) refl
]

-- A unit that the checks let pass stands in no draft.
free_of_drafts :
    (db : Db) (batch : Batch) (k : ℕ)
    → find (is_item_of batch k) db.items ≡ none
    → find (is_in_other_draft db batch k) db.items ≡ none
    → count_where (holds db k) db.items ≡ 0
free_of_drafts db batch k here elsewhere =
    count_covered (holds db k) (is_item_of batch k) (is_in_other_draft db batch k) db.items
      (λ i held miss miss'. ground (arith, draft_item-holds db k i)) here elsewhere

-- The checks of a scan that passes.
check_passes :
    (assignment : Option Assignment) (batch : Batch) (user : User) (serial : Serial) (now : ℕ)
    (db : Db)
    → check_scan assignment batch user serial now db ≡ ok tt
    → (serial_allowed_for_batch serial batch.batch_type ≡ ok tt)
      × (validate_fefo_scan db batch serial ≡ none)
      × (find (is_item_of batch serial.id) db.items ≡ none)
      × (find (is_in_other_draft db batch serial.id) db.items ≡ none)
unfolding check_scan
check_passes assignment batch user serial now db h =
    elim (Option-cases (validate_fefo_scan db batch serial)) [
      | inr (e, fefo) ↦ absurd (ground arith)
      | inl fefo ↦ elim (Option-cases (find (is_item_of batch serial.id) db.items)) [
        | inr (i, here) ↦ absurd (ground arith)
        | inl here ↦ elim (Option-cases (find (is_in_other_draft db batch serial.id) db.items)) [
          | inr (i, elsewhere) ↦ absurd (ground arith)
          | inl elsewhere ↦ (ground arith, fefo, here, elsewhere)
        ]
      ]
    ]

-- A new item of `batch` adds at most one hold, on its own unit.
new_hold :
    (db : Db) (k id batch_id serial_id : ℕ) (picked : Bool)
    → holds db k (new_item id batch_id serial_id picked) ≡ true
    → serial_id ≡ k
unfolding new_item
new_hold db k id batch_id serial_id picked h = ground arith

one_more :
    (db : Db) (k : ℕ) (item : BatchItem)
    → count_where (holds db k) db.items ≤ 1
    → (holds db k item ≡ true → count_where (holds db k) db.items ≡ 0)
    → count_where (holds db k) (db.items ++ item ∷ []) ≤ 1
one_more db k item one free =
    rw (count-snoc (holds db k) db.items item) (elim (Bool-cases (holds db k item)) [
      | inl new ↦ rw new (omega (arith, free new))
      | inr old ↦ rw old (omega (arith, one))
    ])

-- Both what the session sees and what is committed.
abbrev pub HasOneDraftEach : Session → Type 0
HasOneDraftEach s = HasOneDraft s.db × HasOneDraft s.committed

commit_scan-HasOneDraftEach :
    (batch : Batch) (user : User) (serial : Serial) (m : Moment) (s : Session)
    → HasOneDraftEach s
    → count_where (holds s.db serial.id) s.db.items ≡ 0
    → HasOneDraftEach (commit_scan batch user serial m s).1
unfolding commit_scan record_rejected_scan
commit_scan-HasOneDraftEach batch user serial m s (seen, committed) free =
    elim (Bool-cases m.raced) [
      | inl raced ↦ rw raced (committed, committed)
      | inr alone ↦
          let item = new_item m.next_id batch.id serial.id false in
          let kept : HasOneDraft (record s.db { items = s.db.items ++ item ∷ [] }) = λ k.
            one_more s.db k item (seen k)
              (λ held. rw (← new_hold s.db k m.next_id batch.id serial.id false held) free) in
          rw alone (kept, kept)
    ]

pub add_serial-HasOneDraftEach :
    (assignment : Option Assignment) (batch : Batch) (user : User) (number : Text) (m : Moment)
    (s : Session)
    → HasOneDraftEach s
    → HasOneDraftEach (add_serial_to_batch assignment batch user number m s).1
unfolding add_serial_to_batch record_rejected_scan
add_serial-HasOneDraftEach assignment batch user number m s one =
    elim (Bool-cases (is_draft batch.status)) [
      | inr closed ↦ rw closed one
      | inl draft ↦
          elim (Option-cases
            (find (λ (r : Serial). r.serial_number == strip_upper number) s.db.serials)) [
              | inl absent ↦ rw (draft, absent) (one.0, one.0)
              | inr (serial, found) ↦
                  elim (Result-cases (check_scan assignment batch user serial m.now s.db)) [
                    | inl (e, refused) ↦ rw (draft, found, refused) (one.0, one.0)
                    | inr (u, passes) ↦
                        let (allowed, fefo, here, elsewhere) =
                          check_passes assignment batch user serial m.now s.db passes in
                        rw (draft, found, passes)
                          (commit_scan-HasOneDraftEach batch user serial m s one
                            (free_of_drafts s.db batch serial.id here elsewhere))
                  ]
            ]
    ]

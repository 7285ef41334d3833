-- ===== src/Inventory/Submit/Progress.antt =====
-- When a submission succeeds, and the trail that it leaves.
use mathlib.Core.List.{append_assoc, append-nil, List, map}
use setuora_lite.Base.{
  ℕ, [], ◌∷◌, nat_beq, row, ◌≡◌, false, none, row_key, All, arith, some, ◌==◌, ◌&&◌, true,
  count_of_row, ◌++◌, inl, inr, ◌+◌, ◌∙◌, refl, length, length-snoc, Option, sym, Text, strip_upper,
  upper, strip,
}
use setuora_lite.Model.{Serial, status_eq}
use setuora_lite.Inventory.Loaded.{LoadedItem, Loaded, save_item, save_batch}
use setuora_lite.Inventory.Errors.{ok}
use setuora_lite.Inventory.Submit.{
  submit_items, apply_batch_statuses, SerialStatus, submit_item, claim, Batch, User, is_audit,
  InventoryTransaction, Session, log_inventory_transaction, validate_batch,
  transaction_type_for_batch, logged_reason,
}
use setuora_lite.Inventory.Submit.Claims.{
  IsFresh, IsKeyedSerials, row-claim, HasDistinctSerials, submit_item-claim, target_of,
}
use setuora_lite.Inventory.Submit.Effects.{
  submit_items-cons, claim-IsKeyedSerials, finished, apply_returns, call-cases,
}

-- A claim of one serial keeps the freshness of another.
claim_keeps-IsFresh :
    (x : LoadedItem) (t : SerialStatus) (rows : List Serial) (y : Serial)
    → nat_beq x.serial.id y.id ≡ false
    → IsFresh rows y
    → IsFresh (claim x.serial t rows).1 y
claim_keeps-IsFresh x t rows y ne fresh =
    let key : fresh.current.id ≡ y.id = row_key (λ (r : Serial). r.id) y.id rows fresh.found in
    record {
      current = fresh.current;
      found = rw (row-claim x.serial t rows y.id, fresh.found) (ground arith);
      same_status = fresh.same_status;
      still_active = fresh.still_active;
    }

claim_keeps_All :
    (x : LoadedItem) (t : SerialStatus) (rows : List Serial) (xs : List LoadedItem)
    → row (λ (y : LoadedItem). y.serial.id) x.serial.id xs ≡ none
    → All (λ y. IsFresh rows y.serial) xs
    → All (λ y. IsFresh (claim x.serial t rows).1 y.serial) xs
claim_keeps_All x t rows [] absent h = tt
claim_keeps_All x t rows (y ∷ ys) absent h =
    let ne : nat_beq x.serial.id y.serial.id ≡ false = ground arith in
    (claim_keeps-IsFresh x t rows y.serial ne h.0, claim_keeps_All x t rows ys (ground arith) h.1)

submit_item_fresh :
    (batch : Batch) (user : User) (x : LoadedItem) (s : Session)
    → IsKeyedSerials s.db.serials
    → IsFresh s.db.serials x.serial
    → (y : LoadedItem × Session) × (submit_item batch user x s ≡ (ok y.0, y.1))
unfolding submit_item claim
submit_item_fresh batch user x s keyed fresh =
    let key : fresh.current.id ≡ x.serial.id =
      row_key (λ (r : Serial). r.id) x.serial.id s.db.serials fresh.found in
    let test : (fresh.current.status == x.serial.status && fresh.current.active) ≡ true =
      rw ((status_eq.same_iff fresh.current.status x.serial.status).1 fresh.same_status)
        fresh.still_active in
    let count =
      count_of_row (λ (r : Serial). r.id) x.serial.id (λ r. r.status == x.serial.status && r.active)
        s.db.serials fresh.current keyed fresh.found test in
    elim (call-cases (submit_item batch user x s)) [
      | inl failed ↦ absurd (ground (arith, count))
      | inr ((x', s'), e) ↦ ((x', s'), e)
    ]

submit_items_step :
    (batch : Batch) (user : User) (x : LoadedItem) (xs : List LoadedItem) (s : Session)
    {x' : LoadedItem} {s1 s2 : Session} {xs' : List LoadedItem}
    → submit_item batch user x s ≡ (ok x', s1)
    → submit_items batch user xs s1 ≡ (ok xs', s2)
    → submit_items batch user (x ∷ xs) s ≡ (ok (x' ∷ xs'), s2)
unfolding submit_items
submit_items_step batch user x xs s one rest = ground arith

submit_items_fresh :
    (batch : Batch) (user : User) (xs : List LoadedItem) (s : Session)
    → is_audit batch.batch_type ≡ false
    → IsKeyedSerials s.db.serials
    → HasDistinctSerials xs
    → All (λ x. IsFresh s.db.serials x.serial) xs
    → (y : List LoadedItem × Session) × (submit_items batch user xs s ≡ (ok y.0, y.1))
unfolding submit_items
submit_items_fresh batch user [] s a keyed distinct fresh = (([], s), refl)
submit_items_fresh batch user (x ∷ xs) s a keyed distinct (fresh, later) =
    let ((x', s1), one) = submit_item_fresh batch user x s keyed fresh in
    let moved = (submit_item-claim batch user x x' s s1 a one).1 in
    let keyed1 : IsKeyedSerials s1.db.serials =
      rw moved (claim-IsKeyedSerials x (target_of batch x) s.db.serials keyed) in
    let later1 : All (λ y. IsFresh s1.db.serials y.serial) xs =
      rw moved (claim_keeps_All x (target_of batch x) s.db.serials xs distinct.0 later) in
    let ((xs', s2), rest) = submit_items_fresh batch user xs s1 a keyed1 distinct.1 later1 in
    ((x' ∷ xs', s2), submit_items_step batch user x xs s one rest)

apply_of_parts :
    (user : User) (now : ℕ) (b : Loaded) (s : Session) {items : List LoadedItem} {s' : Session}
    → validate_batch b ≡ ok tt
    → submit_items b.batch user b.items s ≡ (ok items, s')
    → (apply_batch_statuses user now b s).0
      ≡ ok (record { batch = finished now b.batch; items = items })
unfolding apply_batch_statuses
apply_of_parts user now b s valid done = ground arith

-- A batch that is no audit and passes its checks is submitted, if its items are of distinct serials,
-- the table of serials is keyed by their ids, and the row of each serial of the batch has the status
-- that it was loaded with and is active.
pub apply_succeeds :
    (user : User) (now : ℕ) (b : Loaded) (s : Session)
    → is_audit b.batch.batch_type ≡ false
    → IsKeyedSerials s.db.serials
    → HasDistinctSerials b.items
    → validate_batch b ≡ ok tt
    → All (λ x. IsFresh s.db.serials x.serial) b.items
    → (b' : Loaded) × ((apply_batch_statuses user now b s).0 ≡ ok b')
apply_succeeds user now b s a keyed distinct valid fresh =
    let ((items, s1), done) = submit_items_fresh b.batch user b.items s a keyed distinct fresh in
    (record { batch = finished now b.batch; items = items }, apply_of_parts user now b s valid done)

-- The reason that the trail gives: none for an empty one.
abbrev pub trail_reason : Option Text → Option Text
trail_reason none = none
trail_reason (some []) = none
trail_reason (some (c ∷ reason)) = some (upper (strip (c ∷ reason)))

-- The entry of the trail for one item: from the status that the serial was loaded with to the one
-- that the batch gives it.
abbrev pub trail_entry : Batch → User → LoadedItem → InventoryTransaction
trail_entry batch user x = record {
  transaction_type = transaction_type_for_batch batch.batch_type;
  serial_id = some x.serial.id;
  product_id = some x.serial.product_id;
  batch_id = some batch.id;
  user_id = user.id;
  serial_number = some x.serial.serial_number;
  status_from = some x.serial.status;
  status_to = some (target_of batch x);
  reason_code = trail_reason batch.reason_code;
  tally_reference = batch.tally_reference;
  reference_number = some batch.batch_number;
}

logged_reason_lem : (reason : Option Text) → logged_reason reason ≡ trail_reason reason
unfolding logged_reason strip_upper
logged_reason_lem none = refl
logged_reason_lem (some []) = refl
logged_reason_lem (some (c ∷ reason)) = refl

submit_item-trail :
    (batch : Batch) (user : User) (x x' : LoadedItem) (s s' : Session)
    → submit_item batch user x s ≡ (ok x', s')
    → (s'.db.transactions ≡ s.db.transactions ++ trail_entry batch user x ∷ [])
      × (length s'.db.scan_logs ≡ length s.db.scan_logs + 1)
unfolding submit_item save_item log_inventory_transaction
submit_item-trail batch user x x' s s' h =
    rw (sym (logged_reason_lem batch.reason_code)) (ground arith, grind (arith, length-snoc))

submit_items-trail :
    (batch : Batch) (user : User) (xs : List LoadedItem) {xs' : List LoadedItem} (s : Session)
    {s' : Session}
    → submit_items batch user xs s ≡ (ok xs', s')
    → (s'.db.transactions ≡ s.db.transactions ++ map (trail_entry batch user) xs)
      × (length s'.db.scan_logs ≡ length s.db.scan_logs + length xs)
submit_items-trail batch user [] s {s' = s'} h =
    let same : s' ≡ s = unfold submit_items in ground arith in
    rw (same, append-nil) (refl, omega arith)
submit_items-trail batch user (x ∷ xs) s h =
    let ((x', s1, xs''), one, rest) = submit_items-cons batch user x xs s h in
    let step = submit_item-trail batch user x x' s s1 one in
    let ih = submit_items-trail batch user xs s1 rest in
    (ih.0 ∙ rw (step.0, append_assoc) refl, omega (arith, step.1, ih.1))

-- A submission that returns appends to the trail one entry for each item, in order: it names the
-- serial, the batch and the user, goes from the status that the serial was loaded with to the one that
-- the batch gives it, and has the batch's reason stripped and in upper case, and none for an empty
-- one. It appends as many scan logs.
pub apply-trail :
    (user : User) (now : ℕ) (b b' : Loaded) (s : Session)
    → (apply_batch_statuses user now b s).0 ≡ ok b'
    → let s' = (apply_batch_statuses user now b s).1 in
      (s'.db.transactions ≡ s.db.transactions ++ map (trail_entry b.batch user) b.items)
      × (length s'.db.scan_logs ≡ length s.db.scan_logs + length b.items)
unfolding save_batch
apply-trail user now b b' s h =
    let ((items, s1), valid, done, same, after) = apply_returns user now b b' s h in
    rw after (submit_items-trail b.batch user b.items s done)

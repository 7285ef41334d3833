-- ===== src/Inventory/Scan/Calls.antt =====
-- Sequences of calls that scan, pick and remove.
use setuora_lite.Inventory.Scan.Picks.{HasKeyedSerials, picks-HasOneDraftEach}
use mathlib.Core.List.{List}
use setuora_lite.Base.{
  ℕ, [], ◌∷◌, Option, arith, inl, inr, Bool-cases, select, Option-cases, nat_eq, ◌==◌, count-select,
  find, Text, not, strip_upper, text_eq,
}
use setuora_lite.Model.{Serial}
use setuora_lite.Inventory.Errors.{Result-cases}
use setuora_lite.Inventory.Edits.{remove_batch_item, item_of_batch}
use setuora_lite.Inventory.Scan.{
  add_serial_to_batch, add_fefo_serials_to_batch, Batch, Assignment, Session, User,
  record_rejected_scan, commit_scan, Moment, is_draft, check_scan,
}
use setuora_lite.Inventory.Scan.Drafts.{
  holds, HasOneDraftEach, HasOneDraft, add_serial-HasOneDraftEach,
}

-- One call that scans, picks or removes, with whatever outcome.
pub data ScanCall : Type 0 where
  scans : Option Assignment → Batch → User → Text → Moment → ScanCall
  picks : Batch → User → (product_id quantity next_id : ℕ) → ScanCall
  removes : Batch → ℕ → ScanCall

unfoldable pub run_call : ScanCall → Session → Session
run_call (ScanCall.scans assignment batch user number m) s =
    (add_serial_to_batch assignment batch user number m s).1
run_call (ScanCall.picks batch user product_id quantity next_id) s =
    (add_fefo_serials_to_batch batch user product_id quantity next_id s).1
run_call (ScanCall.removes batch item_id) s = (remove_batch_item batch item_id s).1

unfoldable pub run_calls : List ScanCall → Session → Session
unfolding run_call
run_calls [] s = s
run_calls (c ∷ calls) s = run_calls calls (run_call c s)

removes-HasOneDraftEach :
    (batch : Batch) (item_id : ℕ) (s : Session)
    → HasKeyedSerials s
    → HasOneDraftEach s
    → HasOneDraftEach (remove_batch_item batch item_id s).1
      × HasKeyedSerials (remove_batch_item batch item_id s).1
unfolding remove_batch_item
removes-HasOneDraftEach batch item_id s keyed one =
    let less : HasOneDraft
        (record s.db { items = select (λ i. not (i.id == item_id)) s.db.items }) =
      λ k.
        omega
          (arith, one.0 k, count-select (holds s.db k) (λ i. not (i.id == item_id)) s.db.items) in
    elim (Bool-cases (is_draft batch.status)) [
      | inr closed ↦ rw closed (one, keyed)
      | inl draft ↦ elim (Option-cases (item_of_batch item_id batch s.db)) [
        | inl absent ↦ rw (draft, absent) (one, keyed)
        | inr (item, e) ↦ rw (draft, e) ((less, less), (keyed.0, keyed.0))
      ]
    ]

scans-HasKeyedSerials :
    (assignment : Option Assignment) (batch : Batch) (user : User) (number : Text) (m : Moment)
    (s : Session)
    → HasKeyedSerials s
    → HasKeyedSerials (add_serial_to_batch assignment batch user number m s).1
unfolding add_serial_to_batch record_rejected_scan commit_scan
scans-HasKeyedSerials assignment batch user number m s keyed =
    elim (Bool-cases (is_draft batch.status)) [
      | inr closed ↦ rw closed keyed
      | inl draft ↦
          elim (Option-cases
            (find (λ (r : Serial). r.serial_number == strip_upper number) s.db.serials)) [
              | inl absent ↦ rw (draft, absent) (keyed.0, keyed.0)
              | inr (serial, found) ↦
                  elim (Result-cases (check_scan assignment batch user serial m.now s.db)) [
                    | inl (e, refused) ↦ rw (draft, found, refused) (keyed.0, keyed.0)
                    | inr (u, passes) ↦ elim (Bool-cases m.raced) [
                      | inl raced ↦ rw (draft, found, passes, raced) (keyed.1, keyed.1)
                      | inr alone ↦ rw (draft, found, passes, alone) (keyed.0, keyed.0)
                    ]
                  ]
            ]
    ]

run_call-HasOneDraftEach :
    (c : ScanCall) (s : Session)
    → HasKeyedSerials s
    → HasOneDraftEach s
    → HasOneDraftEach (run_call c s) × HasKeyedSerials (run_call c s)
unfolding run_call
run_call-HasOneDraftEach (ScanCall.scans assignment batch user number m) s keyed one = (
  add_serial-HasOneDraftEach assignment batch user number m s one,
  scans-HasKeyedSerials assignment batch user number m s keyed,
)
run_call-HasOneDraftEach (ScanCall.picks batch user product_id quantity next_id) s keyed one =
    picks-HasOneDraftEach batch user product_id quantity next_id s keyed one
run_call-HasOneDraftEach (ScanCall.removes batch item_id) s keyed one =
    removes-HasOneDraftEach batch item_id s keyed one

-- Whatever units are scanned, picked by expiry and removed, in any order and with any outcome, each
-- unit stands in at most one draft batch, in the tables of the session and in the committed ones,
-- if that was so before and the serials are keyed by their ids.
pub run_calls-HasOneDraftEach :
    (calls : List ScanCall) (s : Session)
    → HasKeyedSerials s
    → HasOneDraftEach s
    → HasOneDraftEach (run_calls calls s)
unfolding run_calls
run_calls-HasOneDraftEach [] s keyed one = one
run_calls-HasOneDraftEach (c ∷ calls) s keyed one =
    let (one', keyed') = run_call-HasOneDraftEach c s keyed one in
    run_calls-HasOneDraftEach calls (run_call c s) keyed' one'

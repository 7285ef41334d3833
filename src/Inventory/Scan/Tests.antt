-- ===== src/Inventory/Scan/Tests.antt =====
-- A sale that takes the unit that expires first, and then another.
use setuora_lite.Base.{refl, [], ◌∷◌, some, ◌≡◌, codes, none, true, false, List, arith, ◌⊎◌}
use setuora_lite.Model.{Serial, Batch, Session, BatchStatus, BatchType, SerialStatus-discrete}
use setuora_lite.Samples.{clerk, batch_of, expiring, shop_of}
use setuora_lite.Inventory.Fefo.{
  validate_fefo_scan, is_candidate, statuses_or_stock, expires_before, is_fefo_type,
  fefo_available_statuses, fefo_candidate_serials, order_by_expiry, insert_serial, comes_first,
  is_in_draft, is_draft_item,
}
use setuora_lite.Inventory.Fefo.Turn.{fefo_scan_lem, NoneBefore, rivals}
use setuora_lite.Inventory.Scan.Drafts.{HasOneDraftEach}
use setuora_lite.Inventory.Scan.Calls.{ScanCall, run_calls, run_calls-HasOneDraftEach}

abbrev sale : Batch
sale = batch_of 5 BatchType.sale BatchStatus.draft

abbrev shop : Session
shop = shop_of (expiring 1 (some 90) ∷ expiring 2 (some 30) ∷ expiring 3 none ∷ []) []

fefo_names_2 : validate_fefo_scan shop.db sale (expiring 1 (some 90)) ≡ some (expiring 2 (some 30))
unfolding validate_fefo_scan fefo_available_statuses is_fefo_type fefo_candidate_serials
    order_by_expiry insert_serial comes_first is_candidate statuses_or_stock expires_before
    is_in_draft is_draft_item SerialStatus-discrete
fefo_names_2 = refl

fefo_scan_lem_example :
    ((validate_fefo_scan shop.db sale (expiring 1 (some 90)) ≡ none)
      × NoneBefore (some 90) (rivals shop.db sale (expiring 1 (some 90))))
    ⊎ ((e : Serial) × (validate_fefo_scan shop.db sale (expiring 1 (some 90)) ≡ some e)
        × (is_candidate shop.db 1 (statuses_or_stock (fefo_available_statuses BatchType.sale)) e
            ≡ true)
        × (expires_before e.expiry_date (some 90) ≡ true)
        × NoneBefore e.expiry_date (rivals shop.db sale (expiring 1 (some 90))))
unfolding is_fefo_type fefo_available_statuses SerialStatus-discrete
fefo_scan_lem_example =
    fefo_scan_lem shop.db sale (expiring 1 (some 90)) (refl, (refl, (refl, tt))) refl refl refl

abbrev calls : List ScanCall
calls =
    ScanCall.picks sale clerk 1 1 7
    ∷ ScanCall.scans none sale clerk (codes "r-1") (record { now = 0; next_id = 8; raced = false })
    ∷ ScanCall.removes sale 7
    ∷ []

run_calls-HasOneDraftEach_example : HasOneDraftEach (run_calls calls shop)
run_calls-HasOneDraftEach_example =
    run_calls-HasOneDraftEach calls shop ((refl, (refl, (refl, tt))), (refl, (refl, (refl, tt))))
      (λ k. omega arith, λ k. omega arith)

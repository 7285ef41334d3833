-- ===== src/Inventory/Assignment.antt =====
-- Timed audits that one auditor is given (app/services/audit.py): the state of an assignment, and
-- the check of a scan against it. Times are numbers of seconds in UTC.
use setuora_lite.Base.{ℕ, Option, none, some, nat_eq, if◌then◌else◌, ltb, ◌&&◌, leb, not, ◌==◌}
use setuora_lite.Model.{User, Serial}
use setuora_lite.Inventory.Errors.{ok, Result, raise_if, InventoryError, ◌>>◌}

pub record Assignment : Type 0 where
  pub id : ℕ
  pub product_id : ℕ
  pub auditor_id : ℕ
  pub assigned_by_id : ℕ
  pub starts_at : ℕ
  pub ends_at : ℕ

pub data AssignmentState : Type 0 where
  complete upcoming active expired : AssignmentState

unfoldable pub audit_assignment_state : Assignment → ℕ → ℕ → ℕ → AssignmentState
audit_assignment_state assignment moment verified expected =
    if ltb 0 expected && leb expected verified
    then AssignmentState.complete
    else if ltb moment assignment.starts_at
    then AssignmentState.upcoming
    else if leb moment assignment.ends_at
    then AssignmentState.active
    else AssignmentState.expired

-- `none` is a batch without an assignment.
unfoldable pub validate_assignment_scan : Option Assignment → User → Serial → ℕ → Result (Unit {0})
validate_assignment_scan none user serial moment = ok tt
validate_assignment_scan (some assignment) user serial moment =
    raise_if (not (user.id == assignment.auditor_id)) InventoryError.another_auditor
    >> raise_if (ltb moment assignment.starts_at) InventoryError.not_started
    >> raise_if (ltb assignment.ends_at moment) InventoryError.ended
    >> raise_if (not (serial.product_id == assignment.product_id)) InventoryError.wrong_product

-- ===== src/Access/Table.antt =====
-- The rows of the access table (`access_section_definitions`), without their labels and notes.
use setuora_lite.Access.{
  AccessRow, access_row, OptionSet, all_operational, defaults_for, AccessValue, for_admin,
  with_auditor,
}
use setuora_lite.Base.{[], ◌∷◌, nat_eq, text_eq, List, ◌++◌, codes}
use setuora_lite.Model.{Role}

unfoldable pub pages : List AccessRow
pages =
    access_row (codes "page_dashboard") OptionSet.page
      (all_operational OptionSet.page AccessValue.shown)
    ∷ access_row (codes "page_batches") OptionSet.page
        (all_operational OptionSet.page AccessValue.shown)
    ∷ access_row (codes "page_warehouse") OptionSet.page (
        defaults_for OptionSet.page AccessValue.shown
          (Role.admin ∷ Role.warehouse_manager ∷ Role.auditor ∷ []))
    ∷ access_row (codes "page_serials") OptionSet.page
        (all_operational OptionSet.page AccessValue.shown)
    ∷ access_row (codes "page_reports") OptionSet.page
        (defaults_for OptionSet.page AccessValue.shown (Role.admin ∷ Role.directors ∷ []))
    ∷ access_row (codes "page_stock_movement") OptionSet.page
        (defaults_for OptionSet.page AccessValue.shown (Role.admin ∷ Role.warehouse_manager ∷ []))
    ∷ access_row (codes "page_tally_check") OptionSet.page
        (for_admin OptionSet.page AccessValue.shown)
    ∷ access_row (codes "page_barcodes") OptionSet.page
        (defaults_for OptionSet.page AccessValue.shown (Role.admin ∷ Role.purchase ∷ []))
    ∷ access_row (codes "page_admin_menu") OptionSet.page
        (for_admin OptionSet.page AccessValue.shown)
    ∷ access_row (codes "page_products") OptionSet.page (for_admin OptionSet.page AccessValue.shown)
    ∷ access_row (codes "page_expiry") OptionSet.page (for_admin OptionSet.page AccessValue.shown)
    ∷ access_row (codes "page_settings") OptionSet.page (for_admin OptionSet.page AccessValue.shown)
    ∷ access_row (codes "page_role_access") OptionSet.page
        (defaults_for OptionSet.page AccessValue.shown [])
    ∷ access_row (codes "page_maintenance") OptionSet.page
        (for_admin OptionSet.page AccessValue.shown)
    ∷ access_row (codes "page_users") OptionSet.page (for_admin OptionSet.page AccessValue.shown)
    ∷ []

unfoldable pub actions : List AccessRow
actions =
    access_row (codes "batch_purchase") OptionSet.action
      (defaults_for OptionSet.action AccessValue.edit (Role.admin ∷ Role.purchase ∷ []))
    ∷ access_row (codes "batch_sale") OptionSet.action
        (defaults_for OptionSet.action AccessValue.edit (Role.admin ∷ Role.sales ∷ []))
    ∷ access_row (codes "batch_audit") OptionSet.action
        (defaults_for OptionSet.action AccessValue.edit (Role.admin ∷ Role.auditor ∷ []))
    ∷ access_row (codes "audit_assignment_manage") OptionSet.data_area (
        with_auditor AccessValue.view
          (defaults_for OptionSet.data_area AccessValue.edit (Role.admin ∷ Role.directors ∷ [])))
    ∷ access_row (codes "batch_sales_return") OptionSet.action
        (defaults_for OptionSet.action AccessValue.edit (Role.admin ∷ Role.sales ∷ []))
    ∷ access_row (codes "batch_purchase_return") OptionSet.action
        (defaults_for OptionSet.action AccessValue.edit (Role.admin ∷ Role.purchase ∷ []))
    ∷ access_row (codes "batch_issue") OptionSet.action
        (for_admin OptionSet.action AccessValue.edit)
    ∷ access_row (codes "stock_relocation") OptionSet.action (
        defaults_for OptionSet.action AccessValue.edit
          (Role.admin ∷ Role.warehouse_manager ∷ Role.auditor ∷ []))
    ∷ access_row (codes "location_manage") OptionSet.action
        (defaults_for OptionSet.action AccessValue.edit (Role.admin ∷ Role.warehouse_manager ∷ []))
    ∷ access_row (codes "manual_serial_entry") OptionSet.action
        (for_admin OptionSet.action AccessValue.edit)
    ∷ access_row (codes "fefo_pick") OptionSet.action (
        defaults_for OptionSet.action AccessValue.edit
          (Role.admin ∷ Role.purchase ∷ Role.sales ∷ []))
    ∷ access_row (codes "tally_xml") OptionSet.action (for_admin OptionSet.action AccessValue.yes)
    ∷ access_row (codes "tally_excel_export") OptionSet.action
        (for_admin OptionSet.action AccessValue.yes)
    ∷ access_row (codes "tally_sync_retry") OptionSet.action
        (for_admin OptionSet.action AccessValue.yes)
    ∷ access_row (codes "product_create") OptionSet.action
        (for_admin OptionSet.action AccessValue.edit)
    ∷ access_row (codes "barcode_assignment") OptionSet.action
        (defaults_for OptionSet.action AccessValue.edit (Role.admin ∷ Role.purchase ∷ []))
    ∷ access_row (codes "barcode_replacement") OptionSet.action
        (for_admin OptionSet.action AccessValue.edit)
    ∷ access_row (codes "reports_export") OptionSet.action
        (for_admin OptionSet.action AccessValue.yes)
    ∷ access_row (codes "stock_movement_export") OptionSet.action
        (defaults_for OptionSet.action AccessValue.yes (Role.admin ∷ Role.warehouse_manager ∷ []))
    ∷ access_row (codes "tally_check_edit") OptionSet.action
        (for_admin OptionSet.action AccessValue.edit)
    ∷ access_row (codes "settings_edit") OptionSet.action
        (for_admin OptionSet.action AccessValue.edit)
    ∷ access_row (codes "role_access_edit") OptionSet.action
        (defaults_for OptionSet.action AccessValue.edit [])
    ∷ access_row (codes "users_manage") OptionSet.action
        (for_admin OptionSet.action AccessValue.edit)
    ∷ access_row (codes "backup_download") OptionSet.action
        (for_admin OptionSet.action AccessValue.yes)
    ∷ access_row (codes "database_reset") OptionSet.action
        (defaults_for OptionSet.action AccessValue.yes [])
    ∷ []

unfoldable pub data_areas : List AccessRow
data_areas =
    access_row (codes "dashboard_data") OptionSet.data_area
      (all_operational OptionSet.data_area AccessValue.view)
    ∷ access_row (codes "product_master") OptionSet.data_area
        (all_operational OptionSet.data_area AccessValue.view)
    ∷ access_row (codes "serial_data") OptionSet.data_area
        (all_operational OptionSet.data_area AccessValue.view)
    ∷ access_row (codes "label_files") OptionSet.data_area (
        defaults_for OptionSet.data_area AccessValue.view
          (Role.admin ∷ Role.purchase ∷ Role.sales ∷ Role.auditor ∷ []))
    ∷ access_row (codes "batch_list") OptionSet.data_area
        (all_operational OptionSet.data_area AccessValue.view)
    ∷ access_row (codes "purchase_data") OptionSet.data_area
        (defaults_for OptionSet.data_area AccessValue.workflow (Role.admin ∷ Role.purchase ∷ []))
    ∷ access_row (codes "sales_data") OptionSet.data_area
        (defaults_for OptionSet.data_area AccessValue.workflow (Role.admin ∷ Role.sales ∷ []))
    ∷ access_row (codes "audit_data") OptionSet.data_area
        (defaults_for OptionSet.data_area AccessValue.workflow (Role.admin ∷ Role.auditor ∷ []))
    ∷ access_row (codes "issue_data") OptionSet.data_area
        (for_admin OptionSet.data_area AccessValue.edit)
    ∷ access_row (codes "warehouse_data") OptionSet.data_area (
        defaults_for OptionSet.data_area AccessValue.view
          (Role.admin ∷ Role.warehouse_manager ∷ Role.auditor ∷ []))
    ∷ access_row (codes "reports_data") OptionSet.data_area
        (defaults_for OptionSet.data_area AccessValue.view (Role.admin ∷ Role.directors ∷ []))
    ∷ access_row (codes "stock_movement_data") OptionSet.data_area (
        defaults_for OptionSet.data_area AccessValue.view
          (Role.admin ∷ Role.warehouse_manager ∷ []))
    ∷ access_row (codes "expiry_analytics") OptionSet.data_area
        (for_admin OptionSet.data_area AccessValue.view)
    ∷ access_row (codes "tally_settings") OptionSet.data_area
        (for_admin OptionSet.data_area AccessValue.edit)
    ∷ access_row (codes "tally_attempts") OptionSet.data_area
        (for_admin OptionSet.data_area AccessValue.view)
    ∷ access_row (codes "user_accounts") OptionSet.data_area
        (for_admin OptionSet.data_area AccessValue.edit)
    ∷ access_row (codes "backup_data") OptionSet.data_area
        (for_admin OptionSet.data_area AccessValue.view)
    ∷ []

unfoldable pub definitions : List AccessRow
unfolding pages actions data_areas
definitions = pages ++ (actions ++ data_areas)

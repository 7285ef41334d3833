-- ===== src/Access/Landing.antt =====
-- The page where a user lands (`landing_path_for`): the first that the user may open.
use setuora_lite.Access.{is_super_admin, is_denied}
use setuora_lite.Access.Config.{
  configured_role_has_access, ConfigRow, any_allowed, configured_access_value,
}
use setuora_lite.Base.{
  [], ◌∷◌, nat_eq, text_eq, Text, List, Bool, codes, find, none, some, ◌≡◌, ◌&&◌, if◌then◌else◌,
  All, true, refl, is_some, false, ◌⊎◌, arith, Option-cases, inl, inr, Bool-cases, ◌++◌, ◌≢◌, ap,
}
use setuora_lite.Model.{Role}

pub record Destination : Type 0 where
  pub page_key : Text
  pub permission_key : Text
  pub path : Text

abbrev pub destination : Text → Text → Text → Destination
destination page_key permission_key path = record {
  page_key = page_key;
  permission_key = permission_key;
  path = path;
}

unfoldable pub destinations : List Destination
destinations =
    destination (codes "page_dashboard") (codes "dashboard_data") (codes "/")
    ∷ destination (codes "page_batches") (codes "batch_list") (codes "/batches")
    ∷ destination (codes "page_batches") (codes "batch_purchase")
        (codes "/batches/new?batch_type=PURCHASE")
    ∷ destination (codes "page_batches") (codes "batch_sale") (codes "/batches/new?batch_type=SALE")
    ∷ destination (codes "page_batches") (codes "batch_audit")
        (codes "/batches/new?batch_type=AUDIT")
    ∷ destination (codes "page_warehouse") (codes "stock_relocation") (codes "/warehouse/move")
    ∷ destination (codes "page_warehouse") (codes "warehouse_data") (codes "/warehouse/history")
    ∷ destination (codes "page_serials") (codes "serial_data") (codes "/serials")
    ∷ destination (codes "page_reports") (codes "reports_data") (codes "/reports")
    ∷ destination (codes "page_stock_movement") (codes "stock_movement_data")
        (codes "/stock-movement")
    ∷ destination (codes "page_tally_check") (codes "tally_check_edit") (codes "/tally-check")
    ∷ destination (codes "page_barcodes") (codes "barcode_assignment") (codes "/barcode-assignment")
    ∷ destination (codes "page_barcodes") (codes "barcode_replacement")
        (codes "/barcode-replacement")
    ∷ destination (codes "page_products") (codes "product_master") (codes "/products")
    ∷ destination (codes "page_expiry") (codes "expiry_analytics") (codes "/expiry")
    ∷ destination (codes "page_settings") (codes "settings_edit") (codes "/settings")
    ∷ destination (codes "page_maintenance") (codes "backup_data") (codes "/maintenance")
    ∷ destination (codes "page_users") (codes "users_manage") (codes "/users")
    ∷ []

-- `can(page_key) and can(permission_key)`
abbrev pub can_open : List ConfigRow → List Role → Destination → Bool
can_open config roles d =
    configured_role_has_access config roles d.page_key none
    && configured_role_has_access config roles d.permission_key none

unfoldable pub landing_path_for : List ConfigRow → List Role → Text
unfolding destinations
landing_path_for config roles = elim (find (can_open config roles) destinations) [
  | some d ↦ d.path
  | none ↦
      if is_some (find is_super_admin roles)
      then codes "/settings/access"
      else codes "/account/password"
]

-- The page or the permission is closed to the user.
abbrev pub IsClosed : List ConfigRow → List Role → Destination → Type 0
IsClosed config roles d =
    (configured_role_has_access config roles d.page_key none ≡ false)
    ⊎ (configured_role_has_access config roles d.permission_key none ≡ false)

abbrev pub IsOpen : List ConfigRow → List Role → Destination → Type 0
IsOpen config roles d =
    (configured_role_has_access config roles d.page_key none ≡ true)
    × (configured_role_has_access config roles d.permission_key none ≡ true)

IsClosed-of_test :
    (config : List ConfigRow) (roles : List Role) (d : Destination)
    → can_open config roles d ≡ false
    → IsClosed config roles d
IsClosed-of_test config roles d h =
    elim (Bool-cases (configured_role_has_access config roles d.page_key none)) [
      | inl page ↦ inr (ground arith)
      | inr closed ↦ inl closed
    ]

All-IsClosed :
    (config : List ConfigRow) (roles : List Role) (ds : List Destination)
    → find (can_open config roles) ds ≡ none
    → All (IsClosed config roles) ds
All-IsClosed config roles [] h = tt
All-IsClosed config roles (d ∷ ds) h =
    (IsClosed-of_test config roles d (ground arith), All-IsClosed config roles ds (ground arith))

-- The place of the first open destination.
first-IsOpen :
    (config : List ConfigRow) (roles : List Role) (ds : List Destination) {d : Destination}
    → find (can_open config roles) ds ≡ some d
    → (y : List Destination × List Destination) × (ds ≡ y.0 ++ d ∷ y.1)
      × All (IsClosed config roles) y.0
      × IsOpen config roles d
first-IsOpen config roles [] h = absurd (ground arith)
first-IsOpen config roles (c ∷ ds) {d = d} h = elim (Bool-cases (can_open config roles c)) [
  | inl here ↦
      let same : d ≡ c = ground arith in
      (([], ds), ground arith, tt, rw same (ground arith, ground arith))
  | inr later ↦
      let ((before, after), parts, closed, opened) = first-IsOpen config roles ds (ground arith) in
      (
        (c ∷ before, after),
        ap (λ ds. c ∷ ds) parts,
        (IsClosed-of_test config roles c later, closed),
        opened,
      )
]

-- A super admin may open anything.
closed_to_super_admin :
    (config : List ConfigRow) (roles : List Role) (key : Text)
    → configured_role_has_access config roles key none ≡ false
    → All (λ r. r ≢ Role.super_admin) roles
unfolding configured_role_has_access any_allowed configured_access_value is_denied
closed_to_super_admin config [] key h = tt
closed_to_super_admin config (r ∷ roles) key h =
    (λ top. absurd (ground (arith, top)), closed_to_super_admin config roles key (ground arith))

no_super_admin :
    (roles : List Role)
    → All (λ r. r ≢ Role.super_admin) roles
    → is_some (find is_super_admin roles) ≡ false
no_super_admin [] h = refl
no_super_admin (Role.super_admin ∷ roles) h = absurd (h.0 refl)
no_super_admin (Role.admin ∷ roles) h = no_super_admin roles h.1
no_super_admin (Role.directors ∷ roles) h = no_super_admin roles h.1
no_super_admin (Role.warehouse_manager ∷ roles) h = no_super_admin roles h.1
no_super_admin (Role.purchase ∷ roles) h = no_super_admin roles h.1
no_super_admin (Role.sales ∷ roles) h = no_super_admin roles h.1
no_super_admin (Role.auditor ∷ roles) h = no_super_admin roles h.1

destinations-no_super_admin :
    (config : List ConfigRow) (roles : List Role)
    → All (IsClosed config roles) destinations
    → All (λ r. r ≢ Role.super_admin) roles
unfolding destinations
destinations-no_super_admin config roles (first, others) = elim first [
  | inl page ↦ closed_to_super_admin config roles (codes "page_dashboard") page
  | inr permission ↦ closed_to_super_admin config roles (codes "dashboard_data") permission
]

-- A user lands on the first destination, in the listed order, whose page and permission are both open
-- to the user: each destination before it has its page or its permission closed. If every destination
-- is closed so, then no role of the user is the super admin's, and the user lands on the change of the
-- password.
pub landing_path_for_lem :
    (config : List ConfigRow) (roles : List Role)
    → ((before : List Destination) × (d : Destination) × (after : List Destination) × (destinations
          ≡ before ++ d ∷ after)
        × All (IsClosed config roles) before
        × IsOpen config roles d
        × (landing_path_for config roles ≡ d.path))
      ⊎ (All (IsClosed config roles) destinations
          × All (λ r. r ≢ Role.super_admin) roles
          × (landing_path_for config roles ≡ codes "/account/password"))
unfolding landing_path_for
landing_path_for_lem config roles =
    elim (Option-cases (find (can_open config roles) destinations)) [
      | inl none_open ↦
          let closed = All-IsClosed config roles destinations none_open in
          let low = destinations-no_super_admin config roles closed in
          inr (closed, low, rw (none_open, no_super_admin roles low, landing_path_for) refl)
      | inr (d, found) ↦
          let ((before, after), parts, closed, opened) =
            first-IsOpen config roles destinations found in
          inl (before, d, after, parts, closed, opened, rw (found, landing_path_for) refl)
    ]

-- ===== src/Access/Tests.antt =====
-- A configuration that tries to open what is locked, and the theorems at concrete inputs.
use setuora_lite.Access.Decisions.{configured_role_has_access-locked}
use setuora_lite.Access.Options.{IsOption, normalize_role_access_config-IsOption}
use setuora_lite.Access.Landing.{
  Destination, destinations, landing_path_for, landing_path_for_lem, IsClosed, IsOpen,
}
use setuora_lite.Access.Config.{configured_role_has_access, ConfigRow, normalize_role_access_config}
use setuora_lite.Sync.Inbox.{get_or}
use setuora_lite.Access.{
  is_denied, is_admin_only, option_values, value_text, role_text, is_super_admin_only,
}
use setuora_lite.Access.Table.{definitions}
use setuora_lite.Sync.Json.{has_key, get, Json, field, end}
use setuora_lite.Base.{
  strip, [], ◌∷◌, nat_eq, text_eq, List, All, Text, Text-discrete, codes, ◌≡◌, none, true, false,
  refl, ◌⊎◌, ◌++◌, ◌≢◌,
}
use setuora_lite.Model.{Role}

abbrev str_of : Json → Text
str_of (Json.str s) = s
str_of _ = []

-- The database reset for the sales role, and the sale of batches taken from it.
abbrev raw : Json
raw = Json.obj (
    field (codes "database_reset") (Json.obj (field (codes "sales") (Json.str (codes "yes")) end)) (
      field (codes "batch_sale") (Json.obj (field (codes "sales") (Json.str (codes "no")) end))
        end))

abbrev config : List ConfigRow
config = normalize_role_access_config str_of raw

normalize_role_access_config-IsOption_example : All (IsOption Role.sales) config
normalize_role_access_config-IsOption_example =
    normalize_role_access_config-IsOption str_of raw Role.sales

-- The row of the serials typed in by hand, given to the sales role.
abbrev typed_serials : Json
typed_serials = Json.obj (
    field (codes "manual_serial_entry")
      (Json.obj (field (codes "sales") (Json.str (codes "edit")) end)) end)

manual_serial_entry_is_configurable :
    configured_role_has_access
      (normalize_role_access_config str_of typed_serials)
      (Role.sales ∷ [])
      (codes "manual_serial_entry")
      none
    ≡ true
unfolding configured_role_has_access normalize_role_access_config is_denied definitions
    Text-discrete is_admin_only is_super_admin_only option_values value_text strip get_or has_key
    role_text get
manual_serial_entry_is_configurable = refl

reset_is_locked : is_super_admin_only (codes "database_reset") ≡ true
unfolding is_super_admin_only Text-discrete
reset_is_locked = refl

configured_role_has_access-locked_example :
    configured_role_has_access config (Role.sales ∷ Role.admin ∷ []) (codes "database_reset") none
    ≡ false
configured_role_has_access-locked_example =
    configured_role_has_access-locked str_of raw (Role.sales ∷ Role.admin ∷ [])
      (codes "database_reset") none reset_is_locked (refl, (refl, tt))

landing_path_for_lem_example :
    let roles = Role.auditor ∷ [] in
    ((before : List Destination) × (d : Destination) × (after : List Destination) × (destinations
        ≡ before ++ d ∷ after)
      × All (IsClosed config roles) before
      × IsOpen config roles d
      × (landing_path_for config roles ≡ d.path))
    ⊎ (All (IsClosed config roles) destinations
        × All (λ r. r ≢ Role.super_admin) roles
        × (landing_path_for config roles ≡ codes "/account/password"))
landing_path_for_lem_example = landing_path_for_lem config (Role.auditor ∷ [])

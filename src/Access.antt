-- ===== src/Access.antt =====
-- The values, the rows and the columns of the access table (app/services/access_control.py).
pub mod Table
pub mod Config
pub mod Locks
pub mod Decisions
pub mod Options
pub mod Landing
mod Tests
use setuora_lite.Base.{
  [], ◌∷◌, zero, suc, nat_eq, text_eq, Text, List, Bool, codes, true, ◌==◌, false, if◌then◌else◌,
  one_of, ◌||◌,
}
use setuora_lite.Model.{Role}

pub data AccessValue : Type 0 where
  shown hidden edit yes view workflow no : AccessValue

unfoldable pub value_text : AccessValue → Text
value_text AccessValue.shown = codes "shown"
value_text AccessValue.hidden = codes "hidden"
value_text AccessValue.edit = codes "edit"
value_text AccessValue.yes = codes "yes"
value_text AccessValue.view = codes "view"
value_text AccessValue.workflow = codes "workflow"
value_text AccessValue.no = codes "no"

-- `PAGE_OPTIONS`, `ACTION_OPTIONS` and `DATA_OPTIONS`
pub data OptionSet : Type 0 where
  page action data_area : OptionSet

unfoldable pub option_values : OptionSet → List AccessValue
option_values OptionSet.page = AccessValue.shown ∷ AccessValue.hidden ∷ []
option_values OptionSet.action = AccessValue.edit ∷ AccessValue.yes ∷ AccessValue.no ∷ []
option_values OptionSet.data_area =
    AccessValue.edit ∷ AccessValue.view ∷ AccessValue.workflow ∷ AccessValue.no ∷ []

-- `"hidden" if options == PAGE_OPTIONS else "no"`
unfoldable pub denied : OptionSet → AccessValue
denied OptionSet.page = AccessValue.hidden
denied _ = AccessValue.no

-- `DENY_VALUES`
unfoldable pub is_denied : AccessValue → Bool
is_denied AccessValue.hidden = true
is_denied AccessValue.no = true
is_denied _ = false

abbrev pub is_super_admin : Role → Bool
is_super_admin Role.super_admin = true
is_super_admin _ = false

-- The values of `Role`
unfoldable pub role_text : Role → Text
role_text Role.super_admin = codes "super_admin"
role_text Role.admin = codes "admin"
role_text Role.directors = codes "directors"
role_text Role.warehouse_manager = codes "warehouse_manager"
role_text Role.purchase = codes "purchase"
role_text Role.sales = codes "sales"
role_text Role.auditor = codes "auditor"

unfoldable pub same_role : Role → Role → Bool
unfolding role_text
same_role a b = role_text a == role_text b

pub record AccessRow : Type 0 where
  pub key : Text
  pub options : OptionSet
  pub defaults : Role → AccessValue

abbrev pub access_row : Text → OptionSet → (Role → AccessValue) → AccessRow
access_row key options defaults = record { key = key; options = options; defaults = defaults }

unfoldable pub is_among : Role → List Role → Bool
unfolding same_role
is_among role [] = false
is_among role (r ∷ roles) = same_role role r || is_among role roles

-- `_defaults`
unfoldable pub defaults_for : OptionSet → AccessValue → List Role → Role → AccessValue
unfolding is_among denied
defaults_for options allowed_value allowed_roles role =
    if is_super_admin role || is_among role allowed_roles then allowed_value else denied options

-- `_all_operational` and `_admin`
unfoldable pub all_operational : OptionSet → AccessValue → Role → AccessValue
unfolding defaults_for
all_operational options value =
    defaults_for options value
      (Role.admin ∷ Role.warehouse_manager ∷ Role.purchase ∷ Role.sales ∷ Role.auditor ∷ [])

unfoldable pub for_admin : OptionSet → AccessValue → Role → AccessValue
unfolding defaults_for
for_admin options value = defaults_for options value (Role.admin ∷ [])

-- `{**defaults, Role.AUDITOR.value: value}`
unfoldable pub with_auditor : AccessValue → (Role → AccessValue) → Role → AccessValue
with_auditor value defaults Role.auditor = value
with_auditor value defaults role = defaults role

-- `SUPER_ADMIN_ONLY_KEYS` and `ADMIN_ONLY_KEYS`
unfoldable pub is_super_admin_only : Text → Bool
is_super_admin_only key =
    one_of key (codes "page_role_access" ∷ codes "role_access_edit" ∷ codes "database_reset" ∷ [])

unfoldable pub is_admin_only : Text → Bool
is_admin_only key = one_of key (codes "tally_excel_export" ∷ [])

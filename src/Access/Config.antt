-- ===== src/Access/Config.antt =====
-- The configured table: `normalize_role_access_config`, and the decisions that read it.
use setuora_lite.Access.{
  AccessRow, OptionSet, AccessValue, is_super_admin, is_admin_only, is_super_admin_only, value_text,
  denied, option_values, role_text, is_denied,
}
use setuora_lite.Base.{
  [], ◌∷◌, nat_eq, text_eq, List, Text, if◌then◌else◌, map, Option, update_where, Bool, find,
  or_else, ◌==◌, named, false, strip, none, not, true, some, ◌&&◌, ◌||◌, is_empty,
}
use setuora_lite.Model.{Role}
use setuora_lite.Sync.Json.{Json, Fields}
use setuora_lite.Sync.Inbox.{get_or, as_fields}
use setuora_lite.Access.Table.{definitions}

-- A row of the table with its configured values: `config[key]` beside `definitions[key]`.
pub record ConfigRow : Type 0 where
  pub definition : AccessRow
  pub values : Role → AccessValue

unfoldable pub default_role_access_config : List ConfigRow
default_role_access_config =
    map (λ (d : AccessRow). record { definition = d; values = d.defaults }) definitions

-- `_valid_option`, with the option that the text names.
unfoldable pub valid_option : OptionSet → Text → Option AccessValue
valid_option options value = find (λ v. value_text v == value) (option_values options)

-- The values that a dict of the raw configuration gives to a row. `str` is Python's.
unfoldable pub merge_values : (Json → Text) → Fields → ConfigRow → ConfigRow
unfolding valid_option
merge_values str row_values c = record c {
  values = λ role.
      if is_super_admin role
      then c.values role
      else or_else
          (valid_option c.definition.options
            (strip (str (get_or (role_text role) (Json.str []) row_values))))
          (c.values role);
}

unfoldable pub merge_config : (Json → Text) → Fields → List ConfigRow → List ConfigRow
unfolding merge_values
merge_config str Fields.end config = config
merge_config str (Fields.field row_key value rest) config =
    merge_config str rest (elim (as_fields value) [
      | none ↦ config
      | some row_values ↦
          update_where (λ (c : ConfigRow). c.definition.key == row_key)
            (merge_values str row_values) config
    ])

-- The second loop: what no configuration changes.
unfoldable pub lock_row : ConfigRow → ConfigRow
lock_row c = record c {
  values = λ role.
      if is_admin_only c.definition.key
      then c.definition.defaults role
      else if is_super_admin role
      then c.definition.defaults role
      else if is_super_admin_only c.definition.key
      then denied c.definition.options
      else c.values role;
}

unfoldable pub normalize_role_access_config : (Json → Text) → Json → List ConfigRow
unfolding default_role_access_config merge_config lock_row
normalize_role_access_config str raw_config =
    map lock_row
      (merge_config str (or_else (as_fields raw_config) Fields.end) default_role_access_config)

-- The text of the setting, and `json.loads` (`none` if it raises).
unfoldable pub get_role_access_config : (Json → Text) → (Text → Option Json) → Text → List ConfigRow
get_role_access_config str loads raw =
    if is_empty raw then default_role_access_config else elim (loads raw) [
      | none ↦ default_role_access_config
      | some parsed ↦ normalize_role_access_config str parsed
    ]

-- `config.get(access_key, {}).get(role_value, "no")`, and "edit" for a super admin.
unfoldable pub configured_access_value : List ConfigRow → Text → Role → AccessValue
configured_access_value config access_key role =
    if is_super_admin role
    then AccessValue.edit
    else elim (named (λ (c : ConfigRow). c.definition.key) access_key config) [
      | none ↦ AccessValue.no
      | some c ↦ c.values role
    ]

-- `allowed_values` is none, or a set that is asked for each value. The roles of a user are
-- `normalize_role_values` of its column.
unfoldable pub any_allowed : (AccessValue → Bool) → List AccessValue → Bool
any_allowed allowed [] = false
any_allowed allowed (v ∷ values) = (not (is_denied v) && allowed v) || any_allowed allowed values

unfoldable pub configured_role_has_access :
    List ConfigRow → List Role → Text → Option (AccessValue → Bool) → Bool
unfolding any_allowed configured_access_value
configured_role_has_access config roles access_key allowed_values =
    any_allowed (or_else allowed_values (λ v. true))
      (map (configured_access_value config access_key) roles)

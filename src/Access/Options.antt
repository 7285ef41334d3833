-- ===== src/Access/Options.antt =====
-- The values of the configured table and the options of their rows.
use setuora_lite.Access.Config.{
  ConfigRow, default_role_access_config, valid_option, merge_values, merge_config, lock_row,
  normalize_role_access_config,
}
use setuora_lite.Access.{
  AccessValue, OptionSet, value_text, defaults_for, all_operational, for_admin, is_super_admin,
  with_auditor, option_values, role_text, denied,
}
use setuora_lite.Base.{
  [], ◌∷◌, nat_eq, text_eq, ◌≡◌, Bool, true, Text-discrete, All, ◌&&◌, List, Text, all, some,
  Bool-cases, update_where, arith, inl, inr, ◌==◌, strip, refl, Option-cases, map, or_else, false,
  find,
}
use setuora_lite.Model.{Role}
use setuora_lite.Sync.Json.{Json, Fields}
use setuora_lite.Sync.Inbox.{get_or, as_fields}
use setuora_lite.Access.Table.{definitions}

-- The choices of each kind of row: whether a page is shown, what a user may do, and what part of the
-- data a user works with.
abbrev pub is_option : AccessValue → OptionSet → Bool
is_option AccessValue.shown OptionSet.page = true
is_option AccessValue.hidden OptionSet.page = true
is_option AccessValue.edit OptionSet.action = true
is_option AccessValue.yes OptionSet.action = true
is_option AccessValue.no OptionSet.action = true
is_option AccessValue.edit OptionSet.data_area = true
is_option AccessValue.view OptionSet.data_area = true
is_option AccessValue.workflow OptionSet.data_area = true
is_option AccessValue.no OptionSet.data_area = true
is_option _ _ = false

abbrev pub has_option : Role → ConfigRow → Bool
has_option role c =
    is_option (c.values role) c.definition.options
    && is_option (c.definition.defaults role) c.definition.options

-- The value that the row has for the role, and its default, are choices of the row's kind.
abbrev pub IsOption : Role → ConfigRow → Type 0
IsOption role c = has_option role c ≡ true

IsOption-all :
    (role : Role) (config : List ConfigRow)
    → all (has_option role) config ≡ true
    → All (IsOption role) config
IsOption-all role [] h = tt
IsOption-all role (c ∷ config) h = (ground arith, IsOption-all role config (ground arith))

defaults_are_options : (role : Role) → all (has_option role) default_role_access_config ≡ true
unfolding default_role_access_config definitions valid_option Text-discrete defaults_for
    all_operational for_admin with_auditor option_values value_text
defaults_are_options Role.super_admin = refl
defaults_are_options Role.admin = refl
defaults_are_options Role.directors = refl
defaults_are_options Role.warehouse_manager = refl
defaults_are_options Role.purchase = refl
defaults_are_options Role.sales = refl
defaults_are_options Role.auditor = refl

find-all :
    {A : Type 0} (p q : A → Bool) (xs : List A) {x : A}
    → find p xs ≡ some x
    → all q xs ≡ true
    → q x ≡ true
find-all p q [] h every = absurd (ground arith)
find-all p q (y ∷ ys) h every = elim (Bool-cases (p y)) [
  | inl here ↦ ground arith
  | inr later ↦ find-all p q ys (ground arith) (ground arith)
]

option_values_are_options :
    (options : OptionSet) → all (λ v. is_option v options) (option_values options) ≡ true
unfolding option_values
option_values_are_options OptionSet.page = refl
option_values_are_options OptionSet.action = refl
option_values_are_options OptionSet.data_area = refl

option_is_option :
    (options : OptionSet) (text : Text) (v : AccessValue)
    → valid_option options text ≡ some v
    → is_option v options ≡ true
unfolding valid_option
option_is_option options text v h =
    find-all (λ v. value_text v == text) (λ v. is_option v options) (option_values options) h
      (option_values_are_options options)

merge_values-IsOption :
    (str : Json → Text) (row_values : Fields) (role : Role) (c : ConfigRow)
    → IsOption role c
    → IsOption role (merge_values str row_values c)
unfolding merge_values
merge_values-IsOption str row_values role c h = elim (Bool-cases (is_super_admin role)) [
  | inl top ↦ rw top h
  | inr low ↦
      let text = strip (str (get_or (role_text role) (Json.str []) row_values)) in
      elim (Option-cases (valid_option c.definition.options text)) [
        | inl bad ↦ rw (low, bad) h
        | inr (v, good) ↦
            rw (low, good) (ground (arith, option_is_option c.definition.options text v good, h))
      ]
]

update-IsOption :
    (role : Role) (p : ConfigRow → Bool) (f : ConfigRow → ConfigRow) (config : List ConfigRow)
    → ((c : ConfigRow) → IsOption role c → IsOption role (f c))
    → All (IsOption role) config
    → All (IsOption role) (update_where p f config)
update-IsOption role p f [] keep h = tt
update-IsOption role p f (c ∷ config) keep h = elim (Bool-cases (p c)) [
  | inl y ↦ rw y (keep c h.0, update-IsOption role p f config keep h.1)
  | inr n ↦ rw n (h.0, update-IsOption role p f config keep h.1)
]

merge_config-IsOption :
    (str : Json → Text) (role : Role) (raw : Fields) (config : List ConfigRow)
    → All (IsOption role) config
    → All (IsOption role) (merge_config str raw config)
unfolding merge_config
merge_config-IsOption str role Fields.end config h = h
merge_config-IsOption str role (Fields.field row_key value rest) config h =
    elim (Option-cases (as_fields value)) [
      | inl skipped ↦ rw (skipped, merge_config) (merge_config-IsOption str role rest config h)
      | inr (row_values, given) ↦
          let f = merge_values str row_values in
          let p = λ (c : ConfigRow). c.definition.key == row_key in
          rw (given, merge_config)
            (merge_config-IsOption str role rest (update_where p f config)
              (update-IsOption role p f config (merge_values-IsOption str row_values role) h))
    ]

is_option-denied : (options : OptionSet) → is_option (denied options) options ≡ true
unfolding denied
is_option-denied OptionSet.page = refl
is_option-denied OptionSet.action = refl
is_option-denied OptionSet.data_area = refl

lock_row-IsOption : (role : Role) (c : ConfigRow) → IsOption role c → IsOption role (lock_row c)
unfolding lock_row
lock_row-IsOption role c h = ground (arith, is_option-denied c.definition.options)

map-lock_row-IsOption :
    (role : Role) (config : List ConfigRow)
    → All (IsOption role) config
    → All (IsOption role) (map lock_row config)
map-lock_row-IsOption role [] h = tt
map-lock_row-IsOption role (c ∷ config) h =
    (lock_row-IsOption role c h.0, map-lock_row-IsOption role config h.1)

-- Whatever is configured, each value of the table is among the choices of its row's kind: shown or
-- hidden for a page; edit, yes or no for an action; edit, view, workflow or no for a data area.
pub normalize_role_access_config-IsOption :
    (str : Json → Text) (raw_config : Json) (role : Role)
    → All (IsOption role) (normalize_role_access_config str raw_config)
unfolding normalize_role_access_config
normalize_role_access_config-IsOption str raw_config role =
    let raw = or_else (as_fields raw_config) Fields.end in
    let start = IsOption-all role default_role_access_config (defaults_are_options role) in
    map-lock_row-IsOption role (merge_config str raw default_role_access_config)
      (merge_config-IsOption str role raw default_role_access_config start)

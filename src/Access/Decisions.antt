-- ===== src/Access/Decisions.antt =====
-- The decisions on locked keys (`configured_role_has_access`).
use setuora_lite.Access.Locks.{IsLocked, normalize_role_access_config-IsLocked}
use setuora_lite.Access.Config.{
  configured_access_value, configured_role_has_access, ConfigRow, normalize_role_access_config,
}
use setuora_lite.Access.{
  is_denied, denied, is_super_admin_only, OptionSet, AccessValue, is_super_admin,
}
use setuora_lite.Base.{
  [], ◌∷◌, nat_eq, text_eq, Text, List, ◌≡◌, Option, All, true, refl, Bool, named, false, some,
  arith, Option-cases, Bool-cases, inl, ◌==◌, inr, named_key, ap,
}
use setuora_lite.Model.{Role}
use setuora_lite.Sync.Json.{Json}

found-IsLocked :
    (role : Role) (key : Text) (config : List ConfigRow) {c : ConfigRow}
    → All (IsLocked role) config
    → named (λ (c : ConfigRow). c.definition.key) key config ≡ some c
    → IsLocked role c
found-IsLocked role key [] h e = absurd (ground arith)
found-IsLocked role key (x ∷ config) {c = c} h e = elim (Bool-cases (x.definition.key == key)) [
  | inl same ↦ let this : x ≡ c = ground arith in rw (← this) h.0
  | inr other ↦ found-IsLocked role key config {c = c} h.1 (rw other at e)
]

is_denied-denied : (options : OptionSet) → is_denied (denied options) ≡ true
unfolding is_denied denied
is_denied-denied OptionSet.page = refl
is_denied-denied OptionSet.action = refl
is_denied-denied OptionSet.data_area = refl

locked_value :
    (str : Json → Text) (raw_config : Json) (key : Text) (role : Role)
    → is_super_admin_only key ≡ true
    → is_super_admin role ≡ false
    → is_denied (configured_access_value (normalize_role_access_config str raw_config) key role)
      ≡ true
unfolding configured_access_value
locked_value str raw_config key role only low =
    let config = normalize_role_access_config str raw_config in
    elim (Option-cases (named (λ (c : ConfigRow). c.definition.key) key config)) [
      | inl absent ↦ rw (low, absent) (unfold is_denied in refl)
      | inr (c, found) ↦
          let (top, admins, locked) =
            found-IsLocked role key config {c = c}
              (normalize_role_access_config-IsLocked str raw_config role) found in
          let same = named_key (λ (c : ConfigRow). c.definition.key) key config found in
          rw (low, found)
            (elim locked [
              | inl free ↦ absurd (ground (arith, ap is_super_admin_only same))
              | inr (inl high) ↦ absurd (ground arith)
              | inr (inr value) ↦ rw value (is_denied-denied c.definition.options)
            ])
    ]

-- Whatever is configured, no user without the super admin role has access to what is locked to it.
pub configured_role_has_access-locked :
    (str : Json → Text) (raw_config : Json) (roles : List Role) (key : Text)
    (allowed_values : Option (AccessValue → Bool))
    → is_super_admin_only key ≡ true
    → All (λ role. is_super_admin role ≡ false) roles
    → configured_role_has_access
        (normalize_role_access_config str raw_config)
        roles
        key
        allowed_values
      ≡ false
unfolding configured_role_has_access
configured_role_has_access-locked str raw_config [] key allowed_values only low = refl
configured_role_has_access-locked str raw_config (role ∷ roles) key allowed_values only low =
    rw (locked_value str raw_config key role only low.0)
      (configured_role_has_access-locked str raw_config roles key allowed_values only low.1)

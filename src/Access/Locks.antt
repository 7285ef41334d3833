-- ===== src/Access/Locks.antt =====
-- The rows that `normalize_role_access_config` locks.
use setuora_lite.Access.Config.{
  ConfigRow, lock_row, normalize_role_access_config, merge_config, default_role_access_config,
}
use setuora_lite.Access.{is_super_admin_only, is_admin_only, is_super_admin, denied}
use setuora_lite.Base.{
  [], ◌∷◌, nat_eq, text_eq, ◌≡◌, List, Text, Text-discrete, false, All, true, ◌⊎◌, map, Bool-cases,
  or_else, ◌==◌, codes, inr, inl, refl, eq_of_==, arith, ap, sym, ◌∙◌,
}
use setuora_lite.Model.{Role}
use setuora_lite.Sync.Json.{Json, Fields}
use setuora_lite.Sync.Inbox.{as_fields}

-- The two sets of locked keys are apart.
locked_apart : (key : Text) → is_super_admin_only key ≡ true → is_admin_only key ≡ false
unfolding is_super_admin_only is_admin_only Text-discrete
locked_apart key h = elim (Bool-cases (key == codes "tally_excel_export")) [
  | inr other ↦ rw other refl
  | inl same ↦
      let e = eq_of_== key (codes "tally_excel_export") same in
      let wrong : is_super_admin_only (codes "tally_excel_export") ≡ true =
        ap is_super_admin_only (sym e) ∙ h in
      absurd (ground (arith, wrong))
]

-- A row as `normalize_role_access_config` leaves it, for one role.
abbrev pub IsLocked : Role → ConfigRow → Type 0
IsLocked role c =
    (c.values Role.super_admin ≡ c.definition.defaults Role.super_admin)
    × ((is_admin_only c.definition.key ≡ false) ⊎ (c.values role ≡ c.definition.defaults role))
    × ((is_super_admin_only c.definition.key ≡ false)
        ⊎ (is_super_admin role ≡ true)
        ⊎ (c.values role ≡ denied c.definition.options))

lock_row-IsLocked : (role : Role) (c : ConfigRow) → IsLocked role (lock_row c)
unfolding lock_row
lock_row-IsLocked role c = elim (Bool-cases (is_admin_only c.definition.key)) [
  | inl admins ↦ elim (Bool-cases (is_super_admin_only c.definition.key)) [
    | inl both ↦ absurd (ground (arith, locked_apart c.definition.key both))
    | inr free ↦ rw (admins, free) (refl, inr refl, inl refl)
  ]
  | inr others ↦ elim (Bool-cases (is_super_admin role)) [
    | inl top ↦ rw (others, top) (refl, inl refl, inr (inl refl))
    | inr low ↦ elim (Bool-cases (is_super_admin_only c.definition.key)) [
      | inl locked ↦ rw (others, low, locked) (refl, inl refl, inr (inr refl))
      | inr free ↦ rw (others, low, free) (refl, inl refl, inl refl)
    ]
  ]
]

All-map :
    (P : ConfigRow → Type 0) (f : ConfigRow → ConfigRow) (config : List ConfigRow)
    → ((c : ConfigRow) → P (f c))
    → All P (map f config)
All-map P f [] h = tt
All-map P f (c ∷ config) h = (h c, All-map P f config h)

-- Whatever is configured, each row keeps the super admin's value; the rows that are locked to the
-- super admin deny every other role, and those that are locked to the admins keep the defaults.
pub normalize_role_access_config-IsLocked :
    (str : Json → Text) (raw_config : Json) (role : Role)
    → All (IsLocked role) (normalize_role_access_config str raw_config)
unfolding normalize_role_access_config
normalize_role_access_config-IsLocked str raw_config role =
    All-map (IsLocked role) lock_row
      (merge_config str (or_else (as_fields raw_config) Fields.end) default_role_access_config)
      (lock_row-IsLocked role)

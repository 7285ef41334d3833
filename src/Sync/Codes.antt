-- ===== src/Sync/Codes.antt =====
-- The codes of franchises: `normalize_franchise_code`, and the configured code of this one.
use setuora_lite.Base.{
  ℕ, [], ◌∷◌, strip_upper, nat_eq, text_eq, Bool, Text, leb, ◌&&◌, ◌||◌, if◌then◌else◌, ◌==◌, false,
  is_empty, true, All, Bool-cases, inl, inr, refl, ◌≡◌, one_of, codes, some, Option, List, ◌⊎◌,
  or_else, ◌≤◌, not, length, ltb, arith, length_of_filled,
}

-- `[A-Z0-9_-]`
unfoldable pub is_code_char : ℕ → Bool
is_code_char c = (leb b'A' c && leb c b'Z') || (leb b'0' c && leb c b'9') || c == b'_' || c == b'-'

-- `re.sub(r"[^A-Z0-9_-]+", "-", raw)`; the flag says that the last character was replaced.
unfoldable pub replace_runs : Bool → Text → Text
unfolding is_code_char
replace_runs inside [] = []
replace_runs inside (c ∷ s) =
    let kept = replace_runs false s in
    let run = replace_runs true s in
    if is_code_char c then c ∷ kept else if inside then run else b'-' ∷ run

unfoldable pub left_trim : Text → Text
left_trim [] = []
left_trim (c ∷ s) = let rest = left_trim s in if c == b'-' then rest else c ∷ s

unfoldable pub right_trim : Text → Text
right_trim [] = []
right_trim (c ∷ s) = let rest = right_trim s in if c == b'-' && is_empty rest then [] else c ∷ rest

unfoldable pub normalize_franchise_code : Text → Text
unfolding replace_runs left_trim right_trim
normalize_franchise_code value = right_trim (left_trim (replace_runs false (strip_upper value)))

abbrev pub IsCode : Text → Type 0
IsCode = All (λ c. is_code_char c ≡ true)

dash_IsCode : is_code_char b'-' ≡ true
unfolding is_code_char
dash_IsCode = refl

replace_runs-IsCode : (inside : Bool) (s : Text) → IsCode (replace_runs inside s)
unfolding replace_runs
replace_runs-IsCode inside [] = tt
replace_runs-IsCode inside (c ∷ s) = elim (Bool-cases (is_code_char c)) [
  | inl y ↦ rw y (y, replace_runs-IsCode false s)
  | inr n ↦ elim (Bool-cases inside) [
    | inl skip ↦ rw (n, skip) (replace_runs-IsCode true s)
    | inr start ↦ rw (n, start) (dash_IsCode, replace_runs-IsCode true s)
  ]
]

left_trim-IsCode : (s : Text) → IsCode s → IsCode (left_trim s)
unfolding left_trim
left_trim-IsCode [] h = tt
left_trim-IsCode (c ∷ s) h = elim (Bool-cases (c == b'-')) [
  | inl y ↦ rw y (left_trim-IsCode s h.1)
  | inr n ↦ rw n h
]

right_trim-IsCode : (s : Text) → IsCode s → IsCode (right_trim s)
unfolding right_trim
right_trim-IsCode [] h = tt
right_trim-IsCode (c ∷ s) h = elim (Bool-cases (c == b'-' && is_empty (right_trim s))) [
  | inl y ↦ rw y tt
  | inr n ↦ rw n (h.0, right_trim-IsCode s h.1)
]

-- A normalised code has capital letters, digits, `_` and `-` only.
pub normalize_franchise_code-IsCode : (value : Text) → IsCode (normalize_franchise_code value)
unfolding normalize_franchise_code
normalize_franchise_code-IsCode value =
    right_trim-IsCode (left_trim (replace_runs false (strip_upper value))) (
      left_trim-IsCode (replace_runs false (strip_upper value))
        (replace_runs-IsCode false (strip_upper value)))

-- `FRANCHISE_CODE_PLACEHOLDERS`
abbrev pub franchise_code_placeholders : List Text
franchise_code_placeholders =
    codes "CHANGE-ME"
    ∷ codes "CHANGEME"
    ∷ codes "DEFAULT"
    ∷ codes "FRANCHISE"
    ∷ codes "FRANCHISE-CODE"
    ∷ codes "LITE"
    ∷ codes "MASTER"
    ∷ codes "SETUORA"
    ∷ codes "YOUR-FRANCHISE"
    ∷ codes "YOUR-FRANCHISE-CODE"
    ∷ []

-- What the calls of this module raise: the message of a `MasterSyncError`.
pub data SyncError : Type 0 where
  no_franchise_code long_franchise_code not_initialized only_baseline too_many_items : SyncError
  too_large item_too_large not_first no_url no_key : SyncError
  no_command_id no_command_type bad_version other_version bad_payload command_conflict
        unknown_command :
      SyncError
  no_receipt_id bad_decision no_remarks long_remarks no_receipt other_decision : SyncError
  bad_reviewed_at : SyncError
  handler_failed connection_failed bad_json no_commands malformed_command : SyncError

pub data Attempt {ℓ} (T : Type ℓ) : Type ℓ where
  fails : SyncError → Attempt T
  gives : T → Attempt T

infixl 5 ◌>>=◌
abbrev pub ◌>>=◌ {ℓ κ} : {T : Type ℓ} {U : Type κ} → Attempt T → (T → Attempt U) → Attempt U
call >>= next = elim call [ fails e ↦ fails e | gives value ↦ next value ]

abbrev pub fail_if : Bool → SyncError → Attempt (Unit {0})
fail_if test e = if test then fails e else gives tt

pub Attempt-cases {ℓ} :
    {T : Type ℓ} (a : Attempt T)
    → ((e : SyncError) × (a ≡ fails e)) ⊎ ((value : T) × (a ≡ gives value))
Attempt-cases (fails e) = inl (e, refl)
Attempt-cases (gives value) = inr (value, refl)

-- The settings that the synchronisation reads, as text.
pub record Settings : Type 0 where
  pub franchise_code : Text
  pub master_sync_enabled : Bool
  pub master_url : Text
  pub master_api_key : Text

-- `configured_franchise_code(required=…)`; `none` asks for a code if the synchronisation is enabled.
unfoldable pub configured_franchise_code : Settings → Option Bool → Attempt Text
configured_franchise_code settings required =
    let code = normalize_franchise_code settings.franchise_code in
    let must_exist = or_else required settings.master_sync_enabled in
    fail_if (must_exist && (is_empty code || one_of code franchise_code_placeholders))
      SyncError.no_franchise_code
    >>= λ _.
        fail_if (not (is_empty code) && ltb 20 (length code)) SyncError.long_franchise_code >>= λ _.
        gives code

-- A required code that is given is a code of 1 to 20 characters, and no placeholder.
pub configured_franchise_code_lem :
    (settings : Settings) (code : Text)
    → configured_franchise_code settings (some true) ≡ gives code
    → IsCode code
      × (1 ≤ length code)
      × (length code ≤ 20)
      × (one_of code franchise_code_placeholders ≡ false)
unfolding configured_franchise_code
configured_franchise_code_lem settings code h =
    let found : code ≡ normalize_franchise_code settings.franchise_code = ground arith in
    let filled : is_empty code ≡ false = rw found (ground arith) in
    let short : ltb 20 (length code) ≡ false = rw found (ground arith) in
    (
      rw found (normalize_franchise_code-IsCode settings.franchise_code),
      length_of_filled code filled,
      ground arith,
      ground arith,
    )

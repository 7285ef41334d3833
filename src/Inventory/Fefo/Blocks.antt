-- ===== src/Inventory/Fefo/Blocks.antt =====
-- The verdicts of the scan check.
use mathlib.Core.List.{List}
use setuora_lite.Base.{
  ℕ, [], ◌∷◌, true, Bool, arith, refl, inl, inr, Bool-cases, All, select, ◌≡◌, ◌⊎◌, row, IsKeyed,
  Option, none, some, nat_beq, if◌then◌else◌, ◌==◌, one_of, nat_eq, false,
}
use setuora_lite.Model.{Serial, SerialStatus, Db, status_eq}
use setuora_lite.Inventory.Fefo.{
  expires_before, order_by_expiry, is_candidate, statuses_or_stock, validate_fefo_scan, Batch,
  fefo_candidate_serials, fefo_available_statuses, is_fefo_type,
}
use setuora_lite.Inventory.Fefo.Order.{
  IsNotBefore, IsOrdered, order_by_expiry-IsOrdered, All-order_by_expiry, IsNotBefore-trans,
}

All-select :
    (P : Serial → Type 0) (p : Serial → Bool) (xs : List Serial)
    → All P (select p xs)
    → All (λ x. p x ≡ true → P x) xs
All-select P p [] h = tt
All-select P p (x ∷ xs) h = elim (Bool-cases (p x)) [
  | inl y ↦ let h' : All P (x ∷ select p xs) = rw y at h in (λ _. h'.0, All-select P p xs h'.1)
  | inr n ↦
      let h' : All P (select p xs) = rw n at h in (λ t. absurd (ground arith), All-select P p xs h')
]

select-All : (p : Serial → Bool) (xs : List Serial) → All (λ x. p x ≡ true) (select p xs)
select-All p [] = tt
select-All p (x ∷ xs) = elim (Bool-cases (p x)) [
  | inl y ↦ rw y (y, select-All p xs)
  | inr n ↦ rw n (select-All p xs)
]

-- The rows of the table that a batch may take.
abbrev pub candidates : Db → ℕ → List SerialStatus → List Serial
candidates db product_id statuses =
    order_by_expiry (select (is_candidate db product_id (statuses_or_stock statuses)) db.serials)

candidates-eligible :
    (db : Db) (product_id : ℕ) (statuses : List SerialStatus)
    → All
        (λ c. is_candidate db product_id (statuses_or_stock statuses) c ≡ true)
        (candidates db product_id statuses)
candidates-eligible db product_id statuses =
    (All-order_by_expiry (λ c. is_candidate db product_id (statuses_or_stock statuses) c ≡ true)
        (select (is_candidate db product_id (statuses_or_stock statuses)) db.serials)).0
      (select-All (is_candidate db product_id (statuses_or_stock statuses)) db.serials)

IsNotBefore-self : (a : Serial) → IsNotBefore a a
unfolding expires_before
IsNotBefore-self a = ground arith

-- No candidate of the table expires before the first of the ordered candidates.
first-IsNotBefore :
    (db : Db) (product_id : ℕ) (statuses : List SerialStatus) (e : Serial) (rest : List Serial)
    → candidates db product_id statuses ≡ e ∷ rest
    → All
        (λ c. is_candidate db product_id (statuses_or_stock statuses) c ≡ true → IsNotBefore e c)
        db.serials
first-IsNotBefore db product_id statuses e rest h =
    let p = is_candidate db product_id (statuses_or_stock statuses) in
    let ordered : IsOrdered (e ∷ rest) =
      rw h at (order_by_expiry-IsOrdered (select p db.serials)) in
    let all : All (IsNotBefore e) (candidates db product_id statuses) =
      rw h (IsNotBefore-self e, ordered.0) in
    All-select (IsNotBefore e) p db.serials
      ((All-order_by_expiry (IsNotBefore e) (select p db.serials)).1 all)

no_candidate :
    (db : Db) (product_id : ℕ) (statuses : List SerialStatus) (P : Serial → Type 0)
    → candidates db product_id statuses ≡ []
    → All (λ c. is_candidate db product_id (statuses_or_stock statuses) c ≡ true → P c) db.serials
no_candidate db product_id statuses P h =
    let p = is_candidate db product_id (statuses_or_stock statuses) in
    let all : All P (candidates db product_id statuses) = rw h tt in
    All-select P p db.serials ((All-order_by_expiry P (select p db.serials)).1 all)

List-cases {ℓ} : {A : Type ℓ} (xs : List A) → (xs ≡ []) ⊎ ((y : A × List A) × (xs ≡ y.0 ∷ y.1))
List-cases [] = inl refl
List-cases (x ∷ xs) = inr ((x, xs), refl)

row_unless :
    (y : Serial) (ys xs : List Serial)
    → row (λ (r : Serial). r.id) y.id ys ≡ none
    → All (λ x. row (λ (r : Serial). r.id) x.id ys ≡ some x) xs
    → All (λ x. row (λ (r : Serial). r.id) x.id (y ∷ ys) ≡ some x) xs
row_unless y ys [] absent h = tt
row_unless y ys (x ∷ xs) absent h = (
  elim (Bool-cases (nat_beq y.id x.id)) [
    | inl same ↦
        let key : y.id ≡ x.id = ground arith in
        let none_here = rw key at absent in absurd (ground (arith, none_here, h.0))
    | inr other ↦ rw other h.0
  ],
  row_unless y ys xs absent h.1,
)

-- In a keyed table each row is found under its own number.
rows_found :
    (xs : List Serial)
    → IsKeyed (λ (r : Serial). r.id) xs
    → All (λ x. row (λ (r : Serial). r.id) x.id xs ≡ some x) xs
rows_found [] keyed = tt
rows_found (y ∷ ys) keyed = (ground arith, row_unless y ys ys keyed.0 (rows_found ys keyed.1))

select-rows :
    (P : Serial → Type 0) (p : Serial → Bool) (xs : List Serial) → All P xs → All P (select p xs)
select-rows P p [] h = tt
select-rows P p (x ∷ xs) h = elim (Bool-cases (p x)) [
  | inl y ↦ rw y (h.0, select-rows P p xs h.1)
  | inr n ↦ rw n (select-rows P p xs h.1)
]

-- The first candidate is a row of the table.
first_found :
    (db : Db) (product_id : ℕ) (statuses : List SerialStatus) (e : Serial) (rest : List Serial)
    → IsKeyed (λ (r : Serial). r.id) db.serials
    → candidates db product_id statuses ≡ e ∷ rest
    → row (λ (r : Serial). r.id) e.id db.serials ≡ some e
first_found db product_id statuses e rest keyed h =
    let P : Serial → Type 0 = λ x. row (λ (r : Serial). r.id) x.id db.serials ≡ some x in
    let p = is_candidate db product_id (statuses_or_stock statuses) in
    let all : All P (candidates db product_id statuses) =
      (All-order_by_expiry P (select p db.serials)).0
        (select-rows P p db.serials (rows_found db.serials keyed)) in
    let all' : All P (e ∷ rest) = rw h at all in all'.0

-- What the check says of the candidates `xs`, in their order.
abbrev refused_by : List Serial → Serial → Option Serial
refused_by [] serial = none
refused_by (e ∷ rest) serial =
    if e.id == serial.id
    then none
    else if expires_before e.expiry_date serial.expiry_date
    then some e
    else none

validate-candidates :
    (db : Db) (batch : Batch) (serial : Serial)
    → let statuses = fefo_available_statuses batch.batch_type in
      is_fefo_type batch.batch_type ≡ true
      → one_of serial.status statuses ≡ true
      → validate_fefo_scan db batch serial
        ≡ refused_by (candidates db serial.product_id statuses) serial
unfolding validate_fefo_scan fefo_candidate_serials
validate-candidates db batch serial fefo allowed =
    let statuses = fefo_available_statuses batch.batch_type in
    elim (List-cases (candidates db serial.product_id statuses)) [
      | inl empty ↦ rw (fefo, allowed, empty) refl
      | inr ((e, rest), more) ↦ rw (fefo, allowed, more) refl
    ]

All-IsNotBefore :
    (p : Serial → Bool) (a b : Serial) (xs : List Serial)
    → IsNotBefore a b
    → All (λ c. p c ≡ true → IsNotBefore b c) xs
    → All (λ c. p c ≡ true → IsNotBefore a c) xs
All-IsNotBefore p a b [] ab h = tt
All-IsNotBefore p a b (c ∷ cs) ab h =
    (λ t. IsNotBefore-trans a b c ab (h.0 t), All-IsNotBefore p a b cs ab h.1)

-- A candidate that expires earlier than the unit is another unit.
early-other :
    (db : Db) (product_id : ℕ) (statuses : List SerialStatus) (e : Serial) (rest : List Serial)
    (serial : Serial)
    → IsKeyed (λ (r : Serial). r.id) db.serials
    → candidates db product_id statuses ≡ e ∷ rest
    → row (λ (r : Serial). r.id) serial.id db.serials ≡ some serial
    → expires_before e.expiry_date serial.expiry_date ≡ true
    → (e.id == serial.id) ≡ false
early-other db product_id statuses e rest serial keyed more here early =
    elim (Bool-cases (e.id == serial.id)) [
      | inr other ↦ other
      | inl same ↦
          let key : e.id ≡ serial.id = ground arith in
          let found = rw key at (first_found db product_id statuses e rest keyed more) in
          let whole : e ≡ serial = ground (arith, found, here) in
          let early' = rw whole at early in absurd (ground (arith, early', IsNotBefore-self serial))
    ]

-- What each verdict of the check says of the candidates.
pub scan_verdict :
    (db : Db) (batch : Batch) (serial : Serial)
    → IsKeyed (λ (r : Serial). r.id) db.serials
    → row (λ (r : Serial). r.id) serial.id db.serials ≡ some serial
    → is_fefo_type batch.batch_type ≡ true
    → one_of serial.status (fefo_available_statuses batch.batch_type) ≡ true
    → let eligible =
        is_candidate db serial.product_id
          (statuses_or_stock (fefo_available_statuses batch.batch_type)) in
      (validate_fefo_scan db batch serial ≡ none
        → All
            (λ c. eligible c ≡ true → expires_before c.expiry_date serial.expiry_date ≡ false)
            db.serials)
      × ((e : Serial)
          → validate_fefo_scan db batch serial ≡ some e
          → (eligible e ≡ true)
            × (expires_before e.expiry_date serial.expiry_date ≡ true)
            × All
                (λ c. eligible c ≡ true → expires_before c.expiry_date e.expiry_date ≡ false)
                db.serials)
scan_verdict db batch serial keyed here fefo allowed =
    let statuses = fefo_available_statuses batch.batch_type in
    let meaning = validate-candidates db batch serial fefo allowed in
    elim (List-cases (candidates db serial.product_id statuses)) [
      | inl empty ↦ (
        λ pass. no_candidate db serial.product_id statuses (IsNotBefore serial) empty,
        λ e refused. absurd (ground (arith, rw empty at meaning, refused)),
      )
      | inr ((e, rest), more) ↦
          let said : validate_fefo_scan db batch serial ≡ refused_by (e ∷ rest) serial =
            rw more at meaning in
          let first = first-IsNotBefore db serial.product_id statuses e rest more in
          let eligible = is_candidate db serial.product_id (statuses_or_stock statuses) in
          let own : eligible e ≡ true =
            (rw more at (candidates-eligible db serial.product_id statuses)).0 in
          elim (Bool-cases (expires_before e.expiry_date serial.expiry_date)) [
            | inr late ↦ (
              λ pass. All-IsNotBefore eligible serial e db.serials late first,
              λ e' refused. absurd (ground (arith, said, refused)),
            )
            | inl early ↦
                let other =
                  early-other db serial.product_id statuses e rest serial keyed more here early in
                (
                  λ pass. absurd (ground (arith, said, other)),
                  λ e' refused.
                      let same : e ≡ e' = ground (arith, said, other, refused) in
                      rw (← same) (own, early, first),
                )
          ]
    ]

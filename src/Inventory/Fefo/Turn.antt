-- ===== src/Inventory/Fefo/Turn.antt =====
-- The check of a scan beside the order of expiry.
use setuora_lite.Model.{status_eq}
use setuora_lite.Inventory.Fefo.{
  Db, Batch, Serial, is_candidate, expires_before, statuses_or_stock, fefo_available_statuses,
  is_fefo_type, validate_fefo_scan,
}
use setuora_lite.Base.{
  [], ◌∷◌, nat_eq, text_eq, Option, ℕ, List, select, All, Bool, IsKeyed, ◌≡◌, row, false, true,
  some, Bool-cases, inl, one_of, inr, none, ◌⊎◌, Option-cases,
}
use setuora_lite.Inventory.Fefo.Blocks.{scan_verdict}

-- The units that the batch could take instead of this one.
abbrev pub rivals : Db → Batch → Serial → List Serial
rivals db batch serial =
    select
      (is_candidate db serial.product_id
        (statuses_or_stock (fefo_available_statuses batch.batch_type)))
      db.serials

-- None of the units expires before the given date.
abbrev pub NoneBefore : Option ℕ → List Serial → Type 0
NoneBefore date = All (λ (c : Serial). expires_before c.expiry_date date ≡ false)

NoneBefore-select :
    (date : Option ℕ) (p : Serial → Bool) (xs : List Serial)
    → All (λ (c : Serial). p c ≡ true → expires_before c.expiry_date date ≡ false) xs
    → NoneBefore date (select p xs)
NoneBefore-select date p [] h = tt
NoneBefore-select date p (x ∷ xs) h = elim (Bool-cases (p x)) [
  | inl y ↦ rw y (h.0 y, NoneBefore-select date p xs h.1)
  | inr n ↦ rw n (NoneBefore-select date p xs h.1)
]

-- A batch that goes by expiry, at a unit of the table that it could take: either the check lets the
-- unit pass and no other that it could take expires before it, or the check names one of those
-- units, which expires earlier and before which none of them expires.
pub fefo_scan_lem :
    (db : Db) (batch : Batch) (serial : Serial)
    → IsKeyed (λ (r : Serial). r.id) db.serials
    → row (λ (r : Serial). r.id) serial.id db.serials ≡ some serial
    → is_fefo_type batch.batch_type ≡ true
    → one_of serial.status (fefo_available_statuses batch.batch_type) ≡ true
    → ((validate_fefo_scan db batch serial ≡ none)
        × NoneBefore serial.expiry_date (rivals db batch serial))
      ⊎ ((e : Serial) × (validate_fefo_scan db batch serial ≡ some e)
          × (is_candidate db serial.product_id
                (statuses_or_stock (fefo_available_statuses batch.batch_type))
                e
              ≡ true)
          × (expires_before e.expiry_date serial.expiry_date ≡ true)
          × NoneBefore e.expiry_date (rivals db batch serial))
fefo_scan_lem db batch serial keyed here fefo allowed =
    let (passes, refuses) = scan_verdict db batch serial keyed here fefo allowed in
    let eligible =
      is_candidate db serial.product_id
        (statuses_or_stock (fefo_available_statuses batch.batch_type)) in
    elim (Option-cases (validate_fefo_scan db batch serial)) [
      | inl pass ↦
          inl (pass, NoneBefore-select serial.expiry_date eligible db.serials (passes pass))
      | inr (e, refused) ↦
          let (own, early, first) = refuses e refused in
          inr (e, refused, own, early, NoneBefore-select e.expiry_date eligible db.serials first)
    ]

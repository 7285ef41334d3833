-- ===== src/Inventory/Scan/Picks.antt =====
-- The drafts that hold a unit, under picking by expiry.
use mathlib.Core.List.{List}
use setuora_lite.Base.{
  ℕ, [], ◌∷◌, none, false, Bool, arith, refl, inl, inr, Bool-cases, select, ◌++◌, count_where,
  Option-cases, nat_eq, ◌==◌, count-take, count-select, ◌≡◌, row, IsKeyed, ◌≤◌, if◌then◌else◌, ◌+◌,
  ltb, find, count_none, count_same, count_where-append, sym, leb, length,
}
use setuora_lite.Model.{Serial, SerialStatus, Db}
use setuora_lite.Inventory.Fefo.{
  is_draft_item, insert_serial, order_by_expiry, is_candidate, is_in_draft, fefo_candidate_serials,
  statuses_or_stock, fefo_available_statuses, is_fefo_type,
}
use setuora_lite.Inventory.Scan.{
  picked_items, add_fefo_serials_to_batch, new_item, Batch, Session, User, is_draft,
}
use setuora_lite.Inventory.Scan.Drafts.{holds, HasOneDraftEach, HasOneDraft, draft_item-holds}

abbrev has_number : ℕ → Serial → Bool
has_number k r = r.id == k

count-insert :
    (p : Serial → Bool) (x : Serial) (xs : List Serial)
    → count_where p (insert_serial x xs) ≡ (if p x then 1 else 0) + count_where p xs
unfolding insert_serial
count-insert p x [] = refl
count-insert p x (y ∷ ys) = ground (arith, count-insert p x ys)

count-order :
    (p : Serial → Bool) (xs : List Serial) → count_where p (order_by_expiry xs) ≡ count_where p xs
unfolding order_by_expiry
count-order p [] = refl
count-order p (x ∷ xs) = omega (arith, count-insert p x (order_by_expiry xs), count-order p xs)

absent_count :
    (k : ℕ) (xs : List Serial)
    → row (λ (r : Serial). r.id) k xs ≡ none
    → count_where (has_number k) xs ≡ 0
absent_count k [] h = refl
absent_count k (x ∷ xs) h = ground (arith, absent_count k xs)

keyed_count :
    (k : ℕ) (xs : List Serial)
    → IsKeyed (λ (r : Serial). r.id) xs
    → count_where (has_number k) xs ≤ 1
keyed_count k [] h = omega arith
keyed_count k (x ∷ xs) h = elim (Bool-cases (x.id == k)) [
  | inr other ↦ rw other (omega (arith, keyed_count k xs h.1))
  | inl same ↦
      let key : x.id ≡ k = ground arith in
      let none_left = absent_count k xs (rw key at h.0) in rw same (omega (arith, none_left))
]

candidates-count :
    (db : Db) (product_id quantity : ℕ) (statuses : List SerialStatus) (k : ℕ)
    → IsKeyed (λ (r : Serial). r.id) db.serials
    → count_where (has_number k) (fefo_candidate_serials db product_id quantity statuses) ≤ 1
unfolding fefo_candidate_serials
candidates-count db product_id quantity statuses k keyed =
    let p = is_candidate db product_id (statuses_or_stock statuses) in
    let rows = select p db.serials in
    elim (Bool-cases (ltb quantity 1)) [
      | inl nothing ↦ rw nothing (omega arith)
      | inr something ↦ rw something (
          omega (
            arith,
            keyed_count k db.serials keyed,
            count-select (has_number k) p db.serials,
            count-order (has_number k) rows,
            count-take (has_number k) quantity (order_by_expiry rows),
          ))
    ]

-- A candidate stands in no draft.
not_in_draft :
    (db : Db) (product_id : ℕ) (statuses : List SerialStatus) (k : ℕ) (xs : List Serial)
    → 1 ≤ count_where (has_number k) (select (is_candidate db product_id statuses) xs)
    → is_in_draft db k ≡ false
unfolding is_candidate
not_in_draft db product_id statuses k [] h = absurd (omega arith)
not_in_draft db product_id statuses k (x ∷ xs) h =
    elim (Bool-cases (is_candidate db product_id statuses x)) [
      | inr left ↦ not_in_draft db product_id statuses k xs (rw left at h)
      | inl candidate ↦ elim (Bool-cases (x.id == k)) [
        | inl same ↦ let key : x.id ≡ k = ground arith in rw (← key) (ground arith)
        | inr other ↦
            let h' = rw candidate at h in not_in_draft db product_id statuses k xs (ground arith)
      ]
    ]

not_held : (db : Db) (k : ℕ) → is_in_draft db k ≡ false → count_where (holds db k) db.items ≡ 0
unfolding is_in_draft
not_held db k h = elim (Option-cases (find (is_draft_item db k) db.items)) [
  | inr (i, e) ↦ absurd (ground arith)
  | inl e ↦ omega (
    arith,
    count_none (is_draft_item db k) db.items e,
    count_same (holds db k) (is_draft_item db k) db.items (λ i. sym (draft_item-holds db k i)),
  )
]

-- The picked items hold at most what the candidates name.
picked-count :
    (db : Db) (next_id : ℕ) (batch : Batch) (serials : List Serial) (k : ℕ)
    → count_where (holds db k) (picked_items next_id batch serials)
      ≤ count_where (has_number k) serials
unfolding picked_items new_item
picked-count db next_id batch [] k = omega arith
picked-count db next_id batch (x ∷ xs) k = ground (arith, picked-count db (next_id + 1) batch xs k)

candidate_free :
    (db : Db) (product_id quantity : ℕ) (statuses : List SerialStatus) (k : ℕ)
    → 1 ≤ count_where (has_number k) (fefo_candidate_serials db product_id quantity statuses)
    → is_in_draft db k ≡ false
unfolding fefo_candidate_serials
candidate_free db product_id quantity statuses k h =
    let p = is_candidate db product_id (statuses_or_stock statuses) in
    let rows = select p db.serials in
    elim (Bool-cases (ltb quantity 1)) [
      | inl nothing ↦ absurd (omega (arith, rw nothing at h))
      | inr something ↦
          let h' = rw something at h in
          not_in_draft db product_id (statuses_or_stock statuses) k db.serials (
            omega (
              arith,
              h',
              count-order (has_number k) rows,
              count-take (has_number k) quantity (order_by_expiry rows),
            ))
    ]

picked_once :
    (db : Db) (product_id quantity next_id : ℕ) (batch : Batch) (statuses : List SerialStatus)
    → IsKeyed (λ (r : Serial). r.id) db.serials
    → HasOneDraft db
    → let serials = fefo_candidate_serials db product_id quantity statuses in
      (k : ℕ) → count_where (holds db k) (db.items ++ picked_items next_id batch serials) ≤ 1
picked_once db product_id quantity next_id batch statuses keyed one k =
    let serials = fefo_candidate_serials db product_id quantity statuses in
    let parts = count_where-append (holds db k) db.items (picked_items next_id batch serials) in
    let few = picked-count db next_id batch serials k in
    let once = candidates-count db product_id quantity statuses k keyed in
    elim (Bool-cases (leb 1 (count_where (has_number k) serials))) [
      | inr unnamed ↦ ground (arith, parts, few, one k)
      | inl named ↦
          let free =
            not_held db k (candidate_free db product_id quantity statuses k (ground arith)) in
          rw parts (omega (arith, few, once, free))
    ]

-- The serials of the two views of the tables are keyed by their ids.
abbrev pub HasKeyedSerials : Session → Type 0
HasKeyedSerials s =
    IsKeyed (λ (r : Serial). r.id) s.db.serials × IsKeyed (λ (r : Serial). r.id) s.committed.serials

pub picks-HasOneDraftEach :
    (batch : Batch) (user : User) (product_id quantity next_id : ℕ) (s : Session)
    → HasKeyedSerials s
    → HasOneDraftEach s
    → HasOneDraftEach (add_fefo_serials_to_batch batch user product_id quantity next_id s).1
      × HasKeyedSerials (add_fefo_serials_to_batch batch user product_id quantity next_id s).1
unfolding add_fefo_serials_to_batch
picks-HasOneDraftEach batch user product_id quantity next_id s keyed one =
    let statuses = fefo_available_statuses batch.batch_type in
    let more = picked_once s.db product_id quantity next_id batch statuses keyed.0 one.0 in
    let serials = fefo_candidate_serials s.db product_id quantity statuses in
    elim (Bool-cases (is_draft batch.status)) [
      | inr closed ↦ rw closed (one, keyed)
      | inl draft ↦ elim (Bool-cases (is_fefo_type batch.batch_type)) [
        | inr other ↦ rw (draft, other) (one, keyed)
        | inl fefo ↦ elim (Bool-cases (ltb (length serials) quantity)) [
          | inl short ↦ rw (draft, fefo, short) (one, keyed)
          | inr enough ↦ rw (draft, fefo, enough) ((more, more), (keyed.0, keyed.0))
        ]
      ]
    ]

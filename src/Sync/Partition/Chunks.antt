-- ===== src/Sync/Partition/Chunks.antt =====
-- The chunks of a packing: their items and their sizes.
use setuora_lite.Sync.Codes.{gives, Attempt-cases}
use setuora_lite.Sync.Partition.{
  sum_sizes, Packing, next_part, first_part, open_part, add_item, candidate_fits, pack_items,
  partition_items, partition_initial_inventory_items, Json, Fields, item_size, part_envelope_size,
}
use setuora_lite.Base.{
  ℕ, ◌∷◌, ◌++◌, is_empty, ◌≡◌, [], map, false, ◌+◌, arith, length, inl, length-snoc, ◌-◌, ◌≤◌, ◌⊎◌,
  refl, ◌∙◌, if◌then◌else◌, true, inr, Bool-cases, sym, ap, ltb, Text,
}
use setuora_lite.Sync.Enqueue.{event_max_items, event_max_body, Host}
use mathlib.Core.List.{append_assoc, append-nil, List}

abbrev pub concat {ℓ} : {A : Type ℓ} → List (List A) → List A
concat [] = []
concat (xs ∷ xss) = xs ++ concat xss

concat-snoc {ℓ} :
    {A : Type ℓ} (xss : List (List A)) (xs : List A) → concat (xss ++ xs ∷ []) ≡ concat xss ++ xs
concat-snoc [] xs = append-nil xs
concat-snoc (ys ∷ xss) xs = rw (concat-snoc xss xs, append_assoc) refl

module _ {ℓ} {A : Type ℓ} (size : A → ℕ) (envelope : ℕ → ℕ) where
  -- The bytes of a list of items: each item, and a comma between two.
  abbrev pub content_size : List A → ℕ
  content_size items = sum_sizes (map size items) + (length items - 1)

  -- The items make one event, as the given part.
  abbrev pub Fits : ℕ → List A → Type 0
  Fits n items =
      (is_empty items ≡ false)
      × (length items ≤ event_max_items)
      × (envelope n + content_size items ≤ event_max_body)

  abbrev pub AllFit : ℕ → List (List A) → Type 0
  AllFit n [] = Unit
  AllFit n (items ∷ chunks) = Fits n items × AllFit (n + 1) chunks

  AllFit-snoc :
      (n k : ℕ) (chunks : List (List A)) (items : List A)
      → k ≡ n + length chunks
      → AllFit n chunks
      → Fits k items
      → AllFit n (chunks ++ items ∷ [])
  AllFit-snoc n k [] items e h fits = let same : k ≡ n = omega arith in (rw same at fits, tt)
  AllFit-snoc n k (c ∷ chunks) items e h fits =
      (h.0, AllFit-snoc (n + 1) k chunks items (omega arith) h.1 fits)

  -- What the loop keeps, with the items that it has taken.
  record Packed (taken : List A) (p : Packing A) : Type ℓ where
    whole : concat p.chunks ++ p.current_items ≡ taken
    fit : AllFit 1 p.chunks
    number : p.part_number ≡ 1 + length p.chunks
    size_of_part : p.envelope_size ≡ envelope p.part_number
    content : p.current_content_size ≡ content_size p.current_items
    current : (p.current_items ≡ []) ⊎ Fits p.part_number p.current_items

  first_part-Packed : Packed [] (first_part size envelope)
  first_part-Packed = record {
    whole = refl;
    fit = tt;
    number = refl;
    size_of_part = refl;
    content = unfold sum_sizes in refl;
    current = inl refl;
  }

  next_part-Packed :
      (taken : List A) (p : Packing A)
      → Packed taken p
      → Fits p.part_number p.current_items
      → Packed taken (next_part size envelope p)
  unfolding next_part
  next_part-Packed taken p h fits = record {
    whole =
        append-nil (concat (p.chunks ++ p.current_items ∷ []))
        ∙ concat-snoc p.chunks p.current_items
        ∙ h.whole;
    fit = AllFit-snoc 1 p.part_number p.chunks p.current_items h.number h.fit fits;
    number = ground (arith, length-snoc p.chunks p.current_items, h.number);
    size_of_part = refl;
    content = unfold sum_sizes in refl;
    current = inl refl;
  }

  sum-snoc :
      (xs : List A) (x : A) → sum_sizes (map size (xs ++ x ∷ [])) ≡ sum_sizes (map size xs) + size x
  unfolding sum_sizes
  sum-snoc [] x = omega arith
  sum-snoc (y ∷ xs) x = omega (arith, sum-snoc xs x)

  content-snoc :
      (xs : List A) (x : A)
      → content_size (xs ++ x ∷ []) ≡ content_size xs + (size x + (if is_empty xs then 0 else 1))
  content-snoc [] x = unfold sum_sizes in omega arith
  content-snoc (y ∷ xs) x = omega (arith, sum-snoc (y ∷ xs) x, length-snoc (y ∷ xs) x)

  is_empty-snoc : (xs : List A) (x : A) → is_empty (xs ++ x ∷ []) ≡ false
  is_empty-snoc [] x = refl
  is_empty-snoc (y ∷ xs) x = refl

  -- How an item is placed: into the current part, or into a new one.
  open_part-cases :
      (p : Packing A) (item : A)
      → let item_addition = size item + (if is_empty p.current_items then 0 else 1) in
        ((open_part size envelope p item ≡ (p, item_addition))
          × ((is_empty p.current_items ≡ true)
              ⊎ (candidate_fits size envelope p item_addition ≡ true)))
        ⊎ ((open_part size envelope p item ≡ (next_part size envelope p, size item))
            × (is_empty p.current_items ≡ false))
  unfolding open_part
  open_part-cases p item = elim (Bool-cases (is_empty p.current_items)) [
    | inl nothing ↦ ground arith
    | inr filled ↦ ground arith
  ]

  -- The part with the item in it.
  abbrev with_item : Packing A → ℕ → A → Packing A
  with_item p item_addition item = record p {
    current_items = p.current_items ++ item ∷ [];
    current_content_size = p.current_content_size + item_addition;
  }

  with_item-Packed :
      (taken : List A) (p : Packing A) (item_addition : ℕ) (item : A)
      → Packed taken p
      → item_addition ≡ size item + (if is_empty p.current_items then 0 else 1)
      → length p.current_items + 1 ≤ event_max_items
      → p.envelope_size + p.current_content_size + item_addition ≤ event_max_body
      → Packed (taken ++ item ∷ []) (with_item p item_addition item)
  with_item-Packed taken p item_addition item h e few small =
      let grown = content-snoc p.current_items item in
      record {
        whole =
            sym (append_assoc (concat p.chunks) p.current_items (item ∷ []))
            ∙ ap (λ xs. xs ++ item ∷ []) h.whole;
        fit = h.fit;
        number = h.number;
        size_of_part = h.size_of_part;
        content = omega (arith, grown, h.content, e);
        current = inr (
          is_empty-snoc p.current_items item,
          omega (arith, length-snoc p.current_items item, few),
          omega (arith, grown, h.content, h.size_of_part, e, small),
        );
      }

  content_of_empty : (xs : List A) → is_empty xs ≡ true → (length xs ≡ 0) × (content_size xs ≡ 0)
  unfolding sum_sizes
  content_of_empty [] h = (refl, refl)
  content_of_empty (x ∷ xs) h = absurd (ground arith)

  -- An item that is taken has room, also where the part was empty.
  add_item-room :
      (p p' : Packing A) (item_addition : ℕ) (item : A)
      → item_addition ≡ size item + (if is_empty p.current_items then 0 else 1)
      → p.current_content_size ≡ content_size p.current_items
      → (is_empty p.current_items ≡ true) ⊎ (candidate_fits size envelope p item_addition ≡ true)
      → add_item size envelope p item_addition item ≡ gives p'
      → (p' ≡ with_item p item_addition item)
        × (length p.current_items + 1 ≤ event_max_items)
        × (p.envelope_size + p.current_content_size + item_addition ≤ event_max_body)
  unfolding add_item candidate_fits
  add_item-room p p' item_addition item e content (inl nothing) added =
      let bare = content_of_empty p.current_items nothing in
      elim (Bool-cases (ltb event_max_body (p.envelope_size + size item))) [
        | inl big ↦ absurd (ground arith)
        | inr small ↦ (ground arith, ground arith, ground arith)
      ]
  add_item-room p p' item_addition item e content (inr fits) added =
      (ground arith, ground arith, ground arith)

  add_item-Packed :
      (taken : List A) (p p' : Packing A) (item_addition : ℕ) (item : A)
      → Packed taken p
      → item_addition ≡ size item + (if is_empty p.current_items then 0 else 1)
      → (is_empty p.current_items ≡ true) ⊎ (candidate_fits size envelope p item_addition ≡ true)
      → add_item size envelope p item_addition item ≡ gives p'
      → Packed (taken ++ item ∷ []) p'
  add_item-Packed taken p p' item_addition item h e room added =
      let (same, few, small) = add_item-room p p' item_addition item e h.content room added in
      rw same (with_item-Packed taken p item_addition item h e few small)

  place-Packed :
      (taken : List A) (p p' : Packing A) (item : A)
      → Packed taken p
      → (let (part, item_addition) = open_part size envelope p item in
          add_item size envelope part item_addition item ≡ gives p')
      → Packed (taken ++ item ∷ []) p'
  place-Packed taken p p' item h added = elim (open_part-cases p item) [
    | inl (here, room) ↦
        add_item-Packed taken p p' (size item + (if is_empty p.current_items then 0 else 1)) item h
          refl room (rw here at added)
    | inr (there, filled) ↦
        let fits : Fits p.part_number p.current_items = elim h.current [
          | inl nothing ↦ absurd (ground arith)
          | inr fits ↦ fits
        ] in
        add_item-Packed taken (next_part size envelope p) p' (size item) item
          (next_part-Packed taken p h fits) (unfold next_part in omega arith)
          (inl (unfold next_part in refl)) (rw there at added)
  ]

  pack_items-Packed :
      (taken items : List A) (p p' : Packing A)
      → Packed taken p
      → pack_items size envelope items p ≡ gives p'
      → Packed (taken ++ items) p'
  unfolding pack_items
  pack_items-Packed taken [] p p' h e =
      let same : p ≡ p' = ground arith in rw (append-nil, ← same) h
  pack_items-Packed taken (item ∷ items) p p' h e =
      let (part, item_addition) = open_part size envelope p item in
      elim (Attempt-cases (add_item size envelope part item_addition item)) [
        | inl (error, failed) ↦ absurd (ground arith)
        | inr (q, added) ↦ rw (← append_assoc taken (item ∷ []) items) (
            pack_items-Packed (taken ++ item ∷ []) items q p' (place-Packed taken p q item h added)
              (rw added at e))
      ]

  -- The chunks, in order, are the items, and each makes one event within Master's limits.
  pub partition_items_lem :
      (items : List A) (chunks : List (List A))
      → partition_items size envelope items ≡ gives chunks
      → (concat chunks ≡ items) × AllFit 1 chunks
  unfolding partition_items
  partition_items_lem items chunks e =
      elim (Attempt-cases (pack_items size envelope items (first_part size envelope))) [
        | inl (error, failed) ↦ absurd (ground arith)
        | inr (p, packed) ↦
            let h =
              pack_items-Packed [] items (first_part size envelope) p first_part-Packed packed in
            elim h.current [
              | inl nothing ↦
                  let same : chunks ≡ p.chunks = ground arith in
                  (
                    rw same (sym (append-nil (concat p.chunks)) ∙ (rw nothing at h.whole)),
                    rw same h.fit,
                  )
              | inr fits ↦
                  let same : chunks ≡ p.chunks ++ p.current_items ∷ [] = ground arith in
                  (
                    rw same (concat-snoc p.chunks p.current_items ∙ h.whole),
                    rw same
                        (AllFit-snoc 1 p.part_number p.chunks p.current_items h.number h.fit fits),
                  )
            ]
      ]

-- A partition that returns cuts the baseline into chunks that hold its items in order; each is not
-- empty, has at most 5000 items, and its envelope, items and commas stay within 5 MiB.
pub partition_initial_inventory_items_lem :
    (host : Host) (code : Text) (actor : Json) (occurred_at : ℕ) (items : List Fields)
    (chunks : List (List Fields))
    → partition_initial_inventory_items host code actor occurred_at items ≡ gives chunks
    → (concat chunks ≡ items)
      × AllFit (item_size host) (part_envelope_size host code actor occurred_at) 1 chunks
unfolding partition_initial_inventory_items
partition_initial_inventory_items_lem host code actor occurred_at items chunks e =
    partition_items_lem (item_size host) (part_envelope_size host code actor occurred_at) items
      chunks e

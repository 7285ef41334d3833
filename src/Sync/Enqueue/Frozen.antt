-- ===== src/Sync/Enqueue/Frozen.antt =====
-- The keys of a frozen event.
use setuora_lite.Base.{codes, refl, ◌≡◌, ◌∙◌, Text-discrete, false, Text, ◌==◌, text_eq}
use setuora_lite.Int.{pos}
use setuora_lite.Sync.Json.{
  Json, Fields, get, set_default, get-put_other, get-put_same, get-set_default_other,
}
use setuora_lite.Sync.Enqueue.{frozen_fields, Host, EventRequest, Fresh}

-- The three defaults leave every other key alone.
past_defaults :
    (j : Text) (a b c : Json) (d : Fields)
    → (j == codes "items") ≡ false
    → (j == codes "actor") ≡ false
    → (j == codes "reference") ≡ false
    → get j (
        set_default
          (codes "items")
          a
          (set_default (codes "actor") b (set_default (codes "reference") c d)))
      ≡ get j d
past_defaults j a b c d h i r =
    get-set_default_other _ _ _ _ h
    ∙ get-set_default_other _ _ _ _ i
    ∙ get-set_default_other _ _ _ _ r

-- The keys that the envelope writes are its own: a payload cannot forge them.
pub frozen_fields_lem :
    (host : Host) (request : EventRequest) (fresh : Fresh)
    → let d = frozen_fields host request fresh in
      (get (codes "event_id") d ≡ Json.str fresh.event_id)
      × (get (codes "sequence") d ≡ Json.int (pos fresh.sequence))
      × (get (codes "type") d ≡ Json.str request.event_type)
      × (get (codes "schema_version") d ≡ Json.int (pos request.schema_version))
unfolding frozen_fields Text-discrete
frozen_fields_lem host request fresh = (
  past_defaults (codes "event_id") _ _ _ _ refl refl refl
      ∙ get-put_other _ _ _ _ refl
      ∙ get-put_other _ _ _ _ refl
      ∙ get-put_other _ _ _ _ refl
      ∙ get-put_same _ _ _,
  past_defaults (codes "sequence") _ _ _ _ refl refl refl
      ∙ get-put_other _ _ _ _ refl
      ∙ get-put_other _ _ _ _ refl
      ∙ get-put_same _ _ _,
  past_defaults (codes "type") _ _ _ _ refl refl refl
      ∙ get-put_other _ _ _ _ refl
      ∙ get-put_same _ _ _,
  past_defaults (codes "schema_version") _ _ _ _ refl refl refl
      ∙ get-put_other _ _ _ _ refl
      ∙ get-put_other _ _ _ _ refl
      ∙ get-put_other _ _ _ _ refl
      ∙ get-put_other _ _ _ _ refl
      ∙ get-put_same _ _ _,
)

-- ===== src/Sync/Json.antt =====
-- The values that `json.loads` returns, and the tests that the service makes of them.
use setuora_lite.Base.{
  ℕ, Text, text_eq, Bool, true, false, Option, none, some, ◌==◌, nat_eq, zero, [], if◌then◌else◌,
  suc, ◌≡◌, arith, refl, leb, ==_refl,
}
use setuora_lite.Int.{ℤ, pos, negsuc}

mutual
  -- A float carries the integer that it equals, if there is one.
  pub data Json : Type 0 where
    null : Json
    bool : Bool → Json
    int : ℤ → Json
    float : Option ℤ → Json
    str : Text → Json
    arr : Items → Json
    obj : Fields → Json

  pub data Items : Type 0 where
    nil : Items
    cons : Json → Items → Items

  pub data Fields : Type 0 where
    end : Fields
    field : Text → Json → Fields → Fields

-- `d.get(key)`; a missing key is None.
unfoldable pub get : Text → Fields → Json
get key end = Json.null
get key (Fields.field k v rest) = if key == k then v else get key rest

unfoldable pub has_key : Text → Fields → Bool
has_key key Fields.end = false
has_key key (Fields.field k v rest) = if key == k then true else has_key key rest

-- `d[key] = value`
unfoldable pub put : Text → Json → Fields → Fields
put key value Fields.end = Fields.field key value Fields.end
put key value (Fields.field k v rest) =
    if key == k then Fields.field k value rest else Fields.field k v (put key value rest)

-- `d.setdefault(key, value)`
unfoldable pub set_default : Text → Json → Fields → Fields
unfolding has_key put
set_default key value d = if has_key key d then d else put key value d

-- `isinstance(value, int)`, which a bool passes too, and the integer.
unfoldable pub as_int : Json → Option ℤ
as_int (Json.int z) = some z
as_int (Json.bool true) = some (pos 1)
as_int (Json.bool false) = some (pos 0)
as_int _ = none

-- The integer that the value equals under `==`.
unfoldable pub equals_int : Json → Option ℤ
equals_int (Json.int z) = some z
equals_int (Json.bool true) = some (pos 1)
equals_int (Json.bool false) = some (pos 0)
equals_int (Json.float z) = z
equals_int _ = none

-- `z == n` and `z >= n` for a number of the database.
unfoldable pub is_number : ℕ → Option ℤ → Bool
is_number n none = false
is_number n (some (pos m)) = m == n
is_number n (some (negsuc m)) = false

unfoldable pub is_at_least : ℕ → Option ℤ → Bool
is_at_least n none = false
is_at_least n (some (pos m)) = leb n m
is_at_least n (some (negsuc m)) = false

-- `bool(value)`
unfoldable pub is_truthy : Json → Bool
is_truthy Json.null = false
is_truthy (Json.bool b) = b
is_truthy (Json.int (pos zero)) = false
is_truthy (Json.int _) = true
is_truthy (Json.float (some (pos zero))) = false
is_truthy (Json.float _) = true
is_truthy (Json.str []) = false
is_truthy (Json.str _) = true
is_truthy (Json.arr Items.nil) = false
is_truthy (Json.arr _) = true
is_truthy (Json.obj Fields.end) = false
is_truthy (Json.obj _) = true

-- `str(value or "")`; `show` is `str` on what is no text.
unfoldable pub text_of : (Json → Text) → Json → Text
text_of show (Json.str s) = s
text_of show v = if is_truthy v then show v else []

unfoldable pub items_length : Items → ℕ
items_length Items.nil = 0
items_length (Items.cons v rest) = suc (items_length rest)

-- Reading back what was written.
pub get-put :
    (j k : Text) (v : Json) (d : Fields) → get j (put k v d) ≡ (if j == k then v else get j d)
unfolding get put
get-put j k v Fields.end = refl
get-put j k v (Fields.field i w rest) = ground (arith, get-put j k v rest)

pub get-set_default :
    (j k : Text) (v : Json) (d : Fields)
    → get j (set_default k v d) ≡ (if j == k then (if has_key k d then get j d else v) else get j d)
unfolding set_default
get-set_default j k v d = ground (arith, get-put j k v d)

pub get-put_other :
    (j k : Text) (v : Json) (d : Fields) → (j == k) ≡ false → get j (put k v d) ≡ get j d
get-put_other j k v d h = ground (arith, get-put j k v d)

pub get-set_default_other :
    (j k : Text) (v : Json) (d : Fields) → (j == k) ≡ false → get j (set_default k v d) ≡ get j d
get-set_default_other j k v d h = ground (arith, get-set_default j k v d)

pub get-put_same : (k : Text) (v : Json) (d : Fields) → get k (put k v d) ≡ v
get-put_same k v d = ground (arith, get-put k k v d, ==_refl k)

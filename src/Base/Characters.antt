-- ===== src/Base/Characters.antt =====
-- `str.strip`, `str.upper` and `" ".join(s.split())` on ASCII text.
use setuora_lite.Base.Lists.{length}
use Prim.Native.Nat.{◌≤◌, ℕ, ◌-◌}
use Prim.Native.Char.{code}
use Prim.Native.String.{String}
use mathlib.Core.Path.{◌≡◌, refl}
use mathlib.Core.Bool.{Bool, true, false, ◌&&◌, ◌||◌}
use mathlib.Core.List.{[], ◌∷◌, map, List}
use native.Mathlib.Omega.{arith}
use setuora_lite.Base.Tests.{leb, if◌then◌else◌}
use setuora_lite.Base.Equality.{Text}

-- The code points of a literal.
abbrev pub codes : String → Text
codes String.[] = []
codes (String.◌∷◌ c s) = code c ∷ codes s

unfoldable pub is_space : ℕ → Bool
is_space c = (leb 9 c && leb c 13) || (leb 28 c && leb c 32)

unfoldable pub upper_char : ℕ → ℕ
upper_char c = if leb b'a' c && leb c b'z' then c - 32 else c

abbrev pub is_empty {ℓ} : {A : Type ℓ} → List A → Bool
is_empty [] = true
is_empty (c ∷ s) = false

unfoldable pub upper : Text → Text
unfolding upper_char
upper = map upper_char

unfoldable pub lstrip : Text → Text
unfolding is_space
lstrip [] = []
lstrip (c ∷ s) = let rest = lstrip s in if is_space c then rest else c ∷ s

unfoldable pub rstrip : Text → Text
unfolding is_space
rstrip [] = []
rstrip (c ∷ s) = let rest = rstrip s in if is_space c && is_empty rest then [] else c ∷ rest

unfoldable pub strip : Text → Text
unfolding lstrip rstrip
strip s = rstrip (lstrip s)

-- `" ".join(s.split())`: each run of white space between two words becomes one space. The first
-- flag says that a word has begun, the second that a space is due before the next one.
squeeze_from : Bool → Bool → Text → Text
unfolding is_space
squeeze_from begun due [] = []
squeeze_from begun due (c ∷ s) =
    let pause = squeeze_from begun begun s in
    let word = squeeze_from true false s in
    if is_space c then pause else if due then 32 ∷ c ∷ word else c ∷ word

unfoldable pub squeeze : Text → Text
unfolding squeeze_from
squeeze = squeeze_from false false

upper_char_idem : (c : ℕ) → upper_char (upper_char c) ≡ upper_char c
unfolding upper_char
upper_char_idem c = ground arith

is_space-upper_char : (c : ℕ) → is_space (upper_char c) ≡ is_space c
unfolding upper_char is_space
is_space-upper_char c = ground arith

pub is_empty-map {ℓ κ} :
    {A : Type ℓ} {B : Type κ} (f : A → B) (s : List A) → is_empty (map f s) ≡ is_empty s
is_empty-map f [] = refl
is_empty-map f (c ∷ s) = refl

upper_idem : (s : Text) → upper (upper s) ≡ upper s
unfolding upper
upper_idem [] = refl
upper_idem (c ∷ s) = ground (arith, upper_char_idem c, upper_idem s)

rstrip-upper : (s : Text) → rstrip (upper s) ≡ upper (rstrip s)
unfolding upper rstrip
rstrip-upper [] = refl
rstrip-upper (c ∷ s) =
    ground (arith, is_space-upper_char c, rstrip-upper s, is_empty-map upper_char (rstrip s))

lstrip-upper : (s : Text) → lstrip (upper s) ≡ upper (lstrip s)
unfolding upper lstrip
lstrip-upper [] = refl
lstrip-upper (c ∷ s) = ground (arith, is_space-upper_char c, lstrip-upper s)

rstrip_idem : (s : Text) → rstrip (rstrip s) ≡ rstrip s
unfolding rstrip
rstrip_idem [] = refl
rstrip_idem (c ∷ s) = ground (arith, rstrip_idem s)

lstrip-rstrip : (s : Text) → lstrip (rstrip (lstrip s)) ≡ rstrip (lstrip s)
unfolding rstrip lstrip
lstrip-rstrip [] = refl
lstrip-rstrip (c ∷ s) = ground (arith, lstrip-rstrip s)

pub strip_idem : (s : Text) → strip (strip s) ≡ strip s
unfolding strip
strip_idem s = rw (lstrip-rstrip s) (rstrip_idem (lstrip s))

-- `s.strip().upper()`
unfoldable pub strip_upper : Text → Text
unfolding upper strip
strip_upper s = upper (strip s)

pub strip_upper_idem : (s : Text) → strip_upper (strip_upper s) ≡ strip_upper s
unfolding strip_upper
strip_upper_idem s =
    rw
      (
        lstrip-upper (rstrip (lstrip s)),
        lstrip-rstrip s,
        rstrip-upper (rstrip (lstrip s)),
        rstrip_idem (lstrip s),
      )
      (upper_idem (rstrip (lstrip s)))

squeeze_words : squeeze (codes "  a  bc d ") ≡ codes "a bc d"
unfolding squeeze
squeeze_words = refl

pub length_of_empty {ℓ} : {A : Type ℓ} (xs : List A) → is_empty xs ≡ true → length xs ≡ 0
length_of_empty [] h = refl
length_of_empty (x ∷ xs) h = absurd (ground arith)

pub length_of_filled {ℓ} : {A : Type ℓ} (xs : List A) → is_empty xs ≡ false → 1 ≤ length xs
length_of_filled [] h = absurd (ground arith)
length_of_filled (x ∷ xs) h = omega arith

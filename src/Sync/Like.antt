-- ===== src/Sync/Like.antt =====
-- SQL's LIKE on SQLite, which is what `startswith` of a column becomes.
use setuora_lite.Base.{
  [], ◌∷◌, upper_char, Text, ℕ, Bool, is_empty, ◌++◌, ◌||◌, false, if◌then◌else◌, ◌≡◌, ◌==◌, true,
  ◌&&◌, nat_eq, refl, arith, Bool-cases, inl, inr, ==_refl,
}

-- `f` holds of the text or of one of its suffixes.
unfoldable pub some_suffix : (Text → Bool) → Text → Bool
some_suffix f [] = f []
some_suffix f (c ∷ s) = let rest = some_suffix f s in f (c ∷ s) || rest

-- The next character is matched by `c`, and `f` holds of the rest.
abbrev pub next_char : ℕ → (Text → Bool) → Text → Bool
next_char c f [] = false
next_char c f (d ∷ s) = (c == b'_' || upper_char c == upper_char d) && f s

-- `%` stands for any text and `_` for any character; ASCII letters are compared without case.
unfoldable pub like : Text → Text → Bool
unfolding some_suffix
like [] s = is_empty s
like (c ∷ pattern) s =
    let rest = like pattern in if c == b'%' then some_suffix rest s else next_char c rest s

-- `column.startswith(prefix)`, which escapes nothing: `column LIKE prefix || '%'`
unfoldable pub column_starts_with : Text → Text → Bool
unfolding like
column_starts_with prefix s = like (prefix ++ b'%' ∷ []) s

some_suffix_of_whole : (f : Text → Bool) (s : Text) → f s ≡ true → some_suffix f s ≡ true
unfolding some_suffix
some_suffix_of_whole f [] h = h
some_suffix_of_whole f (c ∷ s) h = rw h refl

some_suffix-is_empty : (s : Text) → some_suffix is_empty s ≡ true
unfolding some_suffix
some_suffix-is_empty [] = refl
some_suffix-is_empty (c ∷ s) = ground (arith, some_suffix-is_empty s)

-- A text that goes on from the prefix is found.
pub column_starts_with-append : (prefix s : Text) → column_starts_with prefix (prefix ++ s) ≡ true
unfolding column_starts_with like
column_starts_with-append [] s = some_suffix-is_empty s
column_starts_with-append (c ∷ prefix) s =
    let rest = column_starts_with-append prefix s in
    elim (Bool-cases (c == b'%')) [
      | inl any ↦
          let later = some_suffix_of_whole (like (prefix ++ b'%' ∷ [])) (prefix ++ s) rest in
          rw any (unfold some_suffix in ground (arith, later))
      | inr one ↦ rw (one, ==_refl (upper_char c), rest) (ground arith)
    ]

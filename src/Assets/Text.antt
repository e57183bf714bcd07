-- ===== src/Assets/Text.antt =====
-- Searches in a byte string, as `std::string_view` defines them, and the C locale's classes.
use custommodels.Base.{
  ℕ, suc, ◌+◌, Bool, true, false, ◌&&◌, ◌||◌, List, [], ◌∷◌, Option, none, some, leb, ◌==◌,
  if◌then◌else◌,
}
use mathlib.Core.Option

abbrev pub Bytes : Type 0
Bytes = List ℕ

unfoldable pub is_empty : Bytes → Bool
is_empty [] = true
is_empty (c ∷ cs) = false

-- The first byte, and 0 for an empty string, which no caller passes.
unfoldable pub front : Bytes → ℕ
front [] = 0
front (c ∷ cs) = c

unfoldable pub back : Bytes → ℕ
back [] = 0
back (c ∷ []) = c
back (c ∷ d ∷ cs) = back (d ∷ cs)

-- The position of the first byte that satisfies `p`; `none` is `npos`.
unfoldable pub find_first : (ℕ → Bool) → Bytes → Option ℕ
find_first p [] = none
find_first p (c ∷ cs) = if p c then some 0 else Option.map suc (find_first p cs)

unfoldable pub is_prefix : Bytes → Bytes → Bool
is_prefix [] cs = true
is_prefix (p ∷ ps) [] = false
is_prefix (p ∷ ps) (c ∷ cs) = p == c && is_prefix ps cs

-- `text.find(pattern)`.
unfoldable pub find_text : Bytes → Bytes → Option ℕ
find_text needle [] = if is_prefix needle [] then some 0 else none
find_text needle (c ∷ cs) =
    if is_prefix needle (c ∷ cs) then some 0 else Option.map suc (find_text needle cs)

unfoldable pub is_alnum : ℕ → Bool
is_alnum c = (leb b'0' c && leb c b'9') || (leb b'A' c && leb c b'Z') || (leb b'a' c && leb c b'z')

unfoldable pub to_lower : ℕ → ℕ
to_lower c = if leb b'A' c && leb c b'Z' then c + 32 else c

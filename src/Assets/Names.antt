-- ===== src/Assets/Names.antt =====
-- Logical names: `IsLogicalNameValid` of shared/src/assets.cpp.
use custommodels.Assets.Text.{Bytes, is_empty, front, back, find_first, is_alnum}
use custommodels.Base.{
  ℕ, zero, suc, ◌+◌, Bool, true, false, ◌&&◌, ◌||◌, not, [], ◌∷◌, none, some, ltb, ◌==◌,
  if◌then◌else◌, length, take, drop, all, same_bytes,
}

abbrev pub maximum_logical_name_length : ℕ
maximum_logical_name_length = 96

unfoldable pub is_ascii_identifier_byte : ℕ → Bool
unfolding is_alnum
is_ascii_identifier_byte c = is_alnum c || c == b'_' || c == b'-' || c == b'.' || c == b'/'

unfoldable pub is_invalid_segment : Bytes → Bool
unfolding is_empty same_bytes
is_invalid_segment segment =
    is_empty segment || same_bytes segment (b'.' ∷ []) || same_bytes segment (b'.' ∷ b'.' ∷ [])

-- The loop over the segments; `rest` is the name from `offset` on. Each round but the last drops
-- a separator at least, so a round more than there are bytes is enough.
unfoldable pub has_invalid_segment_from : ℕ → Bytes → Bool
unfolding find_first is_invalid_segment
has_invalid_segment_from zero rest = false
has_invalid_segment_from (suc fuel) rest = elim (find_first (λ c. c == b'/') rest) [
  | none ↦ is_invalid_segment rest
  | some separator ↦
      let later = has_invalid_segment_from fuel (drop (separator + 1) rest) in
      if is_invalid_segment (take separator rest) then true else later
]

unfoldable pub has_invalid_path_segment : Bytes → Bool
has_invalid_path_segment name = has_invalid_segment_from (length name + 1) name

unfoldable pub is_logical_name_valid : Bytes → Bool
unfolding is_empty front back has_invalid_path_segment
is_logical_name_valid name =
    if is_empty name
      || ltb maximum_logical_name_length (length name)
      || front name == b'/'
      || back name == b'/'
    then false
    else all is_ascii_identifier_byte name && not (has_invalid_path_segment name)

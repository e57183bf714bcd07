-- ===== src/Assets/Urls.antt =====
-- Download URLs: `IsDownloadUrlValid` of shared/src/assets.cpp.
use custommodels.Assets.Text.{Bytes, is_empty, find_first, find_text, to_lower}
use custommodels.Base.{
  ℕ, ◌+◌, Bool, true, false, ◌&&◌, ◌||◌, not, [], ◌∷◌, none, some, ltb, leb, ◌==◌, if◌then◌else◌,
  length, take, drop, all, any,
}

abbrev pub maximum_url_length : ℕ
maximum_url_length = 2048

abbrev pub http_prefix : Bytes
http_prefix = b'h' ∷ b't' ∷ b't' ∷ b'p' ∷ b':' ∷ b'/' ∷ b'/' ∷ []

abbrev pub https_prefix : Bytes
https_prefix = b'h' ∷ b't' ∷ b't' ∷ b'p' ∷ b's' ∷ b':' ∷ b'/' ∷ b'/' ∷ []

abbrev pub scheme_mark : Bytes
scheme_mark = b':' ∷ b'/' ∷ b'/' ∷ []

-- The loop over the bytes of the prefix.
unfoldable pub same_start : Bytes → Bytes → Bool
unfolding to_lower
same_start value [] = true
same_start [] (p ∷ ps) = false
same_start (v ∷ vs) (p ∷ ps) = if not (to_lower v == to_lower p) then false else same_start vs ps

unfoldable pub starts_with_case_insensitive : Bytes → Bytes → Bool
unfolding same_start
starts_with_case_insensitive value start =
    if ltb (length value) (length start) then false else same_start value start

unfoldable pub ends_authority : ℕ → Bool
ends_authority c = c == b'/' || c == b'?' || c == b'#'

-- `url.substr(authorityStart, ...)`, given the URL from `authorityStart` on.
unfoldable pub authority_of : Bytes → Bytes
unfolding find_first ends_authority
authority_of rest = elim (find_first ends_authority rest) [
  | none ↦ rest
  | some authority_end ↦ take authority_end rest
]

-- The byte 92 is a backslash.
unfoldable pub is_authority_valid : Bytes → Bytes → Bool
unfolding is_empty
is_authority_valid url authority = not (
    is_empty authority
    || any (λ c. c == b'@') authority
    || any (λ c. c == 92) url
    || any (λ c. c == b'#') url)

unfoldable pub is_download_url_valid : Bytes → Bool
unfolding is_empty starts_with_case_insensitive find_text authority_of is_authority_valid
is_download_url_valid url =
    if is_empty url || ltb maximum_url_length (length url)
    then false
    else if not (starts_with_case_insensitive url http_prefix)
        && not (starts_with_case_insensitive url https_prefix)
    then false
    else (elim (find_text scheme_mark url) [
      | none ↦ false
      | some scheme_end ↦
          if not (is_authority_valid url (authority_of (drop (scheme_end + 3) url)))
          then false
          else all (λ c. leb 0x21 c && leb c 0x7E) url
    ])

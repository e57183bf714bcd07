-- ===== src/Server/ManifestConfig.antt =====
-- The configuration of the manifest: server/src/manifest_config.cpp. The file is its bytes, whether
-- it opens, and whether reading reaches its end.
pub mod Reading
pub mod Loaded
use Prim.Native.String.{String}
use custommodels.Base.{
  ℕ, ◌+◌, ◌-◌, ◌*◌, ◌%◌, ◌^◌, Bool, true, false, not, ◌||◌, ◌&&◌, List, [], ◌∷◌, Option, none, some,
  Result, ok, err, ltb, leb, ◌==◌, if◌then◌else◌, same_bytes,
}
use custommodels.Assets.{Bytes, AssetType, AssetDescription, dff, txd}
use custommodels.Assets.Text.{is_empty, front}
use custommodels.Assets.Sha256.{parse_sha256_hex}
use custommodels.Server.Registry.{
  AssetRegistry, RegistryResult, added, empty_registry, register_asset, size, to_string,
}

pub record ConfigFile : Type 0 where
  pub opens : Bool
  pub bytes : Bytes
  pub reaches_end : Bool

-- `error` is `none` where the string is empty.
pub record ManifestConfigResult : Type 0 where
  pub loaded_assets : ℕ
  pub error_line : ℕ
  pub error : Option String

-- `operator bool`.
abbrev pub is_loaded : ManifestConfigResult → Bool
is_loaded r = elim (r.error) [ none ↦ true | some text ↦ false ]

-- The characters that `Trim` removes, and those that `>>` skips.
abbrev pub is_blank : ℕ → Bool
is_blank c = c == 32 || c == 9 || c == 13 || c == 10

abbrev pub is_space : ℕ → Bool
is_space c = c == 32 || leb 9 c && leb c 13

unfoldable pub drop_while : (ℕ → Bool) → Bytes → Bytes
drop_while p [] = []
drop_while p (c ∷ cs) = if p c then drop_while p cs else c ∷ cs

unfoldable pub take_while : (ℕ → Bool) → Bytes → Bytes
take_while p [] = []
take_while p (c ∷ cs) = if p c then c ∷ take_while p cs else []

unfoldable pub trim_end : Bytes → Bytes
trim_end [] = []
trim_end (c ∷ cs) = let rest = trim_end cs in if is_empty rest && is_blank c then [] else c ∷ rest

unfoldable pub trim : Bytes → Bytes
unfolding drop_while trim_end
trim value = trim_end (drop_while is_blank value)

abbrev pub cons_first : ℕ → List Bytes → List Bytes
cons_first c [] = (c ∷ []) ∷ []
cons_first c (line ∷ lines) = (c ∷ line) ∷ lines

-- What `std::getline` gives, line by line.
unfoldable pub lines_of : Bytes → List Bytes
lines_of [] = []
lines_of (c ∷ cs) = let lines = lines_of cs in if c == 10 then [] ∷ lines else cons_first c lines

-- `>>` on a string, with what is left.
unfoldable pub read_word : Bytes → Option (Bytes × Bytes)
unfolding drop_while take_while
read_word cs =
    let started = drop_while is_space cs in
    if is_empty started
    then none
    else some
        (take_while (λ c. not (is_space c)) started, drop_while (λ c. not (is_space c)) started)

abbrev pub is_digit : ℕ → Bool
is_digit c = leb b'0' c && leb c b'9'

unfoldable pub number_of : ℕ → Bytes → ℕ
number_of n [] = n
number_of n (c ∷ cs) = number_of (n * 10 + (c - b'0')) cs

-- `>>` on an unsigned number of `width` bits behind its sign.
unfoldable pub read_digits : ℕ → Bool → Bytes → Option (ℕ × Bytes)
unfolding drop_while take_while number_of
read_digits width is_negative cs =
    let value = number_of 0 (take_while is_digit cs) in
    if is_empty (take_while is_digit cs) || leb (2 ^ width) value
    then none
    else some
        (if is_negative then (2 ^ width - value) % 2 ^ width else value, drop_while is_digit cs)

abbrev pub read_signed : ℕ → Bytes → Option (ℕ × Bytes)
read_signed width [] = none
read_signed width (c ∷ cs) =
    if c == b'-'
    then read_digits width true cs
    else if c == b'+'
    then read_digits width false cs
    else read_digits width false (c ∷ cs)

unfoldable pub read_number : ℕ → Bytes → Option (ℕ × Bytes)
unfolding drop_while read_digits
read_number width cs = read_signed width (drop_while is_space cs)

pub record Fields : Type 0 where
  pub asset_id : ℕ
  pub type : Bytes
  pub logical_name : Bytes
  pub url : Bytes
  pub file_size : ℕ
  pub sha256 : Bytes

-- The six fields, behind which nothing may follow.
unfoldable pub read_fields : Bytes → Option Fields
unfolding read_word read_number
read_fields line = elim (read_number 32 line) [
  | none ↦ none
  | some (id, a) ↦ elim (read_word a) [
    | none ↦ none
    | some (type, b) ↦ elim (read_word b) [
      | none ↦ none
      | some (name, c) ↦ elim (read_word c) [
        | none ↦ none
        | some (url, d) ↦ elim (read_number 64 d) [
          | none ↦ none
          | some (size, e) ↦ elim (read_word e) [
            | none ↦ none
            | some (sha256, f) ↦ elim (read_word f) [
              | some trailing ↦ none
              | none ↦ some (record {
                asset_id = id;
                type = type;
                logical_name = name;
                url = url;
                file_size = size;
                sha256 = sha256;
              })
            ]
          ]
        ]
      ]
    ]
  ]
]

unfoldable pub type_of : Bytes → Option AssetType
type_of text =
    if same_bytes text (b'D' ∷ b'F' ∷ b'F' ∷ [])
    then some dff
    else if same_bytes text (b'T' ∷ b'X' ∷ b'D' ∷ [])
    then some txd
    else none

-- The description of a line, or the text of the error.
unfoldable pub describe : Fields → Result String AssetDescription
unfolding type_of
describe f = elim (parse_sha256_hex f.sha256) [
  | none ↦ err "SHA-256 must contain 64 lowercase hexadecimal characters"
  | some digest ↦ elim (type_of f.type) [
    | none ↦ err "asset type must be DFF or TXD"
    | some type ↦ ok (record {
      asset_id = f.asset_id;
      type = type;
      logical_name = f.logical_name;
      download_url = f.url;
      file_size = f.file_size;
      sha256 = digest;
    })
  ]
]

abbrev pub is_added : RegistryResult → Bool
is_added added = true
is_added other = false

-- One line that is neither empty nor a comment.
unfoldable pub register_line : AssetRegistry → Bytes → Result String AssetRegistry
unfolding read_fields describe
register_line r line = elim (read_fields line) [
  | none ↦ err "expected six whitespace-separated fields"
  | some f ↦ elim (describe f) [
    | err text ↦ err text
    | ok asset ↦
        let (registered, result) = register_asset r asset in
        if is_added result then ok registered else err (to_string result)
  ]
]

-- The loop: the registry and the number of lines, or the line of the error and its text.
unfoldable pub load_lines : ℕ → AssetRegistry → List Bytes → Result (ℕ × String) (AssetRegistry × ℕ)
unfolding register_line trim
load_lines n r [] = ok (r, n)
load_lines n r (line ∷ lines) =
    let skipped = load_lines (n + 1) r lines in
    if is_empty (trim line) || front (trim line) == b'#'
    then skipped
    else (elim (register_line r (trim line)) [
      | err text ↦ err (n + 1, text)
      | ok registered ↦ load_lines (n + 1) registered lines
    ])

abbrev refused : ℕ → String → ManifestConfigResult
refused line text = record { loaded_assets = 0; error_line = line; error = some text }

unfoldable pub load_manifest_config :
    ConfigFile → AssetRegistry → AssetRegistry × ManifestConfigResult
unfolding load_lines lines_of
load_manifest_config file registry =
    if not file.opens
    then (registry, refused 0 "could not open manifest configuration")
    else (elim (load_lines 0 empty_registry (lines_of file.bytes)) [
      | err (line, text) ↦ (registry, refused line text)
      | ok (parsed, lines) ↦
          if not file.reaches_end
          then (registry, refused lines "manifest configuration read failed")
          else (parsed, record { loaded_assets = size parsed; error_line = 0; error = none })
    ])

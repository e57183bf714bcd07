-- ===== src/Pe.antt =====
-- The headers of an executable image: shared/include/custommodel/pe_image.hpp and
-- shared/src/pe_image.cpp. An integer is read as the bytes of the host, which is little-endian.
pub mod Headers
use Prim.Native.String.{String}
use custommodels.Base.{
  ℕ, ◌+◌, ◌-◌, ◌*◌, Bool, true, false, not, ◌&&◌, Option, none, some, ltb, leb, ◌==◌, if◌then◌else◌,
  length, Result, ok, err, ◌>>=◌, ◌>>◌, guard, or_fail,
}
use custommodels.Assets.{Bytes}
use custommodels.Protocol.Types.{ByteView, null_view, view}
use custommodels.Frame.{byte_at}

pub data PeImageKind : Type 0 where
  pe32 pe32_plus : PeImageKind

pub record PeImageInfo : Type 0 where
  pub kind : PeImageKind
  pub entry_point_rva : ℕ
  pub size_of_image : ℕ

-- The errors other than `None`: a result is an image or one of these.
pub data PeParseError : Type 0 where
  null_input truncated_dos_header invalid_dos_signature truncated_nt_headers : PeParseError
  invalid_nt_signature truncated_optional_header unsupported_optional_header : PeParseError
  invalid_image_size : PeParseError

abbrev pub dos_header_minimum_size : ℕ
dos_header_minimum_size = 0x40

abbrev pub nt_header_offset_field : ℕ
nt_header_offset_field = 0x3C

abbrev pub coff_header_size : ℕ
coff_header_size = 20

abbrev pub required_optional_header_size : ℕ
required_optional_header_size = 60

abbrev pub dos_signature : ℕ
dos_signature = 0x5A4D

abbrev pub nt_signature : ℕ
nt_signature = 0x00004550

unfoldable pub can_read : ℕ → ℕ → ℕ → Bool
can_read offset length size = leb offset size && leb length (size - offset)

-- `Read` for 16 and 32 bits; `none` is `false`.
unfoldable pub read16 : Bytes → ℕ → Option ℕ
unfolding can_read byte_at
read16 bytes offset =
    if not (can_read offset 2 (length bytes))
    then none
    else some (byte_at bytes offset + 256 * byte_at bytes (offset + 1))

unfoldable pub read32 : Bytes → ℕ → Option ℕ
unfolding can_read byte_at
read32 bytes offset =
    if not (can_read offset 4 (length bytes))
    then none
    else some (
        byte_at bytes offset
        + 256 * byte_at bytes (offset + 1)
        + 65536 * byte_at bytes (offset + 2)
        + 16777216 * byte_at bytes (offset + 3))

-- A variable that is zero before `Read`, whose result the caller drops.
abbrev pub after_read : Option ℕ → ℕ
after_read none = 0
after_read (some value) = value

unfoldable pub kind_of : ℕ → Option PeImageKind
kind_of magic =
    if magic == 0x010B then some pe32 else if magic == 0x020B then some pe32_plus else none

unfoldable pub parse_pe_image : ByteView → Result PeParseError PeImageInfo
unfolding can_read
parse_pe_image (null_view size) = err null_input
parse_pe_image (view data_bytes) = do
  guard (not (ltb (length data_bytes) dos_header_minimum_size)) truncated_dos_header
  guard (after_read (read16 data_bytes 0) == dos_signature) invalid_dos_signature
  let nt_offset = after_read (read32 data_bytes nt_header_offset_field)
  guard (can_read nt_offset (4 + coff_header_size) (length data_bytes)) truncated_nt_headers
  guard (after_read (read32 data_bytes nt_offset) == nt_signature) invalid_nt_signature
  let coff_offset = nt_offset + 4
  let optional_header_size = after_read (read16 data_bytes (coff_offset + 16))
  guard (not (ltb optional_header_size required_optional_header_size)) truncated_optional_header
  let optional_offset = coff_offset + coff_header_size
  guard (can_read optional_offset optional_header_size (length data_bytes))
      truncated_optional_header
  kind ←
      or_fail (kind_of (after_read (read16 data_bytes (optional_offset + 0))))
        unsupported_optional_header
  let entry_point_rva = after_read (read32 data_bytes (optional_offset + 16))
  let size_of_image = after_read (read32 data_bytes (optional_offset + 56))
  guard (not (size_of_image == 0)) invalid_image_size
  ok (record { kind = kind; entry_point_rva = entry_point_rva; size_of_image = size_of_image })

unfoldable pub to_string : PeParseError → String
to_string null_input = "null input"
to_string truncated_dos_header = "truncated DOS header"
to_string invalid_dos_signature = "invalid DOS signature"
to_string truncated_nt_headers = "truncated NT headers"
to_string invalid_nt_signature = "invalid NT signature"
to_string truncated_optional_header = "truncated optional header"
to_string unsupported_optional_header = "unsupported optional header"
to_string invalid_image_size = "invalid image size"

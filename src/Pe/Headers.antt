-- ===== src/Pe/Headers.antt =====
-- What `ParsePeImage` accepts: shared/src/pe_image.cpp.
use custommodels.Base.{ℕ, ◌+◌, ◌≤◌, ◌<◌, ◌≡◌, ◌↔◌, refl, some, length, ok, arith, ◌∙◌, ap}
use custommodels.Assets.{Bytes}
use custommodels.Protocol.Types.{view}
use custommodels.Pe.{
  PeImageKind, PeImageInfo, pe32, pe32_plus, can_read, read16, read32, after_read, kind_of,
  parse_pe_image,
}

abbrev pub magic_of : PeImageKind → ℕ
magic_of pe32 = 0x010B
magic_of pe32_plus = 0x020B

-- The headers of an image, each integer inside the bytes.
pub record HasHeaders (bytes : Bytes) (image : PeImageInfo) : Type 0 where
  pub nt_offset : ℕ
  pub optional_size : ℕ
  pub dos : read16 bytes 0 ≡ some 0x5A4D
  pub dos_fits : 64 ≤ length bytes
  pub nt : read32 bytes 60 ≡ some nt_offset
  pub nt_signature : read32 bytes nt_offset ≡ some 0x4550
  pub optional : read16 bytes (nt_offset + 4 + 16) ≡ some optional_size
  pub optional_needed : 60 ≤ optional_size
  pub optional_fits : nt_offset + 24 + optional_size ≤ length bytes
  pub magic : read16 bytes (nt_offset + 4 + 20 + 0) ≡ some (magic_of image.kind)
  pub entry_point : read32 bytes (nt_offset + 4 + 20 + 16) ≡ some image.entry_point_rva
  pub image_size : read32 bytes (nt_offset + 4 + 20 + 56) ≡ some image.size_of_image
  pub nonzero : 0 < image.size_of_image

read16-inside :
    (bytes : Bytes) (offset : ℕ)
    → offset + 2 ≤ length bytes
    → read16 bytes offset ≡ some (after_read (read16 bytes offset))
unfolding read16 can_read
read16-inside bytes offset h = ground arith

read32-inside :
    (bytes : Bytes) (offset : ℕ)
    → offset + 4 ≤ length bytes
    → read32 bytes offset ≡ some (after_read (read32 bytes offset))
unfolding read32 can_read
read32-inside bytes offset h = ground arith

kind_of-magic_of : (kind : PeImageKind) → kind_of (magic_of kind) ≡ some kind
unfolding kind_of
kind_of-magic_of pe32 = refl
kind_of-magic_of pe32_plus = refl

kind_of-eq : (magic : ℕ) (kind : PeImageKind) → kind_of magic ≡ some kind → magic ≡ magic_of kind
unfolding kind_of
kind_of-eq magic pe32 h = ground arith
kind_of-eq magic pe32_plus h = ground arith

parse_pe_image→HasHeaders :
    (bytes : Bytes) (image : PeImageInfo)
    → parse_pe_image (view bytes) ≡ ok image
    → HasHeaders bytes image
unfolding parse_pe_image can_read
parse_pe_image→HasHeaders bytes image h =
    let nt = after_read (read32 bytes 60) in
    let size = after_read (read16 bytes (nt + 4 + 16)) in
    let magic = after_read (read16 bytes (nt + 4 + 20 + 0)) in
    let dos_fits : 64 ≤ length bytes = ground arith in
    let dos : after_read (read16 bytes 0) ≡ 0x5A4D = ground arith in
    let nt_fits : nt + 24 ≤ length bytes = ground arith in
    let signature : after_read (read32 bytes nt) ≡ 0x4550 = ground arith in
    let needed : 60 ≤ size = ground arith in
    let fits : nt + 24 + size ≤ length bytes = ground arith in
    let kind : magic ≡ magic_of image.kind = kind_of-eq magic image.kind (ground arith) in
    let entry : after_read (read32 bytes (nt + 4 + 20 + 16)) ≡ image.entry_point_rva =
      ground arith in
    let image_size : after_read (read32 bytes (nt + 4 + 20 + 56)) ≡ image.size_of_image =
      ground arith in
    record {
      nt_offset = nt;
      optional_size = size;
      dos = read16-inside bytes 0 (omega (arith, dos_fits)) ∙ ap some dos;
      dos_fits = dos_fits;
      nt = read32-inside bytes 60 (omega (arith, dos_fits));
      nt_signature = read32-inside bytes nt (omega (arith, nt_fits)) ∙ ap some signature;
      optional = read16-inside bytes (nt + 4 + 16) (omega (arith, nt_fits));
      optional_needed = needed;
      optional_fits = fits;
      magic = read16-inside bytes (nt + 4 + 20 + 0) (omega (arith, fits, needed)) ∙ ap some kind;
      entry_point =
          read32-inside bytes (nt + 4 + 20 + 16) (omega (arith, fits, needed)) ∙ ap some entry;
      image_size =
          read32-inside bytes (nt + 4 + 20 + 56) (omega (arith, fits, needed)) ∙ ap some image_size;
      nonzero = ground arith;
    }

HasHeaders→parse_pe_image :
    (bytes : Bytes) (image : PeImageInfo)
    → HasHeaders bytes image
    → parse_pe_image (view bytes) ≡ ok image
unfolding parse_pe_image can_read
HasHeaders→parse_pe_image bytes image v =
    rw
      (
        v.dos,
        v.nt,
        v.nt_signature,
        v.optional,
        v.magic,
        v.entry_point,
        v.image_size,
        kind_of-magic_of image.kind,
      )
      (ground (arith, v.dos_fits, v.optional_needed, v.optional_fits, v.nonzero))

-- An image is accepted exactly where its headers are inside the bytes, with the signatures of both
-- headers, an optional header of a known kind and of sufficient size, and an image size that is not
-- zero; the result is what the headers say.
pub parse_pe_image-ok_iff :
    (bytes : Bytes) (image : PeImageInfo)
    → (parse_pe_image (view bytes) ≡ ok image) ↔ HasHeaders bytes image
parse_pe_image-ok_iff bytes image =
    (parse_pe_image→HasHeaders bytes image, HasHeaders→parse_pe_image bytes image)

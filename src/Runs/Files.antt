-- ===== src/Runs/Files.antt =====
-- Names, digests and images: shared/src/assets.cpp, sha256.cpp and pe_image.cpp.
use custommodels.Base.{◌≡◌, ◌<◌, refl, ◌↔◌, [], ◌∷◌, ◌++◌, All, any, length, some, ok}
use custommodels.Assets.{Bytes}
use custommodels.Assets.Names.{has_invalid_path_segment}
use custommodels.Assets.Segments.{split, is_reserved, has_invalid_path_segment-split}
use custommodels.Assets.Sha256.{parse_sha256_hex, hex_of, parse_sha256_hex_iff}
use custommodels.Protocol.Types.{view}
use custommodels.Pe.{PeImageInfo, pe32, read16, read32, kind_of, parse_pe_image}
use custommodels.Pe.Headers.{HasHeaders, parse_pe_image-ok_iff}
use custommodels.Runs.Samples.{zeros}

-- a/../b
abbrev climbing : Bytes
climbing = b'a' ∷ b'/' ∷ b'.' ∷ b'.' ∷ b'/' ∷ b'b' ∷ []

has_invalid_path_segment-split_example :
    has_invalid_path_segment climbing ≡ any is_reserved (split climbing)
has_invalid_path_segment-split_example = has_invalid_path_segment-split climbing

parse_sha256_hex_iff_example :
    (parse_sha256_hex (hex_of (zeros 31 ++ (0xA5 ∷ []))) ≡ some (zeros 31 ++ (0xA5 ∷ []))) ↔ (
      (hex_of (zeros 31 ++ (0xA5 ∷ [])) ≡ hex_of (zeros 31 ++ (0xA5 ∷ [])))
      × All (λ b. b < 256) (zeros 31 ++ (0xA5 ∷ []))
      × (length (zeros 31 ++ (0xA5 ∷ [])) ≡ 32))
parse_sha256_hex_iff_example =
    parse_sha256_hex_iff (hex_of (zeros 31 ++ (0xA5 ∷ []))) (zeros 31 ++ (0xA5 ∷ []))

-- The smallest image: the second header is right behind the first.
abbrev image_bytes : Bytes
image_bytes =
    0x4D
    ∷ 0x5A
    ∷ (zeros 58
        ++ (64
            ∷ 0
            ∷ 0
            ∷ 0
            ∷ 0x50
            ∷ 0x45
            ∷ 0
            ∷ 0
            ∷ (zeros 16
                ++ (60
                    ∷ 0
                    ∷ 0
                    ∷ 0
                    ∷ 0x0B
                    ∷ 1
                    ∷ (zeros 14
                        ++ (0xD0 ∷ 0xC4 ∷ 0x0C ∷ 0 ∷ (zeros 36 ++ (0 ∷ 16 ∷ 0 ∷ 0 ∷ []))))))))

abbrev image : PeImageInfo
image = record { kind = pe32; entry_point_rva = 0x0CC4D0; size_of_image = 4096 }

parse_pe_image-ok_iff_example :
    (parse_pe_image (view image_bytes) ≡ ok image) ↔ HasHeaders image_bytes image
parse_pe_image-ok_iff_example = parse_pe_image-ok_iff image_bytes image

has_image : parse_pe_image (view image_bytes) ≡ ok image
unfolding parse_pe_image read16 read32 kind_of
has_image = refl

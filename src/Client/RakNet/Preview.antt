-- ===== src/Client/RakNet/Preview.antt =====
-- `HexPreview` of client/src/samp/raknet_transport.cpp.
use custommodels.Base.{
  ℕ, zero, suc, ◌+◌, ◌-◌, ◌*◌, ◌/◌, ◌%◌, ◌≡◌, ◌≤◌, refl, Bool, true, false, [], ◌∷◌, ◌++◌, ltb, leb,
  if◌then◌else◌, length, take, arith, append-nil, append_assoc, ◌∙◌, ◌<◌, length-append,
}
use custommodels.Assets.{Bytes}

abbrev send_preview_byte_limit : ℕ
send_preview_byte_limit = 16

abbrev buffer_size : ℕ
buffer_size = send_preview_byte_limit * 3

-- A digit of `%02X`.
unfoldable pub upper_digit : ℕ → ℕ
upper_digit n = if ltb n 10 then b'0' + n else b'A' + (n - 10)

-- `%02X`.
unfoldable pub hex_byte : ℕ → Bytes
hex_byte b = upper_digit (b / 16) ∷ upper_digit (b % 16) ∷ []

-- The loop on the bytes that are left: `text` is what the buffer holds. A byte that `snprintf`
-- would cut off ends the loop.
unfoldable pub preview_from : Bytes → Bool → Bytes → Bytes
unfolding hex_byte
preview_from [] is_first text = text
preview_from (b ∷ bytes) is_first text =
    let printed = if is_first then hex_byte b else b' ' ∷ hex_byte b in
    let rest = preview_from bytes false (text ++ printed) in
    if leb (buffer_size - length text) (length printed) then text else rest

abbrev none_text : Bytes
none_text = b'<' ∷ b'n' ∷ b'o' ∷ b'n' ∷ b'e' ∷ b'>' ∷ []

unfoldable pub hex_preview : Bytes → Bytes
unfolding preview_from
hex_preview bytes = elim (preview_from (take send_preview_byte_limit bytes) true []) [
  | [] ↦ none_text
  | c ∷ text ↦ c ∷ text
]

-- The bytes with a space in front of each.
unfoldable pub spaced : Bytes → Bytes
unfolding hex_byte
spaced [] = []
spaced (b ∷ bytes) = b' ' ∷ hex_byte b ++ spaced bytes

length-spaced : (bytes : Bytes) → length (spaced bytes) ≡ 3 * length bytes
unfolding spaced hex_byte
length-spaced [] = refl
length-spaced (b ∷ bytes) = omega (arith, length-spaced bytes)

preview_from-spaced :
    (bytes text : Bytes)
    → length text + 3 * length bytes ≤ 47
    → preview_from bytes false text ≡ text ++ spaced bytes
unfolding preview_from spaced hex_byte
preview_from-spaced [] text h = rw append-nil refl
preview_from-spaced (b ∷ bytes) text h =
    let fits : leb (48 - length text) 3 ≡ false = ground arith in
    let rest =
      preview_from-spaced bytes (text ++ (b' ' ∷ hex_byte b))
        (omega (arith, length-append text (b' ' ∷ hex_byte b))) in
    rw (preview_from, fits) (rest ∙ rw append_assoc refl)

length-take_le : (n : ℕ) (bytes : Bytes) → length (take n bytes) ≤ n
length-take_le zero bytes = omega arith
length-take_le (suc n) [] = omega arith
length-take_le (suc n) (b ∷ bytes) = omega (arith, length-take_le n bytes)

-- The preview of a frame is its first 16 bytes, each as two digits with a space between any two:
-- the text and its end fit in the buffer, so that no byte of these is cut off.
pub hex_preview-spaced :
    (b : ℕ) (bytes : Bytes)
    → (hex_preview (b ∷ bytes) ≡ hex_byte b ++ spaced (take 15 bytes))
      × (length (hex_preview (b ∷ bytes)) < 48)
unfolding hex_preview preview_from hex_byte
hex_preview-spaced b bytes =
    let few = length-take_le 15 bytes in
    let same =
      preview_from-spaced (take 15 bytes) (hex_byte b) (unfold hex_byte in omega (arith, few)) in
    (rw same refl, rw same (omega (arith, few, length-spaced (take 15 bytes))))

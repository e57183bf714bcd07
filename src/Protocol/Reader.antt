-- ===== src/Protocol/Reader.antt =====
-- `ByteReader` of shared/src/protocol.cpp. The reader is the list of the bytes from its offset on;
-- `none` is `false`, after which the source reads no more.
use custommodels.Base.{
  ℕ, ◌*◌, ◌^◌, bit_or, ◌||◌, [], ◌∷◌, Option, none, some, ltb, if◌then◌else◌, length, take, drop,
}
use custommodels.Assets.{Bytes}

abbrev pub Reader {ℓ} : Type ℓ → Type ℓ
Reader A = Bytes → Option (A × Bytes)

infixl 5 ◌>>=◌
unfoldable pub ◌>>=◌ {ℓ κ} : {A : Type ℓ} {B : Type κ} → Reader A → (A → Reader B) → Reader B
◌>>=◌ m f bytes = elim (m bytes) [ none ↦ none | some (a, rest) ↦ f a rest ]

unfoldable pub pure {ℓ} : {A : Type ℓ} → A → Reader A
pure a bytes = some (a, bytes)

unfoldable pub read_byte : Reader ℕ
read_byte [] = none
read_byte (byte ∷ rest) = some (byte, rest)

unfoldable pub read_u8 : Reader ℕ
read_u8 = read_byte

unfoldable pub read_u16 : Reader ℕ
read_u16 = do high ← read_byte; low ← read_byte; pure (bit_or (high * 2 ^ 8) low)

unfoldable pub read_u32 : Reader ℕ
read_u32 = do
  b0 ← read_byte
  b1 ← read_byte
  b2 ← read_byte
  b3 ← read_byte
  pure (bit_or (bit_or (bit_or (b0 * 2 ^ 24) (b1 * 2 ^ 16)) (b2 * 2 ^ 8)) b3)

unfoldable pub read_u64 : Reader ℕ
read_u64 = do high ← read_u32; low ← read_u32; pure (bit_or (high * 2 ^ 32) low)

-- The remaining bytes are `length bytes`.
unfoldable pub read_bytes : ℕ → Reader Bytes
read_bytes size bytes =
    if ltb (length bytes) size then none else some (take size bytes, drop size bytes)

-- The part of `ReadString` behind the length.
unfoldable pub read_text : ℕ → ℕ → Reader Bytes
read_text maximum_length size bytes =
    if ltb maximum_length size || ltb (length bytes) size
    then none
    else some (take size bytes, drop size bytes)

unfoldable pub read_string : ℕ → Reader Bytes
read_string maximum_length = do size ← read_u16; read_text maximum_length size

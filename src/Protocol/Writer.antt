-- ===== src/Protocol/Writer.antt =====
-- `ByteWriter` of shared/src/protocol.cpp. A write takes the bytes so far to the bytes after it;
-- `none` is `false`, after which the source drops the writer.
use custommodels.Base.{
  ℕ, ◌-◌, ◌/◌, ◌%◌, ◌^◌, [], ◌∷◌, ◌++◌, Option, none, some, ltb, leb, ◌==◌, if◌then◌else◌, length,
}
use custommodels.Assets.{Bytes}
use custommodels.Protocol.Types.{maximum_packet_size}

abbrev pub Writer : Type 0
Writer = Bytes → Option Bytes

-- `first && second`.
infixl 5 ◌>>◌
unfoldable pub ◌>>◌ : Writer → Writer → Writer
(first >> second) out = elim (first out) [ none ↦ none | some longer ↦ second longer ]

unfoldable pub write_byte : ℕ → Writer
write_byte value out =
    if length out == maximum_packet_size then none else some (out ++ (value ∷ []))

unfoldable pub write_u8 : ℕ → Writer
write_u8 = write_byte

-- The cast to `std::uint8_t` is `% 256`.
unfoldable pub write_u16 : ℕ → Writer
write_u16 value = do write_byte (value / 2 ^ 8 % 256); write_byte (value % 256)

unfoldable pub write_u32 : ℕ → Writer
write_u32 value = do
  write_byte (value / 2 ^ 24 % 256)
  write_byte (value / 2 ^ 16 % 256)
  write_byte (value / 2 ^ 8 % 256)
  write_byte (value % 256)

unfoldable pub write_u64 : ℕ → Writer
write_u64 value = do write_u32 (value / 2 ^ 32 % 2 ^ 32); write_u32 (value % 2 ^ 32)

unfoldable pub write_bytes : Bytes → Writer
write_bytes bytes out =
    if ltb (maximum_packet_size - length out) (length bytes) then none else some (out ++ bytes)

unfoldable pub write_string : Bytes → Writer
write_string value out =
    if leb (length value) 0xffff
    then (do write_u16 (length value % 2 ^ 16); write_bytes value) out
    else none

-- The loop of `EncodePacket` over the payload.
unfoldable pub write_each : Bytes → Writer
write_each [] out = some out
write_each (byte ∷ bytes) out = (elim (write_u8 byte out) [
  | none ↦ none
  | some longer ↦ write_each bytes longer
])

-- ===== src/Protocol/Decode/RoundTrip.antt =====
-- `DecodePacket` after `EncodePacket`: shared/src/protocol.cpp.
use custommodels.Base.{
  ℕ, ◌^◌, ◌<◌, ◌≡◌, refl, true, false, [], ◌++◌, arith, length, ok, ◌∙◌, ap, append-nil, sym, take,
  drop, take-append,
}
use custommodels.Assets.{Bytes}
use custommodels.Protocol.Types.{
  Message, view, magic, message_type_code, message_type_of_code, hello,
}
use custommodels.Protocol.Checks.{is_known_message_type}
use custommodels.Protocol.Encode.{type_of, has_invalid_field, encode_packet}
use custommodels.Protocol.Encode.Packet.{
  payload_bytes-length, packet_bytes-length, encode_packet-ok, type_code-lt,
}
use custommodels.Protocol.Decode.{decode_packet, decode_payload, default_message}
use custommodels.Protocol.Decode.Accepts.{decode_case-payload_bytes}
use custommodels.Protocol.Decode.Fields.{read_header}
use custommodels.Protocol.Layout.{IsTyped, payload_bytes, packet_bytes, be16, be32}
use custommodels.Protocol.Layout.Reading.{
  Reads, >>=-Reads, pure-Reads, read_u16-Reads, read_u32-Reads,
}

header_bytes : ℕ → ℕ → Bytes
header_bytes type size = be32 magic ++ (be16 1 ++ (be16 type ++ be32 size))

read_header-Reads :
    (type size : ℕ)
    → type < 2 ^ 16
    → size < 2 ^ 32
    → Reads read_header
        (header_bytes type size)
        (record { magic = magic; version = 1; message_type = type; payload_size = size })
unfolding read_header header_bytes
read_header-Reads type size ht hs = >>=-Reads _ _ _ _ _ _ (read_u32-Reads magic (omega arith)) (
    >>=-Reads _ _ _ _ _ _ (read_u16-Reads 1 (omega arith)) (
      >>=-Reads _ _ _ _ _ _ (read_u16-Reads type ht) (pure-Reads _ _ _ _ (read_u32-Reads size hs))))

packet_bytes-header :
    (m : Message)
    → packet_bytes m
      ≡ header_bytes (message_type_code (type_of m)) (length (payload_bytes m)) ++ payload_bytes m
unfolding packet_bytes header_bytes be32 be16
packet_bytes-header m = refl

known_type :
    (m : Message)
    → (is_known_message_type (message_type_code (type_of m)) ≡ true)
      × (message_type_of_code (message_type_code (type_of m)) ≡ type_of m)
unfolding is_known_message_type message_type_code type_of message_type_of_code
known_type (hello m) = (refl, refl)
known_type _ = (refl, refl)

drop-header : (m : Message) → drop 12 (packet_bytes m) ≡ payload_bytes m
unfolding packet_bytes be16 be32
drop-header m = refl

pub take-length : (bytes : Bytes) → take (length bytes) bytes ≡ bytes
take-length bytes = ap (take (length bytes)) (sym (append-nil bytes)) ∙ take-append bytes []

decode_payload-payload_bytes :
    (initial m : Message)
    → IsTyped m
    → has_invalid_field m ≡ false
    → decode_payload (type_of m) (payload_bytes m) initial ≡ ok m
unfolding decode_payload
decode_payload-payload_bytes initial m t h = rw (decode_case-payload_bytes initial m t h)

pub decode_packet-packet_bytes :
    (m : Message)
    → IsTyped m
    → has_invalid_field m ≡ false
    → decode_packet (view (packet_bytes m)) ≡ ok (record { protocol_version = 1; message = m })
unfolding decode_packet
decode_packet-packet_bytes m t h =
    let small = payload_bytes-length m t h in
    let size = length (payload_bytes m) in
    let header =
      ap read_header (packet_bytes-header m)
      ∙ read_header-Reads (message_type_code (type_of m)) size (type_code-lt m)
          (omega (arith, small)) (payload_bytes m) in
    let payload : take size (drop 12 (packet_bytes m)) ≡ payload_bytes m =
      ap (take size) (drop-header m) ∙ take-length (payload_bytes m) in
    let decoded = decode_payload-payload_bytes default_message m t h in
    ground (arith, small, header, payload, decoded, known_type m, packet_bytes-length m)

-- Decoding what was encoded gives the message back, in a packet of version 1.
pub decode_packet-encode_packet :
    (m : Message) {bytes : Bytes}
    → IsTyped m
    → encode_packet m 1 ≡ ok bytes
    → decode_packet (view bytes) ≡ ok (record { protocol_version = 1; message = m })
decode_packet-encode_packet m t h =
    let (valid, same) = encode_packet-ok m t h in rw (← same) (decode_packet-packet_bytes m t valid)

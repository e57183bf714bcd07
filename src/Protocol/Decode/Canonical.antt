-- ===== src/Protocol/Decode/Canonical.antt =====
-- `DecodePacket` of shared/src/protocol.cpp accepts what `EncodePacket` writes and nothing else.
use custommodels.Base.{
  ℕ, ◌≡◌, refl, true, [], ◌++◌, some, arith, length, ◌∙◌, ap, append-nil, All, Result, ok, err,
  ◌>>=◌, ◌>>◌, guard, ◌==◌, sym, take, drop, Option-cases, inl, inr, ◌∷◌,
}
use custommodels.Assets.{Bytes}
use custommodels.Protocol.Types.{
  Message, Packet, magic, DecodeError, payload_length_mismatch, view, message_type_code,
  message_type_of_code,
}
use custommodels.Protocol.Checks.{is_known_message_type}
use custommodels.Protocol.Encode.{type_of, encode_packet}
use custommodels.Protocol.Encode.Packet.{encode_packet-exact}
use custommodels.Protocol.Decode.{decode_packet, decode_payload, decode_case, default_message}
use custommodels.Protocol.Decode.Cases.{IsDecoded, decode_case-Decodes}
use custommodels.Protocol.Decode.Fields.{Header, read_header}
use custommodels.Protocol.Decode.RoundTrip.{take-length}
use custommodels.Protocol.Decode.Takes.{read_header-Takes}
use custommodels.Protocol.Layout.{IsByte, IsTyped, payload_bytes, packet_bytes, be16, be32}

-- What a successful `DecodePacket` has found.
record Parts (bytes : Bytes) (p : Packet) : Type 0 where
  header : Header
  rest : Bytes
  read : read_header bytes ≡ some (header, rest)
  has_magic : header.magic ≡ magic
  has_version : header.version ≡ 1
  has_size : header.payload_size ≡ length rest
  is_known : is_known_message_type header.message_type ≡ true
  version : p.protocol_version ≡ 1
  decoded :
      decode_payload
        (message_type_of_code header.message_type)
        (take header.payload_size (drop 12 bytes))
        default_message
      ≡ ok p.message

decode_packet-Parts :
    (bytes : Bytes) (p : Packet) → decode_packet (view bytes) ≡ ok p → Parts bytes p
unfolding decode_packet
decode_packet-Parts bytes p e = elim (Option-cases (read_header bytes)) [
  | inl none_read ↦ absurd (ground arith)
  | inr ((header, rest), read) ↦ record {
    header = header;
    rest = rest;
    read = read;
    has_magic = ground arith;
    has_version = ground arith;
    has_size = ground arith;
    is_known = ground arith;
    version = ground arith;
    decoded = ground arith;
  }
]

abbrev finished : Result DecodeError (Message × Bytes) → Result DecodeError Message
finished decoded = do
  (message, rest) ← decoded
  guard (length rest == 0) payload_length_mismatch
  ok message

finished-inversion :
    (r : Result DecodeError (Message × Bytes)) (m : Message) → finished r ≡ ok m → r ≡ ok (m, [])
finished-inversion (err x) m h = cc
finished-inversion (ok (found, [])) m h = ground arith
finished-inversion (ok (found, b ∷ rest)) m h = ground arith

decode_payload-IsDecoded :
    (n : ℕ) (initial m : Message) (payload : Bytes)
    → is_known_message_type n ≡ true
    → All IsByte payload
    → decode_payload (message_type_of_code n) payload initial ≡ ok m
    → IsDecoded (message_type_of_code n) m payload []
unfolding decode_payload
decode_payload-IsDecoded n initial m payload known okp e =
    decode_case-Decodes (message_type_of_code n) n initial refl known payload m [] okp
      (finished-inversion (decode_case (message_type_of_code n) initial payload) m e)

message_type_code-of_code : (n : ℕ) → message_type_code (message_type_of_code n) ≡ n
unfolding message_type_code message_type_of_code
message_type_code-of_code n = ground arith

abbrev header_front : ℕ → ℕ → ℕ → ℕ → Bytes
header_front a v n size = be32 a ++ (be16 v ++ (be16 n ++ be32 size))

drop-header : (a v n size : ℕ) (rest : Bytes) → drop 12 (header_front a v n size ++ rest) ≡ rest
unfolding be32 be16
drop-header a v n size rest = refl

packet_bytes-front :
    (m : Message)
    → header_front magic 1 (message_type_code (type_of m)) (length (payload_bytes m))
        ++ payload_bytes m
      ≡ packet_bytes m
unfolding packet_bytes be32 be16
packet_bytes-front m = refl

-- Whatever `DecodePacket` accepts, from a view of bytes, is a packet of version 1 whose message has
-- fields of their C++ types, and `EncodePacket` writes that message as the very same bytes.
pub encode_packet-decode_packet :
    (bytes : Bytes) (p : Packet)
    → All IsByte bytes
    → decode_packet (view bytes) ≡ ok p
    → (p.protocol_version ≡ 1) × IsTyped p.message × (encode_packet p.message 1 ≡ ok bytes)
encode_packet-decode_packet bytes p okb e =
    let s = decode_packet-Parts bytes p e in
    let h = s.header in
    let m = p.message in
    let (l, front, hl, okr) = read_header-Takes bytes h s.rest okb s.read in
    let opened = header_front magic 1 h.message_type (length s.rest) ++ s.rest in
    let same : bytes ≡ opened = front ∙ rw (hl, s.has_magic, s.has_version, s.has_size) in
    let payload : take h.payload_size (drop 12 bytes) ≡ s.rest =
      rw (same, s.has_size, drop-header magic 1 h.message_type (length s.rest) s.rest)
        (take-length s.rest) in
    let decoded = rw payload at s.decoded in
    let d =
      decode_payload-IsDecoded h.message_type default_message m s.rest s.is_known okr decoded in
    let rest : s.rest ≡ payload_bytes m = d.front ∙ append-nil _ in
    let code : h.message_type ≡ message_type_code (type_of m) =
      sym (ap message_type_code d.kind ∙ message_type_code-of_code h.message_type) in
    let packet : packet_bytes m ≡ bytes = sym (same ∙ rw (rest, code) (packet_bytes-front m)) in
    (s.version, d.typed, encode_packet-exact m 1 d.typed ∙ rw d.valid (ap ok packet))

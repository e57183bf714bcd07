-- ===== src/Protocol/Encode/Packet.antt =====
-- `EncodePacket` of shared/src/protocol.cpp as a whole: its result on every message.
use custommodels.Base.{
  ℕ, ◌+◌, ◌%◌, ◌^◌, ◌≤◌, ◌<◌, ◌≡◌, false, not, [], ◌++◌, some, arith, length, length-append, ok,
  err, Bool-cases, inl, inr, ◌∙◌, ◌==◌, ◌&&◌, if◌then◌else◌, ==_iff,
}
use custommodels.Assets.{Bytes}
use custommodels.Assets.Spec.{is_asset_description_valid→IsValidAsset}
use custommodels.Protocol.Types.{
  Message, hello, welcome, reject, ping, pong, manifest_begin, manifest_asset, manifest_end,
  asset_ready, asset_error, EncodeError, message_type_code, magic,
}
use custommodels.Protocol.Encode.{
  type_of, has_invalid_field, write_message, encode_payload, encode_packet,
}
use custommodels.Protocol.Encode.Exact.{write_message-Writes}
use custommodels.Protocol.Encode.Fields.{write_packet}
use custommodels.Protocol.Layout.{
  IsTyped, be16, be32, be64, text, runtime_bytes, asset_bytes, payload_bytes, packet_bytes,
}
use custommodels.Protocol.Layout.Writing.{
  Writes, >>-Writes, write_u16-Writes, write_u32-Writes, write_each-Writes,
}

-- 62 bytes, a name of 96 and a URL of 2048 at most.
pub payload_bytes-length :
    (m : Message) → IsTyped m → has_invalid_field m ≡ false → length (payload_bytes m) ≤ 2206
unfolding payload_bytes runtime_bytes be16 be32 be64 has_invalid_field asset_bytes text
payload_bytes-length (hello m) t h = omega arith
payload_bytes-length (welcome m) t h = omega arith
payload_bytes-length (reject m) t h = omega arith
payload_bytes-length (ping m) t h = omega arith
payload_bytes-length (pong m) t h = omega arith
payload_bytes-length (manifest_begin m) t h = omega arith
payload_bytes-length (manifest_asset m) t h =
    let valid = is_asset_description_valid→IsValidAsset m.asset (ground arith) in
    let a = m.asset in
    let tail = be64 a.file_size ++ a.sha256 in
    omega (
      arith,
      (t.2).digest_size,
      length-append a.logical_name (text a.download_url ++ tail),
      length-append a.download_url tail,
    )
payload_bytes-length (manifest_end m) t h = omega arith
payload_bytes-length (asset_ready m) t h = omega arith
payload_bytes-length (asset_error m) t h = omega arith

pub type_code-lt : (m : Message) → message_type_code (type_of m) < 2 ^ 16
unfolding message_type_code type_of
type_code-lt (hello m) = omega arith
type_code-lt _ = omega arith

pub packet_bytes-length : (m : Message) → length (packet_bytes m) ≡ length (payload_bytes m) + 12
unfolding packet_bytes be16 be32
packet_bytes-length m = omega arith

pub write_packet-Writes :
    (m : Message)
    → length (payload_bytes m) < 2 ^ 32
    → Writes (write_packet 1 (message_type_code (type_of m)) (payload_bytes m)) (packet_bytes m)
unfolding write_packet packet_bytes
write_packet-Writes m h =
    let size : length (payload_bytes m) % 2 ^ 32 ≡ length (payload_bytes m) = omega arith in
    rw size (
      >>-Writes _ _ _ _ (write_u32-Writes magic (omega arith)) (
        >>-Writes _ _ _ _ (write_u16-Writes 1 (omega arith)) (
          >>-Writes _ _ _ _ (write_u16-Writes _ (type_code-lt m))
            (>>-Writes _ _ _ _ (write_u32-Writes _ h) (write_each-Writes (payload_bytes m))))))

pub encode_packet-valid :
    (m : Message)
    → IsTyped m
    → has_invalid_field m ≡ false
    → encode_packet m 1 ≡ ok (packet_bytes m)
unfolding encode_packet encode_payload
encode_packet-valid m t h =
    let small = payload_bytes-length m t h in
    let wrote : write_message m [] ≡ some (payload_bytes m) =
      write_message-Writes m t h [] (omega (arith, small)) in
    let packed : write_packet 1 (message_type_code (type_of m)) (payload_bytes m) []
        ≡ some (packet_bytes m) =
      write_packet-Writes m (omega (arith, small)) []
        (omega (arith, small, packet_bytes-length m)) in
    ground (arith, wrote, packed, small)

-- `EncodePacket` on every message and every protocol version: the packet of the wire layout if the
-- version is 1 and no field is invalid, and `InvalidField` otherwise, never `OversizedPayload`.
-- The message's fields are of their C++ types.
pub encode_packet-exact :
    (m : Message) (version : ℕ)
    → IsTyped m
    → encode_packet m version ≡ (
        if version == 1 && not (has_invalid_field m)
        then ok (packet_bytes m)
        else err EncodeError.invalid_field)
unfolding encode_packet encode_payload
encode_packet-exact m version t = elim (Bool-cases (version == 1)) [
  | inr other ↦ rw other
  | inl same ↦ elim (Bool-cases (has_invalid_field m)) [
    | inl bad ↦ rw (same, bad)
    | inr good ↦ rw ((==_iff version 1).0 same) (encode_packet-valid m t good ∙ rw good)
  ]
]

pub encode_packet-ok :
    (m : Message) {bytes : Bytes}
    → IsTyped m
    → encode_packet m 1 ≡ ok bytes
    → (has_invalid_field m ≡ false) × (packet_bytes m ≡ bytes)
encode_packet-ok m t h = ground (arith, encode_packet-exact m 1 t)

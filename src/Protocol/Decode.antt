-- ===== src/Protocol/Decode.antt =====
-- `DecodePayload` and `DecodePacket` of shared/src/protocol.cpp.
pub mod Fields
pub mod Accepts
pub mod RoundTrip
pub mod Takes
pub mod Inversion
pub mod Cases
pub mod Canonical
use custommodels.Base.{
  ℕ, not, ◌||◌, ◌&&◌, [], leb, ltb, ◌==◌, if◌then◌else◌, length, take, drop, Result, ok, err, ◌>>=◌,
  ◌>>◌, guard, or_fail,
}
use custommodels.Version.{version_of_code}
use custommodels.Assets.{
  Bytes, AssetDescription, is_asset_description_valid, maximum_assets_per_manifest,
  asset_type_of_code,
}
use custommodels.Protocol.Types.{
  MessageType, Message, Packet, hello, welcome, reject, ping, pong, manifest_begin, manifest_asset,
  manifest_end, asset_ready, asset_error, DecodeError, truncated_header, invalid_magic,
  unsupported_protocol_version, truncated_payload, payload_length_mismatch, unknown_message_type,
  ByteView, null_view, view, message_type_of_code, reject_of_code, asset_error_of_code, magic,
  protocol_version, header_size, maximum_payload_size,
}
use custommodels.Protocol.Checks.{
  is_samp_version_value_valid, are_capabilities_valid, is_reject_reason_valid,
  is_manifest_boundary_valid, is_asset_error_reason_valid, is_known_message_type,
}
use Fields.{
  read_hello, read_welcome, read_reject, read_ping, read_pong, read_manifest_begin,
  read_asset_position, read_asset_fields, read_manifest_end, read_asset_ready, read_asset_error,
  read_header,
}

unfoldable pub read_asset_description : Bytes → Result DecodeError (AssetDescription × Bytes)
read_asset_description reader = do
  (wire, rest) ← or_fail (read_asset_fields reader) truncated_payload
  let asset = record (wire.0) { type = asset_type_of_code wire.1 }
  guard (is_asset_description_valid asset) DecodeError.invalid_field
  ok (asset, rest)

-- One case of the `switch` each: the message, and what the reader has left.
abbrev pub Decoded : Type 0
Decoded = Result DecodeError (Message × Bytes)

unfoldable pub decode_hello : Bytes → Decoded
decode_hello reader = do
  (wire, rest) ← or_fail (read_hello reader) truncated_payload
  guard (is_samp_version_value_valid wire.1 && are_capabilities_valid (wire.0).capabilities)
      DecodeError.invalid_field
  ok (hello (record (wire.0) { samp_version = version_of_code wire.1 }), rest)

unfoldable pub decode_welcome : Bytes → Decoded
decode_welcome reader = do
  (value, rest) ← or_fail (read_welcome reader) truncated_payload
  guard (are_capabilities_valid value.negotiated_capabilities) DecodeError.invalid_field
  ok (welcome value, rest)

unfoldable pub decode_reject : Bytes → Decoded
decode_reject reader = do
  (reason, rest) ← or_fail (read_reject reader) truncated_payload
  guard (is_reject_reason_valid reason) DecodeError.invalid_field
  ok (reject (record { reason = reject_of_code reason }), rest)

unfoldable pub decode_ping : Bytes → Decoded
decode_ping reader = do
  (value, rest) ← or_fail (read_ping reader) truncated_payload
  ok (ping value, rest)

unfoldable pub decode_pong : Bytes → Decoded
decode_pong reader = do
  (value, rest) ← or_fail (read_pong reader) truncated_payload
  ok (pong value, rest)

unfoldable pub decode_manifest_begin : Bytes → Decoded
decode_manifest_begin reader = do
  (value, rest) ← or_fail (read_manifest_begin reader) truncated_payload
  guard
      (is_manifest_boundary_valid value.manifest_revision value.asset_count
        value.total_download_size)
      DecodeError.invalid_field
  ok (manifest_begin value, rest)

unfoldable pub decode_manifest_asset : Bytes → Decoded
decode_manifest_asset reader = do
  (position, fields) ← or_fail (read_asset_position reader) truncated_payload
  (asset, rest) ← read_asset_description fields
  guard (not (position.0 == 0 || leb maximum_assets_per_manifest position.1))
      DecodeError.invalid_field
  ok (
    manifest_asset
        (record { manifest_revision = position.0; asset_index = position.1; asset = asset }),
    rest,
  )

unfoldable pub decode_manifest_end : Bytes → Decoded
decode_manifest_end reader = do
  (value, rest) ← or_fail (read_manifest_end reader) truncated_payload
  guard
      (is_manifest_boundary_valid value.manifest_revision value.asset_count
        value.total_download_size)
      DecodeError.invalid_field
  ok (manifest_end value, rest)

unfoldable pub decode_asset_ready : Bytes → Decoded
decode_asset_ready reader = do
  (value, rest) ← or_fail (read_asset_ready reader) truncated_payload
  guard (not (value.manifest_revision == 0 || value.asset_id == 0)) DecodeError.invalid_field
  ok (asset_ready value, rest)

unfoldable pub decode_asset_error : Bytes → Decoded
decode_asset_error reader = do
  (wire, rest) ← or_fail (read_asset_error reader) truncated_payload
  guard
      (not (
        (wire.0).manifest_revision == 0
        || (wire.0).asset_id == 0
        || not (is_asset_error_reason_valid wire.1)))
      DecodeError.invalid_field
  ok (asset_error (record (wire.0) { reason = asset_error_of_code wire.1 }), rest)

-- A value outside the enumeration takes no case: the caller's message is left as it was
-- constructed, a default Hello, and nothing has been read.
unfoldable pub decode_case : MessageType → Message → Bytes → Decoded
unfolding decode_hello decode_welcome decode_reject decode_ping decode_pong decode_manifest_begin
    decode_manifest_asset decode_manifest_end decode_asset_ready decode_asset_error
decode_case MessageType.hello initial = decode_hello
decode_case MessageType.welcome initial = decode_welcome
decode_case MessageType.reject initial = decode_reject
decode_case MessageType.ping initial = decode_ping
decode_case MessageType.pong initial = decode_pong
decode_case MessageType.manifest_begin initial = decode_manifest_begin
decode_case MessageType.manifest_asset initial = decode_manifest_asset
decode_case MessageType.manifest_end initial = decode_manifest_end
decode_case MessageType.asset_ready initial = decode_asset_ready
decode_case MessageType.asset_error initial = decode_asset_error
decode_case (MessageType.undeclared n) initial = λ reader. ok (initial, reader)

unfoldable pub decode_payload : MessageType → Bytes → Message → Result DecodeError Message
decode_payload type payload initial = do
  (message, rest) ← decode_case type initial payload
  guard (length rest == 0) payload_length_mismatch
  ok message

-- `Packet packet{}`: the first alternative of the variant, with every field at its default.
abbrev pub default_message : Message
default_message = hello (record {
  runtime_version = record { major = 0; minor = 0; patch = 0 };
  protocol_version = 0;
  samp_version = version_of_code 0;
  capabilities = 0;
})

unfoldable pub decode_packet : ByteView → Result DecodeError Packet
decode_packet (null_view size) = err truncated_header
decode_packet (view bytes) = do
  guard (not (ltb (length bytes) header_size)) truncated_header
  (header, rest) ← or_fail (read_header bytes) truncated_header
  guard (header.magic == magic) invalid_magic
  guard (header.version == protocol_version) unsupported_protocol_version
  guard (not (ltb maximum_payload_size header.payload_size)) DecodeError.oversized_payload
  guard (not (ltb (length rest) header.payload_size)) truncated_payload
  guard (header.payload_size == length rest) payload_length_mismatch
  guard (is_known_message_type header.message_type) unknown_message_type
  let payload = take header.payload_size (drop header_size bytes)
  message ← decode_payload (message_type_of_code header.message_type) payload default_message
  ok (record { protocol_version = header.version; message = message })

-- ===== src/Protocol/Encode.antt =====
-- `EncodePayload` and `EncodePacket` of shared/src/protocol.cpp.
pub mod Fields
pub mod Exact
pub mod Packet
use custommodels.Base.{
  ℕ, ◌%◌, ◌^◌, Bool, true, false, not, ◌||◌, [], Option, none, some, ltb, leb, ◌==◌, if◌then◌else◌,
  length, Result, ok, err, ◌>>=◌, ◌>>◌, guard, or_fail,
}
use custommodels.Version.{version_code}
use custommodels.Assets.{Bytes, is_asset_description_valid, maximum_assets_per_manifest}
use custommodels.Protocol.Types.{
  MessageType, Message, hello, welcome, reject, ping, pong, manifest_begin, manifest_asset,
  manifest_end, asset_ready, asset_error, EncodeError, message_type_code, reject_code,
  asset_error_code, protocol_version, maximum_payload_size,
}
use custommodels.Protocol.Checks.{
  is_samp_version_value_valid, are_capabilities_valid, is_reject_reason_valid,
  is_manifest_boundary_valid, is_asset_error_reason_valid,
}
use Fields.{
  write_hello, write_welcome, write_reject, write_ping, write_pong, write_manifest_begin,
  write_manifest_asset, write_manifest_end, write_asset_ready, write_asset_error, write_packet,
}

unfoldable pub type_of : Message → MessageType
type_of (hello m) = MessageType.hello
type_of (welcome m) = MessageType.welcome
type_of (reject m) = MessageType.reject
type_of (ping m) = MessageType.ping
type_of (pong m) = MessageType.pong
type_of (manifest_begin m) = MessageType.manifest_begin
type_of (manifest_asset m) = MessageType.manifest_asset
type_of (manifest_end m) = MessageType.manifest_end
type_of (asset_ready m) = MessageType.asset_ready
type_of (asset_error m) = MessageType.asset_error

-- The checks on the fields of each message; the source answers `InvalidField` where one fails.
unfoldable pub has_invalid_field : Message → Bool
has_invalid_field (hello m) =
    not (is_samp_version_value_valid (version_code m.samp_version))
    || not (are_capabilities_valid m.capabilities)
has_invalid_field (welcome m) = not (are_capabilities_valid m.negotiated_capabilities)
has_invalid_field (reject m) = not (is_reject_reason_valid (reject_code m.reason))
has_invalid_field (ping m) = false
has_invalid_field (pong m) = false
has_invalid_field (manifest_begin m) =
    not (is_manifest_boundary_valid m.manifest_revision m.asset_count m.total_download_size)
has_invalid_field (manifest_asset m) =
    m.manifest_revision == 0
    || leb maximum_assets_per_manifest m.asset_index
    || not (is_asset_description_valid m.asset)
has_invalid_field (manifest_end m) =
    not (is_manifest_boundary_valid m.manifest_revision m.asset_count m.total_download_size)
has_invalid_field (asset_ready m) = m.manifest_revision == 0 || m.asset_id == 0
has_invalid_field (asset_error m) =
    m.manifest_revision == 0
    || m.asset_id == 0
    || not (is_asset_error_reason_valid (asset_error_code m.reason))

-- The writes of each message, in order.
unfoldable pub write_message : Message → Bytes → Option Bytes
unfolding write_hello write_welcome write_reject write_ping write_pong write_manifest_begin
    write_manifest_asset write_manifest_end write_asset_ready write_asset_error
write_message (hello m) = write_hello m
write_message (welcome m) = write_welcome m
write_message (reject m) = write_reject m
write_message (ping m) = write_ping m
write_message (pong m) = write_pong m
write_message (manifest_begin m) = write_manifest_begin m
write_message (manifest_asset m) = write_manifest_asset m
write_message (manifest_end m) = write_manifest_end m
write_message (asset_ready m) = write_asset_ready m
write_message (asset_error m) = write_asset_error m

unfoldable pub encode_payload : Message → Bytes → Result EncodeError Bytes
encode_payload m writer = do
  guard (not (has_invalid_field m)) EncodeError.invalid_field
  or_fail (write_message m writer) EncodeError.oversized_payload

unfoldable pub encode_packet : Message → ℕ → Result EncodeError Bytes
encode_packet m version = do
  guard (version == protocol_version) EncodeError.invalid_field
  payload ← encode_payload m []
  guard (not (ltb maximum_payload_size (length payload) || ltb 0xffff_ffff (length payload)))
      EncodeError.oversized_payload
  or_fail (write_packet version (message_type_code (type_of m)) payload [])
      EncodeError.oversized_payload

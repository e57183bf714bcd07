-- ===== src/Protocol/Types.antt =====
-- The messages, their enumerations and the limits: shared/include/custommodel/protocol.hpp.
use Prim.Native.String.{String}
use custommodels.Base.{ℕ, ◌-◌, bit_or, ◌==◌, if◌then◌else◌}
use custommodels.Version.{RuntimeVersion, SampVersion}
use custommodels.Assets.{AssetDescription, Bytes}

-- `CMOD`.
abbrev pub magic : ℕ
magic = 0x434D4F44

abbrev pub protocol_version : ℕ
protocol_version = 1

abbrev pub header_size : ℕ
header_size = 12

abbrev pub maximum_packet_size : ℕ
maximum_packet_size = 4096

abbrev pub maximum_payload_size : ℕ
maximum_payload_size = maximum_packet_size - header_size

-- `ByteView`: a null pointer with any size, or a pointer to as many bytes as the size says.
pub data ByteView : Type 0 where
  null_view : ℕ → ByteView
  view : Bytes → ByteView

-- Of the enumerations below, `undeclared n` is a value that no enumerator names; each has its
-- underlying integer and the cast back.
pub data MessageType : Type 0 where
  hello welcome reject ping pong manifest_begin manifest_asset manifest_end : MessageType
  asset_ready asset_error : MessageType
  undeclared : ℕ → MessageType

unfoldable pub message_type_code : MessageType → ℕ
message_type_code MessageType.hello = 1
message_type_code MessageType.welcome = 2
message_type_code MessageType.reject = 3
message_type_code MessageType.ping = 4
message_type_code MessageType.pong = 5
message_type_code MessageType.manifest_begin = 6
message_type_code MessageType.manifest_asset = 7
message_type_code MessageType.manifest_end = 8
message_type_code MessageType.asset_ready = 9
message_type_code MessageType.asset_error = 10
message_type_code (MessageType.undeclared n) = n

unfoldable pub message_type_of_code : ℕ → MessageType
message_type_of_code n =
    if n == 1
    then MessageType.hello
    else if n == 2
    then MessageType.welcome
    else if n == 3
    then MessageType.reject
    else if n == 4
    then MessageType.ping
    else if n == 5
    then MessageType.pong
    else if n == 6
    then MessageType.manifest_begin
    else if n == 7
    then MessageType.manifest_asset
    else if n == 8
    then MessageType.manifest_end
    else if n == 9
    then MessageType.asset_ready
    else if n == 10
    then MessageType.asset_error
    else MessageType.undeclared n

-- The masks of `enum class Capability`.
abbrev pub char_model : ℕ
char_model = 1

abbrev pub object_model : ℕ
object_model = 2

abbrev pub dff : ℕ
dff = 4

abbrev pub txd : ℕ
txd = 8

abbrev pub sha256_cache : ℕ
sha256_cache = 16

abbrev pub declared_capabilities : ℕ
declared_capabilities =
    bit_or (bit_or (bit_or (bit_or char_model object_model) dff) txd) sha256_cache

pub data RejectReason : Type 0 where
  unsupported_protocol unsupported_client_runtime unsupported_samp_build : RejectReason
  malformed_handshake unsupported_capabilities : RejectReason
  undeclared : ℕ → RejectReason

unfoldable pub reject_code : RejectReason → ℕ
reject_code unsupported_protocol = 1
reject_code unsupported_client_runtime = 2
reject_code unsupported_samp_build = 3
reject_code malformed_handshake = 4
reject_code unsupported_capabilities = 5
reject_code (RejectReason.undeclared n) = n

unfoldable pub reject_of_code : ℕ → RejectReason
reject_of_code n =
    if n == 1
    then unsupported_protocol
    else if n == 2
    then unsupported_client_runtime
    else if n == 3
    then unsupported_samp_build
    else if n == 4
    then malformed_handshake
    else if n == 5
    then unsupported_capabilities
    else RejectReason.undeclared n

pub data AssetErrorReason : Type 0 where
  invalid_manifest unsupported_scheme network_failure timeout : AssetErrorReason
  size_mismatch hash_mismatch disk_failure internal_error : AssetErrorReason
  undeclared : ℕ → AssetErrorReason

unfoldable pub asset_error_code : AssetErrorReason → ℕ
asset_error_code invalid_manifest = 1
asset_error_code unsupported_scheme = 2
asset_error_code network_failure = 3
asset_error_code timeout = 4
asset_error_code size_mismatch = 5
asset_error_code hash_mismatch = 6
asset_error_code disk_failure = 7
asset_error_code internal_error = 8
asset_error_code (AssetErrorReason.undeclared n) = n

unfoldable pub asset_error_of_code : ℕ → AssetErrorReason
asset_error_of_code n =
    if n == 1
    then invalid_manifest
    else if n == 2
    then unsupported_scheme
    else if n == 3
    then network_failure
    else if n == 4
    then timeout
    else if n == 5
    then size_mismatch
    else if n == 6
    then hash_mismatch
    else if n == 7
    then disk_failure
    else if n == 8
    then internal_error
    else AssetErrorReason.undeclared n

pub record Hello : Type 0 where
  pub runtime_version : RuntimeVersion
  pub protocol_version : ℕ
  pub samp_version : SampVersion
  pub capabilities : ℕ

pub record Welcome : Type 0 where
  pub accepted_protocol_version : ℕ
  pub server_runtime_version : RuntimeVersion
  pub server_protocol_version : ℕ
  pub negotiated_capabilities : ℕ

pub record Reject : Type 0 where
  pub reason : RejectReason

pub record Ping : Type 0 where
  pub nonce : ℕ

pub record Pong : Type 0 where
  pub nonce : ℕ

pub record ManifestBegin : Type 0 where
  pub manifest_revision : ℕ
  pub asset_count : ℕ
  pub total_download_size : ℕ

pub record ManifestAsset : Type 0 where
  pub manifest_revision : ℕ
  pub asset_index : ℕ
  pub asset : AssetDescription

pub record ManifestEnd : Type 0 where
  pub manifest_revision : ℕ
  pub asset_count : ℕ
  pub total_download_size : ℕ

pub record AssetReady : Type 0 where
  pub manifest_revision : ℕ
  pub asset_id : ℕ

pub record AssetError : Type 0 where
  pub manifest_revision : ℕ
  pub asset_id : ℕ
  pub reason : AssetErrorReason

-- `std::variant` of the ten messages.
pub data Message : Type 0 where
  hello : Hello → Message
  welcome : Welcome → Message
  reject : Reject → Message
  ping : Ping → Message
  pong : Pong → Message
  manifest_begin : ManifestBegin → Message
  manifest_asset : ManifestAsset → Message
  manifest_end : ManifestEnd → Message
  asset_ready : AssetReady → Message
  asset_error : AssetError → Message

pub record Packet : Type 0 where
  pub protocol_version : ℕ
  pub message : Message

-- The errors other than `None`: a result is a value or one of these.
pub data EncodeError : Type 0 where
  invalid_field oversized_payload : EncodeError

pub data DecodeError : Type 0 where
  truncated_header invalid_magic unsupported_protocol_version oversized_payload : DecodeError
  truncated_payload payload_length_mismatch unknown_message_type invalid_field : DecodeError

unfoldable pub decode_error_to_string : DecodeError → String
decode_error_to_string truncated_header = "truncated header"
decode_error_to_string invalid_magic = "invalid magic"
decode_error_to_string unsupported_protocol_version = "unsupported protocol version"
decode_error_to_string DecodeError.oversized_payload = "oversized payload"
decode_error_to_string truncated_payload = "truncated payload"
decode_error_to_string payload_length_mismatch = "payload length mismatch"
decode_error_to_string unknown_message_type = "unknown message type"
decode_error_to_string DecodeError.invalid_field = "invalid field"

unfoldable pub reject_to_string : RejectReason → String
reject_to_string unsupported_protocol = "unsupported protocol"
reject_to_string unsupported_client_runtime = "unsupported client runtime"
reject_to_string unsupported_samp_build = "unsupported SA-MP build"
reject_to_string malformed_handshake = "malformed handshake"
reject_to_string unsupported_capabilities = "unsupported capabilities"
reject_to_string (RejectReason.undeclared n) = "unknown rejection reason"

unfoldable pub asset_error_to_string : AssetErrorReason → String
asset_error_to_string invalid_manifest = "invalid manifest"
asset_error_to_string unsupported_scheme = "unsupported scheme"
asset_error_to_string network_failure = "network failure"
asset_error_to_string timeout = "timeout"
asset_error_to_string size_mismatch = "size mismatch"
asset_error_to_string hash_mismatch = "hash mismatch"
asset_error_to_string disk_failure = "disk failure"
asset_error_to_string internal_error = "internal error"
asset_error_to_string (AssetErrorReason.undeclared n) = "unknown asset error"

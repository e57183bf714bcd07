-- ===== src/Protocol/Encode/Fields.antt =====
-- The order in which the fields of each message are written: shared/src/protocol.cpp.
use custommodels.Base.{ℕ, ◌%◌, ◌^◌, length}
use custommodels.Version.{RuntimeVersion, version_code}
use custommodels.Assets.{Bytes, AssetDescription, asset_type_code}
use custommodels.Protocol.Types.{
  Hello, Welcome, Reject, Ping, Pong, ManifestBegin, ManifestAsset, ManifestEnd, AssetReady,
  AssetError, magic, reject_code, asset_error_code,
}
use custommodels.Protocol.Writer.{
  Writer, ◌>>◌, write_u16, write_u32, write_u64, write_bytes, write_string, write_each,
}

unfoldable pub write_runtime_version : RuntimeVersion → Writer
write_runtime_version v = do write_u16 v.major; write_u16 v.minor; write_u16 v.patch

unfoldable pub write_asset_description : AssetDescription → Writer
write_asset_description asset = do
  write_u32 asset.asset_id
  write_u16 (asset_type_code asset.type)
  write_string asset.logical_name
  write_string asset.download_url
  write_u64 asset.file_size
  write_bytes asset.sha256

unfoldable pub write_hello : Hello → Writer
write_hello m = do
  write_runtime_version m.runtime_version
  write_u16 m.protocol_version
  write_u16 (version_code m.samp_version)
  write_u32 m.capabilities

unfoldable pub write_welcome : Welcome → Writer
write_welcome m = do
  write_u16 m.accepted_protocol_version
  write_runtime_version m.server_runtime_version
  write_u16 m.server_protocol_version
  write_u32 m.negotiated_capabilities

unfoldable pub write_reject : Reject → Writer
write_reject m = write_u16 (reject_code m.reason)

unfoldable pub write_ping : Ping → Writer
write_ping m = write_u64 m.nonce

unfoldable pub write_pong : Pong → Writer
write_pong m = write_u64 m.nonce

unfoldable pub write_manifest_begin : ManifestBegin → Writer
write_manifest_begin m = do
  write_u64 m.manifest_revision
  write_u32 m.asset_count
  write_u64 m.total_download_size

unfoldable pub write_manifest_asset : ManifestAsset → Writer
write_manifest_asset m = do
  write_u64 m.manifest_revision
  write_u32 m.asset_index
  write_asset_description m.asset

unfoldable pub write_manifest_end : ManifestEnd → Writer
write_manifest_end m = do
  write_u64 m.manifest_revision
  write_u32 m.asset_count
  write_u64 m.total_download_size

unfoldable pub write_asset_ready : AssetReady → Writer
write_asset_ready m = do write_u64 m.manifest_revision; write_u32 m.asset_id

unfoldable pub write_asset_error : AssetError → Writer
write_asset_error m = do
  write_u64 m.manifest_revision
  write_u32 m.asset_id
  write_u16 (asset_error_code m.reason)

-- The header and the payload.
unfoldable pub write_packet : ℕ → ℕ → Bytes → Writer
write_packet version message_type payload = do
  write_u32 magic
  write_u16 version
  write_u16 message_type
  write_u32 (length payload % 2 ^ 32)
  write_each payload

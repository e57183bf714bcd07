-- ===== src/Protocol/Decode/Fields.antt =====
-- The order in which the fields of each message are read: shared/src/protocol.cpp. Where the source
-- reads an enumeration into an integer of its own, the result is a pair with that integer, and the
-- message still has the enumeration's default.
use custommodels.Base.{ℕ}
use custommodels.Version.{RuntimeVersion, unknown}
use custommodels.Assets.{
  AssetDescription, dff, sha256_size, maximum_logical_name_length, maximum_url_length,
}
use custommodels.Protocol.Types.{
  Hello, Welcome, Ping, Pong, ManifestBegin, ManifestEnd, AssetReady, AssetError, internal_error,
}
use custommodels.Protocol.Reader.{
  Reader, ◌>>=◌, pure, read_u16, read_u32, read_u64, read_bytes, read_string,
}

unfoldable pub read_runtime_version : Reader RuntimeVersion
read_runtime_version = do
  a ← read_u16
  b ← read_u16
  c ← read_u16
  pure (record { major = a; minor = b; patch = c })

unfoldable pub read_hello : Reader (Hello × ℕ)
read_hello = do
  runtime ← read_runtime_version
  version ← read_u16
  samp ← read_u16
  flags ← read_u32
  pure (
    record {
      runtime_version = runtime;
      protocol_version = version;
      samp_version = unknown;
      capabilities = flags;
    },
    samp,
  )

unfoldable pub read_welcome : Reader Welcome
read_welcome = do
  accepted ← read_u16
  runtime ← read_runtime_version
  version ← read_u16
  flags ← read_u32
  pure (record {
    accepted_protocol_version = accepted;
    server_runtime_version = runtime;
    server_protocol_version = version;
    negotiated_capabilities = flags;
  })

unfoldable pub read_reject : Reader ℕ
read_reject = read_u16

unfoldable pub read_ping : Reader Ping
read_ping = do n ← read_u64; pure (record { nonce = n })

unfoldable pub read_pong : Reader Pong
read_pong = do n ← read_u64; pure (record { nonce = n })

unfoldable pub read_manifest_begin : Reader ManifestBegin
read_manifest_begin = do
  revision ← read_u64
  count ← read_u32
  total ← read_u64
  pure (record { manifest_revision = revision; asset_count = count; total_download_size = total })

-- The manifest revision and the asset index.
unfoldable pub read_asset_position : Reader (ℕ × ℕ)
read_asset_position = do revision ← read_u64; index ← read_u32; pure (revision, index)

unfoldable pub read_asset_fields : Reader (AssetDescription × ℕ)
read_asset_fields = do
  id ← read_u32
  type ← read_u16
  name ← read_string maximum_logical_name_length
  url ← read_string maximum_url_length
  size ← read_u64
  digest ← read_bytes sha256_size
  pure (
    record {
      asset_id = id;
      type = dff;
      logical_name = name;
      download_url = url;
      file_size = size;
      sha256 = digest;
    },
    type,
  )

unfoldable pub read_manifest_end : Reader ManifestEnd
read_manifest_end = do
  revision ← read_u64
  count ← read_u32
  total ← read_u64
  pure (record { manifest_revision = revision; asset_count = count; total_download_size = total })

unfoldable pub read_asset_ready : Reader AssetReady
read_asset_ready = do
  revision ← read_u64
  id ← read_u32
  pure (record { manifest_revision = revision; asset_id = id })

unfoldable pub read_asset_error : Reader (AssetError × ℕ)
read_asset_error = do
  revision ← read_u64
  id ← read_u32
  reason ← read_u16
  pure (record { manifest_revision = revision; asset_id = id; reason = internal_error }, reason)

-- The fields of the packet header.
pub record Header : Type 0 where
  pub magic : ℕ
  pub version : ℕ
  pub message_type : ℕ
  pub payload_size : ℕ

unfoldable pub read_header : Reader Header
read_header = do
  m ← read_u32
  v ← read_u16
  t ← read_u16
  s ← read_u32
  pure (record { magic = m; version = v; message_type = t; payload_size = s })

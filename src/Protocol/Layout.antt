-- ===== src/Protocol/Layout.antt =====
-- The wire layout as docs/protocol.md describes it, apart from the code that writes and reads it:
-- every integer in network byte order, and every text behind its length in two bytes.
pub mod Writing
pub mod Reading
pub mod Taking
use custommodels.Base.{ℕ, ◌/◌, ◌%◌, ◌^◌, ◌<◌, ◌≤◌, ◌≡◌, [], ◌∷◌, ◌++◌, length, All}
use custommodels.Version.{RuntimeVersion, SampVersion, version_code, version_of_code}
use custommodels.Assets.{Bytes, AssetDescription, asset_type_code, asset_type_of_code, sha256_size}
use custommodels.Protocol.Types.{
  Message, hello, welcome, reject, ping, pong, manifest_begin, manifest_asset, manifest_end,
  asset_ready, asset_error, magic, message_type_code, reject_code, reject_of_code, asset_error_code,
  asset_error_of_code,
}
use custommodels.Protocol.Encode.{type_of}

abbrev pub IsByte : ℕ → Type 0
IsByte b = b < 256

abbrev pub IsU16 : ℕ → Type 0
IsU16 v = v < 2 ^ 16

abbrev pub IsU32 : ℕ → Type 0
IsU32 v = v < 2 ^ 32

abbrev pub IsU64 : ℕ → Type 0
IsU64 v = v < 2 ^ 64

unfoldable pub be16 : ℕ → Bytes
be16 v = v / 256 ∷ v % 256 ∷ []

unfoldable pub be32 : ℕ → Bytes
be32 v = v / 2 ^ 24 ∷ v / 2 ^ 16 % 256 ∷ v / 2 ^ 8 % 256 ∷ v % 256 ∷ []

unfoldable pub be64 : ℕ → Bytes
be64 v = be32 (v / 2 ^ 32) ++ be32 (v % 2 ^ 32)

unfoldable pub text : Bytes → Bytes
text s = be16 (length s) ++ s

unfoldable pub runtime_bytes : RuntimeVersion → Bytes
runtime_bytes v = be16 v.major ++ (be16 v.minor ++ be16 v.patch)

unfoldable pub asset_bytes : AssetDescription → Bytes
asset_bytes a =
    be32 a.asset_id
    ++ (be16 (asset_type_code a.type)
        ++ (text a.logical_name ++ (text a.download_url ++ (be64 a.file_size ++ a.sha256))))

unfoldable pub boundary_bytes : ℕ → ℕ → ℕ → Bytes
boundary_bytes revision count total = be64 revision ++ (be32 count ++ be64 total)

-- The payload of each message.
unfoldable pub payload_bytes : Message → Bytes
unfolding boundary_bytes
payload_bytes (hello m) =
    runtime_bytes m.runtime_version
    ++ (be16 m.protocol_version ++ (be16 (version_code m.samp_version) ++ be32 m.capabilities))
payload_bytes (welcome m) =
    be16 m.accepted_protocol_version
    ++ (runtime_bytes m.server_runtime_version
        ++ (be16 m.server_protocol_version ++ be32 m.negotiated_capabilities))
payload_bytes (reject m) = be16 (reject_code m.reason)
payload_bytes (ping m) = be64 m.nonce
payload_bytes (pong m) = be64 m.nonce
payload_bytes (manifest_begin m) =
    boundary_bytes m.manifest_revision m.asset_count m.total_download_size
payload_bytes (manifest_asset m) =
    be64 m.manifest_revision ++ (be32 m.asset_index ++ asset_bytes m.asset)
payload_bytes (manifest_end m) =
    boundary_bytes m.manifest_revision m.asset_count m.total_download_size
payload_bytes (asset_ready m) = be64 m.manifest_revision ++ be32 m.asset_id
payload_bytes (asset_error m) =
    be64 m.manifest_revision ++ (be32 m.asset_id ++ be16 (asset_error_code m.reason))

-- A whole packet of protocol version 1.
unfoldable pub packet_bytes : Message → Bytes
packet_bytes m =
    be32 magic
    ++ (be16 1
        ++ (be16 (message_type_code (type_of m))
            ++ (be32 (length (payload_bytes m)) ++ payload_bytes m)))

-- The types of the fields: what a value of the C++ structure satisfies without any check. An
-- enumeration is named by an enumerator wherever one has its integer.
pub record HasVersion (v : RuntimeVersion) : Type 0 where
  pub major : IsU16 v.major
  pub minor : IsU16 v.minor
  pub patch : IsU16 v.patch

pub record IsAsset (a : AssetDescription) : Type 0 where
  pub asset_id : IsU32 a.asset_id
  pub type : asset_type_of_code (asset_type_code a.type) ≡ a.type
  pub logical_name : All IsByte a.logical_name
  pub download_url : All IsByte a.download_url
  pub file_size : IsU64 a.file_size
  pub sha256 : All IsByte a.sha256
  pub digest_size : length a.sha256 ≡ sha256_size

abbrev pub IsTyped : Message → Type 0
IsTyped (hello m) =
    HasVersion m.runtime_version
    × IsU16 m.protocol_version
    × (version_of_code (version_code m.samp_version) ≡ m.samp_version)
    × IsU32 m.capabilities
IsTyped (welcome m) =
    IsU16 m.accepted_protocol_version
    × HasVersion m.server_runtime_version
    × IsU16 m.server_protocol_version
    × IsU32 m.negotiated_capabilities
IsTyped (reject m) = reject_of_code (reject_code m.reason) ≡ m.reason
IsTyped (ping m) = IsU64 m.nonce
IsTyped (pong m) = IsU64 m.nonce
IsTyped (manifest_begin m) =
    IsU64 m.manifest_revision × IsU32 m.asset_count × IsU64 m.total_download_size
IsTyped (manifest_asset m) = IsU64 m.manifest_revision × IsU32 m.asset_index × IsAsset m.asset
IsTyped (manifest_end m) =
    IsU64 m.manifest_revision × IsU32 m.asset_count × IsU64 m.total_download_size
IsTyped (asset_ready m) = IsU64 m.manifest_revision × IsU32 m.asset_id
IsTyped (asset_error m) =
    IsU64 m.manifest_revision
    × IsU32 m.asset_id
    × (asset_error_of_code (asset_error_code m.reason) ≡ m.reason)

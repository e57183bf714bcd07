-- ===== src/Protocol/Decode/Accepts.antt =====
-- `DecodePayload` of shared/src/protocol.cpp on the layout of a message without an invalid field.
use custommodels.Base.{
  ℕ, ◌≡◌, true, false, [], ◌++◌, some, arith, ok, ◌∙◌, ap, append-nil, append_assoc, sym,
}
use custommodels.Version.{RuntimeVersion, version_code, unknown}
use custommodels.Assets.{
  Bytes, AssetDescription, asset_type_code, is_asset_description_valid, is_asset_type_valid, dff,
}
use custommodels.Assets.Spec.{is_asset_description_valid→IsValidAsset}
use custommodels.Protocol.Types.{
  Message, hello, welcome, reject, ping, pong, manifest_begin, manifest_asset, manifest_end,
  asset_ready, asset_error, reject_code, asset_error_code, Hello, AssetError, internal_error,
  ManifestAsset, Welcome, Reject, Ping, Pong, ManifestBegin, ManifestEnd, AssetReady,
}
use custommodels.Protocol.Checks.{
  is_samp_version_value_valid, is_reject_reason_valid, is_asset_error_reason_valid,
}
use custommodels.Protocol.Encode.{type_of, has_invalid_field}
use custommodels.Protocol.Decode.{decode_case, read_asset_description}
use custommodels.Protocol.Decode.Fields.{
  read_runtime_version, read_hello, read_welcome, read_reject, read_ping, read_pong,
  read_manifest_begin, read_asset_position, read_asset_fields, read_manifest_end, read_asset_ready,
  read_asset_error,
}
use custommodels.Protocol.Reader.{Reader}
use custommodels.Protocol.Layout.{
  HasVersion, IsAsset, IsTyped, runtime_bytes, asset_bytes, payload_bytes, be64, IsU64, IsU32, be32,
}
use custommodels.Protocol.Layout.Reading.{
  Reads, >>=-Reads, pure-Reads, read_u16-Reads, read_u32-Reads, read_u64-Reads, read_bytes-Reads,
  read_string-Reads,
}

read_runtime_version-Reads :
    (v : RuntimeVersion) → HasVersion v → Reads read_runtime_version (runtime_bytes v) v
unfolding read_runtime_version runtime_bytes
read_runtime_version-Reads v t = >>=-Reads _ _ _ _ _ _ (read_u16-Reads v.major t.major) (
    >>=-Reads _ _ _ _ _ _ (read_u16-Reads v.minor t.minor)
      (pure-Reads _ _ _ _ (read_u16-Reads v.patch t.patch)))

read_asset_fields-Reads :
    (a : AssetDescription)
    → IsAsset a
    → is_asset_description_valid a ≡ true
    → Reads read_asset_fields (asset_bytes a) (record a { type = dff }, asset_type_code a.type)
unfolding read_asset_fields asset_bytes is_asset_description_valid is_asset_type_valid
    asset_type_code
read_asset_fields-Reads a t h =
    let valid = is_asset_description_valid→IsValidAsset a h in
    >>=-Reads _ _ _ _ _ _ (read_u32-Reads a.asset_id t.asset_id) (
      >>=-Reads _ _ _ _ _ _ (read_u16-Reads (asset_type_code a.type) (ground arith)) (
        >>=-Reads _ _ _ _ _ _
          (read_string-Reads 96 a.logical_name (omega (arith, valid.name_fits)) valid.name_fits)
          (>>=-Reads _ _ _ _ _ _
            (read_string-Reads 2048 a.download_url (omega (arith, valid.url_fits)) valid.url_fits)
            (>>=-Reads _ _ _ _ _ _ (read_u64-Reads a.file_size t.file_size)
              (pure-Reads _ _ _ _ (read_bytes-Reads 32 a.sha256 t.digest_size))))))

read_hello-Reads :
    (m : Hello)
    → IsTyped (hello m)
    → has_invalid_field (hello m) ≡ false
    → Reads read_hello
        (payload_bytes (hello m))
        (record m { samp_version = unknown }, version_code m.samp_version)
unfolding read_hello payload_bytes has_invalid_field is_samp_version_value_valid
read_hello-Reads m t h = >>=-Reads _ _ _ _ _ _ (read_runtime_version-Reads m.runtime_version t.0) (
    >>=-Reads _ _ _ _ _ _ (read_u16-Reads m.protocol_version t.1) (
      >>=-Reads _ _ _ _ _ _ (read_u16-Reads (version_code m.samp_version) (ground arith))
        (pure-Reads _ _ _ _ (read_u32-Reads m.capabilities t.3))))

read_welcome-Reads :
    (m : Welcome) → IsTyped (welcome m) → Reads read_welcome (payload_bytes (welcome m)) m
unfolding read_welcome payload_bytes
read_welcome-Reads m t = >>=-Reads _ _ _ _ _ _ (read_u16-Reads m.accepted_protocol_version t.0) (
    >>=-Reads _ _ _ _ _ _ (read_runtime_version-Reads m.server_runtime_version t.1) (
      >>=-Reads _ _ _ _ _ _ (read_u16-Reads m.server_protocol_version t.2)
        (pure-Reads _ _ _ _ (read_u32-Reads m.negotiated_capabilities t.3))))

read_ping-Reads : (m : Ping) → IsTyped (ping m) → Reads read_ping (payload_bytes (ping m)) m
unfolding read_ping payload_bytes
read_ping-Reads m t = pure-Reads _ _ _ _ (read_u64-Reads m.nonce t)

read_pong-Reads : (m : Pong) → IsTyped (pong m) → Reads read_pong (payload_bytes (pong m)) m
unfolding read_pong payload_bytes
read_pong-Reads m t = pure-Reads _ _ _ _ (read_u64-Reads m.nonce t)

read_reject-Reads :
    (m : Reject)
    → has_invalid_field (reject m) ≡ false
    → Reads read_reject (payload_bytes (reject m)) (reject_code m.reason)
unfolding read_reject payload_bytes has_invalid_field is_reject_reason_valid
read_reject-Reads m h = read_u16-Reads (reject_code m.reason) (ground arith)

read_manifest_begin-Reads :
    (m : ManifestBegin)
    → IsTyped (manifest_begin m)
    → Reads read_manifest_begin (payload_bytes (manifest_begin m)) m
unfolding read_manifest_begin payload_bytes
read_manifest_begin-Reads m t = >>=-Reads _ _ _ _ _ _ (read_u64-Reads m.manifest_revision t.0) (
    >>=-Reads _ _ _ _ _ _ (read_u32-Reads m.asset_count t.1)
      (pure-Reads _ _ _ _ (read_u64-Reads m.total_download_size t.2)))

read_manifest_end-Reads :
    (m : ManifestEnd)
    → IsTyped (manifest_end m)
    → Reads read_manifest_end (payload_bytes (manifest_end m)) m
unfolding read_manifest_end payload_bytes
read_manifest_end-Reads m t = >>=-Reads _ _ _ _ _ _ (read_u64-Reads m.manifest_revision t.0) (
    >>=-Reads _ _ _ _ _ _ (read_u32-Reads m.asset_count t.1)
      (pure-Reads _ _ _ _ (read_u64-Reads m.total_download_size t.2)))

read_asset_position-Reads :
    (revision index : ℕ)
    → IsU64 revision
    → IsU32 index
    → Reads read_asset_position (be64 revision ++ be32 index) (revision, index)
unfolding read_asset_position
read_asset_position-Reads revision index hr hi =
    >>=-Reads _ _ _ _ _ _ (read_u64-Reads revision hr)
      (pure-Reads _ _ _ _ (read_u32-Reads index hi))

read_asset_ready-Reads :
    (m : AssetReady)
    → IsTyped (asset_ready m)
    → Reads read_asset_ready (payload_bytes (asset_ready m)) m
unfolding read_asset_ready payload_bytes
read_asset_ready-Reads m t =
    >>=-Reads _ _ _ _ _ _ (read_u64-Reads m.manifest_revision t.0)
      (pure-Reads _ _ _ _ (read_u32-Reads m.asset_id t.1))

read_asset_error-Reads :
    (m : AssetError)
    → IsTyped (asset_error m)
    → has_invalid_field (asset_error m) ≡ false
    → Reads read_asset_error
        (payload_bytes (asset_error m))
        (record m { reason = internal_error }, asset_error_code m.reason)
unfolding read_asset_error payload_bytes has_invalid_field is_asset_error_reason_valid
read_asset_error-Reads m t h = >>=-Reads _ _ _ _ _ _ (read_u64-Reads m.manifest_revision t.0) (
    >>=-Reads _ _ _ _ _ _ (read_u32-Reads m.asset_id t.1)
      (pure-Reads _ _ _ _ (read_u16-Reads (asset_error_code m.reason) (ground arith))))

-- A `Reads` fact where nothing follows.
whole {ℓ} : {A : Type ℓ} (r : Reader A) (l : Bytes) {a : A} → Reads r l a → r l ≡ some (a, [])
whole r l h = ap r (sym (append-nil l)) ∙ h []

read_asset_description-whole :
    (a : AssetDescription)
    → IsAsset a
    → is_asset_description_valid a ≡ true
    → read_asset_description (asset_bytes a) ≡ ok (a, [])
unfolding read_asset_description
read_asset_description-whole a t h =
    let fields = whole read_asset_fields (asset_bytes a) (read_asset_fields-Reads a t h) in
    ground (arith, fields, t.type)

read_asset_position-first :
    (m : ManifestAsset)
    → IsTyped (manifest_asset m)
    → read_asset_position (payload_bytes (manifest_asset m))
      ≡ some ((m.manifest_revision, m.asset_index), asset_bytes m.asset)
unfolding payload_bytes
read_asset_position-first m t =
    ap read_asset_position
      (sym (append_assoc (be64 m.manifest_revision) (be32 m.asset_index) (asset_bytes m.asset)))
    ∙ read_asset_position-Reads m.manifest_revision m.asset_index t.0 t.1 (asset_bytes m.asset)

-- `DecodePayload` takes the payload of every message without an invalid field back to it.
pub decode_case-payload_bytes :
    (initial m : Message)
    → IsTyped m
    → has_invalid_field m ≡ false
    → decode_case (type_of m) initial (payload_bytes m) ≡ ok (m, [])
unfolding decode_case type_of has_invalid_field
decode_case-payload_bytes initial (hello m) t h =
    ground (arith, whole read_hello (payload_bytes (hello m)) (read_hello-Reads m t h))
decode_case-payload_bytes initial (welcome m) t h =
    ground (arith, whole read_welcome (payload_bytes (welcome m)) (read_welcome-Reads m t))
decode_case-payload_bytes initial (reject m) t h =
    ground (arith, whole read_reject (payload_bytes (reject m)) (read_reject-Reads m h))
decode_case-payload_bytes initial (ping m) t h =
    ground (arith, whole read_ping (payload_bytes (ping m)) (read_ping-Reads m t))
decode_case-payload_bytes initial (pong m) t h =
    ground (arith, whole read_pong (payload_bytes (pong m)) (read_pong-Reads m t))
decode_case-payload_bytes initial (manifest_begin m) t h = ground (
  arith,
  whole read_manifest_begin (payload_bytes (manifest_begin m)) (read_manifest_begin-Reads m t),
)
decode_case-payload_bytes initial (manifest_asset m) t h =
    let asset = read_asset_description-whole m.asset t.2 (ground arith) in
    ground (arith, read_asset_position-first m t, asset)
decode_case-payload_bytes initial (manifest_end m) t h =
    ground (
      arith,
      whole read_manifest_end (payload_bytes (manifest_end m)) (read_manifest_end-Reads m t),
    )
decode_case-payload_bytes initial (asset_ready m) t h =
    ground
      (arith, whole read_asset_ready (payload_bytes (asset_ready m)) (read_asset_ready-Reads m t))
decode_case-payload_bytes initial (asset_error m) t h =
    ground
      (arith, whole read_asset_error (payload_bytes (asset_error m)) (read_asset_error-Reads m t h))

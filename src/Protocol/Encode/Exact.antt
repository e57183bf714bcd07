-- ===== src/Protocol/Encode/Exact.antt =====
-- What `EncodePacket` of shared/src/protocol.cpp writes for a message without an invalid field.
use custommodels.Base.{◌^◌, ◌<◌, ◌≡◌, true, false, arith}
use custommodels.Version.{RuntimeVersion, version_code}
use custommodels.Assets.{
  AssetDescription, asset_type_code, is_asset_description_valid, is_asset_type_valid,
}
use custommodels.Assets.Spec.{is_asset_description_valid→IsValidAsset}
use custommodels.Protocol.Types.{
  Message, hello, welcome, reject, ping, pong, manifest_begin, manifest_asset, manifest_end,
  asset_ready, asset_error, reject_code, asset_error_code,
}
use custommodels.Protocol.Checks.{
  is_samp_version_value_valid, is_reject_reason_valid, is_asset_error_reason_valid,
}
use custommodels.Protocol.Encode.{has_invalid_field, write_message}
use custommodels.Protocol.Encode.Fields.{write_runtime_version, write_asset_description}
use custommodels.Protocol.Layout.{
  HasVersion, IsAsset, IsTyped, runtime_bytes, asset_bytes, payload_bytes,
}
use custommodels.Protocol.Layout.Writing.{
  Writes, >>-Writes, write_u16-Writes, write_u32-Writes, write_u64-Writes, write_bytes-Writes,
  write_string-Writes,
}

write_runtime_version-Writes :
    (v : RuntimeVersion) → HasVersion v → Writes (write_runtime_version v) (runtime_bytes v)
unfolding write_runtime_version runtime_bytes
write_runtime_version-Writes v t =
    >>-Writes _ _ _ _ (write_u16-Writes v.major t.major)
      (>>-Writes _ _ _ _ (write_u16-Writes v.minor t.minor) (write_u16-Writes v.patch t.patch))

asset_type_code-lt :
    (a : AssetDescription) → is_asset_description_valid a ≡ true → asset_type_code a.type < 2 ^ 16
unfolding is_asset_description_valid is_asset_type_valid asset_type_code
asset_type_code-lt a h = ground arith

write_asset_description-Writes :
    (a : AssetDescription)
    → IsAsset a
    → is_asset_description_valid a ≡ true
    → Writes (write_asset_description a) (asset_bytes a)
unfolding write_asset_description asset_bytes
write_asset_description-Writes a t h =
    let valid = is_asset_description_valid→IsValidAsset a h in
    >>-Writes _ _ _ _ (write_u32-Writes a.asset_id t.asset_id) (
      >>-Writes _ _ _ _ (write_u16-Writes _ (asset_type_code-lt a h)) (
        >>-Writes _ _ _ _ (write_string-Writes a.logical_name (omega (arith, valid.name_fits))) (
          >>-Writes _ _ _ _ (write_string-Writes a.download_url (omega (arith, valid.url_fits))) (
            >>-Writes _ _ _ _ (write_u64-Writes a.file_size t.file_size)
              (write_bytes-Writes a.sha256)))))

-- The fields of every message without an invalid field go out as the layout has them.
pub write_message-Writes :
    (m : Message)
    → IsTyped m
    → has_invalid_field m ≡ false
    → Writes (write_message m) (payload_bytes m)
unfolding write_message payload_bytes has_invalid_field is_samp_version_value_valid
    is_reject_reason_valid is_asset_error_reason_valid
write_message-Writes (hello m) t h =
    >>-Writes _ _ _ _ (write_runtime_version-Writes m.runtime_version t.0) (
      >>-Writes _ _ _ _ (write_u16-Writes m.protocol_version t.1) (
        >>-Writes _ _ _ _ (write_u16-Writes (version_code m.samp_version) (ground arith))
          (write_u32-Writes m.capabilities t.3)))
write_message-Writes (welcome m) t h =
    >>-Writes _ _ _ _ (write_u16-Writes m.accepted_protocol_version t.0) (
      >>-Writes _ _ _ _ (write_runtime_version-Writes m.server_runtime_version t.1) (
        >>-Writes _ _ _ _ (write_u16-Writes m.server_protocol_version t.2)
          (write_u32-Writes m.negotiated_capabilities t.3)))
write_message-Writes (reject m) t h = write_u16-Writes (reject_code m.reason) (ground arith)
write_message-Writes (ping m) t h = write_u64-Writes m.nonce t
write_message-Writes (pong m) t h = write_u64-Writes m.nonce t
write_message-Writes (manifest_begin m) t h =
    >>-Writes _ _ _ _ (write_u64-Writes m.manifest_revision t.0) (
      >>-Writes _ _ _ _ (write_u32-Writes m.asset_count t.1)
        (write_u64-Writes m.total_download_size t.2))
write_message-Writes (manifest_asset m) t h =
    >>-Writes _ _ _ _ (write_u64-Writes m.manifest_revision t.0) (
      >>-Writes _ _ _ _ (write_u32-Writes m.asset_index t.1)
        (write_asset_description-Writes m.asset t.2 (ground arith)))
write_message-Writes (manifest_end m) t h =
    >>-Writes _ _ _ _ (write_u64-Writes m.manifest_revision t.0) (
      >>-Writes _ _ _ _ (write_u32-Writes m.asset_count t.1)
        (write_u64-Writes m.total_download_size t.2))
write_message-Writes (asset_ready m) t h =
    >>-Writes _ _ _ _ (write_u64-Writes m.manifest_revision t.0) (write_u32-Writes m.asset_id t.1)
write_message-Writes (asset_error m) t h =
    >>-Writes _ _ _ _ (write_u64-Writes m.manifest_revision t.0) (
      >>-Writes _ _ _ _ (write_u32-Writes m.asset_id t.1)
        (write_u16-Writes (asset_error_code m.reason) (ground arith)))

-- ===== src/Protocol/Checks.antt =====
-- The checks on message fields: shared/src/protocol.cpp.
use custommodels.Base.{ℕ, ◌-◌, bit_and, Bool, ◌&&◌, ◌||◌, not, leb, ◌==◌}
use custommodels.Version.{r4_family, version_code}
use custommodels.Assets.{maximum_assets_per_manifest, maximum_total_download_size}
use custommodels.Protocol.Types.{
  MessageType, declared_capabilities, message_type_code, reject_code, asset_error_code,
  unsupported_protocol, unsupported_capabilities, invalid_manifest, internal_error,
}

-- `~flags` on a 32-bit word.
abbrev pub complement : ℕ → ℕ
complement flags = 0xffff_ffff - flags

-- A capability is given by its mask.
unfoldable pub has_capability : ℕ → ℕ → Bool
has_capability flags capability = not (bit_and flags capability == 0)

unfoldable pub are_capabilities_valid : ℕ → Bool
are_capabilities_valid flags = bit_and flags (complement declared_capabilities) == 0

unfoldable pub is_samp_version_value_valid : ℕ → Bool
unfolding version_code
is_samp_version_value_valid value = leb value (version_code r4_family)

unfoldable pub is_reject_reason_valid : ℕ → Bool
unfolding reject_code
is_reject_reason_valid value =
    leb (reject_code unsupported_protocol) value && leb value (reject_code unsupported_capabilities)

unfoldable pub is_asset_error_reason_valid : ℕ → Bool
unfolding asset_error_code
is_asset_error_reason_valid value =
    leb (asset_error_code invalid_manifest) value && leb value (asset_error_code internal_error)

unfoldable pub is_manifest_boundary_valid : ℕ → ℕ → ℕ → Bool
is_manifest_boundary_valid revision count total =
    not (revision == 0)
    && leb count maximum_assets_per_manifest
    && leb total maximum_total_download_size
    && (not (count == 0) || total == 0)

unfoldable pub is_known_message_type : ℕ → Bool
unfolding message_type_code
is_known_message_type value =
    leb (message_type_code MessageType.hello) value
    && leb value (message_type_code MessageType.asset_error)

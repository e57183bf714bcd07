-- ===== src/Assets.antt =====
-- Asset descriptions, their limits and their validation: shared/include/custommodel/assets.hpp and
-- shared/src/assets.cpp. A string is the list of its bytes.
pub mod Text
mod Urls
pub mod Names
pub mod Spec
pub mod Segments
pub mod Sha256
pub use Text.{Bytes}
unfoldable pub use Names.{is_logical_name_valid, maximum_logical_name_length}
unfoldable pub use Urls.{is_download_url_valid, maximum_url_length}
use Prim.Native.String.{String}
use custommodels.Base.{
  ℕ, ◌+◌, ◌-◌, ◌≡◌, Bool, true, false, ◌&&◌, ◌||◌, not, List, [], ◌∷◌, ltb, leb, ◌==◌,
  if◌then◌else◌, length,
}

abbrev pub sha256_size : ℕ
sha256_size = 32

abbrev pub maximum_assets_per_manifest : ℕ
maximum_assets_per_manifest = 256

-- 64 MiB and 512 MiB.
abbrev pub maximum_individual_file_size : ℕ
maximum_individual_file_size = 67108864

abbrev pub maximum_total_download_size : ℕ
maximum_total_download_size = 536870912

-- 1 MiB.
abbrev pub maximum_manifest_bytes : ℕ
maximum_manifest_bytes = 1048576

-- The largest `std::size_t` of the 32-bit build.
abbrev pub size_max : ℕ
size_max = 0xffff_ffff

-- An enumeration over an integer holds any integer: `undeclared n` is a value that no enumerator
-- names.
pub data AssetType : Type 0 where
  dff txd : AssetType
  undeclared : ℕ → AssetType

unfoldable pub asset_type_code : AssetType → ℕ
asset_type_code dff = 1
asset_type_code txd = 2
asset_type_code (undeclared n) = n

unfoldable pub asset_type_of_code : ℕ → AssetType
asset_type_of_code n = if n == 1 then dff else if n == 2 then txd else undeclared n

pub record AssetDescription : Type 0 where
  pub asset_id : ℕ
  pub type : AssetType
  pub logical_name : Bytes
  pub download_url : Bytes
  pub file_size : ℕ
  pub sha256 : Bytes

pub record Manifest : Type 0 where
  pub revision : ℕ
  pub assets : List AssetDescription
  pub total_download_size : ℕ

unfoldable pub is_asset_type_valid : AssetType → Bool
unfolding asset_type_code
is_asset_type_valid t =
    asset_type_code t == asset_type_code dff || asset_type_code t == asset_type_code txd

unfoldable pub is_asset_description_valid : AssetDescription → Bool
is_asset_description_valid a =
    not (a.asset_id == 0)
    && is_asset_type_valid a.type
    && is_logical_name_valid a.logical_name
    && is_download_url_valid a.download_url
    && not (a.file_size == 0)
    && leb a.file_size maximum_individual_file_size

abbrev fixed_bytes : ℕ
fixed_bytes = 8 + 4 + 4 + 2 + 2 + 2 + 8 + sha256_size

unfoldable pub serialized_asset_bytes : AssetDescription → ℕ
serialized_asset_bytes a =
    if ltb (size_max - fixed_bytes) (length a.logical_name)
      || ltb (size_max - fixed_bytes - length a.logical_name) (length a.download_url)
    then size_max
    else fixed_bytes + length a.logical_name + length a.download_url

unfoldable pub extension_for : AssetType → String
extension_for dff = ".dff"
extension_for txd = ".txd"
extension_for (undeclared n) = ""

unfoldable pub to_string : AssetType → String
to_string dff = "DFF"
to_string txd = "TXD"
to_string (undeclared n) = "unknown"

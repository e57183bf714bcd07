-- ===== src/Assets/Spec.antt =====
-- What the validation of shared/src/assets.cpp guarantees of a description.
use custommodels.Base.{◌≤◌, ◌<◌, ◌≡◌, true, arith, length}
use custommodels.Assets.{
  Bytes, AssetDescription, is_logical_name_valid, is_download_url_valid, is_asset_description_valid,
}

pub is_logical_name_valid-length :
    (name : Bytes) → is_logical_name_valid name ≡ true → length name ≤ 96
unfolding is_logical_name_valid
is_logical_name_valid-length name h = ground arith

pub is_download_url_valid-length :
    (url : Bytes) → is_download_url_valid url ≡ true → length url ≤ 2048
unfolding is_download_url_valid
is_download_url_valid-length url h = ground arith

pub record IsValidAsset (a : AssetDescription) : Type 0 where
  pub has_id : 0 < a.asset_id
  pub name_fits : length a.logical_name ≤ 96
  pub url_fits : length a.download_url ≤ 2048
  pub has_size : 0 < a.file_size
  pub size_fits : a.file_size ≤ 67108864

pub is_asset_description_valid→IsValidAsset :
    (a : AssetDescription) → is_asset_description_valid a ≡ true → IsValidAsset a
unfolding is_asset_description_valid
is_asset_description_valid→IsValidAsset a h = ground (
  arith,
  is_logical_name_valid-length a.logical_name,
  is_download_url_valid-length a.download_url,
)

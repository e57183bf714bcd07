-- ===== src/Server/Registry.antt =====
-- The asset registry: server/include/custommodel/server/asset_registry.hpp and
-- server/src/asset_registry.cpp.
pub mod Invariant
pub mod Removal
pub mod Reachable
pub mod Sorted
use Prim.Native.String.{String}
use custommodels.Base.{
  ℕ, ◌+◌, ◌-◌, ◌%◌, ◌^◌, Bool, true, false, not, List, [], ◌∷◌, Option, none, some, map, ltb, leb,
  ◌==◌, if◌then◌else◌, length, find, emplace, erase, nat_key, bytes_key,
}
use custommodels.Assets.{
  Bytes, AssetDescription, Manifest, is_asset_description_valid, maximum_assets_per_manifest,
  maximum_total_download_size,
}

pub data RegistryResult : Type 0 where
  added removed cleared not_found invalid_asset duplicate_asset_id : RegistryResult
  duplicate_logical_name asset_limit_reached total_size_exceeded : RegistryResult

pub record AssetRegistry : Type 0 where
  pub revision : ℕ
  pub total_size : ℕ
  pub assets : List (ℕ × AssetDescription)
  pub logical_names : List (Bytes × ℕ)

-- The member initialisers.
abbrev pub empty_registry : AssetRegistry
empty_registry = record { revision = 1; total_size = 0; assets = []; logical_names = [] }

-- `found != end()`.
abbrev pub is_some {ℓ} : {A : Type ℓ} → Option A → Bool
is_some none = false
is_some (some v) = true

-- The largest `std::uint64_t`.
abbrev pub u64_max : ℕ
u64_max = 2 ^ 64 - 1

-- Arithmetic on `std::uint64_t`.
abbrev pub add64 : ℕ → ℕ → ℕ
add64 a b = (a + b) % 2 ^ 64

abbrev pub sub64 : ℕ → ℕ → ℕ
sub64 a b = (a + 2 ^ 64 - b) % 2 ^ 64

unfoldable pub advance_revision : AssetRegistry → AssetRegistry
advance_revision r =
    if not (r.revision == u64_max) then record r { revision = r.revision + 1 } else r

unfoldable pub register_asset : AssetRegistry → AssetDescription → AssetRegistry × RegistryResult
unfolding advance_revision
register_asset r asset =
    if not (is_asset_description_valid asset)
    then (r, invalid_asset)
    else if is_some (find asset.asset_id r.assets)
    then (r, duplicate_asset_id)
    else if is_some (find asset.logical_name r.logical_names)
    then (r, duplicate_logical_name)
    else if leb maximum_assets_per_manifest (length r.assets)
    then (r, asset_limit_reached)
    else if ltb (sub64 maximum_total_download_size r.total_size) asset.file_size
    then (r, total_size_exceeded)
    else (
      advance_revision (record r {
        total_size = add64 r.total_size asset.file_size;
        assets = emplace asset.asset_id asset r.assets;
        logical_names = emplace asset.logical_name asset.asset_id r.logical_names;
      }),
      added,
    )

unfoldable pub remove_asset : AssetRegistry → ℕ → AssetRegistry × RegistryResult
unfolding advance_revision
remove_asset r asset_id = elim (find asset_id r.assets) [
  | none ↦ (r, not_found)
  | some asset ↦ (
    advance_revision (record r {
      total_size = sub64 r.total_size asset.file_size;
      assets = erase asset_id r.assets;
      logical_names = erase asset.logical_name r.logical_names;
    }),
    removed,
  )
]

unfoldable pub clear_assets : AssetRegistry → AssetRegistry × RegistryResult
unfolding advance_revision
clear_assets r = elim r.assets [
  | [] ↦ (r, cleared)
  | entry ∷ rest ↦
      (advance_revision (record r { total_size = 0; assets = []; logical_names = [] }), cleared)
]

-- `std::sort` by the asset id. The ids are distinct, so that every sort gives the same list.
unfoldable pub insert_sorted : AssetDescription → List AssetDescription → List AssetDescription
insert_sorted a [] = a ∷ []
insert_sorted a (b ∷ bs) = if ltb a.asset_id b.asset_id then a ∷ b ∷ bs else b ∷ insert_sorted a bs

unfoldable pub sort_assets : List AssetDescription → List AssetDescription
unfolding insert_sorted
sort_assets [] = []
sort_assets (a ∷ assets) = insert_sorted a (sort_assets assets)

abbrev pub described : List (ℕ × AssetDescription) → List AssetDescription
described entries = map (λ entry. entry.1) entries

unfoldable pub build_manifest : AssetRegistry → Manifest
unfolding sort_assets
build_manifest r = record {
  revision = r.revision;
  assets = sort_assets (described r.assets);
  total_download_size = r.total_size;
}

unfoldable pub find_asset : AssetRegistry → ℕ → Option AssetDescription
find_asset r asset_id = find asset_id r.assets

unfoldable pub size : AssetRegistry → ℕ
size r = length r.assets

unfoldable pub to_string : RegistryResult → String
to_string added = "added"
to_string removed = "removed"
to_string cleared = "cleared"
to_string not_found = "not found"
to_string invalid_asset = "invalid asset"
to_string duplicate_asset_id = "duplicate asset id"
to_string duplicate_logical_name = "duplicate logical name"
to_string asset_limit_reached = "asset limit reached"
to_string total_size_exceeded = "total size exceeded"

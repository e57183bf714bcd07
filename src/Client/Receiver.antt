-- ===== src/Client/Receiver.antt =====
-- The receiver of a manifest stream: `ManifestReceiver` of
-- client/include/custommodel/assets/manager.hpp and client/src/assets/manager.cpp.
pub mod Stream
pub mod Collecting
pub mod Safety
use custommodels.Base.{
  ℕ, ◌+◌, ◌-◌, ◌%◌, ◌^◌, Bool, true, false, not, ◌||◌, ◌&&◌, List, [], ◌∷◌, ◌++◌, Option, none,
  some, ltb, leb, ◌==◌, if◌then◌else◌, length, has, insert, nat_key, bytes_key,
}
use custommodels.Assets.{
  Bytes, AssetDescription, Manifest, is_asset_description_valid, serialized_asset_bytes,
  maximum_assets_per_manifest, maximum_total_download_size, maximum_manifest_bytes,
}
use custommodels.Protocol.Types.{
  Message, ManifestBegin, ManifestAsset, ManifestEnd, manifest_begin, manifest_asset, manifest_end,
}

pub data ManifestInputResult : Type 0 where
  ignored accepted complete invalid_order invalid_manifest : ManifestInputResult

pub data State : Type 0 where
  idle receiving complete failed : State

pub record ManifestReceiver : Type 0 where
  pub state : State
  pub manifest : Manifest
  pub expected_count : ℕ
  pub manifest_bytes : ℕ
  pub asset_ids : List ℕ
  pub logical_names : List Bytes
  pub completed : Option Manifest

-- `assets::Manifest{}`.
abbrev pub no_manifest : Manifest
no_manifest = record { revision = 0; assets = []; total_download_size = 0 }

abbrev pub initial_receiver : ManifestReceiver
initial_receiver = record {
  state = idle;
  manifest = no_manifest;
  expected_count = 0;
  manifest_bytes = 0;
  asset_ids = [];
  logical_names = [];
  completed = none;
}

-- `Reset` sets every member.
unfoldable pub reset : ManifestReceiver → ManifestReceiver
reset s = initial_receiver

abbrev pub is_idle : State → Bool
is_idle idle = true
is_idle other = false

abbrev pub is_receiving : State → Bool
is_receiving receiving = true
is_receiving other = false

-- `state_ = State::Failed` with a result.
abbrev pub fail : ManifestReceiver → ManifestInputResult → ManifestReceiver × ManifestInputResult
fail s result = (record s { state = failed }, result)

unfoldable pub handle_begin :
    ManifestReceiver → ManifestBegin → ManifestReceiver × ManifestInputResult
handle_begin s begin =
    if not (is_idle s.state)
    then fail s invalid_order
    else if begin.manifest_revision == 0
        || ltb maximum_assets_per_manifest begin.asset_count
        || ltb maximum_total_download_size begin.total_download_size
        || (begin.asset_count == 0 && not (begin.total_download_size == 0))
    then fail s invalid_manifest
    else (
      record {
        state = receiving;
        manifest = record {
          revision = begin.manifest_revision;
          assets = [];
          total_download_size = begin.total_download_size;
        };
        expected_count = begin.asset_count;
        manifest_bytes = 20;
        asset_ids = [];
        logical_names = [];
        completed = none;
      },
      accepted,
    )

-- A `std::size_t` difference of the 32-bit client.
abbrev pub sub32 : ℕ → ℕ → ℕ
sub32 a b = (a + 2 ^ 32 - b) % 2 ^ 32

-- `insert` has its effect also where a later test fails.
unfoldable pub handle_asset :
    ManifestReceiver → ManifestAsset → ManifestReceiver × ManifestInputResult
handle_asset s item =
    let asset = item.asset in
    let bytes = serialized_asset_bytes asset in
    let with_id = record s { asset_ids = insert asset.asset_id s.asset_ids } in
    if not (is_receiving s.state)
      || not (item.manifest_revision == s.manifest.revision)
      || not (item.asset_index == length s.manifest.assets)
      || leb s.expected_count (length s.manifest.assets)
    then fail s invalid_order
    else if not (is_asset_description_valid asset)
        || ltb (sub32 maximum_manifest_bytes s.manifest_bytes) bytes
    then fail s invalid_manifest
    else if has asset.asset_id s.asset_ids
    then fail s invalid_manifest
    else if has asset.logical_name s.logical_names
    then fail with_id invalid_manifest
    else (
      record with_id {
        logical_names = insert asset.logical_name s.logical_names;
        manifest_bytes = s.manifest_bytes + bytes;
        manifest = record (s.manifest) { assets = s.manifest.assets ++ (asset ∷ []) };
      },
      accepted,
    )

-- The loop over the sizes; `none` is the early return.
unfoldable pub total_sizes : ℕ → List AssetDescription → Option ℕ
total_sizes total [] = some total
total_sizes total (asset ∷ assets) =
    let rest = total_sizes (total + asset.file_size) assets in
    if ltb (maximum_total_download_size - total) asset.file_size then none else rest

unfoldable pub handle_end : ManifestReceiver → ManifestEnd → ManifestReceiver × ManifestInputResult
unfolding total_sizes
handle_end s end =
    let longer = record s { manifest_bytes = s.manifest_bytes + 20 } in
    if not (is_receiving s.state)
      || not (end.manifest_revision == s.manifest.revision)
      || not (end.asset_count == s.expected_count)
      || not (end.asset_count == length s.manifest.assets)
      || not (end.total_download_size == s.manifest.total_download_size)
    then fail s invalid_order
    else (elim (total_sizes 0 s.manifest.assets) [
      | none ↦ fail s invalid_manifest
      | some total ↦
          if not (total == s.manifest.total_download_size)
          then fail s invalid_manifest
          else if ltb maximum_manifest_bytes (s.manifest_bytes + 20)
          then fail longer invalid_manifest
          else (
            record longer { completed = some s.manifest; state = State.complete },
            ManifestInputResult.complete,
          )
    ])

-- `ManifestReceiver::Handle`.
unfoldable pub handle : ManifestReceiver → Message → ManifestReceiver × ManifestInputResult
unfolding handle_begin handle_asset handle_end
handle s (manifest_begin begin) = handle_begin s begin
handle s (manifest_asset item) = handle_asset s item
handle s (manifest_end end) = handle_end s end
handle s _ = (s, ignored)

-- The state after a sequence of messages, and the results in order.
unfoldable pub handle_all :
    ManifestReceiver → List Message → ManifestReceiver × List ManifestInputResult
unfolding handle
handle_all s [] = (s, [])
handle_all s (m ∷ messages) =
    let (next, result) = handle s m in
    let (last, results) = handle_all next messages in (last, result ∷ results)

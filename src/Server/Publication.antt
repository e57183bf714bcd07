-- ===== src/Server/Publication.antt =====
-- The publication of the manifest and the players' reports:
-- server/include/custommodel/server/asset_publication.hpp and server/src/asset_publication.cpp.
-- `ServerTransport::Send` belongs to the host: it is the parameter `delivers`.
pub mod Sends
pub mod Published
pub mod Session
use custommodels.Base.{
  ℕ, ◌+◌, ◌%◌, ◌^◌, Bool, true, false, not, ◌||◌, ◌&&◌, List, [], ◌∷◌, Option, none, some, ◌==◌,
  if◌then◌else◌, Result, ok, err, length, find, put, erase, has, insert, remove, nat_key,
}
use custommodels.Assets.{Bytes, AssetDescription, Manifest}
use custommodels.Protocol.Types.{
  view, Message, AssetReady, AssetError, asset_ready, asset_error, manifest_begin, manifest_asset,
  manifest_end, AssetErrorReason, protocol_version,
}
use custommodels.Protocol.Encode.{encode_packet}
use custommodels.Frame.{encode}
use custommodels.Server.Registry.{AssetRegistry, build_manifest}
use custommodels.Server.Endpoint.{Delivery}

pub data AssetSessionState : Type 0 where
  unknown handshake_pending compatible manifest_sending : AssetSessionState
  manifest_complete assets_ready rejected : AssetSessionState

pub data AssetDispatchResult : Type 0 where
  ignored ready_recorded error_recorded invalid_order invalid_asset : AssetDispatchResult

pub data ManifestSendResult : Type 0 where
  sent already_sent invalid_state send_failed : ManifestSendResult

pub record PlayerAssetState : Type 0 where
  pub state : AssetSessionState
  pub manifest_revision : ℕ
  pub expected_assets : List ℕ
  pub ready_assets : List ℕ
  pub failed_assets : List (ℕ × AssetErrorReason)

-- `PlayerAssetState{}`.
abbrev pub initial_player : PlayerAssetState
initial_player = record {
  state = unknown;
  manifest_revision = 0;
  expected_assets = [];
  ready_assets = [];
  failed_assets = [];
}

-- The players, and the frames handed to the transport with their players, the last one first.
pub record AssetPublication : Type 0 where
  pub players : List (ℕ × PlayerAssetState)
  pub frames : List (ℕ × Bytes)

-- `ManifestComplete` or `AssetsReady`.
abbrev pub has_manifest : AssetSessionState → Bool
has_manifest manifest_complete = true
has_manifest assets_ready = true
has_manifest _ = false

-- `HandshakePending` or `Compatible`.
abbrev pub awaits_manifest : AssetSessionState → Bool
awaits_manifest handshake_pending = true
awaits_manifest compatible = true
awaits_manifest _ = false

unfoldable pub on_player_connected : AssetPublication → ℕ → AssetPublication
on_player_connected p player_id =
    let state = record initial_player { state = handshake_pending } in
    record p { players = put player_id state p.players }

unfoldable pub on_player_disconnected : AssetPublication → ℕ → AssetPublication
on_player_disconnected p player_id = record p { players = erase player_id p.players }

unfoldable pub reset : AssetPublication → AssetPublication
reset p = record p { players = [] }

unfoldable pub get_state : AssetPublication → ℕ → PlayerAssetState
get_state p player_id = elim (find player_id p.players) [
  | none ↦ initial_player
  | some state ↦ state
]

-- The loop that fills `expectedAssets`.
unfoldable pub expect_assets : List AssetDescription → List ℕ → List ℕ
expect_assets [] ids = ids
expect_assets (asset ∷ assets) ids = expect_assets assets (insert asset.asset_id ids)

abbrev pub u32 : ℕ → ℕ
u32 n = n % 2 ^ 32

abbrev pub begin_message : Manifest → Message
begin_message m = manifest_begin (record {
  manifest_revision = m.revision;
  asset_count = u32 (length m.assets);
  total_download_size = m.total_download_size;
})

abbrev pub asset_message : ℕ → ℕ → AssetDescription → Message
asset_message revision index asset =
    manifest_asset (record { manifest_revision = revision; asset_index = u32 index; asset = asset })

abbrev pub end_message : Manifest → Message
end_message m = manifest_end (record {
  manifest_revision = m.revision;
  asset_count = u32 (length m.assets);
  total_download_size = m.total_download_size;
})

module _ (delivers : Delivery) where
  -- The frames after `Send`, and its result.
  unfoldable pub send : List (ℕ × Bytes) → ℕ → Message → List (ℕ × Bytes) × Bool
  send frames player_id message = elim (encode_packet message protocol_version) [
    | err error ↦ (frames, false)
    | ok bytes ↦ elim (encode (view bytes)) [
      | none ↦ (frames, false)
      | some framed ↦ ((player_id, framed) ∷ frames, delivers frames player_id framed)
    ]
  ]

  -- The loop over the assets, from one index on, up to the first that is not sent.
  unfoldable pub send_assets :
      List (ℕ × Bytes) → ℕ → ℕ → ℕ → List AssetDescription → List (ℕ × Bytes) × Bool
  unfolding send
  send_assets frames player_id revision index [] = (frames, true)
  send_assets frames player_id revision index (asset ∷ assets) =
      let (after, delivered) = send frames player_id (asset_message revision index asset) in
      let rest = send_assets after player_id revision (index + 1) assets in
      if not delivered then (after, false) else rest

  -- `ManifestBegin`, the assets and `ManifestEnd`, up to the first that is not sent.
  unfoldable pub send_manifest : List (ℕ × Bytes) → ℕ → Manifest → List (ℕ × Bytes) × Bool
  unfolding send send_assets
  send_manifest frames player_id m =
      let (begun, has_begun) = send frames player_id (begin_message m) in
      let (listed, has_listed) = send_assets begun player_id m.revision 0 m.assets in
      if not has_begun
      then (begun, false)
      else if not has_listed
      then (listed, false)
      else send listed player_id (end_message m)

  unfoldable pub on_player_compatible :
      AssetPublication → AssetRegistry → ℕ → AssetPublication × ManifestSendResult
  unfolding send_manifest expect_assets
  on_player_compatible p registry player_id = elim (find player_id p.players) [
    | none ↦ (p, invalid_state)
    | some found ↦
        if has_manifest found.state
        then (p, already_sent)
        else if not (awaits_manifest found.state)
        then (p, invalid_state)
        else (let manifest = build_manifest registry in
            let state = record initial_player {
              manifest_revision = manifest.revision;
              expected_assets = expect_assets manifest.assets [];
            } in
            let (frames, delivered) = send_manifest p.frames player_id manifest in
            let ending : AssetSessionState = elim (manifest.assets) [
              | [] ↦ assets_ready
              | asset ∷ assets ↦ manifest_complete
            ] in
            if not delivered
            then (
              record {
                players = put player_id (record state { state = rejected }) p.players;
                frames = frames;
              },
              send_failed,
            )
            else (
              record {
                players = put player_id (record state { state = ending }) p.players;
                frames = frames;
              },
              sent,
            ))
  ]

unfoldable pub handle_ready : PlayerAssetState → AssetReady → PlayerAssetState × AssetDispatchResult
handle_ready state ready =
    let ready_assets = insert ready.asset_id state.ready_assets in
    let recorded = record state {
      failed_assets = erase ready.asset_id state.failed_assets;
      ready_assets = ready_assets;
    } in
    if not (ready.manifest_revision == state.manifest_revision)
      || not (has ready.asset_id state.expected_assets)
    then (state, invalid_asset)
    else if length ready_assets == length state.expected_assets
    then (record recorded { state = assets_ready }, ready_recorded)
    else (recorded, ready_recorded)

unfoldable pub handle_error : PlayerAssetState → AssetError → PlayerAssetState × AssetDispatchResult
handle_error state error =
    if not (error.manifest_revision == state.manifest_revision)
      || not (has error.asset_id state.expected_assets)
    then (state, invalid_asset)
    else (
      record state {
        ready_assets = remove error.asset_id state.ready_assets;
        failed_assets = put error.asset_id error.reason state.failed_assets;
        state = manifest_complete;
      },
      error_recorded,
    )

-- What a report does to the state of a player that has its manifest.
unfoldable pub report : PlayerAssetState → Message → PlayerAssetState × AssetDispatchResult
unfolding handle_ready handle_error
report state (asset_ready m) = handle_ready state m
report state (asset_error m) = handle_error state m
report state _ = (state, ignored)

unfoldable pub handle_incoming :
    AssetPublication → ℕ → Message → AssetPublication × AssetDispatchResult
unfolding report
handle_incoming p player_id message = elim (find player_id p.players) [
  | none ↦ (p, invalid_order)
  | some state ↦
      if not (has_manifest state.state)
      then (p, invalid_order)
      else (let (next, result) = report state message in
          (record p { players = put player_id next p.players }, result))
]

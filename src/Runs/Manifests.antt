-- ===== src/Runs/Manifests.antt =====
-- The manifest from the registry to the client: server/src and client/src/assets.
use custommodels.Base.{
  ◌≡◌, refl, true, false, List, [], ◌∷◌, All, some, none, nat_key, find, bytes_key, arith, ◌↔◌,
  AreIn,
}
use mathlib.Core.List.{Perm}
use custommodels.Assets.{Manifest}
use custommodels.Protocol.Types.{Message, asset_ready, asset_error, timeout}
use custommodels.Protocol.Stream.{stream}
use custommodels.Server.Registry.{AssetRegistry, empty_registry, build_manifest, described}
use custommodels.Server.Registry.Invariant.{Inv}
use custommodels.Server.Registry.Reachable.{run, run-Inv}
use custommodels.Server.Registry.Sorted.{IsPublishable, build_manifest-IsPublishable}
use custommodels.Server.Endpoint.{Delivery}
use custommodels.Server.Publication.{
  AssetPublication, PlayerAssetState, handshake_pending, assets_ready, initial_player, sent,
  on_player_compatible, send_manifest,
}
use custommodels.Server.Publication.Sends.{push, send_all, send_manifest-stream}
use custommodels.Server.Publication.Published.{IsPublication, on_player_compatible-IsPublication}
use custommodels.Server.Publication.Session.{report_all, published, report_all-assets_ready}
use custommodels.Client.Receiver.{ManifestInputResult, initial_receiver, handle_all}
use custommodels.Client.Receiver.Safety.{handle_all-IsAcceptable}
use custommodels.Client.Receiver.Collecting.{IsAcceptable}
use custommodels.Client.Receiver.Stream.{HasReceived, results_of, handle_all-stream}
use custommodels.System.{IsOpened, publication-received}
use custommodels.Runs.Samples.{car, paint, operations, operations-IsTyped}

abbrev registry : AssetRegistry
registry = run empty_registry operations

abbrev manifest : Manifest
manifest = build_manifest registry

registry-Inv : Inv registry
registry-Inv = run-Inv operations operations-IsTyped

run-Inv_example : Inv (run empty_registry operations)
run-Inv_example = run-Inv operations operations-IsTyped

build_manifest-IsPublishable_example :
    IsPublishable manifest × Perm manifest.assets (described registry.assets)
build_manifest-IsPublishable_example = build_manifest-IsPublishable registry registry-Inv

handle_all-stream_example :
    HasReceived manifest
      (ManifestInputResult.accepted ∷ results_of manifest.assets)
      (handle_all initial_receiver (stream manifest))
handle_all-stream_example =
    handle_all-stream manifest (build_manifest-IsPublishable registry registry-Inv).0

-- A transport that takes every frame, and one that takes the first only.
abbrev takes_all : Delivery
takes_all frames id frame = true

abbrev takes_one : Delivery
takes_one [] id frame = true
takes_one _ id frame = false

abbrev waiting : PlayerAssetState
waiting = record initial_player { state = handshake_pending }

abbrev publication : AssetPublication
publication = record { players = (4, waiting) ∷ []; frames = [] }

waits : find 4 publication.players ≡ some waiting
unfolding find
waits = refl

send_manifest-stream_example :
    send_manifest takes_one [] 4
      (record { revision = 2; assets = car ∷ []; total_download_size = 1000 })
    ≡ send_all takes_one [] 4
        (stream (record { revision = 2; assets = car ∷ []; total_download_size = 1000 }))
send_manifest-stream_example =
    send_manifest-stream takes_one [] 4
      (record { revision = 2; assets = car ∷ []; total_download_size = 1000 }) (omega arith)

on_player_compatible-IsPublication_example :
    IsPublication takes_one publication registry 4
      (on_player_compatible takes_one publication registry 4)
on_player_compatible-IsPublication_example =
    on_player_compatible-IsPublication takes_one publication registry 4 waiting registry-Inv waits
      refl

abbrev reports : List Message
reports =
    asset_ready (record { manifest_revision = 3; asset_id = 7 })
    ∷ asset_error (record { manifest_revision = 3; asset_id = 3; reason = timeout })
    ∷ asset_ready (record { manifest_revision = 3; asset_id = 3 })
    ∷ []

report_all-assets_ready_example :
    let s = report_all (published 3 (paint ∷ car ∷ [])) reports in
    ((s.state ≡ assets_ready) ↔ AreIn s.expected_assets s.ready_assets)
    × AreIn s.ready_assets s.expected_assets
    × All (λ id. find id s.failed_assets ≡ none) s.ready_assets
report_all-assets_ready_example = report_all-assets_ready 3 (paint ∷ car ∷ []) reports

publication-received_example :
    let r = run empty_registry operations in
    let m = build_manifest r in
    let outcome = on_player_compatible takes_all publication r 4 in
    (outcome.1 ≡ sent)
    × (outcome.0.frames ≡ push 4 (stream m) publication.frames)
    × All IsOpened (stream m)
    × HasReceived m
        (ManifestInputResult.accepted ∷ results_of m.assets)
        (handle_all initial_receiver (stream m))
publication-received_example =
    publication-received takes_all publication operations 4 waiting operations-IsTyped waits refl
      (λ before frame. refl)

handle_all-IsAcceptable_example : IsAcceptable manifest
handle_all-IsAcceptable_example =
    handle_all-IsAcceptable (stream manifest)
      (handle_all-stream manifest (build_manifest-IsPublishable registry registry-Inv).0).1

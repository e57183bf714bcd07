-- ===== src/Runs/Context.antt =====
-- The client's runtime on given data: client/src/core/runtime.cpp.
use custommodels.Base.{ℕ, ◌≡◌, refl, true, false, [], ◌∷◌, none, All, arith}
use custommodels.Assets.{Bytes}
use custommodels.Protocol.Types.{view, Message, AssetErrorReason}
use custommodels.Protocol.Layout.{packet_bytes}
use custommodels.Client.Handshake.{ClientHandshake, HandshakeState}
use custommodels.Client.Manager.{
  ClientAssetManager, ClientAssetEvent, ClientAssetEventKind, client_asset_manager,
}
use custommodels.Client.Runtime.{ProtocolContext, pump_asset_results, handle_incoming_protocol}
use custommodels.Client.Runtime.Guarded.{IsGuarded, handle_incoming_protocol-IsGuarded}
use custommodels.Client.Runtime.Reports.{
  context, due, pushed, reports_of, IsDecoded, IsReportable, pump_asset_results-reports,
}
use custommodels.Runs.Samples.{configuration}

abbrev handshake_in : HandshakeState → ClientHandshake
handshake_in state = record {
  configuration = configuration;
  state = state;
  welcome = none;
  rejection = none;
}

abbrev event : ClientAssetEventKind → ℕ → ClientAssetEvent
event kind id = record {
  kind = kind;
  manifest_revision = 3;
  asset_id = id;
  asset_count = 0;
  error = AssetErrorReason.hash_mismatch;
}

abbrev manager : ClientAssetManager
manager = record (client_asset_manager true) {
  events =
      event ClientAssetEventKind.manifest_begin 0
      ∷ event ClientAssetEventKind.verifying 7
      ∷ event ClientAssetEventKind.ready 7
      ∷ event ClientAssetEventKind.failed 9
      ∷ [];
}

manager-IsReportable : All IsReportable manager.events
unfolding due custommodels.Protocol.Encode.has_invalid_field
    custommodels.Protocol.Types.asset_error_of_code custommodels.Protocol.Types.asset_error_code
    custommodels.Protocol.Checks.is_asset_error_reason_valid
manager-IsReportable = (
  tt,
  (
    tt,
    (
      (((omega arith, omega arith), refl), tt),
      ((((omega arith, omega arith, refl), refl), tt), tt),
    ),
  ),
)

pump_asset_results-reports_example :
    (pump_asset_results (context (handshake_in HandshakeState.compatible) manager true [])
      ≡ context
          (handshake_in HandshakeState.compatible)
          (record manager { events = [] })
          true
          (pushed (reports_of manager.events) []))
    × All IsDecoded (reports_of manager.events)
    × (pump_asset_results
          (pump_asset_results (context (handshake_in HandshakeState.compatible) manager true []))
        ≡ pump_asset_results (context (handshake_in HandshakeState.compatible) manager true []))
pump_asset_results-reports_example =
    pump_asset_results-reports (handshake_in HandshakeState.compatible) manager true [] refl
      manager-IsReportable

abbrev waiting : ProtocolContext
waiting = context (handshake_in HandshakeState.hello_sent) manager false []

abbrev early : Bytes
early = packet_bytes (Message.asset_ready (record { manifest_revision = 3; asset_id = 7 }))

handle_incoming_protocol-IsGuarded_example :
    IsGuarded waiting
      (handshake_in HandshakeState.hello_sent)
      (view early)
      (handle_incoming_protocol waiting (view early))
handle_incoming_protocol-IsGuarded_example =
    handle_incoming_protocol-IsGuarded waiting (handshake_in HandshakeState.hello_sent) (view early)
      refl refl

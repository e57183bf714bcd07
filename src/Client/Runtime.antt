-- ===== src/Client/Runtime.antt =====
-- The client's runtime between transport, handshake and asset manager: `ProtocolContext` and its
-- callbacks in client/src/core/runtime.cpp. The log is left out, and so is the answer of `Send`, on
-- which only the log depends.
pub mod Guarded
pub mod Reports
use custommodels.Base.{
  ℕ, Bool, true, false, not, List, [], ◌∷◌, Option, none, some, if◌then◌else◌, ok, err,
}
use custommodels.Assets.{Bytes}
use custommodels.Protocol.Types.{
  ByteView, Message, ManifestAsset, AssetErrorReason, invalid_manifest, protocol_version,
}
use custommodels.Protocol.Encode.{encode_packet}
use custommodels.Protocol.Decode.{decode_packet}
use custommodels.Client.Handshake.{
  ClientHandshake, HandshakeState, IncomingResult, on_connected, on_disconnected, take_hello,
  handle_incoming, confirm_welcome,
}
use custommodels.Client.Receiver.{ManifestInputResult}
use custommodels.Client.Manager.{
  ClientAssetManager, ClientAssetEvent, ClientAssetEventKind, reset_session, request_stop,
  handle_message, drain_events,
}
use custommodels.Client.RakNet.{ConnectionEvent, connected, disconnected}

-- `sent` is what was handed to the transport's `Send`, the last one first.
pub record ProtocolContext : Type 0 where
  pub handshake : Option ClientHandshake
  pub has_transport : Bool
  pub assets : Option ClientAssetManager
  pub malformed_packet_logged : Bool
  pub sent : List Bytes

-- `State() == HandshakeState::Compatible`.
abbrev pub is_compatible : HandshakeState → Bool
is_compatible HandshakeState.compatible = true
is_compatible other = false

unfoldable pub send_asset_report : ProtocolContext → Message → ProtocolContext
send_asset_report c m = elim (encode_packet m protocol_version) [
  | err error ↦ c
  | ok bytes ↦ if c.has_transport then record c { sent = bytes ∷ c.sent } else c
]

-- The report of an event of `PumpAssetResults`.
unfoldable pub report_of : ClientAssetEvent → Option Message
report_of e = elim (e.kind) [
  | ClientAssetEventKind.ready ↦ some (
      Message.asset_ready
        (record { manifest_revision = e.manifest_revision; asset_id = e.asset_id }))
  | ClientAssetEventKind.failed ↦ some (
      Message.asset_error (record {
        manifest_revision = e.manifest_revision;
        asset_id = e.asset_id;
        reason = e.error;
      }))
  | other ↦ none
]

-- The loop of `PumpAssetResults`.
unfoldable pub report_events : ProtocolContext → List ClientAssetEvent → ProtocolContext
unfolding send_asset_report
report_events c [] = c
report_events c (e ∷ events) = elim (report_of e) [
  | none ↦ report_events c events
  | some m ↦ report_events (send_asset_report c m) events
]

unfoldable pub pump_asset_results : ProtocolContext → ProtocolContext
unfolding report_events
pump_asset_results c = elim (c.assets) [
  | none ↦ c
  | some m ↦ elim (c.handshake) [
    | none ↦ c
    | some h ↦
        let (drained, events) = drain_events m in
        if not (is_compatible h.state)
        then c
        else report_events (record c { assets = some drained }) events
  ]
]

-- The manager refused the message.
abbrev pub is_refused : ManifestInputResult → Bool
is_refused ManifestInputResult.invalid_manifest = true
is_refused ManifestInputResult.invalid_order = true
is_refused other = false

-- The answer to a refused message.
unfoldable pub report_refused : ProtocolContext → Message → ProtocolContext
report_refused c (Message.manifest_asset item) = send_asset_report c (
    Message.asset_error (record {
      manifest_revision = item.manifest_revision;
      asset_id = item.asset.asset_id;
      reason = AssetErrorReason.invalid_manifest;
    }))
report_refused c other = c

-- What `HandleIncomingProtocol` does with a message that is not of the handshake.
unfoldable pub handle_asset_message : ProtocolContext → ClientHandshake → Message → ProtocolContext
unfolding report_refused pump_asset_results
handle_asset_message c h m = elim (c.assets) [
  | none ↦ c
  | some manager ↦
      let (next, result) = handle_message manager m in
      let handled = record c { assets = some next } in
      if not (is_compatible h.state)
      then c
      else pump_asset_results (if is_refused result then report_refused handled m else handled)
]

-- What it does with the result of `HandleIncoming`.
unfoldable pub note_incoming : ProtocolContext → ClientHandshake → IncomingResult → ProtocolContext
note_incoming c next IncomingResult.welcome_received = record c {
  handshake = some ((confirm_welcome next).0);
}
note_incoming c next IncomingResult.malformed = record c {
  handshake = some next;
  malformed_packet_logged = true;
}
note_incoming c next other = record c { handshake = some next }

-- What it does with a `Welcome` or a `Reject`.
unfoldable pub answer_handshake : ProtocolContext → ClientHandshake → ByteView → ProtocolContext
unfolding note_incoming
answer_handshake c h bytes =
    let (next, result) = handle_incoming h bytes in note_incoming c next result

abbrev pub is_handshake_message : Message → Bool
is_handshake_message (Message.welcome m) = true
is_handshake_message (Message.reject m) = true
is_handshake_message other = false

unfoldable pub handle_incoming_protocol : ProtocolContext → ByteView → ProtocolContext
unfolding handle_asset_message answer_handshake
handle_incoming_protocol c bytes = elim (c.handshake) [
  | none ↦ c
  | some h ↦ elim (decode_packet bytes) [
    | err error ↦ record c { malformed_packet_logged = true }
    | ok packet ↦
        if not (is_handshake_message packet.message)
        then handle_asset_message c h packet.message
        else answer_handshake c h bytes
  ]
]

-- `ResetSession`, where there is a manager.
abbrev pub reset_assets : Option ClientAssetManager → Option ClientAssetManager
reset_assets none = none
reset_assets (some m) = some (reset_session m)

abbrev send_hello : ProtocolContext → ClientHandshake × Option Bytes → ProtocolContext
send_hello c (h, none) = record c { handshake = some h }
send_hello c (h, some bytes) = record c { handshake = some h; sent = bytes ∷ c.sent }

unfoldable pub handle_connection_event : ProtocolContext → ConnectionEvent → ProtocolContext
handle_connection_event c event = elim (c.handshake) [
  | none ↦ c
  | some h ↦ if not c.has_transport then c else (elim event [
    | disconnected ↦ record c {
      handshake = some (on_disconnected h);
      assets = reset_assets c.assets;
      malformed_packet_logged = false;
    }
    | connected ↦
        send_hello (record c { assets = reset_assets c.assets }) (take_hello (on_connected h))
  ])
]

-- `RequestShutdownFromLoaderLock` on the context.
unfoldable pub request_shutdown : ProtocolContext → ProtocolContext
request_shutdown c = record c {
  has_transport = false;
  handshake = elim (c.handshake) [ none ↦ none | some h ↦ some (on_disconnected h) ];
  assets = elim (c.assets) [ none ↦ none | some m ↦ some (request_stop m) ];
}

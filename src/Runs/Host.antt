-- ===== src/Runs/Host.antt =====
-- The component of the host: server/openmp/component.cpp.
use custommodels.Base.{
  ℕ, ◌/◌, ◌%◌, ◌≡◌, ◌≢◌, refl, Bool, true, false, List, [], ◌∷◌, ◌++◌, Option, some, none, ltb,
  length, take, drop, arith, err, find, put, IsMap, nat_key, sym, ◌∙◌,
}
use custommodels.Assets.{Bytes}
use custommodels.Protocol.Types.{view, Message, hello, DecodeError}
use custommodels.Protocol.Decode.{decode_packet}
use custommodels.Protocol.Layout.{packet_bytes, payload_bytes, be32, be16, runtime_bytes}
use custommodels.Protocol.Decode.Fields.{read_header}
use custommodels.Protocol.Reader.{◌>>=◌, pure, read_byte, read_u8, read_u16, read_u32}
use custommodels.Frame.{
  InspectedFrame, custom_model, has_protocol_magic, byte_at, inspect_protocol_payload,
}
use custommodels.Server.Registry.{empty_registry}
use custommodels.Server.Tracker.{tracker}
use custommodels.Server.Endpoint.{DispatchResult, Delivery}
use custommodels.Server.Publication
use custommodels.Server.Publication.{ignored}
use custommodels.Server.Component.{
  ℤ, pos, NetworkBitStream, CustomModelComponent, on_receive, make_policy, on_player_connect,
  receive_payload, receive_protocol, dispatch_protocol, dispatch_packet, after_hello,
}
use custommodels.Server.Component.Claims.{IsClaimed}
use custommodels.Server.Component.Receives.{
  IsReceived, IsUntouched, on_receive-IsReceived, on_receive_undecodable,
}
use custommodels.Server.Component.Compatible.{IsCompatible}
use custommodels.Server.Component.Manifests.{has_manifest_at}
use custommodels.Server.Component.Events.{received, handle_event, handle_event-IsCompatible}
use custommodels.Runs.Samples.{policy, greeting}

abbrev takes_all : Delivery
takes_all frames id frame = true

abbrev fresh_component : CustomModelComponent
fresh_component = record {
  has_core = true;
  transport = record { has_core = true; has_handler = true };
  tracker = tracker policy;
  players = [];
  registry = empty_registry;
  frames = [];
  last_dispatch = DispatchResult.send_failed;
  last_asset_dispatch = ignored;
  registered = true;
}

abbrev component : CustomModelComponent
component = on_player_connect fresh_component (pos 4)

-- The magic behind the carrier, and one byte more.
abbrev cut_packet : NetworkBitStream
cut_packet = record {
  bytes = some (0x5E ∷ 0x43 ∷ 0x4D ∷ 0x4F ∷ 0x44 ∷ 1 ∷ []);
  read_offset = pos 8;
  unread_bits = pos 40;
}

on_receive-IsReceived_example :
    IsReceived takes_all component
      (pos 4)
      cut_packet
      (on_receive takes_all component (pos 4) cut_packet)
on_receive-IsReceived_example = on_receive-IsReceived takes_all component (pos 4) cut_packet

-- The server asks for the two kinds of assets and the cache.
policy_test : (make_policy policy).required_capabilities ≡ 28
unfolding make_policy
policy_test = refl

abbrev cut_bytes : Bytes
cut_bytes = 0x43 ∷ 0x4D ∷ 0x4F ∷ 0x44 ∷ 1 ∷ []

claimed : IsClaimed cut_packet 40 cut_bytes
claimed = (0x5E ∷ [], refl, refl, refl, omega arith, refl)

undecodable : decode_packet (view (take (40 / 8) cut_bytes)) ≡ err DecodeError.truncated_header
unfolding decode_packet read_header ◌>>=◌ read_u32 read_byte read_u16 read_u8 pure
undecodable = refl

on_receive_undecodable_example :
    ((on_receive takes_all component (pos 4) cut_packet).1 ≡ false)
    × IsUntouched takes_all component (on_receive takes_all component (pos 4) cut_packet).0
on_receive_undecodable_example =
    on_receive_undecodable takes_all component 4 cut_packet 40 cut_bytes _ claimed refl refl
      undecodable

-- A `Hello` behind the carrier.
abbrev hello_bytes : Bytes
hello_bytes = packet_bytes (hello greeting)

abbrev hello_packet : NetworkBitStream
hello_packet = record {
  bytes = some (0x5E ∷ hello_bytes);
  read_offset = pos 8;
  unread_bits = pos 208;
}

after :
    has_manifest_at (handle_event takes_all component (received (pos 4) hello_packet)).players 4
    ≡ true
unfolding custommodels.Protocol.Reader.◌>>=◌ custommodels.Protocol.Reader.pure
    custommodels.Protocol.Reader.read_byte custommodels.Protocol.Reader.read_u8
    custommodels.Protocol.Reader.read_u16 custommodels.Protocol.Reader.read_u32
    custommodels.Protocol.Reader.read_u64 custommodels.Protocol.Reader.read_bytes
    custommodels.Protocol.Reader.read_text custommodels.Protocol.Reader.read_string
    custommodels.Protocol.Writer.◌>>◌ custommodels.Protocol.Writer.write_byte
    custommodels.Protocol.Writer.write_u8 custommodels.Protocol.Writer.write_u16
    custommodels.Protocol.Writer.write_u32 custommodels.Protocol.Writer.write_u64
    custommodels.Protocol.Writer.write_bytes custommodels.Protocol.Writer.write_string
    custommodels.Protocol.Writer.write_each custommodels.Protocol.Checks.has_capability
    custommodels.Protocol.Checks.are_capabilities_valid
    custommodels.Protocol.Checks.is_samp_version_value_valid
    custommodels.Protocol.Checks.is_reject_reason_valid
    custommodels.Protocol.Checks.is_asset_error_reason_valid
    custommodels.Protocol.Checks.is_manifest_boundary_valid
    custommodels.Protocol.Checks.is_known_message_type
    custommodels.Protocol.Decode.read_asset_description custommodels.Protocol.Decode.decode_hello
    custommodels.Protocol.Decode.decode_manifest_begin
    custommodels.Protocol.Decode.decode_manifest_asset
    custommodels.Protocol.Decode.decode_manifest_end custommodels.Protocol.Decode.decode_asset_ready
    custommodels.Protocol.Decode.decode_asset_error custommodels.Protocol.Decode.decode_case
    custommodels.Protocol.Decode.decode_payload custommodels.Protocol.Decode.decode_packet
    custommodels.Protocol.Decode.Fields.read_runtime_version
    custommodels.Protocol.Decode.Fields.read_hello custommodels.Protocol.Decode.Fields.read_welcome
    custommodels.Protocol.Decode.Fields.read_reject custommodels.Protocol.Decode.Fields.read_ping
    custommodels.Protocol.Decode.Fields.read_pong
    custommodels.Protocol.Decode.Fields.read_manifest_begin
    custommodels.Protocol.Decode.Fields.read_asset_position
    custommodels.Protocol.Decode.Fields.read_asset_fields
    custommodels.Protocol.Decode.Fields.read_manifest_end
    custommodels.Protocol.Decode.Fields.read_asset_ready
    custommodels.Protocol.Decode.Fields.read_asset_error
    custommodels.Protocol.Decode.Fields.read_header custommodels.Protocol.Encode.type_of
    custommodels.Protocol.Encode.has_invalid_field custommodels.Protocol.Encode.write_message
    custommodels.Protocol.Encode.encode_payload custommodels.Protocol.Encode.encode_packet
    custommodels.Protocol.Encode.Fields.write_runtime_version
    custommodels.Protocol.Encode.Fields.write_asset_description
    custommodels.Protocol.Encode.Fields.write_hello
    custommodels.Protocol.Encode.Fields.write_welcome
    custommodels.Protocol.Encode.Fields.write_reject custommodels.Protocol.Encode.Fields.write_ping
    custommodels.Protocol.Encode.Fields.write_pong
    custommodels.Protocol.Encode.Fields.write_manifest_begin
    custommodels.Protocol.Encode.Fields.write_manifest_asset
    custommodels.Protocol.Encode.Fields.write_manifest_end
    custommodels.Protocol.Encode.Fields.write_asset_ready
    custommodels.Protocol.Encode.Fields.write_asset_error
    custommodels.Protocol.Encode.Fields.write_packet custommodels.Protocol.Types.message_type_code
    custommodels.Protocol.Types.message_type_of_code custommodels.Protocol.Types.reject_code
    custommodels.Protocol.Types.reject_of_code custommodels.Protocol.Types.asset_error_code
    custommodels.Protocol.Types.asset_error_of_code custommodels.Version.version_code
    custommodels.Version.version_of_code custommodels.Version.same_version
    custommodels.Version.find_samp_build custommodels.Version.find_samp_build_version
    custommodels.Frame.byte_at custommodels.Frame.has_protocol_magic
    custommodels.Frame.inspect_protocol_payload custommodels.Frame.inspect custommodels.Frame.encode
    custommodels.Server.Tracker.has_phase2b_transport
    custommodels.Server.Tracker.is_runtime_supported
    custommodels.Server.Tracker.same_runtime_version custommodels.Server.Tracker.same_hello
    custommodels.Server.Tracker.tracker custommodels.Server.Tracker.begin_handshake
    custommodels.Server.Tracker.welcome_for custommodels.Server.Tracker.reject_hello
    custommodels.Server.Tracker.reject_player custommodels.Server.Tracker.judge_hello
    custommodels.Server.Tracker.handle_hello custommodels.Server.Tracker.remove_player
    custommodels.Server.Tracker.reset custommodels.Server.Tracker.get_state
    custommodels.Server.Tracker.tracked_player_count
    custommodels.Server.Endpoint.on_player_connected
    custommodels.Server.Endpoint.on_player_disconnected custommodels.Server.Endpoint.send_response
    custommodels.Server.Endpoint.reject_with custommodels.Server.Endpoint.reject_malformed
    custommodels.Server.Endpoint.dispatch_message
    custommodels.Server.Endpoint.dispatch_claimed_protocol
    custommodels.Server.Endpoint.dispatch_incoming
    custommodels.Server.Endpoint.dispatch_protocol_payload
    custommodels.Server.Publication.on_player_connected
    custommodels.Server.Publication.on_player_disconnected custommodels.Server.Publication.reset
    custommodels.Server.Publication.get_state custommodels.Server.Publication.expect_assets
    custommodels.Server.Publication.send custommodels.Server.Publication.send_assets
    custommodels.Server.Publication.send_manifest
    custommodels.Server.Publication.on_player_compatible custommodels.Server.Registry.insert_sorted
    custommodels.Server.Registry.sort_assets custommodels.Server.Registry.build_manifest
    custommodels.Server.Registry.find_asset custommodels.Server.Registry.size
    custommodels.Server.Component.is_available custommodels.Server.Component.attach
    custommodels.Server.Component.initialize custommodels.Server.Component.dispatch_malformed
    custommodels.Server.Component.dispatch_packet custommodels.Server.Component.dispatch_protocol
    custommodels.Server.Component.after_hello custommodels.Server.Component.receive_protocol
    custommodels.Server.Component.receive_payload custommodels.Server.Component.on_receive
    custommodels.Protocol.Layout.be16 custommodels.Protocol.Layout.be32
    custommodels.Protocol.Layout.be64 custommodels.Protocol.Layout.text
    custommodels.Protocol.Layout.runtime_bytes custommodels.Protocol.Layout.asset_bytes
    custommodels.Protocol.Layout.boundary_bytes custommodels.Protocol.Layout.payload_bytes
    custommodels.Protocol.Layout.packet_bytes find put custommodels.Base.emplace handle_event
after = refl

before : has_manifest_at component.players 4 ≡ false
unfolding on_player_connect Publication.on_player_connected find put
before = refl

one_entry : IsMap component.players
unfolding on_player_connect Publication.on_player_connected put find
one_entry = (refl, tt)

handle_event-IsCompatible_example :
    IsCompatible (handle_event takes_all component (received (pos 4) hello_packet)).tracker 4
handle_event-IsCompatible_example =
    handle_event-IsCompatible takes_all component (received (pos 4) hello_packet) 4 one_entry before
      after

-- ===== src/Server/Component.antt =====
-- The open.mp component: server/openmp/component.hpp and server/openmp/component.cpp. The host is a
-- parameter: `delivers` tells whether it has the player and takes the packet. Its log is left out.
pub mod Claims
pub mod Receives
pub mod Compatible
pub mod Manifests
pub mod Events
use custommodels.Base.{
  ℕ, ◌/◌, ◌%◌, ◌^◌, Bool, true, false, not, ◌||◌, ◌&&◌, List, [], ◌∷◌, Option, none, some, ltb,
  ◌==◌, bit_or, if◌then◌else◌, Result, ok, err, length, take, drop,
}
use custommodels.Version.{runtime_version}
use custommodels.Assets.{Bytes}
use custommodels.Protocol.Types.{
  ByteView, view, Message, hello, Packet, maximum_packet_size, declared_capabilities,
}
use custommodels.Protocol.Decode.{decode_packet}
use custommodels.Frame.{InspectedFrame, custom_model, inspect_protocol_payload, maximum_frame_size}
use custommodels.Server.Registry.{AssetRegistry}
use custommodels.Server.Tracker
use custommodels.Server.Tracker.{PlayerCapabilityTracker, HandshakePolicy}
use custommodels.Server.Endpoint.{
  DispatchResult, welcome_sent, HandshakeEndpoint, Delivery, reject_malformed,
  dispatch_protocol_payload,
}
use custommodels.Server.Endpoint
use custommodels.Server.Publication.{
  PlayerAssetState, AssetPublication, AssetDispatchResult, ignored, invalid_order,
  on_player_compatible, handle_incoming,
}
use custommodels.Server.Publication

-- A C++ `int`.
pub data ℤ : Type 0 where
  pos negsuc : ℕ → ℤ

-- `NetworkBitStream` as far as the component reads it: the data, if any, and the two counts of bits.
pub record NetworkBitStream : Type 0 where
  pub bytes : Option Bytes
  pub read_offset : ℤ
  pub unread_bits : ℤ

-- Whether the transport has its core and its handler.
pub record OpenMpTransport : Type 0 where
  pub has_core : Bool
  pub has_handler : Bool

unfoldable pub is_available : OpenMpTransport → Bool
is_available t = t.has_core && t.has_handler

unfoldable pub attach : OpenMpTransport → Bool → OpenMpTransport
attach t core = record t { has_core = core }

unfoldable pub initialize : OpenMpTransport → Bool → OpenMpTransport × Bool
initialize t handler = (record t { has_handler = handler }, t.has_core && handler)

unfoldable pub shutdown : OpenMpTransport → OpenMpTransport
shutdown t = record { has_core = false; has_handler = false }

abbrev int_max : ℕ
int_max = 0x7fff_ffff

-- `OpenMpTransport::Send`, which the host ends.
unfoldable pub transport_send : OpenMpTransport → Delivery → Delivery
transport_send t delivers frames player_id bytes =
    if not t.has_core
      || length bytes == 0
      || ltb maximum_frame_size (length bytes)
      || ltb int_max player_id
    then false
    else delivers frames player_id bytes

pub record CustomModelComponent : Type 0 where
  pub has_core : Bool
  pub transport : OpenMpTransport
  pub tracker : PlayerCapabilityTracker
  pub players : List (ℕ × PlayerAssetState)
  pub registry : AssetRegistry
  -- The frames handed to the transport with their players, the last one first.
  pub frames : List (ℕ × Bytes)
  pub last_dispatch : DispatchResult
  pub last_asset_dispatch : AssetDispatchResult
  pub registered : Bool

-- `kRequiredCapabilities`: `Dff`, `Txd` and `Sha256Cache`.
abbrev required_flags : ℕ
required_flags = bit_or (bit_or (2 ^ 2) (2 ^ 3)) (2 ^ 4)

-- `MakePolicy` on the defaults of `HandshakePolicy`.
unfoldable pub make_policy : HandshakePolicy → HandshakePolicy
make_policy defaults = record defaults {
  server_capabilities = declared_capabilities;
  required_capabilities = required_flags;
}

-- The two parts that share the transport, and the component after one of them.
abbrev pub endpoint_of : CustomModelComponent → HandshakeEndpoint
endpoint_of c = record { tracker = c.tracker; frames = c.frames }

abbrev pub assets_of : CustomModelComponent → AssetPublication
assets_of c = record { players = c.players; frames = c.frames }

abbrev pub with_endpoint : CustomModelComponent → HandshakeEndpoint → CustomModelComponent
with_endpoint c e = record c { tracker = e.tracker; frames = e.frames }

abbrev pub with_assets : CustomModelComponent → AssetPublication → CustomModelComponent
with_assets c p = record c { players = p.players; frames = p.frames }

unfoldable pub on_player_connect : CustomModelComponent → ℤ → CustomModelComponent
on_player_connect c (negsuc n) = c
on_player_connect c (pos player_id) =
    let greeted = with_endpoint c (Endpoint.on_player_connected (endpoint_of c) player_id) in
    with_assets greeted (Publication.on_player_connected (assets_of greeted) player_id)

unfoldable pub on_player_disconnect : CustomModelComponent → ℤ → CustomModelComponent
on_player_disconnect c (negsuc n) = c
on_player_disconnect c (pos player_id) =
    let parted = with_endpoint c (Endpoint.on_player_disconnected (endpoint_of c) player_id) in
    with_assets parted (Publication.on_player_disconnected (assets_of parted) player_id)

unfoldable pub reset : CustomModelComponent → CustomModelComponent
reset c =
    with_assets (record c { tracker = Tracker.reset c.tracker }) (Publication.reset (assets_of c))

-- `free` up to `delete`: the handlers are removed and everything is reset.
unfoldable pub free : CustomModelComponent → CustomModelComponent
unfolding reset shutdown
free c = record (reset c) { registered = false; transport = shutdown c.transport; has_core = false }

-- The unread bits and the unread bytes of a stream that `onReceive` looks at.
unfoldable pub unread_payload : NetworkBitStream → Option (ℕ × Bytes)
unread_payload s = elim (s.bytes) [
  | none ↦ none
  | some bytes ↦ elim (s.read_offset) [
    | negsuc n ↦ none
    | pos offset ↦ elim (s.unread_bits) [
      | negsuc n ↦ none
      | pos unread ↦
          if ltb unread 32 || not (offset % 8 == 0)
          then none
          else some (unread, drop (offset / 8) bytes)
    ]
  ]
]

abbrev pub is_hello : Message → Bool
is_hello (hello m) = true
is_hello other = false

-- `lastDispatch_ == DispatchResult::WelcomeSent`.
abbrev pub is_welcome_sent : DispatchResult → Bool
is_welcome_sent welcome_sent = true
is_welcome_sent other = false

-- Whether the packet is a `Hello`.
abbrev pub decodes_to_hello : Bytes → Bool
decodes_to_hello bytes = elim (decode_packet (view bytes)) [
  | err error ↦ false
  | ok packet ↦ is_hello packet.message
]

module _ (delivers : Delivery) where
  -- `DispatchMalformed`.
  unfoldable pub dispatch_malformed :
      CustomModelComponent → ℕ → CustomModelComponent × DispatchResult
  unfolding transport_send
  dispatch_malformed c player_id =
      let (e, result) =
        reject_malformed (transport_send c.transport delivers) (endpoint_of c) player_id in
      (with_endpoint c e, result)

  -- What `DispatchProtocol` does with a packet.
  unfoldable pub dispatch_packet : CustomModelComponent → ℕ → Bytes → Message → CustomModelComponent
  dispatch_packet c player_id bytes message =
      let send = transport_send c.transport delivers in
      let (e, result) = dispatch_protocol_payload send (endpoint_of c) player_id (view bytes) in
      let (p, asset_result) = handle_incoming (assets_of c) player_id message in
      if is_hello message
      then record (with_endpoint c e) { last_dispatch = result }
      else record (with_assets c p) { last_asset_dispatch = asset_result }

  -- The handler that the transport calls.
  unfoldable pub dispatch_protocol : CustomModelComponent → ℕ → Bytes → CustomModelComponent
  unfolding dispatch_packet
  dispatch_protocol c player_id bytes = elim (decode_packet (view bytes)) [
    | err error ↦ record c {
      last_dispatch = DispatchResult.send_failed;
      last_asset_dispatch = invalid_order;
    }
    | ok packet ↦ dispatch_packet c player_id bytes packet.message
  ]

  -- What `onReceive` does behind a `Hello`.
  unfoldable pub after_hello : CustomModelComponent → ℕ → CustomModelComponent
  after_hello c player_id =
      let send = transport_send c.transport delivers in
      let (p, result) = on_player_compatible send (assets_of c) c.registry player_id in
      if is_welcome_sent c.last_dispatch then with_assets c p else c

  -- `onReceive` on a payload of whole bytes.
  unfoldable pub receive_protocol : CustomModelComponent → ℕ → Bytes → CustomModelComponent
  unfolding dispatch_protocol after_hello
  receive_protocol c player_id bytes =
      let started = record c {
        last_dispatch = DispatchResult.send_failed;
        last_asset_dispatch = ignored;
      } in
      let dispatched = dispatch_protocol started player_id bytes in
      if not (is_available c.transport)
      then started
      else if decodes_to_hello bytes
      then after_hello dispatched player_id
      else dispatched

  -- `onReceive` on what is unread: whether open.mp passes the packet on.
  unfoldable pub receive_payload :
      CustomModelComponent → ℕ → ℕ → Bytes → CustomModelComponent × Bool
  unfolding dispatch_malformed receive_protocol
  receive_payload c player_id unread payload =
      elim (inspect_protocol_payload (view (take 4 payload))) [
        | InspectedFrame.unrelated ↦ (c, true)
        | custom_model magic ↦
            if not (unread % 8 == 0) || ltb maximum_packet_size (unread / 8)
            then ((dispatch_malformed c player_id).0, false)
            else (receive_protocol c player_id (take (unread / 8) payload), false)
      ]

  unfoldable pub on_receive :
      CustomModelComponent → ℤ → NetworkBitStream → CustomModelComponent × Bool
  unfolding unread_payload receive_payload
  on_receive c (negsuc n) stream = (c, true)
  on_receive c (pos player_id) stream = elim (unread_payload stream) [
    | none ↦ (c, true)
    | some (unread, payload) ↦ receive_payload c player_id unread payload
  ]

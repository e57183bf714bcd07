-- ===== src/Client/RakNet.antt =====
-- The client's transport: `SampRakNetTransport` of client/src/samp/raknet_transport.cpp behind its
-- hook, with the types of client/include/custommodel/protocol/transport.hpp. RakNet and the
-- callbacks are parameters that act on a state of the host.
pub mod Flags
pub mod Sessions
pub mod Frames
pub mod Packets
pub mod Send
pub mod Preview
use custommodels.Base.{
  ℕ, zero, suc, Bool, true, false, not, ◌||◌, ◌&&◌, List, [], ◌∷◌, Option, none, some, ◌==◌, ltb,
  leb, if◌then◌else◌, length,
}
use custommodels.Assets.{Bytes}
use custommodels.Assets.Text.{front}
use custommodels.Protocol.Types.{ByteView, view}
use custommodels.Frame.{InspectedFrame, unrelated, custom_model, inspect, maximum_frame_size}

pub data ConnectionEvent : Type 0 where
  connected disconnected : ConnectionEvent

pub record TransportCallbacks (S : Type 0) : Type 0 where
  pub incoming : Option (S → ByteView → S)
  pub connection : S → ConnectionEvent → S
  pub pump : Option (S → S)

-- A packet that RakNet gave: whether its header is readable, the bytes that `data` and `length`
-- describe, if `data` is not null, and how many bytes are readable from there on.
pub record RakPacket : Type 0 where
  pub has_readable_header : Bool
  pub bytes : Option Bytes
  pub readable : ℕ

-- The three functions of RakNet's table that the hook calls.
pub record RakClient (S : Type 0) : Type 0 where
  pub receive : S → S × Option RakPacket
  pub deallocate : S → RakPacket → S
  pub is_connected : S → Bool

-- The flags, and the calls of the connection callback since `Initialize`, the last one first.
pub record RakNetTransport : Type 0 where
  pub initialized : Bool
  pub connected : Bool
  pub awaiting_disconnected_state : Bool
  pub connected_event_pending : Bool
  pub connected_event_sent : Bool
  pub events : List ConnectionEvent

-- The member initialisers, which a `Shutdown` that restored the hook puts back.
abbrev pub idle_transport : RakNetTransport
idle_transport = record {
  initialized = false;
  connected = false;
  awaiting_disconnected_state = false;
  connected_event_pending = false;
  connected_event_sent = false;
  events = [];
}

-- `initialized_ = true`, where the hook is installed.
abbrev pub mark_initialized : RakNetTransport → RakNetTransport
mark_initialized t = record t { initialized = true }

-- `Shutdown` with the answer of `RestoreReceiveHook`.
unfoldable pub shutdown : RakNetTransport → Bool → RakNetTransport
shutdown t is_restored = if not is_restored then t else idle_transport

abbrev disconnection_notification : ℕ
disconnection_notification = 32

abbrev connection_lost : ℕ
connection_lost = 33

abbrev pub maximum_consumed_packets_per_call : ℕ
maximum_consumed_packets_per_call = 64

-- `IsReadable(data, length)`.
abbrev pub is_readable : RakPacket → ℕ → Bool
is_readable p length = not (length == 0) && leb length p.readable

abbrev pub same_flag : Bool → Bool → Bool
same_flag true b = b
same_flag false b = not b

-- The packet ends the connection.
abbrev pub is_goodbye : Bytes → Bool
is_goodbye bytes = front bytes == disconnection_notification || front bytes == connection_lost

-- The first packet of a connection makes the event pending.
unfoldable pub mark_pending : RakNetTransport → RakNetTransport
mark_pending t =
    if t.connected && not t.connected_event_sent
    then record t { connected_event_pending = true }
    else t

module _ {S : Type 0} (client : RakClient S) (callbacks : TransportCallbacks S) where
  -- A call of the connection callback.
  abbrev pub notify : RakNetTransport → S → ConnectionEvent → RakNetTransport × S
  notify t s event = (record t { events = event ∷ t.events }, callbacks.connection s event)

  unfoldable pub observe_connection : RakNetTransport → S → RakNetTransport × S
  observe_connection t s =
      let is_connected = client.is_connected s in
      let changed = record t {
        connected = is_connected;
        connected_event_pending = false;
        connected_event_sent = false;
      } in
      if t.awaiting_disconnected_state
      then (if is_connected then (t, s) else (record t { awaiting_disconnected_state = false }, s))
      else if same_flag is_connected t.connected
      then (t, s)
      else if t.connected_event_sent && not is_connected
      then notify changed s ConnectionEvent.disconnected
      else (changed, s)

  unfoldable pub notify_connected_if_pending : RakNetTransport → S → RakNetTransport × S
  notify_connected_if_pending t s =
      if not t.connected || not t.connected_event_pending || t.connected_event_sent
      then (t, s)
      else notify (record t { connected_event_pending = false; connected_event_sent = true }) s
          ConnectionEvent.connected

  unfoldable pub notify_disconnected : RakNetTransport → S → RakNetTransport × S
  notify_disconnected t s =
      let changed = record t {
        connected = false;
        awaiting_disconnected_state = true;
        connected_event_pending = false;
        connected_event_sent = false;
      } in
      if not t.connected
      then (t, s)
      else if t.connected_event_sent
      then notify changed s ConnectionEvent.disconnected
      else (changed, s)

  unfoldable pub dispatch_incoming : RakNetTransport → S → ByteView → S × Bool
  dispatch_incoming t s bytes = elim (callbacks.incoming) [
    | none ↦ (s, false)
    | some incoming ↦ if not t.initialized then (s, false) else (incoming s bytes, true)
  ]

  -- What is done with a CustomModel frame.
  unfoldable pub consume_frame : RakNetTransport → S → RakPacket → Bytes → ByteView → S
  unfolding dispatch_incoming
  consume_frame t s p bytes protocol_bytes =
      client.deallocate
        (if leb (length bytes) maximum_frame_size && is_readable p (length bytes)
          then (dispatch_incoming t s protocol_bytes).0
          else s)
        p

  -- What is done with the bytes of a packet, and whether the packet goes to the game.
  unfoldable pub inspect_bytes :
      RakNetTransport → S → RakPacket → Bytes → RakNetTransport × S × Bool
  unfolding notify_disconnected consume_frame
  inspect_bytes t s p bytes =
      let (parted, host) = notify_disconnected t s in
      if length bytes == 0 || not (is_readable p (if ltb (length bytes) 5 then length bytes else 5))
      then (t, s, true)
      else if is_goodbye bytes
      then (parted, host, true)
      else (elim (inspect (view bytes)) [
        | unrelated ↦ (t, s, true)
        | custom_model protocol_bytes ↦ (t, consume_frame t s p bytes protocol_bytes, false)
      ])

  unfoldable pub inspect_packet : RakNetTransport → S → RakPacket → RakNetTransport × S × Bool
  unfolding mark_pending inspect_bytes
  inspect_packet t s p = if not p.has_readable_header then (t, s, true) else (elim (p.bytes) [
    | none ↦ (mark_pending t, s, true)
    | some bytes ↦ inspect_bytes (mark_pending t) s p bytes
  ])

  -- The loop of `Receive`, with the packet for the game.
  unfoldable pub receive_packets : ℕ → RakNetTransport → S → RakNetTransport × S × Option RakPacket
  unfolding notify_connected_if_pending inspect_packet
  receive_packets zero t s = (t, s, none)
  receive_packets (suc n) t s =
      let (received, packet) = client.receive s in
      let (told, host) = notify_connected_if_pending t received in
      elim packet [
        | none ↦ (told, host, none)
        | some p ↦
            let (next, left, is_passed) = inspect_packet told host p in
            let rest = receive_packets n next left in
            if is_passed then (next, left, some p) else rest
      ]

  -- `callbacks_.pump`.
  unfoldable pub run_pump : RakNetTransport → S → S
  run_pump t s = elim (callbacks.pump) [
    | none ↦ s
    | some pump ↦ if t.connected_event_sent then pump s else s
  ]

  -- `Receive`; `is_own` is `self == rakClient_`.
  unfoldable pub receive : RakNetTransport → S → Bool → RakNetTransport × S × Option RakPacket
  unfolding observe_connection run_pump receive_packets
  receive t s is_own =
      let (foreign, packet) = client.receive s in
      let (observed, host) = observe_connection t s in
      if not is_own
      then (t, foreign, packet)
      else receive_packets maximum_consumed_packets_per_call observed (run_pump observed host)

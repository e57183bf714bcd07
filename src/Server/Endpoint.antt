-- ===== src/Server/Endpoint.antt =====
-- What arrives at the server during the handshake, and what is sent back:
-- server/include/custommodel/server/handshake_endpoint.hpp and server/src/handshake_endpoint.cpp.
-- `ServerTransport::Send` belongs to the host: it is the parameter `delivers`, which answers from
-- the frames handed to it before, the player and the frame.
pub mod Answered
use custommodels.Base.{
  ℕ, Bool, List, ◌∷◌, Option, none, some, ltb, if◌then◌else◌, Result, ok, err, length,
}
use custommodels.Assets.{Bytes}
use custommodels.Protocol.Types.{
  ByteView, null_view, view, Message, Hello, hello, RejectReason, DecodeError, unsupported_protocol,
  malformed_handshake, unsupported_protocol_version, maximum_packet_size, protocol_version,
}
use custommodels.Protocol.Encode.{encode_packet}
use custommodels.Protocol.Decode.{decode_packet}
use custommodels.Frame.{InspectedFrame, custom_model, inspect, inspect_protocol_payload, encode}
use custommodels.Server.Tracker.{
  PlayerCapabilityTracker, HandshakeResponse, message_of, welcome, reject, begin_handshake,
  remove_player, handle_hello, reject_player,
}

pub data DispatchResult : Type 0 where
  unrelated welcome_sent reject_sent send_failed : DispatchResult

-- The tracker, and the frames handed to the transport with their players, the last one first.
pub record HandshakeEndpoint : Type 0 where
  pub tracker : PlayerCapabilityTracker
  pub frames : List (ℕ × Bytes)

-- `Send` of the host's transport.
abbrev pub Delivery : Type 0
Delivery = List (ℕ × Bytes) → ℕ → Bytes → Bool

-- `holds_alternative<Welcome>(response) ? WelcomeSent : RejectSent`.
abbrev pub sent_result : HandshakeResponse → DispatchResult
sent_result (welcome m) = welcome_sent
sent_result (reject m) = reject_sent

-- `ByteView::size`.
abbrev pub view_size : ByteView → ℕ
view_size (null_view size) = size
view_size (view bytes) = length bytes

-- The reason for a packet that does not decode.
abbrev pub reason_of : DecodeError → RejectReason
reason_of unsupported_protocol_version = unsupported_protocol
reason_of _ = malformed_handshake

unfoldable pub on_player_connected : HandshakeEndpoint → ℕ → HandshakeEndpoint
on_player_connected e player_id = record e { tracker = begin_handshake e.tracker player_id }

unfoldable pub on_player_disconnected : HandshakeEndpoint → ℕ → HandshakeEndpoint
on_player_disconnected e player_id = record e { tracker = remove_player e.tracker player_id }

module _ (delivers : Delivery) where
  unfoldable pub send_response :
      HandshakeEndpoint → ℕ → HandshakeResponse → HandshakeEndpoint × DispatchResult
  send_response e player_id response = elim (encode_packet (message_of response) protocol_version) [
    | err error ↦ (e, send_failed)
    | ok bytes ↦ elim (encode (view bytes)) [
      | none ↦ (e, send_failed)
      | some frame ↦
          let sent = record e { frames = (player_id, frame) ∷ e.frames } in
          if delivers e.frames player_id frame
          then (sent, sent_result response)
          else (sent, send_failed)
    ]
  ]

  -- The private `Reject`.
  unfoldable pub reject_with :
      HandshakeEndpoint → ℕ → RejectReason → HandshakeEndpoint × DispatchResult
  unfolding send_response
  reject_with e player_id reason =
      let (tracker, answer) = reject_player e.tracker player_id reason in
      send_response (record e { tracker = tracker }) player_id (reject answer)

  unfoldable pub reject_malformed : HandshakeEndpoint → ℕ → HandshakeEndpoint × DispatchResult
  unfolding reject_with
  reject_malformed e player_id = reject_with e player_id malformed_handshake

  -- What `DispatchClaimedProtocol` does with the message of a packet.
  unfoldable pub dispatch_message :
      HandshakeEndpoint → ℕ → Message → HandshakeEndpoint × DispatchResult
  unfolding send_response reject_with
  dispatch_message e player_id (Message.hello m) =
      let (tracker, response) = handle_hello e.tracker player_id m in
      send_response (record e { tracker = tracker }) player_id response
  dispatch_message e player_id _ = reject_with e player_id malformed_handshake

  unfoldable pub dispatch_claimed_protocol :
      HandshakeEndpoint → ℕ → ByteView → HandshakeEndpoint × DispatchResult
  unfolding reject_with dispatch_message
  dispatch_claimed_protocol e player_id protocol_bytes =
      if ltb maximum_packet_size (view_size protocol_bytes)
      then reject_with e player_id malformed_handshake
      else (elim (decode_packet protocol_bytes) [
        | err error ↦ reject_with e player_id (reason_of error)
        | ok packet ↦ dispatch_message e player_id packet.message
      ])

  unfoldable pub dispatch_incoming :
      HandshakeEndpoint → ℕ → ByteView → HandshakeEndpoint × DispatchResult
  unfolding dispatch_claimed_protocol
  dispatch_incoming e player_id frame = elim (inspect frame) [
    | InspectedFrame.unrelated ↦ (e, DispatchResult.unrelated)
    | custom_model bytes ↦ dispatch_claimed_protocol e player_id bytes
  ]

  unfoldable pub dispatch_protocol_payload :
      HandshakeEndpoint → ℕ → ByteView → HandshakeEndpoint × DispatchResult
  unfolding dispatch_claimed_protocol
  dispatch_protocol_payload e player_id protocol_bytes =
      elim (inspect_protocol_payload protocol_bytes) [
        | InspectedFrame.unrelated ↦ (e, DispatchResult.unrelated)
        | custom_model bytes ↦ dispatch_claimed_protocol e player_id bytes
      ]

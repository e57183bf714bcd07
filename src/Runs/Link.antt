-- ===== src/Runs/Link.antt =====
-- The client's transport on a queue of packets: client/src/samp/raknet_transport.cpp.
use custommodels.Base.{
  ◌≡◌, ◌<◌, refl, Bool, true, false, List, [], ◌∷◌, ◌++◌, some, ok, take, length, arith,
}
use custommodels.Assets.{Bytes}
use custommodels.Protocol.Types.{view, Message}
use custommodels.Protocol.Decode.{decode_packet}
use custommodels.Protocol.Layout.{packet_bytes}
use custommodels.Frame.{inspect, custom_model}
use custommodels.Client.RakNet.{
  connected, disconnected, RakPacket, idle_transport, mark_initialized, receive,
}
use custommodels.Client.RakNet.Flags.{IsOrderly}
use custommodels.Client.RakNet.Sessions.{
  Call, starting, receiving, make_calls, make_calls-IsOrderly,
}
use custommodels.Client.RakNet.Frames.{packet}
use custommodels.Client.RakNet.Packets.{
  Noted, queue_client, noting_callbacks, Takes, receive-take_frames,
}
use custommodels.Client.RakNet.Send.{send, send-sendable}
use custommodels.Client.RakNet.Preview.{hex_preview, hex_byte, spaced, hex_preview-spaced}

-- A frame, a packet of the game, and the one that ends a connection.
abbrev carried : Bytes
carried = 0x5E ∷ b'C' ∷ b'M' ∷ b'O' ∷ b'D' ∷ 1 ∷ []

abbrev frame : RakPacket
frame = packet true (some carried) 6

abbrev other : RakPacket
other = packet true (some (40 ∷ 1 ∷ [])) 2

abbrev goodbye : RakPacket
goodbye = packet true (some (32 ∷ [])) 1

abbrev queue : List RakPacket
queue = other ∷ frame ∷ frame ∷ other ∷ goodbye ∷ []

-- RakNet is connected as long as there are packets.
abbrev is_linked : Noted → Bool
is_linked ([], seen) = false
is_linked (p ∷ rest, seen) = true

abbrev calls : List Call
calls = starting ∷ receiving true ∷ receiving true ∷ receiving true ∷ receiving true ∷ []

-- The connection is announced behind the first packet and closed by the last one.
events_test :
    ((make_calls (queue_client is_linked) noting_callbacks idle_transport (queue, []) calls).0
    ).events
    ≡ disconnected ∷ connected ∷ []
unfolding make_calls receive custommodels.Assets.Text.front inspect
    custommodels.Frame.inspect_protocol_payload custommodels.Frame.has_protocol_magic
events_test = refl

make_calls-IsOrderly_example :
    IsOrderly
      ((make_calls (queue_client is_linked) noting_callbacks idle_transport (queue, []) calls).0)
make_calls-IsOrderly_example =
    make_calls-IsOrderly (queue_client is_linked) noting_callbacks (queue, []) calls

receive-take_frames_example : Takes is_linked 64 (frame ∷ frame ∷ other ∷ []) [] (
    receive
      (queue_client is_linked)
      noting_callbacks
      (mark_initialized idle_transport)
      (frame ∷ frame ∷ other ∷ [], [])
      true)
receive-take_frames_example =
    receive-take_frames is_linked (mark_initialized idle_transport) (frame ∷ frame ∷ other ∷ []) []
      refl

abbrev ready_report : Message
ready_report = Message.asset_ready (record { manifest_revision = 3; asset_id = 7 })

abbrev raw : List Bytes → Bytes → List Bytes × Bool
raw sent bytes = (bytes ∷ sent, true)

send-sendable_example :
    (send (some raw) (mark_initialized idle_transport) [] (view (packet_bytes ready_report))
      ≡ raw [] (0x5E ∷ packet_bytes ready_report))
    × (inspect (view (0x5E ∷ packet_bytes ready_report))
        ≡ custom_model (view (packet_bytes ready_report)))
    × (decode_packet (view (packet_bytes ready_report))
        ≡ ok (record { protocol_version = 1; message = ready_report }))
unfolding custommodels.Protocol.Encode.has_invalid_field
send-sendable_example =
    send-sendable raw (mark_initialized idle_transport) [] ready_report refl
      ((omega arith, omega arith), refl)

hex_preview-spaced_example :
    (hex_preview (0x5E ∷ b'C' ∷ []) ≡ hex_byte 0x5E ++ spaced (take 15 (b'C' ∷ [])))
    × (length (hex_preview (0x5E ∷ b'C' ∷ [])) < 48)
hex_preview-spaced_example = hex_preview-spaced 0x5E (b'C' ∷ [])

-- ===== src/Frame/Carried.antt =====
-- A message on its way: shared/src/protocol.cpp and shared/src/transport_frame.cpp together.
use custommodels.Base.{◌≡◌, false, ◌∷◌, some, ok, ◌∙◌}
use custommodels.Assets.{Bytes}
use custommodels.Protocol.Types.{view, Message}
use custommodels.Protocol.Encode.{encode_packet, has_invalid_field}
use custommodels.Protocol.Encode.Packet.{encode_packet-exact}
use custommodels.Protocol.Decode.{decode_packet}
use custommodels.Protocol.Decode.RoundTrip.{decode_packet-encode_packet}
use custommodels.Protocol.Layout.{IsTyped, packet_bytes}
use custommodels.Frame.{custom_model, inspect, encode}
use custommodels.Frame.Laws.{inspect-encode}

-- A message that the encoder accepts.
abbrev pub IsSendable : Message → Type 0
IsSendable m = IsTyped m × (has_invalid_field m ≡ false)

-- The carrier byte and the packet.
abbrev pub frame_of : Message → Bytes
frame_of m = 0x5E ∷ packet_bytes m

pub encode_packet-sendable : (m : Message) → IsSendable m → encode_packet m 1 ≡ ok (packet_bytes m)
encode_packet-sendable m s = encode_packet-exact m 1 s.0 ∙ rw s.1

pub encode-sendable :
    (m : Message) → IsSendable m → encode (view (packet_bytes m)) ≡ some (frame_of m)
encode-sendable m s = (inspect-encode m s.0 (encode_packet-sendable m s)).0

pub inspect-sendable :
    (m : Message)
    → IsSendable m
    → inspect (view (frame_of m)) ≡ custom_model (view (packet_bytes m))
inspect-sendable m s = (inspect-encode m s.0 (encode_packet-sendable m s)).1

pub decode_packet-sendable :
    (m : Message)
    → IsSendable m
    → decode_packet (view (packet_bytes m)) ≡ ok (record { protocol_version = 1; message = m })
decode_packet-sendable m s = decode_packet-encode_packet m s.0 (encode_packet-sendable m s)

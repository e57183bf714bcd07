-- ===== src/Client/RakNet/Send.antt =====
-- `Send` of client/src/samp/raknet_transport.cpp, with `MakeRakNetRawSendBuffer` of
-- client/include/custommodel/samp/raknet_transport.hpp.
use custommodels.Base.{
  ℕ, ◌≡◌, ◌≤◌, refl, Bool, true, false, not, ◌||◌, ◌∷◌, Option, none, some, ◌==◌, ltb,
  if◌then◌else◌, length, ok, err, arith,
}
use custommodels.Assets.{Bytes}
use custommodels.Protocol.Types.{ByteView, null_view, view, Message, Packet}
use custommodels.Protocol.Decode.{decode_packet}
use custommodels.Protocol.Layout.{packet_bytes}
use custommodels.Frame.{encode, inspect, custom_model}
use custommodels.Frame.Carried.{
  IsSendable, encode_packet-sendable, encode-sendable, inspect-sendable, decode_packet-sendable,
}
use custommodels.Protocol.Encode.Packet.{
  encode_packet-ok, packet_bytes-length, payload_bytes-length,
}
use custommodels.Client.RakNet.{RakNetTransport}

abbrev int_max : ℕ
int_max = 0x7fff_ffff

-- The bytes of the raw buffer; `none` is a buffer that is false.
unfoldable pub make_rak_net_raw_send_buffer : ByteView → Option Bytes
make_rak_net_raw_send_buffer (null_view size) = none
make_rak_net_raw_send_buffer (view bytes) =
    if length bytes == 0 || ltb int_max (length bytes) then none else some bytes

abbrev decodes : ByteView → Bool
decodes bytes = elim (decode_packet bytes) [ err error ↦ false | ok packet ↦ true ]

-- The frame that `Send` hands to RakNet.
unfoldable pub raw_frame_of : ByteView → Option Bytes
unfolding make_rak_net_raw_send_buffer
raw_frame_of bytes = elim (encode bytes) [
  | none ↦ none
  | some frame ↦ make_rak_net_raw_send_buffer (view frame)
]

-- `send_raw` is RakNet's function, if it was found.
unfoldable pub send :
    {S : Type 0} → Option (S → Bytes → S × Bool) → RakNetTransport → S → ByteView → S × Bool
unfolding raw_frame_of
send send_raw t host bytes = elim send_raw [
  | none ↦ (host, false)
  | some raw ↦
      if not t.initialized || not (decodes bytes)
      then (host, false)
      else (elim (raw_frame_of bytes) [ none ↦ (host, false) | some frame ↦ raw host frame ])
]

raw_frame_of-encode :
    (bytes rest : Bytes)
    → encode (view bytes) ≡ some (0x5E ∷ rest)
    → length rest ≤ 4096
    → raw_frame_of (view bytes) ≡ some (0x5E ∷ rest)
unfolding raw_frame_of make_rak_net_raw_send_buffer
raw_frame_of-encode bytes rest e h = rw (raw_frame_of, e) (ground arith)

send-decodes :
    {S : Type 0}
    → (raw : S → Bytes → S × Bool) (t : RakNetTransport) (host : S) (bytes frame : Bytes)
      (p : Packet)
    → t.initialized ≡ true
    → decode_packet (view bytes) ≡ ok p
    → raw_frame_of (view bytes) ≡ some frame
    → send (some raw) t host (view bytes) ≡ raw host frame
unfolding send
send-decodes raw t host bytes frame p i d f = rw (i, decodes, d, f) refl

-- A transport that is initialized hands a message that the encoder accepts to RakNet as one frame,
-- and answers what RakNet answers. The receiver's inspection of that frame finds the packet, and the
-- packet decodes to the message.
pub send-sendable :
    {S : Type 0}
    → (raw : S → Bytes → S × Bool) (t : RakNetTransport) (host : S) (m : Message)
    → t.initialized ≡ true
    → IsSendable m
    → (send (some raw) t host (view (packet_bytes m)) ≡ raw host (0x5E ∷ packet_bytes m))
      × (inspect (view (0x5E ∷ packet_bytes m)) ≡ custom_model (view (packet_bytes m)))
      × (decode_packet (view (packet_bytes m)) ≡ ok (record { protocol_version = 1; message = m }))
send-sendable raw t host m i s =
    let (valid, same) = encode_packet-ok m s.0 (encode_packet-sendable m s) in
    let small : length (packet_bytes m) ≤ 4096 =
      omega (arith, packet_bytes-length m, payload_bytes-length m s.0 valid) in
    (
      send-decodes raw t host (packet_bytes m) (0x5E ∷ packet_bytes m)
          (record { protocol_version = 1; message = m }) i (decode_packet-sendable m s)
          (raw_frame_of-encode (packet_bytes m) (packet_bytes m) (encode-sendable m s) small),
      inspect-sendable m s,
      decode_packet-sendable m s,
    )

-- ===== src/Frame/Laws.antt =====
-- The carrier against its inspection: shared/src/transport_frame.cpp.
use custommodels.Base.{
  ℕ, ◌≡◌, ◌≤◌, refl, true, [], ◌∷◌, some, arith, length, ok, ◌↔◌, ◌⊎◌, take, drop,
}
use custommodels.Assets.{Bytes}
use custommodels.Frame.{
  unrelated, custom_model, has_protocol_magic, inspect, inspect_protocol_payload, encode,
}
use custommodels.Protocol.Types.{view, Message}
use custommodels.Protocol.Encode.{encode_packet}
use custommodels.Protocol.Encode.Packet.{
  encode_packet-ok, packet_bytes-length, payload_bytes-length,
}
use custommodels.Protocol.Layout.{IsTyped, packet_bytes, be32}

abbrev pub cmod : Bytes
cmod = b'C' ∷ b'M' ∷ b'O' ∷ b'D' ∷ []

pub has_protocol_magic→take :
    (bytes : Bytes) → has_protocol_magic (view bytes) ≡ true → take 4 bytes ≡ cmod
unfolding has_protocol_magic
has_protocol_magic→take [] h = ground arith
has_protocol_magic→take (a ∷ []) h = ground arith
has_protocol_magic→take (a ∷ b ∷ []) h = ground arith
has_protocol_magic→take (a ∷ b ∷ c ∷ []) h = ground arith
has_protocol_magic→take (a ∷ b ∷ c ∷ d ∷ rest) h = ground arith

take→has_protocol_magic :
    (bytes : Bytes) → take 4 bytes ≡ cmod → has_protocol_magic (view bytes) ≡ true
unfolding has_protocol_magic
take→has_protocol_magic [] h = cc
take→has_protocol_magic (a ∷ []) h = cc
take→has_protocol_magic (a ∷ b ∷ []) h = cc
take→has_protocol_magic (a ∷ b ∷ c ∷ []) h = cc
take→has_protocol_magic (a ∷ b ∷ c ∷ d ∷ rest) h = ground arith

inspect-cons :
    (id : ℕ) (rest protocol_bytes : Bytes)
    → inspect (view (id ∷ rest)) ≡ custom_model (view protocol_bytes)
    → (id ≡ 0x5E) × (rest ≡ protocol_bytes) × (has_protocol_magic (view rest) ≡ true)
unfolding inspect inspect_protocol_payload
inspect-cons id rest protocol_bytes h = ground arith

has_protocol_magic-long :
    (bytes : Bytes) → has_protocol_magic (view bytes) ≡ true → 4 ≤ length bytes
unfolding has_protocol_magic
has_protocol_magic-long bytes h = ground arith

cons-inspect :
    (bytes : Bytes)
    → has_protocol_magic (view bytes) ≡ true
    → inspect (view (0x5E ∷ bytes)) ≡ custom_model (view bytes)
unfolding inspect inspect_protocol_payload
cons-inspect bytes h = ground (arith, has_protocol_magic-long bytes h)

claimed :
    (frame protocol_bytes : Bytes)
    → inspect (view frame) ≡ custom_model (view protocol_bytes)
    → (frame ≡ 0x5E ∷ protocol_bytes) × (take 4 protocol_bytes ≡ cmod)
claimed [] protocol_bytes h = absurd (unfold inspect in ground arith)
claimed (id ∷ rest) protocol_bytes h =
    let (carrier, same, magic) = inspect-cons id rest protocol_bytes h in
    (rw (carrier, same), rw same at (has_protocol_magic→take rest magic))

-- Inspection claims exactly the frames that begin with the carrier byte 0x5E and the four bytes
-- `CMOD`, and hands on everything behind the carrier byte.
pub inspect-custom_model_iff :
    (frame protocol_bytes : Bytes)
    → (inspect (view frame) ≡ custom_model (view protocol_bytes))
      ↔ ((frame ≡ 0x5E ∷ protocol_bytes) × (take 4 protocol_bytes ≡ b'C' ∷ b'M' ∷ b'O' ∷ b'D' ∷ []))
inspect-custom_model_iff frame protocol_bytes = (
  claimed frame protocol_bytes,
  λ h. rw h.0 (cons-inspect protocol_bytes (take→has_protocol_magic protocol_bytes h.1)),
)

has_protocol_magic-packet_bytes : (m : Message) → has_protocol_magic (view (packet_bytes m)) ≡ true
unfolding packet_bytes be32
has_protocol_magic-packet_bytes m = take→has_protocol_magic (packet_bytes m) refl

-- Every packet that `EncodePacket` writes fits the carrier, and inspecting the frame gives the
-- packet back. The message's fields are of their C++ types.
pub inspect-encode :
    (m : Message) {bytes : Bytes}
    → IsTyped m
    → encode_packet m 1 ≡ ok bytes
    → (encode (view bytes) ≡ some (0x5E ∷ bytes))
      × (inspect (view (0x5E ∷ bytes)) ≡ custom_model (view bytes))
unfolding encode
inspect-encode m {bytes} t h =
    let (valid, same) = encode_packet-ok m t h in
    let magic = rw same at (has_protocol_magic-packet_bytes m) in
    let fits : length bytes ≤ 2218 =
      rw (← same) (omega (arith, packet_bytes-length m, payload_bytes-length m t valid)) in
    (ground (arith, magic, fits), cons-inspect bytes magic)

-- A frame of bytes is unrelated, or what is behind its first byte is handed on.
pub inspect-cases :
    (frame : Bytes)
    → (inspect (view frame) ≡ unrelated)
      ⊎ (inspect (view frame) ≡ custom_model (view (drop 1 frame)))
unfolding inspect inspect_protocol_payload
inspect-cases frame = ground arith

-- ===== src/Client/RakNet/Frames.antt =====
-- The frames among RakNet's packets: client/src/samp/raknet_transport.cpp.
use custommodels.Base.{
  ℕ, zero, suc, ◌≡◌, ◌≢◌, refl, Bool, true, false, not, ◌&&◌, ◌||◌, List, [], ◌∷◌, ◌++◌, Option,
  none, some, ◌==◌, leb, ltb, if◌then◌else◌, length, drop, arith,
}
use custommodels.Assets.{Bytes}
use custommodels.Assets.Text.{front}
use custommodels.Protocol.Types.{ByteView, view}
use custommodels.Frame.{
  unrelated, custom_model, inspect, inspect_protocol_payload, has_protocol_magic,
  maximum_frame_size,
}
use custommodels.Client.RakNet.{RakPacket, is_readable, is_goodbye}

-- The bytes begin with the carrier byte and `CMOD`.
unfoldable pub is_frame : Bytes → Bool
is_frame (a ∷ b ∷ c ∷ d ∷ e ∷ rest) = a == 0x5E && b == b'C' && c == b'M' && d == b'O' && e == b'D'
is_frame other = false

-- A packet that can be read as far as needed, and carries such bytes.
unfoldable pub is_custom_model : RakPacket → Bool
unfolding is_frame
is_custom_model p = elim (p.bytes) [
  | none ↦ false
  | some bytes ↦ p.has_readable_header && leb 5 p.readable && is_frame bytes
]

-- What a packet brings to the incoming callback: all of it is readable and it fits in a frame.
unfoldable pub content : RakPacket → List ByteView
content p = elim (p.bytes) [
  | none ↦ []
  | some bytes ↦
      if leb (length bytes) maximum_frame_size && leb (length bytes) p.readable
      then view (drop 1 bytes) ∷ []
      else []
]

-- What is taken out of a queue in at most `n` packets: the contents, what is left, and the packet
-- for the game.
unfoldable pub take_frames : ℕ → List RakPacket → List ByteView × List RakPacket × Option RakPacket
unfolding is_custom_model content
take_frames zero queue = ([], queue, none)
take_frames (suc n) [] = ([], [], none)
take_frames (suc n) (p ∷ queue) =
    let (contents, rest, packet) = take_frames n queue in
    if is_custom_model p then (content p ++ contents, rest, packet) else ([], queue, some p)

pub inspect-is_frame :
    (bytes : Bytes)
    → is_frame bytes ≡ true
    → inspect (view bytes) ≡ custom_model (view (drop 1 bytes))
unfolding is_frame inspect inspect_protocol_payload has_protocol_magic
inspect-is_frame [] h = cc
inspect-is_frame (a ∷ []) h = cc
inspect-is_frame (a ∷ b ∷ []) h = cc
inspect-is_frame (a ∷ b ∷ c ∷ []) h = cc
inspect-is_frame (a ∷ b ∷ c ∷ d ∷ []) h = cc
inspect-is_frame (a ∷ b ∷ c ∷ d ∷ e ∷ rest) h = ground arith

pub inspect-not_frame : (bytes : Bytes) → is_frame bytes ≡ false → inspect (view bytes) ≡ unrelated
unfolding is_frame inspect inspect_protocol_payload has_protocol_magic
inspect-not_frame [] h = refl
inspect-not_frame (a ∷ []) h = ground arith
inspect-not_frame (a ∷ b ∷ []) h = ground arith
inspect-not_frame (a ∷ b ∷ c ∷ []) h = ground arith
inspect-not_frame (a ∷ b ∷ c ∷ d ∷ []) h = ground arith
inspect-not_frame (a ∷ b ∷ c ∷ d ∷ e ∷ rest) h = ground arith

-- The readable bytes of a frame are enough, and its first byte ends no connection.
pub frame-starts :
    (p : RakPacket) (bytes : Bytes)
    → is_frame bytes ≡ true
    → leb 5 p.readable ≡ true
    → (length bytes == 0 || not (is_readable p (if ltb (length bytes) 5 then length bytes else 5)))
      ≡ false
unfolding is_frame
frame-starts p [] f h = cc
frame-starts p (a ∷ []) f h = cc
frame-starts p (a ∷ b ∷ []) f h = cc
frame-starts p (a ∷ b ∷ c ∷ []) f h = cc
frame-starts p (a ∷ b ∷ c ∷ d ∷ []) f h = cc
frame-starts p (a ∷ b ∷ c ∷ d ∷ e ∷ rest) f h = ground arith

pub frame-stays : (bytes : Bytes) → is_frame bytes ≡ true → is_goodbye bytes ≡ false
unfolding is_frame front
frame-stays [] f = cc
frame-stays (a ∷ []) f = cc
frame-stays (a ∷ b ∷ []) f = cc
frame-stays (a ∷ b ∷ c ∷ []) f = cc
frame-stays (a ∷ b ∷ c ∷ d ∷ []) f = cc
frame-stays (a ∷ b ∷ c ∷ d ∷ e ∷ rest) f = ground arith

pub frame-long : (bytes : Bytes) → is_frame bytes ≡ true → (length bytes == 0) ≡ false
unfolding is_frame
frame-long [] f = cc
frame-long (a ∷ rest) f = ground arith

pub frame-unread :
    (p : RakPacket) (bytes : Bytes)
    → is_frame bytes ≡ true
    → (length bytes == 0 || not (is_readable p (if ltb (length bytes) 5 then length bytes else 5)))
      ≡ false
    → (leb 5 p.readable && is_frame bytes) ≢ false
unfolding is_frame
frame-unread p [] f e h = cc
frame-unread p (a ∷ []) f e h = cc
frame-unread p (a ∷ b ∷ []) f e h = cc
frame-unread p (a ∷ b ∷ c ∷ []) f e h = cc
frame-unread p (a ∷ b ∷ c ∷ d ∷ []) f e h = cc
frame-unread p (a ∷ b ∷ c ∷ d ∷ x ∷ rest) f e h = ground arith

abbrev pub packet : Bool → Option Bytes → ℕ → RakPacket
packet header bytes readable = record {
  has_readable_header = header;
  bytes = bytes;
  readable = readable;
}

-- ===== src/Frame.antt =====
-- The RakNet carrier of protocol packets: shared/include/custommodel/transport_frame.hpp and
-- shared/src/transport_frame.cpp.
pub mod Laws
pub mod Carried
use custommodels.Base.{
  ℕ, zero, suc, ◌+◌, Bool, true, false, ◌&&◌, ◌||◌, not, [], ◌∷◌, ◌++◌, Option, none, some, ltb,
  leb, ◌==◌, if◌then◌else◌, length, drop,
}
use custommodels.Assets.{Bytes}
use custommodels.Protocol.Types.{ByteView, null_view, view, maximum_packet_size}

abbrev pub raknet_packet_id : ℕ
raknet_packet_id = 0x5E

abbrev pub prefix_size : ℕ
prefix_size = 1

abbrev pub maximum_frame_size : ℕ
maximum_frame_size = prefix_size + maximum_packet_size

-- `InspectedFrame`: unrelated, or a CustomModel frame with its protocol bytes.
pub data InspectedFrame : Type 0 where
  unrelated : InspectedFrame
  custom_model : ByteView → InspectedFrame

-- `bytes.data[i]`, which is read only where the size allows it.
unfoldable pub byte_at : Bytes → ℕ → ℕ
byte_at [] i = 0
byte_at (b ∷ bytes) zero = b
byte_at (b ∷ bytes) (suc i) = byte_at bytes i

unfoldable pub has_protocol_magic : ByteView → Bool
unfolding byte_at
has_protocol_magic (null_view size) = false
has_protocol_magic (view bytes) =
    leb 4 (length bytes)
    && byte_at bytes 0 == b'C'
    && byte_at bytes 1 == b'M'
    && byte_at bytes 2 == b'O'
    && byte_at bytes 3 == b'D'

unfoldable pub inspect_protocol_payload : ByteView → InspectedFrame
inspect_protocol_payload protocol_bytes =
    if not (has_protocol_magic protocol_bytes) then unrelated else custom_model protocol_bytes

unfoldable pub inspect : ByteView → InspectedFrame
unfolding byte_at
inspect (null_view size) = unrelated
inspect (view frame) =
    if leb (length frame) prefix_size || not (byte_at frame 0 == raknet_packet_id)
    then unrelated
    else inspect_protocol_payload (view (drop prefix_size frame))

unfoldable pub encode : ByteView → Option Bytes
encode (null_view size) = none
encode (view protocol_bytes) =
    if not (has_protocol_magic (view protocol_bytes))
      || ltb maximum_packet_size (length protocol_bytes)
    then none
    else some (raknet_packet_id ∷ protocol_bytes)

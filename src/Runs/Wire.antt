-- ===== src/Runs/Wire.antt =====
-- The wire format and the carrier: shared/src.
use custommodels.Protocol.Encode.Fields.{write_packet, write_hello, write_runtime_version}
use custommodels.Protocol.Writer.{write_byte, write_u8, write_u16, write_u32, write_each, ◌>>◌}
use custommodels.Protocol.Checks.{is_samp_version_value_valid, are_capabilities_valid}
use custommodels.Base.{
  ◌≡◌, refl, false, [], ◌∷◌, All, some, ok, take, ◌↔◌, err, if◌then◌else◌, ◌==◌, ◌&&◌, not,
}
use custommodels.Version.{
  version_code, SampBuildInfo, r3_1, find_samp_build, find_samp_build_version, to_string,
}
use custommodels.Version.Builds.{find_samp_build-agrees}
use custommodels.Assets.{Bytes}
use custommodels.Protocol.Types.{
  Message, EncodeError, message_type_code, EncodeError, message_type_code, Packet, view,
}
use custommodels.Protocol.Encode.{
  encode_packet, encode_payload, has_invalid_field, write_message, type_of,
}
use custommodels.Protocol.Encode.Packet.{encode_packet-exact}
use custommodels.Protocol.Decode.{decode_packet}
use custommodels.Protocol.Decode.Canonical.{encode_packet-decode_packet}
use custommodels.Protocol.Decode.RoundTrip.{decode_packet-encode_packet}
use custommodels.Protocol.Layout.{IsByte, IsTyped, packet_bytes}
use custommodels.Frame.{encode, inspect, custom_model}
use custommodels.Frame.Laws.{inspect-custom_model_iff, inspect-encode}
use custommodels.Runs.Samples.{greeting, greeting-IsTyped, bytes_in_range}

-- The packet of the greeting.
abbrev wire : Bytes
wire =
    0x43 ∷ 0x4D ∷ 0x4F ∷ 0x44 ∷ 0 ∷ 1 ∷ 0 ∷ 1 ∷ 0 ∷ 0 ∷ 0 ∷ 14 ∷ 0 ∷ 0 ∷ 0 ∷ 2 ∷ 0 ∷ 0 ∷ 0 ∷ 1 ∷ 0
    ∷ 4 ∷ 0 ∷ 0 ∷ 0 ∷ 13 ∷ []

abbrev greeting_packet : Packet
greeting_packet = record { protocol_version = 1; message = Message.hello greeting }

abbrev build : SampBuildInfo
build = record { version = r3_1; entry_point = 0x0CC4D0; name = "SA-MP 0.3.7 R3-1" }

encoded : encode_packet (Message.hello greeting) 1 ≡ ok wire
unfolding encode_packet encode_payload has_invalid_field write_message is_samp_version_value_valid
    are_capabilities_valid version_code write_packet type_of message_type_code write_hello
    write_runtime_version write_u16 write_u32 write_byte write_each write_u8 ◌>>◌
encoded = refl

valid : has_invalid_field (Message.hello greeting) ≡ false
unfolding has_invalid_field is_samp_version_value_valid are_capabilities_valid version_code
valid = refl

wire-IsByte : All IsByte wire
wire-IsByte = bytes_in_range wire refl

decoded : decode_packet (view wire) ≡ ok greeting_packet
decoded = decode_packet-encode_packet (Message.hello greeting) greeting-IsTyped encoded

decode_packet-encode_packet_example : decode_packet (view wire) ≡ ok greeting_packet
decode_packet-encode_packet_example =
    decode_packet-encode_packet (Message.hello greeting) greeting-IsTyped encoded

encode_packet-decode_packet_example :
    (greeting_packet.protocol_version ≡ 1)
    × IsTyped (Message.hello greeting)
    × (encode_packet (Message.hello greeting) 1 ≡ ok wire)
encode_packet-decode_packet_example =
    encode_packet-decode_packet wire greeting_packet wire-IsByte decoded

encode_packet-exact_example : encode_packet (Message.hello greeting) 2 ≡ (
    if 2 == 1 && not (has_invalid_field (Message.hello greeting))
    then ok (packet_bytes (Message.hello greeting))
    else err EncodeError.invalid_field)
encode_packet-exact_example = encode_packet-exact (Message.hello greeting) 2 greeting-IsTyped

inspect-custom_model_iff_example :
    (inspect (view (0x5E ∷ wire)) ≡ custom_model (view wire))
    ↔ ((0x5E ∷ wire ≡ 0x5E ∷ wire) × (take 4 wire ≡ b'C' ∷ b'M' ∷ b'O' ∷ b'D' ∷ []))
inspect-custom_model_iff_example = inspect-custom_model_iff (0x5E ∷ wire) wire

inspect-encode_example :
    (encode (view wire) ≡ some (0x5E ∷ wire))
    × (inspect (view (0x5E ∷ wire)) ≡ custom_model (view wire))
inspect-encode_example = inspect-encode (Message.hello greeting) greeting-IsTyped encoded

found : find_samp_build 0x0CC4D0 ≡ some build
unfolding find_samp_build
found = refl

find_samp_build-agrees_example :
    (build.entry_point ≡ 0x0CC4D0)
    × (find_samp_build_version r3_1 ≡ some build)
    × (build.name ≡ to_string r3_1)
find_samp_build-agrees_example = find_samp_build-agrees 0x0CC4D0 found

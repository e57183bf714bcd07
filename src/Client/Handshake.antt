-- ===== src/Client/Handshake.antt =====
-- The client's side of the handshake: client/include/custommodel/protocol/handshake.hpp and
-- client/src/protocol/handshake.cpp.
pub mod Completes
use custommodels.Base.{
  ℕ, bit_and, Bool, true, false, not, ◌||◌, Option, none, some, ◌==◌, if◌then◌else◌, Result, ok,
  err,
}
use custommodels.Version.{RuntimeVersion, SampVersion}
use custommodels.Assets.{Bytes}
use custommodels.Protocol.Types.{
  ByteView, Message, Hello, Welcome, Reject, hello, welcome, reject, declared_capabilities,
  protocol_version,
}
use custommodels.Protocol.Checks.{complement, are_capabilities_valid}
use custommodels.Protocol.Encode.{encode_packet}
use custommodels.Protocol.Decode.{decode_packet}

pub data HandshakeState : Type 0 where
  disconnected connected hello_sent welcome_received compatible rejected : HandshakeState

pub data IncomingResult : Type 0 where
  ignored malformed welcome_received rejected : IncomingResult

pub record HandshakeConfiguration : Type 0 where
  pub runtime_version : RuntimeVersion
  pub samp_version : SampVersion
  pub capabilities : ℕ

pub record ClientHandshake : Type 0 where
  pub configuration : HandshakeConfiguration
  pub state : HandshakeState
  pub welcome : Option Welcome
  pub rejection : Option Reject

-- The constructor.
unfoldable pub client_handshake : HandshakeConfiguration → ClientHandshake
client_handshake configuration = record {
  configuration = record configuration {
    capabilities = bit_and configuration.capabilities declared_capabilities;
  };
  state = disconnected;
  welcome = none;
  rejection = none;
}

-- `state_ == …`.
abbrev pub is_disconnected : HandshakeState → Bool
is_disconnected disconnected = true
is_disconnected _ = false

abbrev pub is_connected : HandshakeState → Bool
is_connected connected = true
is_connected _ = false

abbrev pub has_sent_hello : HandshakeState → Bool
has_sent_hello hello_sent = true
has_sent_hello _ = false

abbrev pub has_welcome : HandshakeState → Bool
has_welcome HandshakeState.welcome_received = true
has_welcome _ = false

unfoldable pub on_connected : ClientHandshake → ClientHandshake
on_connected c =
    if is_disconnected c.state
    then record c { state = connected; welcome = none; rejection = none }
    else c

unfoldable pub on_disconnected : ClientHandshake → ClientHandshake
on_disconnected c = record c { state = disconnected; welcome = none; rejection = none }

-- The `Hello` of the configuration.
abbrev pub hello_of : ClientHandshake → Hello
hello_of c = record {
  runtime_version = c.configuration.runtime_version;
  protocol_version = protocol_version;
  samp_version = c.configuration.samp_version;
  capabilities = c.configuration.capabilities;
}

unfoldable pub take_hello : ClientHandshake → ClientHandshake × Option Bytes
take_hello c =
    if not (is_connected c.state)
    then (c, none)
    else (elim (encode_packet (Message.hello (hello_of c)) protocol_version) [
      | err e ↦ (c, none)
      | ok bytes ↦ (record c { state = hello_sent }, some bytes)
    ])

-- What `HandleIncoming` does with a message in the state `HelloSent`.
unfoldable pub handle_message : ClientHandshake → Message → ClientHandshake × IncomingResult
handle_message c (Message.welcome m) =
    if not (m.accepted_protocol_version == protocol_version)
      || not (m.server_protocol_version == protocol_version)
      || not (are_capabilities_valid m.negotiated_capabilities)
      || not (bit_and m.negotiated_capabilities (complement c.configuration.capabilities) == 0)
    then (c, malformed)
    else (
      record c { welcome = some m; state = HandshakeState.welcome_received },
      IncomingResult.welcome_received,
    )
handle_message c (Message.reject m) =
    (record c { rejection = some m; state = HandshakeState.rejected }, IncomingResult.rejected)
handle_message c _ = (c, ignored)

unfoldable pub handle_incoming : ClientHandshake → ByteView → ClientHandshake × IncomingResult
unfolding handle_message
handle_incoming c bytes = elim (decode_packet bytes) [
  | err e ↦ (c, malformed)
  | ok packet ↦
      if not (has_sent_hello c.state) then (c, ignored) else handle_message c packet.message
]

unfoldable pub confirm_welcome : ClientHandshake → ClientHandshake × Bool
confirm_welcome c =
    if not (has_welcome c.state) then (c, false) else (record c { state = compatible }, true)

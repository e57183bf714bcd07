-- ===== src/Client/Handshake/Completes.antt =====
-- The handshake from the client's `Hello` to the server's answer: client/src/protocol/handshake.cpp
-- against server/src/player_capabilities.cpp.
use custommodels.Base.{ℕ, bit_and, ◌≡◌, refl, true, some, ◌∙◌, arith, nat_key, sym, subst}
use custommodels.Base.Bits.{bit_and-complement}
use custommodels.Version.{version_code, version_of_code}
use custommodels.Protocol.Types.{Message, view}
use custommodels.Protocol.Checks.{complement, are_capabilities_valid, is_samp_version_value_valid}
use custommodels.Protocol.Encode.{has_invalid_field}
use custommodels.Protocol.Layout.{HasVersion, IsU32, packet_bytes}
use custommodels.Frame.Carried.{IsSendable, encode_packet-sendable, decode_packet-sendable}
use custommodels.Server.Tracker.{
  HandshakePolicy, HandshakeResponse, PlayerCapabilityTracker, welcome, reject, message_of,
  handle_hello,
}
use custommodels.Server.Tracker.Sound.{IsSoundTracker}
use custommodels.Server.Tracker.Sendable.{HasAgreed, handle_hello-IsSendable}
use custommodels.Client.Handshake.{
  ClientHandshake, HandshakeConfiguration, HandshakeState, IncomingResult, connected, hello_sent,
  hello_of, take_hello, handle_incoming, handle_message,
}

-- A configuration as the constructor leaves it, its fields of their C++ types.
pub record IsConfigured (c : HandshakeConfiguration) : Type 0 where
  pub version : HasVersion c.runtime_version
  pub named : version_of_code (version_code c.samp_version) ≡ c.samp_version
  pub build : is_samp_version_value_valid (version_code c.samp_version) ≡ true
  pub flags : IsU32 c.capabilities
  pub capabilities : are_capabilities_valid c.capabilities ≡ true

-- What the client makes of a response: it has been welcomed with the capabilities that the two sides
-- share, or it has been rejected for the server's reason.
abbrev pub settled : ClientHandshake → HandshakeResponse → ClientHandshake × IncomingResult
settled c (welcome m) = (
  record c { welcome = some m; state = HandshakeState.welcome_received },
  IncomingResult.welcome_received,
)
settled c (reject m) =
    (record c { rejection = some m; state = HandshakeState.rejected }, IncomingResult.rejected)

hello_of-IsSendable :
    (c : ClientHandshake) → IsConfigured c.configuration → IsSendable (Message.hello (hello_of c))
unfolding has_invalid_field
hello_of-IsSendable c g =
    ((g.version, omega arith, g.named, g.flags), rw (g.build, g.capabilities) refl)

take_hello-connected :
    (c : ClientHandshake)
    → c.state ≡ connected
    → IsConfigured c.configuration
    → take_hello c
      ≡ (record c { state = hello_sent }, some (packet_bytes (Message.hello (hello_of c))))
unfolding take_hello
take_hello-connected c s g =
    rw (s, take_hello, encode_packet-sendable _ (hello_of-IsSendable c g), take_hello) refl

handle_message-settled :
    (p : HandshakePolicy) (c : ClientHandshake) (response : HandshakeResponse)
    → IsU32 c.configuration.capabilities
    → HasAgreed p c.configuration.capabilities response
    → handle_message c (message_of response) ≡ settled c response
unfolding handle_message
handle_message-settled p c (reject m) flags h = refl
handle_message-settled p c (welcome m) flags h =
    let mine = c.configuration.capabilities in
    let none : bit_and m.negotiated_capabilities (complement mine) ≡ 0 =
      rw h.2 (bit_and-complement 32 mine p.server_capabilities (complement mine) (omega arith)) in
    rw (h.0, h.1, h.3, none) refl

handle_incoming-sendable :
    (c : ClientHandshake) (m : Message)
    → IsSendable m
    → handle_incoming (record c { state = hello_sent }) (view (packet_bytes m))
      ≡ handle_message (record c { state = hello_sent }) m
unfolding handle_incoming
handle_incoming-sendable c m sendable = rw (decode_packet-sendable m sendable, handle_incoming) refl

-- A connected client sends its `Hello`, and whatever a sound server answers to it, from any state of
-- the player, the client takes: it is welcomed, or rejected for the server's reason, and neither
-- finds the answer malformed nor ignores it. The configuration and the server's version are of their
-- C++ types, and the configuration's capabilities are declared ones.
pub handle_hello-settled :
    (p : HandshakePolicy) (t : PlayerCapabilityTracker) (id : ℕ) (c : ClientHandshake)
    → HasVersion p.server_runtime_version
    → IsSoundTracker p t
    → IsConfigured c.configuration
    → c.state ≡ connected
    → (take_hello c
        ≡ (record c { state = hello_sent }, some (packet_bytes (Message.hello (hello_of c)))))
      × (handle_incoming
            (take_hello c).0
            (view (packet_bytes (message_of (handle_hello t id (hello_of c)).1)))
          ≡ settled (take_hello c).0 (handle_hello t id (hello_of c)).1)
handle_hello-settled p t id c version sound g s =
    let taken = take_hello-connected c s g in
    let own : HasVersion t.policy.server_runtime_version =
      subst (λ q. HasVersion q.server_runtime_version) (sym sound.0) version in
    let (sendable, agreed) = handle_hello-IsSendable p t id (hello_of c) own g.flags sound in
    let response = (handle_hello t id (hello_of c)).1 in
    (
      taken,
      rw taken (
          handle_incoming-sendable c (message_of response) sendable
          ∙ handle_message-settled p (record c { state = hello_sent }) response g.flags agreed),
    )

-- ===== src/Runs/Handshakes.antt =====
-- The handshake on both sides: server/src and client/src/protocol.
use custommodels.Base.{◌≡◌, refl, true, List, [], ◌∷◌, All, some, none, nat_key}
use custommodels.Assets.{Bytes}
use custommodels.Protocol.Types.{Message, view, malformed_handshake}
use custommodels.Protocol.Checks.{is_reject_reason_valid}
use custommodels.Protocol.Types.{reject_code, reject_of_code}
use custommodels.Protocol.Layout.{HasVersion, packet_bytes}
use custommodels.Server.Tracker.{
  PlayerCapabilityTracker, tracker, begin_handshake, handle_hello, message_of,
}
use custommodels.Server.Tracker.Answers.{handle_hello-again, IsDeclared}
use custommodels.Server.Tracker.Sound.{
  Event, connected, greeted, turned_away, disconnected, run, IsTypedEvent, IsSoundTracker,
  run-IsSound,
}
use custommodels.Server.Endpoint.{HandshakeEndpoint, Delivery, dispatch_incoming}
use custommodels.Server.Endpoint.Answered.{IsDispatched, dispatch_incoming-IsDispatched}
use custommodels.Client.Handshake.{
  ClientHandshake, HandshakeState, take_hello, handle_incoming, hello_of, hello_sent,
}
use custommodels.Client.Handshake.Completes.{handle_hello-settled, settled}
use custommodels.Runs.Samples.{
  greeting, greeting-IsTyped, policy, configuration, configuration-IsConfigured, runtime-HasVersion,
  bytes_in_range,
}

abbrev events : List Event
events =
    connected 4
    ∷ connected 5
    ∷ greeted 4 greeting
    ∷ turned_away 5 malformed_handshake
    ∷ disconnected 6
    ∷ greeted 6 greeting
    ∷ []

declared : IsDeclared malformed_handshake
unfolding is_reject_reason_valid reject_code reject_of_code
declared = (refl, refl)

events-IsTyped : All IsTypedEvent events
events-IsTyped = (tt, (tt, (greeting-IsTyped.3, (declared, (tt, (greeting-IsTyped.3, tt))))))

abbrev used : PlayerCapabilityTracker
used = run (tracker policy) events

run-IsSound_example : IsSoundTracker (tracker policy).policy (run (tracker policy) events)
run-IsSound_example = run-IsSound policy events events-IsTyped

handle_hello-again_example :
    handle_hello (handle_hello (begin_handshake (tracker policy) 4) 4 greeting).0 4 greeting
    ≡ handle_hello (begin_handshake (tracker policy) 4) 4 greeting
handle_hello-again_example = handle_hello-again (begin_handshake (tracker policy) 4) 4 greeting

own-HasVersion : HasVersion (tracker policy).policy.server_runtime_version
unfolding tracker
own-HasVersion = runtime-HasVersion

abbrev endpoint : HandshakeEndpoint
endpoint = record { tracker = used; frames = [] }

-- A transport that takes every frame.
abbrev takes_all : Delivery
takes_all frames id frame = true

-- A frame with the magic and nothing else.
abbrev short_frame : Bytes
short_frame = 0x5E ∷ 0x43 ∷ 0x4D ∷ 0x4F ∷ 0x44 ∷ []

dispatch_incoming-IsDispatched_example :
    IsDispatched takes_all
      (tracker policy).policy
      endpoint
      4
      short_frame
      (dispatch_incoming takes_all endpoint 4 (view short_frame))
dispatch_incoming-IsDispatched_example =
    dispatch_incoming-IsDispatched takes_all (tracker policy).policy endpoint 4 short_frame
      (bytes_in_range short_frame refl) (run-IsSound policy events events-IsTyped, own-HasVersion)

abbrev client : ClientHandshake
client = record {
  configuration = configuration;
  state = HandshakeState.connected;
  welcome = none;
  rejection = none;
}

handle_hello-settled_example :
    (take_hello client ≡ (
      record client { state = hello_sent },
      some (packet_bytes (Message.hello (hello_of client))),
    ))
    × (handle_incoming
          (take_hello client).0
          (view (packet_bytes (message_of (handle_hello used 4 (hello_of client)).1)))
        ≡ settled (take_hello client).0 (handle_hello used 4 (hello_of client)).1)
handle_hello-settled_example =
    handle_hello-settled (tracker policy).policy used 4 client own-HasVersion
      (run-IsSound policy events events-IsTyped) configuration-IsConfigured refl

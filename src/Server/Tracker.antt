-- ===== src/Server/Tracker.antt =====
-- The handshake state of every player: server/include/custommodel/server/player_capabilities.hpp
-- and server/src/player_capabilities.cpp.
pub mod Answers
pub mod Sound
pub mod Sendable
use custommodels.Base.{
  ℕ, bit_and, Bool, true, false, not, ◌||◌, ◌&&◌, List, [], ◌∷◌, Option, none, some, ltb, leb, ◌==◌,
  if◌then◌else◌, length, find, put, erase, nat_key,
}
use custommodels.Version.{
  RuntimeVersion, SampVersion, r1, r3_1, runtime_version, same_version, find_samp_build_version,
}
use custommodels.Protocol.Types.{
  Message, Hello, Welcome, Reject, RejectReason, declared_capabilities, protocol_version,
  unsupported_protocol, unsupported_client_runtime, unsupported_samp_build, malformed_handshake,
  unsupported_capabilities,
}
use custommodels.Protocol.Checks.{are_capabilities_valid}

pub data HandshakeState : Type 0 where
  unknown handshake_pending compatible rejected : HandshakeState

pub record PlayerCapabilityState : Type 0 where
  pub state : HandshakeState
  pub runtime_version : RuntimeVersion
  pub protocol_version : ℕ
  pub samp_version : SampVersion
  pub declared_capabilities : ℕ
  pub negotiated_capabilities : ℕ
  pub reject_reason : Option RejectReason

-- `PlayerCapabilityState{}`.
abbrev pub initial_player : PlayerCapabilityState
initial_player = record {
  state = HandshakeState.unknown;
  runtime_version = record { major = 0; minor = 0; patch = 0 };
  protocol_version = 0;
  samp_version = SampVersion.unknown;
  declared_capabilities = 0;
  negotiated_capabilities = 0;
  reject_reason = none;
}

pub record HandshakePolicy : Type 0 where
  pub minimum_client_runtime : RuntimeVersion
  pub server_runtime_version : RuntimeVersion
  pub server_capabilities : ℕ
  pub required_capabilities : ℕ

pub data HandshakeResponse : Type 0 where
  welcome : Welcome → HandshakeResponse
  reject : Reject → HandshakeResponse

-- The message of a response.
abbrev pub message_of : HandshakeResponse → Message
message_of (welcome m) = Message.welcome m
message_of (reject m) = Message.reject m

pub record PlayerCapabilityTracker : Type 0 where
  pub policy : HandshakePolicy
  pub players : List (ℕ × PlayerCapabilityState)

unfoldable pub has_phase2b_transport : SampVersion → Bool
has_phase2b_transport version = same_version version r1 || same_version version r3_1

unfoldable pub is_runtime_supported : RuntimeVersion → RuntimeVersion → Bool
is_runtime_supported version minimum =
    if not (version.major == minimum.major)
    then false
    else if not (version.minor == minimum.minor)
    then ltb minimum.minor version.minor
    else leb minimum.patch version.patch

abbrev pub state_from_hello : HandshakeState → Hello → PlayerCapabilityState
state_from_hello state hello = record {
  state = state;
  runtime_version = hello.runtime_version;
  protocol_version = hello.protocol_version;
  samp_version = hello.samp_version;
  declared_capabilities = hello.capabilities;
  negotiated_capabilities = 0;
  reject_reason = none;
}

unfoldable pub same_runtime_version : RuntimeVersion → RuntimeVersion → Bool
same_runtime_version left right =
    left.major == right.major && left.minor == right.minor && left.patch == right.patch

unfoldable pub same_hello : PlayerCapabilityState → Hello → Bool
unfolding same_runtime_version
same_hello state hello =
    same_runtime_version state.runtime_version hello.runtime_version
    && state.protocol_version == hello.protocol_version
    && same_version state.samp_version hello.samp_version
    && state.declared_capabilities == hello.capabilities

-- The constructor.
unfoldable pub tracker : HandshakePolicy → PlayerCapabilityTracker
tracker policy = record {
  policy = record policy {
    server_capabilities = bit_and policy.server_capabilities declared_capabilities;
    required_capabilities = bit_and policy.required_capabilities declared_capabilities;
  };
  players = [];
}

unfoldable pub begin_handshake : PlayerCapabilityTracker → ℕ → PlayerCapabilityTracker
begin_handshake t player_id =
    let state = record initial_player { state = handshake_pending } in
    record t { players = put player_id state t.players }

unfoldable pub welcome_for : PlayerCapabilityTracker → PlayerCapabilityState → Welcome
welcome_for t state = record {
  accepted_protocol_version = protocol_version;
  server_runtime_version = t.policy.server_runtime_version;
  server_protocol_version = protocol_version;
  negotiated_capabilities = state.negotiated_capabilities;
}

-- The private `Reject`.
unfoldable pub reject_hello :
    PlayerCapabilityTracker → ℕ → Hello → RejectReason → PlayerCapabilityTracker × Reject
reject_hello t player_id hello reason =
    let state = record (state_from_hello rejected hello) { reject_reason = some reason } in
    (record t { players = put player_id state t.players }, record { reason = reason })

unfoldable pub reject_player :
    PlayerCapabilityTracker → ℕ → RejectReason → PlayerCapabilityTracker × Reject
reject_player t player_id reason =
    let state = record initial_player { state = rejected; reject_reason = some reason } in
    (record t { players = put player_id state t.players }, record { reason = reason })

-- `current->second.state == …`.
abbrev pub is_compatible : HandshakeState → Bool
is_compatible compatible = true
is_compatible _ = false

abbrev pub is_pending : HandshakeState → Bool
is_pending handshake_pending = true
is_pending _ = false

-- The reason of a state that is `Rejected` and has one.
abbrev pub rejection_of : PlayerCapabilityState → Option RejectReason
rejection_of state = elim (state.state) [ rejected ↦ state.reject_reason | other ↦ none ]

abbrev pub has_build : SampVersion → Bool
has_build version = elim (find_samp_build_version version) [ none ↦ false | some build ↦ true ]

abbrev refuse :
    PlayerCapabilityTracker → ℕ → Hello → RejectReason → PlayerCapabilityTracker × HandshakeResponse
refuse t player_id hello reason =
    let (next, answer) = reject_hello t player_id hello reason in (next, reject answer)

-- The part of `HandleHello` that a pending player reaches.
unfoldable pub judge_hello :
    PlayerCapabilityTracker → ℕ → Hello → PlayerCapabilityTracker × HandshakeResponse
unfolding reject_hello welcome_for
judge_hello t player_id hello =
    let refusal = refuse t player_id hello in
    let negotiated = bit_and hello.capabilities t.policy.server_capabilities in
    let state = record (state_from_hello compatible hello) {
      negotiated_capabilities = negotiated;
    } in
    if not (hello.protocol_version == protocol_version)
    then refusal unsupported_protocol
    else if not (is_runtime_supported hello.runtime_version t.policy.minimum_client_runtime)
    then refusal unsupported_client_runtime
    else if not (has_build hello.samp_version) || not (has_phase2b_transport hello.samp_version)
    then refusal unsupported_samp_build
    else if not (are_capabilities_valid hello.capabilities)
    then refusal malformed_handshake
    else if not
        (bit_and negotiated t.policy.required_capabilities == t.policy.required_capabilities)
    then refusal unsupported_capabilities
    else (record t { players = put player_id state t.players }, welcome (welcome_for t state))

unfoldable pub handle_hello :
    PlayerCapabilityTracker → ℕ → Hello → PlayerCapabilityTracker × HandshakeResponse
unfolding judge_hello reject_hello welcome_for
handle_hello t player_id hello = elim (find player_id t.players) [
  | none ↦ refuse t player_id hello malformed_handshake
  | some current ↦
      if is_compatible current.state && same_hello current hello
      then (t, welcome (welcome_for t current))
      else (elim (rejection_of current) [
        | some reason ↦ (t, reject (record { reason = reason }))
        | none ↦
            if not (is_pending current.state)
            then refuse t player_id hello malformed_handshake
            else judge_hello t player_id hello
      ])
]

unfoldable pub remove_player : PlayerCapabilityTracker → ℕ → PlayerCapabilityTracker
remove_player t player_id = record t { players = erase player_id t.players }

unfoldable pub reset : PlayerCapabilityTracker → PlayerCapabilityTracker
reset t = record t { players = [] }

unfoldable pub get_state : PlayerCapabilityTracker → ℕ → PlayerCapabilityState
get_state t player_id = elim (find player_id t.players) [
  | none ↦ initial_player
  | some state ↦ state
]

unfoldable pub tracked_player_count : PlayerCapabilityTracker → ℕ
tracked_player_count t = length t.players

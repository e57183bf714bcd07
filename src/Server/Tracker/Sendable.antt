-- ===== src/Server/Tracker/Sendable.antt =====
-- Every answer of the tracker can be encoded: server/src/player_capabilities.cpp against
-- shared/src/protocol.cpp.
use custommodels.Base.{ℕ, bit_and, ◌≡◌, refl, true, nat_key, find-AllValues, subst, arith, ==→eq}
use custommodels.Base.Bits.{bit_and-le, bit_and-masked}
use custommodels.Protocol.Types.{Message, Hello, RejectReason, declared_capabilities}
use custommodels.Protocol.Checks.{complement, are_capabilities_valid}
use custommodels.Protocol.Encode.{has_invalid_field}
use custommodels.Protocol.Layout.{HasVersion, IsU32}
use custommodels.Frame.Carried.{IsSendable}
use custommodels.Server.Tracker.{
  HandshakePolicy, HandshakeResponse, PlayerCapabilityState, PlayerCapabilityTracker, message_of,
  welcome, reject, welcome_for, handle_hello,
}
use custommodels.Server.Tracker.Answers.{
  IsAgreed, IsSound, IsDeclared, agreed_state, Handled, kept_welcome, kept_reject, refused, agreed,
  handle_hello-cases,
}
use custommodels.Server.Tracker.Sound.{IsSoundTracker}

are_capabilities_valid-bit_and :
    (a b : ℕ) → are_capabilities_valid a ≡ true → are_capabilities_valid (bit_and a b) ≡ true
unfolding are_capabilities_valid
are_capabilities_valid-bit_and a b h =
    let none = bit_and-masked a b (complement declared_capabilities) (==→eq _ _ h) in rw none refl

-- A `Welcome` agrees on what the `Hello` and the policy share.
abbrev pub HasAgreed : HandshakePolicy → ℕ → HandshakeResponse → Type 0
HasAgreed p flags (welcome m) =
    (m.accepted_protocol_version ≡ 1)
    × (m.server_protocol_version ≡ 1)
    × (m.negotiated_capabilities ≡ bit_and flags p.server_capabilities)
    × (are_capabilities_valid m.negotiated_capabilities ≡ true)
HasAgreed p flags (reject m) = Unit {0}

welcome_for-good :
    (p : HandshakePolicy) (t : PlayerCapabilityTracker) (s : PlayerCapabilityState)
    → HasVersion t.policy.server_runtime_version
    → IsAgreed p s
    → IsU32 s.declared_capabilities
    → IsSendable (message_of (welcome (welcome_for t s)))
      × HasAgreed p s.declared_capabilities (welcome (welcome_for t s))
unfolding welcome_for has_invalid_field
welcome_for-good p t s version a flags =
    let shared = a.negotiated in
    let valid : are_capabilities_valid s.negotiated_capabilities ≡ true =
      rw shared
        (are_capabilities_valid-bit_and s.declared_capabilities p.server_capabilities a.declared) in
    let small : IsU32 s.negotiated_capabilities =
      rw shared (omega (arith, bit_and-le s.declared_capabilities p.server_capabilities)) in
    (((omega arith, version, omega arith, small), rw valid refl), (refl, refl, shared, valid))

pub reject-good :
    (reason : RejectReason)
    → IsDeclared reason
    → IsSendable (Message.reject (record { reason = reason }))
unfolding has_invalid_field
reject-good reason d = (d.1, rw d.0 refl)

-- Whatever a sound tracker answers to a `Hello` the encoder accepts, and a `Welcome` agrees on the
-- capabilities that the `Hello` and the policy share.
pub handle_hello-IsSendable :
    (p : HandshakePolicy) (t : PlayerCapabilityTracker) (id : ℕ) (hello : Hello)
    → HasVersion t.policy.server_runtime_version
    → IsU32 hello.capabilities
    → IsSoundTracker p t
    → IsSendable (message_of (handle_hello t id hello).1)
      × HasAgreed p hello.capabilities (handle_hello t id hello).1
handle_hello-IsSendable p t id hello version flags h = by_cases (handle_hello-cases t id hello)
  where
    Good : HandshakeResponse → Type 0
    Good r = IsSendable (message_of r) × HasAgreed p hello.capabilities r

    by_cases : Handled t id hello → Good (handle_hello t id hello).1
    by_cases (kept_welcome current found is same e) =
        let sound = find-AllValues (IsSound p) id current t.players found h.1 in
        let small : IsU32 current.declared_capabilities = sound.flags in
        rw (e, ← same) (welcome_for-good p t current version (sound.agreed is) small)
    by_cases (kept_reject current reason found is e) =
        let sound = find-AllValues (IsSound p) id current t.players found h.1 in
        rw e (reject-good reason (sound.reasons reason is), tt)
    by_cases (refused reason d e) = rw e (reject-good reason d, tt)
    by_cases (agreed agreement e) =
        let passed : IsAgreed p (agreed_state t.policy hello) =
          subst (λ q. IsAgreed q (agreed_state t.policy hello)) h.0 agreement in
        rw e (welcome_for-good p t (agreed_state t.policy hello) version passed flags)

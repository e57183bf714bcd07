-- ===== src/Server/Tracker/Answers.antt =====
-- What the tracker answers to a `Hello`: server/src/player_capabilities.cpp.
use custommodels.Base.{
  Bool, ◌&&◌, Option, ℕ, bit_and, ◌≡◌, ◌≢◌, refl, true, List, none, some, find, put, nat_key,
  find-put, Bool-cases, Option-cases, inl, inr, ◌==◌, ◌&&◌, arith, ==→refl, ◌∙◌,
}
use custommodels.Version.{same_version}
use custommodels.Protocol.Types.{
  reject_code, reject_of_code, Hello, RejectReason, unsupported_protocol,
  unsupported_client_runtime, unsupported_samp_build, malformed_handshake, unsupported_capabilities,
}
use custommodels.Protocol.Checks.{is_reject_reason_valid, are_capabilities_valid}
use custommodels.Protocol.Layout.{IsU32}
use custommodels.Server.Tracker.{
  HandshakeState, handshake_pending, initial_player, is_compatible, same_hello, HandshakePolicy,
  PlayerCapabilityState, PlayerCapabilityTracker, compatible, rejected, welcome, reject,
  state_from_hello, same_hello, same_runtime_version, welcome_for, reject_hello, judge_hello,
  handle_hello, is_compatible, is_pending, rejection_of, has_build, has_phase2b_transport,
  is_runtime_supported,
}

-- What a player that is `Compatible` under the policy `p` has passed.
pub record IsAgreed (p : HandshakePolicy) (s : PlayerCapabilityState) : Type 0 where
  pub version : s.protocol_version ≡ 1
  pub runtime : is_runtime_supported s.runtime_version p.minimum_client_runtime ≡ true
  pub build : has_build s.samp_version ≡ true
  pub transport : has_phase2b_transport s.samp_version ≡ true
  pub declared : are_capabilities_valid s.declared_capabilities ≡ true
  pub negotiated : s.negotiated_capabilities ≡ bit_and s.declared_capabilities p.server_capabilities
  pub required : bit_and s.negotiated_capabilities p.required_capabilities ≡ p.required_capabilities

-- A reason that an enumerator names and that the encoder accepts.
abbrev pub IsDeclared : RejectReason → Type 0
IsDeclared r =
    (is_reject_reason_valid (reject_code r) ≡ true) × (reject_of_code (reject_code r) ≡ r)

-- A `Compatible` player has passed every check, a `Rejected` one has its reason, and what is recorded
-- is of its C++ type.
pub record IsSound (p : HandshakePolicy) (s : PlayerCapabilityState) : Type 0 where
  pub agreed : s.state ≡ compatible → IsAgreed p s
  pub has_reason : s.state ≡ rejected → s.reject_reason ≢ none
  pub reasons : (r : RejectReason) → s.reject_reason ≡ some r → IsDeclared r
  pub flags : IsU32 s.declared_capabilities

-- The state that a `Hello` refused for `reason` leaves, and the one that an accepted one leaves.
abbrev pub refused_state : Hello → RejectReason → PlayerCapabilityState
refused_state hello reason = record (state_from_hello rejected hello) {
  reject_reason = some reason;
}

abbrev pub agreed_state : HandshakePolicy → Hello → PlayerCapabilityState
agreed_state p hello = record (state_from_hello compatible hello) {
  negotiated_capabilities = bit_and hello.capabilities p.server_capabilities;
}

-- The four ways `HandleHello` ends: it answers from what is recorded, welcome or reject, it refuses
-- and records why, or it agrees and records what.
pub data Handled (t : PlayerCapabilityTracker) (id : ℕ) (hello : Hello) : Type 0 where
  kept_welcome :
      (current : PlayerCapabilityState)
      → find id t.players ≡ some current
      → current.state ≡ compatible
      → current.declared_capabilities ≡ hello.capabilities
      → handle_hello t id hello ≡ (t, welcome (welcome_for t current))
      → Handled t id hello
  kept_reject :
      (current : PlayerCapabilityState) (reason : RejectReason)
      → find id t.players ≡ some current
      → current.reject_reason ≡ some reason
      → handle_hello t id hello ≡ (t, reject (record { reason = reason }))
      → Handled t id hello
  refused :
      (reason : RejectReason)
      → IsDeclared reason
      → handle_hello t id hello ≡ (
        record t { players = put id (refused_state hello reason) t.players },
        reject (record { reason = reason }),
      )
      → Handled t id hello
  agreed :
      IsAgreed t.policy (agreed_state t.policy hello)
      → handle_hello t id hello ≡ (
        record t { players = put id (agreed_state t.policy hello) t.players },
        welcome (welcome_for t (agreed_state t.policy hello)),
      )
      → Handled t id hello

data Judged (t : PlayerCapabilityTracker) (id : ℕ) (hello : Hello) : Type 0 where
  judged_refused :
      (reason : RejectReason)
      → IsDeclared reason
      → judge_hello t id hello ≡ (
        record t { players = put id (refused_state hello reason) t.players },
        reject (record { reason = reason }),
      )
      → Judged t id hello
  judged_agreed :
      IsAgreed t.policy (agreed_state t.policy hello)
      → judge_hello t id hello ≡ (
        record t { players = put id (agreed_state t.policy hello) t.players },
        welcome (welcome_for t (agreed_state t.policy hello)),
      )
      → Judged t id hello

judge_hello-cases : (t : PlayerCapabilityTracker) (id : ℕ) (hello : Hello) → Judged t id hello
unfolding judge_hello reject_hello is_reject_reason_valid reject_code reject_of_code
judge_hello-cases t id hello = elim (Bool-cases (hello.protocol_version == 1)) [
  | inr e ↦ judged_refused unsupported_protocol (refl, refl) (rw e)
  | inl version ↦
      elim (Bool-cases
        (is_runtime_supported hello.runtime_version t.policy.minimum_client_runtime)) [
          | inr e ↦ judged_refused unsupported_client_runtime (refl, refl) (rw (version, e))
          | inl runtime ↦ elim (Bool-cases (has_build hello.samp_version)) [
            | inr e ↦ judged_refused unsupported_samp_build (refl, refl) (rw (version, runtime, e))
            | inl build ↦ elim (Bool-cases (has_phase2b_transport hello.samp_version)) [
              | inr e ↦
                  judged_refused unsupported_samp_build (refl, refl)
                    (rw (version, runtime, build, e))
              | inl transport ↦ elim (Bool-cases (are_capabilities_valid hello.capabilities)) [
                | inr e ↦
                    judged_refused malformed_handshake (refl, refl)
                      (rw (version, runtime, build, transport, e))
                | inl valid ↦
                    elim (Bool-cases (
                      bit_and (bit_and hello.capabilities t.policy.server_capabilities)
                        t.policy.required_capabilities
                      == t.policy.required_capabilities)) [
                        | inr e ↦
                            judged_refused unsupported_capabilities (refl, refl)
                              (rw (version, runtime, build, transport, valid, e))
                        | inl enough ↦
                            judged_agreed
                              (record {
                                version = ground arith;
                                runtime = runtime;
                                build = build;
                                transport = transport;
                                declared = valid;
                                negotiated = refl;
                                required = ground arith;
                              })
                              (rw (version, runtime, build, transport, valid, enough))
                      ]
              ]
            ]
          ]
        ]
]

compatible_of : (state : HandshakeState) → is_compatible state ≡ true → state ≡ compatible
compatible_of HandshakeState.unknown h = cc
compatible_of handshake_pending h = cc
compatible_of compatible h = refl
compatible_of rejected h = cc

reason_of :
    (state : HandshakeState) (o : Option RejectReason) (reason : RejectReason)
    → rejection_of (record initial_player { state = state; reject_reason = o }) ≡ some reason
    → o ≡ some reason
reason_of HandshakeState.unknown o reason h = cc
reason_of handshake_pending o reason h = cc
reason_of compatible o reason h = cc
reason_of rejected o reason h = h

same_hello-capabilities :
    (state : PlayerCapabilityState) (hello : Hello)
    → same_hello state hello ≡ true
    → state.declared_capabilities ≡ hello.capabilities
unfolding same_hello
same_hello-capabilities state hello h = ground arith

pub handle_hello-cases : (t : PlayerCapabilityTracker) (id : ℕ) (hello : Hello) → Handled t id hello
unfolding handle_hello reject_hello is_reject_reason_valid reject_code reject_of_code
handle_hello-cases t id hello = elim (Option-cases (find id t.players)) [
  | inl e ↦ refused malformed_handshake (refl, refl) (rw (e, handle_hello))
  | inr (current, e) ↦ elim (Bool-cases (is_compatible current.state && same_hello current hello)) [
    | inl known ↦
        let (first, second) = both (is_compatible current.state) known in
        kept_welcome current e (compatible_of current.state first)
          (same_hello-capabilities current hello second) (rw (e, handle_hello, known))
    | inr changed ↦ elim (Option-cases (rejection_of current)) [
      | inr (reason, r) ↦
          kept_reject current reason e (reason_of current.state current.reject_reason reason r)
            (rw (e, handle_hello, changed, r))
      | inl unrefused ↦ elim (Bool-cases (is_pending current.state)) [
        | inr p ↦
            refused malformed_handshake (refl, refl) (rw (e, handle_hello, changed, unrefused, p))
        | inl p ↦
            let judged : handle_hello t id hello ≡ judge_hello t id hello =
              rw (e, handle_hello, changed, unrefused, p) in
            pending judged (judge_hello-cases t id hello)
      ]
    ]
  ]
]
  where
    both : (a : Bool) {b : Bool} → (a && b) ≡ true → (a ≡ true) × (b ≡ true)
    both a h = ground arith

    pending :
        handle_hello t id hello ≡ judge_hello t id hello → Judged t id hello → Handled t id hello
    pending e (judged_refused reason d q) = refused reason d (e ∙ q)
    pending e (judged_agreed agreement q) = agreed agreement (e ∙ q)

same_hello_refl :
    (p : HandshakePolicy) (hello : Hello) → same_hello (agreed_state p hello) hello ≡ true
unfolding same_hello same_runtime_version same_version
same_hello_refl p hello = ground arith

find-put_same :
    (id : ℕ) (s : PlayerCapabilityState) (m : List (ℕ × PlayerCapabilityState))
    → find id (put id s m) ≡ some s
find-put_same id s m = find-put id id s m ∙ rw (==→refl id)

after_refusal :
    (t : PlayerCapabilityTracker) (id : ℕ) (hello : Hello) (reason : RejectReason)
    → find id t.players ≡ some (refused_state hello reason)
    → handle_hello t id hello ≡ (t, reject (record { reason = reason }))
unfolding handle_hello
after_refusal t id hello reason e = rw (e, handle_hello)

after_agreement :
    (t : PlayerCapabilityTracker) (id : ℕ) (p : HandshakePolicy) (hello : Hello)
    → find id t.players ≡ some (agreed_state p hello)
    → handle_hello t id hello ≡ (t, welcome (welcome_for t (agreed_state p hello)))
unfolding handle_hello
after_agreement t id p hello e = rw (e, handle_hello, same_hello_refl p hello)

-- A `Hello` that is sent again, whatever the first one met with, gets the same answer and changes
-- nothing.
pub handle_hello-again :
    (t : PlayerCapabilityTracker) (id : ℕ) (hello : Hello)
    → handle_hello (handle_hello t id hello).0 id hello ≡ handle_hello t id hello
unfolding welcome_for
handle_hello-again t id hello = by_cases (handle_hello-cases t id hello)
  where
    by_cases :
        Handled t id hello
        → handle_hello (handle_hello t id hello).0 id hello ≡ handle_hello t id hello
    by_cases (kept_welcome current found is same e) = rw e e
    by_cases (kept_reject current reason found is e) = rw e e
    by_cases (refused reason d e) =
        rw e (
          after_refusal _ id hello reason (find-put_same id (refused_state hello reason) t.players))
    by_cases (agreed agreement e) = rw e (
        after_agreement _ id t.policy hello
          (find-put_same id (agreed_state t.policy hello) t.players))

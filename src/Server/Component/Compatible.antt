-- ===== src/Server/Component/Compatible.antt =====
-- A player gets its manifest only when it is compatible: server/openmp/component.cpp,
-- server/src/handshake_endpoint.cpp and server/src/asset_publication.cpp together.
use custommodels.Base.{
  ℕ, ◌≡◌, refl, List, ◌∷◌, ltb, Bool-cases, Option-cases, Result-cases, inl, inr, ◌⊎◌, nat_key,
  find-put, ==→refl,
}
use custommodels.Assets.{Bytes}
use custommodels.Protocol.Types.{
  ByteView, view, Message, Hello, hello, Reject, Welcome, RejectReason, protocol_version,
}
use custommodels.Protocol.Decode.{decode_packet}
use custommodels.Protocol.Encode.{encode_packet}
use custommodels.Frame.{inspect_protocol_payload, encode}
use custommodels.Server.Tracker.{
  PlayerCapabilityTracker, HandshakeState, compatible, HandshakeResponse, welcome, reject,
  handle_hello, reject_player, message_of,
}
use custommodels.Server.Tracker
use custommodels.Server.Tracker.Answers.{
  Handled, kept_welcome, kept_reject, refused, agreed, handle_hello-cases,
}
use custommodels.Server.Endpoint.{
  DispatchResult, welcome_sent, send_failed, sent_result, HandshakeEndpoint, Delivery,
  send_response, reject_with, dispatch_message, dispatch_claimed_protocol,
  dispatch_protocol_payload, view_size,
}
use custommodels.Server.Component.Claims.{Inspected-cases}

-- The player is held as compatible.
abbrev pub IsCompatible : PlayerCapabilityTracker → ℕ → Type 0
IsCompatible t id = (Tracker.get_state t id).state ≡ compatible

handle_hello-IsCompatible :
    (t : PlayerCapabilityTracker) (id : ℕ) (m : Hello) {w : Welcome}
    → (handle_hello t id m).1 ≡ welcome w
    → IsCompatible (handle_hello t id m).0 id
unfolding Tracker.get_state
handle_hello-IsCompatible t id m {w} h = by_cases (handle_hello-cases t id m)
  where
    wrong : (r : Reject) → HandshakeResponse.reject r ≡ welcome w → ⊥
    wrong r q = cc

    by_cases : Handled t id m → IsCompatible (handle_hello t id m).0 id
    by_cases (kept_welcome current found is same e) = rw (e, Tracker.get_state, found) is
    by_cases (kept_reject current reason found is e) = absurd (wrong _ (rw e at h))
    by_cases (refused reason d e) = absurd (wrong _ (rw e at h))
    by_cases (agreed agreement e) =
        rw (e, Tracker.get_state, find-put id id _ t.players, ==→refl id) refl

module _ (delivers : Delivery) where
  -- A response keeps the tracker, and its result is a failure or its own.
  abbrev IsResponse :
      HandshakeEndpoint → HandshakeResponse → HandshakeEndpoint × DispatchResult → Type 0
  IsResponse e r outcome =
      (frames : List (ℕ × Bytes)) × (result : DispatchResult) × (outcome
        ≡ (record e { frames = frames }, result))
      × ((result ≡ send_failed) ⊎ (result ≡ sent_result r))

  send_response-IsResponse :
      (e : HandshakeEndpoint) (id : ℕ) (r : HandshakeResponse)
      → IsResponse e r (send_response delivers e id r)
  unfolding send_response
  send_response-IsResponse e id r =
      elim (Result-cases (encode_packet (message_of r) protocol_version)) [
        | inl (error, q) ↦ (e.frames, send_failed, rw (send_response, q) refl, inl refl)
        | inr (bytes, q) ↦ elim (Option-cases (encode (view bytes))) [
          | inl p ↦ (e.frames, send_failed, rw (send_response, q, send_response, p) refl, inl refl)
          | inr (frame, p) ↦ elim (Bool-cases (delivers e.frames id frame)) [
            | inl d ↦ (
              (id, frame) ∷ e.frames,
              sent_result r,
              rw (send_response, q, send_response, p, send_response, d) refl,
              inr refl,
            )
            | inr d ↦ (
              (id, frame) ∷ e.frames,
              send_failed,
              rw (send_response, q, send_response, p, send_response, d) refl,
              inl refl,
            )
          ]
        ]
      ]

  -- Where the result is `WelcomeSent`, the tracker holds the player as compatible.
  abbrev IsWelcomed : ℕ → HandshakeEndpoint × DispatchResult → Type 0
  IsWelcomed id outcome = outcome.1 ≡ welcome_sent → IsCompatible outcome.0.tracker id

  -- A response welcomes only with a welcome.
  response-IsWelcomed :
      (e : HandshakeEndpoint) (id : ℕ) (r : HandshakeResponse)
      → ((w : Welcome) → r ≡ welcome w → IsCompatible e.tracker id)
      → IsWelcomed id (send_response delivers e id r)
  response-IsWelcomed e id r h = let p = send_response-IsResponse e id r in by_result r p.2 p.3 h
    where
      by_result :
          (s : HandshakeResponse) {frames : List (ℕ × Bytes)} {result : DispatchResult}
          → send_response delivers e id r ≡ (record e { frames = frames }, result)
          → (result ≡ send_failed) ⊎ (result ≡ sent_result s)
          → ((w : Welcome) → s ≡ welcome w → IsCompatible e.tracker id)
          → IsWelcomed id (send_response delivers e id r)
      by_result s q (inl f) k = rw q (λ t. absurd (cc))
      by_result (welcome w) q (inr f) k = rw q (λ t. k w refl)
      by_result (reject w) q (inr f) k = rw q (λ t. absurd (cc))

  reject_with-IsWelcomed :
      (e : HandshakeEndpoint) (id : ℕ) (reason : RejectReason)
      → IsWelcomed id (reject_with delivers e id reason)
  unfolding reject_with
  reject_with-IsWelcomed e id reason =
      let (t, answer) = reject_player e.tracker id reason in
      response-IsWelcomed (record e { tracker = t }) id (reject answer) (λ w q. absurd (cc))

  dispatch_message-IsWelcomed :
      (e : HandshakeEndpoint) (id : ℕ) (m : Message)
      → IsWelcomed id (dispatch_message delivers e id m)
  unfolding dispatch_message
  dispatch_message-IsWelcomed e id (hello m) =
      response-IsWelcomed _ id _ (λ w q. handle_hello-IsCompatible e.tracker id m q)
  dispatch_message-IsWelcomed e id other = reject_with-IsWelcomed e id _

  dispatch_claimed_protocol-IsWelcomed :
      (e : HandshakeEndpoint) (id : ℕ) (bytes : ByteView)
      → IsWelcomed id (dispatch_claimed_protocol delivers e id bytes)
  unfolding dispatch_claimed_protocol
  dispatch_claimed_protocol-IsWelcomed e id bytes = elim (Bool-cases (ltb 4096 (view_size bytes))) [
    | inl long ↦ rw long (reject_with-IsWelcomed e id _)
    | inr short ↦ elim (Result-cases (decode_packet bytes)) [
      | inl (error, q) ↦ rw (short, dispatch_claimed_protocol, q) (reject_with-IsWelcomed e id _)
      | inr (packet, q) ↦
          rw (short, dispatch_claimed_protocol, q) (dispatch_message-IsWelcomed e id packet.message)
    ]
  ]

  pub dispatch_protocol_payload-IsWelcomed :
      (e : HandshakeEndpoint) (id : ℕ) (bytes : ByteView)
      → IsWelcomed id (dispatch_protocol_payload delivers e id bytes)
  unfolding dispatch_protocol_payload
  dispatch_protocol_payload-IsWelcomed e id bytes =
      elim (Inspected-cases (inspect_protocol_payload bytes)) [
        | inl q ↦ rw (dispatch_protocol_payload, q) (λ t. absurd (cc))
        | inr (claimed, q) ↦
            rw (dispatch_protocol_payload, q) (dispatch_claimed_protocol-IsWelcomed e id claimed)
      ]

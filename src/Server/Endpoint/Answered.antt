-- ===== src/Server/Endpoint/Answered.antt =====
-- What a frame that arrives during the handshake leads to: server/src/handshake_endpoint.cpp.
use custommodels.Base.{
  ℕ, ◌≡◌, refl, ◌∷◌, ltb, if◌then◌else◌, ok, err, length, drop, All, All-drop, inl, inr, ◌⊎◌,
  Bool-cases, Result, subst, sym, ◌∙◌, nat_key,
}
use custommodels.Assets.{Bytes}
use custommodels.Protocol.Types.{
  view, Message, hello, RejectReason, DecodeError, malformed_handshake, Packet, reject_code,
  reject_of_code,
}
use custommodels.Protocol.Checks.{is_reject_reason_valid}
use custommodels.Protocol.Decode.{decode_packet}
use custommodels.Protocol.Decode.Canonical.{encode_packet-decode_packet}
use custommodels.Protocol.Layout.{IsByte, IsTyped, IsU32, HasVersion}
use custommodels.Frame.{InspectedFrame, inspect}
use custommodels.Frame.Laws.{inspect-cases}
use custommodels.Frame.Carried.{IsSendable, frame_of, encode_packet-sendable, encode-sendable}
use custommodels.Server.Tracker.{
  HandshakePolicy, PlayerCapabilityTracker, HandshakeResponse, message_of, reject, handle_hello,
  reject_player,
}
use custommodels.Server.Tracker.Answers.{IsDeclared}
use custommodels.Server.Tracker.Sound.{IsSoundTracker, handle_hello-IsSound, reject_player-IsSound}
use custommodels.Server.Tracker.Sendable.{handle_hello-IsSendable, reject-good}
use custommodels.Server.Endpoint.{
  HandshakeEndpoint, DispatchResult, send_failed, sent_result, Delivery, send_response, reject_with,
  reason_of, dispatch_message, dispatch_claimed_protocol, dispatch_incoming,
}

-- The endpoint is sound: its tracker is, and the version of the server is of its C++ type.
abbrev pub IsSoundEndpoint : HandshakePolicy → HandshakeEndpoint → Type 0
IsSoundEndpoint p e = IsSoundTracker p e.tracker × HasVersion p.server_runtime_version

malformed-IsDeclared : IsDeclared malformed_handshake
unfolding is_reject_reason_valid reject_code reject_of_code
malformed-IsDeclared = (refl, refl)

reason_of-IsDeclared : (error : DecodeError) → IsDeclared (reason_of error)
unfolding is_reject_reason_valid reject_code reject_of_code
reason_of-IsDeclared DecodeError.unsupported_protocol_version = (refl, refl)
reason_of-IsDeclared _ = malformed-IsDeclared

module _ (delivers : Delivery) where
  -- One frame has been handed to the transport: the packet of one response, which can be decoded.
  -- The result is that of the response where the transport takes the frame.
  pub record IsAnswered (p : HandshakePolicy) (e : HandshakeEndpoint) (id : ℕ)
      (outcome : HandshakeEndpoint × DispatchResult) : Type 0 where
    pub response : HandshakeResponse
    pub sendable : IsSendable (message_of response)
    pub one_frame : outcome.0.frames ≡ (id, frame_of (message_of response)) ∷ e.frames
    pub result : outcome.1 ≡ (
        if delivers e.frames id (frame_of (message_of response))
        then sent_result response
        else send_failed)
    pub sound : IsSoundEndpoint p outcome.0

  send_response-IsAnswered :
      (p : HandshakePolicy) (e : HandshakeEndpoint) (t : PlayerCapabilityTracker) (id : ℕ)
      (response : HandshakeResponse)
      → IsSendable (message_of response)
      → IsSoundEndpoint p (record e { tracker = t })
      → IsAnswered p e id (send_response delivers (record e { tracker = t }) id response)
  unfolding send_response
  send_response-IsAnswered p e t id response s sound =
      elim (Bool-cases (delivers e.frames id (frame_of (message_of response)))) [
        | inl d ↦ answered (sent_result response) (by_encoding ∙ rw d refl) (rw d refl)
        | inr d ↦ answered send_failed (by_encoding ∙ rw d refl) (rw d refl)
      ]
    where
      sent : HandshakeEndpoint
      sent = record { tracker = t; frames = (id, frame_of (message_of response)) ∷ e.frames }

      by_encoding : send_response delivers (record e { tracker = t }) id response ≡ (
          if delivers e.frames id (frame_of (message_of response))
          then (sent, sent_result response)
          else (sent, send_failed))
      by_encoding = rw (
        encode_packet-sendable (message_of response) s,
        send_response,
        encode-sendable (message_of response) s,
        send_response,
      )

      answered :
          (result : DispatchResult)
          → send_response delivers (record e { tracker = t }) id response ≡ (sent, result)
          → result ≡ (
              if delivers e.frames id (frame_of (message_of response))
              then sent_result response
              else send_failed)
          → IsAnswered p e id (send_response delivers (record e { tracker = t }) id response)
      answered result q r = rw q (record {
        response = response;
        sendable = s;
        one_frame = refl;
        result = r;
        sound = sound;
      })

  reject_with-IsAnswered :
      (p : HandshakePolicy) (e : HandshakeEndpoint) (id : ℕ) (reason : RejectReason)
      → IsDeclared reason
      → IsSoundEndpoint p e
      → IsAnswered p e id (reject_with delivers e id reason)
  unfolding reject_with reject_player
  reject_with-IsAnswered p e id reason d h =
      send_response-IsAnswered p e (reject_player e.tracker id reason).0 id
        (reject (reject_player e.tracker id reason).1) (reject-good reason d)
        (reject_player-IsSound p e.tracker id reason d h.0, h.1)

  dispatch_message-IsAnswered :
      (p : HandshakePolicy) (e : HandshakeEndpoint) (id : ℕ) (m : Message)
      → IsTyped m
      → IsSoundEndpoint p e
      → IsAnswered p e id (dispatch_message delivers e id m)
  unfolding dispatch_message
  dispatch_message-IsAnswered p e id (hello m) typed h =
      let version : HasVersion e.tracker.policy.server_runtime_version =
        subst (λ q. HasVersion q.server_runtime_version) (sym (h.0).0) h.1 in
      let flags : IsU32 m.capabilities = typed.3 in
      let good = handle_hello-IsSendable p e.tracker id m version flags h.0 in
      send_response-IsAnswered p e (handle_hello e.tracker id m).0 id
        (handle_hello e.tracker id m).1 good.0
        (handle_hello-IsSound p e.tracker id m flags h.0, h.1)
  dispatch_message-IsAnswered p e id _ typed h =
      reject_with-IsAnswered p e id malformed_handshake malformed-IsDeclared h

  -- What a frame of bytes leads to: nothing at all where it is unrelated, and one answer otherwise.
  abbrev pub IsDispatched :
      HandshakePolicy → HandshakeEndpoint → ℕ → Bytes → HandshakeEndpoint × DispatchResult → Type 0
  IsDispatched p e id frame outcome =
      ((inspect (view frame) ≡ InspectedFrame.unrelated)
        × (outcome ≡ (e, DispatchResult.unrelated)))
      ⊎ IsAnswered p e id outcome

  dispatch_claimed_protocol-IsAnswered :
      (p : HandshakePolicy) (e : HandshakeEndpoint) (id : ℕ) (bytes : Bytes)
      → All IsByte bytes
      → IsSoundEndpoint p e
      → IsAnswered p e id (dispatch_claimed_protocol delivers e id (view bytes))
  unfolding dispatch_claimed_protocol
  dispatch_claimed_protocol-IsAnswered p e id bytes okb h =
      elim (Bool-cases (ltb 4096 (length bytes))) [
        | inl long ↦
            rw long (reject_with-IsAnswered p e id malformed_handshake malformed-IsDeclared h)
        | inr short ↦ rw short (by_decoding (decode_packet (view bytes)) refl)
      ]
    where
      by_decoding :
          (r : Result DecodeError Packet)
          → decode_packet (view bytes) ≡ r
          → IsAnswered p e id (elim r [
            | err error ↦ reject_with delivers e id (reason_of error)
            | ok packet ↦ dispatch_message delivers e id packet.message
          ])
      by_decoding (err error) q =
          reject_with-IsAnswered p e id (reason_of error) (reason_of-IsDeclared error) h
      by_decoding (ok packet) q =
          let (version, typed, again) = encode_packet-decode_packet bytes packet okb q in
          dispatch_message-IsAnswered p e id packet.message typed h

  -- Whatever bytes arrive as a frame, from a player in whatever state: an unrelated frame changes
  -- nothing and sends nothing, and any other is answered by exactly one frame, which carries a
  -- response that the encoder accepts; the result is that response's where the transport takes the
  -- frame and `SendFailed` where it does not. The tracker is sound before, and is sound after.
  pub dispatch_incoming-IsDispatched :
      (p : HandshakePolicy) (e : HandshakeEndpoint) (id : ℕ) (frame : Bytes)
      → All IsByte frame
      → IsSoundEndpoint p e
      → IsDispatched p e id frame (dispatch_incoming delivers e id (view frame))
  unfolding dispatch_incoming
  dispatch_incoming-IsDispatched p e id frame okb h = elim (inspect-cases frame) [
    | inl q ↦ inl (q, rw (q, dispatch_incoming))
    | inr q ↦ inr (
        rw (q, dispatch_incoming)
          (dispatch_claimed_protocol-IsAnswered p e id (drop 1 frame) (All-drop IsByte 1 frame okb)
            h))
  ]

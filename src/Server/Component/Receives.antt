-- ===== src/Server/Component/Receives.antt =====
-- What `onReceive` lets through and what it does to the state: server/openmp/component.cpp.
use custommodels.Base.{
  ℕ, sym, ap, subst, ◌↔◌, ◌∙◌, ◌/◌, ◌%◌, ◌≡◌, ◌≢◌, refl, Bool, true, false, not, ◌||◌, ltb, ◌==◌,
  err, take, Bool-cases, Option-cases, inl, inr, ◌⊎◌, arith,
}
use custommodels.Assets.{Bytes}
use custommodels.Protocol.Types.{view, DecodeError}
use custommodels.Protocol.Decode.{decode_packet}
use custommodels.Frame.{InspectedFrame, inspect_protocol_payload}
use custommodels.Server.Endpoint.{Delivery}
use custommodels.Server.Component.{
  ℤ, pos, negsuc, NetworkBitStream, CustomModelComponent, unread_payload, is_available,
  decodes_to_hello, dispatch_protocol, receive_protocol, receive_payload, on_receive,
}
use custommodels.Server.Component.Claims.{
  IsClaimed, IsTaken, Inspected-cases, claimed-IsTaken, taken-IsClaimed,
}

apart : true ≢ false
apart e = cc

module _ (delivers : Delivery) (c : CustomModelComponent) where
  -- What comes of a player's packet, by the tests of the code.
  abbrev IsHandled : NetworkBitStream → CustomModelComponent × Bool → Type 0
  IsHandled stream outcome =
      ((outcome ≡ (c, true)) × ((unread : ℕ) (payload : Bytes) → IsTaken stream unread payload → ⊥))
      ⊎ ((outcome.1 ≡ false) × ((unread : ℕ) × (payload : Bytes) × IsTaken stream unread payload))

  on_receive-IsHandled :
      (id : ℕ) (stream : NetworkBitStream)
      → IsHandled stream (on_receive delivers c (pos id) stream)
  unfolding on_receive receive_payload
  on_receive-IsHandled id stream = elim (Option-cases (unread_payload stream)) [
    | inl e ↦ inl (rw (on_receive, e) refl, λ n p taken. let q = taken.0 in cc)
    | inr ((unread, payload), e) ↦
        elim (Inspected-cases (inspect_protocol_payload (view (take 4 payload)))) [
          | inl q ↦ inl (
            rw (on_receive, e, receive_payload, q) refl,
            λ n p (at_p, magic).
                let same : payload ≡ p = cc in
                magic (
                  subst (λ b. inspect_protocol_payload (view (take 4 b)) ≡ InspectedFrame.unrelated)
                    same q),
          )
          | inr (magic, q) ↦
              let taken : IsTaken stream unread payload = (e, λ r. cc) in
              elim (Bool-cases (not (unread % 8 == 0) || ltb 4096 (unread / 8))) [
                | inl bad ↦ inr (
                  rw (on_receive, e, receive_payload, q, receive_payload, bad) refl,
                  (unread, payload, taken),
                )
                | inr good ↦ inr (
                  rw (on_receive, e, receive_payload, q, receive_payload, good) refl,
                  (unread, payload, taken),
                )
              ]
        ]
  ]

  -- The packet of a player is claimed exactly where its unread bits are 32 at least, begin at a whole
  -- byte and start with the magic; otherwise it is passed on with nothing changed.
  abbrev pub IsReceived : ℤ → NetworkBitStream → CustomModelComponent × Bool → Type 0
  IsReceived player_id stream outcome =
      ((outcome.1 ≡ false) ↔ (
        (id : ℕ) × (unread : ℕ) × (payload : Bytes) × (player_id ≡ pos id)
        × IsClaimed stream unread payload))
      × (outcome.1 ≡ true → outcome.0 ≡ c)

  signs : (n k : ℕ) → negsuc n ≢ pos k
  signs n k e = cc

  -- Whatever a packet holds, `onReceive` keeps it from open.mp's other handlers exactly where the
  -- player's id is not negative and the unread bits of the packet begin at a whole byte, are at
  -- least 32 and start with the magic of the protocol. Any other packet is passed on with the
  -- component unchanged and nothing sent.
  pub on_receive-IsReceived :
      (player_id : ℤ) (stream : NetworkBitStream)
      → IsReceived player_id stream (on_receive delivers c player_id stream)
  unfolding on_receive
  on_receive-IsReceived (negsuc n) stream = (
    (
      λ f. absurd (apart f),
      λ (player, unread, payload, same, claimed). absurd (signs n player same),
    ),
    λ h. refl,
  )
  on_receive-IsReceived (pos id) stream =
      by_outcome (on_receive delivers c (pos id) stream) (on_receive-IsHandled id stream)
    where
      by_outcome :
          (outcome : CustomModelComponent × Bool)
          → IsHandled stream outcome
          → IsReceived (pos id) stream outcome
      by_outcome outcome (inl (passed, free)) = (
        (
          λ f. let q : true ≡ false = sym (ap (λ o. o.1) passed) ∙ f in absurd (apart q),
          λ (player, unread, payload, same, claimed).
              absurd (free unread payload (claimed-IsTaken stream unread payload claimed)),
        ),
        λ h. ap (λ o. o.0) passed,
      )
      by_outcome outcome (inr (kept, (unread, payload, taken))) = (
        (λ f. (id, unread, payload, refl, taken-IsClaimed stream unread payload taken), λ h. kept),
        λ h. let q : true ≡ false = sym h ∙ kept in absurd (apart q),
      )

  -- Nothing is sent, and no player's state changes.
  abbrev pub IsUntouched : CustomModelComponent → Type 0
  IsUntouched last =
      (last.tracker ≡ c.tracker) × (last.players ≡ c.players) × (last.frames ≡ c.frames)

  receive_protocol-IsUntouched :
      (id : ℕ) (bytes : Bytes) (error : DecodeError)
      → decode_packet (view bytes) ≡ err error
      → IsUntouched (receive_protocol delivers c id bytes)
  unfolding receive_protocol dispatch_protocol
  receive_protocol-IsUntouched id bytes error e =
      elim (Bool-cases (not (is_available c.transport))) [
        | inl off ↦ rw off (refl, refl, refl)
        | inr on ↦
            let other : decodes_to_hello bytes ≡ false = rw (decodes_to_hello, e) refl in
            rw (on, other, dispatch_protocol, e) (refl, refl, refl)
      ]

  -- A claimed packet of whole bytes, at most 4096 of them, that does not decode is dropped: nothing is
  -- sent, and no player's state changes.
  pub on_receive_undecodable :
      (id : ℕ) (stream : NetworkBitStream) (unread : ℕ) (payload : Bytes) (error : DecodeError)
      → IsClaimed stream unread payload
      → unread % 8 ≡ 0
      → ltb 4096 (unread / 8) ≡ false
      → decode_packet (view (take (unread / 8) payload)) ≡ err error
      → ((on_receive delivers c (pos id) stream).1 ≡ false)
        × IsUntouched (on_receive delivers c (pos id) stream).0
  unfolding on_receive receive_payload
  on_receive_undecodable id stream unread payload error claimed whole short failed =
      let (e, magic) = claimed-IsTaken stream unread payload claimed in
      elim (Inspected-cases (inspect_protocol_payload (view (take 4 payload)))) [
        | inl q ↦ absurd (magic q)
        | inr (m, q) ↦
            let aligned : (not (unread % 8 == 0) || ltb 4096 (unread / 8)) ≡ false =
              ground (arith, whole, short) in
            rw (on_receive, e, receive_payload, q, receive_payload, aligned)
              (refl, receive_protocol-IsUntouched id _ error failed)
      ]

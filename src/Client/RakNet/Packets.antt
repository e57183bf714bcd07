-- ===== src/Client/RakNet/Packets.antt =====
-- The packets that the transport takes out of RakNet's queue:
-- client/src/samp/raknet_transport.cpp.
use custommodels.Base.{
  ℕ, zero, suc, ◌≡◌, refl, Bool, true, false, not, ◌&&◌, ◌||◌, List, [], ◌∷◌, ◌++◌, Option, none,
  some, ◌==◌, leb, ltb, if◌then◌else◌, length, drop, arith, Bool-cases, inl, inr, append-nil,
  append_assoc, ◌∙◌, subst, sym,
}
use custommodels.Assets.{Bytes}
use custommodels.Protocol.Types.{ByteView, view}
use custommodels.Frame.{maximum_frame_size}
use custommodels.Client.RakNet.{
  TransportCallbacks, RakPacket, RakClient, RakNetTransport, is_readable, is_goodbye,
  observe_connection, notify_connected_if_pending, notify_disconnected, dispatch_incoming,
  mark_pending, consume_frame, inspect_bytes, inspect_packet, receive_packets, run_pump, receive,
}
use custommodels.Client.RakNet.Frames.{
  is_frame, is_custom_model, content, take_frames, inspect-is_frame, inspect-not_frame,
  frame-starts, frame-stays, frame-long, frame-unread, packet,
}

-- A host that hands out a queue of packets and notes what the incoming callback gets. The rest of
-- RakNet and of the callbacks is arbitrary, as long as it leaves these two alone.
abbrev pub Noted : Type 0
Noted = List RakPacket × List ByteView

abbrev pop : Noted → Noted × Option RakPacket
pop ([], seen) = (([], seen), none)
pop (p ∷ queue, seen) = ((queue, seen), some p)

abbrev pub queue_client : (Noted → Bool) → RakClient Noted
queue_client is_connected = record {
  receive = pop;
  deallocate = λ host p. host;
  is_connected = is_connected;
}

abbrev pub noting_callbacks : TransportCallbacks Noted
noting_callbacks = record {
  incoming = some (λ host bytes. (host.0, host.1 ++ (bytes ∷ [])));
  connection = λ host event. host;
  pump = some (λ host. host);
}

module _ (is_connected : Noted → Bool) where
  abbrev client : RakClient Noted
  client = queue_client is_connected

  -- `initialized_` and the host stay as they are.
  abbrev Stays : RakNetTransport → Noted → RakNetTransport × Noted → Type 0
  Stays t host after = (after.0.initialized ≡ t.initialized) × (after.1 ≡ host)

  -- And the packet goes to the game.
  abbrev IsPassed : RakNetTransport → Noted → RakNetTransport × Noted × Bool → Type 0
  IsPassed t host after =
      (after.0.initialized ≡ t.initialized) × (after.1 ≡ host) × (after.2 ≡ true)

  observe_connection-Stays :
      (t : RakNetTransport) (host : Noted)
      → Stays t host (observe_connection client noting_callbacks t host)
  unfolding observe_connection
  observe_connection-Stays t host = ground arith

  notify_connected-Stays :
      (t : RakNetTransport) (host : Noted)
      → Stays t host (notify_connected_if_pending client noting_callbacks t host)
  unfolding notify_connected_if_pending
  notify_connected-Stays t host = ground arith

  notify_disconnected-Stays :
      (t : RakNetTransport) (host : Noted)
      → Stays t host (notify_disconnected client noting_callbacks t host)
  unfolding notify_disconnected
  notify_disconnected-Stays t host = ground arith

  mark_pending-initialized : (t : RakNetTransport) → (mark_pending t).initialized ≡ t.initialized
  unfolding mark_pending
  mark_pending-initialized t = ground arith

  consume_frame-content :
      (t : RakNetTransport) (queue : List RakPacket) (seen : List ByteView) (p : RakPacket)
      (bytes : Bytes)
      → t.initialized ≡ true
      → p.bytes ≡ some bytes
      → is_frame bytes ≡ true
      → consume_frame client noting_callbacks t (queue, seen) p bytes (view (drop 1 bytes))
        ≡ (queue, seen ++ content p)
  unfolding consume_frame dispatch_incoming content
  consume_frame-content t queue seen p bytes i b f =
      elim (Bool-cases (leb (length bytes) maximum_frame_size && leb (length bytes) p.readable)) [
        | inl e ↦ rw (i, b, frame-long bytes f, e) refl
        | inr e ↦ rw (i, b, frame-long bytes f, e, append-nil) refl
      ]

  inspect_bytes-consumed :
      (t : RakNetTransport) (queue : List RakPacket) (seen : List ByteView) (p : RakPacket)
      (bytes : Bytes)
      → t.initialized ≡ true
      → p.bytes ≡ some bytes
      → leb 5 p.readable ≡ true
      → is_frame bytes ≡ true
      → inspect_bytes client noting_callbacks t (queue, seen) p bytes
        ≡ (t, (queue, seen ++ content p), false)
  unfolding inspect_bytes
  inspect_bytes-consumed t queue seen p bytes i n readable f =
      rw
        (
          frame-starts p bytes f readable,
          inspect_bytes,
          frame-stays bytes f,
          inspect_bytes,
          inspect-is_frame bytes f,
          consume_frame-content t queue seen p bytes i n f,
        )
        refl

  packet-consumed :
      (t : RakNetTransport) (queue : List RakPacket) (seen : List ByteView)
      → t.initialized ≡ true
      → (header : Bool) (bytes : Option Bytes) (readable : ℕ)
      → is_custom_model (packet header bytes readable) ≡ true
      → inspect_packet client noting_callbacks t (queue, seen) (packet header bytes readable)
        ≡ (mark_pending t, (queue, seen ++ content (packet header bytes readable)), false)
  unfolding inspect_packet is_custom_model
  packet-consumed t queue seen i header none readable c = cc
  packet-consumed t queue seen i false (some bytes) readable c = cc
  packet-consumed t queue seen i true (some bytes) readable c =
      inspect_bytes-consumed (mark_pending t) queue seen (packet true (some bytes) readable) bytes
        (mark_pending-initialized t ∙ i) refl (ground arith) (ground arith)

  inspect_packet-consumed :
      (t : RakNetTransport) (queue : List RakPacket) (seen : List ByteView) (p : RakPacket)
      → t.initialized ≡ true
      → is_custom_model p ≡ true
      → inspect_packet client noting_callbacks t (queue, seen) p
        ≡ (mark_pending t, (queue, seen ++ content p), false)
  inspect_packet-consumed t queue seen p i =
      packet-consumed t queue seen i p.has_readable_header p.bytes p.readable

  inspect_bytes-IsPassed :
      (t : RakNetTransport) (host : Noted) (p : RakPacket) (bytes : Bytes)
      → (leb 5 p.readable && is_frame bytes) ≡ false
      → IsPassed t host (inspect_bytes client noting_callbacks t host p bytes)
  unfolding inspect_bytes
  inspect_bytes-IsPassed t host p bytes h =
      elim (Bool-cases (
        length bytes == 0
        || not (is_readable p (if ltb (length bytes) 5 then length bytes else 5)))) [
          | inl e ↦ rw e (refl, refl, refl)
          | inr e ↦ elim (Bool-cases (is_goodbye bytes)) [
            | inl g ↦
                let (same, left) = notify_disconnected-Stays t host in
                rw (e, inspect_bytes, g) (same, left, refl)
            | inr g ↦ elim (Bool-cases (is_frame bytes)) [
              | inr f ↦
                  rw (e, inspect_bytes, g, inspect_bytes, inspect-not_frame bytes f)
                    (refl, refl, refl)
              | inl f ↦ absurd (frame-unread p bytes f e h)
            ]
          ]
        ]

  packet-IsPassed :
      (t : RakNetTransport) (host : Noted)
      → (header : Bool) (bytes : Option Bytes) (readable : ℕ)
      → is_custom_model (packet header bytes readable) ≡ false
      → IsPassed t host
          (inspect_packet client noting_callbacks t host (packet header bytes readable))
  unfolding inspect_packet is_custom_model
  packet-IsPassed t host false bytes readable c = (refl, refl, refl)
  packet-IsPassed t host true none readable c = (mark_pending-initialized t, refl, refl)
  packet-IsPassed t host true (some bytes) readable c =
      let (same, left, passed) =
        inspect_bytes-IsPassed (mark_pending t) host (packet true (some bytes) readable) bytes c in
      (same ∙ mark_pending-initialized t, left, passed)

  inspect_packet-IsPassed :
      (t : RakNetTransport) (host : Noted) (p : RakPacket)
      → is_custom_model p ≡ false
      → IsPassed t host (inspect_packet client noting_callbacks t host p)
  inspect_packet-IsPassed t host p = packet-IsPassed t host p.has_readable_header p.bytes p.readable

  abbrev told : RakNetTransport → List RakPacket → List ByteView → RakNetTransport × Noted
  told t queue seen = notify_connected_if_pending client noting_callbacks t (queue, seen)

  receive_packets-consumed :
      (n : ℕ) (t : RakNetTransport) (queue : List RakPacket) (seen : List ByteView) (p : RakPacket)
      → t.initialized ≡ true
      → is_custom_model p ≡ true
      → receive_packets client noting_callbacks (suc n) t (p ∷ queue, seen)
        ≡ receive_packets client noting_callbacks n
            (mark_pending (told t queue seen).0)
            (queue, seen ++ content p)
  unfolding receive_packets
  receive_packets-consumed n t queue seen p i c =
      let (same, left) = notify_connected-Stays t (queue, seen) in
      let step : inspect_packet client noting_callbacks (told t queue seen).0 (told t queue seen).1
            p
          ≡ (mark_pending (told t queue seen).0, (queue, seen ++ content p), false) =
        subst
          (λ host.
            inspect_packet client noting_callbacks (told t queue seen).0 host p
            ≡ (mark_pending (told t queue seen).0, (queue, seen ++ content p), false))
          (sym left) (inspect_packet-consumed (told t queue seen).0 queue seen p (same ∙ i) c) in
      rw (receive_packets, step) refl

  -- The host and the packet that a call gives are those of `take_frames`.
  abbrev pub Takes :
      ℕ → List RakPacket → List ByteView → RakNetTransport × Noted × Option RakPacket → Type 0
  Takes n queue seen after =
      (after.1 ≡ ((take_frames n queue).1, seen ++ (take_frames n queue).0))
      × (after.2 ≡ (take_frames n queue).2)

  Takes-consumed :
      (n : ℕ) (queue : List RakPacket) (seen : List ByteView) (p : RakPacket)
      (after : RakNetTransport × Noted × Option RakPacket)
      → is_custom_model p ≡ true
      → Takes n queue (seen ++ content p) after
      → Takes (suc n) (p ∷ queue) seen after
  unfolding take_frames
  Takes-consumed n queue seen p after c (host, given) =
      rw (take_frames, c) (host ∙ rw append_assoc refl, given)

  receive_packets-Takes_passed :
      (n : ℕ) (t : RakNetTransport) (queue : List RakPacket) (seen : List ByteView) (p : RakPacket)
      → is_custom_model p ≡ false
      → Takes
          (suc n)
          (p ∷ queue)
          seen
          (receive_packets client noting_callbacks (suc n) t (p ∷ queue, seen))
  unfolding receive_packets take_frames
  receive_packets-Takes_passed n t queue seen p c =
      let (same, left) = notify_connected-Stays t (queue, seen) in
      let (kept, host, passed) =
        inspect_packet-IsPassed (told t queue seen).0 (told t queue seen).1 p c in
      rw (take_frames, c, receive_packets, passed) (host ∙ left ∙ rw append-nil refl, refl)

  receive_packets-Takes :
      (n : ℕ) (t : RakNetTransport) (queue : List RakPacket) (seen : List ByteView)
      → t.initialized ≡ true
      → Takes n queue seen (receive_packets client noting_callbacks n t (queue, seen))
  unfolding receive_packets take_frames
  receive_packets-Takes zero t queue seen i = (rw append-nil refl, refl)
  receive_packets-Takes (suc n) t [] seen i =
      let (same, left) = notify_connected-Stays t ([], seen) in (rw (left, append-nil) refl, refl)
  receive_packets-Takes (suc n) t (p ∷ queue) seen i =
      let (same, left) = notify_connected-Stays t (queue, seen) in
      elim (Bool-cases (is_custom_model p)) [
        | inl c ↦
            Takes-consumed n queue seen p
              (receive_packets client noting_callbacks (suc n) t (p ∷ queue, seen)) c
              (subst (λ after. Takes n queue (seen ++ content p) after)
                (sym (receive_packets-consumed n t queue seen p i c))
                (receive_packets-Takes n (mark_pending (told t queue seen).0) queue
                  (seen ++ content p) (mark_pending-initialized (told t queue seen).0 ∙ same ∙ i)))
        | inr c ↦ receive_packets-Takes_passed n t queue seen p c
      ]

  run_pump-host :
      (t : RakNetTransport) (host : Noted) → run_pump client noting_callbacks t host ≡ host
  unfolding run_pump
  run_pump-host t host = ground arith

  -- Where the transport is initialized, a call of `Receive` on a queue takes out the frames at its
  -- front, at most 64 of them, brings those that fit and can be read to the incoming callback in
  -- order, and gives the game the packet behind them, if the 64 did not stop it: whether the
  -- connection is open, opens or ends makes no difference.
  pub receive-take_frames :
      (t : RakNetTransport) (queue : List RakPacket) (seen : List ByteView)
      → t.initialized ≡ true
      → Takes 64 queue seen (receive client noting_callbacks t (queue, seen) true)
  unfolding receive
  receive-take_frames t queue seen i =
      let (same, left) = observe_connection-Stays t (queue, seen) in
      let (observed, host) = observe_connection client noting_callbacks t (queue, seen) in
      subst (λ now. Takes 64 queue seen (receive_packets client noting_callbacks 64 observed now))
        (sym (run_pump-host observed host ∙ left))
        (receive_packets-Takes 64 observed queue seen (same ∙ i))

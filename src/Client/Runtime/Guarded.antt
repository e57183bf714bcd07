-- ===== src/Client/Runtime/Guarded.antt =====
-- The handshake guards the assets: `HandleIncomingProtocol` of client/src/core/runtime.cpp.
use custommodels.Base.{
  ◌≡◌, refl, ap, subst, sym, Bool, true, false, ◌⊎◌, inl, inr, List, Option, none, some, ok, arith,
  Bool-cases, Result-cases,
}
use custommodels.Assets.{Bytes}
use custommodels.Protocol.Types.{ByteView, Message, Packet, Welcome}
use custommodels.Protocol.Decode.{decode_packet}
use custommodels.Client.Handshake.{
  ClientHandshake, HandshakeState, IncomingResult, handle_incoming, handle_message, has_sent_hello,
}
use custommodels.Client.Manager.{ClientAssetManager}
use custommodels.Client.Runtime.{
  ProtocolContext, is_compatible, is_handshake_message, note_incoming, answer_handshake,
  handle_asset_message, handle_incoming_protocol,
}

-- What a packet does outside a compatible session: nothing reaches the asset manager or the
-- transport, and only a `Welcome` that answers a `Hello` makes the session compatible.
pub record IsGuarded (c : ProtocolContext) (h : ClientHandshake) (bytes : ByteView)
    (after : ProtocolContext) : Type 0 where
  pub assets : after.assets ≡ c.assets
  pub sent : after.sent ≡ c.sent
  pub entered :
      (next : ClientHandshake)
      → after.handshake ≡ some next
      → is_compatible next.state ≡ true
      → (has_sent_hello h.state ≡ true)
        × ((p : Packet) × (w : Welcome) × (decode_packet bytes ≡ ok p)
            × (p.message ≡ Message.welcome w))

abbrev context :
    ClientHandshake → Bool → Option ClientAssetManager → Bool → List Bytes → ProtocolContext
context h t a l s = record {
  handshake = some h;
  has_transport = t;
  assets = a;
  malformed_packet_logged = l;
  sent = s;
}

-- The context with another handshake.
abbrev joined : Option ClientHandshake → ProtocolContext → ProtocolContext
joined o c = record c { handshake = o }

abbrev compatible_option : Option ClientHandshake → Bool
compatible_option none = false
compatible_option (some h) = is_compatible h.state

-- A context whose handshake is not compatible, with the same manager and the same packets sent.
unchanged-IsGuarded :
    (h other : ClientHandshake) (t : Bool) (a : Option ClientAssetManager) (l logged : Bool)
    (s : List Bytes) (bytes : ByteView)
    → is_compatible other.state ≡ false
    → IsGuarded (context h t a l s) h bytes (context other t a logged s)
unchanged-IsGuarded h other t a l logged s bytes n = record {
  assets = refl;
  sent = refl;
  entered = λ next same e.
      let changed : is_compatible other.state ≡ is_compatible next.state =
        ap compatible_option same in
      absurd (cc (changed, n, e));
}

handle_asset_message-context :
    (h : ClientHandshake) (t : Bool) (a : Option ClientAssetManager) (l : Bool) (s : List Bytes)
    (m : Message)
    → is_compatible h.state ≡ false
    → handle_asset_message (context h t a l s) h m ≡ context h t a l s
unfolding handle_asset_message
handle_asset_message-context h t none l s m n = refl
handle_asset_message-context h t (some a) l s m n = rw n refl

handle_message-welcome :
    (h : ClientHandshake) (w : Welcome)
    → (handle_message h (Message.welcome w) ≡ (h, IncomingResult.malformed))
      ⊎ (handle_message h (Message.welcome w) ≡ (
        record h { welcome = some w; state = HandshakeState.welcome_received },
        IncomingResult.welcome_received,
      ))
unfolding handle_message
handle_message-welcome h w = ground arith

handle_incoming-decoded :
    (h : ClientHandshake) (bytes : ByteView) (p : Packet)
    → decode_packet bytes ≡ ok p
    → (handle_incoming h bytes ≡ (h, IncomingResult.ignored))
      ⊎ ((has_sent_hello h.state ≡ true) × (handle_incoming h bytes ≡ handle_message h p.message))
unfolding handle_incoming
handle_incoming-decoded h bytes p d = elim (Bool-cases (has_sent_hello h.state)) [
  | inl e ↦ inr (e, rw (handle_incoming, d, e) refl)
  | inr e ↦ inl (rw (handle_incoming, d, e) refl)
]

-- The answer to a message that `HandleIncoming` looks at.
answered-IsGuarded :
    (h : ClientHandshake) (t : Bool) (a : Option ClientAssetManager) (l : Bool) (s : List Bytes)
    (bytes : ByteView) (p : Packet) (m : Message)
    → is_compatible h.state ≡ false
    → has_sent_hello h.state ≡ true
    → decode_packet bytes ≡ ok p
    → p.message ≡ m
    → is_handshake_message m ≡ true
    → IsGuarded
        (context h t a l s)
        h
        bytes
        (note_incoming (context h t a l s) (handle_message h m).0 (handle_message h m).1)
unfolding note_incoming handle_message
answered-IsGuarded h t a l s bytes p (Message.welcome w) n sent d same k =
    elim (handle_message-welcome h w) [
      | inl x ↦
          subst
            (λ r. IsGuarded (context h t a l s) h bytes (note_incoming (context h t a l s) r.0 r.1))
            (sym x) (unchanged-IsGuarded h h t a l true s bytes n)
      | inr x ↦
          subst
            (λ r. IsGuarded (context h t a l s) h bytes (note_incoming (context h t a l s) r.0 r.1))
            (sym x)
            (record { assets = refl; sent = refl; entered = λ next q c. (sent, (p, w, d, same)) })
    ]
answered-IsGuarded h t a l s bytes p (Message.reject r) n sent d same k =
    unchanged-IsGuarded h (record h { rejection = some r; state = HandshakeState.rejected }) t a l l
      s bytes refl
answered-IsGuarded h t a l s bytes p _ n sent d same k = cc

answer_handshake-IsGuarded :
    (h : ClientHandshake) (t : Bool) (a : Option ClientAssetManager) (l : Bool) (s : List Bytes)
    (bytes : ByteView) (p : Packet)
    → is_compatible h.state ≡ false
    → decode_packet bytes ≡ ok p
    → is_handshake_message p.message ≡ true
    → IsGuarded (context h t a l s) h bytes (answer_handshake (context h t a l s) h bytes)
unfolding answer_handshake note_incoming
answer_handshake-IsGuarded h t a l s bytes p n d k = elim (handle_incoming-decoded h bytes p d) [
  | inl x ↦
      subst (λ r. IsGuarded (context h t a l s) h bytes (note_incoming (context h t a l s) r.0 r.1))
        (sym x) (unchanged-IsGuarded h h t a l l s bytes n)
  | inr (sent, x) ↦
      subst (λ r. IsGuarded (context h t a l s) h bytes (note_incoming (context h t a l s) r.0 r.1))
        (sym x) (answered-IsGuarded h t a l s bytes p p.message n sent d refl k)
]

context-IsGuarded :
    (h : ClientHandshake) (t : Bool) (a : Option ClientAssetManager) (l : Bool) (s : List Bytes)
    (bytes : ByteView)
    → is_compatible h.state ≡ false
    → IsGuarded (context h t a l s) h bytes (handle_incoming_protocol (context h t a l s) bytes)
unfolding handle_incoming_protocol
context-IsGuarded h t a l s bytes n = elim (Result-cases (decode_packet bytes)) [
  | inl (error, d) ↦ rw (handle_incoming_protocol, d) (unchanged-IsGuarded h h t a l true s bytes n)
  | inr (p, d) ↦ elim (Bool-cases (is_handshake_message p.message)) [
    | inl k ↦
        rw (handle_incoming_protocol, d, k) (answer_handshake-IsGuarded h t a l s bytes p n d k)
    | inr k ↦
        rw (handle_incoming_protocol, d, k, handle_asset_message-context h t a l s p.message n)
          (unchanged-IsGuarded h h t a l l s bytes n)
  ]
]

-- Outside a compatible session no packet reaches the asset manager or makes the client send
-- anything, and the only packet behind which the session is compatible is a `Welcome` that decodes,
-- in answer to a `Hello` that was sent.
pub handle_incoming_protocol-IsGuarded :
    (c : ProtocolContext) (h : ClientHandshake) (bytes : ByteView)
    → c.handshake ≡ some h
    → is_compatible h.state ≡ false
    → IsGuarded c h bytes (handle_incoming_protocol c bytes)
handle_incoming_protocol-IsGuarded c h bytes q n =
    subst (λ o. IsGuarded (joined o c) h bytes (handle_incoming_protocol (joined o c) bytes))
      (sym q)
      (context-IsGuarded h c.has_transport c.assets c.malformed_packet_logged c.sent bytes n)

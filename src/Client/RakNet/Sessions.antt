-- ===== src/Client/RakNet/Sessions.antt =====
-- The sessions that the transport announces: client/src/samp/raknet_transport.cpp.
use custommodels.Base.{
  ℕ, zero, suc, Bool, true, false, not, List, [], ◌∷◌, ◌||◌, ◌==◌, ltb, if◌then◌else◌, length,
  Bool-cases, Option-cases, inl, inr,
}
use custommodels.Assets.{Bytes}
use custommodels.Frame.Laws.{inspect-cases}
use custommodels.Client.RakNet.{
  TransportCallbacks, RakPacket, RakClient, RakNetTransport, idle_transport, mark_initialized,
  shutdown, observe_connection, notify_connected_if_pending, mark_pending, is_readable, is_goodbye,
  inspect_bytes, inspect_packet, receive_packets, receive, run_pump,
}
use custommodels.Client.RakNet.Flags.{
  IsOrderly, idle_transport-IsOrderly, mark_pending-IsOrderly, notify_disconnected-IsOrderly,
  notify_connected-IsOrderly, observe_connection-IsOrderly,
}

-- What happens to a transport: `initialized_` is set, the game receives, or `Shutdown` runs.
pub data Call : Type 0 where
  starting : Call
  receiving : Bool → Call
  stopping : Bool → Call

module _ {S : Type 0} (client : RakClient S) (callbacks : TransportCallbacks S) where
  inspect_bytes-IsOrderly :
      (t : RakNetTransport) (host : S) (p : RakPacket) (bytes : Bytes)
      → IsOrderly t
      → IsOrderly ((inspect_bytes client callbacks t host p bytes).0)
  unfolding inspect_bytes
  inspect_bytes-IsOrderly t host p bytes v =
      elim (Bool-cases (
        length bytes == 0
        || not (is_readable p (if ltb (length bytes) 5 then length bytes else 5)))) [
          | inl e ↦ rw e v
          | inr e ↦ elim (Bool-cases (is_goodbye bytes)) [
            | inl g ↦ rw (e, g) (notify_disconnected-IsOrderly client callbacks t host v)
            | inr g ↦ elim (inspect-cases bytes) [ inl u ↦ rw (e, g, u) v | inr u ↦ rw (e, g, u) v ]
          ]
        ]

  inspect_packet-IsOrderly :
      (t : RakNetTransport) (host : S) (p : RakPacket)
      → IsOrderly t
      → IsOrderly ((inspect_packet client callbacks t host p).0)
  unfolding inspect_packet
  inspect_packet-IsOrderly t host p v = elim (Bool-cases (p.has_readable_header)) [
    | inr e ↦ rw e v
    | inl e ↦ elim (Option-cases (p.bytes)) [
      | inl n ↦ rw (e, n) (mark_pending-IsOrderly t v)
      | inr (bytes, n) ↦
          rw (e, n)
            (inspect_bytes-IsOrderly (mark_pending t) host p bytes (mark_pending-IsOrderly t v))
    ]
  ]

  receive_packets-IsOrderly :
      (n : ℕ) (t : RakNetTransport) (host : S)
      → IsOrderly t
      → IsOrderly ((receive_packets client callbacks n t host).0)
  unfolding receive_packets
  receive_packets-IsOrderly zero t host v = v
  receive_packets-IsOrderly (suc n) t host v =
      let (received, packet) = client.receive host in
      let told = notify_connected_if_pending client callbacks t received in
      let orderly = notify_connected-IsOrderly client callbacks t received v in
      elim (Option-cases packet) [
        | inl e ↦ rw (receive_packets, e) orderly
        | inr (p, e) ↦
            let next = inspect_packet client callbacks told.0 told.1 p in
            elim (Bool-cases next.2) [
              | inl g ↦
                  rw (receive_packets, e, g) (inspect_packet-IsOrderly told.0 told.1 p orderly)
              | inr g ↦
                  rw (receive_packets, e, g)
                    (receive_packets-IsOrderly n next.0 next.1
                      (inspect_packet-IsOrderly told.0 told.1 p orderly))
            ]
      ]

  receive-IsOrderly :
      (t : RakNetTransport) (host : S) (is_own : Bool)
      → IsOrderly t
      → IsOrderly ((receive client callbacks t host is_own).0)
  unfolding receive
  receive-IsOrderly t host false v = v
  receive-IsOrderly t host true v =
      let (observed, seen) = observe_connection client callbacks t host in
      receive_packets-IsOrderly 64 observed (run_pump client callbacks observed seen)
        (observe_connection-IsOrderly client callbacks t host v)

  unfoldable pub make_call : RakNetTransport → S → Call → RakNetTransport × S
  make_call t host starting = (mark_initialized t, host)
  make_call t host (receiving is_own) =
      let (received, left, packet) = receive client callbacks t host is_own in (received, left)
  make_call t host (stopping is_restored) = (shutdown t is_restored, host)

  unfoldable pub make_calls : RakNetTransport → S → List Call → RakNetTransport × S
  unfolding make_call
  make_calls t host [] = (t, host)
  make_calls t host (call ∷ calls) =
      let (next, left) = make_call t host call in make_calls next left calls

  make_call-IsOrderly :
      (t : RakNetTransport) (host : S) (call : Call)
      → IsOrderly t
      → IsOrderly ((make_call t host call).0)
  unfolding make_call shutdown
  make_call-IsOrderly t host starting v = record {
    session = v.session;
    sent = v.sent;
    pending = v.pending;
    awaiting = v.awaiting;
  }
  make_call-IsOrderly t host (receiving is_own) v = receive-IsOrderly t host is_own v
  make_call-IsOrderly t host (stopping true) v = idle_transport-IsOrderly
  make_call-IsOrderly t host (stopping false) v = v

  make_calls-IsOrderly_from :
      (t : RakNetTransport) (host : S) (calls : List Call)
      → IsOrderly t
      → IsOrderly ((make_calls t host calls).0)
  unfolding make_calls
  make_calls-IsOrderly_from t host [] v = v
  make_calls-IsOrderly_from t host (call ∷ calls) v =
      let (next, left) = make_call t host call in
      make_calls-IsOrderly_from next left calls (make_call-IsOrderly t host call v)

  -- Whatever RakNet and the callbacks do, after any calls on a new transport the connection callback
  -- has been told of sessions one after the other since the last shutdown, each opened before it is
  -- closed and closed before the next one; the last one is open exactly where the flag says so, and
  -- only while RakNet was seen connected; no opening is pending in an open session, and a transport
  -- that awaits the end of a connection is not connected.
  pub make_calls-IsOrderly :
      (host : S) (calls : List Call) → IsOrderly ((make_calls idle_transport host calls).0)
  make_calls-IsOrderly host calls =
      make_calls-IsOrderly_from idle_transport host calls idle_transport-IsOrderly

-- ===== src/Client/RakNet/Flags.antt =====
-- The flags that every call of the transport keeps in order: client/src/samp/raknet_transport.cpp.
use custommodels.Base.{◌≡◌, refl, Bool, true, false, List, [], ◌∷◌, Bool-cases, inl, inr}
use custommodels.Client.RakNet.{
  ConnectionEvent, connected, disconnected, TransportCallbacks, RakClient, RakNetTransport,
  idle_transport, observe_connection, notify_connected_if_pending, notify_disconnected,
  mark_pending,
}

-- What the callback is promised: sessions one after the other, each opened before it is closed. The
-- flag tells whether one is open.
abbrev pub IsSession : Bool → List ConnectionEvent → Type 0
IsSession open_now (connected ∷ events) = (open_now ≡ true) × IsSession false events
IsSession open_now (disconnected ∷ events) = (open_now ≡ false) × IsSession true events
IsSession open_now [] = open_now ≡ false

pub record IsOrderly (t : RakNetTransport) : Type 0 where
  pub session : IsSession t.connected_event_sent t.events
  pub sent : t.connected_event_sent ≡ true → t.connected ≡ true
  pub pending : t.connected_event_pending ≡ true → t.connected_event_sent ≡ false
  pub awaiting : t.awaiting_disconnected_state ≡ true → t.connected ≡ false

pub idle_transport-IsOrderly : IsOrderly idle_transport
idle_transport-IsOrderly = record {
  session = refl;
  sent = λ h. cc;
  pending = λ h. refl;
  awaiting = λ h. refl;
}

-- A transport with given flags, which every transport is.
abbrev flags : Bool → Bool → Bool → Bool → Bool → List ConnectionEvent → RakNetTransport
flags i c a p s events = record {
  initialized = i;
  connected = c;
  awaiting_disconnected_state = a;
  connected_event_pending = p;
  connected_event_sent = s;
  events = events;
}

mark_pending-flags :
    (i c a p s : Bool) (events : List ConnectionEvent)
    → IsOrderly (flags i c a p s events)
    → IsOrderly (mark_pending (flags i c a p s events))
unfolding mark_pending
mark_pending-flags i true a p true events v = v
mark_pending-flags i true a p false events v = record {
  session = v.session;
  sent = v.sent;
  pending = λ h. refl;
  awaiting = v.awaiting;
}
mark_pending-flags i false a p s events v = v

pub mark_pending-IsOrderly : (t : RakNetTransport) → IsOrderly t → IsOrderly (mark_pending t)
mark_pending-IsOrderly t v =
    mark_pending-flags t.initialized t.connected t.awaiting_disconnected_state
      t.connected_event_pending t.connected_event_sent t.events v

module _ {S : Type 0} (client : RakClient S) (callbacks : TransportCallbacks S) where
  notify_disconnected-flags :
      (i c a p s : Bool) (events : List ConnectionEvent) (host : S)
      → IsOrderly (flags i c a p s events)
      → IsOrderly ((notify_disconnected client callbacks (flags i c a p s events) host).0)
  unfolding notify_disconnected
  notify_disconnected-flags i false a p s events host v = v
  notify_disconnected-flags i true a p true events host v = record {
    session = (refl, v.session);
    sent = λ h. cc;
    pending = λ h. refl;
    awaiting = λ h. refl;
  }
  notify_disconnected-flags i true a p false events host v = record {
    session = v.session;
    sent = λ h. cc;
    pending = λ h. refl;
    awaiting = λ h. refl;
  }

  notify_connected-flags :
      (i c a p s : Bool) (events : List ConnectionEvent) (host : S)
      → IsOrderly (flags i c a p s events)
      → IsOrderly ((notify_connected_if_pending client callbacks (flags i c a p s events) host).0)
  unfolding notify_connected_if_pending
  notify_connected-flags i false a p s events host v = v
  notify_connected-flags i true a false s events host v = v
  notify_connected-flags i true a true true events host v = v
  notify_connected-flags i true a true false events host v = record {
    session = (refl, v.session);
    sent = λ h. refl;
    pending = λ h. cc;
    awaiting = v.awaiting;
  }

  observe_connection-flags :
      (i c a p s : Bool) (events : List ConnectionEvent) (host : S)
      → IsOrderly (flags i c a p s events)
      → IsOrderly ((observe_connection client callbacks (flags i c a p s events) host).0)
  unfolding observe_connection
  observe_connection-flags i c true p s events host v =
      elim (Bool-cases (client.is_connected host)) [
        | inl e ↦ rw e v
        | inr e ↦
            rw e (record {
              session = v.session;
              sent = v.sent;
              pending = v.pending;
              awaiting = λ h. cc;
            })
      ]
  observe_connection-flags i true false p true events host v =
      elim (Bool-cases (client.is_connected host)) [
        | inl e ↦ rw e v
        | inr e ↦ rw e (record {
          session = (refl, v.session);
          sent = λ h. cc;
          pending = λ h. refl;
          awaiting = λ h. refl;
        })
      ]
  observe_connection-flags i true false p false events host v =
      elim (Bool-cases (client.is_connected host)) [
        | inl e ↦ rw e v
        | inr e ↦ rw e (record {
          session = v.session;
          sent = λ h. cc;
          pending = λ h. refl;
          awaiting = λ h. refl;
        })
      ]
  observe_connection-flags i false false p true events host v = cc (v.sent refl)
  observe_connection-flags i false false p false events host v =
      elim (Bool-cases (client.is_connected host)) [
        | inl e ↦ rw e (record {
          session = v.session;
          sent = λ h. cc;
          pending = λ h. refl;
          awaiting = λ h. cc;
        })
        | inr e ↦ rw e v
      ]

  pub notify_disconnected-IsOrderly :
      (t : RakNetTransport) (host : S)
      → IsOrderly t
      → IsOrderly ((notify_disconnected client callbacks t host).0)
  notify_disconnected-IsOrderly t =
      notify_disconnected-flags t.initialized t.connected t.awaiting_disconnected_state
        t.connected_event_pending t.connected_event_sent t.events

  pub notify_connected-IsOrderly :
      (t : RakNetTransport) (host : S)
      → IsOrderly t
      → IsOrderly ((notify_connected_if_pending client callbacks t host).0)
  notify_connected-IsOrderly t =
      notify_connected-flags t.initialized t.connected t.awaiting_disconnected_state
        t.connected_event_pending t.connected_event_sent t.events

  pub observe_connection-IsOrderly :
      (t : RakNetTransport) (host : S)
      → IsOrderly t
      → IsOrderly ((observe_connection client callbacks t host).0)
  observe_connection-IsOrderly t =
      observe_connection-flags t.initialized t.connected t.awaiting_disconnected_state
        t.connected_event_pending t.connected_event_sent t.events

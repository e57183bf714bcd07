-- ===== src/Server/Tracker/Sound.antt =====
-- What the tracker keeps whatever happens: server/src/player_capabilities.cpp.
use custommodels.Base.{
  All, subst, some, arith, ℕ, ◌≡◌, refl, List, [], ◌∷◌, nat_key, AllValues, AllValues-put,
  AllValues-erase, subst,
}
use custommodels.Protocol.Types.{Hello, RejectReason}
use custommodels.Protocol.Layout.{IsU32}
use custommodels.Server.Tracker.{
  HandshakePolicy, PlayerCapabilityTracker, begin_handshake, reject_player, handle_hello,
  remove_player, reset, tracker,
}
use custommodels.Server.Tracker.Answers.{
  IsAgreed, IsSound, agreed_state, refused_state, Handled, refused, agreed, handle_hello-cases,
  IsDeclared, kept_welcome, kept_reject,
}

-- The events that reach the tracker.
pub data Event : Type 0 where
  connected : ℕ → Event
  greeted : ℕ → Hello → Event
  turned_away : ℕ → RejectReason → Event
  disconnected : ℕ → Event
  cleared : Event

unfoldable pub step : PlayerCapabilityTracker → Event → PlayerCapabilityTracker
step t (connected id) = begin_handshake t id
step t (greeted id hello) = (handle_hello t id hello).0
step t (turned_away id reason) = (reject_player t id reason).0
step t (disconnected id) = remove_player t id
step t cleared = reset t

unfoldable pub run : PlayerCapabilityTracker → List Event → PlayerCapabilityTracker
unfolding step
run t [] = t
run t (event ∷ events) = run (step t event) events

abbrev pub IsSoundTracker : HandshakePolicy → PlayerCapabilityTracker → Type 0
IsSoundTracker p t = (t.policy ≡ p) × AllValues (IsSound p) t.players

-- The event's arguments are of their C++ types, and the reason is one that an enumerator names.
abbrev pub IsTypedEvent : Event → Type 0
IsTypedEvent (greeted id hello) = IsU32 hello.capabilities
IsTypedEvent (turned_away id reason) = IsDeclared reason
IsTypedEvent _ = Unit {0}

IsDeclared-some : (a b : RejectReason) → some a ≡ some b → IsDeclared a → IsDeclared b
IsDeclared-some a b e d = let same : a ≡ b = cc in subst IsDeclared same d

pub handle_hello-IsSound :
    (p : HandshakePolicy) (t : PlayerCapabilityTracker) (id : ℕ) (hello : Hello)
    → IsU32 hello.capabilities
    → IsSoundTracker p t
    → IsSoundTracker p (handle_hello t id hello).0
handle_hello-IsSound p t id hello flags h = by_cases (handle_hello-cases t id hello)
  where
    by_cases : Handled t id hello → IsSoundTracker p (handle_hello t id hello).0
    by_cases (kept_welcome current found is same e) = rw e h
    by_cases (kept_reject current reason found is e) = rw e h
    by_cases (refused reason d e) =
        let sound : IsSound p (refused_state hello reason) = record {
          agreed = λ q. cc;
          has_reason = λ q q2. cc;
          reasons = λ r q. IsDeclared-some reason r q d;
          flags = flags;
        } in
        rw e (h.0, AllValues-put (IsSound p) id _ t.players sound h.1)
    by_cases (agreed agreement e) =
        let passed : IsAgreed p (agreed_state t.policy hello) =
          subst (λ q. IsAgreed q (agreed_state t.policy hello)) h.0 agreement in
        let sound : IsSound p (agreed_state t.policy hello) = record {
          agreed = λ q. passed;
          has_reason = λ q q2. cc;
          reasons = λ r q. cc;
          flags = flags;
        } in
        rw e (h.0, AllValues-put (IsSound p) id _ t.players sound h.1)

pub reject_player-IsSound :
    (p : HandshakePolicy) (t : PlayerCapabilityTracker) (id : ℕ) (reason : RejectReason)
    → IsDeclared reason
    → IsSoundTracker p t
    → IsSoundTracker p (reject_player t id reason).0
unfolding reject_player
reject_player-IsSound p t id reason d h = (
  h.0,
  AllValues-put (IsSound p) id _ t.players
      (record {
        agreed = λ q. cc;
        has_reason = λ q q2. cc;
        reasons = λ r q. IsDeclared-some reason r q d;
        flags = omega arith;
      })
      h.1,
)

step-IsSound :
    (p : HandshakePolicy) (t : PlayerCapabilityTracker) (event : Event)
    → IsTypedEvent event
    → IsSoundTracker p t
    → IsSoundTracker p (step t event)
unfolding step begin_handshake remove_player reset
step-IsSound p t (connected id) typed h = (
  h.0,
  AllValues-put (IsSound p) id _ t.players
      (record {
        agreed = λ q. cc;
        has_reason = λ q q2. cc;
        reasons = λ r q. cc;
        flags = omega arith;
      })
      h.1,
)
step-IsSound p t (greeted id hello) typed h = handle_hello-IsSound p t id hello typed h
step-IsSound p t (turned_away id reason) typed h = reject_player-IsSound p t id reason typed h
step-IsSound p t (disconnected id) typed h = (h.0, AllValues-erase (IsSound p) id t.players h.1)
step-IsSound p t cleared typed h = (h.0, tt)

run-IsSound_from :
    (p : HandshakePolicy) (t : PlayerCapabilityTracker) (events : List Event)
    → All IsTypedEvent events
    → IsSoundTracker p t
    → IsSoundTracker p (run t events)
unfolding run
run-IsSound_from p t [] typed h = h
run-IsSound_from p t (event ∷ events) typed h =
    run-IsSound_from p (step t event) events typed.1 (step-IsSound p t event typed.0 h)

-- Whatever events reach a new tracker, in any order, each player that it holds as `Compatible` has
-- passed every check of the policy, with the capabilities of both sides negotiated and the required
-- ones among them, and each that it holds as `Rejected` has its reason. The events' arguments are of
-- their C++ types, and the reasons of a rejection are declared ones.
pub run-IsSound :
    (policy : HandshakePolicy) (events : List Event)
    → All IsTypedEvent events
    → IsSoundTracker (tracker policy).policy (run (tracker policy) events)
unfolding tracker
run-IsSound policy events typed =
    run-IsSound_from (tracker policy).policy (tracker policy) events typed (refl, tt)

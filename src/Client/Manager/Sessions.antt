-- ===== src/Client/Manager/Sessions.antt =====
-- What a session of the manager holds, whatever an earlier session left behind:
-- client/src/assets/manager.cpp.
pub mod Messages
pub mod Stages
pub mod Kept
use custommodels.Base.{
  ℕ, suc, ◌+◌, ◌^◌, ◌%◌, ◌≤◌, ◌<◌, ◌≡◌, ◌≢◌, refl, sym, ◌∙◌, ap, subst, Bool, true, false, not,
  ◌||◌, List, [], ◌∷◌, ◌++◌, Option, none, some, ◌==◌, if◌then◌else◌, arith, All, All-append,
  Bool-cases, inl, inr, ==→eq, ==_refl, find, put, nat_key,
}
use custommodels.Assets.{AssetDescription, Manifest}
use custommodels.Protocol.Types.{Message, AssetErrorReason, manifest_begin}
use custommodels.Client.Receiver.{
  ManifestReceiver, ManifestInputResult, accepted, ignored, invalid_order, invalid_manifest,
  is_idle, handle, initial_receiver,
}
use custommodels.Client.Receiver.Collecting.{IsAcceptable, IsValid, IsSafe}
use custommodels.Client.Receiver.Safety.{handle-IsSafe}
use custommodels.Client.Manager.{
  AssetState, ClientAssetEventKind, ClientAssetEvent, WorkItem, ClientAssetManager, post, set_state,
  queue_asset, queue_assets, note_accepted, note_complete, note_result, handle_message,
  is_in_progress, next_generation, reset_session,
}
use custommodels.Client.Manager.Received.{
  IsOneRevision, IsHandled, handle-IsHandled, handle_begin-accepted,
}

-- The work item is of the manager's session, and its description is valid.
abbrev pub IsOf : ClientAssetManager → WorkItem → Type 0
IsOf m w =
    (w.generation ≡ m.generation)
    × (w.manifest_revision ≡ m.receiver.manifest.revision)
    × IsValid w.asset

-- The event is of the manager's session.
abbrev pub IsEventOf : ClientAssetManager → ClientAssetEvent → Type 0
IsEventOf m e = e.manifest_revision ≡ m.receiver.manifest.revision

-- A manager after `n` resets.
pub record IsOrderly (n : ℕ) (m : ClientAssetManager) : Type 0 where
  pub generation : m.generation ≡ n + 1
  pub queued : All (IsOf m) m.queue
  pub events : All (IsEventOf m) m.events
  pub fresh : is_idle m.receiver.state ≡ true → (m.queue ≡ []) × (m.events ≡ []) × (m.states ≡ [])
  pub one : IsOneRevision m.receiver
  pub safe : IsSafe m.receiver

-- A work item that the worker holds: of this session, or of an earlier one.
pub record IsHeld (n : ℕ) (r : ManifestReceiver) (w : WorkItem) : Type 0 where
  pub earlier : w.generation ≤ n + 1
  pub valid : IsValid w.asset
  pub current :
      w.generation ≡ n + 1 → (is_idle r.state ≡ false) × (w.manifest_revision ≡ r.manifest.revision)

begun-fresh : {A : Type 0} (b : Bool) → b ≡ false → b ≡ true → A
begun-fresh b h q = absurd (cc)

module _ (n : ℕ) (m : ClientAssetManager) (v : IsOrderly n m) where
  pub post-IsOrderly :
      (e : ClientAssetEvent) (states : List (ℕ × AssetState))
      → is_idle m.receiver.state ≡ false
      → IsEventOf m e
      → IsOrderly n (post e (record m { states = states }))
  post-IsOrderly e states begun h = record {
    generation = v.generation;
    queued = v.queued;
    events = All-append (IsEventOf m) m.events (e ∷ []) v.events (h, tt);
    fresh = λ q. begun-fresh _ begun q;
    one = v.one;
    safe = v.safe;
  }

  queue_asset-IsOrderly :
      (revision : ℕ) (a : AssetDescription)
      → is_idle m.receiver.state ≡ false
      → revision ≡ m.receiver.manifest.revision
      → IsValid a
      → IsOrderly n (queue_asset m revision a)
  unfolding queue_asset
  queue_asset-IsOrderly revision a begun same valid =
      elim (Bool-cases (is_in_progress (find a.asset_id m.states))) [
        | inl e ↦ rw e v
        | inr e ↦ rw e (record {
          generation = v.generation;
          queued = All-append (IsOf m) m.queue _ v.queued ((refl, same, valid), tt);
          events = All-append (IsEventOf m) m.events _ v.events (same, tt);
          fresh = λ q. begun-fresh _ begun q;
          one = v.one;
          safe = v.safe;
        })
      ]

  -- A mark for a work item of an earlier session is none.
  pub set_state-IsOrderly :
      (w : WorkItem) (state : AssetState) (event : ClientAssetEventKind) (reason : AssetErrorReason)
      → IsHeld n m.receiver w
      → IsOrderly n (set_state m w state event reason)
  unfolding set_state
  set_state-IsOrderly w state event reason h = elim (Bool-cases (w.generation == m.generation)) [
    | inr e ↦ rw e v
    | inl e ↦
        let now = h.current (==→eq _ _ e ∙ v.generation) in rw e (post-IsOrderly _ _ now.0 now.1)
  ]

pub queue_asset-receiver :
    (m : ClientAssetManager) (revision : ℕ) (a : AssetDescription)
    → (queue_asset m revision a).receiver ≡ m.receiver
unfolding queue_asset
queue_asset-receiver m revision a = elim (Bool-cases (is_in_progress (find a.asset_id m.states))) [
  | inl e ↦ rw e refl
  | inr e ↦ rw e refl
]

queue_assets-IsOrderly :
    (n : ℕ) (m : ClientAssetManager) (revision : ℕ) (l : List AssetDescription)
    → IsOrderly n m
    → is_idle m.receiver.state ≡ false
    → revision ≡ m.receiver.manifest.revision
    → All IsValid l
    → IsOrderly n (queue_assets m revision l)
unfolding queue_assets
queue_assets-IsOrderly n m revision [] v begun same h = v
queue_assets-IsOrderly n m revision (a ∷ l) v begun same h =
    let kept = queue_asset-receiver m revision a in
    queue_assets-IsOrderly n (queue_asset m revision a) revision l
      (queue_asset-IsOrderly n m v revision a begun same h.0)
      (ap (λ (r : ManifestReceiver). is_idle r.state) kept ∙ begun)
      (same ∙ ap (λ (r : ManifestReceiver). r.manifest.revision) (sym kept)) h.1

pub note_complete-IsOrderly :
    (n : ℕ) (m : ClientAssetManager) (o : Option Manifest)
    → IsOrderly n m
    → m.receiver.completed ≡ o
    → is_idle m.receiver.state ≡ false
    → IsOrderly n (note_complete m o)
unfolding note_complete
note_complete-IsOrderly n m none v e begun = v
note_complete-IsOrderly n m (some manifest) v e begun =
    let same = v.one manifest e in
    queue_assets-IsOrderly n _ manifest.revision manifest.assets
      (post-IsOrderly n m v _ m.states begun same) begun same (v.safe.result manifest e).valid

-- The manager with the receiver that has handled a message.
pub received-IsOrderly :
    (n : ℕ) (m : ClientAssetManager) (r : ManifestReceiver × ManifestInputResult)
    → IsOrderly n m
    → IsHandled m.receiver r
    → IsSafe r.0
    → IsOrderly n (record m { receiver = r.0 })
received-IsOrderly n m r v h safe = elim (Bool-cases (is_idle m.receiver.state)) [
  | inl e ↦
      let (no_queue, no_events, no_states) = v.fresh e in
      record {
        generation = v.generation;
        queued = rw no_queue tt;
        events = rw no_events tt;
        fresh = λ q. (no_queue, no_events, no_states);
        one = h.one v.one;
        safe = safe;
      }
  | inr e ↦
      let kept = h.kept e in
      record {
        generation = v.generation;
        queued = rw kept v.queued;
        events = rw kept v.events;
        fresh = λ q. begun-fresh _ (h.begun e) q;
        one = h.one v.one;
        safe = safe;
      }
]

-- ===== src/Client/Manager/Ready.antt =====
-- An asset becomes ready only with its file in the cache: client/src/assets/manager.cpp.
use custommodels.Base.{
  ℕ, ◌≡◌, ◌≢◌, refl, sym, ◌∙◌, ap, ◌+◌, ◌-◌, ◌^◌, ◌<◌, not, ◌||◌, List, [], ◌∷◌, Option, none, some,
  arith, Bool-cases, inl, inr, ==→eq, nat_key, find-put,
}
use custommodels.Assets.{Bytes, AssetDescription, Manifest}
use custommodels.Protocol.Types.{Message, AssetErrorReason, manifest_begin}
use custommodels.Client.Cache.{AssetCache}
use custommodels.Client.Files.{FileSystem}
use custommodels.Client.Receiver.{
  ManifestInputResult, accepted, ignored, invalid_order, invalid_manifest, handle,
}
use custommodels.Client.Cache
use custommodels.Client.Cache.Answers.{IsCached}
use custommodels.Client.Manager.{
  AssetState, ClientAssetEventKind, WorkItem, ClientAssetManager, initialize, set_state, fail,
  get_state, queue_asset, queue_assets, note_accepted, note_complete, note_result, handle_message,
  request_stop, drain_events, shutdown_joined,
}
use custommodels.Client.Manager.Worker.{
  Fetch, Stage, absent, waiting, taken, looking, hitting, starting, fetching, checking, measuring,
  confirming, committing, finishing, failing, Client, item_of, take_work, take_front, run_stage,
  worker_step, Step, work, throw, start, stop, join, message, drain, Reach, initialize_client,
}
use mathlib.Core.List.{Mem}
use custommodels.Client.Receiver.{ManifestReceiver}
use custommodels.Client.Receiver.Collecting.{IsAcceptable}
use custommodels.Client.Manager.Sessions.Stages.{OnItem}
use custommodels.Client.Manager.Sessions.Kept.{IsSound, Reach-IsSound}
use custommodels.Client.Manager.Listed.Kept.{IsOwn, IsPromised, set_state-IsSame, Reach-IsPromised}
use custommodels.Client.Manager.Disk.{Holds, HoldsAt, Reach-Holds}

-- A mark of the worker sets the state of its own asset, if any.
set_state-ready :
    (m : ClientAssetManager) (w : WorkItem) (state : AssetState) (event : ClientAssetEventKind)
    (reason : AssetErrorReason) (id : ℕ)
    → get_state (set_state m w state event reason) id ≡ AssetState.ready
    → get_state m id ≢ AssetState.ready
    → (w.asset.asset_id ≡ id) × (state ≡ AssetState.ready) × (w.generation ≡ m.generation)
unfolding set_state get_state
set_state-ready m w state event reason id now before = (
  ground
      (arith, find-put w.asset.asset_id id state m.states, ==→eq w.asset.asset_id id, now, before),
  ground
      (arith, find-put w.asset.asset_id id state m.states, ==→eq w.asset.asset_id id, now, before),
  ground (arith, ==→eq w.generation m.generation, now, before),
)

-- The answers of `GetState` depend on the states alone.
pub get_state-eq :
    (m n : ClientAssetManager) (id : ℕ) → m.states ≡ n.states → get_state m id ≡ get_state n id
unfolding get_state
get_state-eq m n id e = rw e refl

queue_asset-ready :
    (m : ClientAssetManager) (revision : ℕ) (a : AssetDescription) (id : ℕ)
    → get_state (queue_asset m revision a) id ≡ AssetState.ready
    → get_state m id ≡ AssetState.ready
unfolding queue_asset get_state
queue_asset-ready m revision a id h =
    ground (arith, find-put a.asset_id id AssetState.queued m.states, h)

queue_assets-ready :
    (m : ClientAssetManager) (revision : ℕ) (l : List AssetDescription) (id : ℕ)
    → get_state (queue_assets m revision l) id ≡ AssetState.ready
    → get_state m id ≡ AssetState.ready
unfolding queue_assets
queue_assets-ready m revision [] id h = h
queue_assets-ready m revision (a ∷ l) id h =
    queue_asset-ready m revision a id
      (queue_assets-ready (queue_asset m revision a) revision l id h)

note_complete-ready :
    (m : ClientAssetManager) (o : Option Manifest) (id : ℕ)
    → get_state (note_complete m o) id ≡ AssetState.ready
    → get_state m id ≡ AssetState.ready
unfolding note_complete get_state
note_complete-ready m none id h = h
note_complete-ready m (some manifest) id h = queue_assets-ready _ _ _ id h

pub note_accepted-states :
    (m : ClientAssetManager) (received : Message) → (note_accepted m received).states ≡ m.states
unfolding note_accepted
note_accepted-states m (manifest_begin b) = refl
note_accepted-states m other = refl

note_result-ready :
    (m : ClientAssetManager) (received : Message) (result : ManifestInputResult) (id : ℕ)
    → get_state (note_result m received result) id ≡ AssetState.ready
    → get_state m id ≡ AssetState.ready
unfolding note_result
note_result-ready m received ManifestInputResult.complete id h =
    note_complete-ready m m.receiver.completed id h
note_result-ready m received accepted id h =
    get_state-eq _ _ id (sym (note_accepted-states m received)) ∙ h
note_result-ready m received ignored id h = h
note_result-ready m received invalid_order id h = h
note_result-ready m received invalid_manifest id h = h

handle_message-ready :
    (m : ClientAssetManager) (received : Message) (id : ℕ)
    → get_state (handle_message m received).0 id ≡ AssetState.ready
    → get_state m id ≡ AssetState.ready
unfolding handle_message get_state
handle_message-ready m received id h =
    let r = handle m.receiver received in
    note_result-ready (record m { receiver = r.0 }) received r.1 id h

initialize-states :
    (cache : AssetCache) (m : ClientAssetManager) (fs : FileSystem)
    → (initialize cache m fs).0.states ≡ m.states
unfolding initialize
initialize-states cache m fs = elim (Bool-cases (m.initialized || not m.has_backend)) [
  | inl e ↦ simp e refl
  | inr e ↦ elim (Bool-cases (not (Cache.initialize cache fs).1)) [
    | inl q ↦ simp (e, q) refl
    | inr q ↦ simp (e, q) refl
  ]
]

take_front-states :
    (m : ClientAssetManager) (q : List WorkItem) → (take_front m q).0.states ≡ m.states
take_front-states m [] = refl
take_front-states m (w ∷ q) = refl

take_work-states : (m : ClientAssetManager) → (take_work m).0.states ≡ m.states
unfolding take_work
take_work-states m = elim (Bool-cases m.stopping) [
  | inl e ↦ simp e refl
  | inr e ↦ simp e (take_front-states m m.queue)
]

module _ (hash : Bytes → Bytes) (cache : AssetCache) (fetch : Fetch) where
  -- The asset is one of the acceptable manifest that the session has completed, and it is cached.
  abbrev IsDelivered : Client → ℕ → Type 0
  IsDelivered d id =
      (m : Manifest) × (a : AssetDescription) × (d.manager.receiver.completed ≡ some m)
      × IsAcceptable m
      × Mem a m.assets
      × (a.asset_id ≡ id)
      × IsCached hash cache d.files a

  abbrev BecomesReady : Client → Client → ℕ → Type 0
  BecomesReady c d id =
      get_state d.manager id ≡ AssetState.ready
      → get_state c.manager id ≢ AssetState.ready
      → IsDelivered d id

  -- A mark of the worker on a cached asset of its session.
  marked-IsDelivered :
      (n : ℕ) (c : Client) (w : WorkItem) (state : AssetState) (event : ClientAssetEventKind)
      (reason : AssetErrorReason) (s : Stage) (id : ℕ)
      → IsSound n c
      → IsOwn (n + 1) c.manager.receiver w
      → IsCached hash cache c.files w.asset
      → BecomesReady c
          (record {
            manager = set_state c.manager w state event reason;
            files = c.files;
            stage = s;
          })
          id
  marked-IsDelivered n c w state event reason s id sound own held now before =
      let (same, ready, current) = set_state-ready c.manager w state event reason id now before in
      let (m, done, listed) = own (current ∙ sound.orderly.generation) in
      let kept = (set_state-IsSame c.manager w state event reason).0 in
      (
        m,
        w.asset,
        ap (λ (r : ManifestReceiver). r.completed) kept ∙ done,
        sound.orderly.safe.result m done,
        listed,
        same,
        held,
      )

  worker_step-BecomesReady :
      (n : ℕ) (c : Client) (id : ℕ)
      → IsSound n c
      → IsPromised n c.manager c.stage
      → Holds hash cache fetch c
      → BecomesReady c (worker_step hash cache fetch c) id
  unfolding worker_step run_stage fail
  worker_step-BecomesReady n c id sound promised h = ran c.stage promised.held h
    where
      ran :
          (s : Stage)
          → OnItem (IsOwn (n + 1) c.manager.receiver) (item_of s)
          → HoldsAt hash cache fetch (c.files, s)
          → BecomesReady c (run_stage hash cache fetch c s) id
      ran absent own h now before = absurd (before now)
      ran waiting own h now before =
          absurd (before (get_state-eq _ _ id (sym (take_work-states c.manager)) ∙ now))
      ran (taken w) own h now before = absurd (before now)
      ran (looking w) own h now before = absurd (before now)
      ran (hitting w) own h now before =
          marked-IsDelivered n c w AssetState.ready ClientAssetEventKind.cache_hit
            AssetErrorReason.internal_error (finishing w) id sound own h now before
      ran (starting w) own h now before =
          let q = (set_state-ready c.manager w _ _ _ id now before).1 in cc
      ran (fetching w) own h now before = absurd (before now)
      ran (checking w) own h now before =
          let q = (set_state-ready c.manager w _ _ _ id now before).1 in cc
      ran (measuring w) own h now before = absurd (before now)
      ran (confirming w) own h now before =
          let q = (set_state-ready c.manager w _ _ _ id now before).1 in cc
      ran (committing w) own h now before = absurd (before now)
      ran (finishing w) own h now before =
          marked-IsDelivered n c w AssetState.ready ClientAssetEventKind.ready
            AssetErrorReason.internal_error waiting id sound own h now before
      ran (failing w reason) own h now before =
          let q = (set_state-ready c.manager w _ _ _ id now before).1 in cc

  Step-BecomesReady :
      (n : ℕ) (c d : Client)
      → n < 2 ^ 64 - 1
      → Reach hash cache fetch n c
      → Step hash cache fetch c d
      → (id : ℕ) → BecomesReady c d id
  unfolding initialize_client get_state request_stop drain_events shutdown_joined handle_message
  Step-BecomesReady n _ _ small r (work c) id =
      worker_step-BecomesReady n c id (Reach-IsSound hash cache fetch n c small r)
        (Reach-IsPromised hash cache fetch n c small r) (Reach-Holds hash cache fetch n c r)
  Step-BecomesReady n _ _ small r (throw c item e) id = λ now before. absurd (before now)
  Step-BecomesReady n _ _ small r (start c e) id = λ now before. absurd (
      before (
        get_state-eq c.manager (initialize cache c.manager c.files).0 id
          (sym (initialize-states cache c.manager c.files))
        ∙ now))
  Step-BecomesReady n _ _ small r (stop c) id = λ now before. absurd (before now)
  Step-BecomesReady n _ _ small r (join c e) id = λ now before. absurd (before now)
  Step-BecomesReady n _ _ small r (message c m) id =
      λ now before. absurd (before (handle_message-ready c.manager m id now))
  Step-BecomesReady n _ _ small r (drain c) id = λ now before. absurd (before now)

  -- An asset becomes ready, in any order of the two threads' steps, whatever the transfer does and
  -- for every script of faults, only by a step behind which the session has completed an acceptable
  -- manifest that holds an asset of that id, and the cache holds a file with the size and the digest
  -- that the manifest gives for it. There were fewer than 2^64 - 1 resets.
  pub Step-ready :
      (n : ℕ) (c d : Client)
      → n < 2 ^ 64 - 1
      → Reach hash cache fetch n c
      → Step hash cache fetch c d
      → (id : ℕ) → get_state d.manager id ≡ AssetState.ready
      → get_state c.manager id ≢ AssetState.ready
      → (m : Manifest) × (a : AssetDescription) × (d.manager.receiver.completed ≡ some m)
        × IsAcceptable m
        × Mem a m.assets
        × (a.asset_id ≡ id)
        × IsCached hash cache d.files a
  Step-ready n c d small r s id = Step-BecomesReady n c d small r s id

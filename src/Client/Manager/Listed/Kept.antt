-- ===== src/Client/Manager/Listed/Kept.antt =====
-- Both threads work on the assets of the session's manifest alone: client/src/assets/manager.cpp.
use custommodels.Base.{
  ℕ, ◌+◌, ◌-◌, ◌^◌, ◌<◌, ◌≡◌, refl, sym, subst, List, [], ◌∷◌, arith, All, Bool-cases, inl, inr,
  nat_key,
}
use custommodels.Assets.{Bytes}
use custommodels.Protocol.Types.{AssetErrorReason}
use custommodels.Client.Files.{FileSystem}
use custommodels.Client.Cache.{AssetCache}
use custommodels.Client.Receiver
use custommodels.Client.Receiver.{ManifestReceiver}
use custommodels.Client.Manager.{
  AssetState, ClientAssetEventKind, WorkItem, ClientAssetManager, client_asset_manager, initialize,
  set_state, fail, reset_session, request_stop, shutdown_joined, drain_events,
}
use custommodels.Client.Manager.Worker.{
  Fetch, Stage, absent, waiting, taken, looking, hitting, starting, fetching, checking, measuring,
  confirming, committing, finishing, failing, Client, look, download, measure, commit, take_work,
  take_front, run_stage, worker_step, item_of, Step, work, throw, start, stop, join, message, drain,
  Reach, begin, step, reset, initialize_client,
}
use custommodels.Client.Manager.Sessions.{IsHeld}
use custommodels.Client.Manager.Sessions.Messages.{handle_message-receiver}
use custommodels.Client.Manager.Sessions.Stages.{OnItem, OnItem-map, work_of-item}
use custommodels.Client.Manager.Sessions.Kept.{Reach-IsSound}
use custommodels.Client.Manager.Listed.{
  IsDone, IsListed, IsFilled, handle-IsKept, handle_message-IsFilled,
}

-- A work item of the session stands in its manifest.
abbrev pub IsOwn : ℕ → ManifestReceiver → WorkItem → Type 0
IsOwn generation r w = w.generation ≡ generation → IsListed r w

-- A manager after `n` resets.
pub record IsPromised (n : ℕ) (m : ClientAssetManager) (s : Stage) : Type 0 where
  pub done : IsDone m.receiver
  pub queued : IsFilled m
  pub held : OnItem (IsOwn (n + 1) m.receiver) (item_of s)

-- The manager has the same receiver and queue.
abbrev IsSame : ClientAssetManager → ClientAssetManager → Type 0
IsSame m other = (other.receiver ≡ m.receiver) × (other.queue ≡ m.queue)

same-IsPromised :
    (n : ℕ) (m other : ClientAssetManager) (s t : Stage)
    → IsSame m other
    → OnItem (IsOwn (n + 1) m.receiver) (item_of t)
    → IsPromised n m s
    → IsPromised n other t
same-IsPromised n m other s t (r, q) h v = record {
  done = subst IsDone (sym r) v.done;
  queued = rw (q, r) v.queued;
  held = rw r h;
}

pub set_state-IsSame :
    (m : ClientAssetManager) (w : WorkItem) (state : AssetState) (event : ClientAssetEventKind)
    (reason : AssetErrorReason)
    → IsSame m (set_state m w state event reason)
unfolding set_state
set_state-IsSame m w state event reason = ground arith

initialize-IsSame :
    (cache : AssetCache) (m : ClientAssetManager) (fs : FileSystem)
    → IsSame m (initialize cache m fs).0
unfolding initialize
initialize-IsSame cache m fs = ground arith

take_front-IsPromised :
    (n : ℕ) (m : ClientAssetManager) (q : List WorkItem)
    → IsDone m.receiver
    → m.queue ≡ q
    → IsFilled m
    → IsPromised n (take_front m q).0 (take_front m q).1
take_front-IsPromised n m [] d e h = record { done = d; queued = h; held = tt }
take_front-IsPromised n m (w ∷ rest) d e h =
    let (own, others) = subst (All (IsListed m.receiver)) e h in
    record { done = d; queued = others; held = λ g. own }

take_work-IsPromised :
    (n : ℕ) (m : ClientAssetManager) (s : Stage)
    → IsPromised n m s
    → IsPromised n (take_work m).0 (take_work m).1
unfolding take_work
take_work-IsPromised n m s v = elim (Bool-cases m.stopping) [
  | inl e ↦ simp e (record { done = v.done; queued = v.queued; held = tt })
  | inr e ↦ simp e (take_front-IsPromised n m m.queue v.done refl v.queued)
]

module _ (hash : Bytes → Bytes) (cache : AssetCache) (fetch : Fetch) where
  module _ (P : WorkItem → Type 0) (w : WorkItem) (h : P w) where
    look-OnItem : (fs : FileSystem) → OnItem P (item_of (look hash cache fetch fs w).1)
    unfolding look
    look-OnItem fs = ground (arith, h)

    download-OnItem : (fs : FileSystem) → OnItem P (item_of (download hash cache fetch fs w).1)
    unfolding download
    download-OnItem fs = ground (arith, h)

    measure-OnItem : (fs : FileSystem) → OnItem P (item_of (measure hash cache fetch fs w).1)
    unfolding measure
    measure-OnItem fs = ground (arith, h)

    commit-OnItem : (fs : FileSystem) → OnItem P (item_of (commit hash cache fetch fs w).1)
    unfolding commit
    commit-OnItem fs = ground (arith, h)

  worker_step-IsPromised :
      (n : ℕ) (c : Client)
      → IsPromised n c.manager c.stage
      → IsPromised n (worker_step hash cache fetch c).manager (worker_step hash cache fetch c).stage
  unfolding worker_step run_stage fail
  worker_step-IsPromised n c v = ran c.stage v
    where
      m : ClientAssetManager
      m = c.manager

      Own : WorkItem → Type 0
      Own = IsOwn (n + 1) m.receiver

      moved : (s t : Stage) → IsPromised n m s → OnItem Own (item_of t) → IsPromised n m t
      moved s t p h = record { done = p.done; queued = p.queued; held = h }

      marked :
          (w : WorkItem) (state : AssetState) (event : ClientAssetEventKind)
          (reason : AssetErrorReason) (s t : Stage)
          → IsPromised n m s
          → OnItem Own (item_of t)
          → IsPromised n (set_state m w state event reason) t
      marked w state event reason s t p h =
          same-IsPromised n m _ s t (set_state-IsSame m w state event reason) h p

      ran :
          (s : Stage)
          → IsPromised n m s
          → IsPromised n
              (run_stage hash cache fetch c s).manager
              (run_stage hash cache fetch c s).stage
      ran absent p = moved absent absent p tt
      ran waiting p = take_work-IsPromised n m waiting p
      ran (taken w) p = moved (taken w) _ p (let h = p.held in ground (arith, h))
      ran (looking w) p = moved (looking w) _ p (look-OnItem Own w p.held c.files)
      ran (hitting w) p = marked w _ _ _ (hitting w) _ p p.held
      ran (starting w) p = marked w _ _ _ (starting w) _ p p.held
      ran (fetching w) p = moved (fetching w) _ p (download-OnItem Own w p.held c.files)
      ran (checking w) p = marked w _ _ _ (checking w) _ p p.held
      ran (measuring w) p = moved (measuring w) _ p (measure-OnItem Own w p.held c.files)
      ran (confirming w) p = marked w _ _ _ (confirming w) _ p p.held
      ran (committing w) p = moved (committing w) _ p (commit-OnItem Own w p.held c.files)
      ran (finishing w) p = marked w _ _ _ (finishing w) _ p tt
      ran (failing w reason) p = marked w _ _ _ (failing w reason) _ p tt

  Step-IsPromised :
      (n : ℕ) (c d : Client)
      → Step hash cache fetch c d
      → IsPromised n c.manager c.stage
      → IsPromised n d.manager d.stage
  unfolding initialize_client request_stop shutdown_joined drain_events
  Step-IsPromised n _ _ (work c) v = worker_step-IsPromised n c v
  Step-IsPromised n _ _ (throw c item e) v = record {
    done = v.done;
    queued = v.queued;
    held = subst (OnItem (IsOwn (n + 1) c.manager.receiver)) (work_of-item c.stage item e) v.held;
  }
  Step-IsPromised n _ _ (start c e) v =
      same-IsPromised n c.manager _ c.stage _ (initialize-IsSame cache c.manager c.files)
        (elim (Bool-cases (initialize cache c.manager c.files).2) [
          | inl q ↦ rw q tt
          | inr q ↦ rw (q, e) tt
        ])
        v
  Step-IsPromised n _ _ (stop c) v = record { done = v.done; queued = tt; held = v.held }
  Step-IsPromised n _ _ (join c e) v = record { done = v.done; queued = v.queued; held = v.held }
  Step-IsPromised n _ _ (message c m) v =
      let (done, kept) = handle-IsKept c.manager.receiver m v.done in
      let same = handle_message-receiver c.manager m in
      record {
        done = subst IsDone (sym same) done;
        queued = handle_message-IsFilled c.manager m v.done v.queued;
        held = rw same (
            OnItem-map (IsOwn (n + 1) c.manager.receiver) _ (item_of c.stage)
              (λ w own g. let (full, q, listed) = own g in (full, kept full q, listed)) v.held);
      }
  Step-IsPromised n _ _ (drain c) v = record { done = v.done; queued = v.queued; held = v.held }

  -- Each queued item, and the item that the worker holds where it is of the manager's session,
  -- stands in the session's completed manifest.
  pub Reach-IsPromised :
      (n : ℕ) (c : Client)
      → n < 2 ^ 64 - 1
      → Reach hash cache fetch n c
      → IsPromised n c.manager c.stage
  unfolding client_asset_manager reset_session Receiver.reset
  Reach-IsPromised _ _ small (begin has_backend files) = record {
    done = λ m q. cc;
    queued = tt;
    held = tt;
  }
  Reach-IsPromised _ _ small (step n c d r s) =
      Step-IsPromised n c d s (Reach-IsPromised n c small r)
  Reach-IsPromised _ _ small (reset n c r) =
      let sound = Reach-IsSound hash cache fetch n c (omega arith) r in
      record {
        done = λ m q. cc;
        queued = tt;
        held =
            OnItem-map (IsHeld n c.manager.receiver) _ (item_of c.stage)
              (λ w h g. absurd (omega (arith, h.earlier, g))) sound.stage;
      }

-- ===== src/Client/Manager/Sessions/Kept.antt =====
-- Both threads keep the sessions of the manager apart: client/src/assets/manager.cpp.
use custommodels.Base.{
  ℕ, ◌-◌, ◌^◌, ◌<◌, ◌≡◌, refl, subst, true, false, List, [], ◌∷◌, arith, All, Bool-cases, inl, inr,
  nat_key,
}
use custommodels.Assets.{Bytes}
use custommodels.Protocol.Types.{AssetErrorReason}
use custommodels.Client.Files.{FileSystem}
use custommodels.Client.Cache.{AssetCache}
use custommodels.Client.Receiver.{ManifestReceiver, is_idle}
use custommodels.Client.Manager.{
  AssetState, ClientAssetEventKind, WorkItem, ClientAssetManager, client_asset_manager, initialize,
  set_state, fail, reset_session, request_stop, shutdown_joined, drain_events,
}
use custommodels.Client.Manager.Worker.{
  Fetch, Stage, absent, waiting, taken, looking, hitting, starting, fetching, checking, measuring,
  confirming, committing, finishing, failing, Client, look, download, measure, commit, take_work,
  take_front, run_stage, worker_step, item_of, Step, work, throw, start, stop, join, message, drain,
  Reach, begin, step, reset, initialize_client,
}
use custommodels.Client.Manager.Received.{handle-IsHandled}
use custommodels.Client.Manager.Sessions.Messages.{
  handle_message-receiver, handle_message-IsOrderly,
}
use custommodels.Client.Manager.Sessions.{IsOf, IsOrderly, IsHeld, set_state-IsOrderly}
use custommodels.Client.Manager.Sessions.Stages.{
  OnItem, OnItem-map, IsStage, work_of-item, flags-IsOrderly, initialize-IsOrderly, handled-IsHeld,
  reset-IsHeld, reset_session-IsOrderly,
}

-- A client after `n` resets.
pub record IsSound (n : ℕ) (c : Client) : Type 0 where
  pub orderly : IsOrderly n c.manager
  pub stage : IsStage n c.manager.receiver c.stage

-- The worker takes a work item of the manager's session.
abbrev IsTaken : ℕ → ClientAssetManager × Stage → Type 0
IsTaken n (m, s) = IsOrderly n m × IsStage n m.receiver s

take_front-IsTaken :
    (n : ℕ) (m : ClientAssetManager) (q : List WorkItem)
    → IsOrderly n m
    → m.queue ≡ q
    → IsTaken n (take_front m q)
take_front-IsTaken n m [] v e = (v, tt)
take_front-IsTaken n m (w ∷ rest) v e =
    let (item, others) = subst (All (IsOf m)) e v.queued in
    (
      record {
        generation = v.generation;
        queued = others;
        events = v.events;
        fresh = λ q. absurd (full q);
        one = v.one;
        safe = v.safe;
      },
      record {
        earlier = omega (arith, item.0, v.generation);
        valid = item.2;
        current = λ q. (begun, item.1);
      },
    )
  where
    full : is_idle m.receiver.state ≡ true → ⊥
    full q = let empty = (v.fresh q).0 in cc

    begun : is_idle m.receiver.state ≡ false
    begun = elim (Bool-cases (is_idle m.receiver.state)) [ inl q ↦ absurd (full q) | inr q ↦ q ]

take_work-IsTaken : (n : ℕ) (m : ClientAssetManager) → IsOrderly n m → IsTaken n (take_work m)
unfolding take_work
take_work-IsTaken n m v = elim (Bool-cases m.stopping) [
  | inl e ↦ simp e (v, tt)
  | inr e ↦ simp e (take_front-IsTaken n m m.queue v refl)
]

set_state-receiver :
    (m : ClientAssetManager) (w : WorkItem) (state : AssetState) (event : ClientAssetEventKind)
    (reason : AssetErrorReason)
    → (set_state m w state event reason).receiver ≡ m.receiver
unfolding set_state
set_state-receiver m w state event reason = ground arith

module _ (hash : Bytes → Bytes) (cache : AssetCache) (fetch : Fetch) where
  module _ (n : ℕ) (r : ManifestReceiver) (w : WorkItem) (h : IsHeld n r w) where
    look-IsStage : (fs : FileSystem) → IsStage n r (look hash cache fetch fs w).1
    unfolding look
    look-IsStage fs = ground (arith, h)

    download-IsStage : (fs : FileSystem) → IsStage n r (download hash cache fetch fs w).1
    unfolding download
    download-IsStage fs = ground (arith, h)

    measure-IsStage : (fs : FileSystem) → IsStage n r (measure hash cache fetch fs w).1
    unfolding measure
    measure-IsStage fs = ground (arith, h)

    commit-IsStage : (fs : FileSystem) → IsStage n r (commit hash cache fetch fs w).1
    unfolding commit
    commit-IsStage fs = ground (arith, h)

  worker_step-IsSound :
      (n : ℕ) (c : Client) → IsSound n c → IsSound n (worker_step hash cache fetch c)
  unfolding worker_step run_stage fail
  worker_step-IsSound n c v = ran c.stage v.stage
    where
      m : ClientAssetManager
      m = c.manager

      -- A mark keeps the receiver, and so what the worker holds.
      marked :
          (w : WorkItem) (state : AssetState) (event : ClientAssetEventKind)
          (reason : AssetErrorReason) (s : Stage)
          → IsHeld n m.receiver w
          → IsStage n m.receiver s
          → IsSound n
              (record { manager = set_state m w state event reason; files = c.files; stage = s })
      marked w state event reason s h next = record {
        orderly = set_state-IsOrderly n m v.orderly w state event reason h;
        stage = rw (set_state-receiver m w state event reason) next;
      }

      ran : (s : Stage) → IsStage n m.receiver s → IsSound n (run_stage hash cache fetch c s)
      ran absent h = record { orderly = v.orderly; stage = tt }
      ran waiting h =
          let t = take_work-IsTaken n m v.orderly in record { orderly = t.0; stage = t.1 }
      ran (taken w) h = record { orderly = v.orderly; stage = ground (arith, h) }
      ran (looking w) h = record {
        orderly = v.orderly;
        stage = look-IsStage n m.receiver w h c.files;
      }
      ran (hitting w) h = marked w _ _ _ _ h h
      ran (starting w) h = marked w _ _ _ _ h h
      ran (fetching w) h = record {
        orderly = v.orderly;
        stage = download-IsStage n m.receiver w h c.files;
      }
      ran (checking w) h = marked w _ _ _ _ h h
      ran (measuring w) h = record {
        orderly = v.orderly;
        stage = measure-IsStage n m.receiver w h c.files;
      }
      ran (confirming w) h = marked w _ _ _ _ h h
      ran (committing w) h = record {
        orderly = v.orderly;
        stage = commit-IsStage n m.receiver w h c.files;
      }
      ran (finishing w) h = marked w _ _ _ _ h tt
      ran (failing w reason) h = marked w _ _ _ _ h tt

  Step-IsSound : (n : ℕ) (c d : Client) → Step hash cache fetch c d → IsSound n c → IsSound n d
  unfolding initialize_client request_stop shutdown_joined drain_events
  Step-IsSound n _ _ (work c) v = worker_step-IsSound n c v
  Step-IsSound n _ _ (throw c item e) v = record {
    orderly = v.orderly;
    stage = subst (OnItem (IsHeld n c.manager.receiver)) (work_of-item c.stage item e) v.stage;
  }
  Step-IsSound n _ _ (start c e) v = record {
    orderly = initialize-IsOrderly cache n c.manager c.files v.orderly;
    stage = elim (Bool-cases (initialize cache c.manager c.files).2) [
      | inl q ↦ rw q tt
      | inr q ↦ rw (q, e) tt
    ];
  }
  Step-IsSound n _ _ (stop c) v = record {
    orderly = record {
      generation = v.orderly.generation;
      queued = tt;
      events = v.orderly.events;
      fresh = λ q. let f = v.orderly.fresh q in (refl, f.1, f.2);
      one = v.orderly.one;
      safe = v.orderly.safe;
    };
    stage = v.stage;
  }
  Step-IsSound n _ _ (join c e) v = record {
    orderly = flags-IsOrderly n c.manager false c.manager.stopping v.orderly;
    stage = v.stage;
  }
  Step-IsSound n _ _ (message c m) v = record {
    orderly = handle_message-IsOrderly n c.manager m v.orderly;
    stage = rw (handle_message-receiver c.manager m) (
        OnItem-map (IsHeld n c.manager.receiver) _ (item_of c.stage)
          (handled-IsHeld n c.manager.receiver _ (handle-IsHandled c.manager.receiver m)) v.stage);
  }
  Step-IsSound n _ _ (drain c) v = record {
    orderly = record {
      generation = v.orderly.generation;
      queued = v.orderly.queued;
      events = tt;
      fresh = λ q. let f = v.orderly.fresh q in (f.0, refl, f.2);
      one = v.orderly.one;
      safe = v.orderly.safe;
    };
    stage = v.stage;
  }

  -- After fewer than 2^64 - 1 resets, in any order of the two threads' steps, whatever the transfer
  -- does and for every script of faults: every event that waits to be drained and every queued item
  -- is of the revision that the present session began with; a session that has not begun has no
  -- event, no queued item and no state, whatever an earlier session's worker still does; every item
  -- that is queued or worked on has a valid description; and a completed manifest is acceptable.
  pub Reach-IsSound :
      (n : ℕ) (c : Client) → n < 2 ^ 64 - 1 → Reach hash cache fetch n c → IsSound n c
  unfolding client_asset_manager reset_session
  Reach-IsSound _ _ small (begin has_backend files) = record {
    orderly = record {
      generation = refl;
      queued = tt;
      events = tt;
      fresh = λ q. (refl, refl, refl);
      one = λ m q. cc;
      safe = record { part = λ q. cc; result = λ m q. cc };
    };
    stage = tt;
  }
  Reach-IsSound _ _ small (step n c d r s) = Step-IsSound n c d s (Reach-IsSound n c small r)
  Reach-IsSound _ _ small (reset n c r) =
      let v = Reach-IsSound n c (omega arith) r in
      record {
        orderly = reset_session-IsOrderly n c.manager small v.orderly;
        stage =
            OnItem-map (IsHeld n c.manager.receiver) _ (item_of c.stage)
              (reset-IsHeld n c.manager.receiver) v.stage;
      }

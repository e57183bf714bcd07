-- ===== src/Client/Manager/Sessions/Stages.antt =====
-- What the stages of the worker hold of the sessions: client/src/assets/manager.cpp.
use custommodels.Base.{
  ℕ, suc, ◌-◌, ◌^◌, ◌<◌, ◌≡◌, refl, sym, ◌∙◌, Bool, true, false, not, ◌||◌, Option, none, some,
  arith, Bool-cases, inl, inr, nat_key,
}
use custommodels.Client.Files.{FileSystem}
use custommodels.Client.Cache
use custommodels.Client.Cache.{
  AssetCache, CacheLookup, hit, miss, lookup, temporary_path_for, remove_temporary, commit_verified,
}
use custommodels.Client.Receiver
use custommodels.Client.Receiver.{ManifestReceiver, ManifestInputResult, is_idle, handle}
use custommodels.Client.Manager.{
  WorkItem, ClientAssetManager, initialize, next_generation, reset_session,
}
use custommodels.Client.Manager.Worker.{Stage, failing, work_of, item_of}
use custommodels.Client.Manager.Received.{IsHandled}
use custommodels.Client.Manager.Sessions.{IsOrderly, IsHeld}

-- The work item, if any, has the property.
abbrev pub OnItem : (WorkItem → Type 0) → Option WorkItem → Type 0
OnItem P none = Unit {0}
OnItem P (some w) = P w

pub OnItem-map :
    (P Q : WorkItem → Type 0) (o : Option WorkItem)
    → ((w : WorkItem) → P w → Q w)
    → OnItem P o
    → OnItem Q o
OnItem-map P Q none f h = tt
OnItem-map P Q (some w) f h = f w h

-- The work item of a stage, if any, is of this session or of an earlier one.
abbrev pub IsStage : ℕ → ManifestReceiver → Stage → Type 0
IsStage n r s = OnItem (IsHeld n r) (item_of s)

pub work_of-item : (s : Stage) (w : WorkItem) → work_of s ≡ some w → item_of s ≡ some w
work_of-item (failing v reason) w e = cc
work_of-item other w e = e

pub flags-IsOrderly :
    (n : ℕ) (m : ClientAssetManager) (initialized stopping : Bool)
    → IsOrderly n m
    → IsOrderly n (record m { initialized = initialized; stopping = stopping })
flags-IsOrderly n m initialized stopping v = record {
  generation = v.generation;
  queued = v.queued;
  events = v.events;
  fresh = v.fresh;
  one = v.one;
  safe = v.safe;
}

pub initialize-IsOrderly :
    (cache : AssetCache) (n : ℕ) (m : ClientAssetManager) (fs : FileSystem)
    → IsOrderly n m
    → IsOrderly n (initialize cache m fs).0
unfolding initialize
initialize-IsOrderly cache n m fs v = elim (Bool-cases (m.initialized || not m.has_backend)) [
  | inl e ↦ simp e v
  | inr e ↦ elim (Bool-cases (not (Cache.initialize cache fs).1)) [
    | inl q ↦ simp (e, q) v
    | inr q ↦ simp (e, q) (flags-IsOrderly n m true false v)
  ]
]

-- What the worker holds stays held when a message moves the receiver.
pub handled-IsHeld :
    (n : ℕ) (r : ManifestReceiver) (next : ManifestReceiver × ManifestInputResult)
    → IsHandled r next
    → (w : WorkItem) → IsHeld n r w
    → IsHeld n next.0 w
handled-IsHeld n r next moved w h = record {
  earlier = h.earlier;
  valid = h.valid;
  current = λ e. let now = h.current e in (moved.begun now.0, now.1 ∙ sym (moved.kept now.0));
}

-- A reset makes every work item one of an earlier session.
pub reset-IsHeld :
    (n : ℕ) (r : ManifestReceiver) (w : WorkItem)
    → IsHeld n r w
    → IsHeld (suc n) (Receiver.reset r) w
reset-IsHeld n r w h = record {
  earlier = omega (arith, h.earlier);
  valid = h.valid;
  current = λ e. absurd (omega (arith, h.earlier));
}

pub reset_session-IsOrderly :
    (n : ℕ) (m : ClientAssetManager)
    → suc n < 2 ^ 64 - 1
    → IsOrderly n m
    → IsOrderly (suc n) (reset_session m)
unfolding reset_session next_generation Receiver.reset
reset_session-IsOrderly n m small v = record {
  generation = ground (arith, v.generation, small);
  queued = tt;
  events = tt;
  fresh = λ q. (refl, refl, refl);
  one = λ m q. cc;
  safe = record { part = λ q. cc; result = λ m q. cc };
}

-- ===== src/Client/Manager/Listed.antt =====
-- The worker's assets stand in the manifest of the session: client/src/assets/manager.cpp.
pub mod Kept
use custommodels.Base.{
  ℕ, suc, ◌+◌, ◌-◌, ◌^◌, ◌<◌, ◌≡◌, refl, sym, ◌∙◌, ap, subst, Bool, true, false, not, ◌||◌, List,
  [], ◌∷◌, Option, none, some, ◌==◌, ltb, arith, All, All-append, Bool-cases, Option-cases, inl,
  inr, has, find, nat_key, bytes_key,
}
use mathlib.Core.List.{Mem, mem-cons_self, mem-cons_of_mem}
use custommodels.Assets.{
  AssetDescription, Manifest, is_asset_description_valid, serialized_asset_bytes,
}
use custommodels.Protocol.Types.{
  Message, ManifestBegin, ManifestAsset, ManifestEnd, manifest_begin, manifest_asset, manifest_end,
}
use custommodels.Client.Receiver.{
  ManifestReceiver, ManifestInputResult, accepted, ignored, invalid_order, invalid_manifest,
  is_idle, is_receiving, handle, handle_begin, handle_asset, handle_end, total_sizes,
}
use custommodels.Client.Manager.{
  WorkItem, ClientAssetManager, queue_asset, queue_assets, is_in_progress, note_accepted,
  note_complete, note_result, handle_message,
}
use custommodels.Client.Manager.Sessions.{queue_asset-receiver}

-- A receiver that holds a completed manifest takes no further one in its session.
abbrev pub IsDone : ManifestReceiver → Type 0
IsDone r = (m : Manifest) → r.completed ≡ some m → (is_idle r.state || is_receiving r.state) ≡ false

-- A message keeps that, and the manifest.
abbrev pub IsKept : ManifestReceiver → ManifestReceiver → Type 0
IsKept r next = IsDone next × ((m : Manifest) → r.completed ≡ some m → next.completed ≡ some m)

handle_begin-IsKept :
    (r : ManifestReceiver) (b : ManifestBegin) → IsDone r → IsKept r (handle_begin r b).0
unfolding handle_begin
handle_begin-IsKept r b d = (λ m q. ground (arith, d m), λ m q. ground (arith, d m q))

handle_asset-IsKept :
    (r : ManifestReceiver) (item : ManifestAsset) → IsDone r → IsKept r (handle_asset r item).0
unfolding handle_asset
handle_asset-IsKept r item d = (λ m q. ground (arith, d m), λ m q. ground (arith, d m q))

handle_end-IsKept :
    (r : ManifestReceiver) (end : ManifestEnd) → IsDone r → IsKept r (handle_end r end).0
unfolding handle_end
handle_end-IsKept r end d = (λ m q. ground (arith, d m), λ m q. ground (arith, d m q))

pub handle-IsKept : (r : ManifestReceiver) (m : Message) → IsDone r → IsKept r (handle r m).0
unfolding handle
handle-IsKept r (manifest_begin b) d = handle_begin-IsKept r b d
handle-IsKept r (manifest_asset item) d = handle_asset-IsKept r item d
handle-IsKept r (manifest_end end) d = handle_end-IsKept r end d
handle-IsKept r other d = (d, λ m q. q)

-- The asset of the work item stands in the completed manifest.
abbrev pub IsListed : ManifestReceiver → WorkItem → Type 0
IsListed r w = (m : Manifest) × (r.completed ≡ some m) × Mem w.asset m.assets

All-Mem :
    (full l : List AssetDescription)
    → ((a : AssetDescription) → Mem a l → Mem a full)
    → All (λ a. Mem a full) l
All-Mem full [] f = tt
All-Mem full (a ∷ l) f = (f a mem-cons_self, All-Mem full l (λ b m. f b (mem-cons_of_mem a m)))

pub All-kept :
    (r next : ManifestReceiver) (queue : List WorkItem)
    → ((m : Manifest) → r.completed ≡ some m → next.completed ≡ some m)
    → All (IsListed r) queue
    → All (IsListed next) queue
All-kept r next [] f h = tt
All-kept r next (w ∷ queue) f ((m, done, listed), rest) =
    ((m, f m done, listed), All-kept r next queue f rest)

-- Every queued asset stands in the completed manifest.
abbrev pub IsFilled : ClientAssetManager → Type 0
IsFilled m = All (IsListed m.receiver) m.queue

queue_asset-IsFilled :
    (m : ClientAssetManager) (revision : ℕ) (a : AssetDescription) (full : Manifest)
    → m.receiver.completed ≡ some full
    → Mem a full.assets
    → IsFilled m
    → IsFilled (queue_asset m revision a)
unfolding queue_asset
queue_asset-IsFilled m revision a full done listed h =
    elim (Bool-cases (is_in_progress (find a.asset_id m.states))) [
      | inl e ↦ rw e h
      | inr e ↦ rw e (All-append (IsListed m.receiver) m.queue _ h ((full, done, listed), tt))
    ]

queue_assets-IsFilled :
    (m : ClientAssetManager) (revision : ℕ) (l : List AssetDescription) (full : Manifest)
    → m.receiver.completed ≡ some full
    → All (λ a. Mem a full.assets) l
    → IsFilled m
    → IsFilled (queue_assets m revision l)
unfolding queue_assets
queue_assets-IsFilled m revision [] full done listed h = h
queue_assets-IsFilled m revision (a ∷ l) full done listed h =
    queue_assets-IsFilled (queue_asset m revision a) revision l full
      (ap (λ (r : ManifestReceiver). r.completed) (queue_asset-receiver m revision a) ∙ done)
      listed.1 (queue_asset-IsFilled m revision a full done listed.0 h)

note_complete-IsFilled :
    (m : ClientAssetManager) (o : Option Manifest)
    → m.receiver.completed ≡ o
    → IsFilled m
    → IsFilled (note_complete m o)
unfolding note_complete
note_complete-IsFilled m none done h = h
note_complete-IsFilled m (some manifest) done h =
    queue_assets-IsFilled _ manifest.revision manifest.assets manifest done
      (All-Mem manifest.assets manifest.assets (λ a q. q)) h

note_accepted-IsFilled :
    (m : ClientAssetManager) (received : Message) → IsFilled m → IsFilled (note_accepted m received)
unfolding note_accepted
note_accepted-IsFilled m (manifest_begin b) h = h
note_accepted-IsFilled m other h = h

note_result-IsFilled :
    (m : ClientAssetManager) (received : Message) (result : ManifestInputResult)
    → IsFilled m
    → IsFilled (note_result m received result)
unfolding note_result
note_result-IsFilled m received accepted h = note_accepted-IsFilled m received h
note_result-IsFilled m received ManifestInputResult.complete h = note_complete-IsFilled m _ refl h
note_result-IsFilled m received ignored h = h
note_result-IsFilled m received invalid_order h = h
note_result-IsFilled m received invalid_manifest h = h

pub handle_message-IsFilled :
    (m : ClientAssetManager) (received : Message)
    → IsDone m.receiver
    → IsFilled m
    → IsFilled (handle_message m received).0
unfolding handle_message
handle_message-IsFilled m received d h =
    let r = handle m.receiver received in
    note_result-IsFilled (record m { receiver = r.0 }) received r.1
      (All-kept m.receiver r.0 m.queue (handle-IsKept m.receiver received d).1 h)

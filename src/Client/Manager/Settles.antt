-- ===== src/Client/Manager/Settles.antt =====
-- The worker ends with every asset that it takes: client/src/assets/manager.cpp.
use custommodels.Base.{
  ℕ, zero, suc, ◌≤◌, ◌≡◌, refl, ◌⊎◌, true, ◌==◌, length, arith, Bool-cases, inl, inr, same_bytes,
  nat_key, find-put, ==→refl,
}
use custommodels.Protocol.Types.{AssetErrorReason}
use custommodels.Assets.{Bytes}
use custommodels.Client.Files.{FileSystem, next}
use custommodels.Client.Files.Outcomes.{file_size-cases, sha256_file-cases}
use custommodels.Client.Cache.{
  AssetCache, CacheLookup, hit, miss, lookup, temporary_path_for, remove_temporary, commit_verified,
}
use custommodels.Client.Manager.{
  AssetState, ClientAssetEventKind, WorkItem, ClientAssetManager, is_fetched, set_state, fail,
  get_state, is_current_generation,
}
use custommodels.Client.Manager.Worker.{
  Fetch, Stage, waiting, taken, looking, hitting, starting, fetching, checking, measuring,
  confirming, committing, finishing, failing, Client, look, download, measure, commit, run_stage,
  worker_step,
}

-- The asset is ready or has failed.
abbrev pub IsSettled : AssetState → Type 0
IsSettled s = (s ≡ AssetState.ready) ⊎ (s ≡ AssetState.failed)

module _ (hash : Bytes → Bytes) (cache : AssetCache) (fetch : Fetch) where
  -- That many steps of the worker.
  abbrev pub worker_steps : ℕ → Client → Client
  worker_steps zero c = c
  worker_steps (suc k) c = worker_steps k (worker_step hash cache fetch c)

  -- Within `k` steps the worker is back at its wait, and the asset is settled.
  abbrev pub SettlesIn : ℕ → Client → ℕ → Type 0
  SettlesIn k c id =
      (j : ℕ) × (j ≤ k)
      × ((worker_steps j c).stage ≡ waiting)
      × IsSettled (get_state (worker_steps j c).manager id)

  later :
      (k : ℕ) (c : Client) (id : ℕ)
      → SettlesIn k (worker_step hash cache fetch c) id
      → SettlesIn (suc k) c id
  later k c id (j, bound, stage, settled) = (suc j, omega (arith, bound), stage, settled)

  set_state-now :
      (m : ClientAssetManager) (w : WorkItem) (state : AssetState) (event : ClientAssetEventKind)
      (reason : AssetErrorReason)
      → w.generation ≡ m.generation
      → (get_state (set_state m w state event reason) w.asset.asset_id ≡ state)
        × (w.generation ≡ (set_state m w state event reason).generation)
  unfolding set_state get_state
  set_state-now m w state event reason e = (
    ground (
      arith,
      e,
      find-put w.asset.asset_id w.asset.asset_id state m.states,
      ==→refl w.asset.asset_id,
    ),
    ground (arith, e),
  )

  module _ (w : WorkItem) where
    -- A client at a stage of the item's.
    abbrev at : ClientAssetManager → FileSystem → Stage → Client
    at m fs s = record { manager = m; files = fs; stage = s }

    abbrev Settles : ℕ → (WorkItem → Stage) → Type 0
    Settles k s =
        (m : ClientAssetManager) (fs : FileSystem)
        → w.generation ≡ m.generation
        → SettlesIn k (at m fs (s w)) w.asset.asset_id

    settle_failing : (reason : AssetErrorReason) → Settles 1 (λ v. failing v reason)
    unfolding worker_step run_stage fail
    settle_failing reason m fs e = (1, omega arith, refl, inr (set_state-now m w _ _ reason e).0)

    settle_finishing : Settles 1 finishing
    unfolding worker_step run_stage
    settle_finishing m fs e = (1, omega arith, refl, inl (set_state-now m w _ _ _ e).0)

    settle_hitting : Settles 2 hitting
    unfolding worker_step run_stage
    settle_hitting m fs e = later 1 _ _ (settle_finishing _ fs (set_state-now m w _ _ _ e).1)

    one_more : (k j : ℕ) (c : Client) (id : ℕ) → j ≤ k → SettlesIn j c id → SettlesIn k c id
    one_more k j c id le (i, bound, stage, settled) = (i, omega (arith, bound, le), stage, settled)

    settle_committing : Settles 2 committing
    unfolding worker_step run_stage commit
    settle_committing m fs e =
        later 1 _ _
          (elim (Bool-cases
            (commit_verified hash cache fs w.asset (temporary_path_for cache w.asset)).1) [
              | inl q ↦ rw q (settle_finishing m _ e)
              | inr q ↦ rw q (settle_failing _ m _ e)
            ])

    settle_confirming : Settles 3 confirming
    unfolding worker_step run_stage
    settle_confirming m fs e = later 2 _ _ (settle_committing _ fs (set_state-now m w _ _ _ e).1)

    failed_in :
        (k : ℕ) (reason : AssetErrorReason) (m : ClientAssetManager) (fs : FileSystem)
        → w.generation ≡ m.generation
        → SettlesIn (suc k) (at m fs (failing w reason)) w.asset.asset_id
    failed_in k reason m fs e = one_more (suc k) 1 _ _ (omega arith) (settle_failing reason m fs e)

    -- A measurement confirms the file, or it fails.
    measure-stage :
        (fs : FileSystem)
        → ((measure hash cache fetch fs w).1 ≡ confirming w)
          ⊎ ((reason : AssetErrorReason) × ((measure hash cache fetch fs w).1 ≡ failing w reason))
    unfolding measure
    measure-stage fs =
        let p = temporary_path_for cache w.asset in
        elim (file_size-cases fs p) [
          | inl q ↦ inr (AssetErrorReason.disk_failure, rw (measure, q) refl)
          | inr (content, held, q) ↦ elim (Bool-cases (length content == w.asset.file_size)) [
            | inr other ↦ inr (AssetErrorReason.size_mismatch, rw (measure, q, other) refl)
            | inl size ↦ elim (sha256_file-cases (next fs) p hash) [
              | inl d ↦
                  inr (AssetErrorReason.disk_failure, rw (measure, q, measure, q, size, d) refl)
              | inr (same, also, d) ↦ elim (Bool-cases (same_bytes (hash same) w.asset.sha256)) [
                | inr other ↦ inr (
                  AssetErrorReason.hash_mismatch,
                  rw (measure, q, measure, q, size, d, measure, other) refl,
                )
                | inl equal ↦ inl (rw (measure, q, measure, q, size, d, measure, equal) refl)
              ]
            ]
          ]
        ]

    settle_measuring : Settles 4 measuring
    unfolding worker_step run_stage
    settle_measuring m fs e = later 3 _ _ (elim (measure-stage fs) [
      | inl q ↦ rw q (settle_confirming m _ e)
      | inr (reason, q) ↦ rw q (failed_in 2 reason m _ e)
    ])

    settle_checking : Settles 5 checking
    unfolding worker_step run_stage
    settle_checking m fs e = later 4 _ _ (settle_measuring _ fs (set_state-now m w _ _ _ e).1)

    settle_fetching : Settles 6 fetching
    unfolding worker_step run_stage download
    settle_fetching m fs e = later 5 _ _ (
        let p = temporary_path_for cache w.asset in
        let r = fetch (remove_temporary fs p) w.asset.download_url p w.asset.file_size in
        elim (Bool-cases (is_fetched r.1)) [
          | inr q ↦ rw q (failed_in 4 _ m _ e)
          | inl q ↦ elim (Bool-cases (r.1.bytes_received == w.asset.file_size)) [
            | inl same ↦ rw (q, same) (settle_checking m _ e)
            | inr other ↦ rw (q, other) (failed_in 4 _ m _ e)
          ]
        ])

    settle_starting : Settles 7 starting
    unfolding worker_step run_stage
    settle_starting m fs e = later 6 _ _ (settle_fetching _ fs (set_state-now m w _ _ _ e).1)

    settle_looking : Settles 8 looking
    unfolding worker_step run_stage look
    settle_looking m fs e = later 7 _ _ (answered (lookup hash cache fs w.asset))
      where
        answered :
            (r : FileSystem × CacheLookup)
            → SettlesIn 7
                (at m r.0 (elim (r.1) [
                  | hit ↦ hitting w
                  | miss ↦ starting w
                  | CacheLookup.disk_failure ↦ failing w AssetErrorReason.disk_failure
                ]))
                w.asset.asset_id
        answered (looked, hit) = one_more 7 2 _ _ (omega arith) (settle_hitting m looked e)
        answered (looked, miss) = settle_starting m looked e
        answered (looked, CacheLookup.disk_failure) = failed_in 6 _ m looked e

    -- A work item of the present session that the worker has taken, with no stop requested and no
    -- reset in between, is processed in at most nine parts, whatever the transfer and the disk do:
    -- then the worker is back at its wait, and the asset is ready or has failed.
    pub taken-SettlesIn :
        (m : ClientAssetManager) (fs : FileSystem)
        → is_current_generation m w.generation ≡ true
        → SettlesIn 9 (record { manager = m; files = fs; stage = taken w }) w.asset.asset_id
    unfolding worker_step run_stage is_current_generation
    taken-SettlesIn m fs e =
        let same : w.generation ≡ m.generation = ground (arith, e) in
        later 8 _ _ (rw e (settle_looking m fs same))

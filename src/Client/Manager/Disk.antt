-- ===== src/Client/Manager/Disk.antt =====
-- What the worker knows of the disk at each of its stages: client/src/assets/manager.cpp.
use custommodels.Base.{
  ℕ, ◌≡◌, List, [], ◌∷◌, ◌==◌, length, arith, Bool-cases, inl, inr, same_bytes, same_bytes→eq,
  nat_key,
}
use custommodels.Assets.{Bytes}
use custommodels.Protocol.Types.{AssetErrorReason}
use custommodels.Client.Files.{FileSystem, HasFile, next}
use custommodels.Client.Files.Outcomes.{file_size-cases, sha256_file-cases}
use custommodels.Client.Cache.{
  AssetCache, CacheLookup, hit, miss, lookup, temporary_path_for, remove_temporary, commit_verified,
}
use custommodels.Client.Cache.Answers.{IsWanted, IsCached, IsAnswer, lookup-IsAnswer}
use custommodels.Client.Cache.Commit.{commit_verified-IsCached, temporary-apart}
use custommodels.Client.Manager.{
  WorkItem, ClientAssetManager, is_fetched, is_current_generation, initialize,
}
use custommodels.Client.Manager.Worker.{
  Fetch, Stage, absent, waiting, taken, looking, hitting, starting, fetching, checking, measuring,
  confirming, committing, finishing, failing, Client, look, download, measure, commit, take_work,
  take_front, run_stage, worker_step, Step, work, throw, start, stop, join, message, drain, Reach,
  begin, step, reset, initialize_client,
}

module _ (hash : Bytes → Bytes) (cache : AssetCache) (fetch : Fetch) where
  -- What stands on the disk for a stage: the cached file in front of the calls that report
  -- `Ready`, and the verified temporary file in front of the commit.
  abbrev pub HoldsAt : FileSystem × Stage → Type 0
  HoldsAt (fs, hitting w) = IsCached hash cache fs w.asset
  HoldsAt (fs, finishing w) = IsCached hash cache fs w.asset
  HoldsAt (fs, confirming w) =
      (content : Bytes) × HasFile fs (temporary_path_for cache w.asset) content
      × IsWanted hash cache w.asset content
  HoldsAt (fs, committing w) =
      (content : Bytes) × HasFile fs (temporary_path_for cache w.asset) content
      × IsWanted hash cache w.asset content
  HoldsAt (fs, other) = Unit {0}

  abbrev pub Holds : Client → Type 0
  Holds c = HoldsAt (c.files, c.stage)

  look-HoldsAt : (fs : FileSystem) (w : WorkItem) → HoldsAt (look hash cache fetch fs w)
  unfolding look
  look-HoldsAt fs w =
      answered (lookup hash cache fs w.asset) (lookup-IsAnswer hash cache fs w.asset)
    where
      answered :
          (r : FileSystem × CacheLookup)
          → IsAnswer hash cache fs w.asset r
          → HoldsAt (
            r.0,
            elim (r.1) [
              | hit ↦ hitting w
              | miss ↦ starting w
              | CacheLookup.disk_failure ↦ failing w AssetErrorReason.disk_failure
            ],
          )
      answered (looked, hit) h = h.0
      answered (looked, miss) h = tt
      answered (looked, CacheLookup.disk_failure) h = tt

  download-HoldsAt : (fs : FileSystem) (w : WorkItem) → HoldsAt (download hash cache fetch fs w)
  unfolding download
  download-HoldsAt fs w =
      let p = temporary_path_for cache w.asset in
      let r = fetch (remove_temporary fs p) w.asset.download_url p w.asset.file_size in
      elim (Bool-cases (is_fetched r.1)) [
        | inr e ↦ rw e tt
        | inl e ↦ elim (Bool-cases (r.1.bytes_received == w.asset.file_size)) [
          | inl same ↦ rw (e, same) tt
          | inr other ↦ rw (e, other) tt
        ]
      ]

  measure-HoldsAt : (fs : FileSystem) (w : WorkItem) → HoldsAt (measure hash cache fetch fs w)
  unfolding measure
  measure-HoldsAt fs w =
      let p = temporary_path_for cache w.asset in
      elim (file_size-cases fs p) [
        | inl e ↦ rw (measure, e) tt
        | inr (content, held, e) ↦ elim (Bool-cases (length content == w.asset.file_size)) [
          | inr other ↦ rw (measure, e, measure, e, other) tt
          | inl size ↦ elim (sha256_file-cases (next fs) p hash) [
            | inl d ↦ rw (measure, e, measure, e, size, d) tt
            | inr (same, also, d) ↦ elim (Bool-cases (same_bytes (hash same) w.asset.sha256)) [
              | inr other ↦ rw (measure, e, measure, e, size, d, measure, other) tt
              | inl equal ↦
                  let one : content ≡ same = cc in
                  rw (measure, e, measure, e, size, d, measure, equal, e, d)
                    (
                      same,
                      also,
                      (ground (arith, one, size), same_bytes→eq (hash same) w.asset.sha256 equal),
                    )
            ]
          ]
        ]
      ]

  commit-HoldsAt :
      (fs : FileSystem) (w : WorkItem)
      → HoldsAt (fs, committing w)
      → HoldsAt (commit hash cache fetch fs w)
  unfolding commit
  commit-HoldsAt fs w (content, held, wanted) =
      let p = temporary_path_for cache w.asset in
      let safe =
        commit_verified-IsCached hash cache fs w.asset p content held wanted
          (temporary-apart cache w.asset w.asset) in
      elim (Bool-cases (commit_verified hash cache fs w.asset p).1) [
        | inl q ↦ rw q (safe q)
        | inr q ↦ rw q tt
      ]

  take_front-HoldsAt :
      (m : ClientAssetManager) (fs : FileSystem) (q : List WorkItem)
      → HoldsAt (fs, (take_front m q).1)
  take_front-HoldsAt m fs [] = tt
  take_front-HoldsAt m fs (w ∷ rest) = tt

  take_work-HoldsAt : (m : ClientAssetManager) (fs : FileSystem) → HoldsAt (fs, (take_work m).1)
  unfolding take_work
  take_work-HoldsAt m fs = elim (Bool-cases m.stopping) [
    | inl e ↦ rw e tt
    | inr e ↦ rw e (take_front-HoldsAt _ fs m.queue)
  ]

  worker_step-Holds : (c : Client) → Holds c → Holds (worker_step hash cache fetch c)
  unfolding worker_step run_stage
  worker_step-Holds c h = ran c.stage h
    where
      ran : (s : Stage) → HoldsAt (c.files, s) → Holds (run_stage hash cache fetch c s)
      ran absent h = tt
      ran waiting h = take_work-HoldsAt c.manager c.files
      ran (taken w) h = elim (Bool-cases (is_current_generation c.manager w.generation)) [
        | inl e ↦ rw e tt
        | inr e ↦ rw e tt
      ]
      ran (looking w) h = look-HoldsAt c.files w
      ran (hitting w) h = h
      ran (starting w) h = tt
      ran (fetching w) h = download-HoldsAt c.files w
      ran (checking w) h = tt
      ran (measuring w) h = measure-HoldsAt c.files w
      ran (confirming w) h = h
      ran (committing w) h = commit-HoldsAt c.files w h
      ran (finishing w) h = tt
      ran (failing w reason) h = tt

  -- A step that does not run the worker keeps what is known.
  pub Step-Holds : (c d : Client) → Step hash cache fetch c d → Holds c → Holds d
  unfolding initialize_client
  Step-Holds _ _ (work c) h = worker_step-Holds c h
  Step-Holds _ _ (throw c item e) h = tt
  Step-Holds _ _ (start c e) h = elim (Bool-cases (initialize cache c.manager c.files).2) [
    | inl q ↦ rw q tt
    | inr q ↦ rw (q, e) tt
  ]
  Step-Holds _ _ (stop c) h = h
  Step-Holds _ _ (join c e) h = h
  Step-Holds _ _ (message c m) h = h
  Step-Holds _ _ (drain c) h = h

  pub Reach-Holds : (n : ℕ) (c : Client) → Reach hash cache fetch n c → Holds c
  Reach-Holds _ _ (begin has_backend files) = tt
  Reach-Holds _ _ (step n c d r s) = Step-Holds c d s (Reach-Holds n c r)
  Reach-Holds _ _ (reset m c r) = Reach-Holds m c r

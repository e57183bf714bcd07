-- ===== src/Client/Manager/Worker.antt =====
-- The worker of the asset manager: `WorkerLoop` and `Process` of client/src/assets/manager.cpp,
-- cut where the mutex is taken, so that the main thread's operations come between any two parts.
use custommodels.Base.{
  ℕ, ◌≡◌, Bool, not, List, [], ◌∷◌, Option, none, some, suc, ◌==◌, if◌then◌else◌, same_bytes,
}
use custommodels.Assets.{Bytes}
use custommodels.Protocol.Types.{
  Message, AssetErrorReason, size_mismatch, hash_mismatch, disk_failure, internal_error,
}
use custommodels.Client.Files.{FilePath, FileSystem, file_size, sha256_file}
use custommodels.Client.Cache.{
  AssetCache, CacheLookup, hit, miss, lookup, temporary_path_for, remove_temporary, commit_verified,
}
use custommodels.Client.Manager.{
  AssetState, ClientAssetEventKind, FetchResult, is_fetched, map_fetch_error, WorkItem,
  ClientAssetManager, client_asset_manager, initialize, request_stop, shutdown_joined,
  reset_session, handle_message, drain_events, set_state, fail, is_current_generation,
}

-- `FetchBackend::Fetch` with its options: it acts on the disk and answers.
abbrev pub Fetch : Type 0
Fetch = FileSystem → Bytes → FilePath → ℕ → FileSystem × FetchResult

-- Where the worker stands: each stage is in front of the next part of `WorkerLoop` or `Process`.
pub data Stage : Type 0 where
  -- There is no thread: none was started, or `WorkerLoop` has returned.
  absent : Stage
  -- At the wait for work.
  waiting : Stage
  -- In front of `IsCurrentGeneration`, `Lookup` and the two calls of `SetState` after a hit.
  taken looking hitting : WorkItem → Stage
  -- In front of the states of a download, what it does between them, and the last `Ready`.
  starting fetching checking measuring confirming committing finishing : WorkItem → Stage
  failing : WorkItem → AssetErrorReason → Stage

-- The work item of a stage.
abbrev pub item_of : Stage → Option WorkItem
item_of absent = none
item_of waiting = none
item_of (taken work) = some work
item_of (looking work) = some work
item_of (hitting work) = some work
item_of (starting work) = some work
item_of (fetching work) = some work
item_of (checking work) = some work
item_of (measuring work) = some work
item_of (confirming work) = some work
item_of (committing work) = some work
item_of (finishing work) = some work
item_of (failing work reason) = some work

-- The work item of a stage inside the `try` of `Process`.
abbrev pub work_of : Stage → Option WorkItem
work_of (failing work reason) = none
work_of other = item_of other

pub record Client : Type 0 where
  pub manager : ClientAssetManager
  pub files : FileSystem
  pub stage : Stage

-- The work item at the front; an empty queue blocks.
abbrev pub take_front : ClientAssetManager → List WorkItem → ClientAssetManager × Stage
take_front m [] = (m, waiting)
take_front m (work ∷ rest) = (record m { queue = rest }, taken work)

unfoldable pub take_work : ClientAssetManager → ClientAssetManager × Stage
take_work m = if m.stopping then (m, absent) else take_front m m.queue

-- `RemoveTemporary` and the failure after it.
abbrev give_up : AssetCache → WorkItem → FileSystem → AssetErrorReason → FileSystem × Stage
give_up cache work fs reason =
    (remove_temporary fs (temporary_path_for cache work.asset), failing work reason)

module _ (hash : Bytes → Bytes) (cache : AssetCache) (fetch : Fetch) where
  unfoldable pub look : FileSystem → WorkItem → FileSystem × Stage
  look fs work =
      let (looked, answer) = lookup hash cache fs work.asset in
      (
        looked,
        elim answer [
          | hit ↦ hitting work
          | miss ↦ starting work
          | CacheLookup.disk_failure ↦ failing work disk_failure
        ],
      )

  unfoldable pub download : FileSystem → WorkItem → FileSystem × Stage
  download fs work =
      let path = temporary_path_for cache work.asset in
      let (loaded, fetched) =
        fetch (remove_temporary fs path) work.asset.download_url path work.asset.file_size in
      if not (is_fetched fetched)
      then give_up cache work loaded (map_fetch_error fetched.error)
      else if not (fetched.bytes_received == work.asset.file_size)
      then give_up cache work loaded size_mismatch
      else (loaded, checking work)

  -- The size and the digest of the temporary file.
  unfoldable pub measure : FileSystem → WorkItem → FileSystem × Stage
  measure fs work =
      let path = temporary_path_for cache work.asset in
      let (sized, size) = file_size fs path in
      elim size [
        | none ↦ give_up cache work sized disk_failure
        | some n ↦
            if not (n == work.asset.file_size)
            then give_up cache work sized size_mismatch
            else let (read, digest) = sha256_file hash sized path in
              elim digest [
                | none ↦ give_up cache work read disk_failure
                | some d ↦
                    if not (same_bytes d work.asset.sha256)
                    then give_up cache work read hash_mismatch
                    else (read, confirming work)
              ]
      ]

  unfoldable pub commit : FileSystem → WorkItem → FileSystem × Stage
  commit fs work =
      let path = temporary_path_for cache work.asset in
      let (committed, done) = commit_verified hash cache fs work.asset path in
      if not done then give_up cache work committed disk_failure else (committed, finishing work)

  -- A part of `Process` that acts on the disk alone.
  abbrev on_disk : Client → FileSystem × Stage → Client
  on_disk c (files, stage) = record c { files = files; stage = stage }

  -- A call of `SetState`, and the stage behind it.
  abbrev marked : Client → WorkItem → AssetState → ClientAssetEventKind → Stage → Client
  marked c work state event stage = record c {
    manager = set_state c.manager work state event internal_error;
    stage = stage;
  }

  unfoldable pub run_stage : Client → Stage → Client
  unfolding look download measure commit take_work
  run_stage c absent = record c { stage = absent }
  run_stage c waiting =
      let (manager, stage) = take_work c.manager in record c { manager = manager; stage = stage }
  run_stage c (taken work) = record c {
    stage = if is_current_generation c.manager work.generation then looking work else waiting;
  }
  run_stage c (looking work) = on_disk c (look c.files work)
  run_stage c (hitting work) =
      marked c work AssetState.ready ClientAssetEventKind.cache_hit (finishing work)
  run_stage c (starting work) =
      marked c work AssetState.downloading ClientAssetEventKind.downloading (fetching work)
  run_stage c (fetching work) = on_disk c (download c.files work)
  run_stage c (checking work) =
      marked c work AssetState.verifying ClientAssetEventKind.verifying (measuring work)
  run_stage c (measuring work) = on_disk c (measure c.files work)
  run_stage c (confirming work) =
      marked c work AssetState.verifying ClientAssetEventKind.verified (committing work)
  run_stage c (committing work) = on_disk c (commit c.files work)
  run_stage c (finishing work) = marked c work AssetState.ready ClientAssetEventKind.ready waiting
  run_stage c (failing work reason) = record c {
    manager = fail c.manager work reason;
    stage = waiting;
  }

  -- The worker's next part.
  unfoldable pub worker_step : Client → Client
  unfolding run_stage
  worker_step c = run_stage c c.stage

  -- `Initialize`, which starts the worker where there is none.
  unfoldable pub initialize_client : Client → Client
  initialize_client c =
      let (manager, files, started) = initialize cache c.manager c.files in
      record { manager = manager; files = files; stage = if started then waiting else c.stage }

  -- One step of either thread. `Shutdown` is `stop`, steps of the worker, and `join`.
  pub data Step : Client → Client → Type 0 where
    work : (c : Client) → Step c (worker_step c)
    -- An exception inside `Process` reaches its handler.
    throw :
        (c : Client) (item : WorkItem)
        → work_of c.stage ≡ some item
        → Step c (record c { stage = failing item internal_error })
    start : (c : Client) → c.stage ≡ absent → Step c (initialize_client c)
    stop : (c : Client) → Step c (record c { manager = request_stop c.manager })
    join :
        (c : Client) → c.stage ≡ absent → Step c (record c { manager = shutdown_joined c.manager })
    message :
        (c : Client) (m : Message) → Step c (record c { manager = (handle_message c.manager m).0 })
    drain : (c : Client) → Step c (record c { manager = (drain_events c.manager).0 })

  -- The states that a client reaches, with the number of its calls of `ResetSession`.
  pub data Reach : ℕ → Client → Type 0 where
    begin :
        (has_backend : Bool) (files : FileSystem)
        → Reach 0
            (record { manager = client_asset_manager has_backend; files = files; stage = absent })
    step : (n : ℕ) (c d : Client) → Reach n c → Step c d → Reach n d
    reset :
        (n : ℕ) (c : Client)
        → Reach n c
        → Reach (suc n) (record c { manager = reset_session c.manager })

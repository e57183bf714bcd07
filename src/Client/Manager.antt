-- ===== src/Client/Manager.antt =====
-- The client's asset manager: `ClientAssetManager` of
-- client/include/custommodel/assets/manager.hpp and client/src/assets/manager.cpp, with the types
-- of client/include/custommodel/assets/fetch.hpp. Every operation here runs under the mutex.
pub mod Worker
pub mod Disk
pub mod Ready
pub mod Received
pub mod Sessions
pub mod Settles
pub mod Listed
use custommodels.Base.{
  ℕ, ◌+◌, ◌%◌, ◌^◌, Bool, true, false, not, ◌||◌, ◌&&◌, List, [], ◌∷◌, ◌++◌, Option, none, some,
  ◌==◌, if◌then◌else◌, length, find, put, nat_key,
}
use custommodels.Assets.{AssetDescription, Manifest}
use custommodels.Protocol.Types.{Message, AssetErrorReason}
use custommodels.Client.Receiver.{
  ManifestReceiver, ManifestInputResult, accepted, initial_receiver, handle,
}
use custommodels.Client.Receiver
use custommodels.Client.Files.{FilePath, FileSystem}
use custommodels.Client.Cache
use custommodels.Client.Cache.{AssetCache}

pub data AssetState : Type 0 where
  unknown queued downloading verifying ready failed : AssetState

pub data ClientAssetEventKind : Type 0 where
  manifest_begin manifest_complete cache_hit : ClientAssetEventKind
  queued downloading verifying verified ready failed : ClientAssetEventKind

pub record ClientAssetEvent : Type 0 where
  pub kind : ClientAssetEventKind
  pub manifest_revision : ℕ
  pub asset_id : ℕ
  pub asset_count : ℕ
  pub error : AssetErrorReason

pub data FetchError : Type 0 where
  no_error unsupported_scheme network_failure timeout : FetchError
  size_mismatch disk_failure internal_error : FetchError

pub record FetchResult : Type 0 where
  pub error : FetchError
  pub bytes_received : ℕ

-- `operator bool`.
abbrev pub is_fetched : FetchResult → Bool
is_fetched r = elim (r.error) [ FetchError.no_error ↦ true | other ↦ false ]

unfoldable pub map_fetch_error : FetchError → AssetErrorReason
map_fetch_error FetchError.unsupported_scheme = AssetErrorReason.unsupported_scheme
map_fetch_error FetchError.network_failure = AssetErrorReason.network_failure
map_fetch_error FetchError.timeout = AssetErrorReason.timeout
map_fetch_error FetchError.size_mismatch = AssetErrorReason.size_mismatch
map_fetch_error FetchError.disk_failure = AssetErrorReason.disk_failure
map_fetch_error FetchError.internal_error = AssetErrorReason.internal_error
map_fetch_error FetchError.no_error = AssetErrorReason.internal_error

pub record WorkItem : Type 0 where
  pub generation : ℕ
  pub manifest_revision : ℕ
  pub asset : AssetDescription

-- The members that the mutex guards; `has_backend` is `fetchBackend_ != nullptr`.
pub record ClientAssetManager : Type 0 where
  pub has_backend : Bool
  pub receiver : ManifestReceiver
  pub queue : List WorkItem
  pub events : List ClientAssetEvent
  pub states : List (ℕ × AssetState)
  pub generation : ℕ
  pub initialized : Bool
  pub stopping : Bool

-- The constructor.
unfoldable pub client_asset_manager : Bool → ClientAssetManager
client_asset_manager has_backend = record {
  has_backend = has_backend;
  receiver = initial_receiver;
  queue = [];
  events = [];
  states = [];
  generation = 1;
  initialized = false;
  stopping = false;
}

-- The state, the disk, and whether a worker was started.
unfoldable pub initialize :
    AssetCache → ClientAssetManager → FileSystem → ClientAssetManager × FileSystem × Bool
initialize cache m fs =
    if m.initialized || not m.has_backend
    then (m, fs, false)
    else let (made, done) = Cache.initialize cache fs in
      if not done
      then (m, made, false)
      else (record m { stopping = false; initialized = true }, made, true)

unfoldable pub request_stop : ClientAssetManager → ClientAssetManager
request_stop m = record m { stopping = true; queue = [] }

-- The end of `Shutdown`, behind the join of the worker.
unfoldable pub shutdown_joined : ClientAssetManager → ClientAssetManager
shutdown_joined m = record m { initialized = false }

-- `++generation_`, a 64-bit number that skips 0.
unfoldable pub next_generation : ℕ → ℕ
next_generation g = if (g + 1) % 2 ^ 64 == 0 then 1 else (g + 1) % 2 ^ 64

unfoldable pub reset_session : ClientAssetManager → ClientAssetManager
reset_session m = record m {
  generation = next_generation m.generation;
  receiver = Receiver.reset m.receiver;
  queue = [];
  events = [];
  states = [];
}

-- `events_.push_back`.
abbrev pub post : ClientAssetEvent → ClientAssetManager → ClientAssetManager
post e m = record m { events = m.events ++ (e ∷ []) }

-- The state is there and is not `Failed`.
abbrev pub is_in_progress : Option AssetState → Bool
is_in_progress none = false
is_in_progress (some AssetState.failed) = false
is_in_progress (some other) = true

unfoldable pub queue_asset : ClientAssetManager → ℕ → AssetDescription → ClientAssetManager
queue_asset m revision asset =
    if is_in_progress (find asset.asset_id m.states)
    then m
    else post
        (record {
          kind = ClientAssetEventKind.queued;
          manifest_revision = revision;
          asset_id = asset.asset_id;
          asset_count = 0;
          error = AssetErrorReason.internal_error;
        })
        (record m {
          states = put asset.asset_id AssetState.queued m.states;
          queue =
              m.queue
              ++ (record { generation = m.generation; manifest_revision = revision; asset = asset }
                  ∷ []);
        })

-- The loop of `QueueManifest`.
unfoldable pub queue_assets : ClientAssetManager → ℕ → List AssetDescription → ClientAssetManager
queue_assets m revision [] = m
queue_assets m revision (asset ∷ assets) =
    queue_assets (queue_asset m revision asset) revision assets

-- What `HandleMessage` does with an accepted message.
unfoldable pub note_accepted : ClientAssetManager → Message → ClientAssetManager
note_accepted m (Message.manifest_begin begin) =
    post
      (record {
        kind = ClientAssetEventKind.manifest_begin;
        manifest_revision = begin.manifest_revision;
        asset_id = 0;
        asset_count = begin.asset_count;
        error = AssetErrorReason.internal_error;
      })
      m
note_accepted m other = m

-- What it does with a manifest that is complete.
unfoldable pub note_complete : ClientAssetManager → Option Manifest → ClientAssetManager
note_complete m none = m
note_complete m (some manifest) =
    queue_assets
      (post
        (record {
          kind = ClientAssetEventKind.manifest_complete;
          manifest_revision = manifest.revision;
          asset_id = 0;
          asset_count = length manifest.assets % 2 ^ 32;
          error = AssetErrorReason.internal_error;
        })
        m)
      manifest.revision manifest.assets

unfoldable pub note_result : ClientAssetManager → Message → ManifestInputResult → ClientAssetManager
unfolding note_accepted note_complete
note_result m message accepted = note_accepted m message
note_result m message ManifestInputResult.complete = note_complete m m.receiver.completed
note_result m message other = m

unfoldable pub handle_message :
    ClientAssetManager → Message → ClientAssetManager × ManifestInputResult
unfolding note_result
handle_message m message =
    let (receiver, result) = handle m.receiver message in
    (note_result (record m { receiver = receiver }) message result, result)

unfoldable pub drain_events : ClientAssetManager → ClientAssetManager × List ClientAssetEvent
drain_events m = (record m { events = [] }, m.events)

unfoldable pub get_state : ClientAssetManager → ℕ → AssetState
get_state m id = elim (find id m.states) [ none ↦ unknown | some state ↦ state ]

-- A work item of an earlier session changes nothing.
unfoldable pub set_state :
    ClientAssetManager
    → WorkItem
    → AssetState
    → ClientAssetEventKind
    → AssetErrorReason
    → ClientAssetManager
set_state m work state event error =
    if not (work.generation == m.generation)
    then m
    else post
        (record {
          kind = event;
          manifest_revision = work.manifest_revision;
          asset_id = work.asset.asset_id;
          asset_count = 0;
          error = error;
        })
        (record m { states = put work.asset.asset_id state m.states })

unfoldable pub fail : ClientAssetManager → WorkItem → AssetErrorReason → ClientAssetManager
unfolding set_state
fail m work reason = set_state m work AssetState.failed ClientAssetEventKind.failed reason

unfoldable pub is_current_generation : ClientAssetManager → ℕ → Bool
is_current_generation m generation = not m.stopping && generation == m.generation

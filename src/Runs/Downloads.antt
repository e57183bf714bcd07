-- ===== src/Runs/Downloads.antt =====
-- The client's cache, its worker and a transfer: client/src/assets.
use custommodels.Base.{
  ℕ, zero, suc, ◌≡◌, ◌≢◌, refl, true, some, [], ◌∷◌, ◌++◌, take, find, put, same_bytes, has, insert,
  sym, ◌∙◌, arith,
}
use custommodels.Assets.{
  Bytes, AssetDescription, Manifest, is_asset_description_valid, is_asset_type_valid,
  is_logical_name_valid, is_download_url_valid, serialized_asset_bytes,
}
use custommodels.Protocol.Types.{Message, manifest_begin, manifest_asset, manifest_end}
use custommodels.Assets.Names.{is_ascii_identifier_byte, has_invalid_segment_from}
use custommodels.Assets.Text.{is_prefix}
use custommodels.Assets.Sha256.{hex_of, digit}
use custommodels.Client.Files.{
  FilePath, FileSystem, file, directory, path_key, HasFile, same_path, create_directories,
  directories, exists, is_regular_file, file_size, remove_path, is_below, sha256_file, rename,
  without,
}
use custommodels.Client.Cache
use custommodels.Client.Cache.{
  AssetCache, path_for, temporary_path_for, lookup, commit_verified, folder_for, move_in,
  extension_bytes, remove_temporary,
}
use mathlib.Core.List.{Mem}
use custommodels.Client.Receiver.Collecting.{IsAcceptable}
use custommodels.Client.Receiver.{handle, handle_begin, handle_asset, handle_end, total_sizes}
use custommodels.Client.Manager.{
  AssetState, no_error, WorkItem, client_asset_manager, initialize, handle_message, note_result,
  note_accepted, note_complete, queue_assets, queue_asset, get_state, set_state,
  is_current_generation,
}
use custommodels.Client.Manager.Worker.{
  Fetch, Client, absent, taken, Reach, begin, step, work, start, message, worker_step, run_stage,
  initialize_client, look, download, measure, commit, take_work,
}
use custommodels.Client.Manager.Settles.{worker_steps, SettlesIn, taken-SettlesIn}
use custommodels.Client.Manager.Ready.{Step-ready}
use custommodels.Client.Manager.Sessions.Kept.{IsSound, Reach-IsSound}
use custommodels.Client.Cache.Answers.{IsAnswer, IsCached, lookup-IsAnswer}
use custommodels.Client.Cache.Commit.{temporary-apart, commit_verified-IsCached}
use custommodels.Runs.Samples.{car, zeros}

-- A hash function of the runs: the first 32 bytes.
abbrev toy_hash : Bytes → Bytes
toy_hash content = take 32 (content ++ zeros 32)

abbrev body : Bytes
body = 1 ∷ 2 ∷ 3 ∷ []

abbrev little_car : AssetDescription
little_car = record car { file_size = 3; sha256 = toy_hash body }

abbrev cache : AssetCache
cache = record { root = (b'c' ∷ []) ∷ []; to_hex = hex_of }

abbrev temporary : FilePath
temporary = temporary_path_for cache little_car

abbrev tmp : FilePath
tmp = (b'c' ∷ []) ∷ (b't' ∷ b'm' ∷ b'p' ∷ []) ∷ []

-- A disk with the temporary file, whose first call fails.
abbrev disk : FileSystem
disk = record { entries = (tmp, directory) ∷ (temporary, file body) ∷ []; faults = true ∷ [] }

abbrev sound_disk : FileSystem
sound_disk = record disk { faults = [] }

lookup-IsAnswer_example :
    IsAnswer toy_hash cache disk little_car (lookup toy_hash cache disk little_car)
lookup-IsAnswer_example = lookup-IsAnswer toy_hash cache disk little_car

held : HasFile sound_disk temporary body
unfolding find same_path same_bytes temporary_path_for hex_of digit extension_bytes
held = refl

done : (commit_verified toy_hash cache sound_disk little_car temporary).1 ≡ true
unfolding commit_verified create_directories directories exists move_in rename without find put
    same_path same_bytes temporary_path_for folder_for path_for hex_of digit extension_bytes
done = refl

commit_verified-IsCached_example :
    IsCached toy_hash cache
      (commit_verified toy_hash cache sound_disk little_car temporary).0
      little_car
commit_verified-IsCached_example =
    commit_verified-IsCached toy_hash cache sound_disk little_car temporary body held (refl, refl)
      (temporary-apart cache little_car little_car) done

-- A transfer that writes the body.
abbrev fetch_body : Fetch
fetch_body fs url path size = (
  record fs { entries = put path (file body) fs.entries },
  record { error = no_error; bytes_received = 3 },
)

advance :
    (k : ℕ) {n : ℕ} {c : Client}
    → Reach toy_hash cache fetch_body n c
    → Reach toy_hash cache fetch_body n (worker_steps toy_hash cache fetch_body k c)
advance zero r = r
advance (suc k) r = advance k (step _ _ _ r (work _))

abbrev after_message : Client → Message → Client
after_message c m = record c { manager = (handle_message c.manager m).0 }

abbrev new_client : Client
new_client = record {
  manager = client_asset_manager true;
  files = record { entries = (path_for cache little_car, file body) ∷ []; faults = [] };
  stage = absent;
}

abbrev first : Message
first = manifest_begin (record { manifest_revision = 5; asset_count = 1; total_download_size = 3 })

abbrev first_asset : Message
first_asset = manifest_asset (record { manifest_revision = 5; asset_index = 0; asset = little_car })

abbrev last : Message
last = manifest_end (record { manifest_revision = 5; asset_count = 1; total_download_size = 3 })

abbrev started : Client
started = initialize_client toy_hash cache fetch_body new_client

abbrev listed : Client
listed = after_message (after_message (after_message started first) first_asset) last

listed-Reach : Reach toy_hash cache fetch_body 0 listed
listed-Reach =
    let r0 = begin true new_client.files in
    let r1 = step _ _ _ r0 (start new_client refl) in
    let r2 = step _ _ _ r1 (message started first) in
    let r3 = step _ _ _ r2 (message (after_message started first) first_asset) in
    step _ _ _ r3 (message (after_message (after_message started first) first_asset) last)

-- The worker in front of the first call of `SetState`.
abbrev hitting_client : Client
hitting_client = worker_steps toy_hash cache fetch_body 3 listed

queued_before : get_state hitting_client.manager 7 ≡ AssetState.queued
unfolding worker_step run_stage look download measure commit take_work initialize_client initialize
    Cache.initialize client_asset_manager create_directories directories exists is_regular_file
    file_size remove_path is_below sha256_file rename without find put same_path same_bytes lookup
    commit_verified move_in remove_temporary temporary_path_for folder_for path_for hex_of digit
    extension_bytes handle handle_begin handle_asset handle_end total_sizes handle_message
    note_result note_accepted note_complete queue_assets queue_asset get_state set_state
    is_current_generation is_asset_description_valid is_asset_type_valid is_logical_name_valid
    is_download_url_valid serialized_asset_bytes has insert is_ascii_identifier_byte
    has_invalid_segment_from is_prefix
queued_before = refl

ready_after :
    get_state (worker_step toy_hash cache fetch_body hitting_client).manager 7 ≡ AssetState.ready
unfolding worker_step run_stage look download measure commit take_work initialize_client initialize
    Cache.initialize client_asset_manager create_directories directories exists is_regular_file
    file_size remove_path is_below sha256_file rename without find put same_path same_bytes lookup
    commit_verified move_in remove_temporary temporary_path_for folder_for path_for hex_of digit
    extension_bytes handle handle_begin handle_asset handle_end total_sizes handle_message
    note_result note_accepted note_complete queue_assets queue_asset get_state set_state
    is_current_generation is_asset_description_valid is_asset_type_valid is_logical_name_valid
    is_download_url_valid serialized_asset_bytes has insert is_ascii_identifier_byte
    has_invalid_segment_from is_prefix
ready_after = refl

not_ready_before : get_state hitting_client.manager 7 ≢ AssetState.ready
not_ready_before e = let q : AssetState.queued ≡ AssetState.ready = sym queued_before ∙ e in cc

Step-ready_example :
    (m : Manifest) × (a : AssetDescription) × ((worker_step toy_hash cache fetch_body
        hitting_client).manager.receiver.completed
      ≡ some m)
    × IsAcceptable m
    × Mem a m.assets
    × (a.asset_id ≡ 7)
    × IsCached toy_hash cache (worker_step toy_hash cache fetch_body hitting_client).files a
Step-ready_example =
    Step-ready toy_hash cache fetch_body 0 hitting_client
      (worker_step toy_hash cache fetch_body hitting_client) (omega arith) (advance 3 listed-Reach)
      (work hitting_client) 7 ready_after not_ready_before

Reach-IsSound_example : IsSound 0 hitting_client
Reach-IsSound_example =
    Reach-IsSound toy_hash cache fetch_body 0 hitting_client (omega arith) (advance 3 listed-Reach)

-- A work item that the manager has just handed out.
abbrev item : WorkItem
item = record { generation = 1; manifest_revision = 5; asset = little_car }

current_item : is_current_generation (client_asset_manager true) 1 ≡ true
unfolding is_current_generation client_asset_manager
current_item = refl

taken-SettlesIn_example :
    SettlesIn toy_hash cache fetch_body 9
      (record { manager = client_asset_manager true; files = disk; stage = taken item })
      7
taken-SettlesIn_example =
    taken-SettlesIn toy_hash cache fetch_body item (client_asset_manager true) disk current_item

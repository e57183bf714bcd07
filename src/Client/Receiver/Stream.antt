-- ===== src/Client/Receiver/Stream.antt =====
-- A published stream is received to its end: client/src/assets/manager.cpp against the manifest
-- that server/src/asset_registry.cpp builds.
use custommodels.Base.{
  ℕ, ◌+◌, ◌*◌, ◌≤◌, ◌<◌, ◌≡◌, ◌≢◌, refl, true, false, List, [], ◌∷◌, ◌++◌, none, some, arith,
  length, length-append, append-nil, append_assoc, has, insert, All, sym, ap, ◌∙◌, nat_key,
  bytes_key, same_bytes→eq,
}
use custommodels.Assets.{
  Bytes, AssetDescription, Manifest, is_asset_description_valid, serialized_asset_bytes,
}
use custommodels.Assets.Spec.{is_asset_description_valid→IsValidAsset}
use custommodels.Protocol.Types.{Message, manifest_asset}
use custommodels.Protocol.Stream.{items, begin_of, end_of, stream}
use custommodels.Server.Registry.Sorted.{IsPublishable, IsGood, IsAscending, IsApart, sum_sizes}
use custommodels.Client.Receiver.{
  ManifestReceiver, ManifestInputResult, State, accepted, receiving, initial_receiver, handle,
  handle_begin, handle_asset, handle_end, handle_all, total_sizes,
}

serialized_asset_bytes-le :
    (a : AssetDescription) → is_asset_description_valid a ≡ true → serialized_asset_bytes a ≤ 2206
unfolding serialized_asset_bytes
serialized_asset_bytes-le a h =
    let valid = is_asset_description_valid→IsValidAsset a h in
    ground (arith, valid.name_fits, valid.url_fits)

-- The receiver after the assets `done` of the manifest `m`.
abbrev part : Manifest → List AssetDescription → ℕ → List ℕ → List Bytes → ManifestReceiver
part m done bytes ids names = record {
  state = receiving;
  manifest = record m { assets = done };
  expected_count = length m.assets;
  manifest_bytes = bytes;
  asset_ids = ids;
  logical_names = names;
  completed = none;
}

total_sizes-fits :
    (total : ℕ) (l : List AssetDescription)
    → total + sum_sizes l ≤ 536870912
    → total_sizes total l ≡ some (total + sum_sizes l)
unfolding total_sizes
total_sizes-fits total [] h = ap some (omega arith)
total_sizes-fits total (a ∷ l) h =
    let rest = total_sizes-fits (total + a.file_size) l (omega arith) in ground (arith, rest)

-- What the next asset must differ from.
abbrev IsNew : List ℕ → List Bytes → AssetDescription → Type 0
IsNew ids names a = (has a.asset_id ids ≡ false) × (has a.logical_name names ≡ false)

handle-item :
    (m : Manifest) (done : List AssetDescription) (bytes : ℕ) (ids : List ℕ) (names : List Bytes)
    (index : ℕ) (a : AssetDescription)
    → is_asset_description_valid a ≡ true
    → IsNew ids names a
    → index ≡ length done
    → length done < length m.assets
    → bytes ≤ 600000
    → handle
        (part m done bytes ids names)
        (manifest_asset (record { manifest_revision = m.revision; asset_index = index; asset = a }))
      ≡ (
        part m
            (done ++ (a ∷ []))
            (bytes + serialized_asset_bytes a)
            (a.asset_id ∷ ids)
            (a.logical_name ∷ names),
        accepted,
      )
unfolding handle handle_asset insert
handle-item m done bytes ids names index a valid fresh at room small =
    ground (arith, serialized_asset_bytes-le a valid, fresh.0, fresh.1)

handle-end :
    (m : Manifest) (bytes : ℕ) (ids : List ℕ) (names : List Bytes)
    → IsPublishable m
    → bytes ≤ 600000
    → handle (part m m.assets bytes ids names) (end_of m) ≡ (
      record (part m m.assets (bytes + 20) ids names) {
        completed = some m;
        state = State.complete;
      },
      ManifestInputResult.complete,
    )
unfolding handle handle_end end_of
handle-end m bytes ids names p small =
    ground (arith, total_sizes-fits 0 m.assets (omega (arith, p.total, p.total_fits)), p.total)

-- One `Accepted` for each asset, then `Complete`.
abbrev pub results_of : List AssetDescription → List ManifestInputResult
results_of [] = ManifestInputResult.complete ∷ []
results_of (a ∷ assets) = accepted ∷ results_of assets

-- The stream has been received to its end.
abbrev pub HasReceived :
    Manifest → List ManifestInputResult → ManifestReceiver × List ManifestInputResult → Type 0
HasReceived m results (s, found) =
    (s.state ≡ State.complete) × (s.completed ≡ some m) × (found ≡ results)

handle_all-cons :
    (m : Manifest) (s next : ManifestReceiver) (message : Message) (messages : List Message)
    (result : ManifestInputResult) (results : List ManifestInputResult)
    → handle s message ≡ (next, result)
    → HasReceived m results (handle_all next messages)
    → HasReceived m (result ∷ results) (handle_all s (message ∷ messages))
unfolding handle_all
handle_all-cons m s next message messages result results e h =
    rw e (h.0, h.1, ap (λ t. result ∷ t) h.2)

still-IsNew :
    (ids : List ℕ) (names : List Bytes) (a : AssetDescription) (l : List AssetDescription)
    → All (λ b. a.asset_id < b.asset_id) l
    → All (λ b. a.logical_name ≢ b.logical_name) l
    → All (IsNew ids names) l
    → All (IsNew (a.asset_id ∷ ids) (a.logical_name ∷ names)) l
unfolding has
still-IsNew ids names a [] above apart fresh = tt
still-IsNew ids names a (b ∷ l) above apart fresh = (
  (
    ground (arith, above.0, (fresh.0).0),
    ground (arith, apart.0, (fresh.0).1, same_bytes→eq a.logical_name b.logical_name),
  ),
  still-IsNew ids names a l above.1 apart.1 fresh.1,
)

receive_items :
    (m : Manifest) (done rest : List AssetDescription) (bytes : ℕ) (ids : List ℕ)
    (names : List Bytes) (index : ℕ)
    → IsPublishable m
    → done ++ rest ≡ m.assets
    → index ≡ length done
    → bytes ≤ 20 + 2206 * length done
    → All IsGood rest
    → IsAscending rest
    → IsApart rest
    → All (IsNew ids names) rest
    → HasReceived m
        (results_of rest)
        (handle_all (part m done bytes ids names) (items m.revision index rest ++ (end_of m ∷ [])))
unfolding items handle_all
receive_items m done [] bytes ids names index p whole at small good above apart fresh =
    let all_done : done ≡ m.assets = sym (append-nil done) ∙ whole in
    let bound : bytes ≤ 600000 = omega (arith, small, ap length all_done, p.count_fits) in
    let ended = handle-end m bytes ids names p bound in
    rw all_done (
      handle_all-cons m (part m m.assets bytes ids names) _ (end_of m) [] _ [] ended
        (refl, refl, refl))
receive_items m done (a ∷ rest) bytes ids names index p whole at small good above apart fresh =
    let count : length done < length m.assets =
      omega (arith, ap length whole, length-append done (a ∷ rest)) in
    let bound : bytes ≤ 600000 = omega (arith, small, count, p.count_fits) in
    let valid : is_asset_description_valid a ≡ true = (good.0).1 in
    let longer = length-append done (a ∷ []) in
    let taken = handle-item m done bytes ids names index a valid fresh.0 at count bound in
    let item : Message =
      manifest_asset (record { manifest_revision = m.revision; asset_index = index; asset = a }) in
    handle_all-cons m (part m done bytes ids names) _ item
      (items m.revision (index + 1) rest ++ (end_of m ∷ [])) _ (results_of rest) taken
      (receive_items m (done ++ (a ∷ [])) rest (bytes + serialized_asset_bytes a) (a.asset_id ∷ ids)
        (a.logical_name ∷ names) (index + 1) p (append_assoc done (a ∷ []) rest ∙ whole)
        (omega (arith, at, longer))
        (omega (arith, small, longer, serialized_asset_bytes-le a valid)) good.1 above.1 apart.1
        (still-IsNew ids names a rest above.0 apart.0 fresh.1))

All-IsNew : (l : List AssetDescription) → All (IsNew [] []) l
unfolding has
All-IsNew [] = tt
All-IsNew (a ∷ l) = ((refl, refl), All-IsNew l)

handle-begin :
    (m : Manifest)
    → IsPublishable m
    → handle initial_receiver (begin_of m) ≡ (part m [] 20 [] [], accepted)
unfolding handle handle_begin begin_of
handle-begin m p =
    ground (arith, p.nonzero, p.total_fits, p.count_fits, empty_total m.assets, p.total)
  where
    empty_total : (l : List AssetDescription) → length l ≡ 0 → sum_sizes l ≡ 0
    empty_total [] h = refl
    empty_total (a ∷ l) h = absurd (omega arith)

-- A receiver that is reset and is sent the stream of a publishable manifest accepts every message,
-- reports completion at the last one, and has then received that very manifest.
pub handle_all-stream :
    (m : Manifest)
    → IsPublishable m
    → HasReceived m (accepted ∷ results_of m.assets) (handle_all initial_receiver (stream m))
unfolding stream
handle_all-stream m p =
    handle_all-cons m initial_receiver _ (begin_of m) _ _ (results_of m.assets) (handle-begin m p) (
      receive_items m [] m.assets 20 [] [] 0 p refl refl (omega arith) p.good p.ascending p.apart
        (All-IsNew m.assets))

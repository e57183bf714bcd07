-- ===== src/Client/Manager/Received.antt =====
-- How a message moves the receiver between sessions' states: `ManifestReceiver::Handle` of
-- client/src/assets/manager.cpp.
use custommodels.Base.{
  ℕ, ◌+◌, ◌-◌, ◌%◌, ◌^◌, ◌≡◌, refl, false, not, ◌||◌, ◌&&◌, List, some, ◌==◌, ltb, arith, has,
  nat_key, bytes_key, Bool-cases, Option-cases, inl, inr,
}
use custommodels.Assets.{
  AssetDescription, Manifest, is_asset_description_valid, serialized_asset_bytes,
}
use custommodels.Protocol.Types.{
  Message, ManifestBegin, ManifestAsset, ManifestEnd, manifest_begin, manifest_asset, manifest_end,
}
use custommodels.Client.Receiver.Collecting.{is_out_of_order}
use custommodels.Client.Receiver.Safety.{is_end_out_of_order}
use custommodels.Client.Receiver.{
  ManifestReceiver, ManifestInputResult, failed, accepted, is_idle, handle, handle_begin,
  handle_asset, handle_end, total_sizes,
}

-- A completed manifest has the revision of the manifest that was begun.
abbrev pub IsOneRevision : ManifestReceiver → Type 0
IsOneRevision s = (m : Manifest) → s.completed ≡ some m → m.revision ≡ s.manifest.revision

-- What a message does to a session: behind its beginning it keeps the revision and does not come
-- back to idle.
pub record IsHandled (s : ManifestReceiver) (r : ManifestReceiver × ManifestInputResult)
    : Type 0 where
  pub begun : is_idle s.state ≡ false → is_idle r.0.state ≡ false
  pub kept : is_idle s.state ≡ false → r.0.manifest.revision ≡ s.manifest.revision
  pub finished : r.1 ≡ ManifestInputResult.complete → is_idle r.0.state ≡ false
  pub one : IsOneRevision s → IsOneRevision r.0

failed-IsHandled :
    (s : ManifestReceiver) (ids : List ℕ) (bytes : ℕ) (result : ManifestInputResult)
    → IsHandled s (record s { state = failed; asset_ids = ids; manifest_bytes = bytes }, result)
failed-IsHandled s ids bytes result = record {
  begun = λ h. refl;
  kept = λ h. refl;
  finished = λ h. refl;
  one = λ h. h;
}

handle_begin-IsHandled : (s : ManifestReceiver) (b : ManifestBegin) → IsHandled s (handle_begin s b)
unfolding handle_begin
handle_begin-IsHandled s b = elim (Bool-cases (is_idle s.state)) [
  | inr e ↦ rw e (failed-IsHandled s _ _ _)
  | inl e ↦
      elim (Bool-cases (
        b.manifest_revision == 0
        || ltb 256 b.asset_count
        || ltb 536870912 b.total_download_size
        || (b.asset_count == 0 && not (b.total_download_size == 0)))) [
          | inl bad ↦ rw (e, bad) (failed-IsHandled s _ _ _)
          | inr good ↦
              rw (e, good)
                (record {
                  begun = λ h. refl;
                  kept = λ h. cc;
                  finished = λ h. refl;
                  one = λ h m q. cc;
                })
        ]
]

-- An accepted beginning gives the session its revision.
pub handle_begin-accepted :
    (s : ManifestReceiver) (b : ManifestBegin)
    → (handle_begin s b).1 ≡ accepted
    → (is_idle (handle_begin s b).0.state ≡ false)
      × ((handle_begin s b).0.manifest.revision ≡ b.manifest_revision)
unfolding handle_begin
handle_begin-accepted s b h = (ground (arith, h), ground (arith, h))

handle_asset-IsHandled :
    (s : ManifestReceiver) (item : ManifestAsset) → IsHandled s (handle_asset s item)
unfolding handle_asset
handle_asset-IsHandled s item = elim (Bool-cases (is_out_of_order s item)) [
  | inl e ↦ rw e (failed-IsHandled s _ _ _)
  | inr e ↦
      elim (Bool-cases (
        not (is_asset_description_valid a)
        || ltb ((1048576 + 2 ^ 32 - s.manifest_bytes) % 2 ^ 32) (serialized_asset_bytes a))) [
          | inl bad ↦ rw (e, bad) (failed-IsHandled s _ _ _)
          | inr good ↦ elim (Bool-cases (has a.asset_id s.asset_ids)) [
            | inl old ↦ rw (e, good, old) (failed-IsHandled s _ _ _)
            | inr new_id ↦ elim (Bool-cases (has a.logical_name s.logical_names)) [
              | inl old ↦ rw (e, good, new_id, old) (failed-IsHandled s _ _ _)
              | inr new_name ↦
                  rw (e, good, new_id, new_name)
                    (record { begun = λ h. h; kept = λ h. refl; finished = λ h. cc; one = λ h. h })
            ]
          ]
        ]
]
  where
    a : AssetDescription
    a = item.asset

handle_end-IsHandled : (s : ManifestReceiver) (end : ManifestEnd) → IsHandled s (handle_end s end)
unfolding handle_end
handle_end-IsHandled s end = elim (Bool-cases (is_end_out_of_order s end)) [
  | inl e ↦ rw e (failed-IsHandled s _ _ _)
  | inr e ↦ elim (Option-cases (total_sizes 0 s.manifest.assets)) [
    | inl none_left ↦ rw (e, none_left, handle_end) (failed-IsHandled s _ _ _)
    | inr (total, t) ↦ elim (Bool-cases (total == s.manifest.total_download_size)) [
      | inr other ↦ rw (e, t, handle_end, other) (failed-IsHandled s _ _ _)
      | inl same ↦ elim (Bool-cases (ltb 1048576 (s.manifest_bytes + 20))) [
        | inl long ↦ rw (e, t, handle_end, same, long) (failed-IsHandled s _ _ _)
        | inr short ↦
            rw (e, t, handle_end, same, short)
              (record {
                begun = λ h. refl;
                kept = λ h. refl;
                finished = λ h. refl;
                one = λ h m q. cc;
              })
      ]
    ]
  ]
]

pub handle-IsHandled : (s : ManifestReceiver) (m : Message) → IsHandled s (handle s m)
unfolding handle
handle-IsHandled s (manifest_begin b) = handle_begin-IsHandled s b
handle-IsHandled s (manifest_asset item) = handle_asset-IsHandled s item
handle-IsHandled s (manifest_end end) = handle_end-IsHandled s end
handle-IsHandled s other = record {
  begun = λ h. h;
  kept = λ h. refl;
  finished = λ h. cc;
  one = λ h. h;
}

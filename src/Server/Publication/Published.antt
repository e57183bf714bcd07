-- ===== src/Server/Publication/Published.antt =====
-- A manifest from the registry to the client: server/src/asset_publication.cpp,
-- server/src/asset_registry.cpp and client/src/assets/manager.cpp together.
use custommodels.Base.{
  ℕ, suc, ◌+◌, ◌^◌, ◌≤◌, ◌<◌, ◌≡◌, refl, Bool, true, false, List, [], ◌∷◌, some, length, take, All,
  All-append, Bool-cases, inl, inr, ◌⊎◌, arith, ap, find, nat_key, put, find-put, ==→refl,
}
use custommodels.Assets.{Bytes, AssetDescription, Manifest, is_asset_description_valid}
use custommodels.Protocol.Types.{Message}
use custommodels.Protocol.Checks.{is_manifest_boundary_valid}
use custommodels.Protocol.Encode.{has_invalid_field}
use custommodels.Protocol.Stream.{items, begin_of, end_of, stream}
use custommodels.Frame.Carried.{IsSendable, frame_of, encode_packet-sendable, encode-sendable}
use custommodels.Server.Registry.{AssetRegistry, build_manifest}
use custommodels.Server.Registry.Invariant.{Inv}
use custommodels.Server.Registry.Sorted.{
  IsPublishable, IsGood, sum_sizes, build_manifest-IsPublishable,
}
use custommodels.Server.Endpoint.{Delivery}
use custommodels.Server.Publication.{
  AssetPublication, PlayerAssetState, ManifestSendResult, AssetSessionState, sent, send_failed,
  send, on_player_compatible, has_manifest, awaits_manifest, get_state, unknown, handshake_pending,
  compatible, manifest_sending, manifest_complete, assets_ready, rejected,
}
use custommodels.Server.Publication.Session.{published}
use custommodels.Server.Publication.Sends.{push, send_all, send_manifest-stream}

boundary-valid :
    (m : Manifest)
    → IsPublishable m
    → is_manifest_boundary_valid m.revision (length m.assets) m.total_download_size ≡ true
unfolding is_manifest_boundary_valid
boundary-valid m p =
    ground (arith, p.nonzero, p.count_fits, p.total_fits, p.total, empty_total m.assets)
  where
    empty_total : (l : List AssetDescription) → length l ≡ 0 → sum_sizes l ≡ 0
    empty_total [] h = refl
    empty_total (a ∷ l) h = absurd (omega arith)

items-IsSendable :
    (revision index : ℕ) (assets : List AssetDescription)
    → 0 < revision
    → revision < 2 ^ 64
    → index + length assets ≤ 256
    → All IsGood assets
    → All IsSendable (items revision index assets)
unfolding items has_invalid_field
items-IsSendable revision index [] r s h good = tt
items-IsSendable revision index (a ∷ assets) r s h good =
    let valid : is_asset_description_valid a ≡ true = good.0.1 in
    (
      ((s, omega arith, good.0.0), ground (arith, valid)),
      items-IsSendable revision (index + 1) assets r s (omega arith) good.1,
    )

-- Every message of the stream of a publishable manifest can be encoded.
pub stream-IsSendable : (m : Manifest) → IsPublishable m → All IsSendable (stream m)
unfolding stream begin_of end_of has_invalid_field
stream-IsSendable m p =
    let typed : (m.revision < 2 ^ 64)
        × (length m.assets < 2 ^ 32)
        × (m.total_download_size < 2 ^ 64) =
      (omega (arith, p.revision_fits), omega (arith, p.count_fits), omega (arith, p.total_fits)) in
    let valid = boundary-valid m p in
    (
      (typed, rw valid refl),
      All-append IsSendable (items m.revision 0 m.assets) (end_of m ∷ [])
          (items-IsSendable m.revision 0 m.assets p.nonzero typed.0 (omega (arith, p.count_fits))
            p.good)
          ((typed, rw valid refl), tt),
    )

module _ (delivers : Delivery) where
  send-sendable :
      (frames : List (ℕ × Bytes)) (id : ℕ) (m : Message)
      → IsSendable m
      → send delivers frames id m ≡ ((id, frame_of m) ∷ frames, delivers frames id (frame_of m))
  unfolding send
  send-sendable frames id m s =
      rw (encode_packet-sendable m s, send, encode-sendable m s, send) refl

  -- What was sent is a first part of the messages, and all of them where sending succeeded.
  pub record IsPart (id : ℕ) (messages : List Message) (frames after : List (ℕ × Bytes))
      (complete : Bool) : Type 0 where
    pub count : ℕ
    pub pushed : after ≡ push id (take count messages) frames
    pub all_sent : complete ≡ true → after ≡ push id messages frames

  send_all-IsPart :
      (frames : List (ℕ × Bytes)) (id : ℕ) (messages : List Message)
      → All IsSendable messages
      → IsPart id messages frames
          (send_all delivers frames id messages).0
          (send_all delivers frames id messages).1
  unfolding send_all push
  send_all-IsPart frames id [] h = record { count = 0; pushed = refl; all_sent = λ q. refl }
  send_all-IsPart frames id (m ∷ messages) h =
      let after = (id, frame_of m) ∷ frames in
      let rest = send_all-IsPart after id messages h.1 in
      rw (send-sendable frames id m h.0) (elim (Bool-cases (delivers frames id (frame_of m))) [
        | inl d ↦
            rw d (record { count = suc rest.count; pushed = rest.pushed; all_sent = rest.all_sent })
        | inr d ↦ rw d (record { count = 1; pushed = refl; all_sent = λ q. cc })
      ])

  abbrev pub is_sent : ManifestSendResult → Bool
  is_sent sent = true
  is_sent _ = false

  -- The publication to a player that awaits it: a first part of the stream has been handed over, all
  -- of it where the result is `Sent`; the player then has its manifest, and is rejected otherwise.
  pub record IsPublication (p : AssetPublication) (r : AssetRegistry) (id : ℕ)
      (outcome : AssetPublication × ManifestSendResult) : Type 0 where
    pub result : (outcome.1 ≡ sent) ⊎ (outcome.1 ≡ send_failed)
    pub part : IsPart id (stream (build_manifest r)) p.frames outcome.0.frames (is_sent outcome.1)
    pub state : has_manifest (get_state outcome.0 id).state ≡ is_sent outcome.1
    pub rejection : outcome.1 ≡ send_failed → (get_state outcome.0 id).state ≡ rejected
    pub revision : (get_state outcome.0 id).manifest_revision ≡ r.revision
    pub recorded :
        outcome.1 ≡ sent → get_state outcome.0 id ≡ published r.revision (build_manifest r).assets

  awaits→not_has : (s : AssetSessionState) → awaits_manifest s ≡ true → has_manifest s ≡ false
  awaits→not_has unknown h = cc
  awaits→not_has handshake_pending h = refl
  awaits→not_has compatible h = refl
  awaits→not_has manifest_sending h = cc
  awaits→not_has manifest_complete h = cc
  awaits→not_has assets_ready h = cc
  awaits→not_has rejected h = cc

  -- Publishing a registry where its invariant holds to a player that awaits its manifest, whatever the
  -- transport takes: the result is `Sent` or `SendFailed`; the frames handed over are those of a first
  -- part of the stream, and of all of it where the result is `Sent`; the player then has its manifest
  -- and expects its assets, and is rejected otherwise.
  pub on_player_compatible-IsPublication :
      (p : AssetPublication) (r : AssetRegistry) (id : ℕ) (s : PlayerAssetState)
      → Inv r
      → find id p.players ≡ some s
      → awaits_manifest s.state ≡ true
      → IsPublication p r id (on_player_compatible delivers p r id)
  unfolding on_player_compatible get_state build_manifest
  on_player_compatible-IsPublication p r id s v found awaits =
      let m = build_manifest r in
      let good = (build_manifest-IsPublishable r v).0 in
      let sends = send_manifest-stream delivers p.frames id m (omega (arith, good.count_fits)) in
      let part = send_all-IsPart p.frames id (stream m) (stream-IsSendable m good) in
      let after = (send_all delivers p.frames id (stream m)).0 in
      rw (found, on_player_compatible, awaits→not_has s.state awaits, awaits, sends)
        (elim (Bool-cases (send_all delivers p.frames id (stream m)).1) [
          | inl d ↦ rw d (record {
            result = inl refl;
            part = rw d at part;
            state = rw (recorded _ after) (has_manifest-ending m.assets);
            rejection = λ q. cc;
            revision = ap (λ (t : PlayerAssetState). t.manifest_revision) (recorded _ after);
            recorded = λ q. recorded _ after;
          })
          | inr d ↦ rw d (record {
            result = inr refl;
            part = rw d at part;
            state = ap (λ (t : PlayerAssetState). has_manifest t.state) (recorded _ after);
            rejection = λ q. ap (λ (t : PlayerAssetState). t.state) (recorded _ after);
            revision = ap (λ (t : PlayerAssetState). t.manifest_revision) (recorded _ after);
            recorded = λ q. cc;
          })
        ])
    where
      recorded :
          (next : PlayerAssetState) (frames : List (ℕ × Bytes))
          → get_state (record { players = put id next p.players; frames = frames }) id ≡ next
      recorded next frames = rw (find-put id id next p.players, ==→refl id, get_state) refl

      has_manifest-ending :
          (l : List AssetDescription)
          → has_manifest (elim l [ [] ↦ assets_ready | asset ∷ assets ↦ manifest_complete ]) ≡ true
      has_manifest-ending [] = refl
      has_manifest-ending (a ∷ l) = refl

  send_all_complete :
      (frames : List (ℕ × Bytes)) (id : ℕ) (messages : List Message)
      → ((before : List (ℕ × Bytes)) (frame : Bytes) → delivers before id frame ≡ true)
      → All IsSendable messages
      → (send_all delivers frames id messages).1 ≡ true
  unfolding send_all
  send_all_complete frames id [] takes h = refl
  send_all_complete frames id (m ∷ messages) takes h =
      let after = (id, frame_of m) ∷ frames in
      rw (send-sendable frames id m h.0, takes frames (frame_of m))
        (send_all_complete after id messages takes h.1)

  -- A transport that takes every frame of the player leads to `Sent`.
  pub on_player_compatible-sent :
      (p : AssetPublication) (r : AssetRegistry) (id : ℕ) (s : PlayerAssetState)
      → Inv r
      → find id p.players ≡ some s
      → awaits_manifest s.state ≡ true
      → ((before : List (ℕ × Bytes)) (frame : Bytes) → delivers before id frame ≡ true)
      → (on_player_compatible delivers p r id).1 ≡ sent
  unfolding on_player_compatible
  on_player_compatible-sent p r id s v found awaits takes =
      let m = build_manifest r in
      let good = (build_manifest-IsPublishable r v).0 in
      let sends = send_manifest-stream delivers p.frames id m (omega (arith, good.count_fits)) in
      let all_sent = send_all_complete p.frames id (stream m) takes (stream-IsSendable m good) in
      rw (found, on_player_compatible, awaits→not_has s.state awaits, awaits, sends, all_sent) refl

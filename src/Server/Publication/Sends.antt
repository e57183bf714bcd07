-- ===== src/Server/Publication/Sends.antt =====
-- What the publication hands to the transport: server/src/asset_publication.cpp against the stream of
-- docs/protocol.md.
use custommodels.Base.{
  ℕ, ◌+◌, ◌%◌, ◌^◌, ◌≤◌, ◌<◌, ◌≡◌, refl, Bool, true, false, not, List, [], ◌∷◌, ◌++◌, if◌then◌else◌,
  length, Bool-cases, inl, inr, arith, ap, nat_key,
}
use custommodels.Assets.{Bytes, AssetDescription, Manifest}
use custommodels.Protocol.Types.{Message, manifest_asset}
use custommodels.Protocol.Stream.{items, begin_of, end_of, stream}
use custommodels.Frame.Carried.{frame_of}
use custommodels.Server.Endpoint.{Delivery}
use custommodels.Server.Publication.{send, send_assets, send_manifest}

-- The frames of a sequence of messages to one player, handed over in order.
unfoldable pub push : ℕ → List Message → List (ℕ × Bytes) → List (ℕ × Bytes)
push id [] frames = frames
push id (m ∷ messages) frames = push id messages ((id, frame_of m) ∷ frames)

module _ (delivers : Delivery) where
  -- A sequence of messages up to the first that is not sent.
  unfoldable pub send_all : List (ℕ × Bytes) → ℕ → List Message → List (ℕ × Bytes) × Bool
  send_all frames id [] = (frames, true)
  send_all frames id (m ∷ messages) =
      let (after, delivered) = send delivers frames id m in
      let rest = send_all after id messages in if not delivered then (after, false) else rest

  send_all-append :
      (frames : List (ℕ × Bytes)) (id : ℕ) (l k : List Message)
      → send_all frames id (l ++ k) ≡ (
          if not (send_all frames id l).1
          then ((send_all frames id l).0, false)
          else send_all (send_all frames id l).0 id k)
  unfolding send_all
  send_all-append frames id [] k = refl
  send_all-append frames id (m ∷ l) k =
      let after = (send delivers frames id m).0 in
      elim (Bool-cases (send delivers frames id m).1) [
        | inl d ↦ rw d (send_all-append after id l k)
        | inr d ↦ rw d refl
      ]

  send_assets-send_all :
      (frames : List (ℕ × Bytes)) (id revision index : ℕ) (assets : List AssetDescription)
      → index + length assets ≤ 2 ^ 32
      → send_assets delivers frames id revision index assets
        ≡ send_all frames id (items revision index assets)
  unfolding send_all send_assets items
  send_assets-send_all frames id revision index [] h = refl
  send_assets-send_all frames id revision index (a ∷ assets) h =
      let same : index % 2 ^ 32 ≡ index = omega arith in
      let item : Message =
        manifest_asset (record { manifest_revision = revision; asset_index = index; asset = a }) in
      let after = (send delivers frames id item).0 in
      rw same (
        ap (λ rest. if not (send delivers frames id item).1 then (after, false) else rest)
          (send_assets-send_all after id revision (index + 1) assets (omega arith)))

  last-send_all :
      (frames : List (ℕ × Bytes)) (id : ℕ) (m : Message)
      → send_all frames id (m ∷ []) ≡ send delivers frames id m
  unfolding send_all
  last-send_all frames id m = settled (send delivers frames id m)
    where
      settled : (o : List (ℕ × Bytes) × Bool) → (if not o.1 then (o.0, false) else (o.0, true)) ≡ o
      settled (after, true) = refl
      settled (after, false) = refl

  -- The messages that the publication sends are those of the stream, in its order, up to the first
  -- that is not sent. The manifest has fewer assets than 2 ^ 32.
  pub send_manifest-stream :
      (frames : List (ℕ × Bytes)) (id : ℕ) (m : Manifest)
      → length m.assets < 2 ^ 32
      → send_manifest delivers frames id m ≡ send_all frames id (stream m)
  unfolding send_manifest stream begin_of end_of send_all
  send_manifest-stream frames id m h =
      let count : length m.assets % 2 ^ 32 ≡ length m.assets = omega arith in
      let begun = (send delivers frames id (begin_of m)).0 in
      let listed = (send_all begun id (items m.revision 0 m.assets)).0 in
      rw
        (
          count,
          send_assets-send_all begun id m.revision 0 m.assets (omega arith),
          send_all-append begun id (items m.revision 0 m.assets) (end_of m ∷ []),
          last-send_all listed id (end_of m),
        )
        refl

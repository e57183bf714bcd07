-- ===== src/System.antt =====
-- The components together: a manifest from the operations on the server's registry to the client.
use custommodels.Assets.{Bytes}
use custommodels.Base.{true, refl, ℕ, ◌≡◌, List, ◌∷◌, some, ok, find, nat_key, All, []}
use custommodels.Protocol.Types.{Message, view}
use custommodels.Protocol.Decode.{decode_packet}
use custommodels.Protocol.Layout.{packet_bytes}
use custommodels.Protocol.Stream.{stream}
use custommodels.Frame.{custom_model, inspect}
use custommodels.Frame.Carried.{IsSendable, frame_of, inspect-sendable, decode_packet-sendable}
use custommodels.Server.Registry.{empty_registry, build_manifest}
use custommodels.Server.Registry.Reachable.{Operation, run, IsTypedOperation, run-Inv}
use custommodels.Server.Registry.Sorted.{build_manifest-IsPublishable}
use custommodels.Server.Endpoint.{Delivery}
use custommodels.Server.Publication.{
  AssetPublication, PlayerAssetState, sent, on_player_compatible, awaits_manifest,
}
use custommodels.Server.Publication.Sends.{push}
use custommodels.Server.Publication.Published.{
  on_player_compatible-IsPublication, on_player_compatible-sent, stream-IsSendable,
}
use custommodels.Client.Receiver.{ManifestInputResult, initial_receiver, handle_all}
use custommodels.Client.Receiver.Stream.{HasReceived, results_of, handle_all-stream}

-- The frame of a message is claimed by the carrier and decodes to that message.
abbrev pub IsOpened : Message → Type 0
IsOpened m =
    (inspect (view (frame_of m)) ≡ custom_model (view (packet_bytes m)))
    × (decode_packet (view (packet_bytes m)) ≡ ok (record { protocol_version = 1; message = m }))

opened : (l : List Message) → All IsSendable l → All IsOpened l
opened [] h = tt
opened (m ∷ l) h = ((inspect-sendable m h.0, decode_packet-sendable m h.0), opened l h.1)

-- After any operations on a new registry, where a player awaits its manifest and the transport takes
-- every frame for it, the publication reports `Sent` and has handed over exactly the frames of the
-- manifest stream, in order; each frame decodes to its message; and a client that is sent those
-- messages accepts every one, reports completion at the last, and then holds the very manifest of the
-- registry. The registered assets' fields are of their C++ types.
pub publication-received :
    (delivers : Delivery) (p : AssetPublication) (operations : List Operation) (id : ℕ)
    (s : PlayerAssetState)
    → All IsTypedOperation operations
    → find id p.players ≡ some s
    → awaits_manifest s.state ≡ true
    → ((before : List (ℕ × Bytes)) (frame : Bytes) → delivers before id frame ≡ true)
    → let r = run empty_registry operations in
      let m = build_manifest r in
      let outcome = on_player_compatible delivers p r id in
      (outcome.1 ≡ sent)
      × (outcome.0.frames ≡ push id (stream m) p.frames)
      × All IsOpened (stream m)
      × HasReceived m
          (ManifestInputResult.accepted ∷ results_of m.assets)
          (handle_all initial_receiver (stream m))
publication-received delivers p operations id s typed found awaits takes =
    let r = run empty_registry operations in
    let v = run-Inv operations typed in
    let m = build_manifest r in
    let good = (build_manifest-IsPublishable r v).0 in
    let published = on_player_compatible-IsPublication delivers p r id s v found awaits in
    let done = on_player_compatible-sent delivers p r id s v found awaits takes in
    (
      done,
      published.part.all_sent (rw done refl),
      opened (stream m) (stream-IsSendable m good),
      handle_all-stream m good,
    )

-- ===== src/Server/Component/Events.antt =====
-- The events that the host tells the component: server/openmp/component.cpp.
use custommodels.Base.{ℕ, ◌≡◌, refl, true, false, find, nat_key, IsMap}
use custommodels.Server.Endpoint.{Delivery}
use custommodels.Server.Publication.{
  PlayerAssetState, AssetPublication, ignored, has_manifest, awaits_manifest, get_state,
  handle_ready, handle_error, report, handle_incoming, on_player_compatible, send_manifest,
}
use custommodels.Server.Publication
use custommodels.Server.Component.{
  ℤ, pos, negsuc, NetworkBitStream, CustomModelComponent, on_player_connect, on_player_disconnect,
  reset, on_receive,
}
use custommodels.Server.Component.Compatible.{IsCompatible}
use custommodels.Server.Component.Manifests.{
  GetsManifest, kept-GetsManifest, on_receive-GetsManifest, erase-has_manifest, put-has_manifest,
  has_manifest_at,
}

module _ (delivers : Delivery) where
  -- What the host tells the component.
  pub data HostEvent : Type 0 where
    connected disconnected : ℤ → HostEvent
    received : ℤ → NetworkBitStream → HostEvent
    restarted : HostEvent

  unfoldable pub handle_event : CustomModelComponent → HostEvent → CustomModelComponent
  unfolding on_receive on_player_connect on_player_disconnect reset
  handle_event c (connected player_id) = on_player_connect c player_id
  handle_event c (disconnected player_id) = on_player_disconnect c player_id
  handle_event c (received player_id stream) = (on_receive delivers c player_id stream).0
  handle_event c restarted = reset c

  handle_event-GetsManifest :
      (c : CustomModelComponent) (event : HostEvent) (j : ℕ)
      → IsMap c.players
      → GetsManifest c (handle_event c event) j
  unfolding handle_event on_player_connect on_player_disconnect reset
      Publication.on_player_connected Publication.on_player_disconnected Publication.reset find
  handle_event-GetsManifest c (connected (negsuc n)) j v = kept-GetsManifest c c j (λ h. h)
  handle_event-GetsManifest c (connected (pos id)) j v =
      kept-GetsManifest c (on_player_connect c (pos id)) j (put-has_manifest id j _ c.players refl)
  handle_event-GetsManifest c (disconnected (negsuc n)) j v = kept-GetsManifest c c j (λ h. h)
  handle_event-GetsManifest c (disconnected (pos id)) j v =
      kept-GetsManifest c (on_player_disconnect c (pos id)) j (erase-has_manifest id j c.players v)
  handle_event-GetsManifest c (received player_id stream) j v =
      on_receive-GetsManifest delivers c player_id stream j
  handle_event-GetsManifest c restarted j v =
      kept-GetsManifest c (reset c) j (λ h. let bad : false ≡ true = h in absurd (cc))

  -- Whatever the host tells the component, in whatever state it is, with one entry for a player: one that has no manifest
  -- before the event and has it after is held by the tracker as compatible after it.
  pub handle_event-IsCompatible :
      (c : CustomModelComponent) (event : HostEvent) (j : ℕ)
      → IsMap c.players
      → has_manifest_at c.players j ≡ false
      → has_manifest_at (handle_event c event).players j ≡ true
      → IsCompatible (handle_event c event).tracker j
  handle_event-IsCompatible c event j v = handle_event-GetsManifest c event j v

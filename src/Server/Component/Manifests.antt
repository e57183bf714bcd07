-- ===== src/Server/Component/Manifests.antt =====
-- The component sends a manifest to a compatible player alone: server/openmp/component.cpp and
-- server/src/asset_publication.cpp.
use custommodels.Base.{
  ℕ, ◌/◌, ◌%◌, ◌≡◌, refl, sym, ◌∙◌, subst, Bool, true, false, not, ◌||◌, List, some, none, ltb,
  ◌==◌, take, Bool-cases, Option-cases, Result-cases, inl, inr, find, put, erase, nat_key, find-put,
  find-erase, IsMap, ==→eq,
}
use custommodels.Assets.{Bytes}
use custommodels.Protocol.Types.{view, Message}
use custommodels.Protocol.Decode.{decode_packet}
use custommodels.Frame.{inspect_protocol_payload}
use custommodels.Server.Registry.{AssetRegistry, build_manifest}
use custommodels.Server.Endpoint.{DispatchResult, Delivery, welcome_sent}
use custommodels.Server.Publication.{
  PlayerAssetState, AssetPublication, ignored, has_manifest, awaits_manifest, report,
  handle_incoming, on_player_compatible, send_manifest,
}
use custommodels.Server.Component.{
  ℤ, pos, negsuc, NetworkBitStream, CustomModelComponent, transport_send, is_available,
  decodes_to_hello, is_hello, is_welcome_sent, endpoint_of, assets_of, dispatch_malformed,
  dispatch_packet, dispatch_protocol, after_hello, receive_protocol, receive_payload, on_receive,
  unread_payload,
}
use custommodels.Server.Component.Claims.{Inspected-cases}
use custommodels.Server.Component.Compatible.{IsCompatible, dispatch_protocol_payload-IsWelcomed}

-- The players' states, and whether one has its manifest.
abbrev pub has_manifest_at : List (ℕ × PlayerAssetState) → ℕ → Bool
has_manifest_at players id = elim (find id players) [
  | none ↦ false
  | some state ↦ has_manifest state.state
]

-- It depends on what is found alone.
find-has_manifest :
    (a b : List (ℕ × PlayerAssetState)) (j : ℕ)
    → find j b ≡ find j a
    → has_manifest_at a j ≡ true
    → has_manifest_at b j ≡ true
find-has_manifest a b j e h = rw (has_manifest_at, e) h

handle_incoming-has_manifest :
    (p : AssetPublication) (id : ℕ) (m : Message) (j : ℕ)
    → has_manifest_at (handle_incoming p id m).0.players j ≡ true
    → has_manifest_at p.players j ≡ true
unfolding handle_incoming
handle_incoming-has_manifest p id m j h = elim (Option-cases (find id p.players)) [
  | inl e ↦ rw (handle_incoming, e) at h
  | inr (s, e) ↦ elim (Bool-cases (has_manifest s.state)) [
    | inr q ↦ rw (handle_incoming, e, handle_incoming, q) at h
    | inl q ↦ elim (Bool-cases (id == j)) [
      | inl k ↦ let same : id ≡ j = ==→eq id j k in rw (← same, has_manifest_at, e) q
      | inr k ↦
          find-has_manifest _ _ j
            (sym (
              rw (handle_incoming, e, handle_incoming, q, find-put id j (report s m).0 p.players, k)
                refl))
            h
    ]
  ]
]

is_welcome_sent-eq : (r : DispatchResult) → is_welcome_sent r ≡ true → r ≡ welcome_sent
is_welcome_sent-eq welcome_sent h = refl
is_welcome_sent-eq DispatchResult.unrelated h = cc
is_welcome_sent-eq DispatchResult.reject_sent h = cc
is_welcome_sent-eq DispatchResult.send_failed h = cc

module _ (delivers : Delivery) where
  on_player_compatible-other :
      (p : AssetPublication) (r : AssetRegistry) (id j : ℕ)
      → (id == j) ≡ false
      → find j (on_player_compatible delivers p r id).0.players ≡ find j p.players
  unfolding on_player_compatible
  on_player_compatible-other p r id j h = elim (Option-cases (find id p.players)) [
    | inl e ↦ rw (on_player_compatible, e) refl
    | inr (s, e) ↦ elim (Bool-cases (has_manifest s.state)) [
      | inl q ↦ rw (on_player_compatible, e, on_player_compatible, q) refl
      | inr q ↦ elim (Bool-cases (awaits_manifest s.state)) [
        | inr a ↦ rw (on_player_compatible, e, on_player_compatible, q, a) refl
        | inl a ↦ elim (Bool-cases (send_manifest delivers p.frames id (build_manifest r)).1) [
          | inl d ↦
              rw (on_player_compatible, e, on_player_compatible, q, a, d)
                (find-put id j _ p.players ∙ rw h refl)
          | inr d ↦
              rw (on_player_compatible, e, on_player_compatible, q, a, d)
                (find-put id j _ p.players ∙ rw h refl)
        ]
      ]
    ]
  ]

pub erase-has_manifest :
    (id j : ℕ) (players : List (ℕ × PlayerAssetState))
    → IsMap players
    → has_manifest_at (erase id players) j ≡ true
    → has_manifest_at players j ≡ true
erase-has_manifest id j players v h = elim (Bool-cases (id == j)) [
  | inl k ↦
      let bad : false ≡ true = rw (has_manifest_at, find-erase id j players v, k) at h in
      absurd (cc)
  | inr k ↦ find-has_manifest _ _ j (sym (find-erase id j players v ∙ rw k refl)) h
]

pub put-has_manifest :
    (id j : ℕ) (s : PlayerAssetState) (players : List (ℕ × PlayerAssetState))
    → has_manifest s.state ≡ false
    → has_manifest_at (put id s players) j ≡ true
    → has_manifest_at players j ≡ true
put-has_manifest id j s players without h = elim (Bool-cases (id == j)) [
  | inl k ↦
      let bad : has_manifest s.state ≡ true =
        rw (has_manifest_at, find-put id j s players, k) at h in
      absurd (cc)
  | inr k ↦ find-has_manifest _ _ j (sym (find-put id j s players ∙ rw k refl)) h
]

-- What holds of a step that gives a player its manifest.
abbrev pub GetsManifest : CustomModelComponent → CustomModelComponent → ℕ → Type 0
GetsManifest c last j =
    has_manifest_at c.players j ≡ false
    → has_manifest_at last.players j ≡ true
    → IsCompatible last.tracker j

pub kept-GetsManifest :
    (c last : CustomModelComponent) (j : ℕ)
    → (has_manifest_at last.players j ≡ true → has_manifest_at c.players j ≡ true)
    → GetsManifest c last j
kept-GetsManifest c last j f before after = let now = f after in absurd (cc)

module _ (delivers : Delivery) where
  after_hello-GetsManifest :
      (c : CustomModelComponent) (id j : ℕ)
      → (c.last_dispatch ≡ welcome_sent → IsCompatible c.tracker id)
      → GetsManifest c (after_hello delivers c id) j
  unfolding after_hello
  after_hello-GetsManifest c id j welcomed before after =
      elim (Bool-cases (is_welcome_sent c.last_dispatch)) [
        | inr e ↦ let bad : has_manifest_at c.players j ≡ true = rw e at after in absurd (cc)
        | inl e ↦ elim (Bool-cases (id == j)) [
          | inl k ↦
              rw e
                (subst (IsCompatible c.tracker) (==→eq id j k) (welcomed (is_welcome_sent-eq _ e)))
          | inr k ↦
              let send = transport_send c.transport delivers in
              let other = on_player_compatible-other send (assets_of c) c.registry id j k in
              let bad : has_manifest_at c.players j ≡ true =
                find-has_manifest _ _ j (sym other) (rw e at after) in
              absurd (cc)
        ]
      ]

  dispatch_protocol-has_manifest :
      (c : CustomModelComponent) (id : ℕ) (bytes : Bytes) (j : ℕ)
      → has_manifest_at (dispatch_protocol delivers c id bytes).players j ≡ true
      → has_manifest_at c.players j ≡ true
  unfolding dispatch_protocol dispatch_packet
  dispatch_protocol-has_manifest c id bytes j h = elim (Result-cases (decode_packet (view bytes))) [
    | inl (error, e) ↦ rw (dispatch_protocol, e) at h
    | inr (packet, e) ↦ elim (Bool-cases (is_hello packet.message)) [
      | inl q ↦ rw (dispatch_protocol, e, dispatch_packet, q) at h
      | inr q ↦
          handle_incoming-has_manifest (assets_of c) id packet.message j
            (rw (dispatch_protocol, e, dispatch_packet, q) at h)
    ]
  ]

  dispatch_protocol-IsWelcomed :
      (c : CustomModelComponent) (id : ℕ) (bytes : Bytes)
      → decodes_to_hello bytes ≡ true
      → (dispatch_protocol delivers c id bytes).last_dispatch ≡ welcome_sent
      → IsCompatible (dispatch_protocol delivers c id bytes).tracker id
  unfolding dispatch_protocol dispatch_packet
  dispatch_protocol-IsWelcomed c id bytes is h = elim (Result-cases (decode_packet (view bytes))) [
    | inl (error, e) ↦ let bad : false ≡ true = rw (decodes_to_hello, e) at is in absurd (cc)
    | inr (packet, e) ↦
        let q : is_hello packet.message ≡ true = rw (decodes_to_hello, e) at is in
        rw (dispatch_protocol, e, dispatch_packet, q)
          (dispatch_protocol_payload-IsWelcomed (transport_send c.transport delivers)
            (endpoint_of c) id (view bytes) (rw (dispatch_protocol, e, dispatch_packet, q) at h))
  ]

  receive_protocol-GetsManifest :
      (c : CustomModelComponent) (id : ℕ) (bytes : Bytes) (j : ℕ)
      → GetsManifest c (receive_protocol delivers c id bytes) j
  unfolding receive_protocol
  receive_protocol-GetsManifest c id bytes j before after =
      elim (Bool-cases (not (is_available c.transport))) [
        | inl e ↦ let bad : has_manifest_at c.players j ≡ true = rw e at after in absurd (cc)
        | inr e ↦ elim (Bool-cases (decodes_to_hello bytes)) [
          | inr q ↦
              let bad : has_manifest_at c.players j ≡ true =
                dispatch_protocol-has_manifest started id bytes j (rw (e, q) at after) in
              absurd (cc)
          | inl q ↦
              rw (e, q)
                (after_hello-GetsManifest dispatched id j
                  (dispatch_protocol-IsWelcomed started id bytes q)
                  (kept_false _ _ (dispatch_protocol-has_manifest started id bytes j) before)
                  (rw (e, q) at after))
        ]
      ]
    where
      started : CustomModelComponent
      started = record c {
        last_dispatch = DispatchResult.send_failed;
        last_asset_dispatch = ignored;
      }

      dispatched : CustomModelComponent
      dispatched = dispatch_protocol delivers started id bytes

      kept_false : (a b : Bool) → (a ≡ true → b ≡ true) → b ≡ false → a ≡ false
      kept_false false b f h = refl
      kept_false true b f h = let t = f refl in cc

  pub on_receive-GetsManifest :
      (c : CustomModelComponent) (player_id : ℤ) (stream : NetworkBitStream) (j : ℕ)
      → GetsManifest c (on_receive delivers c player_id stream).0 j
  unfolding on_receive receive_payload dispatch_malformed
  on_receive-GetsManifest c (negsuc n) stream j = kept-GetsManifest c c j (λ h. h)
  on_receive-GetsManifest c (pos id) stream j = elim (Option-cases (unread_payload stream)) [
    | inl e ↦ rw (on_receive, e) (kept-GetsManifest c c j (λ h. h))
    | inr ((unread, payload), e) ↦
        elim (Inspected-cases (inspect_protocol_payload (view (take 4 payload)))) [
          | inl q ↦ rw (on_receive, e, receive_payload, q) (kept-GetsManifest c c j (λ h. h))
          | inr (magic, q) ↦ elim (Bool-cases (not (unread % 8 == 0) || ltb 4096 (unread / 8))) [
            | inl bad ↦
                rw (on_receive, e, receive_payload, q, receive_payload, bad)
                  (kept-GetsManifest c (dispatch_malformed delivers c id).0 j (λ h. h))
            | inr good ↦
                rw (on_receive, e, receive_payload, q, receive_payload, good)
                  (receive_protocol-GetsManifest c id _ j)
          ]
        ]
  ]

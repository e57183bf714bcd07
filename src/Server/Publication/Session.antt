-- ===== src/Server/Publication/Session.antt =====
-- What a player's reports amount to: server/src/asset_publication.cpp.
use custommodels.Base.{
  ℕ, suc, ◌≤◌, ◌≡◌, ◌≢◌, refl, true, false, ◌==◌, List, [], ◌∷◌, none, length, All, find, put,
  erase, has, insert, remove, IsMap, put-IsMap, erase-IsMap, find-put, find-erase, nat_key,
  IsDistinct, AreIn, AreIn-length, AreIn-full, insert-IsDistinct, All-insert, All-remove,
  length-insert, remove-IsDistinct, has-remove_same, Bool-cases, inl, inr, arith, ◌↔◌, ==→eq,
  ==→refl, ◌∙◌,
}
use custommodels.Assets.{AssetDescription}
use custommodels.Protocol.Types.{
  Message, asset_ready, asset_error, AssetReady, AssetError, AssetErrorReason,
}
use custommodels.Server.Publication.{
  PlayerAssetState, AssetSessionState, has_manifest, manifest_complete, assets_ready, expect_assets,
  handle_ready, handle_error, report,
}

-- What a player that has its manifest keeps: the expected assets and the ready ones are sets, every
-- ready asset is expected and none of them has failed, and the state is `AssetsReady` exactly where
-- there are as many ready assets as expected ones.
pub record IsSession (s : PlayerAssetState) : Type 0 where
  pub manifest : has_manifest s.state ≡ true
  pub expected : IsDistinct s.expected_assets
  pub ready : IsDistinct s.ready_assets
  pub ready_in : AreIn s.ready_assets s.expected_assets
  pub failed : IsMap s.failed_assets
  pub apart : All (λ id. find id s.failed_assets ≡ none) s.ready_assets
  pub all_ready : s.state ≡ assets_ready → length s.ready_assets ≡ length s.expected_assets
  pub not_ready : s.state ≡ manifest_complete → length s.ready_assets ≢ length s.expected_assets

expect_assets-IsDistinct :
    (l : List AssetDescription) (ids : List ℕ) → IsDistinct ids → IsDistinct (expect_assets l ids)
unfolding expect_assets
expect_assets-IsDistinct [] ids d = d
expect_assets-IsDistinct (a ∷ l) ids d =
    expect_assets-IsDistinct l (insert a.asset_id ids) (insert-IsDistinct a.asset_id ids d)

apart-erase :
    (id : ℕ) (failed : List (ℕ × AssetErrorReason)) (l : List ℕ)
    → IsMap failed
    → All (λ j. find j failed ≡ none) l
    → All (λ j. find j (erase id failed) ≡ none) l
apart-erase id failed [] m h = tt
apart-erase id failed (j ∷ l) m h =
    (ground (arith, find-erase id j failed m, h.0), apart-erase id failed l m h.1)

handle_ready-IsSession :
    (s : PlayerAssetState) (r : AssetReady) → IsSession s → IsSession (handle_ready s r).0
unfolding handle_ready
handle_ready-IsSession s r v = elim (Bool-cases (r.manifest_revision == s.manifest_revision)) [
  | inr e ↦ rw e v
  | inl e ↦ elim (Bool-cases (has r.asset_id s.expected_assets)) [
    | inr q ↦ rw (e, q) v
    | inl q ↦
        let id = r.asset_id in
        let fresh : find id (erase id s.failed_assets) ≡ none =
          ground (arith, find-erase id id s.failed_assets v.failed, ==→refl id) in
        let ready = insert-IsDistinct id s.ready_assets v.ready in
        let ready_in =
          All-insert (λ j. has j s.expected_assets ≡ true) id s.ready_assets q v.ready_in in
        let failed = erase-IsMap id s.failed_assets v.failed in
        let apart =
          All-insert (λ j. find j (erase id s.failed_assets) ≡ none) id s.ready_assets fresh
            (apart-erase id s.failed_assets s.ready_assets v.failed v.apart) in
        elim (Bool-cases (length (insert id s.ready_assets) == length s.expected_assets)) [
          | inl full ↦
              rw (e, q, full)
                (record {
                  manifest = refl;
                  expected = v.expected;
                  ready = ready;
                  ready_in = ready_in;
                  failed = failed;
                  apart = apart;
                  all_ready = λ t. ==→eq _ _ full;
                  not_ready = λ t. cc;
                })
          | inr missing ↦
              rw (e, q, missing)
                (record {
                  manifest = v.manifest;
                  expected = v.expected;
                  ready = ready;
                  ready_in = ready_in;
                  failed = failed;
                  apart = apart;
                  all_ready = λ t. omega (
                    arith,
                    v.all_ready t,
                    length-insert id s.ready_assets,
                    AreIn-length (insert id s.ready_assets) s.expected_assets ready ready_in,
                  );
                  not_ready = λ t. ground (arith, missing);
                })
        ]
  ]
]

apart-put :
    (id : ℕ) (reason : AssetErrorReason) (failed : List (ℕ × AssetErrorReason)) (j : ℕ)
    → (id == j) ≡ false
    → find j failed ≡ none
    → find j (put id reason failed) ≡ none
apart-put id reason failed j e h = find-put id j reason failed ∙ rw e h

handle_error-IsSession :
    (s : PlayerAssetState) (r : AssetError) → IsSession s → IsSession (handle_error s r).0
unfolding handle_error
handle_error-IsSession s r v = elim (Bool-cases (r.manifest_revision == s.manifest_revision)) [
  | inr e ↦ rw e v
  | inl e ↦ elim (Bool-cases (has r.asset_id s.expected_assets)) [
    | inr q ↦ rw (e, q) v
    | inl q ↦
        let id = r.asset_id in
        let rest = remove id s.ready_assets in
        let ready = remove-IsDistinct id s.ready_assets v.ready in
        let ready_in : AreIn rest s.expected_assets =
          All-remove (λ j. has j s.expected_assets ≡ true) (λ j. has j s.expected_assets ≡ true) id
            s.ready_assets v.ready (λ j d h. h) v.ready_in in
        let fewer : suc (length rest) ≤ length s.expected_assets =
          AreIn-length (id ∷ rest) s.expected_assets
            (has-remove_same id s.ready_assets v.ready, ready) (q, ready_in) in
        rw (e, q)
          (record {
            manifest = refl;
            expected = v.expected;
            ready = ready;
            ready_in = ready_in;
            failed = put-IsMap id r.reason s.failed_assets v.failed;
            apart =
                All-remove (λ j. find j s.failed_assets ≡ none)
                  (λ j. find j (put id r.reason s.failed_assets) ≡ none) id s.ready_assets v.ready
                  (apart-put id r.reason s.failed_assets) v.apart;
            all_ready = λ t. cc;
            not_ready = λ t u. omega (arith, fewer, u);
          })
  ]
]

report-IsSession : (s : PlayerAssetState) (m : Message) → IsSession s → IsSession (report s m).0
unfolding report
report-IsSession s (asset_ready m) v = handle_ready-IsSession s m v
report-IsSession s (asset_error m) v = handle_error-IsSession s m v
report-IsSession s _ v = v

-- The state of a player after a sequence of reports.
unfoldable pub report_all : PlayerAssetState → List Message → PlayerAssetState
unfolding report
report_all s [] = s
report_all s (m ∷ messages) = report_all (report s m).0 messages

report_all-IsSession :
    (s : PlayerAssetState) (messages : List Message)
    → IsSession s
    → IsSession (report_all s messages)
unfolding report_all
report_all-IsSession s [] v = v
report_all-IsSession s (m ∷ messages) v =
    report_all-IsSession (report s m).0 messages (report-IsSession s m v)

-- The state that a publication of these assets leaves.
abbrev pub published : ℕ → List AssetDescription → PlayerAssetState
published revision assets = record {
  state = elim assets [ [] ↦ assets_ready | a ∷ l ↦ manifest_complete ];
  manifest_revision = revision;
  expected_assets = expect_assets assets [];
  ready_assets = [];
  failed_assets = [];
}

grows : (l : List AssetDescription) (ids : List ℕ) → length ids ≤ length (expect_assets l ids)
unfolding expect_assets
grows [] ids = omega arith
grows (a ∷ l) ids = omega (arith, length-insert a.asset_id ids, grows l (insert a.asset_id ids))

published-IsSession :
    (revision : ℕ) (assets : List AssetDescription) → IsSession (published revision assets)
unfolding expect_assets insert has
published-IsSession revision [] = record {
  manifest = refl;
  expected = tt;
  ready = tt;
  ready_in = tt;
  failed = tt;
  apart = tt;
  all_ready = λ t. refl;
  not_ready = λ t. cc;
}
published-IsSession revision (a ∷ l) = record {
  manifest = refl;
  expected = expect_assets-IsDistinct l (a.asset_id ∷ []) (refl, tt);
  ready = tt;
  ready_in = tt;
  failed = tt;
  apart = tt;
  all_ready = λ t. cc;
  not_ready = λ t u. omega (arith, u, grows l (a.asset_id ∷ []));
}

in_length :
    (s : PlayerAssetState)
    → IsSession s
    → AreIn s.expected_assets s.ready_assets
    → length s.ready_assets ≡ length s.expected_assets
in_length s v h = omega (
  arith,
  AreIn-length s.expected_assets s.ready_assets v.expected h,
  AreIn-length s.ready_assets s.expected_assets v.ready v.ready_in,
)

-- After any messages from a player whose manifest has been sent, its state is `AssetsReady` exactly
-- where every expected asset is recorded as ready; no ready asset is recorded as failed, and none
-- was not expected.
pub report_all-assets_ready :
    (revision : ℕ) (assets : List AssetDescription) (messages : List Message)
    → let s = report_all (published revision assets) messages in
      ((s.state ≡ assets_ready) ↔ AreIn s.expected_assets s.ready_assets)
      × AreIn s.ready_assets s.expected_assets
      × All (λ id. find id s.failed_assets ≡ none) s.ready_assets
report_all-assets_ready revision assets messages =
    let s = report_all (published revision assets) messages in
    let v =
      report_all-IsSession (published revision assets) messages
        (published-IsSession revision assets) in
    (
      (
        λ t. AreIn-full s.ready_assets s.expected_assets v.ready v.ready_in (v.all_ready t),
        λ h. by_state s.state v.manifest v.not_ready (in_length s v h),
      ),
      v.ready_in,
      v.apart,
    )
  where
    by_state :
        (t : AssetSessionState) {P : Type 0}
        → has_manifest t ≡ true
        → (t ≡ manifest_complete → P → ⊥)
        → P
        → t ≡ assets_ready
    by_state manifest_complete h n q = absurd (n refl q)
    by_state assets_ready h n q = refl
    by_state AssetSessionState.unknown h n q = cc
    by_state AssetSessionState.handshake_pending h n q = cc
    by_state AssetSessionState.compatible h n q = cc
    by_state AssetSessionState.manifest_sending h n q = cc
    by_state AssetSessionState.rejected h n q = cc

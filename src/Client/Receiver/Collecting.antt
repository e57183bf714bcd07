-- ===== src/Client/Receiver/Collecting.antt =====
-- What the receiver has collected, whatever was sent: client/src/assets/manager.cpp.
use custommodels.Base.{
  ◌+◌, ◌-◌, ◌%◌, ◌^◌, ◌≤◌, ◌<◌, ◌≡◌, ◌≢◌, refl, true, false, not, ◌||◌, ◌&&◌, List, [], ◌∷◌, ◌++◌,
  some, ltb, leb, ◌==◌, arith, length, length-append, All, All-append, has, insert, has-insert,
  has-insert_same, Key, Bool, nat_key, bytes_key, Bool-cases, inl, inr,
}
use custommodels.Assets.{
  AssetDescription, Manifest, is_asset_description_valid, serialized_asset_bytes,
}
use custommodels.Protocol.Types.{ManifestBegin, ManifestAsset}
use custommodels.Server.Registry.Sorted.{sum_sizes}
use custommodels.Client.Receiver.{
  ManifestReceiver, State, receiving, idle, failed, is_idle, is_receiving, handle_begin,
  handle_asset,
}

-- No two elements are related.
abbrev pub IsApartBy :
    (AssetDescription → AssetDescription → Type 0) → List AssetDescription → Type 0
IsApartBy R [] = Unit {0}
IsApartBy R (a ∷ l) = All (λ b. R a b) l × IsApartBy R l

append-IsApartBy :
    (R : AssetDescription → AssetDescription → Type 0) (l : List AssetDescription)
    (a : AssetDescription)
    → IsApartBy R l
    → All (λ b. R b a) l
    → IsApartBy R (l ++ (a ∷ []))
append-IsApartBy R [] a h new = (tt, tt)
append-IsApartBy R (b ∷ l) a h new =
    (All-append (R b) l (a ∷ []) h.0 (new.0, tt), append-IsApartBy R l a h.1 new.1)

abbrev pub HasOtherId : AssetDescription → AssetDescription → Type 0
HasOtherId a b = a.asset_id ≢ b.asset_id

abbrev pub HasOtherName : AssetDescription → AssetDescription → Type 0
HasOtherName a b = a.logical_name ≢ b.logical_name

abbrev pub IsValid : AssetDescription → Type 0
IsValid a = is_asset_description_valid a ≡ true

-- A manifest that the client may act on.
pub record IsAcceptable (m : Manifest) : Type 0 where
  pub nonzero : 0 < m.revision
  pub valid : All IsValid m.assets
  pub ids : IsApartBy HasOtherId m.assets
  pub names : IsApartBy HasOtherName m.assets
  pub count_fits : length m.assets ≤ 256
  pub total : m.total_download_size ≡ sum_sizes m.assets
  pub total_fits : m.total_download_size ≤ 536870912

-- What is collected so far.
pub record IsPartial (s : ManifestReceiver) : Type 0 where
  pub nonzero : 0 < s.manifest.revision
  pub valid : All IsValid s.manifest.assets
  pub ids : IsApartBy HasOtherId s.manifest.assets
  pub names : IsApartBy HasOtherName s.manifest.assets
  pub seen_ids : All (λ a. has a.asset_id s.asset_ids ≡ true) s.manifest.assets
  pub seen_names : All (λ a. has a.logical_name s.logical_names ≡ true) s.manifest.assets
  pub expected : s.expected_count ≤ 256
  pub count_fits : length s.manifest.assets ≤ s.expected_count
  pub total_fits : s.manifest.total_download_size ≤ 536870912

-- A receiver that is receiving has a sound part, and a completed manifest is acceptable.
pub record IsSafe (s : ManifestReceiver) : Type 0 where
  pub part : s.state ≡ receiving → IsPartial s
  pub result : (m : Manifest) → s.completed ≡ some m → IsAcceptable m

pub is_receiving-eq : (s : State) → is_receiving s ≡ true → s ≡ receiving
is_receiving-eq idle h = cc
is_receiving-eq receiving h = refl
is_receiving-eq State.complete h = cc
is_receiving-eq failed h = cc

pub handle_begin-IsSafe :
    (s : ManifestReceiver) (b : ManifestBegin) → IsSafe s → IsSafe (handle_begin s b).0
unfolding handle_begin
handle_begin-IsSafe s b v = elim (Bool-cases (is_idle s.state)) [
  | inr e ↦ rw e (record { part = λ q. cc; result = v.result })
  | inl e ↦
      elim (Bool-cases (
        b.manifest_revision == 0
        || ltb 256 b.asset_count
        || ltb 536870912 b.total_download_size
        || (b.asset_count == 0 && not (b.total_download_size == 0)))) [
          | inl bad ↦ rw (e, bad) (record { part = λ q. cc; result = v.result })
          | inr good ↦
              rw (e, good)
                (record {
                  part = λ q. record {
                    nonzero = ground (arith, good);
                    valid = tt;
                    ids = tt;
                    names = tt;
                    seen_ids = tt;
                    seen_names = tt;
                    expected = ground (arith, good);
                    count_fits = omega arith;
                    total_fits = ground (arith, good);
                  };
                  result = λ m q. cc;
                })
        ]
]

distinct :
    {K : Type 0} (s : List K) ⦃key : Key K⦄ (x y : K) → has x s ≡ false → has y s ≡ true → y ≢ x
distinct s x y new old q = cc

All-map :
    (P Q : AssetDescription → Type 0)
    → ((b : AssetDescription) → P b → Q b)
    → (l : List AssetDescription) → All P l
    → All Q l
All-map P Q f [] h = tt
All-map P Q f (b ∷ l) h = (f b h.0, All-map P Q f l h.1)

-- The tests on the order of an asset.
abbrev pub is_out_of_order : ManifestReceiver → ManifestAsset → Bool
is_out_of_order s item =
    not (is_receiving s.state)
    || not (item.manifest_revision == s.manifest.revision)
    || not (item.asset_index == length s.manifest.assets)
    || leb s.expected_count (length s.manifest.assets)

pub handle_asset-IsSafe :
    (s : ManifestReceiver) (item : ManifestAsset) → IsSafe s → IsSafe (handle_asset s item).0
unfolding handle_asset
handle_asset-IsSafe s item v = elim (Bool-cases (is_out_of_order s item)) [
  | inl e ↦ rw e broken
  | inr e ↦
      elim (Bool-cases (
        not (is_asset_description_valid a)
        || ltb ((1048576 + 2 ^ 32 - s.manifest_bytes) % 2 ^ 32) (serialized_asset_bytes a))) [
          | inl bad ↦ rw (e, bad) broken
          | inr good ↦ elim (Bool-cases (has a.asset_id s.asset_ids)) [
            | inl old ↦ rw (e, good, old) broken
            | inr new_id ↦ elim (Bool-cases (has a.logical_name s.logical_names)) [
              | inl old ↦ rw (e, good, new_id, old) (record { part = λ q. cc; result = v.result })
              | inr new_name ↦
                  let p : IsPartial s = v.part (is_receiving-eq s.state (ground (arith, e))) in
                  let room : length s.manifest.assets < s.expected_count = ground (arith, e) in
                  rw (e, good, new_id, new_name)
                    (record {
                      part = λ q. longer p room (ground (arith, good)) new_id new_name;
                      result = v.result;
                    })
            ]
          ]
        ]
]
  where
    a : AssetDescription
    a = item.asset

    broken : IsSafe (record s { state = failed })
    broken = record { part = λ q. cc; result = v.result }

    longer :
        IsPartial s
        → length s.manifest.assets < s.expected_count
        → IsValid a
        → has a.asset_id s.asset_ids ≡ false
        → has a.logical_name s.logical_names ≡ false
        → IsPartial (record s {
          asset_ids = insert a.asset_id s.asset_ids;
          logical_names = insert a.logical_name s.logical_names;
          manifest_bytes = s.manifest_bytes + serialized_asset_bytes a;
          manifest = record (s.manifest) { assets = s.manifest.assets ++ (a ∷ []) };
        })
    longer p room valid new_id new_name =
        let l = s.manifest.assets in
        record {
          nonzero = p.nonzero;
          valid = All-append IsValid l (a ∷ []) p.valid (valid, tt);
          ids = append-IsApartBy HasOtherId l a p.ids (
              All-map _ (λ b. HasOtherId b a)
                (λ b h. distinct s.asset_ids a.asset_id b.asset_id new_id h) l p.seen_ids);
          names = append-IsApartBy HasOtherName l a p.names (
              All-map _ (λ b. HasOtherName b a)
                (λ b h. distinct s.logical_names a.logical_name b.logical_name new_name h) l
                p.seen_names);
          seen_ids =
              All-append _ l (a ∷ [])
                (All-map _ (λ b. has b.asset_id (insert a.asset_id s.asset_ids) ≡ true)
                  (λ b h. has-insert a.asset_id b.asset_id s.asset_ids h) l p.seen_ids)
                (has-insert_same a.asset_id s.asset_ids, tt);
          seen_names =
              All-append _ l (a ∷ [])
                (All-map _ (λ b. has b.logical_name (insert a.logical_name s.logical_names) ≡ true)
                  (λ b h. has-insert a.logical_name b.logical_name s.logical_names h) l
                  p.seen_names)
                (has-insert_same a.logical_name s.logical_names, tt);
          expected = p.expected;
          count_fits = omega (arith, length-append l (a ∷ []), room);
          total_fits = p.total_fits;
        }

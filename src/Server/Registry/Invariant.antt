-- ===== src/Server/Registry/Invariant.antt =====
-- What every operation of the registry keeps: server/src/asset_registry.cpp.
use custommodels.Base.{
  ℕ, ◌+◌, ◌-◌, ◌%◌, ◌^◌, ◌≤◌, ◌<◌, ◌≡◌, refl, ◌≢◌, true, false, ltb, leb, List, [], ◌∷◌, none, some,
  Option, arith, length, find, emplace-new, IsMap, All, Bool-cases, inl, inr, bytes_key, nat_key,
  ◌==◌, ap,
}
use custommodels.Assets.{Bytes, AssetDescription, is_asset_description_valid}
use custommodels.Protocol.Layout.{IsAsset}
use custommodels.Server.Registry.{
  AssetRegistry, RegistryResult, register_asset, advance_revision, empty_registry, is_some, u64_max,
  added, invalid_asset, duplicate_asset_id, duplicate_logical_name, asset_limit_reached,
  total_size_exceeded,
}

-- The name entries that belong to the asset entries.
abbrev pub names_of : List (ℕ × AssetDescription) → List (Bytes × ℕ)
names_of [] = []
names_of ((id, a) ∷ entries) = (a.logical_name, id) ∷ names_of entries

abbrev pub total_of : List (ℕ × AssetDescription) → ℕ
total_of [] = 0
total_of ((id, a) ∷ entries) = a.file_size + total_of entries

-- An entry stands under its own id, its fields are of their types, and it has passed the validation.
abbrev pub IsEntry : ℕ × AssetDescription → Type 0
IsEntry (id, a) = (a.asset_id ≡ id) × IsAsset a × (is_asset_description_valid a ≡ true)

pub record Inv (r : AssetRegistry) : Type 0 where
  pub nonzero : 0 < r.revision
  pub revision_fits : r.revision ≤ u64_max
  pub ids : IsMap r.assets
  pub entries : All IsEntry r.assets
  pub named : r.logical_names ≡ names_of r.assets
  pub names : IsMap (names_of r.assets)
  pub total : r.total_size ≡ total_of r.assets
  pub total_fits : total_of r.assets ≤ 536870912
  pub count_fits : length r.assets ≤ 256

pub empty_registry-Inv : Inv empty_registry
empty_registry-Inv = record {
  nonzero = omega arith;
  revision_fits = omega arith;
  ids = tt;
  entries = tt;
  named = refl;
  names = tt;
  total = refl;
  total_fits = omega arith;
  count_fits = omega arith;
}

pub advance_revision-Inv : (r : AssetRegistry) → Inv r → Inv (advance_revision r)
unfolding advance_revision
advance_revision-Inv r v = elim (Bool-cases (r.revision == u64_max)) [
  | inl e ↦ rw e v
  | inr e ↦ rw e (record {
    nonzero = omega arith;
    revision_fits = ground (arith, v.revision_fits);
    ids = v.ids;
    entries = v.entries;
    named = v.named;
    names = v.names;
    total = v.total;
    total_fits = v.total_fits;
    count_fits = v.count_fits;
  })
]

-- The state after a registration that passed every check.
unfoldable pub accepted : AssetRegistry → AssetDescription → AssetRegistry
accepted r a = record r {
  total_size = r.total_size + a.file_size;
  assets = (a.asset_id, a) ∷ r.assets;
  logical_names = (a.logical_name, a.asset_id) ∷ r.logical_names;
}

accepted-Inv :
    (r : AssetRegistry) (a : AssetDescription)
    → IsAsset a
    → is_asset_description_valid a ≡ true
    → find a.asset_id r.assets ≡ none
    → find a.logical_name r.logical_names ≡ none
    → length r.assets < 256
    → r.total_size + a.file_size ≤ 536870912
    → Inv r
    → Inv (accepted r a)
unfolding accepted
accepted-Inv r a t valid new_id new_name room fits v = record {
  nonzero = v.nonzero;
  revision_fits = v.revision_fits;
  ids = (new_id, v.ids);
  entries = ((refl, t, valid), v.entries);
  named = ap (λ t. (a.logical_name, a.asset_id) ∷ t) v.named;
  names = (rw v.named at new_name, v.names);
  total = omega (arith, v.total);
  total_fits = omega (arith, v.total);
  count_fits = omega arith;
}

-- What registration does: it answers `Added` exactly where every check passes.
pub data Registration (r : AssetRegistry) (a : AssetDescription) : Type 0 where
  refused : (why : RegistryResult) → why ≢ added → register_asset r a ≡ (r, why) → Registration r a
  granted :
      is_asset_description_valid a ≡ true
      → find a.asset_id r.assets ≡ none
      → find a.logical_name r.logical_names ≡ none
      → length r.assets < 256
      → r.total_size + a.file_size ≤ 536870912
      → register_asset r a ≡ (advance_revision (accepted r a), added)
      → Registration r a

is_some-false : {A : Type 0} (o : Option A) → is_some o ≡ false → o ≡ none
is_some-false none h = refl
is_some-false (some a) h = cc

register_asset-cases :
    (r : AssetRegistry) (a : AssetDescription) → IsAsset a → Inv r → Registration r a
unfolding register_asset accepted
register_asset-cases r a t v = elim (Bool-cases (is_asset_description_valid a)) [
  | inr e ↦ refused invalid_asset (λ q. cc) (rw e)
  | inl valid ↦ elim (Bool-cases (is_some (find a.asset_id r.assets))) [
    | inl e ↦ refused duplicate_asset_id (λ q. cc) (rw (valid, e))
    | inr new_id ↦ elim (Bool-cases (is_some (find a.logical_name r.logical_names))) [
      | inl e ↦ refused duplicate_logical_name (λ q. cc) (rw (valid, new_id, e))
      | inr new_name ↦ elim (Bool-cases (leb 256 (length r.assets))) [
        | inl e ↦ refused asset_limit_reached (λ q. cc) (rw (valid, new_id, new_name, e))
        | inr room ↦
            elim (Bool-cases (ltb ((536870912 + 2 ^ 64 - r.total_size) % 2 ^ 64) a.file_size)) [
              | inl e ↦
                  refused total_size_exceeded (λ q. cc) (rw (valid, new_id, new_name, room, e))
              | inr fits ↦
                  let id : find a.asset_id r.assets ≡ none = is_some-false _ new_id in
                  let name : find a.logical_name r.logical_names ≡ none =
                    is_some-false _ new_name in
                  let below : r.total_size + a.file_size ≤ 536870912 =
                    ground (arith, v.total, v.total_fits) in
                  let sum : (r.total_size + a.file_size) % 2 ^ 64 ≡ r.total_size + a.file_size =
                    omega (arith, below) in
                  granted valid id name (ground arith) below (
                    rw (
                      valid,
                      new_id,
                      new_name,
                      room,
                      fits,
                      sum,
                      emplace-new _ a r.assets id,
                      emplace-new _ a.asset_id r.logical_names name,
                    ))
            ]
      ]
    ]
  ]
]

-- Registration keeps the invariant, whatever it answers. The fields are of their C++ types.
pub register_asset-Inv :
    (r : AssetRegistry) (a : AssetDescription) → IsAsset a → Inv r → Inv (register_asset r a).0
register_asset-Inv r a t v = by_cases (register_asset-cases r a t v)
  where
    by_cases : Registration r a → Inv (register_asset r a).0
    by_cases (refused why other e) = rw e v
    by_cases (granted valid id name room fits e) =
        rw e (advance_revision-Inv (accepted r a) (accepted-Inv r a t valid id name room fits v))

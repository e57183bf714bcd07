-- ===== src/Server/Registry/Removal.antt =====
-- Removing and clearing keep the invariant of the registry: server/src/asset_registry.cpp.
use custommodels.Base.{
  ℕ, suc, ◌+◌, ◌-◌, ◌%◌, ◌^◌, ◌≡◌, refl, ◌≢◌, List, [], ◌∷◌, none, some, arith, length, find, erase,
  IsMap, erase-IsMap, All, Option-cases, Bool-cases, inl, inr, bytes_key, nat_key, same_bytes, ◌==◌,
  same_bytes→eq, same_bytes_refl, ap,
}
use custommodels.Assets.{AssetDescription}
use custommodels.Server.Registry.{
  AssetRegistry, remove_asset, clear_assets, advance_revision, removed,
}
use custommodels.Server.Registry.Invariant.{Inv, IsEntry, names_of, total_of, advance_revision-Inv}

total_of-erase :
    (id : ℕ) (a : AssetDescription) (m : List (ℕ × AssetDescription))
    → find id m ≡ some a
    → total_of m ≡ a.file_size + total_of (erase id m)
unfolding find erase
total_of-erase id a [] h = cc
total_of-erase id a ((j, b) ∷ m) h = ground (arith, total_of-erase id a m)

length-erase :
    (id : ℕ) (a : AssetDescription) (m : List (ℕ × AssetDescription))
    → find id m ≡ some a
    → length m ≡ suc (length (erase id m))
unfolding find erase
length-erase id a [] h = cc
length-erase id a ((j, b) ∷ m) h = ground (arith, length-erase id a m)

All-erase : (id : ℕ) (m : List (ℕ × AssetDescription)) → All IsEntry m → All IsEntry (erase id m)
unfolding erase
All-erase id [] h = h
All-erase id ((j, b) ∷ m) h = elim (Bool-cases (j == id)) [
  | inl e ↦ rw e h.1
  | inr e ↦ rw e (h.0, All-erase id m h.1)
]

-- An entry that is found puts its name among the names.
named_of-find :
    (id : ℕ) (a : AssetDescription) (m : List (ℕ × AssetDescription))
    → find id m ≡ some a
    → find a.logical_name (names_of m) ≢ none
unfolding find
named_of-find id a [] h q = cc
named_of-find id a ((j, b) ∷ m) h q =
    ground (arith, same_bytes_refl a.logical_name, named_of-find id a m)

-- Taking out an entry and its name leaves the names of the other entries.
names_of-erase :
    (id : ℕ) (a : AssetDescription) (m : List (ℕ × AssetDescription))
    → IsMap (names_of m)
    → find id m ≡ some a
    → erase a.logical_name (names_of m) ≡ names_of (erase id m)
unfolding erase find
names_of-erase id a [] h e = cc
names_of-erase id a ((j, b) ∷ m) h e = elim (Bool-cases (j == id)) [
  | inl found ↦ let same : b ≡ a = ground arith in rw (found, same, same_bytes_refl a.logical_name)
  | inr other ↦
      let later : find id m ≡ some a = rw other at e in
      elim (Bool-cases (same_bytes b.logical_name a.logical_name)) [
        | inl same ↦
            let name = same_bytes→eq b.logical_name a.logical_name same in
            absurd (named_of-find id a m later (rw name at (h.0)))
        | inr distinct ↦
            rw (other, distinct)
              (ap (λ t. (b.logical_name, j) ∷ t) (names_of-erase id a m h.1 later))
      ]
]

remove_asset-found :
    (r : AssetRegistry) (id : ℕ) (a : AssetDescription)
    → find id r.assets ≡ some a
    → Inv r
    → remove_asset r id ≡ (
      advance_revision (record r {
        total_size = total_of (erase id r.assets);
        assets = erase id r.assets;
        logical_names = names_of (erase id r.assets);
      }),
      removed,
    )
unfolding remove_asset
remove_asset-found r id a e v =
    let rest = erase id r.assets in
    let sum = total_of-erase id a r.assets e in
    let total : (r.total_size + 2 ^ 64 - a.file_size) % 2 ^ 64 ≡ total_of rest =
      omega (arith, sum, v.total, v.total_fits) in
    rw (e, remove_asset, total, v.named, names_of-erase id a r.assets v.names e)

-- Removal keeps the invariant, whatever it answers.
pub remove_asset-Inv : (r : AssetRegistry) (id : ℕ) → Inv r → Inv (remove_asset r id).0
unfolding remove_asset
remove_asset-Inv r id v = elim (Option-cases (find id r.assets)) [
  | inl e ↦ rw (e, remove_asset) v
  | inr (a, e) ↦
      let rest = erase id r.assets in
      rw (remove_asset-found r id a e v) (
        advance_revision-Inv _ (record {
          nonzero = v.nonzero;
          revision_fits = v.revision_fits;
          ids = erase-IsMap id r.assets v.ids;
          entries = All-erase id r.assets v.entries;
          named = refl;
          names =
              rw (← names_of-erase id a r.assets v.names e)
                (erase-IsMap a.logical_name (names_of r.assets) v.names);
          total = refl;
          total_fits = omega (arith, total_of-erase id a r.assets e, v.total_fits);
          count_fits = omega (arith, length-erase id a r.assets e, v.count_fits);
        }))
]

pub clear_assets-Inv : (r : AssetRegistry) → Inv r → Inv (clear_assets r).0
unfolding clear_assets
clear_assets-Inv r v = cases r.assets refl
  where
    emptied : Inv (record r { total_size = 0; assets = []; logical_names = [] })
    emptied = record {
      nonzero = v.nonzero;
      revision_fits = v.revision_fits;
      ids = tt;
      entries = tt;
      named = refl;
      names = tt;
      total = refl;
      total_fits = omega arith;
      count_fits = omega arith;
    }

    cases : (l : List (ℕ × AssetDescription)) → r.assets ≡ l → Inv (clear_assets r).0
    cases [] e = rw (e, clear_assets) v
    cases (x ∷ l) e = rw (e, clear_assets) (advance_revision-Inv _ emptied)

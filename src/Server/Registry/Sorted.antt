-- ===== src/Server/Registry/Sorted.antt =====
-- The manifest that `BuildManifest` of server/src/asset_registry.cpp makes of a registry.
use mathlib.Core.List.{Perm}
use mathlib.Core.List.Perm
use custommodels.Base.{
  ℕ, suc, ◌+◌, ◌≤◌, ◌<◌, ◌≡◌, ◌≢◌, refl, true, List, [], ◌∷◌, none, arith, length, find, IsMap, All,
  Bool-cases, inl, inr, sym, ◌∙◌, ltb, ◌==◌, same_bytes, nat_key, bytes_key, same_bytes_refl,
}
use custommodels.Assets.{Bytes, AssetDescription, Manifest, is_asset_description_valid}
use custommodels.Protocol.Layout.{IsAsset}
use custommodels.Server.Registry.{
  AssetRegistry, insert_sorted, sort_assets, described, build_manifest, u64_max,
}
use custommodels.Server.Registry.Invariant.{Inv, IsEntry, names_of, total_of}

abbrev pub sum_sizes : List AssetDescription → ℕ
sum_sizes [] = 0
sum_sizes (a ∷ assets) = a.file_size + sum_sizes assets

-- The ids strictly ascend, so that no two are the same.
abbrev pub IsAscending : List AssetDescription → Type 0
IsAscending [] = Unit {0}
IsAscending (a ∷ assets) = All (λ b. a.asset_id < b.asset_id) assets × IsAscending assets

-- No two logical names are the same.
abbrev pub IsApart : List AssetDescription → Type 0
IsApart [] = Unit {0}
IsApart (a ∷ assets) = All (λ b. a.logical_name ≢ b.logical_name) assets × IsApart assets

abbrev pub IsGood : AssetDescription → Type 0
IsGood a = IsAsset a × (is_asset_description_valid a ≡ true)

module _ (P : AssetDescription → Type 0) where
  All-insert_sorted :
      (a : AssetDescription) (l : List AssetDescription) → P a → All P l → All P (insert_sorted a l)
  unfolding insert_sorted
  All-insert_sorted a [] p h = (p, tt)
  All-insert_sorted a (b ∷ l) p h = elim (Bool-cases (ltb a.asset_id b.asset_id)) [
    | inl e ↦ rw e (p, h)
    | inr e ↦ rw e (h.0, All-insert_sorted a l p h.1)
  ]

  All-sort_assets : (l : List AssetDescription) → All P l → All P (sort_assets l)
  unfolding sort_assets
  All-sort_assets [] h = tt
  All-sort_assets (a ∷ l) h = All-insert_sorted a (sort_assets l) h.0 (All-sort_assets l h.1)

All-weaken :
    (P Q : AssetDescription → Type 0)
    → ((b : AssetDescription) → P b → Q b)
    → (l : List AssetDescription) → All P l
    → All Q l
All-weaken P Q f [] h = tt
All-weaken P Q f (b ∷ l) h = (f b h.0, All-weaken P Q f l h.1)

IsAscending-insert_sorted :
    (a : AssetDescription) (l : List AssetDescription)
    → All (λ b. a.asset_id ≢ b.asset_id) l
    → IsAscending l
    → IsAscending (insert_sorted a l)
unfolding insert_sorted
IsAscending-insert_sorted a [] fresh h = (tt, tt)
IsAscending-insert_sorted a (b ∷ l) fresh h = elim (Bool-cases (ltb a.asset_id b.asset_id)) [
  | inl e ↦
      let first : a.asset_id < b.asset_id = ground arith in
      rw e ((first, All-weaken _ _ (λ c p. omega (arith, first)) l h.0), h)
  | inr e ↦
      let first : b.asset_id < a.asset_id = ground (arith, fresh.0) in
      rw e (
        All-insert_sorted (λ c. b.asset_id < c.asset_id) a l first h.0,
        IsAscending-insert_sorted a l fresh.1 h.1,
      )
]

IsApart-insert_sorted :
    (a : AssetDescription) (l : List AssetDescription)
    → All (λ b. a.logical_name ≢ b.logical_name) l
    → IsApart l
    → IsApart (insert_sorted a l)
unfolding insert_sorted
IsApart-insert_sorted a [] fresh h = (tt, tt)
IsApart-insert_sorted a (b ∷ l) fresh h = elim (Bool-cases (ltb a.asset_id b.asset_id)) [
  | inl e ↦ rw e (fresh, h)
  | inr e ↦ rw e (
    All-insert_sorted (λ c. b.logical_name ≢ c.logical_name) a l (λ q. fresh.0 (sym q)) h.0,
    IsApart-insert_sorted a l fresh.1 h.1,
  )
]

insert_sorted-perm :
    (a : AssetDescription) (l : List AssetDescription) → Perm (insert_sorted a l) (a ∷ l)
unfolding insert_sorted
insert_sorted-perm a [] = Perm.refl _
insert_sorted-perm a (b ∷ l) = elim (Bool-cases (ltb a.asset_id b.asset_id)) [
  | inl e ↦ rw e (Perm.refl _)
  | inr e ↦ rw e (Perm.trans (Perm.cons b (insert_sorted-perm a l)) (Perm.swap a b l))
]

sort_assets-perm : (l : List AssetDescription) → Perm (sort_assets l) l
unfolding sort_assets
sort_assets-perm [] = Perm.refl _
sort_assets-perm (a ∷ l) =
    Perm.trans (insert_sorted-perm a (sort_assets l)) (Perm.cons a (sort_assets-perm l))

sum_sizes-insert_sorted :
    (a : AssetDescription) (l : List AssetDescription)
    → sum_sizes (insert_sorted a l) ≡ a.file_size + sum_sizes l
unfolding insert_sorted
sum_sizes-insert_sorted a [] = refl
sum_sizes-insert_sorted a (b ∷ l) = ground (arith, sum_sizes-insert_sorted a l)

length-insert_sorted :
    (a : AssetDescription) (l : List AssetDescription) → length (insert_sorted a l) ≡ suc (length l)
unfolding insert_sorted
length-insert_sorted a [] = refl
length-insert_sorted a (b ∷ l) = ground (arith, length-insert_sorted a l)

-- The facts about the entries of a registry, one entry after the other.
sum_sizes-sorted :
    (m : List (ℕ × AssetDescription)) → sum_sizes (sort_assets (described m)) ≡ total_of m
unfolding sort_assets
sum_sizes-sorted [] = refl
sum_sizes-sorted ((id, a) ∷ m) =
    omega (arith, sum_sizes-sorted m, sum_sizes-insert_sorted a (sort_assets (described m)))

length-sorted : (m : List (ℕ × AssetDescription)) → length (sort_assets (described m)) ≡ length m
unfolding sort_assets
length-sorted [] = refl
length-sorted ((id, a) ∷ m) =
    omega (arith, length-sorted m, length-insert_sorted a (sort_assets (described m)))

IsGood-described : (m : List (ℕ × AssetDescription)) → All IsEntry m → All IsGood (described m)
IsGood-described [] h = tt
IsGood-described ((id, a) ∷ m) h = (((h.0).1, (h.0).2), IsGood-described m h.1)

fresh_ids :
    (id : ℕ) (m : List (ℕ × AssetDescription))
    → All IsEntry m
    → find id m ≡ none
    → All (λ b. id ≢ b.asset_id) (described m)
unfolding find
fresh_ids id [] h e = tt
fresh_ids id ((j, b) ∷ m) h e = elim (Bool-cases (j == id)) [
  | inl q ↦ absurd (ground arith)
  | inr q ↦ ((λ p. ground (arith, (h.0).0)), fresh_ids id m h.1 (rw q at e))
]

fresh_names :
    (name : Bytes) (m : List (ℕ × AssetDescription))
    → find name (names_of m) ≡ none
    → All (λ b. name ≢ b.logical_name) (described m)
unfolding find
fresh_names name [] e = tt
fresh_names name ((j, b) ∷ m) e = elim (Bool-cases (same_bytes b.logical_name name)) [
  | inl q ↦ absurd (ground arith)
  | inr q ↦ ((λ p. ground (arith, same_bytes_refl name)), fresh_names name m (rw q at e))
]

IsAscending-sorted :
    (m : List (ℕ × AssetDescription))
    → IsMap m
    → All IsEntry m
    → IsAscending (sort_assets (described m))
unfolding sort_assets
IsAscending-sorted [] h v = tt
IsAscending-sorted ((id, a) ∷ m) h v =
    IsAscending-insert_sorted a (sort_assets (described m))
      (All-sort_assets _ (described m) (rw (← (v.0).0) at (fresh_ids id m v.1 h.0)))
      (IsAscending-sorted m h.1 v.1)

IsApart-sorted :
    (m : List (ℕ × AssetDescription)) → IsMap (names_of m) → IsApart (sort_assets (described m))
unfolding sort_assets
IsApart-sorted [] h = tt
IsApart-sorted ((id, a) ∷ m) h =
    IsApart-insert_sorted a (sort_assets (described m))
      (All-sort_assets _ (described m) (fresh_names a.logical_name m h.0)) (IsApart-sorted m h.1)

-- A manifest that may be published: the bounds of the protocol hold, every description is valid,
-- the ids ascend, the names differ, and the announced total is the sum of the file sizes.
pub record IsPublishable (m : Manifest) : Type 0 where
  pub nonzero : 0 < m.revision
  pub revision_fits : m.revision ≤ u64_max
  pub good : All IsGood m.assets
  pub ascending : IsAscending m.assets
  pub apart : IsApart m.assets
  pub total : m.total_download_size ≡ sum_sizes m.assets
  pub total_fits : m.total_download_size ≤ 536870912
  pub count_fits : length m.assets ≤ 256

-- The manifest of a registry may be published, and it holds the registered descriptions, each once.
pub build_manifest-IsPublishable :
    (r : AssetRegistry)
    → Inv r
    → IsPublishable (build_manifest r) × Perm (build_manifest r).assets (described r.assets)
unfolding build_manifest
build_manifest-IsPublishable r v = (
  record {
    nonzero = v.nonzero;
    revision_fits = v.revision_fits;
    good = All-sort_assets IsGood _ (IsGood-described r.assets v.entries);
    ascending = IsAscending-sorted r.assets v.ids v.entries;
    apart = IsApart-sorted r.assets v.names;
    total = v.total ∙ sym (sum_sizes-sorted r.assets);
    total_fits = omega (arith, v.total, v.total_fits);
    count_fits = omega (arith, length-sorted r.assets, v.count_fits);
  },
  sort_assets-perm (described r.assets),
)

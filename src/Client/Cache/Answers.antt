-- ===== src/Client/Cache/Answers.antt =====
-- What the answers of `AssetCache::Lookup` are worth: client/src/assets/cache.cpp.
use custommodels.Base.{
  ◌≡◌, ◌≢◌, refl, ◌∙◌, ap, not, ◌||◌, ◌&&◌, List, none, ◌==◌, length, arith, find, Bool-cases, inl,
  inr, same_bytes, same_bytes→eq,
}
use custommodels.Assets.{Bytes, AssetDescription}
use custommodels.Client.Files.{
  FilePath, FileSystem, Entry, path_key, next, HasFile, without-other, without-same,
}
use custommodels.Client.Files.Outcomes.{
  exists-cases, is_regular_file-cases, file_size-cases, sha256_file-cases, remove_path-cases,
}
use custommodels.Client.Cache.{
  AssetCache, CacheLookup, hit, miss, disk_failure, path_for, discard, compare_file, lookup,
}

module _ (hash : Bytes → Bytes) (cache : AssetCache) where
  -- The file has the size and the digest of the description.
  abbrev pub IsWanted : AssetDescription → Bytes → Type 0
  IsWanted a content = (length content ≡ a.file_size) × (hash content ≡ a.sha256)

  -- The cache holds the file of the description.
  abbrev pub IsCached : FileSystem → AssetDescription → Type 0
  IsCached fs a = (content : Bytes) × HasFile fs (path_for cache a) content × IsWanted a content

  -- The paths other than `p` hold what they held.
  abbrev pub IsKeptBut : FilePath → FileSystem → FileSystem → Type 0
  IsKeptBut p fs last = (q : FilePath) → p ≢ q → find q last.entries ≡ find q fs.entries

  abbrev pub IsAnswer : FileSystem → AssetDescription → FileSystem × CacheLookup → Type 0
  IsAnswer fs a (last, hit) = IsCached last a × (last.entries ≡ fs.entries)
  IsAnswer fs a (last, miss) =
      (find (path_for cache a) last.entries ≡ none) × IsKeptBut (path_for cache a) fs last
  IsAnswer fs a (last, disk_failure) = last.entries ≡ fs.entries

  discard-IsAnswer :
      (fs now : FileSystem) (a : AssetDescription)
      → now.entries ≡ fs.entries
      → IsAnswer fs a (discard now (path_for cache a))
  unfolding discard
  discard-IsAnswer fs now a h = elim (remove_path-cases now (path_for cache a)) [
    | inl e ↦ rw e h
    | inr e ↦ rw e (
      without-same (path_for cache a) now.entries,
      λ q apart.
          without-other (path_for cache a) q now.entries apart
          ∙ ap (λ (m : List (FilePath × Entry)). find q m) h,
    )
  ]

  compare_file-IsAnswer :
      (fs now : FileSystem) (a : AssetDescription)
      → now.entries ≡ fs.entries
      → IsAnswer fs a (compare_file hash cache now a)
  unfolding compare_file
  compare_file-IsAnswer fs now a h = elim (file_size-cases now (path_for cache a)) [
    | inl e ↦ rw (compare_file, e, e) (discard-IsAnswer fs _ a h)
    | inr (content, held, e) ↦ elim (sha256_file-cases (next now) (path_for cache a) hash) [
      | inl d ↦ elim (Bool-cases (length content == a.file_size)) [
        | inl n ↦ rw (compare_file, e, compare_file, e, d, n) (discard-IsAnswer fs _ a h)
        | inr n ↦ rw (compare_file, e, compare_file, e, d, n) (discard-IsAnswer fs _ a h)
      ]
      | inr (same, also, d) ↦
          elim (Bool-cases (length content == a.file_size && same_bytes (hash same) a.sha256)) [
            | inr other ↦
                rw (compare_file, e, compare_file, e, d, other) (discard-IsAnswer fs _ a h)
            | inl equal ↦
                let one : content ≡ same = cc in
                rw (compare_file, e, compare_file, e, d, equal)
                  (
                    (
                      same,
                      also,
                      (
                        ground (arith, one, equal),
                        ground (arith, equal, same_bytes→eq (hash same) a.sha256),
                      ),
                    ),
                    h,
                  )
          ]
    ]
  ]

  -- After a hit the cache holds a file with the declared size and digest, and nothing changed;
  -- after a miss nothing stands at the file's path, and the other paths hold what they held; after
  -- a disk failure nothing changed. This holds for every state of the disk and every script of
  -- faults.
  pub lookup-IsAnswer :
      (fs : FileSystem) (a : AssetDescription) → IsAnswer fs a (lookup hash cache fs a)
  unfolding lookup
  lookup-IsAnswer fs a = elim (exists-cases fs (path_for cache a)) [
    | inl e ↦ rw (e, lookup) refl
    | inr (inl (e, free)) ↦ rw (e, lookup) (free, λ q apart. refl)
    | inr (inr e) ↦
        let (regular, failed, k) = is_regular_file-cases (next fs) (path_for cache a) in
        elim (Bool-cases (not regular || failed)) [
          | inl bad ↦ rw (e, lookup, k, lookup, bad) (discard-IsAnswer fs _ a refl)
          | inr good ↦ rw (e, lookup, k, lookup, good) (compare_file-IsAnswer fs _ a refl)
        ]
  ]

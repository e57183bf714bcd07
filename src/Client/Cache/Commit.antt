-- ===== src/Client/Cache/Commit.antt =====
-- What `AssetCache::CommitVerified` leaves: client/src/assets/cache.cpp.
use custommodels.Base.{
  ◌+◌, ◌≡◌, ◌≢◌, sym, ◌∙◌, ap, Bool, true, List, [], ◌∷◌, ◌++◌, if◌then◌else◌, length,
  length-append, arith, find, inl, inr, subst,
}
use custommodels.Assets.{Bytes, AssetDescription}
use custommodels.Client.Files.{
  FilePath, FileSystem, Entry, path_key, next, HasFile, without-other, put-same, directories-file,
}
use custommodels.Client.Files.Outcomes.{
  exists-cases, remove_path-cases, create_directories-cases, rename-cases,
}
use custommodels.Client.Cache.{
  AssetCache, CacheLookup, hit, miss, disk_failure, path_for, temporary_path_for, folder_for,
  move_in, commit_verified, remove_temporary, is_hit,
}
use custommodels.Client.Cache.Answers.{IsWanted, IsCached, IsAnswer, lookup-IsAnswer}

two_more : (root : FilePath) (x y : Bytes) → length (root ++ (x ∷ y ∷ [])) ≡ length root + 2
two_more root x y = length-append root (x ∷ y ∷ [])

-- The two directories of the cache keep the two paths apart.
pub temporary-apart :
    (cache : AssetCache) (a b : AssetDescription) → temporary_path_for cache a ≢ path_for cache b
unfolding temporary_path_for path_for folder_for
temporary-apart cache a b e =
    absurd (omega (arith, ap (λ (p : FilePath). length p) e, two_more cache.root _ _, longer))
  where
    longer : length (path_for cache b) ≡ length cache.root + 3
    longer = omega (arith, length-append (folder_for cache b) _, two_more cache.root _ _)

module _ (hash : Bytes → Bytes) (cache : AssetCache) where
  -- After a success the cache holds the file.
  abbrev pub IsCommitted : AssetDescription → FileSystem × Bool → Type 0
  IsCommitted a (last, done) = done ≡ true → IsCached hash cache last a

  -- A file that is still to move in.
  module _ (a : AssetDescription) (temporary : FilePath) (content : Bytes)
      (wanted : IsWanted hash cache a content) where
    move_in-IsCommitted :
        (fs : FileSystem)
        → HasFile fs temporary content
        → IsCommitted a (move_in cache fs a temporary)
    unfolding move_in
    move_in-IsCommitted fs held = elim (rename-cases fs temporary (path_for cache a)) [
      | inl e ↦ rw e (λ q. cc)
      | inr (other, also, e) ↦
          let same : content ≡ other = cc in
          rw e (λ q. (other, put-same _ _ _, subst (IsWanted hash cache a) same wanted))
    ]

    module _ (apart : temporary ≢ path_for cache a) where
      after_lookup :
          (fs : FileSystem) (answer : FileSystem × CacheLookup)
          → HasFile fs temporary content
          → IsAnswer hash cache fs a answer
          → IsCommitted a (
              if is_hit answer.1
              then (remove_temporary answer.0 temporary, true)
              else move_in cache answer.0 a temporary)
      unfolding remove_temporary
      after_lookup fs (looked, hit) held h = elim (remove_path-cases looked temporary) [
        | inl e ↦ rw e (λ q. h.0)
        | inr e ↦ rw e (λ q.
            (h.0.0, without-other temporary (path_for cache a) looked.entries apart ∙ h.0.1, h.0.2))
      ]
      after_lookup fs (looked, miss) held h =
          move_in-IsCommitted looked (h.1 temporary (λ q. apart (sym q)) ∙ held)
      after_lookup fs (looked, disk_failure) held h =
          move_in-IsCommitted looked
            (ap (λ (m : List (FilePath × Entry)). find temporary m) h ∙ held)

      commit_verified-IsCommitted :
          (fs : FileSystem)
          → HasFile fs temporary content
          → IsCommitted a (commit_verified hash cache fs a temporary)
      unfolding commit_verified
      commit_verified-IsCommitted fs held =
          elim (create_directories-cases fs (folder_for cache a)) [
            | inl e ↦ rw e (λ q. cc)
            | inr (last, made, e) ↦
                let kept =
                  directories-file [] (folder_for cache a) temporary content fs.entries last held
                    made in
                let after : FileSystem = record (next fs) { entries = last } in
                elim (exists-cases after (path_for cache a)) [
                  | inl f ↦ rw (e, commit_verified, f) (move_in-IsCommitted _ kept)
                  | inr (inl (f, free)) ↦ rw (e, commit_verified, f) (move_in-IsCommitted _ kept)
                  | inr (inr f) ↦
                      rw (e, commit_verified, f)
                        (after_lookup (next after) _ kept
                          (lookup-IsAnswer hash cache (next after) a))
                ]
          ]

  -- A commit of a temporary file with the declared size and digest that reports success leaves the
  -- cache with such a file, whatever stood at its path, for every script of faults, where the
  -- temporary file is not the cached one.
  pub commit_verified-IsCached :
      (fs : FileSystem) (a : AssetDescription) (temporary : FilePath) (content : Bytes)
      → HasFile fs temporary content
      → IsWanted hash cache a content
      → temporary ≢ path_for cache a
      → (commit_verified hash cache fs a temporary).1 ≡ true
      → IsCached hash cache (commit_verified hash cache fs a temporary).0 a
  commit_verified-IsCached fs a temporary content held wanted apart done =
      commit_verified-IsCommitted a temporary content wanted apart fs held done

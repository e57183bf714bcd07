-- ===== src/Client/Files/Outcomes.antt =====
-- The outcomes of each call on the file system of client/src/assets.
use custommodels.Base.{
  ◌≡◌, refl, ◌⊎◌, Bool, true, false, not, ◌||◌, List, [], none, some, length, find, put, any,
  Bool-cases, Option-cases, inl, inr,
}
use custommodels.Assets.{Bytes}
use custommodels.Client.Files.{
  FilePath, FileSystem, Entry, file, directory, path_key, next, HasFile, is_file, exists,
  is_regular_file, file_size, remove_path, rename, create_directories, directories, sha256_file,
  without, is_faulty, is_missing, is_below, open_output, parent_of, is_directory, put-same,
}

module _ (fs : FileSystem) (p : FilePath) where
  pub exists-cases :
      (exists fs p ≡ (next fs, false, true))
      ⊎ ((exists fs p ≡ (next fs, false, false)) × (find p fs.entries ≡ none))
      ⊎ (exists fs p ≡ (next fs, true, false))
  unfolding exists
  exists-cases = elim (Bool-cases (is_faulty fs)) [
    | inl bad ↦ inl (rw bad refl)
    | inr good ↦ elim (Option-cases (find p fs.entries)) [
      | inl free ↦ inr (inl (rw (good, exists, free) refl, free))
      | inr (e, found) ↦ inr (inr (rw (good, exists, found) refl))
    ]
  ]

  pub is_regular_file-cases :
      (regular error : Bool) × (is_regular_file fs p ≡ (next fs, regular, error))
  unfolding is_regular_file
  is_regular_file-cases = elim (Bool-cases (is_faulty fs)) [
    | inl bad ↦ (false, true, rw bad refl)
    | inr good ↦ (is_file (find p fs.entries), false, rw good refl)
  ]

  pub file_size-cases :
      (file_size fs p ≡ (next fs, none))
      ⊎ ((content : Bytes) × HasFile fs p content
          × (file_size fs p ≡ (next fs, some (length content))))
  unfolding file_size
  file_size-cases = elim (Bool-cases (is_faulty fs)) [
    | inl bad ↦ inl (rw bad refl)
    | inr good ↦ elim (Option-cases (find p fs.entries)) [
      | inl free ↦ inl (rw (good, file_size, free) refl)
      | inr (directory, found) ↦ inl (rw (good, file_size, found) refl)
      | inr (file content, found) ↦ inr (content, found, rw (good, file_size, found) refl)
    ]
  ]

  pub sha256_file-cases :
      (hash : Bytes → Bytes)
      → (sha256_file hash fs p ≡ (next fs, none))
        ⊎ ((content : Bytes) × HasFile fs p content
            × (sha256_file hash fs p ≡ (next fs, some (hash content))))
  unfolding sha256_file
  sha256_file-cases hash = elim (Bool-cases (is_faulty fs)) [
    | inl bad ↦ inl (rw bad refl)
    | inr good ↦ elim (Option-cases (find p fs.entries)) [
      | inl free ↦ inl (rw (good, sha256_file, free) refl)
      | inr (directory, found) ↦ inl (rw (good, sha256_file, found) refl)
      | inr (file content, found) ↦ inr (content, found, rw (good, sha256_file, found) refl)
    ]
  ]

  pub remove_path-cases :
      (remove_path fs p ≡ (next fs, true))
      ⊎ (remove_path fs p ≡ (record (next fs) { entries = without p fs.entries }, false))
  unfolding remove_path
  remove_path-cases = elim (Bool-cases (is_faulty fs)) [
    | inl bad ↦ inl (rw bad refl)
    | inr good ↦ elim (Bool-cases (any (λ entry. is_below p entry.0) fs.entries)) [
      | inl full ↦ inl (rw (good, remove_path, full) refl)
      | inr empty ↦ inr (rw (good, remove_path, empty) refl)
    ]
  ]

  pub create_directories-cases :
      (create_directories fs p ≡ (next fs, true))
      ⊎ ((last : List (FilePath × Entry)) × (directories [] p fs.entries ≡ some last)
          × (create_directories fs p ≡ (record (next fs) { entries = last }, false)))
  unfolding create_directories
  create_directories-cases = elim (Bool-cases (is_faulty fs)) [
    | inl bad ↦ inl (rw bad refl)
    | inr good ↦ elim (Option-cases (directories [] p fs.entries)) [
      | inl blocked ↦ inl (rw (good, create_directories, blocked) refl)
      | inr (last, made) ↦ inr (last, made, rw (good, create_directories, made) refl)
    ]
  ]

  pub rename-cases :
      (destination : FilePath)
      → (rename fs p destination ≡ (next fs, true))
        ⊎ ((content : Bytes) × HasFile fs p content
            × (rename fs p destination ≡ (
              record (next fs) { entries = put destination (file content) (without p fs.entries) },
              false,
            )))
  unfolding rename
  rename-cases destination = elim (Bool-cases (is_faulty fs)) [
    | inl bad ↦ inl (rw bad refl)
    | inr good ↦ elim (Option-cases (find p fs.entries)) [
      | inl free ↦ inl (rw (good, rename, free) refl)
      | inr (directory, found) ↦ inl (rw (good, rename, found) refl)
      | inr (file content, found) ↦
          let there = find destination fs.entries in
          elim (Bool-cases (is_missing there || is_file there)) [
            | inl open_way ↦ inr (content, found, rw (good, rename, found, rename, open_way) refl)
            | inr blocked ↦ inl (rw (good, rename, found, rename, blocked) refl)
          ]
    ]
  ]

  pub open_output-cases :
      (open_output fs p ≡ (next fs, false))
      ⊎ ((last : FileSystem) × HasFile last p [] × (open_output fs p ≡ (last, true)))
  unfolding open_output
  open_output-cases =
      elim (Bool-cases (
        is_faulty fs
        || is_directory (find p fs.entries)
        || not (is_directory (find (parent_of p) fs.entries)))) [
          | inl e ↦ inl (rw e refl)
          | inr e ↦ inr (
            record (next fs) { entries = put p (file []) fs.entries },
            put-same p (file []) fs.entries,
            rw e refl,
          )
        ]

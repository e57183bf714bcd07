-- ===== src/Client/Cache.antt =====
-- The client's cache of verified files: client/include/custommodel/assets/cache.hpp and
-- client/src/assets/cache.cpp. Files stand under the digest of what they hold.
pub mod Answers
pub mod Commit
use custommodels.Base.{
  ℕ, Bool, true, false, not, ◌||◌, ◌&&◌, List, [], ◌∷◌, ◌++◌, Option, none, some, ◌==◌,
  if◌then◌else◌, same_bytes, take,
}
use custommodels.Assets.{Bytes, AssetDescription, AssetType, dff, txd, undeclared}
use custommodels.Client.Files.{
  FilePath, FileSystem, exists, is_regular_file, file_size, remove_path, rename, create_directories,
  sha256_file,
}

pub data CacheLookup : Type 0 where
  hit miss disk_failure : CacheLookup

abbrev sha256_directory : Bytes
sha256_directory = b's' ∷ b'h' ∷ b'a' ∷ b'2' ∷ b'5' ∷ b'6' ∷ []

abbrev tmp_directory : Bytes
tmp_directory = b't' ∷ b'm' ∷ b'p' ∷ []

abbrev tmp_suffix : Bytes
tmp_suffix = b'.' ∷ b't' ∷ b'm' ∷ b'p' ∷ []

-- The bytes of `ExtensionFor(type)`.
unfoldable pub extension_bytes : AssetType → Bytes
extension_bytes dff = b'.' ∷ b'd' ∷ b'f' ∷ b'f' ∷ []
extension_bytes txd = b'.' ∷ b't' ∷ b'x' ∷ b'd' ∷ []
extension_bytes (undeclared n) = []

-- The cache: its directory, and the library's hexadecimal form of a digest, which `Sha256Hex` calls.
pub record AssetCache : Type 0 where
  pub root : FilePath
  pub to_hex : Bytes → Bytes

-- The directory of the files of an asset, and its file.
unfoldable pub folder_for : AssetCache → AssetDescription → FilePath
folder_for cache asset = cache.root ++ (sha256_directory ∷ take 2 (cache.to_hex asset.sha256) ∷ [])

unfoldable pub path_for : AssetCache → AssetDescription → FilePath
unfolding folder_for
path_for cache asset =
    folder_for cache asset ++ ((cache.to_hex asset.sha256 ++ extension_bytes asset.type) ∷ [])

unfoldable pub temporary_path_for : AssetCache → AssetDescription → FilePath
temporary_path_for cache asset =
    cache.root
    ++ (tmp_directory
        ∷ (cache.to_hex asset.sha256 ++ extension_bytes asset.type ++ tmp_suffix)
        ∷ [])

unfoldable pub initialize : AssetCache → FileSystem → FileSystem × Bool
initialize cache fs =
    let (first, error) = create_directories fs (cache.root ++ (sha256_directory ∷ [])) in
    if error
    then (first, false)
    else let (second, also) = create_directories first (cache.root ++ (tmp_directory ∷ [])) in
      (second, not also)

unfoldable pub remove_temporary : FileSystem → FilePath → FileSystem
remove_temporary fs path = (remove_path fs path).0

-- `*digest == asset.sha256` on a digest that is there.
abbrev pub is_digest : Option Bytes → Bytes → Bool
is_digest none expected = false
is_digest (some digest) expected = same_bytes digest expected

-- `remove` and the answer after it.
unfoldable pub discard : FileSystem → FilePath → FileSystem × CacheLookup
discard fs path =
    let (rest, error) = remove_path fs path in (rest, if error then disk_failure else miss)

abbrev pub is_hit : CacheLookup → Bool
is_hit hit = true
is_hit other = false

-- The rename at the end of `CommitVerified`.
unfoldable pub move_in : AssetCache → FileSystem → AssetDescription → FilePath → FileSystem × Bool
move_in cache fs asset temporary =
    let (moved, error) = rename fs temporary (path_for cache asset) in (moved, not error)

module _ (hash : Bytes → Bytes) (cache : AssetCache) where
  -- What `Lookup` does with a regular file: `digest` is not computed where the size is unknown.
  unfoldable pub compare_file : FileSystem → AssetDescription → FileSystem × CacheLookup
  unfolding discard
  compare_file fs asset =
      let path = path_for cache asset in
      let (sized, size) = file_size fs path in
      elim size [
        | none ↦ discard sized path
        | some n ↦
            let (read, digest) = sha256_file hash sized path in
            if n == asset.file_size && is_digest digest asset.sha256
            then (read, hit)
            else discard read path
      ]

  unfoldable pub lookup : FileSystem → AssetDescription → FileSystem × CacheLookup
  unfolding compare_file discard
  lookup fs asset =
      let path = path_for cache asset in
      let (seen, found, error) = exists fs path in
      if not found
      then (seen, if error then disk_failure else miss)
      else let (known, regular, failed) = is_regular_file seen path in
        if not regular || failed then discard known path else compare_file known asset

  unfoldable pub commit_verified : FileSystem → AssetDescription → FilePath → FileSystem × Bool
  unfolding lookup move_in
  commit_verified fs asset temporary =
      let (made, error) = create_directories fs (folder_for cache asset) in
      if error
      then (made, false)
      else let (seen, found, failed) = exists made (path_for cache asset) in
        if not found
        then move_in cache seen asset temporary
        else if failed
        then (seen, false)
        else let (looked, answer) = lookup seen asset in
          if is_hit answer
          then (remove_temporary looked temporary, true)
          else move_in cache looked asset temporary

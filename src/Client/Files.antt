-- ===== src/Client/Files.antt =====
-- The file system that client/src/assets uses through `std::filesystem` and `std::ofstream`, and
-- `Sha256File` of shared/src/sha256.cpp.
pub mod Outcomes
use custommodels.Base.{
  ℕ, ◌≡◌, ◌≢◌, refl, Bool, true, false, not, ◌||◌, ◌&&◌, List, [], ◌∷◌, ◌++◌, Option, none, some,
  if◌then◌else◌, length, arith, find, put, Key, same_bytes, same_bytes→eq, same_bytes_refl, any,
  Bool-cases, Option-cases, inl, inr, ap, find-put,
}
use custommodels.Assets.{Bytes}

-- A path is the list of its components.
abbrev pub FilePath : Type 0
FilePath = List Bytes

unfoldable pub same_path : FilePath → FilePath → Bool
same_path [] [] = true
same_path [] (y ∷ ys) = false
same_path (x ∷ xs) [] = false
same_path (x ∷ xs) (y ∷ ys) = same_bytes x y && same_path xs ys

pub same_path→eq : (xs ys : FilePath) → same_path xs ys ≡ true → xs ≡ ys
unfolding same_path
same_path→eq [] [] h = refl
same_path→eq [] (y ∷ ys) h = cc
same_path→eq (x ∷ xs) [] h = cc
same_path→eq (x ∷ xs) (y ∷ ys) h = ground (arith, same_bytes→eq x y, same_path→eq xs ys)

pub same_path_refl : (xs : FilePath) → same_path xs xs ≡ true
unfolding same_path
same_path_refl [] = refl
same_path_refl (x ∷ xs) = ground (arith, same_bytes_refl x, same_path_refl xs)

instance abbrev pub path_key : Key (List (List ℕ))
path_key = record { same = same_path; same→eq = same_path→eq; same_refl = same_path_refl }

pub data Entry : Type 0 where
  file : Bytes → Entry
  directory : Entry

-- Every call takes the next of `faults`: whether it fails for a cause outside the state, such as a
-- missing permission. A script that has ended has no further fault.
pub record FileSystem : Type 0 where
  pub entries : List (FilePath × Entry)
  pub faults : List Bool

abbrev pub is_faulty : FileSystem → Bool
is_faulty fs = elim (fs.faults) [ [] ↦ false | fault ∷ faults ↦ fault ]

abbrev pub next : FileSystem → FileSystem
next fs = record fs { faults = elim (fs.faults) [ [] ↦ [] | fault ∷ faults ↦ faults ] }

unfoldable pub without : FilePath → List (FilePath × Entry) → List (FilePath × Entry)
without p [] = []
without p ((q, e) ∷ m) = if same_path q p then without p m else (q, e) ∷ without p m

abbrev pub is_file : Option Entry → Bool
is_file (some (file content)) = true
is_file (some directory) = false
is_file none = false

abbrev pub is_missing : Option Entry → Bool
is_missing none = true
is_missing (some e) = false

-- The second path lies below the first.
unfoldable pub is_below : FilePath → FilePath → Bool
is_below [] [] = false
is_below [] (y ∷ ys) = true
is_below (x ∷ xs) [] = false
is_below (x ∷ xs) (y ∷ ys) = same_bytes x y && is_below xs ys

-- The state, whether the path exists, and the error.
unfoldable pub exists : FileSystem → FilePath → FileSystem × Bool × Bool
exists fs p =
    if is_faulty fs
    then (next fs, false, true)
    else (next fs, not (is_missing (find p fs.entries)), false)

unfoldable pub is_regular_file : FileSystem → FilePath → FileSystem × Bool × Bool
is_regular_file fs p =
    if is_faulty fs then (next fs, false, true) else (next fs, is_file (find p fs.entries), false)

-- `none` is the error.
unfoldable pub file_size : FileSystem → FilePath → FileSystem × Option ℕ
file_size fs p = if is_faulty fs then (next fs, none) else (elim (find p fs.entries) [
  | none ↦ (next fs, none)
  | some directory ↦ (next fs, none)
  | some (file content) ↦ (next fs, some (length content))
])

-- A path that does not exist is no error; a directory that holds something is one.
unfoldable pub remove_path : FileSystem → FilePath → FileSystem × Bool
remove_path fs p =
    if is_faulty fs
    then (next fs, true)
    else if any (λ entry. is_below p entry.0) fs.entries
    then (next fs, true)
    else (record (next fs) { entries = without p fs.entries }, false)

-- Renaming replaces a file at the destination. Only files that were written are ever renamed, so a
-- directory as the source is an error here.
unfoldable pub rename : FileSystem → FilePath → FilePath → FileSystem × Bool
rename fs source destination =
    if is_faulty fs then (next fs, true) else (elim (find source fs.entries) [
      | none ↦ (next fs, true)
      | some directory ↦ (next fs, true)
      | some (file content) ↦
          if is_missing (find destination fs.entries) || is_file (find destination fs.entries)
          then (
            record (next fs) {
              entries = put destination (file content) (without source fs.entries);
            },
            false,
          )
          else (next fs, true)
    ])

-- The directories of `path` below `parent`; `none` where a file is in the way.
unfoldable pub directories :
    FilePath → FilePath → List (FilePath × Entry) → Option (List (FilePath × Entry))
directories parent [] m = some m
directories parent (name ∷ path) m = elim (find (parent ++ (name ∷ [])) m) [
  | none ↦ directories (parent ++ (name ∷ [])) path (put (parent ++ (name ∷ [])) directory m)
  | some directory ↦ directories (parent ++ (name ∷ [])) path m
  | some (file content) ↦ none
]

unfoldable pub create_directories : FileSystem → FilePath → FileSystem × Bool
unfolding directories
create_directories fs p =
    if is_faulty fs then (next fs, true) else (elim (directories [] p fs.entries) [
      | none ↦ (next fs, true)
      | some entries ↦ (record (next fs) { entries = entries }, false)
    ])

-- `Sha256File`, on the hash function of the library.
unfoldable pub sha256_file : (Bytes → Bytes) → FileSystem → FilePath → FileSystem × Option Bytes
sha256_file hash fs p = if is_faulty fs then (next fs, none) else (elim (find p fs.entries) [
  | none ↦ (next fs, none)
  | some directory ↦ (next fs, none)
  | some (file content) ↦ (next fs, some (hash content))
])

unfoldable pub parent_of : FilePath → FilePath
parent_of [] = []
parent_of (name ∷ []) = []
parent_of (name ∷ next ∷ path) = name ∷ parent_of (next ∷ path)

abbrev pub is_directory : Option Entry → Bool
is_directory (some directory) = true
is_directory other = false

-- `std::ofstream` with `trunc`, its `write` and its `close`; the answer is the state of the stream.
unfoldable pub open_output : FileSystem → FilePath → FileSystem × Bool
unfolding parent_of
open_output fs p =
    if is_faulty fs
      || is_directory (find p fs.entries)
      || not (is_directory (find (parent_of p) fs.entries))
    then (next fs, false)
    else (record (next fs) { entries = put p (file []) fs.entries }, true)

abbrev content_of : Option Entry → Bytes
content_of (some (file content)) = content
content_of other = []

unfoldable pub write_output : FileSystem → FilePath → Bytes → FileSystem × Bool
write_output fs p bytes = if is_faulty fs then (next fs, false) else (
  record (next fs) { entries = put p (file (content_of (find p fs.entries) ++ bytes)) fs.entries },
  true,
)

unfoldable pub close_output : FileSystem → FileSystem × Bool
close_output fs = (next fs, not (is_faulty fs))

-- The path holds a file of these bytes.
abbrev pub HasFile : FileSystem → FilePath → Bytes → Type 0
HasFile fs p content = find p fs.entries ≡ some (file content)

pub without-other :
    (p q : FilePath) (m : List (FilePath × Entry)) → p ≢ q → find q (without p m) ≡ find q m
unfolding find without
without-other p q [] h = refl
without-other p q ((r, e) ∷ m) h = elim (Bool-cases (same_path r p)) [
  | inl same ↦ ground (arith, same, without-other p q m h, same_path→eq r p, same_path→eq r q, h)
  | inr other ↦ ground (arith, other, without-other p q m h)
]

pub without-same : (p : FilePath) (m : List (FilePath × Entry)) → find p (without p m) ≡ none
unfolding find without
without-same p [] = refl
without-same p ((r, e) ∷ m) = ground (arith, without-same p m)

pub put-same :
    (p : FilePath) (e : Entry) (m : List (FilePath × Entry)) → find p (put p e m) ≡ some e
put-same p e m = ground (arith, find-put p p e m, same_path_refl p)

pub put-other :
    (p q : FilePath) (e : Entry) (m : List (FilePath × Entry))
    → p ≢ q
    → find q (put p e m) ≡ find q m
put-other p q e m h = ground (arith, find-put p q e m, same_path→eq p q)

-- Directories replace no file.
pub directories-file :
    (parent p q : FilePath) (content : Bytes) (m last : List (FilePath × Entry))
    → find q m ≡ some (file content)
    → directories parent p m ≡ some last
    → find q last ≡ some (file content)
unfolding directories
directories-file parent [] q content m last h e = let same : m ≡ last = cc in rw (← same) h
directories-file parent (name ∷ p) q content m last h e =
    let at = parent ++ (name ∷ []) in
    elim (Option-cases (find at m)) [
      | inl free ↦
          let apart : at ≢ q = λ same. cc in
          directories-file at p q content (put at directory m) last
            (rw (put-other at q directory m apart) h) (rw (free, directories) at e)
      | inr (directory, old) ↦ directories-file at p q content m last h (rw (old, directories) at e)
      | inr (file other, old) ↦ let missing : none ≡ some last = rw (old, directories) at e in cc
    ]

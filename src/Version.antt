-- ===== src/Version.antt =====
-- Runtime versions and the table of recognised SA-MP builds: shared/include/custommodel/version.hpp
-- and shared/src/version.cpp.
pub mod Builds
use Prim.Native.String.{String}
use custommodels.Base.{ℕ, ◌≡◌, Bool, List, [], ◌∷◌, Option, none, some, ◌==◌, if◌then◌else◌}

pub record RuntimeVersion : Type 0 where
  pub major : ℕ
  pub minor : ℕ
  pub patch : ℕ

abbrev pub runtime_version : RuntimeVersion
runtime_version = record { major = 0; minor = 2; patch = 0 }

-- An enumeration over an integer holds any integer: `undeclared n` is a value that no enumerator
-- names.
pub data SampVersion : Type 0 where
  unknown r1 r2 r3 r3_1 r4 r4_2 r4_family : SampVersion
  undeclared : ℕ → SampVersion

-- The underlying integer, `static_cast<std::uint16_t>(version)`.
unfoldable pub version_code : SampVersion → ℕ
version_code unknown = 0
version_code r1 = 1
version_code r2 = 2
version_code r3 = 3
version_code r3_1 = 4
version_code r4 = 5
version_code r4_2 = 6
version_code r4_family = 7
version_code (undeclared n) = n

-- `static_cast<SampVersion>(n)`.
unfoldable pub version_of_code : ℕ → SampVersion
version_of_code n =
    if n == 0
    then unknown
    else if n == 1
    then r1
    else if n == 2
    then r2
    else if n == 3
    then r3
    else if n == 4
    then r3_1
    else if n == 5
    then r4
    else if n == 6
    then r4_2
    else if n == 7
    then r4_family
    else undeclared n

-- `left == right` on the enumeration compares the integers.
unfoldable pub same_version : SampVersion → SampVersion → Bool
same_version left right = version_code left == version_code right

pub record SampBuildInfo : Type 0 where
  pub version : SampVersion
  pub entry_point : ℕ
  pub name : String

abbrev pub known_builds : List SampBuildInfo
known_builds =
    record { version = r1; entry_point = 0x31DF13; name = "SA-MP 0.3.7 R1" }
    ∷ record { version = r2; entry_point = 0x3195DD; name = "SA-MP 0.3.7 R2" }
    ∷ record { version = r3_1; entry_point = 0x0CC4D0; name = "SA-MP 0.3.7 R3-1" }
    ∷ record { version = r4; entry_point = 0x0CBCB0; name = "SA-MP 0.3.7 R4" }
    ∷ record { version = r4_family; entry_point = 0x0CBCD0; name = "SA-MP 0.3.7 R4-family" }
    ∷ []

find_entry : ℕ → List SampBuildInfo → Option SampBuildInfo
find_entry entry [] = none
find_entry entry (build ∷ builds) =
    if build.entry_point == entry then some build else find_entry entry builds

-- `FindSampBuild(std::uint32_t)`.
unfoldable pub find_samp_build : ℕ → Option SampBuildInfo
unfolding find_entry
find_samp_build entry = find_entry entry known_builds

find_version : SampVersion → List SampBuildInfo → Option SampBuildInfo
unfolding same_version
find_version v [] = none
find_version v (build ∷ builds) =
    if same_version build.version v then some build else find_version v builds

-- `FindSampBuild(SampVersion)`.
unfoldable pub find_samp_build_version : SampVersion → Option SampBuildInfo
unfolding find_version
find_samp_build_version v = find_version v known_builds

-- `ToString(SampVersion)`.
unfoldable pub to_string : SampVersion → String
to_string unknown = "Unknown"
to_string r1 = "SA-MP 0.3.7 R1"
to_string r2 = "SA-MP 0.3.7 R2"
to_string r3 = "SA-MP 0.3.7 R3"
to_string r3_1 = "SA-MP 0.3.7 R3-1"
to_string r4 = "SA-MP 0.3.7 R4"
to_string r4_2 = "SA-MP 0.3.7 R4-2"
to_string r4_family = "SA-MP 0.3.7 R4-family"
to_string (undeclared n) = "Unknown"

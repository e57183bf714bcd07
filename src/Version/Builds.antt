-- ===== src/Version/Builds.antt =====
-- The lookups in the build table: shared/src/version.cpp.
use custommodels.Base.{ℕ, ◌≡◌, ◌<◌, some, arith}
use custommodels.Version.{
  SampVersion, SampBuildInfo, version_code, version_of_code, find_samp_build,
  find_samp_build_version, to_string,
}

-- The integer of an enumerator names it again.
pub of_code-version_code :
    (v : SampVersion)
    → version_code v < 8
    → version_code (version_of_code (version_code v)) ≡ version_code v
unfolding version_code version_of_code
of_code-version_code v h = ground arith

pub version_code-of_code : (n : ℕ) → version_code (version_of_code n) ≡ n
unfolding version_code version_of_code
version_code-of_code n = ground arith

-- A build that is recognised by its entry point is the build registered for its version, and it is
-- reported under the text of that version.
pub find_samp_build-agrees :
    (entry : ℕ) {build : SampBuildInfo}
    → find_samp_build entry ≡ some build
    → (build.entry_point ≡ entry)
      × (find_samp_build_version build.version ≡ some build)
      × (build.name ≡ to_string build.version)
unfolding find_samp_build find_samp_build_version to_string version_code
find_samp_build-agrees entry h = ground arith

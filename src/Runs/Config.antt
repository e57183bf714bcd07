-- ===== src/Runs/Config.antt =====
-- A configuration file: server/src/manifest_config.cpp.
use custommodels.Base.{ℕ, zero, suc, ◌≡◌, refl, none, true, [], ◌∷◌, ◌++◌}
use custommodels.Assets.{Bytes}
use custommodels.Server.Registry.{empty_registry}
use custommodels.Server.Registry.Invariant.{empty_registry-Inv}
use custommodels.Server.ManifestConfig.{ConfigFile, read_fields, load_manifest_config}
use custommodels.Server.ManifestConfig.Loaded.{IsLoaded, load_manifest_config-IsLoaded}
use custommodels.Runs.Samples.{url, bytes_in_range}

abbrev digits : ℕ → Bytes
digits zero = []
digits (suc n) = b'0' ∷ digits n

-- A comment, an empty line and `7 DFF car https://h/x 1000 00…0`.
abbrev text : Bytes
text =
    (b'#' ∷ 10 ∷ b' ' ∷ 10 ∷ b'7' ∷ b' ' ∷ b'D' ∷ b'F' ∷ b'F' ∷ 9 ∷ b'c' ∷ b'a' ∷ b'r' ∷ b' ' ∷ [])
    ++ url
    ++ (b' ' ∷ b'1' ∷ b'0' ∷ b'0' ∷ b'0' ∷ b' ' ∷ [])
    ++ digits 64
    ++ (10 ∷ [])

abbrev file : ConfigFile
file = record { opens = true; bytes = text; reaches_end = true }

-- A name is missing, so that the address stands in its place and the size is no number.
fields_test :
    read_fields (b'7' ∷ b' ' ∷ b'D' ∷ 9 ∷ b'u' ∷ b' ' ∷ b'1' ∷ b' ' ∷ b'f' ∷ b'f' ∷ []) ≡ none
unfolding read_fields custommodels.Assets.Text.is_empty
fields_test = refl

load_manifest_config-IsLoaded_example :
    IsLoaded file empty_registry (load_manifest_config file empty_registry)
load_manifest_config-IsLoaded_example =
    load_manifest_config-IsLoaded file empty_registry (bytes_in_range text refl) empty_registry-Inv

-- ===== src/Server/ManifestConfig/Loaded.antt =====
-- What a configuration leaves in the registry: server/src/manifest_config.cpp.
use Prim.Native.String.{String}
use custommodels.Base.{
  ℕ, ◌+◌, ◌<◌, ◌≤◌, ◌≡◌, refl, true, false, ◌||◌, List, [], ◌∷◌, Option, none, some, Result, ok,
  err, ◌==◌, same_bytes, All, length, arith, Bool-cases, Option-cases, Result-cases, inl, inr,
  subst,
}
use custommodels.Assets.{Bytes, AssetType, AssetDescription, asset_type_code, asset_type_of_code}
use custommodels.Assets.Text.{is_empty, front}
use custommodels.Assets.Sha256.{parse_sha256_hex, parse_sha256_hex_iff}
use custommodels.Protocol.Layout.{IsAsset, IsByte}
use custommodels.Server.Registry.{AssetRegistry, empty_registry, register_asset, size}
use custommodels.Server.Registry.Invariant.{Inv, empty_registry-Inv, register_asset-Inv}
use custommodels.Server.ManifestConfig.{
  ConfigFile, ManifestConfigResult, is_loaded, is_added, trim, lines_of, Fields, read_fields,
  type_of, describe, register_line, load_lines, load_manifest_config,
}
use custommodels.Server.ManifestConfig.Reading.{
  trim-All, lines_of-All, AreFields, read_fields-AreFields,
}

IsKnownType : Option AssetType → Type 0
IsKnownType none = Unit {0}
IsKnownType (some t) = asset_type_of_code (asset_type_code t) ≡ t

type_of-IsKnownType : (text : Bytes) → IsKnownType (type_of text)
unfolding type_of IsKnownType asset_type_code asset_type_of_code
type_of-IsKnownType text = elim (Bool-cases (same_bytes text (b'D' ∷ b'F' ∷ b'F' ∷ []))) [
  | inl e ↦ rw e refl
  | inr e ↦ elim (Bool-cases (same_bytes text (b'T' ∷ b'X' ∷ b'D' ∷ []))) [
    | inl t ↦ rw (e, t) refl
    | inr t ↦ rw (e, t) tt
  ]
]

IsDescribed : Result String AssetDescription → Type 0
IsDescribed (err text) = Unit {0}
IsDescribed (ok asset) = IsAsset asset

describe-IsDescribed : (f : Fields) → AreFields (some f) → IsDescribed (describe f)
unfolding describe IsDescribed IsKnownType
describe-IsDescribed f (id, size, name, url) = elim (Option-cases (parse_sha256_hex f.sha256)) [
  | inl d ↦ rw (describe, d) tt
  | inr (digest, d) ↦ elim (Option-cases (type_of f.type)) [
    | inl t ↦ rw (describe, d, t) tt
    | inr (type, t) ↦
        let known : IsKnownType (some type) =
          subst (λ o. IsKnownType o) t (type_of-IsKnownType f.type) in
        let (same, bytes, long) = (parse_sha256_hex_iff f.sha256 digest).0 d in
        rw (describe, d, t)
          (record {
            asset_id = id;
            type = known;
            logical_name = name;
            download_url = url;
            file_size = size;
            sha256 = bytes;
            digest_size = long;
          })
  ]
]

IsRegistered : Result String AssetRegistry → Type 0
IsRegistered (err text) = Unit {0}
IsRegistered (ok r) = Inv r

register_line-IsRegistered :
    (r : AssetRegistry) (line : Bytes)
    → All IsByte line
    → Inv r
    → IsRegistered (register_line r line)
unfolding register_line IsRegistered IsDescribed
register_line-IsRegistered r line h v = elim (Option-cases (read_fields line)) [
  | inl e ↦ rw (register_line, e) tt
  | inr (f, e) ↦
      let fields : AreFields (some f) = subst (λ o. AreFields o) e (read_fields-AreFields line h) in
      elim (Result-cases (describe f)) [
        | inl (text, d) ↦ rw (register_line, e, d) tt
        | inr (asset, d) ↦
            let typed : IsAsset asset =
              subst (λ o. IsDescribed o) d (describe-IsDescribed f fields) in
            elim (Bool-cases (is_added (register_asset r asset).1)) [
              | inl a ↦ rw (register_line, e, d, a) (register_asset-Inv r asset typed v)
              | inr a ↦ rw (register_line, e, d, a) tt
            ]
      ]
]

-- The loop ends with a sound registry, or at one of the lines.
AreLoaded : ℕ → List Bytes → Result (ℕ × String) (AssetRegistry × ℕ) → Type 0
AreLoaded n lines (err (line, text)) = (n < line) × (line ≤ n + length lines)
AreLoaded n lines (ok (r, count)) = Inv r × (count ≡ n + length lines)

AreLoaded-cons :
    (n : ℕ) (line : Bytes) (lines : List Bytes) (o : Result (ℕ × String) (AssetRegistry × ℕ))
    → AreLoaded (n + 1) lines o
    → AreLoaded n (line ∷ lines) o
unfolding AreLoaded
AreLoaded-cons n line lines (err (at_line, text)) (low, high) = (omega arith, omega arith)
AreLoaded-cons n line lines (ok (r, count)) (v, same) = (v, omega arith)

load_lines-AreLoaded :
    (n : ℕ) (r : AssetRegistry) (lines : List Bytes)
    → All (All IsByte) lines
    → Inv r
    → AreLoaded n lines (load_lines n r lines)
unfolding load_lines
load_lines-AreLoaded n r [] h v = unfold AreLoaded in (v, omega arith)
load_lines-AreLoaded n r (line ∷ lines) h v =
    let skipped = load_lines-AreLoaded (n + 1) r lines h.1 v in
    elim (Bool-cases (is_empty (trim line) || front (trim line) == b'#')) [
      | inl e ↦
          rw (load_lines, e) (AreLoaded-cons n line lines (load_lines (n + 1) r lines) skipped)
      | inr e ↦ elim (Result-cases (register_line r (trim line))) [
        | inl (text, q) ↦ rw (load_lines, e, q) (unfold AreLoaded in (omega arith, omega arith))
        | inr (registered, q) ↦
            let sound : IsRegistered (ok registered) =
              subst (λ o. IsRegistered o) q
                (register_line-IsRegistered r (trim line) (trim-All line h.0) v) in
            rw (load_lines, e, q)
              (AreLoaded-cons n line lines (load_lines (n + 1) registered lines)
                (load_lines-AreLoaded (n + 1) registered lines h.1 (unfold IsRegistered in sound)))
      ]
    ]

-- What `LoadManifestConfig` promises: the registry afterwards is sound; a failure leaves the registry
-- as it was and names no line behind the last one; a success counts its assets.
pub record IsLoaded (file : ConfigFile) (registry : AssetRegistry)
    (after : AssetRegistry × ManifestConfigResult) : Type 0 where
  pub sound : Inv after.0
  pub kept : is_loaded after.1 ≡ false → after.0 ≡ registry
  pub counted : is_loaded after.1 ≡ true → after.1.loaded_assets ≡ size after.0
  pub line : after.1.error_line ≤ length (lines_of file.bytes)

-- Loading a file of bytes into a sound registry leaves a sound registry, whatever the file holds and
-- whether or not it opens and reads to its end: a failure changes nothing and names a line of the
-- file or none, and a success reports the number of assets that the registry then has.
pub load_manifest_config-IsLoaded :
    (file : ConfigFile) (registry : AssetRegistry)
    → All IsByte file.bytes
    → Inv registry
    → IsLoaded file registry (load_manifest_config file registry)
unfolding load_manifest_config AreLoaded
load_manifest_config-IsLoaded file registry h v = elim (Bool-cases (file.opens)) [
  | inr o ↦ rw o (record { sound = v; kept = λ f. refl; counted = λ f. cc; line = omega arith })
  | inl o ↦
      let whole =
        load_lines-AreLoaded 0 empty_registry (lines_of file.bytes) (lines_of-All file.bytes h)
          empty_registry-Inv in
      elim (Result-cases (load_lines 0 empty_registry (lines_of file.bytes))) [
        | inl ((line, text), q) ↦
            let (low, high) : AreLoaded 0 (lines_of file.bytes) (err (line, text)) =
              subst (λ x. AreLoaded 0 (lines_of file.bytes) x) q whole in
            rw (o, load_manifest_config, q)
              (record {
                sound = v;
                kept = λ f. refl;
                counted = λ f. cc;
                line = omega (arith, high);
              })
        | inr ((parsed, count), q) ↦
            let (sound, same) : AreLoaded 0 (lines_of file.bytes) (ok (parsed, count)) =
              subst (λ x. AreLoaded 0 (lines_of file.bytes) x) q whole in
            elim (Bool-cases (file.reaches_end)) [
              | inl z ↦
                  rw (o, load_manifest_config, q, z)
                    (record {
                      sound = sound;
                      kept = λ f. cc;
                      counted = λ f. refl;
                      line = omega arith;
                    })
              | inr z ↦
                  rw (o, load_manifest_config, q, z)
                    (record {
                      sound = v;
                      kept = λ f. refl;
                      counted = λ f. cc;
                      line = omega (arith, same);
                    })
            ]
      ]
]

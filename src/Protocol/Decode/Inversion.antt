-- ===== src/Protocol/Decode/Inversion.antt =====
-- The cases of `DecodePayload` of shared/src/protocol.cpp taken apart at a result.
use custommodels.Base.{
  ℕ, ◌≡◌, refl, true, not, some, none, Option, arith, ◌∙◌, Bool, Result, ok, err, ◌>>=◌, ◌>>◌,
  guard, or_fail, leb, ◌==◌, ◌||◌,
}
use custommodels.Assets.{Bytes, AssetDescription, asset_type_code, asset_type_of_code}
use custommodels.Protocol.Types.{
  Message, manifest_asset, DecodeError, truncated_payload, reject_code, reject_of_code,
  asset_error_code, asset_error_of_code,
}
use custommodels.Protocol.Decode.{Decoded}

pub reject_code-of_code : (n : ℕ) → reject_code (reject_of_code n) ≡ n
unfolding reject_code reject_of_code
reject_code-of_code n = ground arith

pub asset_error_code-of_code : (n : ℕ) → asset_error_code (asset_error_of_code n) ≡ n
unfolding asset_error_code asset_error_of_code
asset_error_code-of_code n = ground arith

pub asset_type_code-of_code : (n : ℕ) → asset_type_code (asset_type_of_code n) ≡ n
unfolding asset_type_code asset_type_of_code
asset_type_code-of_code n = ground arith

module _ {W M : Type 0} where
  -- The common shape of the cases: read, check, build.
  abbrev pub checked : Option (W × Bytes) → (W → Bool) → (W → M) → Result DecodeError (M × Bytes)
  checked read test build = do
    (wire, rest) ← or_fail read truncated_payload
    guard (test wire) DecodeError.invalid_field
    ok (build wire, rest)

  pub checked-inversion :
      (read : Option (W × Bytes)) (test : W → Bool) (build : W → M) (m : M) (rest : Bytes)
      → checked read test build ≡ ok (m, rest)
      → (w : W) × (read ≡ some (w, rest)) × (test w ≡ true) × (m ≡ build w)
  checked-inversion none test build m rest e = cc
  checked-inversion (some (w, left)) test build m rest e =
      (w, ground arith, ground arith, ground arith)

  abbrev pub unchecked : Option (W × Bytes) → (W → M) → Result DecodeError (M × Bytes)
  unchecked read build = do (wire, rest) ← or_fail read truncated_payload; ok (build wire, rest)

  pub unchecked-inversion :
      (read : Option (W × Bytes)) (build : W → M) (m : M) (rest : Bytes)
      → unchecked read build ≡ ok (m, rest)
      → (w : W) × (read ≡ some (w, rest)) × (m ≡ build w)
  unchecked-inversion none build m rest e = cc
  unchecked-inversion (some (w, left)) build m rest e = (w, ground arith, ground arith)

-- The case of a manifest asset, with its two readers as arguments.
abbrev pub second_step : ℕ × ℕ → Result DecodeError (AssetDescription × Bytes) → Decoded
second_step position described = do
  (asset, rest) ← described
  guard (not (position.0 == 0 || leb 256 position.1)) DecodeError.invalid_field
  ok (
    manifest_asset
        (record { manifest_revision = position.0; asset_index = position.1; asset = asset }),
    rest,
  )

abbrev pub two_steps :
    Option ((ℕ × ℕ) × Bytes) → (Bytes → Result DecodeError (AssetDescription × Bytes)) → Decoded
two_steps read describe = do
  (position, fields) ← or_fail read truncated_payload
  second_step position (describe fields)

pub record TwoSteps (read : Option ((ℕ × ℕ) × Bytes))
    (describe : Bytes → Result DecodeError (AssetDescription × Bytes)) (m : Message) (rest : Bytes)
    : Type 0 where
  pub position : ℕ × ℕ
  pub fields : Bytes
  pub asset : AssetDescription
  pub first : read ≡ some (position, fields)
  pub second : describe fields ≡ ok (asset, rest)
  pub inside : not (position.0 == 0 || leb 256 position.1) ≡ true
  pub built :
      m
      ≡ manifest_asset
          (record { manifest_revision = position.0; asset_index = position.1; asset = asset })

pub two_steps-inversion :
    (read : Option ((ℕ × ℕ) × Bytes))
    (describe : Bytes → Result DecodeError (AssetDescription × Bytes)) (m : Message) (rest : Bytes)
    → two_steps read describe ≡ ok (m, rest)
    → TwoSteps read describe m rest
two_steps-inversion none describe m rest e = cc
two_steps-inversion (some (p, fields)) describe m rest e = cases (describe fields) refl e
  where
    cases :
        (r : Result DecodeError (AssetDescription × Bytes))
        → describe fields ≡ r
        → second_step p r ≡ ok (m, rest)
        → TwoSteps (some (p, fields)) describe m rest
    cases (err x) q h = cc
    cases (ok (a, left)) q h = record {
      position = p;
      fields = fields;
      asset = a;
      first = refl;
      second = q ∙ ground arith;
      inside = ground arith;
      built = ground arith;
    }

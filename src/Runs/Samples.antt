-- ===== src/Runs/Samples.antt =====
-- The data of the runs.
use custommodels.Base.{ℕ, ◌≡◌, refl, suc, zero, true, List, [], ◌∷◌, All, all, arith, ltb}
use custommodels.Version.{r3_1, runtime_version, version_code, version_of_code}
use custommodels.Assets.{Bytes, AssetDescription, dff, txd, asset_type_code, asset_type_of_code}
use custommodels.Protocol.Types.{Message, Hello}
use custommodels.Protocol.Layout.{HasVersion, IsAsset, IsByte, IsTyped}
use custommodels.Server.Registry.Reachable.{Operation, registration, removal, IsTypedOperation}
use custommodels.Server.Tracker.{HandshakePolicy}
use custommodels.Client.Handshake.{HandshakeConfiguration}
use custommodels.Client.Handshake.Completes.{IsConfigured}
use custommodels.Protocol.Checks.{is_samp_version_value_valid, are_capabilities_valid}

abbrev pub zeros : ℕ → Bytes
zeros zero = []
zeros (suc n) = 0 ∷ zeros n

-- https://h/x
abbrev pub url : Bytes
url = b'h' ∷ b't' ∷ b't' ∷ b'p' ∷ b's' ∷ b':' ∷ b'/' ∷ b'/' ∷ b'h' ∷ b'/' ∷ b'x' ∷ []

abbrev pub car : AssetDescription
car = record {
  asset_id = 7;
  type = dff;
  logical_name = b'c' ∷ b'a' ∷ b'r' ∷ [];
  download_url = url;
  file_size = 1000;
  sha256 = zeros 32;
}

abbrev pub paint : AssetDescription
paint = record {
  asset_id = 3;
  type = txd;
  logical_name = b'p' ∷ b'/' ∷ b'1' ∷ [];
  download_url = url;
  file_size = 500;
  sha256 = zeros 32;
}

-- Bytes that a test finds in range.
pub bytes_in_range : (l : Bytes) → all (λ b. ltb b 256) l ≡ true → All IsByte l
bytes_in_range [] h = tt
bytes_in_range (b ∷ l) h = (ground (arith, h), bytes_in_range l (ground (arith, h)))

pub car-IsAsset : IsAsset car
unfolding asset_type_code asset_type_of_code
car-IsAsset = record {
  asset_id = omega arith;
  type = refl;
  logical_name = bytes_in_range car.logical_name refl;
  download_url = bytes_in_range url refl;
  file_size = omega arith;
  sha256 = bytes_in_range (zeros 32) refl;
  digest_size = refl;
}

pub paint-IsAsset : IsAsset paint
unfolding asset_type_code asset_type_of_code
paint-IsAsset = record {
  asset_id = omega arith;
  type = refl;
  logical_name = bytes_in_range paint.logical_name refl;
  download_url = bytes_in_range url refl;
  file_size = omega arith;
  sha256 = bytes_in_range (zeros 32) refl;
  digest_size = refl;
}

abbrev pub operations : List Operation
operations = registration car ∷ removal 9 ∷ registration paint ∷ []

pub operations-IsTyped : All IsTypedOperation operations
operations-IsTyped = (car-IsAsset, (tt, (paint-IsAsset, tt)))

pub runtime-HasVersion : HasVersion runtime_version
runtime-HasVersion = record { major = omega arith; minor = omega arith; patch = omega arith }

abbrev pub greeting : Hello
greeting = record {
  runtime_version = runtime_version;
  protocol_version = 1;
  samp_version = r3_1;
  capabilities = 13;
}

pub greeting-IsTyped : IsTyped (Message.hello greeting)
unfolding version_code version_of_code
greeting-IsTyped = (runtime-HasVersion, omega arith, refl, omega arith)

-- The model and texture capabilities, of which the models are required.
abbrev pub policy : HandshakePolicy
policy = record {
  minimum_client_runtime = runtime_version;
  server_runtime_version = runtime_version;
  server_capabilities = 29;
  required_capabilities = 4;
}

abbrev pub configuration : HandshakeConfiguration
configuration = record { runtime_version = runtime_version; samp_version = r3_1; capabilities = 13 }

pub configuration-IsConfigured : IsConfigured configuration
unfolding version_code version_of_code is_samp_version_value_valid are_capabilities_valid
configuration-IsConfigured = record {
  version = runtime-HasVersion;
  named = refl;
  build = refl;
  flags = omega arith;
  capabilities = refl;
}

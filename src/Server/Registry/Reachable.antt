-- ===== src/Server/Registry/Reachable.antt =====
-- Every sequence of operations on the registry: server/src/asset_registry.cpp.
use custommodels.Base.{ℕ, List, [], ◌∷◌, All}
use custommodels.Assets.{AssetDescription}
use custommodels.Protocol.Layout.{IsAsset}
use custommodels.Server.Registry.{
  AssetRegistry, empty_registry, register_asset, remove_asset, clear_assets,
}
use custommodels.Server.Registry.Invariant.{Inv, empty_registry-Inv, register_asset-Inv}
use custommodels.Server.Registry.Removal.{remove_asset-Inv, clear_assets-Inv}

pub data Operation : Type 0 where
  registration : AssetDescription → Operation
  removal : ℕ → Operation
  clearing : Operation

unfoldable pub step : AssetRegistry → Operation → AssetRegistry
step r (registration a) = (register_asset r a).0
step r (removal id) = (remove_asset r id).0
step r clearing = (clear_assets r).0

unfoldable pub run : AssetRegistry → List Operation → AssetRegistry
unfolding step
run r [] = r
run r (o ∷ operations) = run (step r o) operations

-- A registered asset has fields of their C++ types.
abbrev pub IsTypedOperation : Operation → Type 0
IsTypedOperation (registration a) = IsAsset a
IsTypedOperation _ = Unit {0}

step-Inv : (r : AssetRegistry) (o : Operation) → IsTypedOperation o → Inv r → Inv (step r o)
unfolding step
step-Inv r (registration a) t v = register_asset-Inv r a t v
step-Inv r (removal id) t v = remove_asset-Inv r id v
step-Inv r clearing t v = clear_assets-Inv r v

run-Inv_from :
    (r : AssetRegistry) (operations : List Operation)
    → All IsTypedOperation operations
    → Inv r
    → Inv (run r operations)
unfolding run
run-Inv_from r [] t v = v
run-Inv_from r (o ∷ operations) t v = run-Inv_from (step r o) operations t.1 (step-Inv r o t.0 v)

-- After any operations on a new registry the invariant holds: ids and names are distinct, each name
-- belongs to its asset and back, every asset is valid, the total is the sum of the sizes, and the
-- bounds on count and total hold. The assets' fields are of their C++ types.
pub run-Inv :
    (operations : List Operation)
    → All IsTypedOperation operations
    → Inv (run empty_registry operations)
run-Inv operations t = run-Inv_from empty_registry operations t empty_registry-Inv

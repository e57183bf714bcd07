-- ===== src/Protocol/Stream.antt =====
-- The manifest stream as docs/protocol.md describes it: `ManifestBegin`, one `ManifestAsset` for
-- each asset in order, `ManifestEnd`.
use custommodels.Base.{ℕ, ◌+◌, List, [], ◌∷◌, ◌++◌, length}
use custommodels.Assets.{AssetDescription, Manifest}
use custommodels.Protocol.Types.{Message, manifest_begin, manifest_asset, manifest_end}

unfoldable pub items : ℕ → ℕ → List AssetDescription → List Message
items revision index [] = []
items revision index (a ∷ assets) =
    manifest_asset (record { manifest_revision = revision; asset_index = index; asset = a })
    ∷ items revision (index + 1) assets

unfoldable pub begin_of : Manifest → Message
begin_of m = manifest_begin (record {
  manifest_revision = m.revision;
  asset_count = length m.assets;
  total_download_size = m.total_download_size;
})

unfoldable pub end_of : Manifest → Message
end_of m = manifest_end (record {
  manifest_revision = m.revision;
  asset_count = length m.assets;
  total_download_size = m.total_download_size;
})

unfoldable pub stream : Manifest → List Message
unfolding items begin_of end_of
stream m = begin_of m ∷ (items m.revision 0 m.assets ++ (end_of m ∷ []))

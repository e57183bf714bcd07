-- ===== src/Client/Receiver/Safety.antt =====
-- What a completed manifest is worth, whatever was sent: client/src/assets/manager.cpp.
use custommodels.Base.{
  ℕ, ◌+◌, ◌≡◌, not, ◌||◌, List, [], ◌∷◌, some, ltb, ◌==◌, arith, length, Bool, nat_key, bytes_key,
  Bool-cases, Option-cases, inl, inr, subst,
}
use custommodels.Assets.{AssetDescription, Manifest}
use custommodels.Protocol.Types.{Message, ManifestEnd, manifest_begin, manifest_asset, manifest_end}
use custommodels.Server.Registry.Sorted.{sum_sizes}
use custommodels.Client.Receiver.{
  ManifestReceiver, failed, initial_receiver, is_receiving, handle, handle_end, handle_all,
  total_sizes,
}
use custommodels.Client.Receiver.Collecting.{
  IsAcceptable, IsPartial, IsSafe, is_receiving-eq, handle_begin-IsSafe, handle_asset-IsSafe,
}

total_sizes-eq :
    (total : ℕ) (l : List AssetDescription) (sum : ℕ)
    → total_sizes total l ≡ some sum
    → sum ≡ total + sum_sizes l
unfolding total_sizes
total_sizes-eq total [] sum h = ground arith
total_sizes-eq total (a ∷ l) sum h = ground (arith, total_sizes-eq (total + a.file_size) l sum)

-- The tests on the order of the end.
abbrev pub is_end_out_of_order : ManifestReceiver → ManifestEnd → Bool
is_end_out_of_order s end =
    not (is_receiving s.state)
    || not (end.manifest_revision == s.manifest.revision)
    || not (end.asset_count == s.expected_count)
    || not (end.asset_count == length s.manifest.assets)
    || not (end.total_download_size == s.manifest.total_download_size)

some_eq : (a b : Manifest) → some a ≡ some b → IsAcceptable a → IsAcceptable b
some_eq a b e h = let same : a ≡ b = cc in subst IsAcceptable same h

handle_end-IsSafe :
    (s : ManifestReceiver) (end : ManifestEnd) → IsSafe s → IsSafe (handle_end s end).0
unfolding handle_end
handle_end-IsSafe s end v = elim (Bool-cases (is_end_out_of_order s end)) [
  | inl e ↦ rw e broken
  | inr e ↦ elim (Option-cases (total_sizes 0 s.manifest.assets)) [
    | inl none_left ↦ rw (e, none_left, handle_end) broken
    | inr (total, t) ↦
        let sum = total_sizes-eq 0 s.manifest.assets total t in
        elim (Bool-cases (total == s.manifest.total_download_size)) [
          | inr other ↦ rw (e, t, handle_end, other) broken
          | inl same ↦
              let p : IsPartial s = v.part (is_receiving-eq s.state (ground (arith, e))) in
              let accepted : IsAcceptable s.manifest = record {
                nonzero = p.nonzero;
                valid = p.valid;
                ids = p.ids;
                names = p.names;
                count_fits = omega (arith, p.count_fits, p.expected);
                total = ground (arith, same, sum);
                total_fits = p.total_fits;
              } in
              elim (Bool-cases (ltb 1048576 (s.manifest_bytes + 20))) [
                | inl long ↦
                    rw (e, t, handle_end, same, long) (record { part = λ q. cc; result = v.result })
                | inr short ↦
                    rw (e, t, handle_end, same, short)
                      (record { part = λ q. cc; result = λ m q. some_eq s.manifest m q accepted })
              ]
        ]
  ]
]
  where
    broken : IsSafe (record s { state = failed })
    broken = record { part = λ q. cc; result = v.result }

pub handle-IsSafe : (s : ManifestReceiver) (m : Message) → IsSafe s → IsSafe (handle s m).0
unfolding handle
handle-IsSafe s (manifest_begin b) v = handle_begin-IsSafe s b v
handle-IsSafe s (manifest_asset item) v = handle_asset-IsSafe s item v
handle-IsSafe s (manifest_end end) v = handle_end-IsSafe s end v
handle-IsSafe s _ v = v

handle_all-IsSafe :
    (s : ManifestReceiver) (messages : List Message) → IsSafe s → IsSafe (handle_all s messages).0
unfolding handle_all
handle_all-IsSafe s [] v = v
handle_all-IsSafe s (m ∷ messages) v =
    handle_all-IsSafe (handle s m).0 messages (handle-IsSafe s m v)

-- Whatever messages reach a new receiver, in any order, a manifest that it holds as completed has a
-- nonzero revision, at most 256 assets that are all valid, with distinct ids and distinct names, and
-- a total that is the sum of the sizes and within its bound.
pub handle_all-IsAcceptable :
    (messages : List Message) {m : Manifest}
    → (handle_all initial_receiver messages).0.completed ≡ some m
    → IsAcceptable m
handle_all-IsAcceptable messages {m} h =
    let new : IsSafe initial_receiver = record { part = λ q. cc; result = λ m q. cc } in
    (handle_all-IsSafe initial_receiver messages new).result m h

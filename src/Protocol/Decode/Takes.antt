-- ===== src/Protocol/Decode/Takes.antt =====
-- What each field reader of shared/src/protocol.cpp has taken when it returns a value.
use custommodels.Base.{ℕ, ◌≡◌, ◌++◌, length, append-nil, All}
use custommodels.Assets.{Bytes, AssetDescription}
use custommodels.Protocol.Types.{Hello, Welcome, AssetError}
use custommodels.Protocol.Decode.Fields.{
  read_runtime_version, read_hello, read_welcome, read_reject, read_ping, read_pong,
  read_manifest_begin, read_asset_position, read_asset_fields, read_manifest_end, read_asset_ready,
  read_asset_error, Header, read_header,
}
use custommodels.Protocol.Layout.{
  HasVersion, IsByte, IsU16, IsU32, IsU64, be16, be32, be64, text, runtime_bytes, boundary_bytes,
}
use custommodels.Protocol.Layout.Taking.{
  Takes, >>=-Takes, pure-Takes, read_u16-Takes, read_u32-Takes, read_u64-Takes, read_bytes-Takes,
  read_string-Takes,
}

read_runtime_version-Takes :
    Takes read_runtime_version (λ v l. HasVersion v × (l ≡ runtime_bytes v))
unfolding read_runtime_version runtime_bytes
read_runtime_version-Takes = >>=-Takes _ _ _ _ read_u16-Takes λ a l qa.
    >>=-Takes _ _ _ _ read_u16-Takes λ b k qb. >>=-Takes _ _ _ _ read_u16-Takes λ c j qc.
      pure-Takes _ _
        (record { major = qa.0; minor = qb.0; patch = qc.0 }, rw (append-nil, qa.1, qb.1, qc.1))

-- The message with the integer `samp` for its SA-MP version.
abbrev pub HelloTaken : Hello × ℕ → Bytes → Type 0
HelloTaken (m, samp) l =
    HasVersion m.runtime_version
    × IsU16 m.protocol_version
    × IsU32 m.capabilities
    × (l
        ≡ runtime_bytes m.runtime_version
          ++ (be16 m.protocol_version ++ (be16 samp ++ be32 m.capabilities)))

pub read_hello-Takes : Takes read_hello HelloTaken
unfolding read_hello
read_hello-Takes = >>=-Takes _ _ _ _ read_runtime_version-Takes λ v l qv.
    >>=-Takes _ _ _ _ read_u16-Takes λ p k qp. >>=-Takes _ _ _ _ read_u16-Takes λ s j qs.
      >>=-Takes _ _ _ _ read_u32-Takes
        λ c i qc. pure-Takes _ _ (qv.0, qp.0, qc.0, rw (append-nil, qv.1, qp.1, qs.1, qc.1))

abbrev pub WelcomeTaken : Welcome → Bytes → Type 0
WelcomeTaken m l =
    IsU16 m.accepted_protocol_version
    × HasVersion m.server_runtime_version
    × IsU16 m.server_protocol_version
    × IsU32 m.negotiated_capabilities
    × (l
        ≡ be16 m.accepted_protocol_version
          ++ (runtime_bytes m.server_runtime_version
              ++ (be16 m.server_protocol_version ++ be32 m.negotiated_capabilities)))

pub read_welcome-Takes : Takes read_welcome WelcomeTaken
unfolding read_welcome
read_welcome-Takes = >>=-Takes _ _ _ _ read_u16-Takes λ a l qa.
    >>=-Takes _ _ _ _ read_runtime_version-Takes λ v k qv.
      >>=-Takes _ _ _ _ read_u16-Takes λ p j qp.
        >>=-Takes _ _ _ _ read_u32-Takes
          λ c i qc. pure-Takes _ _ (qa.0, qv.0, qp.0, qc.0, rw (append-nil, qa.1, qv.1, qp.1, qc.1))

pub read_reject-Takes : Takes read_reject (λ n l. IsU16 n × (l ≡ be16 n))
unfolding read_reject
read_reject-Takes = read_u16-Takes

pub read_ping-Takes : Takes read_ping (λ m l. IsU64 m.nonce × (l ≡ be64 m.nonce))
unfolding read_ping
read_ping-Takes = >>=-Takes _ _ _ _ read_u64-Takes λ n l q. pure-Takes _ _ (rw append-nil q)

pub read_pong-Takes : Takes read_pong (λ m l. IsU64 m.nonce × (l ≡ be64 m.nonce))
unfolding read_pong
read_pong-Takes = >>=-Takes _ _ _ _ read_u64-Takes λ n l q. pure-Takes _ _ (rw append-nil q)

-- The fields of both ends of a manifest.
abbrev pub BoundaryTaken : ℕ → ℕ → ℕ → Bytes → Type 0
BoundaryTaken revision count total l =
    IsU64 revision × IsU32 count × IsU64 total × (l ≡ boundary_bytes revision count total)

pub read_manifest_begin-Takes :
    Takes read_manifest_begin
      (λ m l. BoundaryTaken m.manifest_revision m.asset_count m.total_download_size l)
unfolding read_manifest_begin boundary_bytes
read_manifest_begin-Takes = >>=-Takes _ _ _ _ read_u64-Takes λ r l qr.
    >>=-Takes _ _ _ _ read_u32-Takes λ c k qc.
      >>=-Takes _ _ _ _ read_u64-Takes
        λ t j qt. pure-Takes _ _ (qr.0, qc.0, qt.0, rw (append-nil, qr.1, qc.1, qt.1))

pub read_manifest_end-Takes :
    Takes read_manifest_end
      (λ m l. BoundaryTaken m.manifest_revision m.asset_count m.total_download_size l)
unfolding read_manifest_end boundary_bytes
read_manifest_end-Takes = >>=-Takes _ _ _ _ read_u64-Takes λ r l qr.
    >>=-Takes _ _ _ _ read_u32-Takes λ c k qc.
      >>=-Takes _ _ _ _ read_u64-Takes
        λ t j qt. pure-Takes _ _ (qr.0, qc.0, qt.0, rw (append-nil, qr.1, qc.1, qt.1))

pub read_asset_position-Takes :
    Takes read_asset_position (λ p l. IsU64 p.0 × IsU32 p.1 × (l ≡ be64 p.0 ++ be32 p.1))
unfolding read_asset_position
read_asset_position-Takes = >>=-Takes _ _ _ _ read_u64-Takes λ r l qr.
    >>=-Takes _ _ _ _ read_u32-Takes
      λ i k qi. pure-Takes _ _ (qr.0, qi.0, rw (append-nil, qr.1, qi.1))

-- The description with the integer `type` for its type.
abbrev pub AssetTaken : AssetDescription × ℕ → Bytes → Type 0
AssetTaken (a, type) l =
    IsU32 a.asset_id
    × All IsByte a.logical_name
    × All IsByte a.download_url
    × IsU64 a.file_size
    × All IsByte a.sha256
    × (length a.sha256 ≡ 32)
    × (l
        ≡ be32 a.asset_id
          ++ (be16 type
              ++ (text a.logical_name ++ (text a.download_url ++ (be64 a.file_size ++ a.sha256)))))

pub read_asset_fields-Takes : Takes read_asset_fields AssetTaken
unfolding read_asset_fields
read_asset_fields-Takes = >>=-Takes _ _ _ _ read_u32-Takes λ i l0 qi.
    >>=-Takes _ _ _ _ read_u16-Takes λ t l1 qt. >>=-Takes _ _ _ _ (read_string-Takes 96) λ n l2 qn.
      >>=-Takes _ _ _ _ (read_string-Takes 2048) λ u l3 qu.
        >>=-Takes _ _ _ _ read_u64-Takes λ s l4 qs.
          >>=-Takes _ _ _ _ (read_bytes-Takes 32) λ d l5 qd. pure-Takes _ _ (
            qi.0,
            qn.1,
            qu.1,
            qs.0,
            qd.1,
            qd.0,
            rw (append-nil, qi.1, qt.1, qn.2, qu.2, qs.1, qd.2),
          )

pub read_asset_ready-Takes : Takes read_asset_ready (λ m l.
    IsU64 m.manifest_revision
    × IsU32 m.asset_id
    × (l ≡ be64 m.manifest_revision ++ be32 m.asset_id))
unfolding read_asset_ready
read_asset_ready-Takes = >>=-Takes _ _ _ _ read_u64-Takes λ r l qr.
    >>=-Takes _ _ _ _ read_u32-Takes
      λ i k qi. pure-Takes _ _ (qr.0, qi.0, rw (append-nil, qr.1, qi.1))

abbrev pub ErrorTaken : AssetError × ℕ → Bytes → Type 0
ErrorTaken (m, reason) l =
    IsU64 m.manifest_revision
    × IsU32 m.asset_id
    × (l ≡ be64 m.manifest_revision ++ (be32 m.asset_id ++ be16 reason))

pub read_asset_error-Takes : Takes read_asset_error ErrorTaken
unfolding read_asset_error
read_asset_error-Takes = >>=-Takes _ _ _ _ read_u64-Takes λ r l qr.
    >>=-Takes _ _ _ _ read_u32-Takes λ i k qi.
      >>=-Takes _ _ _ _ read_u16-Takes
        λ e j qe. pure-Takes _ _ (qr.0, qi.0, rw (append-nil, qr.1, qi.1, qe.1))

abbrev pub HeaderTaken : Header → Bytes → Type 0
HeaderTaken h l =
    l ≡ be32 h.magic ++ (be16 h.version ++ (be16 h.message_type ++ be32 h.payload_size))

pub read_header-Takes : Takes read_header HeaderTaken
unfolding read_header
read_header-Takes = >>=-Takes _ _ _ _ read_u32-Takes λ m l qm.
    >>=-Takes _ _ _ _ read_u16-Takes λ v k qv. >>=-Takes _ _ _ _ read_u16-Takes λ t j qt.
      >>=-Takes _ _ _ _ read_u32-Takes
        λ s i qs. pure-Takes _ _ (rw (append-nil, qm.1, qv.1, qt.1, qs.1))

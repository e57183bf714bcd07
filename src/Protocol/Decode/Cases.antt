-- ===== src/Protocol/Decode/Cases.antt =====
-- What each case of `DecodePayload` of shared/src/protocol.cpp has decoded, and from which bytes.
use custommodels.Base.{
  ℕ, ◌≡◌, refl, true, false, not, ◌++◌, arith, ◌∙◌, ap, append_assoc, All, ok, ◌==◌, ◌||◌, ◌&&◌,
}
use custommodels.Version.{version_of_code}
use custommodels.Version.Builds.{version_code-of_code}
use custommodels.Assets.{Bytes, AssetDescription, asset_type_of_code, is_asset_description_valid}
use custommodels.Protocol.Types.{
  MessageType, Message, hello, welcome, reject, ping, pong, manifest_begin, manifest_end,
  asset_ready, asset_error, message_type_code, message_type_of_code, reject_of_code,
  asset_error_of_code,
}
use custommodels.Protocol.Checks.{
  is_samp_version_value_valid, are_capabilities_valid, is_reject_reason_valid,
  is_asset_error_reason_valid, is_manifest_boundary_valid, is_known_message_type,
}
use custommodels.Protocol.Encode.{type_of, has_invalid_field}
use custommodels.Protocol.Decode.{
  Decoded, decode_case, decode_hello, decode_welcome, decode_reject, decode_ping, decode_pong,
  decode_manifest_begin, decode_manifest_asset, decode_manifest_end, decode_asset_ready,
  decode_asset_error, read_asset_description,
}
use custommodels.Protocol.Decode.Fields.{
  read_hello, read_welcome, read_reject, read_ping, read_pong, read_manifest_begin,
  read_asset_position, read_asset_fields, read_manifest_end, read_asset_ready, read_asset_error,
}
use custommodels.Protocol.Decode.Takes.{
  read_hello-Takes, read_welcome-Takes, read_reject-Takes, read_ping-Takes, read_pong-Takes,
  read_manifest_begin-Takes, read_asset_position-Takes, read_asset_fields-Takes,
  read_manifest_end-Takes, read_asset_ready-Takes, read_asset_error-Takes,
}
use custommodels.Protocol.Layout.{
  IsByte, IsTyped, payload_bytes, asset_bytes, be16, be32, be64, text,
}
use custommodels.Protocol.Decode.Inversion.{
  reject_code-of_code, asset_error_code-of_code, asset_type_code-of_code, checked-inversion,
  unchecked-inversion, two_steps-inversion,
}

-- `m` has been decoded from the front of `bytes`.
pub record IsDecoded (t : MessageType) (m : Message) (bytes : Bytes) (rest : Bytes) : Type 0 where
  pub front : bytes ≡ payload_bytes m ++ rest
  pub typed : IsTyped m
  pub valid : has_invalid_field m ≡ false
  pub kind : type_of m ≡ t

abbrev pub Decodes : MessageType → (Bytes → Decoded) → Type 0
Decodes t decode =
    (bytes : Bytes) (m : Message) (rest : Bytes)
    → All IsByte bytes
    → decode bytes ≡ ok (m, rest)
    → IsDecoded t m bytes rest

decode_hello-Decodes : Decodes MessageType.hello decode_hello
unfolding decode_hello type_of payload_bytes has_invalid_field
decode_hello-Decodes bytes m rest okb e =
    let (w, taken, valid, built) =
      checked-inversion (read_hello bytes)
        (λ w. is_samp_version_value_valid w.1 && are_capabilities_valid (w.0).capabilities)
        (λ w. hello (record (w.0) { samp_version = version_of_code w.1 })) m rest e in
    let (l, front, q, okr) = read_hello-Takes bytes w rest okb taken in
    rw built (record {
      front = rw (version_code-of_code w.1) (front ∙ ap (λ t. t ++ rest) q.3);
      typed = (q.0, q.1, ap version_of_code (version_code-of_code w.1), q.2);
      valid = rw (version_code-of_code w.1) (ground arith);
      kind = refl;
    })

decode_welcome-Decodes : Decodes MessageType.welcome decode_welcome
unfolding decode_welcome type_of payload_bytes has_invalid_field
decode_welcome-Decodes bytes m rest okb e =
    let (w, taken, valid, built) =
      checked-inversion (read_welcome bytes) (λ w. are_capabilities_valid w.negotiated_capabilities)
        welcome m rest e in
    let (l, front, q, okr) = read_welcome-Takes bytes w rest okb taken in
    rw built (record {
      front = front ∙ ap (λ t. t ++ rest) q.4;
      typed = (q.0, q.1, q.2, q.3);
      valid = ground arith;
      kind = refl;
    })

decode_reject-Decodes : Decodes MessageType.reject decode_reject
unfolding decode_reject type_of payload_bytes has_invalid_field
decode_reject-Decodes bytes m rest okb e =
    let (w, taken, valid, built) =
      checked-inversion (read_reject bytes) is_reject_reason_valid
        (λ w. reject (record { reason = reject_of_code w })) m rest e in
    let (l, front, q, okr) = read_reject-Takes bytes w rest okb taken in
    rw built (record {
      front = rw (reject_code-of_code w) (front ∙ ap (λ t. t ++ rest) q.1);
      typed = ap reject_of_code (reject_code-of_code w);
      valid = rw (reject_code-of_code w) (ground arith);
      kind = refl;
    })

decode_ping-Decodes : Decodes MessageType.ping decode_ping
unfolding decode_ping type_of payload_bytes has_invalid_field
decode_ping-Decodes bytes m rest okb e =
    let (w, taken, built) = unchecked-inversion (read_ping bytes) ping m rest e in
    let (l, front, q, okr) = read_ping-Takes bytes w rest okb taken in
    rw built
      (record { front = front ∙ ap (λ t. t ++ rest) q.1; typed = q.0; valid = refl; kind = refl })

decode_pong-Decodes : Decodes MessageType.pong decode_pong
unfolding decode_pong type_of payload_bytes has_invalid_field
decode_pong-Decodes bytes m rest okb e =
    let (w, taken, built) = unchecked-inversion (read_pong bytes) pong m rest e in
    let (l, front, q, okr) = read_pong-Takes bytes w rest okb taken in
    rw built
      (record { front = front ∙ ap (λ t. t ++ rest) q.1; typed = q.0; valid = refl; kind = refl })

decode_manifest_begin-Decodes : Decodes MessageType.manifest_begin decode_manifest_begin
unfolding decode_manifest_begin type_of payload_bytes has_invalid_field
decode_manifest_begin-Decodes bytes m rest okb e =
    let (w, taken, valid, built) =
      checked-inversion (read_manifest_begin bytes)
        (λ w. is_manifest_boundary_valid w.manifest_revision w.asset_count w.total_download_size)
        manifest_begin m rest e in
    let (l, front, q, okr) = read_manifest_begin-Takes bytes w rest okb taken in
    rw built (record {
      front = front ∙ ap (λ t. t ++ rest) q.3;
      typed = (q.0, q.1, q.2);
      valid = ground arith;
      kind = refl;
    })

decode_manifest_end-Decodes : Decodes MessageType.manifest_end decode_manifest_end
unfolding decode_manifest_end type_of payload_bytes has_invalid_field
decode_manifest_end-Decodes bytes m rest okb e =
    let (w, taken, valid, built) =
      checked-inversion (read_manifest_end bytes)
        (λ w. is_manifest_boundary_valid w.manifest_revision w.asset_count w.total_download_size)
        manifest_end m rest e in
    let (l, front, q, okr) = read_manifest_end-Takes bytes w rest okb taken in
    rw built (record {
      front = front ∙ ap (λ t. t ++ rest) q.3;
      typed = (q.0, q.1, q.2);
      valid = ground arith;
      kind = refl;
    })

decode_asset_ready-Decodes : Decodes MessageType.asset_ready decode_asset_ready
unfolding decode_asset_ready type_of payload_bytes has_invalid_field
decode_asset_ready-Decodes bytes m rest okb e =
    let (w, taken, valid, built) =
      checked-inversion (read_asset_ready bytes)
        (λ w. not (w.manifest_revision == 0 || w.asset_id == 0)) asset_ready m rest e in
    let (l, front, q, okr) = read_asset_ready-Takes bytes w rest okb taken in
    rw built (record {
      front = front ∙ ap (λ t. t ++ rest) q.2;
      typed = (q.0, q.1);
      valid = ground arith;
      kind = refl;
    })

decode_asset_error-Decodes : Decodes MessageType.asset_error decode_asset_error
unfolding decode_asset_error type_of payload_bytes has_invalid_field
decode_asset_error-Decodes bytes m rest okb e =
    let (w, taken, valid, built) =
      checked-inversion (read_asset_error bytes)
        (λ w. not (
          (w.0).manifest_revision == 0
          || (w.0).asset_id == 0
          || not (is_asset_error_reason_valid w.1)))
        (λ w. asset_error (record (w.0) { reason = asset_error_of_code w.1 })) m rest e in
    let (l, front, q, okr) = read_asset_error-Takes bytes w rest okb taken in
    rw built (record {
      front = rw (asset_error_code-of_code w.1) (front ∙ ap (λ t. t ++ rest) q.2);
      typed = (q.0, q.1, ap asset_error_of_code (asset_error_code-of_code w.1));
      valid = rw (asset_error_code-of_code w.1) (ground arith);
      kind = refl;
    })

asset_front :
    (p : ℕ × ℕ) (w : AssetDescription × ℕ) (bytes fields rest l k : Bytes)
    → bytes ≡ l ++ fields
    → l ≡ be64 p.0 ++ be32 p.1
    → fields ≡ k ++ rest
    → k
      ≡ be32 (w.0).asset_id
        ++ (be16 w.1
            ++ (text (w.0).logical_name
                ++ (text (w.0).download_url ++ (be64 (w.0).file_size ++ (w.0).sha256))))
    → bytes
      ≡ be64 p.0
        ++ (be32 p.1 ++ asset_bytes (record (w.0) { type = asset_type_of_code w.1 }))
        ++ rest
unfolding asset_bytes
asset_front p w bytes fields rest l k front hl middle hk =
    rw (front, hl, middle, hk, asset_type_code-of_code w.1) (simp append_assoc)

decode_manifest_asset-Decodes : Decodes MessageType.manifest_asset decode_manifest_asset
unfolding decode_manifest_asset type_of payload_bytes asset_bytes has_invalid_field
    read_asset_description
decode_manifest_asset-Decodes bytes m rest okb e =
    let s = two_steps-inversion (read_asset_position bytes) read_asset_description m rest e in
    let (l, front, p, okf) = read_asset_position-Takes bytes s.position s.fields okb s.first in
    let (w, taken, valid, same) =
      checked-inversion (read_asset_fields s.fields)
        (λ w. is_asset_description_valid (record (w.0) { type = asset_type_of_code w.1 }))
        (λ w. record (w.0) { type = asset_type_of_code w.1 }) s.asset rest s.second in
    let (k, middle, q, okr) = read_asset_fields-Takes s.fields w rest okf taken in
    let code = asset_type_code-of_code w.1 in
    rw (s.built, same)
      (record {
        front = asset_front s.position w bytes s.fields rest l k front p.2 middle q.6;
        typed = (
          p.0,
          p.1,
          record {
            asset_id = q.0;
            type = ap asset_type_of_code code;
            logical_name = q.1;
            download_url = q.2;
            file_size = q.3;
            sha256 = q.4;
            digest_size = q.5;
          },
        );
        valid = ground (arith, s.inside, valid);
        kind = refl;
      })

pub decode_case-Decodes :
    (t : MessageType) (n : ℕ) (initial : Message)
    → message_type_of_code n ≡ t
    → is_known_message_type n ≡ true
    → Decodes t (decode_case t initial)
unfolding decode_case
decode_case-Decodes MessageType.hello n initial e h = decode_hello-Decodes
decode_case-Decodes MessageType.welcome n initial e h = decode_welcome-Decodes
decode_case-Decodes MessageType.reject n initial e h = decode_reject-Decodes
decode_case-Decodes MessageType.ping n initial e h = decode_ping-Decodes
decode_case-Decodes MessageType.pong n initial e h = decode_pong-Decodes
decode_case-Decodes MessageType.manifest_begin n initial e h = decode_manifest_begin-Decodes
decode_case-Decodes MessageType.manifest_asset n initial e h = decode_manifest_asset-Decodes
decode_case-Decodes MessageType.manifest_end n initial e h = decode_manifest_end-Decodes
decode_case-Decodes MessageType.asset_ready n initial e h = decode_asset_ready-Decodes
decode_case-Decodes MessageType.asset_error n initial e h = decode_asset_error-Decodes
decode_case-Decodes (MessageType.undeclared k) n initial e h =
    absurd (unfold message_type_of_code is_known_message_type message_type_code in ground arith)

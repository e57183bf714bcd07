-- ===== src/Client/Runtime/Reports.antt =====
-- The reports on the assets: `PumpAssetResults` of client/src/core/runtime.cpp.
use custommodels.Base.{
  ℕ, ◌≡◌, refl, Bool, true, List, [], ◌∷◌, ◌++◌, Option, none, some, ok, All, All-append, ◌∙◌,
  subst, sym, ap, Option-cases, inl, inr,
}
use custommodels.Assets.{Bytes}
use custommodels.Protocol.Types.{view, Message, asset_error, AssetErrorReason}
use custommodels.Protocol.Encode.{encode_packet}
use custommodels.Protocol.Decode.{decode_packet}
use custommodels.Protocol.Layout.{packet_bytes}
use custommodels.Frame.Carried.{IsSendable, encode_packet-sendable, decode_packet-sendable}
use custommodels.Client.Handshake.{ClientHandshake}
use custommodels.Client.Manager.{
  ClientAssetManager, ClientAssetEvent, ClientAssetEventKind, drain_events,
}
use custommodels.Client.Runtime.{
  ProtocolContext, is_compatible, send_asset_report, report_of, report_events, pump_asset_results,
}

-- What the server is due for an event: the asset is ready, or it has failed for a reason.
unfoldable pub due : ClientAssetEventKind → ℕ → ℕ → AssetErrorReason → List Message
due ClientAssetEventKind.ready revision id reason =
    Message.asset_ready (record { manifest_revision = revision; asset_id = id }) ∷ []
due ClientAssetEventKind.failed revision id reason =
    asset_error (record { manifest_revision = revision; asset_id = id; reason = reason }) ∷ []
due ClientAssetEventKind.manifest_begin revision id reason = []
due ClientAssetEventKind.manifest_complete revision id reason = []
due ClientAssetEventKind.cache_hit revision id reason = []
due ClientAssetEventKind.queued revision id reason = []
due ClientAssetEventKind.downloading revision id reason = []
due ClientAssetEventKind.verifying revision id reason = []
due ClientAssetEventKind.verified revision id reason = []

-- What it is due for the events, in their order.
unfoldable pub reports_of : List ClientAssetEvent → List Message
unfolding due
reports_of [] = []
reports_of (e ∷ events) = due e.kind e.manifest_revision e.asset_id e.error ++ reports_of events

-- The packets of the messages, sent one after the other.
unfoldable pub pushed : List Message → List Bytes → List Bytes
pushed [] sent = sent
pushed (m ∷ messages) sent = pushed messages (packet_bytes m ∷ sent)

-- The encoder accepts what the server is due for the event; an event that is no result has none.
abbrev pub IsReportable : ClientAssetEvent → Type 0
IsReportable e = All IsSendable (due e.kind e.manifest_revision e.asset_id e.error)

abbrev event : ClientAssetEventKind → ℕ → ℕ → ℕ → AssetErrorReason → ClientAssetEvent
event kind revision id count error = record {
  kind = kind;
  manifest_revision = revision;
  asset_id = id;
  asset_count = count;
  error = error;
}

-- A context with a transport and a manager.
abbrev pub context : ClientHandshake → ClientAssetManager → Bool → List Bytes → ProtocolContext
context h m logged sent = record {
  handshake = some h;
  has_transport = true;
  assets = some m;
  malformed_packet_logged = logged;
  sent = sent;
}

abbrev pub IsDecoded : Message → Type 0
IsDecoded m =
    decode_packet (view (packet_bytes m)) ≡ ok (record { protocol_version = 1; message = m })

-- The messages are the one that is there, if any.
abbrev IsDue : Option Message → List Message → Type 0
IsDue none messages = messages ≡ []
IsDue (some m) messages = messages ≡ m ∷ []

send-encoded :
    (h : ClientHandshake) (m : ClientAssetManager) (logged : Bool) (sent : List Bytes)
    (report : Message) (bytes : Bytes)
    → encode_packet report 1 ≡ ok bytes
    → send_asset_report (context h m logged sent) report ≡ context h m logged (bytes ∷ sent)
unfolding send_asset_report
send-encoded h m logged sent report bytes e = rw (send_asset_report, e) refl

send_asset_report-context :
    (h : ClientHandshake) (m : ClientAssetManager) (logged : Bool) (sent : List Bytes)
    (report : Message)
    → IsSendable report
    → send_asset_report (context h m logged sent) report
      ≡ context h m logged (packet_bytes report ∷ sent)
send_asset_report-context h m logged sent report s =
    send-encoded h m logged sent report (packet_bytes report) (encode_packet-sendable report s)

-- The code reports what is due.
kind-due :
    (kind : ClientAssetEventKind) (revision id count : ℕ) (error : AssetErrorReason)
    → IsDue (report_of (event kind revision id count error)) (due kind revision id error)
unfolding report_of due
kind-due ClientAssetEventKind.ready revision id count error = refl
kind-due ClientAssetEventKind.failed revision id count error = refl
kind-due _ revision id count error = refl

report_of-due :
    (e : ClientAssetEvent) → IsDue (report_of e) (due e.kind e.manifest_revision e.asset_id e.error)
report_of-due e = kind-due e.kind e.manifest_revision e.asset_id e.asset_count e.error

All-IsDecoded : (messages : List Message) → All IsSendable messages → All IsDecoded messages
All-IsDecoded [] h = tt
All-IsDecoded (m ∷ messages) h = (decode_packet-sendable m h.0, All-IsDecoded messages h.1)

reports_of-IsSendable :
    (events : List ClientAssetEvent) → All IsReportable events → All IsSendable (reports_of events)
unfolding reports_of
reports_of-IsSendable [] r = tt
reports_of-IsSendable (e ∷ events) r =
    All-append IsSendable (due e.kind e.manifest_revision e.asset_id e.error) (reports_of events)
      r.0 (reports_of-IsSendable events r.1)

report_events-context :
    (h : ClientHandshake) (m : ClientAssetManager) (logged : Bool) (sent : List Bytes)
    (events : List ClientAssetEvent)
    → All IsReportable events
    → report_events (context h m logged sent) events
      ≡ context h m logged (pushed (reports_of events) sent)
unfolding report_events reports_of pushed
report_events-context h m logged sent [] r = refl
report_events-context h m logged sent (e ∷ events) r = elim (Option-cases (report_of e)) [
  | inl n ↦
      let nothing : due e.kind e.manifest_revision e.asset_id e.error ≡ [] =
        subst (λ o. IsDue o (due e.kind e.manifest_revision e.asset_id e.error)) n
          (report_of-due e) in
      rw (reports_of, report_events, n, nothing) (report_events-context h m logged sent events r.1)
  | inr (report, n) ↦
      let one : due e.kind e.manifest_revision e.asset_id e.error ≡ report ∷ [] =
        subst (λ o. IsDue o (due e.kind e.manifest_revision e.asset_id e.error)) n
          (report_of-due e) in
      let sendable : All IsSendable (report ∷ []) = subst (All IsSendable) one r.0 in
      rw
        (
          reports_of,
          report_events,
          n,
          one,
          send_asset_report-context h m logged sent report sendable.0,
        )
        (report_events-context h m logged (packet_bytes report ∷ sent) events r.1)
]

pump_asset_results-drained :
    (h : ClientHandshake) (m : ClientAssetManager) (logged : Bool) (sent : List Bytes)
    → is_compatible h.state ≡ true
    → pump_asset_results (context h m logged sent)
      ≡ report_events (context h (record m { events = [] }) logged sent) m.events
unfolding pump_asset_results drain_events
pump_asset_results-drained h m logged sent e = rw e refl

-- In a compatible session with a transport, the pump takes the manager's events and sends exactly
-- one packet for each asset that is ready or has failed, in the order of the events; the packet
-- decodes to that report, and a second call sends nothing. The fields of the events that are
-- reported are ones that the encoder accepts.
pub pump_asset_results-reports :
    (h : ClientHandshake) (m : ClientAssetManager) (logged : Bool) (sent : List Bytes)
    → is_compatible h.state ≡ true
    → All IsReportable m.events
    → (pump_asset_results (context h m logged sent)
        ≡ context h (record m { events = [] }) logged (pushed (reports_of m.events) sent))
      × All IsDecoded (reports_of m.events)
      × (pump_asset_results (pump_asset_results (context h m logged sent))
          ≡ pump_asset_results (context h m logged sent))
unfolding reports_of pushed
pump_asset_results-reports h m logged sent e r =
    let now =
      pump_asset_results-drained h m logged sent e
      ∙ report_events-context h (record m { events = [] }) logged sent m.events r in
    let after = context h (record m { events = [] }) logged (pushed (reports_of m.events) sent) in
    let again : pump_asset_results after ≡ after =
      pump_asset_results-drained h (record m { events = [] }) logged
        (pushed (reports_of m.events) sent) e
      ∙ report_events-context h (record m { events = [] }) logged
          (pushed (reports_of m.events) sent) [] tt in
    (
      now,
      All-IsDecoded (reports_of m.events) (reports_of-IsSendable m.events r),
      ap pump_asset_results now ∙ again ∙ sym now,
    )

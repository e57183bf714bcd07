-- ===== src/Server/Component/Claims.antt =====
-- Which packets `onReceive` claims: server/openmp/component.cpp.
use custommodels.Base.{
  ℕ, suc, zero, [], ◌∷◌, ◌++◌, length, drop, drop-append, length-take, take-append-drop, sym, ap,
  ◌∙◌, Option, none, ◌*◌, ◌≤◌, ◌/◌, ◌%◌, ◌≡◌, ◌≢◌, refl, false, not, ◌||◌, some, ltb, ◌==◌, take,
  Bool-cases, inl, inr, ◌⊎◌, arith,
}
use custommodels.Assets.{Bytes}
use custommodels.Protocol.Types.{ByteView, view}
use custommodels.Frame.{
  InspectedFrame, custom_model, has_protocol_magic, byte_at, inspect_protocol_payload,
}
use custommodels.Frame.Laws.{has_protocol_magic→take}
use custommodels.Server.Component.{ℤ, pos, negsuc, NetworkBitStream, unread_payload}

-- The component claims a packet: its unread bits begin at a whole byte, are 32 at least, and start
-- with the magic. What was read before them is arbitrary.
abbrev pub IsClaimed : NetworkBitStream → ℕ → Bytes → Type 0
IsClaimed stream unread payload =
    (before : Bytes) × (stream.bytes ≡ some (before ++ payload))
    × (stream.read_offset ≡ pos (8 * length before))
    × (stream.unread_bits ≡ pos unread)
    × (32 ≤ unread)
    × (take 4 payload ≡ b'C' ∷ b'M' ∷ b'O' ∷ b'D' ∷ [])

-- The tests of the code.
abbrev pub IsTaken : NetworkBitStream → ℕ → Bytes → Type 0
IsTaken stream unread payload =
    (unread_payload stream ≡ some (unread, payload))
    × (inspect_protocol_payload (view (take 4 payload)) ≢ InspectedFrame.unrelated)

behind : (before payload : Bytes) → drop (8 * length before / 8) (before ++ payload) ≡ payload
behind before payload =
    let same : 8 * length before / 8 ≡ length before = omega arith in
    rw same (drop-append before payload)

inspect-magic :
    (bytes : Bytes)
    → bytes ≡ b'C' ∷ b'M' ∷ b'O' ∷ b'D' ∷ []
    → inspect_protocol_payload (view bytes) ≡ custom_model (view bytes)
unfolding inspect_protocol_payload has_protocol_magic byte_at
inspect-magic bytes h = rw h refl

pub claimed-IsTaken :
    (stream : NetworkBitStream) (unread : ℕ) (payload : Bytes)
    → IsClaimed stream unread payload
    → IsTaken stream unread payload
unfolding unread_payload
claimed-IsTaken stream unread payload (before, b, o, u, long, magic) =
    let whole : (ltb unread 32 || not ((8 * length before) % 8 == 0)) ≡ false = ground arith in
    (
      rw (unread_payload, b, o, u, whole, behind before payload) refl,
      λ r. let q = inspect-magic (take 4 payload) magic in cc,
    )

pub Inspected-cases :
    (f : InspectedFrame)
    → (f ≡ InspectedFrame.unrelated) ⊎ ((bytes : ByteView) × (f ≡ custom_model bytes))
Inspected-cases InspectedFrame.unrelated = inl refl
Inspected-cases (custom_model bytes) = inr (bytes, refl)

drop-long : (n : ℕ) (bytes : Bytes) → drop n bytes ≢ [] → n ≤ length bytes
drop-long zero bytes h = omega arith
drop-long (suc n) [] h = absurd (h refl)
drop-long (suc n) (b ∷ bytes) h = omega (arith, drop-long n bytes h)

take-take : (bytes : Bytes) → take 4 (take 4 bytes) ≡ take 4 bytes
take-take [] = refl
take-take (a ∷ []) = refl
take-take (a ∷ b ∷ []) = refl
take-take (a ∷ b ∷ c ∷ []) = refl
take-take (a ∷ b ∷ c ∷ d ∷ bytes) = refl

magic-inspect :
    (bytes : Bytes)
    → inspect_protocol_payload (view (take 4 bytes)) ≢ InspectedFrame.unrelated
    → take 4 bytes ≡ b'C' ∷ b'M' ∷ b'O' ∷ b'D' ∷ []
unfolding inspect_protocol_payload
magic-inspect bytes h = elim (Bool-cases (has_protocol_magic (view (take 4 bytes)))) [
  | inl e ↦ sym (take-take bytes) ∙ has_protocol_magic→take (take 4 bytes) e
  | inr e ↦ absurd (h (rw (inspect_protocol_payload, e) refl))
]

magic-full : (bytes : Bytes) → take 4 bytes ≡ b'C' ∷ b'M' ∷ b'O' ∷ b'D' ∷ [] → bytes ≢ []
magic-full [] h e = cc
magic-full (b ∷ bytes) h e = cc

abbrev stream_of : Option Bytes → ℤ → ℤ → NetworkBitStream
stream_of bytes offset unread = record { bytes = bytes; read_offset = offset; unread_bits = unread }

at-IsClaimed :
    (bytes : Bytes) (offset n unread : ℕ) (payload : Bytes)
    → (ltb n 32 || not (offset % 8 == 0)) ≡ false
    → n ≡ unread
    → drop (offset / 8) bytes ≡ payload
    → take 4 payload ≡ b'C' ∷ b'M' ∷ b'O' ∷ b'D' ∷ []
    → IsClaimed (stream_of (some bytes) (pos offset) (pos n)) unread payload
at-IsClaimed bytes offset n unread payload good same rest magic =
    let full : drop (offset / 8) bytes ≢ [] = λ e. magic-full payload magic (sym rest ∙ e) in
    let long = drop-long (offset / 8) bytes full in
    let measured = length-take (offset / 8) bytes long in
    let exact : offset ≡ 8 * length (take (offset / 8) bytes) = ground (arith, measured) in
    (
      take (offset / 8) bytes,
      ap some
          (sym (take-append-drop (offset / 8) bytes) ∙ ap (λ r. take (offset / 8) bytes ++ r) rest),
      ap pos exact,
      ap pos same,
      ground arith,
      magic,
    )

fields-IsClaimed :
    (bytes : Option Bytes) (offset bits : ℤ) (unread : ℕ) (payload : Bytes)
    → unread_payload (stream_of bytes offset bits) ≡ some (unread, payload)
    → take 4 payload ≡ b'C' ∷ b'M' ∷ b'O' ∷ b'D' ∷ []
    → IsClaimed (stream_of bytes offset bits) unread payload
unfolding unread_payload
fields-IsClaimed none offset bits unread payload h magic = absurd (cc)
fields-IsClaimed (some bytes) (negsuc o) bits unread payload h magic = absurd (cc)
fields-IsClaimed (some bytes) (pos o) (negsuc n) unread payload h magic = absurd (cc)
fields-IsClaimed (some bytes) (pos o) (pos n) unread payload h magic =
    elim (Bool-cases (ltb n 32 || not (o % 8 == 0))) [
      | inl e ↦ absurd (let q = rw (unread_payload, e) at h in cc)
      | inr e ↦
          let q = rw (unread_payload, e) at h in
          at-IsClaimed bytes o n unread payload e (cc) (cc) magic
    ]

pub taken-IsClaimed :
    (stream : NetworkBitStream) (unread : ℕ) (payload : Bytes)
    → IsTaken stream unread payload
    → IsClaimed stream unread payload
taken-IsClaimed stream unread payload (h, magic) =
    fields-IsClaimed stream.bytes stream.read_offset stream.unread_bits unread payload h
      (magic-inspect payload magic)

-- ===== src/Assets/Sha256.antt =====
-- The hexadecimal form of a digest: `ParseSha256Hex` of shared/src/sha256.cpp.
use custommodels.Base.{
  ℕ, zero, suc, ◌+◌, ◌-◌, ◌*◌, ◌/◌, ◌%◌, ◌^◌, ◌<◌, bit_or, ◌≡◌, refl, ◌↔◌, not, ◌&&◌, [], ◌∷◌,
  Option, none, some, ltb, leb, ◌==◌, if◌then◌else◌, length, All, arith, ap, ◌∙◌, Option-cases,
  Bool-cases, ==→eq, subst, inl, inr,
}
use custommodels.Base.Bits.{bit_or-shifted}
use custommodels.Assets.Text.{Bytes}

-- `HexValue`; `none` is its -1.
unfoldable pub hex_value : ℕ → Option ℕ
hex_value value =
    if leb b'0' value && leb value b'9'
    then some (value - b'0')
    else if leb b'a' value && leb value b'f'
    then some (value - b'a' + 10)
    else none

-- The loop over the digest, on what is left of the text.
unfoldable pub parse_pairs : ℕ → Bytes → Option Bytes
parse_pairs zero hex = some []
parse_pairs (suc n) [] = none
parse_pairs (suc n) (a ∷ []) = none
parse_pairs (suc n) (a ∷ b ∷ hex) =
    let rest = parse_pairs n hex in
    elim (hex_value a) [
      | none ↦ none
      | some high ↦ elim (hex_value b) [
        | none ↦ none
        | some low ↦ elim rest [
          | none ↦ none
          | some digest ↦ some (bit_or (high * 2 ^ 4) low % 256 ∷ digest)
        ]
      ]
    ]

unfoldable pub parse_sha256_hex : Bytes → Option Bytes
unfolding parse_pairs
parse_sha256_hex hex = if not (length hex == 64) then none else parse_pairs 32 hex

-- The lower-case digit of a number below 16, and the two digits of every byte in order.
unfoldable pub digit : ℕ → ℕ
digit n = if ltb n 10 then b'0' + n else b'a' + (n - 10)

unfoldable pub hex_of : Bytes → Bytes
hex_of [] = []
hex_of (b ∷ digest) = digit (b / 16) ∷ digit (b % 16) ∷ hex_of digest

hex_value-digit : (n : ℕ) → n < 16 → hex_value (digit n) ≡ some n
unfolding hex_value digit
hex_value-digit n h = ground arith

digit-hex_value : (c n : ℕ) → hex_value c ≡ some n → (n < 16) × (digit n ≡ c)
unfolding hex_value digit
digit-hex_value c n h = (ground arith, ground arith)

pair : (high low : ℕ) → high < 16 → low < 16 → bit_or (high * 2 ^ 4) low % 256 ≡ high * 16 + low
pair high low h l = omega (arith, bit_or-shifted 4 high low (omega arith))

length-hex_of : (d : Bytes) → length (hex_of d) ≡ 2 * length d
unfolding hex_of
length-hex_of [] = refl
length-hex_of (b ∷ d) = omega (arith, length-hex_of d)

parse_pairs-hex_of : (d : Bytes) → All (λ b. b < 256) d → parse_pairs (length d) (hex_of d) ≡ some d
unfolding parse_pairs hex_of
parse_pairs-hex_of [] h = refl
parse_pairs-hex_of (b ∷ d) h =
    let whole : bit_or (b / 16 * 2 ^ 4) (b % 16) % 256 ≡ b =
      omega (arith, pair (b / 16) (b % 16) (omega (arith, h.0)) (omega arith)) in
    rw
      (
        parse_pairs,
        hex_value-digit (b / 16) (omega (arith, h.0)),
        parse_pairs,
        hex_value-digit (b % 16) (omega arith),
        parse_pairs,
        parse_pairs-hex_of d h.1,
        parse_pairs,
        whole,
      )
      refl

-- What the loop has parsed.
abbrev IsParsed : ℕ → Bytes → Bytes → Type 0
IsParsed n hex d = (hex ≡ hex_of d) × All (λ b. b < 256) d × (length d ≡ n)

longer-IsParsed :
    (n : ℕ) (a b high low : ℕ) (hex digest : Bytes)
    → hex_value a ≡ some high
    → hex_value b ≡ some low
    → IsParsed n hex digest
    → IsParsed (suc n) (a ∷ b ∷ hex) (bit_or (high * 2 ^ 4) low % 256 ∷ digest)
unfolding hex_of
longer-IsParsed n a b high low hex digest ha hb p =
    let (small, first) = digit-hex_value a high ha in
    let (little, second) = digit-hex_value b low hb in
    let byte = bit_or (high * 2 ^ 4) low % 256 in
    let whole : byte ≡ high * 16 + low = pair high low small little in
    let upper : byte / 16 ≡ high = omega (arith, whole, little) in
    let lower : byte % 16 ≡ low = omega (arith, whole, little) in
    (
      rw (upper, lower, first, second) (ap (λ t. a ∷ b ∷ t) p.0),
      (omega (arith, whole, small, little), p.1),
      ap suc p.2,
    )

parse_pairs-IsParsed :
    (n : ℕ) (hex d : Bytes) → length hex ≡ n + n → parse_pairs n hex ≡ some d → IsParsed n hex d
unfolding parse_pairs hex_of
parse_pairs-IsParsed zero [] d e h =
    let empty : [] ≡ d = cc in subst (IsParsed 0 []) empty (refl, tt, refl)
parse_pairs-IsParsed zero (a ∷ hex) d e h = absurd (omega (arith, e))
parse_pairs-IsParsed (suc n) [] d e h = absurd (omega (arith, e))
parse_pairs-IsParsed (suc n) (a ∷ []) d e h = absurd (omega (arith, e))
parse_pairs-IsParsed (suc n) (a ∷ b ∷ hex) d e h = elim (Option-cases (hex_value a)) [
  | inl q ↦ absurd (missing d (rw (q, parse_pairs) at h))
  | inr (high, ha) ↦ elim (Option-cases (hex_value b)) [
    | inl q ↦ absurd (missing d (rw (ha, parse_pairs, q, parse_pairs) at h))
    | inr (low, hb) ↦ elim (Option-cases (parse_pairs n hex)) [
      | inl q ↦ absurd (missing d (rw (ha, parse_pairs, hb, parse_pairs, q, parse_pairs) at h))
      | inr (digest, r) ↦
          let parsed = parse_pairs-IsParsed n hex digest (omega (arith, e)) r in
          let same : some (bit_or (high * 2 ^ 4) low % 256 ∷ digest) ≡ some d =
            rw (ha, parse_pairs, hb, parse_pairs, r, parse_pairs) at h in
          let equal : bit_or (high * 2 ^ 4) low % 256 ∷ digest ≡ d = cc in
          subst (IsParsed (suc n) (a ∷ b ∷ hex)) equal
            (longer-IsParsed n a b high low hex digest ha hb parsed)
    ]
  ]
]
  where
    missing : (t : Bytes) → none ≡ some t → ⊥
    missing t q = cc

-- A text parses to a digest exactly where it is the 64 lower-case digits of 32 bytes, and then to
-- those bytes.
pub parse_sha256_hex_iff :
    (hex d : Bytes)
    → (parse_sha256_hex hex ≡ some d) ↔ ((hex ≡ hex_of d) × All (λ b. b < 256) d × (length d ≡ 32))
unfolding parse_sha256_hex
parse_sha256_hex_iff hex d = (forth, back)
  where
    missing : none ≡ some d → ⊥
    missing q = cc

    forth : parse_sha256_hex hex ≡ some d → IsParsed 32 hex d
    forth h = elim (Bool-cases (length hex == 64)) [
      | inl e ↦ parse_pairs-IsParsed 32 hex d (==→eq _ _ e) (rw e at h)
      | inr e ↦ absurd (missing (rw e at h))
    ]

    back : IsParsed 32 hex d → parse_sha256_hex hex ≡ some d
    back p =
        let size : length (hex_of d) ≡ 64 = length-hex_of d ∙ ap (λ n. 2 * n) p.2 in
        rw (p.0, size)
          (subst (λ n. parse_pairs n (hex_of d) ≡ some d) p.2 (parse_pairs-hex_of d p.1))

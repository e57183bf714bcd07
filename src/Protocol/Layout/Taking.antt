-- ===== src/Protocol/Layout/Taking.antt =====
-- What the reader of shared/src/protocol.cpp has taken when it returns a value.
use custommodels.Base.{
  ℕ, ◌+◌, ◌*◌, ◌/◌, ◌%◌, ◌^◌, ◌≤◌, ◌≡◌, refl, sym, ap, ◌∙◌, subst, ◌++◌, [], ◌∷◌, some, none,
  Option, arith, bit_or, length, append_assoc, append-nil, All, take, drop, take-append-drop,
  length-take, All-take, All-drop,
}
use custommodels.Base.Bits.{bit_or-shifted}
use custommodels.Assets.{Bytes}
use custommodels.Protocol.Reader.{
  Reader, ◌>>=◌, pure, read_byte, read_u16, read_u32, read_u64, read_bytes, read_text, read_string,
}
use custommodels.Protocol.Layout.{IsByte, IsU16, IsU32, IsU64, be16, be32, be64, text}
use custommodels.Protocol.Layout.Reading.{or_bytes}

-- Where `r` returns `a`, it has taken a front `l` of the bytes with `Q a l`.
abbrev pub Takes : {A : Type 0} → Reader A → (A → Bytes → Type 0) → Type 0
Takes {A} r Q =
    (bytes : Bytes) (a : A) (rest : Bytes)
    → All IsByte bytes
    → r bytes ≡ some (a, rest)
    → (l : Bytes) × (bytes ≡ l ++ rest) × Q a l × All IsByte rest

module _ {A B : Type 0} where
  >>=-inversion :
      (r : Reader A) (f : A → Reader B) (bytes rest : Bytes) (b : B)
      → (r >>= f) bytes ≡ some (b, rest)
      → (a : A) × (mid : Bytes) × (r bytes ≡ some (a, mid)) × (f a mid ≡ some (b, rest))
  unfolding ◌>>=◌
  >>=-inversion r f bytes rest b e = cases (r bytes) refl e
    where
      cases :
          (o : Option (A × Bytes))
          → r bytes ≡ o
          → (elim o [ none ↦ none | some (a, mid) ↦ f a mid ]) ≡ some (b, rest)
          → (a : A) × (mid : Bytes) × (r bytes ≡ some (a, mid)) × (f a mid ≡ some (b, rest))
      cases none q h = cc
      cases (some (a, mid)) q h = (a, mid, q, h)

  pub >>=-Takes :
      (r : Reader A) (f : A → Reader B) (Q : A → Bytes → Type 0) (S : B → Bytes → Type 0)
      → Takes r Q
      → ((a : A) (l : Bytes) → Q a l → Takes (f a) (λ b k. S b (l ++ k)))
      → Takes (r >>= f) S
  >>=-Takes r f Q S hr hf bytes b rest ok e =
      let (a, mid, first, second) = >>=-inversion r f bytes rest b e in
      let (l, front, q, okm) = hr bytes a mid ok first in
      let (k, middle, s, okr) = hf a l q mid b rest okm second in
      (l ++ k, front ∙ ap (λ t. l ++ t) middle ∙ sym (append_assoc l k rest), s, okr)

pub pure-Takes : {A : Type 0} (a : A) (Q : A → Bytes → Type 0) → Q a [] → Takes (pure a) Q
unfolding pure
pure-Takes a Q q bytes b rest ok e =
    ([], ground arith, subst (λ t. Q t []) (ground arith) q, ground arith)

abbrev pub Is16 : ℕ → Bytes → Type 0
Is16 v l = IsU16 v × (l ≡ be16 v)

abbrev pub Is32 : ℕ → Bytes → Type 0
Is32 v l = IsU32 v × (l ≡ be32 v)

abbrev pub Is64 : ℕ → Bytes → Type 0
Is64 v l = IsU64 v × (l ≡ be64 v)

cons_eq : {x y : ℕ} {xs ys : Bytes} → x ≡ y → xs ≡ ys → x ∷ xs ≡ y ∷ ys
cons_eq p q = cc

IsOne : ℕ → Bytes → Type 0
IsOne v l = IsByte v × (l ≡ v ∷ [])

read_byte-Takes : Takes read_byte IsOne
unfolding read_byte IsOne
read_byte-Takes [] v rest ok e = cc
read_byte-Takes (b ∷ bytes) v rest ok e = (b ∷ [], ground arith, ground arith, ground arith)

pair_bytes :
    (high low : ℕ) → IsByte high → IsByte low → Is16 (bit_or (high * 2 ^ 8) low) (high ∷ low ∷ [])
unfolding be16
pair_bytes high low hh hl = rw (bit_or-shifted 8 high low hl) (omega arith, two)
  where
    two : high ∷ low ∷ [] ≡ be16 (high * 2 ^ 8 + low)
    two = cons_eq (omega arith) (cons_eq (omega arith) refl)

four_bytes :
    (b0 b1 b2 b3 : ℕ)
    → IsByte b0
    → IsByte b1
    → IsByte b2
    → IsByte b3
    → Is32
        (bit_or (bit_or (bit_or (b0 * 2 ^ 24) (b1 * 2 ^ 16)) (b2 * 2 ^ 8)) b3)
        (b0 ∷ b1 ∷ b2 ∷ b3 ∷ [])
unfolding be32
four_bytes b0 b1 b2 b3 h0 h1 h2 h3 = rw (or_bytes b0 b1 b2 b3 h1 h2 h3) (omega arith, four)
  where
    four : b0 ∷ b1 ∷ b2 ∷ b3 ∷ [] ≡ be32 (b0 * 2 ^ 24 + b1 * 2 ^ 16 + b2 * 2 ^ 8 + b3)
    four =
        cons_eq (omega arith)
          (cons_eq (omega arith) (cons_eq (omega arith) (cons_eq (omega arith) refl)))

eight_bytes :
    (high low : ℕ) (l k : Bytes)
    → Is32 high l
    → Is32 low k
    → Is64 (bit_or (high * 2 ^ 32) low) (l ++ k)
unfolding be64
eight_bytes high low l k qh ql =
    let upper : (high * 2 ^ 32 + low) / 2 ^ 32 ≡ high = omega (arith, ql.0) in
    let lower : (high * 2 ^ 32 + low) % 2 ^ 32 ≡ low = omega (arith, ql.0) in
    rw (bit_or-shifted 32 high low ql.0, upper, lower, qh.1, ql.1) (omega (arith, qh.0, ql.0), refl)

pub read_u16-Takes : Takes read_u16 Is16
unfolding read_u16 IsOne
read_u16-Takes = >>=-Takes _ _ _ _ read_byte-Takes λ high l qh.
    >>=-Takes _ _ _ _ read_byte-Takes
      λ low k ql. pure-Takes _ _ (rw (qh.1, ql.1) (pair_bytes high low qh.0 ql.0))

pub read_u32-Takes : Takes read_u32 Is32
unfolding read_u32 IsOne
read_u32-Takes = >>=-Takes _ _ _ _ read_byte-Takes λ b0 l0 q0.
    >>=-Takes _ _ _ _ read_byte-Takes λ b1 l1 q1. >>=-Takes _ _ _ _ read_byte-Takes λ b2 l2 q2.
      >>=-Takes _ _ _ _ read_byte-Takes λ b3 l3 q3.
        pure-Takes _ _ (rw (q0.1, q1.1, q2.1, q3.1) (four_bytes b0 b1 b2 b3 q0.0 q1.0 q2.0 q3.0))

pub read_u64-Takes : Takes read_u64 Is64
unfolding read_u64
read_u64-Takes = >>=-Takes _ _ _ _ read_u32-Takes λ high l qh.
    >>=-Takes _ _ _ _ read_u32-Takes
      λ low k ql. pure-Takes _ _ (rw append-nil (eight_bytes high low l k qh ql))

abbrev pub IsTaken : ℕ → Bytes → Bytes → Type 0
IsTaken size s l = (length s ≡ size) × All IsByte s × (l ≡ s)

taken :
    (size : ℕ) (bytes : Bytes)
    → All IsByte bytes
    → size ≤ length bytes
    → (l : Bytes) × (bytes ≡ l ++ drop size bytes)
      × IsTaken size (take size bytes) l
      × All IsByte (drop size bytes)
taken size bytes ok enough = (
  take size bytes,
  sym (take-append-drop size bytes),
  (length-take size bytes enough, All-take IsByte size bytes ok, refl),
  All-drop IsByte size bytes ok,
)

pub read_bytes-Takes : (size : ℕ) → Takes (read_bytes size) (IsTaken size)
unfolding read_bytes
read_bytes-Takes size bytes s rest ok e =
    let parts : (size ≤ length bytes) × (s ≡ take size bytes) × (rest ≡ drop size bytes) =
      ground arith in
    rw (parts.1, parts.2) (taken size bytes ok parts.0)

-- A text of at most `maximum` bytes behind its length.
abbrev pub IsText : ℕ → Bytes → Bytes → Type 0
IsText maximum s l = (length s ≤ maximum) × All IsByte s × (l ≡ text s)

read_text-Takes :
    (maximum size : ℕ)
    → Takes (read_text maximum size) (λ s l. (length s ≤ maximum) × IsTaken size s l)
unfolding read_text
read_text-Takes maximum size bytes s rest ok e =
    let parts : (size ≤ length bytes)
        × (s ≡ take size bytes)
        × (rest ≡ drop size bytes)
        × (size ≤ maximum) =
      ground arith in
    let (l, front, q, okr) = taken size bytes ok parts.0 in
    rw (parts.1, parts.2) (l, front, (omega (arith, q.0, parts.3), q), okr)

pub read_string-Takes : (maximum : ℕ) → Takes (read_string maximum) (IsText maximum)
unfolding read_string text
read_string-Takes maximum = >>=-Takes _ _ _ _ read_u16-Takes λ size l qs bytes s rest ok e.
    let (k, front, q, okr) = read_text-Takes maximum size bytes s rest ok e in
    let same : l ++ k ≡ be16 (length s) ++ s = rw (qs.1, (q.1).2, (q.1).0) in
    (k, front, (q.0, (q.1).1, same), okr)

-- ===== src/Protocol/Layout/Reading.antt =====
-- The reader of shared/src/protocol.cpp takes back each field of the layout.
use custommodels.Base.{
  ℕ, ◌+◌, ◌*◌, ◌/◌, ◌%◌, ◌^◌, ◌≤◌, ◌<◌, ◌≡◌, ap, ◌∙◌, subst, ltb, false, ◌++◌, some, arith, bit_or,
  length, length-append, append_assoc, take-append, drop-append,
}
use custommodels.Base.Bits.{bit_or-shifted}
use custommodels.Assets.{Bytes}
use custommodels.Protocol.Reader.{
  Reader, ◌>>=◌, pure, read_byte, read_u16, read_u32, read_u64, read_bytes, read_text, read_string,
}
use custommodels.Protocol.Layout.{IsByte, IsU16, IsU32, IsU64, be16, be32, be64, text}

-- `r` takes exactly `l` and returns `a`, whatever follows.
abbrev pub Reads {ℓ} : {A : Type ℓ} → Reader A → Bytes → A → Type ℓ
Reads r l a = (rest : Bytes) → r (l ++ rest) ≡ some (a, rest)

module _ {ℓ κ} {A : Type ℓ} {B : Type κ} where
  >>=-some :
      (r : Reader A) (f : A → Reader B) (bytes : Bytes) {a : A} {rest : Bytes}
      → r bytes ≡ some (a, rest)
      → (r >>= f) bytes ≡ f a rest
  unfolding ◌>>=◌
  >>=-some r f bytes e = rw (e, ◌>>=◌)

  pub >>=-Reads :
      (r : Reader A) (f : A → Reader B) (l k : Bytes) (a : A) (b : B)
      → Reads r l a
      → Reads (f a) k b
      → Reads (r >>= f) (l ++ k) b
  >>=-Reads r f l k a b hr hf rest =
      ap (r >>= f) (append_assoc l k rest)
      ∙ >>=-some r f (l ++ (k ++ rest)) (hr (k ++ rest))
      ∙ hf rest

  -- The last field of a structure, with the value that is built from it.
  pub pure-Reads :
      (r : Reader A) (f : A → B) (l : Bytes) (a : A)
      → Reads r l a
      → Reads (r >>= λ x. pure (f x)) l (f a)
  unfolding pure
  pure-Reads r f l a hr rest = >>=-some r (λ x. pure (f x)) (l ++ rest) (hr rest)

pub or_bytes :
    (b0 b1 b2 b3 : ℕ)
    → IsByte b1
    → IsByte b2
    → IsByte b3
    → bit_or (bit_or (bit_or (b0 * 2 ^ 24) (b1 * 2 ^ 16)) (b2 * 2 ^ 8)) b3
      ≡ b0 * 2 ^ 24 + b1 * 2 ^ 16 + b2 * 2 ^ 8 + b3
or_bytes b0 b1 b2 b3 h1 h2 h3 =
    let top = b0 * 256 + b1 in
    let upper = top * 256 + b2 in
    let first : bit_or (b0 * 2 ^ 24) (b1 * 2 ^ 16) ≡ top * 2 ^ 16 =
      omega (arith, bit_or-shifted 24 b0 (b1 * 2 ^ 16) (omega arith)) in
    let second : bit_or (top * 2 ^ 16) (b2 * 2 ^ 8) ≡ upper * 2 ^ 8 =
      omega (arith, bit_or-shifted 16 top (b2 * 2 ^ 8) (omega arith)) in
    rw first (rw second (omega (arith, bit_or-shifted 8 upper b3 h3)))

pub read_u16-Reads : (v : ℕ) → IsU16 v → Reads read_u16 (be16 v) v
unfolding read_u16 ◌>>=◌ pure read_byte be16
read_u16-Reads v h rest =
    let whole : bit_or (v / 256 * 2 ^ 8) (v % 256) ≡ v =
      omega (arith, bit_or-shifted 8 (v / 256) (v % 256) (omega arith)) in
    ap (λ (t : ℕ). some (t, rest)) whole

pub read_u32-Reads : (v : ℕ) → IsU32 v → Reads read_u32 (be32 v) v
unfolding read_u32 ◌>>=◌ pure read_byte be32
read_u32-Reads v h rest =
    let joined =
      or_bytes (v / 2 ^ 24) (v / 2 ^ 16 % 256) (v / 2 ^ 8 % 256) (v % 256) (omega arith)
        (omega arith) (omega arith) in
    ap (λ (t : ℕ). some (t, rest)) (joined ∙ omega arith)

pub read_u64-Reads : (v : ℕ) → IsU64 v → Reads read_u64 (be64 v) v
unfolding read_u64 be64
read_u64-Reads v h =
    let whole : bit_or (v / 2 ^ 32 * 2 ^ 32) (v % 2 ^ 32) ≡ v =
      omega (arith, bit_or-shifted 32 (v / 2 ^ 32) (v % 2 ^ 32) (omega arith)) in
    subst (λ t. Reads read_u64 (be64 v) t) whole
      (>>=-Reads _ _ _ _ _ _ (read_u32-Reads (v / 2 ^ 32) (omega arith))
        (pure-Reads _ _ _ _ (read_u32-Reads (v % 2 ^ 32) (omega arith))))

pub read_bytes-Reads : (size : ℕ) (s : Bytes) → length s ≡ size → Reads (read_bytes size) s s
unfolding read_bytes
read_bytes-Reads size s e rest =
    let enough : ltb (length (s ++ rest)) size ≡ false = ground (arith, length-append s rest) in
    rw (enough, ← e, take-append, drop-append)

read_text-Reads :
    (maximum : ℕ) (s : Bytes) → length s ≤ maximum → Reads (read_text maximum (length s)) s s
unfolding read_text
read_text-Reads maximum s fits rest =
    let short : ltb maximum (length s) ≡ false = ground arith in
    let enough : ltb (length (s ++ rest)) (length s) ≡ false =
      ground (arith, length-append s rest) in
    rw (short, enough, take-append, drop-append)

pub read_string-Reads :
    (maximum : ℕ) (s : Bytes)
    → length s < 2 ^ 16
    → length s ≤ maximum
    → Reads (read_string maximum) (text s) s
unfolding read_string text
read_string-Reads maximum s short fits =
    >>=-Reads _ _ _ _ _ _ (read_u16-Reads (length s) short) (read_text-Reads maximum s fits)

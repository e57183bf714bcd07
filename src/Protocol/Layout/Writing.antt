-- ===== src/Protocol/Layout/Writing.antt =====
-- What the writer of shared/src/protocol.cpp appends, field by field, where it has room.
use custommodels.Base.{
  ℕ, ◌+◌, ◌/◌, ◌%◌, ◌^◌, ◌≤◌, ◌<◌, ◌≡◌, sym, ap, ◌∙◌, [], ◌∷◌, ◌++◌, some, arith, length,
  length-append, append_assoc, append-nil, leb, true,
}
use custommodels.Assets.{Bytes}
use custommodels.Protocol.Types.{maximum_packet_size}
use custommodels.Protocol.Writer.{
  Writer, ◌>>◌, write_byte, write_u8, write_u16, write_u32, write_u64, write_bytes, write_string,
  write_each,
}
use custommodels.Protocol.Layout.{IsU16, IsU32, IsU64, be16, be32, be64, text}

-- `w` appends `l` to whatever is written, if the packet has room for it.
abbrev pub Writes : Writer → Bytes → Type 0
Writes w l = (out : Bytes) → length out + length l ≤ maximum_packet_size → w out ≡ some (out ++ l)

>>-some :
    (w v : Writer) (out : Bytes) {longer : Bytes} → w out ≡ some longer → (w >> v) out ≡ v longer
unfolding ◌>>◌
>>-some w v out e = rw (e, ◌>>◌)

pub >>-Writes : (w v : Writer) (l k : Bytes) → Writes w l → Writes v k → Writes (w >> v) (l ++ k)
>>-Writes w v l k hw hv out room =
    >>-some w v out (hw out (omega (arith, length-append l k)))
    ∙ hv (out ++ l) (omega (arith, length-append l k, length-append out l))
    ∙ ap some (append_assoc out l k)

write_byte-Writes : (b : ℕ) → Writes (write_byte b) (b ∷ [])
unfolding write_byte
write_byte-Writes b out room = ground arith

pub write_u16-Writes : (v : ℕ) → IsU16 v → Writes (write_u16 v) (be16 v)
unfolding write_u16 be16
write_u16-Writes v h =
    let high : v / 2 ^ 8 % 256 ≡ v / 256 = omega arith in
    rw high (>>-Writes _ _ _ _ (write_byte-Writes (v / 256)) (write_byte-Writes (v % 256)))

pub write_u32-Writes : (v : ℕ) → IsU32 v → Writes (write_u32 v) (be32 v)
unfolding write_u32 be32
write_u32-Writes v h =
    let high : v / 2 ^ 24 % 256 ≡ v / 2 ^ 24 = omega arith in
    rw high (
      >>-Writes _ _ _ _ (write_byte-Writes _) (
        >>-Writes _ _ _ _ (write_byte-Writes _)
          (>>-Writes _ _ _ _ (write_byte-Writes _) (write_byte-Writes _))))

pub write_u64-Writes : (v : ℕ) → IsU64 v → Writes (write_u64 v) (be64 v)
unfolding write_u64 be64
write_u64-Writes v h =
    let high : v / 2 ^ 32 % 2 ^ 32 ≡ v / 2 ^ 32 = omega arith in
    rw high (
      >>-Writes _ _ _ _ (write_u32-Writes (v / 2 ^ 32) (omega arith))
        (write_u32-Writes (v % 2 ^ 32) (omega arith)))

pub write_bytes-Writes : (s : Bytes) → Writes (write_bytes s) s
unfolding write_bytes
write_bytes-Writes s out room = ground arith

pub write_string-Writes : (s : Bytes) → length s < 2 ^ 16 → Writes (write_string s) (text s)
unfolding write_string text
write_string-Writes s h out room =
    let size : length s % 2 ^ 16 ≡ length s = omega arith in
    let short : leb (length s) 0xffff ≡ true = ground arith in
    rw (short, size)
      (>>-Writes _ _ _ _ (write_u16-Writes (length s) h) (write_bytes-Writes s) out room)

pub write_each-Writes : (s : Bytes) → Writes (write_each s) s
unfolding write_each write_u8
write_each-Writes [] out room = ap some (sym (append-nil out))
write_each-Writes (b ∷ s) out room =
    rw (write_byte-Writes b out (omega arith), write_each)
      (write_each-Writes s (out ++ (b ∷ [])) (omega (arith, length-append out (b ∷ [])))
        ∙ ap some (append_assoc out (b ∷ []) s))

-- ===== src/Assets/Segments.antt =====
-- The path segments of a logical name: `HasInvalidPathSegment` of shared/src/assets.cpp.
use custommodels.Base.{
  ℕ, zero, suc, ◌+◌, ◌<◌, ◌≡◌, refl, Bool, true, false, ◌||◌, ◌&&◌, ◌∙◌, List, [], ◌∷◌, none, some,
  ◌==◌, if◌then◌else◌, length, take, drop, any, arith, ap, Option-cases, Bool-cases, inl, inr,
  subst,
}
use custommodels.Assets.Text.{Bytes, find_first}
use custommodels.Assets.Names.{
  is_invalid_segment, has_invalid_segment_from, has_invalid_path_segment,
}

-- The texts between the separators; there is always one.
abbrev pub prepend : ℕ → List Bytes → List Bytes
prepend c [] = (c ∷ []) ∷ []
prepend c (segment ∷ rest) = (c ∷ segment) ∷ rest

unfoldable pub split : Bytes → List Bytes
split [] = [] ∷ []
split (c ∷ name) = if c == b'/' then [] ∷ split name else prepend c (split name)

abbrev separates : ℕ → Bool
separates c = c == b'/'

split-none : (name : Bytes) → find_first separates name ≡ none → split name ≡ name ∷ []
unfolding split find_first
split-none [] h = refl
split-none (c ∷ name) h = elim (Bool-cases (c == b'/')) [
  | inl e ↦ absurd (found (rw e at h))
  | inr e ↦ elim (Option-cases (find_first separates name)) [
    | inl q ↦ rw (e, split-none name q) refl
    | inr (k, q) ↦ absurd (found (rw (e, q) at h))
  ]
]
  where
    found : {k : ℕ} → some k ≡ none → ⊥
    found q = cc

-- The segments that no name may have: none at all, a dot, and two dots.
unfoldable pub is_reserved : Bytes → Bool
is_reserved [] = true
is_reserved (c ∷ []) = c == b'.'
is_reserved (c ∷ d ∷ []) = c == b'.' && d == b'.'
is_reserved (c ∷ d ∷ e ∷ rest) = false

is_invalid_segment-is_reserved : (s : Bytes) → is_invalid_segment s ≡ is_reserved s
unfolding is_invalid_segment is_reserved
is_invalid_segment-is_reserved [] = refl
is_invalid_segment-is_reserved (c ∷ []) = ground arith
is_invalid_segment-is_reserved (c ∷ d ∷ []) = ground arith
is_invalid_segment-is_reserved (c ∷ d ∷ e ∷ rest) = ground arith

any-is_reserved : (l : List Bytes) → any is_invalid_segment l ≡ any is_reserved l
any-is_reserved [] = refl
any-is_reserved (s ∷ l) = rw (is_invalid_segment-is_reserved s, any-is_reserved l) refl

-- What the first separator cuts off.
record IsCut (name : Bytes) (k : ℕ) : Type 0 where
  segments : split name ≡ take k name ∷ split (drop (suc k) name)
  shorter : length (drop (suc k) name) < length name

split-some : (name : Bytes) (k : ℕ) → find_first separates name ≡ some k → IsCut name k
unfolding split find_first
split-some [] k h = cc
split-some (c ∷ name) k h = elim (Bool-cases (c == b'/')) [
  | inl e ↦
      let first : 0 ≡ k = some_eq (rw e at h) in
      subst (IsCut (c ∷ name)) first (record { segments = rw e refl; shorter = omega arith })
  | inr e ↦ elim (Option-cases (find_first separates name)) [
    | inl q ↦ absurd (missing (rw (e, q) at h))
    | inr (j, q) ↦
        let next : suc j ≡ k = some_eq (rw (e, q) at h) in
        let cut = split-some name j q in
        subst (IsCut (c ∷ name)) next
          (record { segments = rw (e, cut.segments) refl; shorter = omega (arith, cut.shorter) })
  ]
]
  where
    some_eq : {i : ℕ} → some i ≡ some k → i ≡ k
    some_eq q = cc

    missing : none ≡ some k → ⊥
    missing q = cc

has_invalid_segment_from-split :
    (fuel : ℕ) (name : Bytes)
    → length name < fuel
    → has_invalid_segment_from fuel name ≡ any is_invalid_segment (split name)
unfolding has_invalid_segment_from
has_invalid_segment_from-split zero name h = absurd (omega arith)
has_invalid_segment_from-split (suc fuel) name h = elim (Option-cases (find_first separates name)) [
  | inl q ↦ rw (q, has_invalid_segment_from, split-none name q) (last (is_invalid_segment name))
  | inr (k, q) ↦
      let cut = split-some name k q in
      let same : k + 1 ≡ suc k = omega arith in
      let next : drop (k + 1) name ≡ drop (suc k) name = ap (λ (n : ℕ). drop n name) same in
      let rest =
        has_invalid_segment_from-split fuel (drop (suc k) name) (omega (arith, cut.shorter)) in
      rw (q, has_invalid_segment_from, cut.segments, next, rest)
        (either (is_invalid_segment (take k name))
          (any is_invalid_segment (split (drop (suc k) name))))
]
  where
    last : (b : Bool) → b ≡ (b || false)
    last true = refl
    last false = refl

    either : (a b : Bool) → (if a then true else b) ≡ (a || b)
    either true b = refl
    either false b = refl

-- The scan finds an invalid segment exactly where one of the texts between the separators is empty,
-- a dot or two dots; no name is too long for it.
pub has_invalid_path_segment-split :
    (name : Bytes) → has_invalid_path_segment name ≡ any is_reserved (split name)
unfolding has_invalid_path_segment
has_invalid_path_segment-split name =
    has_invalid_segment_from-split (length name + 1) name (omega arith)
    ∙ any-is_reserved (split name)

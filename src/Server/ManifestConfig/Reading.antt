-- ===== src/Server/ManifestConfig/Reading.antt =====
-- The fields of a line that was read: server/src/manifest_config.cpp.
use custommodels.Base.{
  ℕ, ◌-◌, ◌%◌, ◌^◌, ◌<◌, Bool, true, false, not, ◌||◌, ◌&&◌, List, [], ◌∷◌, Option, none, some, leb,
  ◌==◌, if◌then◌else◌, All, arith, Bool-cases, Option-cases, inl, inr, subst,
}
use custommodels.Assets.{Bytes}
use custommodels.Assets.Text.{is_empty}
use custommodels.Protocol.Layout.{IsByte}
use custommodels.Server.Registry.{size}
use custommodels.Server.ManifestConfig.{
  is_blank, is_space, is_digit, read_signed, cons_first, drop_while, take_while, trim_end, trim,
  lines_of, read_word, read_digits, number_of, read_number, Fields, read_fields,
}

module _ (p : ℕ → Bool) where
  drop_while-All : (cs : Bytes) → All IsByte cs → All IsByte (drop_while p cs)
  unfolding drop_while
  drop_while-All [] h = tt
  drop_while-All (c ∷ cs) h = elim (Bool-cases (p c)) [
    | inl e ↦ rw e (drop_while-All cs h.1)
    | inr e ↦ rw e h
  ]

  take_while-All : (cs : Bytes) → All IsByte cs → All IsByte (take_while p cs)
  unfolding take_while
  take_while-All [] h = tt
  take_while-All (c ∷ cs) h = elim (Bool-cases (p c)) [
    | inl e ↦ rw e (h.0, take_while-All cs h.1)
    | inr e ↦ rw e tt
  ]

trim_end-All : (cs : Bytes) → All IsByte cs → All IsByte (trim_end cs)
unfolding trim_end
trim_end-All [] h = tt
trim_end-All (c ∷ cs) h = elim (Bool-cases (is_empty (trim_end cs) && is_blank c)) [
  | inl e ↦ rw e tt
  | inr e ↦ rw e (h.0, trim_end-All cs h.1)
]

pub trim-All : (cs : Bytes) → All IsByte cs → All IsByte (trim cs)
unfolding trim
trim-All cs h = trim_end-All (drop_while is_blank cs) (drop_while-All is_blank cs h)

pub lines_of-All : (cs : Bytes) → All IsByte cs → All (All IsByte) (lines_of cs)
unfolding lines_of
lines_of-All [] h = tt
lines_of-All (c ∷ cs) h = elim (Bool-cases (c == 10)) [
  | inl e ↦ rw e (tt, lines_of-All cs h.1)
  | inr e ↦ rw e (first (lines_of cs) (lines_of-All cs h.1))
]
  where
    first : (lines : List Bytes) → All (All IsByte) lines → All (All IsByte) (cons_first c lines)
    first [] v = ((h.0, tt), tt)
    first (line ∷ lines) v = ((h.0, v.0), v.1)

-- A word that was read and what is left of the line.
IsWord : Option (Bytes × Bytes) → Type 0
IsWord none = Unit {0}
IsWord (some (word, rest)) = All IsByte word × All IsByte rest

read_word-IsWord : (cs : Bytes) → All IsByte cs → IsWord (read_word cs)
unfolding read_word IsWord
read_word-IsWord cs h = elim (Bool-cases (is_empty (drop_while is_space cs))) [
  | inl e ↦ rw (read_word, e) tt
  | inr e ↦
      rw (read_word, e)
        (
          take_while-All (λ c. not (is_space c)) (drop_while is_space cs)
              (drop_while-All is_space cs h),
          drop_while-All (λ c. not (is_space c)) (drop_while is_space cs)
              (drop_while-All is_space cs h),
        )
]

-- A number that was read, of at most 32 or 64 bits, and what is left of the line.
IsNumber : ℕ → Option (ℕ × Bytes) → Type 0
IsNumber bound none = Unit {0}
IsNumber bound (some (n, rest)) = (n < bound) × All IsByte rest

signed_fits : (bound n : ℕ) (b : Bool) → n < bound → (if b then (bound - n) % bound else n) < bound
signed_fits bound n true h = omega arith
signed_fits bound n false h = h

read_digits-IsNumber :
    (width : ℕ) (b : Bool) (cs : Bytes)
    → All IsByte cs
    → IsNumber (2 ^ width) (read_digits width b cs)
unfolding read_digits IsNumber
read_digits-IsNumber width b cs h =
    let value = number_of 0 (take_while is_digit cs) in
    elim (Bool-cases (is_empty (take_while is_digit cs) || leb (2 ^ width) value)) [
      | inl e ↦ rw (read_digits, e) tt
      | inr e ↦
          rw (read_digits, e)
            (signed_fits (2 ^ width) value b (ground (arith, e)), drop_while-All is_digit cs h)
    ]

read_signed-IsNumber :
    (width : ℕ) (cs : Bytes) → All IsByte cs → IsNumber (2 ^ width) (read_signed width cs)
unfolding IsNumber
read_signed-IsNumber width [] h = tt
read_signed-IsNumber width (c ∷ cs) h = elim (Bool-cases (c == b'-')) [
  | inl m ↦ rw m (read_digits-IsNumber width true cs h.1)
  | inr m ↦ elim (Bool-cases (c == b'+')) [
    | inl q ↦ rw (m, q) (read_digits-IsNumber width false cs h.1)
    | inr q ↦ rw (m, q) (read_digits-IsNumber width false (c ∷ cs) h)
  ]
]

read_number-IsNumber :
    (width : ℕ) (cs : Bytes) → All IsByte cs → IsNumber (2 ^ width) (read_number width cs)
unfolding read_number
read_number-IsNumber width cs h =
    read_signed-IsNumber width (drop_while is_space cs) (drop_while-All is_space cs h)

-- The fields fit in their types.
abbrev pub AreFields : Option Fields → Type 0
AreFields none = Unit {0}
AreFields (some f) =
    (f.asset_id < 2 ^ 32) × (f.file_size < 2 ^ 64) × All IsByte f.logical_name × All IsByte f.url

pub read_fields-AreFields : (line : Bytes) → All IsByte line → AreFields (read_fields line)
unfolding read_fields IsNumber IsWord
read_fields-AreFields line h = elim (Option-cases (read_number 32 line)) [
  | inl q1 ↦ rw (read_fields, q1) tt
  | inr ((id, a), q1) ↦
      let n1 : IsNumber (2 ^ 32) (some (id, a)) =
        subst (λ o. IsNumber (2 ^ 32) o) q1 (read_number-IsNumber 32 line h) in
      elim (Option-cases (read_word a)) [
        | inl q2 ↦ rw (read_fields, q1, q2) tt
        | inr ((type, b), q2) ↦
            let n2 : IsWord (some (type, b)) = subst (λ o. IsWord o) q2 (read_word-IsWord a n1.1) in
            elim (Option-cases (read_word b)) [
              | inl q3 ↦ rw (read_fields, q1, q2, q3) tt
              | inr ((name, c), q3) ↦
                  let n3 : IsWord (some (name, c)) =
                    subst (λ o. IsWord o) q3 (read_word-IsWord b n2.1) in
                  elim (Option-cases (read_word c)) [
                    | inl q4 ↦ rw (read_fields, q1, q2, q3, q4) tt
                    | inr ((url, d), q4) ↦
                        let n4 : IsWord (some (url, d)) =
                          subst (λ o. IsWord o) q4 (read_word-IsWord c n3.1) in
                        elim (Option-cases (read_number 64 d)) [
                          | inl q5 ↦ rw (read_fields, q1, q2, q3, q4, q5) tt
                          | inr ((size, e), q5) ↦
                              let n5 : IsNumber (2 ^ 64) (some (size, e)) =
                                subst (λ o. IsNumber (2 ^ 64) o) q5
                                  (read_number-IsNumber 64 d n4.1) in
                              elim (Option-cases (read_word e)) [
                                | inl q6 ↦ rw (read_fields, q1, q2, q3, q4, q5, q6) tt
                                | inr ((sha256, f), q6) ↦
                                    let n6 : IsWord (some (sha256, f)) =
                                      subst (λ o. IsWord o) q6 (read_word-IsWord e n5.1) in
                                    elim (Option-cases (read_word f)) [
                                      | inl q7 ↦
                                          rw (read_fields, q1, q2, q3, q4, q5, q6, q7)
                                            (n1.0, n5.0, n3.0, n4.0)
                                      | inr (trailing, q7) ↦
                                          rw (read_fields, q1, q2, q3, q4, q5, q6, q7) tt
                                    ]
                              ]
                        ]
                  ]
            ]
      ]
]

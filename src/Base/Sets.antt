-- ===== src/Base/Sets.antt =====
-- Sets of numbers as lists without repetition: sizes and membership.
use Prim.Native.Nat.{ℕ, suc, ◌≤◌}
use mathlib.Core.Path.{◌≡◌, refl}
use mathlib.Core.Logic.{inl, inr}
use mathlib.Core.Bool.{true, false}
use mathlib.Core.List.{List, [], ◌∷◌}
use native.Mathlib.Omega.{arith}
use custommodels.Base.Tests.{◌==◌, Bool-cases}
use custommodels.Base.Lists.{length, All}
use custommodels.Base.Maps.{nat_key, has, insert, remove, ==→eq, ==→refl}

-- No number stands twice.
abbrev pub IsDistinct : List ℕ → Type 0
IsDistinct [] = Unit {0}
IsDistinct (x ∷ s) = (has x s ≡ false) × IsDistinct s

-- Every number of the first list is in the second.
abbrev pub AreIn : List ℕ → List ℕ → Type 0
AreIn s t = All (λ x. has x t ≡ true) s

pub length-remove : (x : ℕ) (s : List ℕ) → has x s ≡ true → length s ≡ suc (length (remove x s))
unfolding has remove
length-remove x [] h = cc
length-remove x (y ∷ s) h = ground (arith, length-remove x s)

has-remove : (x y : ℕ) (s : List ℕ) → has y s ≡ true → (x == y) ≡ false → has y (remove x s) ≡ true
unfolding has remove
has-remove x y [] h e = cc
has-remove x y (z ∷ s) h e = ground (arith, has-remove x y s, ==→eq z x, ==→eq z y, ==→refl y, e)

AreIn-remove : (x : ℕ) (s t : List ℕ) → has x s ≡ false → AreIn s t → AreIn s (remove x t)
unfolding has
AreIn-remove x [] t e h = tt
AreIn-remove x (y ∷ s) t e h =
    (has-remove x y t h.0 (ground (arith, e)), AreIn-remove x s t (ground (arith, e)) h.1)

-- A set inside another is no larger.
pub AreIn-length : (s t : List ℕ) → IsDistinct s → AreIn s t → length s ≤ length t
AreIn-length [] t d h = omega arith
AreIn-length (x ∷ s) t d h =
    omega
      (arith, length-remove x t h.0, AreIn-length s (remove x t) d.1 (AreIn-remove x s t d.0 h.1))

here : (y : ℕ) (u : List ℕ) → has y (y ∷ u) ≡ true
unfolding has
here y u = ground (arith, ==→refl y)

later : (z y : ℕ) (u : List ℕ) → has z u ≡ true → has z (y ∷ u) ≡ true
unfolding has
later z y u h = ground (arith, h)

-- A set inside another of its size holds all of it.
pub AreIn-full : (s t : List ℕ) → IsDistinct s → AreIn s t → length s ≡ length t → AreIn t s
AreIn-full s t d h e = all_in t (λ y q. q)
  where
    all_in : (u : List ℕ) → ((y : ℕ) → has y u ≡ true → has y t ≡ true) → AreIn u s
    all_in [] within = tt
    all_in (y ∷ u) within =
        let inside : has y t ≡ true = within y (here y u) in
        (
          elim (Bool-cases (has y s)) [
            | inl q ↦ q
            | inr q ↦ absurd (omega (arith, AreIn-length (y ∷ s) t (q, d) (inside, h), e))
          ],
          all_in u (λ z q. within z (later z y u q)),
        )

pub insert-IsDistinct : (x : ℕ) (s : List ℕ) → IsDistinct s → IsDistinct (insert x s)
unfolding insert
insert-IsDistinct x s d = elim (Bool-cases (has x s)) [ inl e ↦ rw e d | inr e ↦ rw e (e, d) ]

-- What an insertion holds, it inserted or held before.
pub All-insert : (P : ℕ → Type 0) (x : ℕ) (s : List ℕ) → P x → All P s → All P (insert x s)
unfolding insert
All-insert P x s p h = elim (Bool-cases (has x s)) [ inl e ↦ rw e h | inr e ↦ rw e (p, h) ]

-- What a removal leaves is not the number removed.
pub All-remove :
    (P Q : ℕ → Type 0) (x : ℕ) (s : List ℕ)
    → IsDistinct s
    → ((y : ℕ) → (x == y) ≡ false → P y → Q y)
    → All P s
    → All Q (remove x s)
unfolding remove has
All-remove P Q x [] d f h = tt
All-remove P Q x (y ∷ s) d f h = elim (Bool-cases (y == x)) [
  | inl e ↦ rw e (others s (rw (==→eq y x e) at d.0) h.1)
  | inr e ↦ rw e (f y (ground arith) h.0, All-remove P Q x s d.1 f h.1)
]
  where
    others : (u : List ℕ) → has x u ≡ false → All P u → All Q u
    others [] n h = tt
    others (z ∷ u) n h = (f z (ground (arith, n)) h.0, others u (ground (arith, n)) h.1)

has-remove_other : (x y : ℕ) (s : List ℕ) → has y s ≡ false → has y (remove x s) ≡ false
unfolding has remove
has-remove_other x y [] h = h
has-remove_other x y (z ∷ s) h = ground (arith, h, has-remove_other x y s)

pub remove-IsDistinct : (x : ℕ) (s : List ℕ) → IsDistinct s → IsDistinct (remove x s)
unfolding remove
remove-IsDistinct x [] d = tt
remove-IsDistinct x (y ∷ s) d = elim (Bool-cases (y == x)) [
  | inl e ↦ rw e d.1
  | inr e ↦ rw e (has-remove_other x y s d.0, remove-IsDistinct x s d.1)
]

pub has-remove_same : (x : ℕ) (s : List ℕ) → IsDistinct s → has x (remove x s) ≡ false
unfolding has remove
has-remove_same x [] d = refl
has-remove_same x (y ∷ s) d = ground (arith, ==→eq y x, d.0, has-remove_same x s d.1)

pub length-insert : (x : ℕ) (s : List ℕ) → length s ≤ length (insert x s)
unfolding insert
length-insert x s = elim (Bool-cases (has x s)) [
  | inl e ↦ rw e (omega arith)
  | inr e ↦ rw e (omega arith)
]

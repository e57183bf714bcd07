-- ===== src/Base/Bits.antt =====
-- Facts about `bit_and` and `bit_or` at variables, from the digit recursion that they stand for.
use Prim.Native.Nat.{
  ℕ, zero, suc, ◌+◌, ◌-◌, ◌*◌, ◌/◌, ◌%◌, ◌^◌, ◌≤◌, ◌<◌, min, max, bit_and, bit_or, digits,
  bit_and-bitwise, bit_or-bitwise,
}
use mathlib.Core.Path.{◌≡◌, refl, sym, ap, ◌∙◌}
use native.Mathlib.Omega.{arith}
use native.Mathlib.Nat.{
  pow-suc, one-le-pow, div-add-mod, mod-lt, mul-add-mod_self_left, mod-eq_of_lt,
}

-- Any count of digits that covers `a` gives the same result.
module _ (rest : ℕ → ℕ) (digit : ℕ → ℕ → ℕ) where
  digits-agree : (n m a b : ℕ) → a ≤ n → a ≤ m → digits rest digit n a b ≡ digits rest digit m a b
  digits-agree n m zero b h k = exhausted n ∙ sym (exhausted m)
    where
      exhausted : (j : ℕ) → digits rest digit j 0 b ≡ rest b
      exhausted zero = refl
      exhausted (suc j) = refl
  digits-agree zero m (suc a) b h k = absurd (omega arith)
  digits-agree (suc n) zero (suc a) b h k = absurd (omega arith)
  digits-agree (suc n) (suc m) (suc a) b h k =
      rw (digits-agree n m (suc a / 2) (b / 2) (omega arith) (omega arith))

  digits-halves :
      (a b : ℕ)
      → digits rest digit (suc a) (suc a) b
        ≡ digits rest digit (suc a / 2) (suc a / 2) (b / 2) * 2 + digit (suc a % 2) (b % 2)
  digits-halves a b =
      rw (digits-agree a (suc a / 2) (suc a / 2) (b / 2) (omega arith) (omega arith))

pub bit_or-halves : (a b : ℕ) → bit_or a b ≡ bit_or (a / 2) (b / 2) * 2 + max (a % 2) (b % 2)
bit_or-halves zero b = simp bit_or-bitwise (omega arith)
bit_or-halves (suc a) b = simp bit_or-bitwise (digits-halves (λ y. y) max a b)

pub bit_and-halves : (a b : ℕ) → bit_and a b ≡ bit_and (a / 2) (b / 2) * 2 + min (a % 2) (b % 2)
bit_and-halves zero b = simp bit_and-bitwise (omega arith)
bit_and-halves (suc a) b = simp bit_and-bitwise (digits-halves (λ y. 0) min a b)

double-shift : (q k : ℕ) → q * 2 ^ suc k ≡ q * 2 ^ k * 2
double-shift q k = omega (arith, ap (λ (t : ℕ). q * t) (pow-suc 2 k))

-- Induction on a number of binary digits that covers `a`.
bit_or-none : (n a : ℕ) → a ≤ n → bit_or a 0 ≡ a
bit_or-none n zero h = refl
bit_or-none zero (suc a) h = absurd (omega arith)
bit_or-none (suc n) (suc a) h =
    omega (arith, bit_or-halves (suc a) 0, bit_or-none n (suc a / 2) (omega arith))

bit_and-none : (n a : ℕ) → a ≤ n → bit_and a 0 ≡ 0
bit_and-none n zero h = refl
bit_and-none zero (suc a) h = absurd (omega arith)
bit_and-none (suc n) (suc a) h =
    omega (arith, bit_and-halves (suc a) 0, bit_and-none n (suc a / 2) (omega arith))

pub bit_and-zero : (a : ℕ) → bit_and a 0 ≡ 0
bit_and-zero a = bit_and-none a a (omega arith)

-- `(high << k) | low` is a sum when `low` has at most `k` digits.
pub bit_or-shifted : (k high low : ℕ) → low < 2 ^ k → bit_or (high * 2 ^ k) low ≡ high * 2 ^ k + low
bit_or-shifted zero high low h = ground (arith, bit_or-none high high (omega arith))
bit_or-shifted (suc k) high low h =
    let half = bit_or-shifted k high (low / 2) (omega (arith, pow-suc 2 k)) in
    let shift = double-shift high k in
    let split = bit_or-halves (high * 2 ^ k * 2) low in rw shift (ground (arith, half, split))

mod-double : (a p : ℕ) → 0 < p → a % (2 * p) ≡ a / 2 % p * 2 + a % 2
mod-double a p h =
    let r = a / 2 % p * 2 + a % 2 in
    let whole : a ≡ 2 * p * (a / 2 / p) + r = omega (arith, div-add-mod (a / 2) p) in
    let bound : r < 2 * p = omega (arith, mod-lt (a / 2) h) in
    ap (λ (t : ℕ). t % (2 * p)) whole
    ∙ mul-add-mod_self_left (2 * p) (a / 2 / p) r
    ∙ mod-eq_of_lt bound

-- The mask of `k` ones keeps the remainder by `2 ^ k`.
pub bit_and-ones : (k a : ℕ) → bit_and a (2 ^ k - 1) ≡ a % 2 ^ k
bit_and-ones zero a = bit_and-zero a ∙ omega arith
bit_and-ones (suc k) a =
    let half = bit_and-ones k (a / 2) in
    let split = bit_and-halves a (2 * 2 ^ k - 1) in
    let double : 2 ^ suc k ≡ 2 * 2 ^ k = omega (arith, pow-suc 2 k) in
    rw double (ground (arith, half, split, one-le-pow k 2, mod-double a (2 ^ k)))

-- What two flag words share lies in the first: it has no digit in the first one's complement.
pub bit_and-complement : (k a b c : ℕ) → a + c + 1 ≡ 2 ^ k → bit_and (bit_and a b) c ≡ 0
bit_and-complement zero a b c h =
    let none : c ≡ 0 = omega arith in rw none (bit_and-zero (bit_and a b))
bit_and-complement (suc k) a b c h =
    let double : 2 ^ suc k ≡ 2 * 2 ^ k = omega (arith, pow-suc 2 k) in
    let half = bit_and-complement k (a / 2) (b / 2) (c / 2) (omega arith) in
    let shared = bit_and-halves a b in
    let split = bit_and-halves (bit_and a b) c in ground (arith, half, split, shared, double)

bit_and-zero_left : (b : ℕ) → bit_and 0 b ≡ 0
bit_and-zero_left b = simp bit_and-bitwise refl

-- What two words share is no more than the first.
pub bit_and-le : (a b : ℕ) → bit_and a b ≤ a
bit_and-le a b = below a a b (omega arith)
  where
    below : (n a b : ℕ) → a ≤ n → bit_and a b ≤ a
    below n zero b h = omega (arith, bit_and-zero_left b)
    below zero (suc a) b h = absurd (omega arith)
    below (suc n) (suc a) b h =
        omega (arith, bit_and-halves (suc a) b, below n (suc a / 2) (b / 2) (omega arith))

-- Where the first word has no digit of a mask, what it shares with another has none.
pub bit_and-masked : (a b c : ℕ) → bit_and a c ≡ 0 → bit_and (bit_and a b) c ≡ 0
bit_and-masked a b c h = masked a a b c (omega arith) h
  where
    masked : (n a b c : ℕ) → a ≤ n → bit_and a c ≡ 0 → bit_and (bit_and a b) c ≡ 0
    masked n zero b c h e = rw (bit_and-zero_left b) (bit_and-zero_left c)
    masked zero (suc a) b c h e = absurd (omega arith)
    masked (suc n) (suc a) b c h e =
        let shared = bit_and-halves (suc a) b in
        let split = bit_and-halves (bit_and (suc a) b) c in
        let whole = bit_and-halves (suc a) c in
        let high : bit_and (suc a / 2) (c / 2) ≡ 0 = omega arith in
        let half = masked n (suc a / 2) (b / 2) (c / 2) (omega arith) high in
        ground (arith, half, shared, split, whole)

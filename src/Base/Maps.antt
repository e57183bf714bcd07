-- ===== src/Base/Maps.antt =====
-- `std::unordered_map` and `std::unordered_set` as lists with distinct keys. The order of a list is
-- the representation's own: nothing but an iteration depends on it.
use Prim.Native.Nat.{ℕ}
use mathlib.Core.Path.{◌≡◌, refl, ◌∙◌}
use mathlib.Core.Logic.{inl, inr}
use mathlib.Core.Bool.{Bool, true, false, ◌||◌}
use mathlib.Core.List.{List, [], ◌∷◌}
use mathlib.Core.Option.{Option, none, some}
use native.Mathlib.Omega.{arith}
use custommodels.Base.Tests.{
  ◌==◌, ==_iff, same_bytes, same_bytes→eq, same_bytes_refl, if◌then◌else◌, Bool-cases,
}

-- The equality of a key type.
pub record Key {ℓ} (K : Type ℓ) : Type ℓ where
  pub same : K → K → Bool
  pub same→eq : (a b : K) → same a b ≡ true → a ≡ b
  pub same_refl : (a : K) → same a a ≡ true

pub ==→eq : (a b : ℕ) → (a == b) ≡ true → a ≡ b
==→eq a b = (==_iff a b).0

pub ==→refl : (a : ℕ) → (a == a) ≡ true
==→refl a = ground arith

instance abbrev pub nat_key : Key ℕ
nat_key = record { same = ◌==◌; same→eq = ==→eq; same_refl = ==→refl }

instance abbrev pub bytes_key : Key (List ℕ)
bytes_key = record { same = same_bytes; same→eq = same_bytes→eq; same_refl = same_bytes_refl }

module _ {ℓ} {K : Type ℓ} ⦃key : Key K⦄ where
  pub same-false : (a b : K) → key.same a b ≡ false → key.same b a ≡ false
  same-false a b h = ground (arith, key.same→eq b a, key.same_refl a, key.same_refl b)

module _ {ℓ κ} {K : Type ℓ} {V : Type κ} ⦃key : Key K⦄ where
  unfoldable pub find : K → List (K × V) → Option V
  find k [] = none
  find k ((j, v) ∷ m) = if key.same j k then some v else find k m

  -- `m[k] = v`.
  unfoldable pub put : K → V → List (K × V) → List (K × V)
  put k v [] = (k, v) ∷ []
  put k v ((j, w) ∷ m) = if key.same j k then (j, v) ∷ m else (j, w) ∷ put k v m

  -- `m.emplace(k, v)`, which keeps an entry that is there.
  unfoldable pub emplace : K → V → List (K × V) → List (K × V)
  unfolding find
  emplace k v m = elim (find k m) [ none ↦ (k, v) ∷ m | some w ↦ m ]

  unfoldable pub erase : K → List (K × V) → List (K × V)
  erase k [] = []
  erase k ((j, w) ∷ m) = if key.same j k then m else (j, w) ∷ erase k m

  -- The keys are distinct.
  abbrev pub IsMap : List (K × V) → Type κ
  IsMap [] = Unit
  IsMap ((k, v) ∷ m) = (find k m ≡ none) × IsMap m

  pub emplace-new :
      (k : K) (v : V) (m : List (K × V)) → find k m ≡ none → emplace k v m ≡ (k, v) ∷ m
  unfolding emplace
  emplace-new k v m h = rw (h, emplace)

  pub find-put :
      (k j : K) (v : V) (m : List (K × V))
      → find j (put k v m) ≡ (if key.same k j then some v else find j m)
  unfolding find put
  find-put k j v [] = refl
  find-put k j v ((i, w) ∷ m) = ground (
    arith,
    key.same→eq i k,
    key.same→eq i j,
    key.same→eq k j,
    key.same_refl k,
    key.same_refl j,
    find-put k j v m,
  )

  pub find-erase :
      (k j : K) (m : List (K × V))
      → IsMap m
      → find j (erase k m) ≡ (if key.same k j then none else find j m)
  unfolding find erase
  find-erase k j [] h = ground arith
  find-erase k j ((i, w) ∷ m) h = ground (
    arith,
    h.0,
    key.same→eq i k,
    key.same→eq i j,
    key.same→eq k j,
    key.same_refl k,
    key.same_refl j,
    find-erase k j m h.1,
  )

  pub put-IsMap : (k : K) (v : V) (m : List (K × V)) → IsMap m → IsMap (put k v m)
  unfolding put find
  put-IsMap k v [] h = (refl, tt)
  put-IsMap k v ((i, w) ∷ m) h = elim (Bool-cases (key.same i k)) [
    | inl e ↦ rw e h
    | inr e ↦
        let fresh = find-put k i v m ∙ rw (same-false i k e) h.0 in
        rw e (fresh, put-IsMap k v m h.1)
  ]

  pub erase-IsMap : (k : K) (m : List (K × V)) → IsMap m → IsMap (erase k m)
  unfolding erase
  erase-IsMap k [] h = h
  erase-IsMap k ((i, w) ∷ m) h = elim (Bool-cases (key.same i k)) [
    | inl e ↦ rw e h.1
    | inr e ↦
        let fresh = find-erase k i m h.1 ∙ rw (same-false i k e) h.0 in
        rw e (fresh, erase-IsMap k m h.1)
  ]

module _ {ℓ} {K : Type ℓ} ⦃key : Key K⦄ where
  -- A set: `count`, `insert(k).second` with the set after it, and `erase`.
  unfoldable pub has : K → List K → Bool
  has k [] = false
  has k (j ∷ s) = key.same j k || has k s

  unfoldable pub insert : K → List K → List K
  unfolding has
  insert k s = if has k s then s else k ∷ s

  unfoldable pub remove : K → List K → List K
  remove k [] = []
  remove k (j ∷ s) = if key.same j k then s else j ∷ remove k s

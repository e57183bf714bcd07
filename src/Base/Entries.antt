-- ===== src/Base/Entries.antt =====
-- A property that every entry of a map keeps.
use mathlib.Core.Path.{◌≡◌}
use mathlib.Core.Logic.{inl, inr}
use mathlib.Core.Bool.{true}
use mathlib.Core.List.{List, [], ◌∷◌}
use mathlib.Core.Option.{some}
use native.Mathlib.Omega.{arith}
use custommodels.Base.Tests.{Bool-cases}
use custommodels.Base.Lists.{All}
use custommodels.Base.Maps.{Key, find, put, erase, has, insert}

module _ {ℓ κ} {K : Type ℓ} {V : Type κ} ⦃key : Key K⦄ (P : V → Type 0) where
  -- Every value of the map has the property.
  abbrev pub AllValues : List (K × V) → Type 0
  AllValues m = All (λ entry. P entry.1) m

  pub AllValues-put : (k : K) (v : V) (m : List (K × V)) → P v → AllValues m → AllValues (put k v m)
  unfolding put
  AllValues-put k v [] p h = (p, tt)
  AllValues-put k v ((j, w) ∷ m) p h = elim (Bool-cases (key.same j k)) [
    | inl e ↦ rw e (p, h.1)
    | inr e ↦ rw e (h.0, AllValues-put k v m p h.1)
  ]

  pub AllValues-erase : (k : K) (m : List (K × V)) → AllValues m → AllValues (erase k m)
  unfolding erase
  AllValues-erase k [] h = h
  AllValues-erase k ((j, w) ∷ m) h = elim (Bool-cases (key.same j k)) [
    | inl e ↦ rw e h.1
    | inr e ↦ rw e (h.0, AllValues-erase k m h.1)
  ]

  pub find-AllValues : (k : K) (v : V) (m : List (K × V)) → find k m ≡ some v → AllValues m → P v
  unfolding find
  find-AllValues k v [] e h = cc
  find-AllValues k v ((j, w) ∷ m) e h = elim (Bool-cases (key.same j k)) [
    | inl q ↦ let same : w ≡ v = ground (arith, q) in rw (← same) h.0
    | inr q ↦ find-AllValues k v m (rw q at e) h.1
  ]

module _ {ℓ} {K : Type ℓ} ⦃key : Key K⦄ where
  -- What a set holds after an insertion.
  pub has-insert_same : (x : K) (s : List K) → has x (insert x s) ≡ true
  unfolding has insert
  has-insert_same x s = ground (arith, key.same_refl x)

  pub has-insert : (x y : K) (s : List K) → has y s ≡ true → has y (insert x s) ≡ true
  unfolding has insert
  has-insert x y s h = ground (arith, h)

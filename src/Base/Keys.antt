-- ===== src/Base/Keys.antt =====
-- Keys with a Boolean equality, and the maps and lists over them that the caches keep.
use Prim.Native.Nat.{ℕ, suc, ◌+◌, ◌-◌}
use mathlib.Core.Path.{◌≡◌, refl}
use mathlib.Core.Logic.{◌↔◌}
use mathlib.Core.List.{List, [], ◌∷◌, ◌++◌}
use mathlib.Core.Bool.{Bool, true}
use native.Mathlib.Omega.{arith}
use hscfs.Base.Tests.{if◌then◌else◌}
use hscfs.Base.Tests.{◌==◌ as nat_eq, ==_iff}

pub record Eq {ℓ} (A : Type ℓ) : Type ℓ where
  pub beq : A → A → Bool
  pub beq_iff : (a b : A) → (beq a b ≡ true) ↔ (a ≡ b)

infix 50 ◌=?◌
abbrev pub ◌=?◌ {ℓ} : {A : Type ℓ} ⦃e : Eq A⦄ → A → A → Bool
◌=?◌ ⦃e⦄ = e.beq

instance abbrev pub nat_key : Eq ℕ
nat_key = record { beq = nat_eq; beq_iff = ==_iff }

module _ {ℓ} {K : Type ℓ} ⦃e : Eq K⦄ where
  pub =?_refl : (k : K) → (k =? k) ≡ true
  =?_refl k = (e.beq_iff k k).1 refl

  -- How often a key stands in a list.
  abbrev pub count : K → List K → ℕ
  count k [] = 0
  count k (x ∷ xs) = if x =? k then suc (count k xs) else count k xs

  -- The removal of an element of a `std::list`, given by its key.
  abbrev pub erase : K → List K → List K
  erase k [] = []
  erase k (x ∷ xs) = if x =? k then xs else x ∷ erase k xs

  pub count-append : (k : K) (xs ys : List K) → count k (xs ++ ys) ≡ count k xs + count k ys
  count-append k [] ys = omega arith
  count-append k (x ∷ xs) ys = ground (arith, count-append k xs ys)

  pub count-erase :
      (j k : K) (xs : List K)
      → count j (erase k xs) ≡ (if k =? j then count j xs - 1 else count j xs)
  count-erase j k [] = ground arith
  count-erase j k (x ∷ xs) =
      ground (arith, count-erase j k xs, e.beq_iff x k, e.beq_iff k j, e.beq_iff x j)

  pub count-snoc :
      (j k : K) (xs : List K)
      → count j (xs ++ k ∷ []) ≡ (if k =? j then suc (count j xs) else count j xs)
  count-snoc j k xs = ground (arith, count-append j xs (k ∷ []))

  -- A `std::unordered_map` as a function; `put f k none` erases the key.
  abbrev pub put {κ} : {V : Type κ} → (K → V) → K → V → K → V
  put f k v j = if k =? j then v else f j

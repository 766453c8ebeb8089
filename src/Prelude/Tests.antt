-- ===== src/Prelude/Tests.antt =====
-- Boolean tests on the native numbers, the conditional, and equality tests as instances.
use Prim.Native.Nat.{ℕ, compare, Ordering}
use mathlib.Core.Path.{◌≡◌, refl}
use mathlib.Core.Logic.{◌↔◌, ◌⊎◌, inl, inr}
use mathlib.Core.Bool.{Bool, true, false, ◌&&◌}
use mathlib.Core.Option.{Option, none, some}
use mathlib.Core.List.{List, [], ◌∷◌}
use native.Mathlib.Omega.{arith}

abbrev pub ltb : ℕ → ℕ → Bool
ltb a b = elim (compare a b) [ Ordering.lt ↦ true | _ ↦ false ]

abbrev pub leb : ℕ → ℕ → Bool
leb a b = elim (compare a b) [ Ordering.gt ↦ false | _ ↦ true ]

abbrev pub nat_beq : ℕ → ℕ → Bool
nat_beq a b = elim (compare a b) [ Ordering.eq ↦ true | _ ↦ false ]

infix 1 if◌then◌else◌
abbrev pub if◌then◌else◌ {ℓ} : {A : Type ℓ} → Bool → A → A → A
if true then x else y = x
if false then x else y = y

pub nat_beq_iff : (a b : ℕ) → (nat_beq a b ≡ true) ↔ (a ≡ b)
nat_beq_iff a b = ground arith

-- A key type of a `std::unordered_map`: its `operator==` tells exactly the equal keys apart.
pub record Eq {ℓ} (Key : Type ℓ) : Type ℓ where
  pub equal : Key → Key → Bool
  pub equal_refl : (k : Key) → equal k k ≡ true
  pub equal_sound : (k j : Key) → equal k j ≡ true → k ≡ j

module _ {ℓ} {Key : Type ℓ} ⦃keys : Eq Key⦄ where
  infix 50 ◌==◌
  abbrev pub ◌==◌ : Key → Key → Bool
  k == j = keys.equal k j

instance abbrev pub nat_eq : Eq ℕ
nat_eq = record {
  equal = nat_beq;
  equal_refl = λ k. (nat_beq_iff k k).1 refl;
  equal_sound = λ k j. (nat_beq_iff k j).0;
}

-- Byte strings.
abbrev pub bytes_beq : List ℕ → List ℕ → Bool
bytes_beq [] [] = true
bytes_beq [] (y ∷ ys) = false
bytes_beq (x ∷ xs) [] = false
bytes_beq (x ∷ xs) (y ∷ ys) = nat_beq x y && bytes_beq xs ys

pub bytes_beq_iff : (a b : List ℕ) → (bytes_beq a b ≡ true) ↔ (a ≡ b)
bytes_beq_iff [] [] = ground arith
bytes_beq_iff [] (y ∷ ys) = ground arith
bytes_beq_iff (x ∷ xs) [] = ground arith
bytes_beq_iff (x ∷ xs) (y ∷ ys) = ground (arith, bytes_beq_iff xs ys)

instance abbrev pub bytes_eq : Eq (List ℕ)
bytes_eq = record {
  equal = bytes_beq;
  equal_refl = λ k. (bytes_beq_iff k k).1 refl;
  equal_sound = λ k j. (bytes_beq_iff k j).0;
}

-- To split on a computed value and keep the equation.
pub Bool-cases : (b : Bool) → (b ≡ true) ⊎ (b ≡ false)
Bool-cases true = inl refl
Bool-cases false = inr refl

pub Option-cases {ℓ} : {A : Type ℓ} (o : Option A) → (o ≡ none) ⊎ ((a : A) × (o ≡ some a))
Option-cases none = inl refl
Option-cases (some a) = inr (a, refl)

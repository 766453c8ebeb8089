-- ===== src/Prelude/Maps.antt =====
-- A `std::unordered_map` whose order of iteration does not matter: a function into `Option`.
use mathlib.Core.Path.{◌≡◌}
use mathlib.Core.Logic.{◌↔◌}
use mathlib.Core.Bool.{Bool, false}
use mathlib.Core.Option.{Option, none, some}
use native.Mathlib.Omega.{arith}
use new_server.Prelude.Tests.{Eq, ◌==◌, if◌then◌else◌}

abbrev pub Map {ℓ κ} : Type ℓ → Type κ → Type (ℓ ⊔ κ)
Map K V = K → Option V

abbrev pub empty {ℓ κ} : {K : Type ℓ} {V : Type κ} → Map K V
empty k = none

module _ {ℓ κ} {K : Type ℓ} {V : Type κ} ⦃e : Eq K⦄ where
  -- `m[k] = v`
  abbrev pub put : Map K V → K → V → Map K V
  put m k v j = if k == j then some v else m j

  -- `m.erase(k)`
  abbrev pub erase : Map K V → K → Map K V
  erase m k j = if k == j then none else m j

-- The loop that erases each entry whose value passes the test.
abbrev pub erase_if {ℓ κ} : {K : Type ℓ} {V : Type κ} → (V → Bool) → Map K V → Map K V
erase_if test m j = elim (m j) [ none ↦ none | some v ↦ if test v then none else some v ]

-- What is left under a key by the loop that erases.
pub erase_if_iff {ℓ κ} :
    {K : Type ℓ} {V : Type κ} (test : V → Bool) (m : Map K V) (k : K) (v : V)
    → (erase_if test m k ≡ some v) ↔ ((m k ≡ some v) × (test v ≡ false))
erase_if_iff test m k v = ground arith
